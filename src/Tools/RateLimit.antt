-- ===== src/Tools/RateLimit.antt =====
-- `_parse_rate_limit` of app/tools/policy.py: "N/sec", "N/min", "N/hour", by the pattern
-- `^(\d+)/(sec|min|hour)$`. A text is the list of its code points; `\d` is read as an ASCII digit,
-- and `$` matches before a final newline too.
use makkays_chatbot.Prelude.{
  ℕ, String, ◌+◌, ◌-◌, ◌*◌, ◌≡◌, ◌⊎◌, refl, List, [], ◌∷◌, ◌++◌, Bool, true, false, ◌&&◌, ◌||◌,
  Option, none, some, leb, eqb, codes, All, if◌then◌else◌, arith,
}

abbrev pub is_digit : ℕ → Bool
is_digit c = leb b'0' c && leb c b'9'

-- The value of the leading digits and what follows them; `seen` says that there was one.
unfoldable pub span_digits : ℕ → Bool → List ℕ → Option (ℕ × List ℕ)
span_digits n seen [] = if seen then some (n, []) else none
span_digits n seen (c ∷ cs) =
    let longer = span_digits (n * 10 + (c - b'0')) true cs in
    if is_digit c then longer else if seen then some (n, c ∷ cs) else none

unfoldable pub same_text : List ℕ → List ℕ → Bool
same_text [] [] = true
same_text (x ∷ xs) (y ∷ ys) = eqb x y && same_text xs ys
same_text _ _ = false

-- `word$`
unfoldable pub ends_as : List ℕ → List ℕ → Bool
unfolding same_text
ends_as word text = same_text word text || same_text (word ++ 10 ∷ []) text

-- _WINDOW_SECONDS[unit], with the match of the unit
unfoldable pub window_seconds : List ℕ → Option ℕ
unfolding ends_as
window_seconds text =
    if ends_as (codes "sec") text
    then some 1
    else if ends_as (codes "min") text
    then some 60
    else if ends_as (codes "hour") text
    then some 3600
    else none

abbrev with_window : ℕ → Option ℕ → Option (ℕ × ℕ)
with_window limit none = none
with_window limit (some window) = some (limit, window)

abbrev after_digits : Option (ℕ × List ℕ) → Option (ℕ × ℕ)
after_digits none = none
after_digits (some (limit, [])) = none
after_digits (some (limit, c ∷ unit)) =
    let found = with_window limit (window_seconds unit) in if eqb c b'/' then found else none

-- `none` is the `ValueError`.
unfoldable pub parse_rate_limit : List ℕ → Option (ℕ × ℕ)
unfolding span_digits window_seconds
parse_rate_limit text = after_digits (span_digits 0 false text)

-- The number that a list of digits writes.
abbrev pub decimal_value : ℕ → List ℕ → ℕ
decimal_value n [] = n
decimal_value n (c ∷ cs) = decimal_value (n * 10 + (c - b'0')) cs

abbrev pub IsDigits : List ℕ → Type 0
IsDigits = All (λ c. is_digit c ≡ true)

span_digits-append :
    (n : ℕ) (ds : List ℕ) (c : ℕ) (rest : List ℕ)
    → IsDigits ds
    → is_digit c ≡ false
    → span_digits n true (ds ++ c ∷ rest) ≡ some (decimal_value n ds, c ∷ rest)
unfolding span_digits
span_digits-append n [] c rest h stop = rw stop
span_digits-append n (d ∷ ds) c rest h stop =
    rw h.0 (span_digits-append (n * 10 + (d - b'0')) ds c rest h.1 stop)

-- The units of a rate limit, their names and their lengths in seconds.
pub data TimeUnit : Type 0 where
  second minute hour : TimeUnit

abbrev pub name_of : TimeUnit → String
name_of second = "sec"
name_of minute = "min"
name_of hour = "hour"

abbrev pub seconds_of : TimeUnit → ℕ
seconds_of second = 1
seconds_of minute = 60
seconds_of hour = 60 * 60

window_seconds-name_of :
    (unit : TimeUnit) → window_seconds (codes (name_of unit)) ≡ some (seconds_of unit)
unfolding window_seconds
window_seconds-name_of second = refl
window_seconds-name_of minute = refl
window_seconds-name_of hour = refl

-- Digits, a slash and the name of a unit parse to the number that the digits write and to the length
-- of the unit: a second, sixty seconds or sixty times sixty.
pub parse_rate_limit_format :
    (d : ℕ) (ds : List ℕ) (unit : TimeUnit)
    → IsDigits (d ∷ ds)
    → parse_rate_limit (d ∷ ds ++ b'/' ∷ codes (name_of unit))
      ≡ some (decimal_value 0 (d ∷ ds), seconds_of unit)
unfolding parse_rate_limit
parse_rate_limit_format d ds unit h = rw (
  h.0,
  span_digits-append (0 * 10 + (d - b'0')) ds b'/' (codes (name_of unit)) h.1 refl,
  window_seconds-name_of unit,
)

pub window_seconds_cases :
    (unit : List ℕ) (window : ℕ)
    → window_seconds unit ≡ some window
    → (window ≡ 1) ⊎ ((window ≡ 60) ⊎ (window ≡ 3600))
unfolding window_seconds
window_seconds_cases unit window h = ground arith
