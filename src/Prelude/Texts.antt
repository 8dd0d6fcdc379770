-- ===== src/Prelude/Texts.antt =====
-- Methods of Python's `str`: strip, slices, case, substrings.
--
-- Case is that of ASCII: the program compares lowered texts with ASCII words, and the only other
-- letter that lowers to an ASCII one is the Kelvin sign.
use Prim.Native.Nat.{ℕ, zero, suc, ◌+◌}
use Prim.Native.Char.{code}
use Prim.Native.String.{String}
use mathlib.Core.Bool.{Bool, true, false, ◌&&◌, ◌||◌}
use mathlib.Core.List.{List, [], ◌∷◌, map}
use text.Mathlib.Text.{◌==◌}
use makkays_chatbot.Prelude.Tests.{leb, eqb, if◌then◌else◌}
use makkays_chatbot.Prelude.Lists.{any}
use makkays_chatbot.Prelude.Strings.{codes}

-- A space of Python's `str.strip`.
abbrev is_space : ℕ → Bool
is_space c =
    (leb 9 c && leb c 13)
    || (leb 28 c && leb c 32)
    || (leb 8192 c && leb c 8202)
    || any (eqb c) (133 ∷ 160 ∷ 5760 ∷ 8232 ∷ 8233 ∷ 8239 ∷ 8287 ∷ 12288 ∷ [])

abbrev left_strip : String → String
left_strip String.[] = ""
left_strip (String.◌∷◌ c s) =
    let rest = left_strip s in if is_space (code c) then rest else String.◌∷◌ c s

abbrev right_strip : String → String
right_strip String.[] = ""
right_strip (String.◌∷◌ c s) =
    let rest = right_strip s in if rest == "" && is_space (code c) then "" else String.◌∷◌ c rest

-- text.strip()
unfoldable pub strip : String → String
strip text = right_strip (left_strip text)

-- text[n:]
abbrev pub drop_text : ℕ → String → String
drop_text zero s = s
drop_text (suc n) String.[] = ""
drop_text (suc n) (String.◌∷◌ c s) = drop_text n s

-- text[:n]
abbrev pub take_text : ℕ → String → String
take_text zero s = ""
take_text (suc n) String.[] = ""
take_text (suc n) (String.◌∷◌ c s) = String.◌∷◌ c (take_text n s)

abbrev lower_code : ℕ → ℕ
lower_code c = if leb b'A' c && leb c b'Z' then c + 32 else c

-- The code points of text.lower().
unfoldable pub lower : String → List ℕ
lower text = map lower_code (codes text)

-- Equality of lists of code points.
abbrev pub same_codes : List ℕ → List ℕ → Bool
same_codes [] [] = true
same_codes (x ∷ xs) (y ∷ ys) = eqb x y && same_codes xs ys
same_codes [] (y ∷ ys) = false
same_codes (x ∷ xs) [] = false

-- text.startswith(word)
abbrev pub starts_with : List ℕ → List ℕ → Bool
starts_with [] text = true
starts_with (c ∷ cs) [] = false
starts_with (c ∷ cs) (d ∷ text) = eqb c d && starts_with cs text

-- word in text
unfoldable pub includes_word : List ℕ → List ℕ → Bool
includes_word word [] = starts_with word []
includes_word word (d ∷ text) =
    let later = includes_word word text in if starts_with word (d ∷ text) then true else later
