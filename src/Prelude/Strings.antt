-- ===== src/Prelude/Strings.antt =====
-- Texts as code points, and membership in a list of texts.
use Prim.Native.Nat.{ℕ}
use Prim.Native.Char.{code}
use Prim.Native.String
use Prim.Native.String.{String}
use mathlib.Core.Path.{◌≡◌}
use mathlib.Core.Bool.{Bool, true, false}
use mathlib.Core.List.{List, [], ◌∷◌}
use text.Mathlib.Text.{◌==◌}
use text.Mathlib.TextEquality.{eq_iff}
use mathlib.Core.Logic.{inl, inr}
use makkays_chatbot.Prelude.Tests.{if◌then◌else◌, Bool-cases}
use makkays_chatbot.Prelude.Lists.{All}

abbrev pub codes : String → List ℕ
codes String.[] = []
codes (String.◌∷◌ c s) = code c ∷ codes s

-- An f-string, or "".join(parts).
abbrev pub concat : List String → String
concat [] = ""
concat (s ∷ ss) = String.◌++◌ s (concat ss)

-- `name in names`
abbrev pub contains : List String → String → Bool
contains [] a = false
contains (x ∷ xs) a = if x == a then true else contains xs a

pub All-contains {ℓ} :
    (P : String → Type ℓ) (xs : List String) (a : String) → All P xs → contains xs a ≡ true → P a
All-contains P [] a h e = cc
All-contains P (x ∷ xs) a h e = elim (Bool-cases (x == a)) [
  | inl t ↦ rw (← (eq_iff x a).0 t) h.0
  | inr f ↦ All-contains P xs a h.1 (rw f at e)
]
