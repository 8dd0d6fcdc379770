-- ===== src/Prelude/Subsequence.antt =====
-- Subsequences of a list of texts, decided greedily.
use Prim.Native.String.{String}
use mathlib.Core.Path.{◌≡◌, refl}
use mathlib.Core.Logic.{inl, inr}
use mathlib.Core.Bool.{Bool, true, false}
use mathlib.Core.List.{List, [], ◌∷◌}
use text.Mathlib.Text.{◌==◌}
use text.Mathlib.TextEquality.{eq_iff}
use text.Mathlib.TextPositions.{eq_refl}
use makkays_chatbot.Prelude.Tests.{Bool-cases}
use makkays_chatbot.Prelude.Lists.{All, keep}

unfoldable pub is_subsequence : List String → List String → Bool
is_subsequence [] ys = true
is_subsequence (x ∷ xs) [] = false
is_subsequence (x ∷ xs) (y ∷ ys) = elim (y == x) [
  | true ↦ is_subsequence xs ys
  | false ↦ is_subsequence (x ∷ xs) ys
]

-- The first element may be left out, on either side.
is_subsequence-tail :
    (x : String) (xs ys : List String)
    → is_subsequence (x ∷ xs) ys ≡ true
    → is_subsequence xs ys ≡ true
unfolding is_subsequence
is_subsequence-tail x xs [] e = cc
is_subsequence-tail x [] (y ∷ ys) e = refl
is_subsequence-tail x (z ∷ zs) (y ∷ ys) e = elim (Bool-cases (y == x)) [
  | inl t ↦
      let here : is_subsequence (z ∷ zs) ys ≡ true = rw (t, is_subsequence) at e in
      elim (Bool-cases (y == z)) [
        | inl s ↦ rw (s, is_subsequence) (is_subsequence-tail z zs ys here)
        | inr s ↦ rw (s, is_subsequence) here
      ]
  | inr f ↦
      let here : is_subsequence (z ∷ zs) ys ≡ true =
        is_subsequence-tail x (z ∷ zs) ys (rw (f, is_subsequence) at e) in
      elim (Bool-cases (y == z)) [
        | inl s ↦ rw (s, is_subsequence) (is_subsequence-tail z zs ys here)
        | inr s ↦ rw (s, is_subsequence) here
      ]
]

-- The longer list may grow at its front.
pub is_subsequence-cons :
    (y : String) (xs ys : List String)
    → is_subsequence xs ys ≡ true
    → is_subsequence xs (y ∷ ys) ≡ true
unfolding is_subsequence
is_subsequence-cons y [] ys e = refl
is_subsequence-cons y (x ∷ xs) ys e = elim (Bool-cases (y == x)) [
  | inl t ↦ rw (t, is_subsequence) (is_subsequence-tail x xs ys e)
  | inr f ↦ rw (f, is_subsequence) e
]

pub is_subsequence-cons_cons :
    (x : String) (xs ys : List String)
    → is_subsequence xs ys ≡ true
    → is_subsequence (x ∷ xs) (x ∷ ys) ≡ true
unfolding is_subsequence
is_subsequence-cons_cons x xs ys e = rw (eq_refl x, is_subsequence) e

pub is_subsequence-keep :
    (p : String → Bool) (xs ys : List String)
    → is_subsequence xs ys ≡ true
    → is_subsequence (keep p xs) ys ≡ true
unfolding is_subsequence
is_subsequence-keep p [] ys e = refl
is_subsequence-keep p (x ∷ xs) [] e = cc
is_subsequence-keep p (x ∷ xs) (y ∷ ys) e = elim (Bool-cases (p x)) [
  | inr f ↦ rw f (is_subsequence-keep p xs (y ∷ ys) (is_subsequence-tail x xs (y ∷ ys) e))
  | inl t ↦ rw t (elim (Bool-cases (y == x)) [
    | inl s ↦ rw (s, is_subsequence) (is_subsequence-keep p xs ys (rw (s, is_subsequence) at e))
    | inr s ↦
        let rest : is_subsequence (keep p (x ∷ xs)) ys ≡ true =
          is_subsequence-keep p (x ∷ xs) ys (rw (s, is_subsequence) at e) in
        rw (s, is_subsequence) (rw t at rest)
  ])
]

pub All-is_subsequence {ℓ} :
    (P : String → Type ℓ) (xs ys : List String) → All P ys → is_subsequence xs ys ≡ true → All P xs
unfolding is_subsequence
All-is_subsequence P [] ys h e = tt
All-is_subsequence P (x ∷ xs) [] h e = cc
All-is_subsequence P (x ∷ xs) (y ∷ ys) h e = elim (Bool-cases (y == x)) [
  | inl t ↦
      (rw (← (eq_iff y x).0 t) h.0, All-is_subsequence P xs ys h.1 (rw (t, is_subsequence) at e))
  | inr f ↦ All-is_subsequence P (x ∷ xs) ys h.1 (rw (f, is_subsequence) at e)
]
