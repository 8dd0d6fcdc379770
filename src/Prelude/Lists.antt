-- ===== src/Prelude/Lists.antt =====
-- Lists measured by native numbers, and predicates on all elements.
use Prim.Native.Nat.{ℕ, zero, suc, ◌+◌, ◌-◌, min}
use mathlib.Core.Path.{◌≡◌, refl}
use mathlib.Core.Bool.{Bool, true, false, not}
use mathlib.Core.Option.{Option, none, some}
use mathlib.Core.List.{List, [], ◌∷◌, ◌++◌}
use native.Mathlib.Omega.{arith}
use mathlib.Core.Logic.{inl, inr}
use makkays_chatbot.Prelude.Tests.{if◌then◌else◌, Bool-cases, some_inj}

module _ {ℓ} {A : Type ℓ} where
  abbrev pub length : List A → ℕ
  length [] = 0
  length (x ∷ xs) = suc (length xs)

  abbrev pub take : ℕ → List A → List A
  take zero xs = []
  take (suc n) [] = []
  take (suc n) (x ∷ xs) = x ∷ take n xs

  abbrev pub drop : ℕ → List A → List A
  drop zero xs = xs
  drop (suc n) [] = []
  drop (suc n) (x ∷ xs) = drop n xs

  abbrev pub last? : List A → Option A
  last? [] = none
  last? (x ∷ []) = some x
  last? (x ∷ y ∷ ys) = last? (y ∷ ys)

  -- A comprehension with a condition.
  abbrev pub keep : (A → Bool) → List A → List A
  keep p [] = []
  keep p (x ∷ xs) = let rest = keep p xs in if p x then x ∷ rest else rest

  abbrev pub any : (A → Bool) → List A → Bool
  any p [] = false
  any p (x ∷ xs) = if p x then true else any p xs

  abbrev pub all : (A → Bool) → List A → Bool
  all p [] = true
  all p (x ∷ xs) = if p x then all p xs else false

module _ {ℓ κ} {A : Type ℓ} where
  abbrev pub All : (A → Type κ) → List A → Type κ
  All P [] = Unit
  All P (x ∷ xs) = P x × All P xs

module _ {ℓ κ} {A : Type ℓ} (P : A → Type κ) where
  pub All-append : (xs ys : List A) → All P xs → All P ys → All P (xs ++ ys)
  All-append [] ys h k = k
  All-append (x ∷ xs) ys h k = (h.0, All-append xs ys h.1 k)

  pub All-keep : (p : A → Bool) (xs : List A) → All P xs → All P (keep p xs)
  All-keep p [] h = h
  All-keep p (x ∷ xs) h = elim (Bool-cases (p x)) [
    | inl t ↦ rw t (h.0, All-keep p xs h.1)
    | inr f ↦ rw f (All-keep p xs h.1)
  ]

module _ {ℓ} {A : Type ℓ} where
  pub length-append : (xs ys : List A) → length (xs ++ ys) ≡ length xs + length ys
  length-append [] ys = omega arith
  length-append (x ∷ xs) ys = omega (arith, length-append xs ys)

  pub length-take : (n : ℕ) (xs : List A) → length (take n xs) ≡ min n (length xs)
  length-take zero xs = omega arith
  length-take (suc n) [] = omega arith
  length-take (suc n) (x ∷ xs) = omega (arith, length-take n xs)

  pub length-drop : (n : ℕ) (xs : List A) → length (drop n xs) ≡ length xs - n
  length-drop zero xs = omega arith
  length-drop (suc n) [] = omega arith
  length-drop (suc n) (x ∷ xs) = omega (arith, length-drop n xs)

  pub last?-cons : (x : A) (xs : List A) (a : A) → last? xs ≡ some a → last? (x ∷ xs) ≡ some a
  last?-cons x [] a h = cc
  last?-cons x (y ∷ ys) a h = h

  pub last?-snoc : (xs : List A) (a : A) → last? (xs ++ a ∷ []) ≡ some a
  last?-snoc [] a = refl
  last?-snoc (x ∷ []) a = refl
  last?-snoc (x ∷ y ∷ ys) a = last?-snoc (y ∷ ys) a

module _ {ℓ} {A : Type ℓ} (p : A → Bool) where
  pub last?-keep :
      (xs : List A) (a : A) → last? xs ≡ some a → p a ≡ true → last? (keep p xs) ≡ some a
  last?-keep [] a h t = h
  last?-keep (x ∷ []) a h t =
      let same : x ≡ a = some_inj h in let passed : p x ≡ true = rw same t in rw passed h
  last?-keep (x ∷ y ∷ ys) a h t = elim (Bool-cases (p x)) [
    | inr f ↦ rw f (last?-keep (y ∷ ys) a h t)
    | inl s ↦ rw s (last?-cons x (keep p (y ∷ ys)) a (last?-keep (y ∷ ys) a h t))
  ]

  pub All-keep_test : (xs : List A) → All (λ x. p x ≡ true) (keep p xs)
  All-keep_test [] = tt
  All-keep_test (x ∷ xs) = elim (Bool-cases (p x)) [
    | inl t ↦ rw t (t, All-keep_test xs)
    | inr f ↦ rw f (All-keep_test xs)
  ]

  -- A test that every element passes leaves nothing to its negation.
  pub keep-eq-nil : (xs : List A) → All (λ x. p x ≡ true) xs → keep (λ x. not (p x)) xs ≡ []
  keep-eq-nil [] h = refl
  keep-eq-nil (x ∷ xs) h = rw h.0 (keep-eq-nil xs h.1)

  pub All-all : (xs : List A) → all p xs ≡ true → All (λ x. p x ≡ true) xs
  All-all [] h = tt
  All-all (x ∷ xs) h = elim (Bool-cases (p x)) [
    | inl t ↦ (t, All-all xs (rw t at h))
    | inr f ↦ cc (rw f at h)
  ]
