-- ===== src/Prelude/Mapping.antt =====
-- Python's `dict` with string keys: an association list in insertion order. A write to a known key stays in its place.
use Prim.Native.String.{String}
use mathlib.Core.Path.{◌≡◌, refl, subst₂}
use mathlib.Core.Option.{Option, none, some}
use mathlib.Core.List.{List, [], ◌∷◌}
use native.Mathlib.Omega.{arith}
use text.Mathlib.Text.{◌==◌}
use text.Mathlib.TextEquality.{eq_iff}
use mathlib.Core.Logic.{inl, inr}
use makkays_chatbot.Prelude.Tests.{if◌then◌else◌, Bool-cases, some_inj}
use makkays_chatbot.Prelude.Lists.{All}

abbrev pub Dict {ℓ} : Type ℓ → Type ℓ
Dict V = List (String × V)

module _ {ℓ} {V : Type ℓ} where
  -- d.get(name)
  unfoldable pub lookup : String → Dict V → Option V
  lookup name [] = none
  lookup name ((key, value) ∷ d) =
      let later = lookup name d in if key == name then some value else later

  -- d[name] = value
  unfoldable pub insert : String → V → Dict V → Dict V
  insert name new [] = (name, new) ∷ []
  insert name new ((key, old) ∷ d) =
      let later = (key, old) ∷ insert name new d in if key == name then (key, new) ∷ d else later

  -- A lookup after a write.
  pub lookup-insert :
      (name other : String) (new : V) (d : Dict V)
      → lookup other (insert name new d) ≡ (if name == other then some new else lookup other d)
  unfolding lookup insert
  lookup-insert name other new [] = refl
  lookup-insert name other new ((key, old) ∷ d) =
      ground (
        arith,
        lookup-insert name other new d,
        eq_iff key name,
        eq_iff key other,
        eq_iff name other,
      )

  -- What holds of every entry holds of the entry found.
  pub All-lookup {κ} :
      (P : String → V → Type κ) (m : Dict V) (k : String) (v : V)
      → All (λ e. P e.0 e.1) m
      → lookup k m ≡ some v
      → P k v
  unfolding lookup
  All-lookup P [] k v h e = cc
  All-lookup P ((j, w) ∷ m) k v h e = elim (Bool-cases (j == k)) [
    | inl t ↦ subst₂ P ((eq_iff j k).0 t) (some_inj (rw t at e)) h.0
    | inr f ↦ All-lookup P m k v h.1 (rw f at e)
  ]
