-- ===== src/Rag/Relaxation.antt =====
-- app/rag/retrieval_service.py: the relaxation is one walk down the constraints sorted once.
use makkays_chatbot.Prelude.{
  ℕ, zero, suc, ◌≡◌, refl, sym, ap, ◌∙◌, List, [], ◌∷◌, true, false, Option, none, some, length,
  leb, Bool-cases, inl, inr, arith,
}
use makkays_chatbot.Shared.{Uuid}
use makkays_chatbot.Rag.{
  Constraint, ExtractedFilters, priority, insert_sorted, sort_constraints, find_by_filters,
  after_attempt, relax_round, relax_loop, relax_and_retry,
}

-- Neighbours are in the order of their priorities.
abbrev IsSorted : List Constraint → Type 0
IsSorted [] = Unit
IsSorted (c ∷ []) = Unit
IsSorted (c ∷ d ∷ ds) = (leb (priority c) (priority d) ≡ true) × IsSorted (d ∷ ds)

-- The walk: what is left after each constraint is tried, the least important dropped first.
unfoldable pub first_match :
    (ExtractedFilters → List Uuid)
    → ExtractedFilters
    → List Constraint
    → Option Constraint
    → Option (List Uuid) × Option Constraint
unfolding find_by_filters
first_match query filters [] dropped = (none, dropped)
first_match query filters (c ∷ rest) dropped =
    after_attempt query c (find_by_filters query (record filters { constraints = rest }))
      (first_match query filters rest (some c))

sort_constraints-IsSorted_same : (cs : List Constraint) → IsSorted cs → sort_constraints cs ≡ cs
unfolding sort_constraints insert_sorted
sort_constraints-IsSorted_same [] h = refl
sort_constraints-IsSorted_same (c ∷ []) h = refl
sort_constraints-IsSorted_same (c ∷ d ∷ ds) (le, later) =
    rw (sort_constraints-IsSorted_same (d ∷ ds) later, le) refl

leb_total : (m n : ℕ) → leb m n ≡ false → leb n m ≡ true
leb_total m n f = ground arith

insert_sorted-IsSorted :
    (c : Constraint) (cs : List Constraint) → IsSorted cs → IsSorted (insert_sorted c cs)
unfolding insert_sorted
insert_sorted-IsSorted c [] h = tt
insert_sorted-IsSorted c (d ∷ []) h = elim (Bool-cases (leb (priority c) (priority d))) [
  | inl t ↦ rw t (t, tt)
  | inr f ↦
      let other : leb (priority d) (priority c) ≡ true = leb_total (priority c) (priority d) f in
      rw f (other, tt)
]
insert_sorted-IsSorted c (d ∷ e ∷ es) (le, later) =
    elim (Bool-cases (leb (priority c) (priority d))) [
      | inl t ↦ rw t (t, (le, later))
      | inr f ↦
          let other : leb (priority d) (priority c) ≡ true =
            leb_total (priority c) (priority d) f in
          let ih = insert_sorted-IsSorted c (e ∷ es) later in
          elim (Bool-cases (leb (priority c) (priority e))) [
            | inl t ↦ rw (f, t) (other, rw t at ih)
            | inr g ↦ rw (f, g) (le, rw g at ih)
          ]
    ]

sort_constraints-IsSorted : (cs : List Constraint) → IsSorted (sort_constraints cs)
unfolding sort_constraints
sort_constraints-IsSorted [] = tt
sort_constraints-IsSorted (c ∷ cs) =
    insert_sorted-IsSorted c (sort_constraints cs) (sort_constraints-IsSorted cs)

length-insert_sorted :
    (c : Constraint) (cs : List Constraint) → length (insert_sorted c cs) ≡ suc (length cs)
unfolding insert_sorted
length-insert_sorted c [] = refl
length-insert_sorted c (d ∷ ds) = elim (Bool-cases (leb (priority c) (priority d))) [
  | inl t ↦ rw t refl
  | inr f ↦ rw f (ap (λ n. suc n) (length-insert_sorted c ds))
]

length-sort_constraints : (cs : List Constraint) → length (sort_constraints cs) ≡ length cs
unfolding sort_constraints
length-sort_constraints [] = refl
length-sort_constraints (c ∷ cs) =
    length-insert_sorted c (sort_constraints cs) ∙ ap (λ n. suc n) (length-sort_constraints cs)

tail-IsSorted : (c : Constraint) (cs : List Constraint) → IsSorted (c ∷ cs) → IsSorted cs
tail-IsSorted c [] h = tt
tail-IsSorted c (d ∷ ds) h = h.1

module _ (query : ExtractedFilters → List Uuid) (filters : ExtractedFilters) where
  -- On a sorted list the loop does not sort any more.
  relax_loop-first_match :
      (n : ℕ) (cs : List Constraint) (dropped : Option Constraint)
      → length cs ≡ n
      → IsSorted cs
      → relax_loop query filters n cs dropped ≡ first_match query filters cs dropped
  unfolding relax_loop first_match
  relax_loop-first_match zero [] dropped e h = refl
  relax_loop-first_match zero (c ∷ cs) dropped e h = absurd (omega (arith, e))
  relax_loop-first_match (suc n) [] dropped e h = absurd (omega (arith, e))
  relax_loop-first_match (suc n) (c ∷ cs) dropped e h =
      rw (sort_constraints-IsSorted_same (c ∷ cs) h) (
        ap
          (λ rest.
            after_attempt query c (find_by_filters query (record filters { constraints = cs }))
              rest)
          (relax_loop-first_match n cs (some c) (omega (arith, e)) (tail-IsSorted c cs h)))

  -- The first round sorts.
  relax_loop-sort_constraints :
      (n : ℕ) (cs : List Constraint) (dropped : Option Constraint)
      → relax_loop query filters n cs dropped
        ≡ relax_loop query filters n (sort_constraints cs) dropped
  unfolding relax_loop
  relax_loop-sort_constraints zero cs dropped = refl
  relax_loop-sort_constraints (suc n) cs dropped =
      ap (λ ss. relax_round query filters (relax_loop query filters n) ss dropped)
        (sym (sort_constraints-IsSorted_same (sort_constraints cs) (sort_constraints-IsSorted cs)))

-- Sorting anew before each attempt changes nothing, and one attempt per constraint is enough: the
-- relaxation sorts the constraints once, keeping the order of equals, and drops them from the front
-- until a query finds something or none is left.
pub relax_and_retry-first_match :
    (query : ExtractedFilters → List Uuid) (filters : ExtractedFilters)
    → relax_and_retry query filters
      ≡ first_match query filters (sort_constraints filters.constraints) none
unfolding relax_and_retry
relax_and_retry-first_match query filters =
    let cs = filters.constraints in
    relax_loop-sort_constraints query filters (length cs) cs none
    ∙ relax_loop-first_match query filters (length cs) (sort_constraints cs) none
        (length-sort_constraints cs) (sort_constraints-IsSorted cs)
