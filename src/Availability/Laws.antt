-- ===== src/Availability/Laws.antt =====
-- app/availability/local_service.py and repository.py: a batch and a written row.
use makkays_chatbot.Prelude.{
  ℕ, ◌≡◌, refl, String, List, [], ◌∷◌, true, false, ◌&&◌, Option, none, some, map, contains, Dict,
  lookup, insert, lookup-insert, ◌==◌, eq_refl, eq_iff, Bool-cases, inl, inr, if◌then◌else◌, arith,
}
use makkays_chatbot.Shared.{Uuid}
use makkays_chatbot.Tools.Schemas.{Attempt, returned, raised}
use makkays_chatbot.Availability.{
  ProductAvailability, AvailabilityResult, ℤ, pos, negsuc, is_row, get, get_batch, put,
  checked_days, put_checked, upsert, result_of, check, index_rows, results_of, check_batch,
}

-- A product of a tenant has one row at most.
unfoldable pub IsUnique : List ProductAvailability → Type 0
IsUnique [] = Unit
IsUnique (row ∷ rows) = (get row.product_id row.tenant_id rows ≡ none) × IsUnique rows

-- What is expected of a product after a write.
abbrev pub written :
    Attempt ProductAvailability → Uuid → Uuid → AvailabilityResult → AvailabilityResult
written (raised e) product tenant old = old
written (returned row) product tenant old =
    if is_row product tenant row then result_of product (some row) else old

get-nil : (product tenant : Uuid) → get product tenant [] ≡ none
unfolding get
get-nil product tenant = refl

get-put :
    (product tenant : Uuid) (new : ProductAvailability) (rows : List ProductAvailability)
    → get product tenant (put new rows)
      ≡ (if is_row product tenant new then some new else get product tenant rows)
unfolding get
get-put product tenant new [] = refl
get-put product tenant new (row ∷ rows) = ground (
  arith,
  get-put product tenant new rows,
  eq_iff row.product_id new.product_id,
  eq_iff row.tenant_id new.tenant_id,
  eq_iff row.product_id product,
  eq_iff row.tenant_id tenant,
  eq_iff new.product_id product,
  eq_iff new.tenant_id tenant,
)

is_row-flip :
    (a b : ProductAvailability)
    → is_row a.product_id a.tenant_id b ≡ false
    → is_row b.product_id b.tenant_id a ≡ false
is_row-flip a b e = ground (
  arith,
  e,
  eq_iff a.product_id b.product_id,
  eq_iff a.tenant_id b.tenant_id,
  eq_iff b.product_id a.product_id,
  eq_iff b.tenant_id a.tenant_id,
)

is_row-same :
    (product tenant : Uuid) (row : ProductAvailability)
    → is_row product tenant row ≡ true
    → (row.product_id ≡ product) × (row.tenant_id ≡ tenant)
is_row-same product tenant row e =
    ground (arith, e, eq_iff row.product_id product, eq_iff row.tenant_id tenant)

put-IsUnique :
    (new : ProductAvailability) (rows : List ProductAvailability)
    → IsUnique rows
    → IsUnique (put new rows)
unfolding IsUnique
put-IsUnique new [] h = (get-nil new.product_id new.tenant_id, tt)
put-IsUnique new (row ∷ rows) (alone, h) =
    elim (Bool-cases (is_row new.product_id new.tenant_id row)) [
      | inl t ↦
          let (same, same') = is_row-same new.product_id new.tenant_id row t in
          rw t (rw (← same, ← same') alone, h)
      | inr f ↦ rw f (
        rw (get-put row.product_id row.tenant_id new rows, is_row-flip new row f) alone,
        put-IsUnique new rows h,
      )
    ]

abbrev or_row : Option ProductAvailability → Option ProductAvailability → Option ProductAvailability
or_row none other = other
or_row (some row) other = some row

or_row-none : (found : Option ProductAvailability) → or_row found none ≡ found
or_row-none none = refl
or_row-none (some row) = refl

lookup-index_rows :
    (ids : List Uuid) (tenant product : Uuid) (rows : List ProductAvailability)
    (index : Dict ProductAvailability)
    → contains ids product ≡ true
    → IsUnique rows
    → lookup product (index_rows (get_batch ids tenant rows) index)
      ≡ or_row (get product tenant rows) (lookup product index)
unfolding IsUnique get_batch get
lookup-index_rows ids tenant product [] index asked h = refl
lookup-index_rows ids tenant product (row ∷ rows) index asked (alone, h) =
    elim (Bool-cases (row.product_id == product)) [
      | inl same ↦
          let asked_row : contains ids row.product_id ≡ true =
            rw (← (eq_iff row.product_id product).0 same) at asked in
          elim (Bool-cases (row.tenant_id == tenant)) [
            | inl here ↦
                let ih =
                  lookup-index_rows ids tenant product rows (insert row.product_id row index) asked
                    h in
                let none_later : get product tenant rows ≡ none =
                  rw
                    (
                      ← (eq_iff row.product_id product).0 same,
                      ← (eq_iff row.tenant_id tenant).0 here,
                    )
                    alone in
                rw (here, asked_row, same)
                  (rw (none_later, lookup-insert row.product_id product row index, same) at ih)
            | inr other ↦ rw (other, same) (lookup-index_rows ids tenant product rows index asked h)
          ]
      | inr differs ↦ elim (Bool-cases ((row.tenant_id == tenant) && contains ids row.product_id)) [
        | inl kept ↦
            rw (kept, differs)
              (rw (lookup-insert row.product_id product row index, differs) at
                (lookup-index_rows ids tenant product rows (insert row.product_id row index) asked
                  h))
        | inr left ↦ rw (left, differs) (lookup-index_rows ids tenant product rows index asked h)
      ]
    ]

contains-head : (x : Uuid) (xs : List Uuid) → contains (x ∷ xs) x ≡ true
contains-head x xs = rw (eq_refl x) refl

contains-tail : (x y : Uuid) (xs : List Uuid) → contains xs y ≡ true → contains (x ∷ xs) y ≡ true
contains-tail x y xs e = elim (Bool-cases (x == y)) [ inl t ↦ rw t refl | inr f ↦ rw f e ]

module _ (rows : List ProductAvailability) (h : IsUnique rows) (ids : List Uuid)
    (tenant : Uuid) where
  results_of-check :
      (products : List Uuid)
      → ((product : Uuid) → contains products product ≡ true → contains ids product ≡ true)
      → results_of (index_rows (get_batch ids tenant rows) []) products
        ≡ map (λ product. check rows product tenant) products
  unfolding check lookup
  results_of-check [] asked = refl
  results_of-check (product ∷ products) asked =
      let found =
        lookup-index_rows ids tenant product rows []
          (asked product (contains-head product products)) h in
      rw
        (
          found,
          or_row-none (get product tenant rows),
          results_of-check products
              (λ other e. asked other (contains-tail product other products e)),
        )
        refl

written-put :
    (new : ProductAvailability) (rows : List ProductAvailability) (product tenant : Uuid)
    → check (put new rows) product tenant
      ≡ written (returned new) product tenant (check rows product tenant)
unfolding check
written-put new rows product tenant =
    rw (get-put product tenant new rows)
      (elim (Bool-cases (is_row product tenant new)) [ inl t ↦ rw t refl | inr f ↦ rw f refl ])

-- After a call of upsert.
abbrev IsWritten :
    List ProductAvailability → Attempt ProductAvailability × List ProductAvailability → Type 0
IsWritten rows (result, rows') =
    IsUnique rows'
    × ((product tenant : Uuid)
        → check rows' product tenant ≡ written result product tenant (check rows product tenant))

map-cong :
    (f g : Uuid → AvailabilityResult)
    → ((x : Uuid) → f x ≡ g x)
    → (xs : List Uuid) → map f xs ≡ map g xs
map-cong f g same [] = refl
map-cong f g same (x ∷ xs) = rw (same x, map-cong f g same xs) refl

module _ (database_error : String) (tenant product : Uuid) (source : String)
    (rows : List ProductAvailability) (h : IsUnique rows) where
  put_checked-IsWritten :
      (quantity : ℕ) (days : Attempt (Option ℕ))
      → IsWritten rows (put_checked database_error tenant product quantity source days rows)
  put_checked-IsWritten quantity (raised error) = (h, λ other other_tenant. refl)
  put_checked-IsWritten quantity (returned days) = (put-IsUnique _ rows h, written-put _ rows)

  upsert-IsWritten :
      (quantity : ℤ) (days : Option ℤ)
      → IsWritten rows (upsert database_error tenant product quantity days source rows)
  unfolding upsert
  upsert-IsWritten (negsuc n) days = (h, λ other other_tenant. refl)
  upsert-IsWritten (pos n) days = put_checked-IsWritten n (checked_days database_error days)

  -- If a product of a tenant has one row at most, then an upsert leaves it so, also one that fails.
  -- After it, a batch, which is one query for all products, gives each product, in the order asked and
  -- with repetitions, what a single check gave before, except the product that was written, which has
  -- its new row.
  pub check_batch-upsert :
      (quantity : ℤ) (days : Option ℤ) (products : List Uuid) (asking : Uuid)
      → let (result, rows') = upsert database_error tenant product quantity days source rows in
        IsUnique rows'
        × (check_batch rows' products asking
            ≡ map (λ p. written result p asking (check rows p asking)) products)
  unfolding check_batch
  check_batch-upsert quantity days products asking =
      let (result, rows') = upsert database_error tenant product quantity days source rows in
      let (unique, after) = upsert-IsWritten quantity days in
      (
        unique,
        rw (results_of-check rows' unique products asking products (λ p e. e))
            (map-cong _ _ (λ p. after p asking) products),
      )
