-- ===== src/SolutionBuilder/Bills.antt =====
-- What a bill of materials of app/solution_builder/bom_service.py holds.
use makkays_chatbot.Prelude.{
  ℕ, ◌*◌, String, List, [], ◌∷◌, ◌≡◌, ◌≢◌, refl, Option, none, some, some_inj, All, lookup,
}
use mathlib.Core.Path.{subst}
use makkays_chatbot.Shared.{Uuid}
use makkays_chatbot.Session.Schemas.{Decimal}
use makkays_chatbot.SolutionBuilder.Bom.{
  Capacity, WizardRequirements, BomLineItem, Solution, Catalog, category_quantities, quantize,
  or_zero, item_of, priced, line_item_for_category, cons_item, line_items_for, sum_subtotals,
  solution_of, build,
}

module _ (catalog : Catalog) (quantities : List (String × ℕ)) where
  -- The item is a product of the catalogue at its price, in the quantity of its category.
  pub record IsPriced (item : BomLineItem) : Type 0 where
    pub sized : lookup item.category quantities ≡ some item.quantity
    pub named : catalog.get_name item.product_id ≡ some item.product_name
    pub price : catalog.get_price item.product_id ≡ some item.unit_price
    pub extended :
        item.subtotal ≡ quantize (item.unit_price.coefficient * item.quantity) item.unit_price.scale

  item_of-IsPriced :
      (category : String) (quantity : ℕ) (id : Uuid) (name : Option String) (price : Option Decimal)
      (item : BomLineItem)
      → lookup category quantities ≡ some quantity
      → catalog.get_name id ≡ name
      → catalog.get_price id ≡ price
      → item_of catalog category quantity id name price ≡ some item
      → IsPriced item
  item_of-IsPriced category quantity id none price item sized n p e = cc
  item_of-IsPriced category quantity id (some name) none item sized n p e = cc
  item_of-IsPriced category quantity id (some name) (some price) item sized n p e =
      subst IsPriced (some_inj e) (record { sized = sized; named = n; price = p; extended = refl })

  priced-IsPriced :
      (category : String) (quantity : ℕ) (found : Option Uuid) (item : BomLineItem)
      → lookup category quantities ≡ some quantity
      → priced catalog category quantity found ≡ some item
      → IsPriced item
  priced-IsPriced category quantity none item sized e = cc
  priced-IsPriced category quantity (some id) item sized e =
      item_of-IsPriced category quantity id _ _ item sized refl refl e

  cons_item-IsPriced :
      (found : Option BomLineItem) (items : List BomLineItem)
      → ((item : BomLineItem) → found ≡ some item → IsPriced item)
      → All IsPriced items
      → All IsPriced (cons_item catalog found items)
  cons_item-IsPriced none items h k = k
  cons_item-IsPriced (some item) items h k = (h item refl, k)

  line_items_for-IsPriced :
      (rest : List (String × ℕ)) (capacity : Option Capacity)
      → All (λ e. lookup e.0 quantities ≡ some e.1) rest
      → All IsPriced (line_items_for catalog rest capacity)
  unfolding line_items_for line_item_for_category
  line_items_for-IsPriced [] capacity sized = tt
  line_items_for-IsPriced ((category, quantity) ∷ rest) capacity (here, later) =
      cons_item-IsPriced _ _ (λ item e. priced-IsPriced category quantity _ item here e)
        (line_items_for-IsPriced rest capacity later)

module _ (catalog : Catalog) where
  solution_of-IsPriced :
      (P : BomLineItem → Type 0) (use_case : Option String) (items : List BomLineItem)
      (solution : Solution)
      → solution_of catalog use_case items ≡ some solution
      → All P items
      → (solution.line_items ≢ [])
        × (solution.total_estimate ≡ sum_subtotals catalog solution.line_items)
        × All P solution.line_items
  solution_of-IsPriced P use_case [] solution e h = cc
  solution_of-IsPriced P use_case (item ∷ items) solution e h =
      subst
        (λ out.
          (out.line_items ≢ [])
          × (out.total_estimate ≡ sum_subtotals catalog out.line_items)
          × All P out.line_items)
        (some_inj e) ((λ q. cc q), refl, h)

  -- A bill has at least one item, and its total is the sum of the subtotals. Each item is a product of
  -- the catalogue at its price, in the quantity of its category, and its subtotal is the price times
  -- the quantity, rounded half to even to cents.
  pub build-IsPriced :
      (requirements : WizardRequirements) (solution : Solution)
      → build catalog requirements ≡ some solution
      → (solution.line_items ≢ [])
        × (solution.total_estimate ≡ sum_subtotals catalog solution.line_items)
        × All
            (IsPriced catalog (category_quantities (or_zero requirements.device_count)))
            solution.line_items
  unfolding build category_quantities lookup
  build-IsPriced requirements solution e =
      let quantities = category_quantities (or_zero requirements.device_count) in
      let sized : All (λ entry. lookup entry.0 quantities ≡ some entry.1) quantities =
        (refl, (refl, tt)) in
      solution_of-IsPriced (IsPriced catalog quantities) requirements.use_case _ solution e
        (line_items_for-IsPriced catalog quantities quantities requirements.capacity sized)
