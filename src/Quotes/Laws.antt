-- ===== src/Quotes/Laws.antt =====
-- app/quotes/builder.py: what a quote holds.
use makkays_chatbot.Prelude.{
  ℕ, ◌*◌, ◌≡◌, ◌≢◌, ◌≤◌, refl, sym, ap, ◌∙◌, String, List, [], ◌∷◌, ◌++◌, true, false, Option, none,
  some, some_inj, All, All-all, all, map, leb, leb→le, ◌==◌, eq_iff, eq_refl, Bool-cases,
  Option-cases, inl, inr,
}
use mathlib.Core.Path.{subst}
use makkays_chatbot.Shared.{Uuid}
use makkays_chatbot.Session.Schemas.{FactsSchema}
use makkays_chatbot.Planner.Rules.{quote_slots_complete}
use makkays_chatbot.SolutionBuilder.Bom.{quantize}
use makkays_chatbot.Tools.Schemas.{ExecutionContext, get_product_ids}
use makkays_chatbot.Quotes.{
  QuoteSlots, QuoteLineItem, QuoteResult, Quote, ProductPricing, Built, built, refused, Sources,
  slots_of, complete_slots, build_slots, total_of, line_item, missing_prices, priced_products,
  line_items_of, one_currency, store_quote, with_currency, with_prices, with_slots, build,
}

built_inj : {A : Type 0} {a b : A} → built a ≡ built b → a ≡ b
built_inj e = cc

module _ (sources : Sources) where
  -- A line of a product at its stored price: the price and the price times the quantity, each
  -- rounded to cents.
  pub record IsLine (quantity : ℕ) (currency : String) (item : QuoteLineItem) : Type 0 where
    pub pricing : ProductPricing
    pub listed : sources.price item.product_id ≡ some pricing
    pub same_currency : pricing.currency ≡ currency
    pub same_quantity : item.quantity ≡ quantity
    pub unit : item.unit_price ≡ quantize pricing.unit_price.coefficient pricing.unit_price.scale
    pub extended :
        item.subtotal
        ≡ quantize (pricing.unit_price.coefficient * quantity) pricing.unit_price.scale

  -- The quote has a line for each product that was found, in their order, and is stored as it is.
  pub record IsQuote (facts : FactsSchema) (context : ExecutionContext) (rows : List Quote)
      (quote : QuoteResult) (rows' : List Quote) : Type 0 where
    pub product_ids : List Uuid
    pub quantity : ℕ
    pub found : get_product_ids context ≡ some product_ids
    pub some_products : product_ids ≢ []
    pub wanted : facts.quantity ≡ some quantity
    pub positive : 1 ≤ quantity
    pub named : facts.company ≡ some quote.company
    pub in_order : map (λ item. item.product_id) quote.line_items ≡ product_ids
    pub priced : All (IsLine quantity quote.currency) quote.line_items
    pub total : quote.total ≡ total_of quote.line_items
    pub stored :
        rows'
        ≡ rows
          ++ record {
            id = quote.quote_id;
            company = quote.company;
            line_items = quote.line_items;
            total = quote.total;
            currency = quote.currency;
            has_pdf = false;
          }
            ∷ []

  -- What the slots come from.
  abbrev AreSlots : FactsSchema → Option (List Uuid) → QuoteSlots → Type 0
  AreSlots facts ids slots =
      (ids ≡ some slots.product_ids)
      × (slots.product_ids ≢ [])
      × (facts.quantity ≡ some slots.quantity)
      × (1 ≤ slots.quantity)
      × (facts.company ≡ some slots.company)

  slots_of-AreSlots :
      (company : Option String) (quantity : Option ℕ) (ids : List Uuid) (slots : QuoteSlots)
      → slots_of company quantity ids ≡ built slots
      → (slots.product_ids ≡ ids)
        × (quantity ≡ some slots.quantity)
        × (1 ≤ slots.quantity)
        × (company ≡ some slots.company)
  slots_of-AreSlots none quantity ids slots e = cc
  slots_of-AreSlots (some company) none ids slots e = cc
  slots_of-AreSlots (some company) (some quantity) ids slots e =
      elim (Bool-cases (leb 1 quantity)) [
        | inr f ↦ cc (rw f at e)
        | inl t ↦
            let same = built_inj (rw t at e) in
            (
              ap (λ s. s.product_ids) (sym same),
              ap (λ s. some s.quantity) same,
              rw (← ap (λ s. s.quantity) same) (leb→le 1 quantity t),
              ap (λ s. some s.company) same,
            )
      ]

  complete_slots-AreSlots :
      (facts : FactsSchema) (ids : Option (List Uuid)) (slots : QuoteSlots)
      → complete_slots facts ids ≡ built slots
      → AreSlots facts ids slots
  complete_slots-AreSlots facts none slots e = cc
  complete_slots-AreSlots facts (some []) slots e = cc
  complete_slots-AreSlots facts (some (id ∷ ids)) slots e =
      elim (Bool-cases (quote_slots_complete facts)) [
        | inr f ↦ cc (rw f at e)
        | inl t ↦
            let (same, wanted, positive, named) =
              slots_of-AreSlots facts.company facts.quantity (id ∷ ids) slots (rw t at e) in
            (ap some (sym same), (λ empty. cc (sym same ∙ empty)), wanted, positive, named)
      ]

  -- The rows of the prices.
  abbrev IsListed : Uuid × ProductPricing → Type 0
  IsListed row = sources.price row.0 ≡ some row.1

  priced_products_lem :
      (ids : List Uuid)
      → missing_prices sources ids ≡ []
      → (map (λ row. row.0) (priced_products sources ids) ≡ ids)
        × All IsListed (priced_products sources ids)
  priced_products_lem [] e = (refl, tt)
  priced_products_lem (id ∷ ids) e = elim (Option-cases (sources.price id)) [
    | inl n ↦ cc (rw n at e)
    | inr (pricing, here) ↦
        let (same, listed) = priced_products_lem ids (rw here at e) in
        rw here (ap (λ xs. id ∷ xs) same, (here, listed))
  ]

  abbrev HasCurrency : String → Uuid × ProductPricing → Type 0
  HasCurrency currency row = (row.1.currency == currency) ≡ true

  one_currency-all :
      (priced : List (Uuid × ProductPricing)) (currency : String)
      → one_currency sources priced ≡ some currency
      → All (HasCurrency currency) priced
  one_currency-all [] currency e = cc
  one_currency-all ((id, pricing) ∷ rest) currency e =
      let same = all (λ row. row.1.currency == pricing.currency) rest in
      elim (Bool-cases same) [
        | inr f ↦ cc (rw f at e)
        | inl t ↦
            let first : pricing.currency ≡ currency = some_inj (rw t at e) in
            subst (λ c. All (HasCurrency c) ((id, pricing) ∷ rest)) first
              (eq_refl pricing.currency, All-all (λ row. row.1.currency == pricing.currency) rest t)
      ]

  line_items_of_lem :
      (quantity : ℕ) (currency : String) (priced : List (Uuid × ProductPricing))
      → All IsListed priced
      → All (HasCurrency currency) priced
      → (map (λ item. item.product_id) (line_items_of sources quantity priced)
          ≡ map (λ row. row.0) priced)
        × All (IsLine quantity currency) (line_items_of sources quantity priced)
  unfolding line_item
  line_items_of_lem quantity currency [] h k = (refl, tt)
  line_items_of_lem quantity currency ((id, pricing) ∷ rest) (listed, later) (here, others) =
      let (same, lines) = line_items_of_lem quantity currency rest later others in
      (
        ap (λ xs. id ∷ xs) same,
        (
          record {
            pricing = pricing;
            listed = listed;
            same_currency = (eq_iff pricing.currency currency).0 here;
            same_quantity = refl;
            unit = refl;
            extended = refl;
          },
          lines,
        ),
      )

  -- The quote that is stored for these lines.
  store_quote_source :
      (slots : QuoteSlots) (items : List QuoteLineItem) (currency : String)
      (rows rows' : List Quote) (quote : QuoteResult)
      → store_quote sources slots items currency rows ≡ (built quote, rows')
      → (quote.line_items ≡ items)
        × (quote.currency ≡ currency)
        × (quote.company ≡ slots.company)
        × (quote.total ≡ total_of quote.line_items)
        × (rows'
            ≡ rows
              ++ record {
                id = quote.quote_id;
                company = quote.company;
                line_items = quote.line_items;
                total = quote.total;
                currency = quote.currency;
                has_pdf = false;
              }
                ∷ [])
  unfolding store_quote
  store_quote_source slots items currency rows rows' quote e =
      elim (Bool-cases (sources.inserts rows)) [
        | inr f ↦ cc (rw f at e)
        | inl t ↦
            let stored = rw t at e in
            let same = built_inj (ap (λ r. r.0) stored) in
            subst
              (λ q.
                (q.line_items ≡ items)
                × (q.currency ≡ currency)
                × (q.company ≡ slots.company)
                × (q.total ≡ total_of q.line_items)
                × (rows'
                    ≡ rows
                      ++ record {
                        id = q.quote_id;
                        company = q.company;
                        line_items = q.line_items;
                        total = q.total;
                        currency = q.currency;
                        has_pdf = false;
                      }
                        ∷ []))
              same (refl, refl, refl, refl, sym (ap (λ r. r.1) stored))
      ]

  module _ (facts : FactsSchema) (context : ExecutionContext) (rows rows' : List Quote)
      (quote : QuoteResult) where
    with_currency-IsQuote :
        (slots : QuoteSlots) (currency : Option String)
        → AreSlots facts (get_product_ids context) slots
        → missing_prices sources slots.product_ids ≡ []
        → one_currency sources (priced_products sources slots.product_ids) ≡ currency
        → with_currency sources slots (priced_products sources slots.product_ids) currency rows
          ≡ (built quote, rows')
        → IsQuote facts context rows quote rows'
    with_currency-IsQuote slots none are priced one e = cc
    with_currency-IsQuote slots (some currency) (found, some_ids, wanted, positive, named)
          none_missing one e =
        let priced = priced_products sources slots.product_ids in
        let (ids, listed) = priced_products_lem slots.product_ids none_missing in
        let (order, lines) =
          line_items_of_lem slots.quantity currency priced listed
            (one_currency-all priced currency one) in
        let (items, same_currency, company, total, stored) =
          store_quote_source slots (line_items_of sources slots.quantity priced) currency rows rows'
            quote e in
        record {
          product_ids = slots.product_ids;
          quantity = slots.quantity;
          found = found;
          some_products = some_ids;
          wanted = wanted;
          positive = positive;
          named = named ∙ ap some (sym company);
          in_order = ap (λ xs. map (λ item. item.product_id) xs) items ∙ order ∙ ids;
          priced =
              subst (λ c. All (IsLine slots.quantity c) quote.line_items) (sym same_currency)
                (subst (All (IsLine slots.quantity currency)) (sym items) lines);
          total = total;
          stored = stored;
        }

    with_prices-IsQuote :
        (slots : QuoteSlots) (missing : List Uuid)
        → AreSlots facts (get_product_ids context) slots
        → missing_prices sources slots.product_ids ≡ missing
        → with_prices sources slots missing rows ≡ (built quote, rows')
        → IsQuote facts context rows quote rows'
    with_prices-IsQuote slots (id ∷ ids) are e q = cc
    with_prices-IsQuote slots [] are e q =
        with_currency-IsQuote slots
          (one_currency sources (priced_products sources slots.product_ids)) are e refl q

    with_slots-IsQuote :
        (slots : Built QuoteSlots)
        → build_slots facts context ≡ slots
        → with_slots sources slots rows ≡ (built quote, rows')
        → IsQuote facts context rows quote rows'
    unfolding build_slots
    with_slots-IsQuote (refused error) e q = cc
    with_slots-IsQuote (built slots) e q =
        with_prices-IsQuote slots (missing_prices sources slots.product_ids)
          (complete_slots-AreSlots facts (get_product_ids context) slots e) refl q

-- A quote that is built is that of the company and the quantity on file. It has one line for each
-- product found, in their order, each at its stored price and in one currency, with the price and the
-- price times the quantity rounded to cents; its total is the sum of the subtotals; and it is stored
-- as a new row.
pub build-IsQuote :
    (sources : Sources) (facts : FactsSchema) (context : ExecutionContext) (rows rows' : List Quote)
    (quote : QuoteResult)
    → build sources facts context rows ≡ (built quote, rows')
    → IsQuote sources facts context rows quote rows'
unfolding build
build-IsQuote sources facts context rows rows' quote e =
    with_slots-IsQuote sources facts context rows rows' quote (build_slots facts context) refl e
