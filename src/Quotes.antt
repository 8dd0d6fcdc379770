-- ===== src/Quotes.antt =====
-- app/quotes/builder.py and repository.py: quotes, and the tool that makes one.
--
-- The prices and names of the products are parameters, and so are the identifier of a new row, whether
-- its insert succeeds, the making of the PDF, the model's text, and the texts of numbers. An amount of
-- a quote is a number of cents; a stored price is a decimal that is not negative. Decimals multiply
-- within 28 digits; the model is exact. The e-mail that is sent in the background is left out.
pub mod Laws
mod Tests
use makkays_chatbot.Prelude.{
  ℕ, ◌+◌, ◌*◌, String, List, [], ◌∷◌, ◌++◌, Bool, true, false, ◌&&◌, not, Option, none, some,
  is_some, all, length, leb, concat, ◌==◌, if◌then◌else◌,
}
use makkays_chatbot.Shared.{Uuid}
use makkays_chatbot.Session.Schemas.{Decimal, FactsSchema}
use makkays_chatbot.Planner.Rules.{quote_slots_complete}
use makkays_chatbot.SolutionBuilder.Bom.{quantize}
use makkays_chatbot.Tools.Schemas.{ToolExecutionResult, ExecutionContext, get_product_ids}

-- QuoteSlots; the budget is not used.
pub record QuoteSlots : Type 0 where
  pub company : String
  pub product_ids : List Uuid
  pub quantity : ℕ

pub record QuoteLineItem : Type 0 where
  pub product_id : Uuid
  pub name : String
  pub unit_price : ℕ
  pub quantity : ℕ
  pub subtotal : ℕ

pub record QuoteResult : Type 0 where
  pub quote_id : Uuid
  pub company : String
  pub line_items : List QuoteLineItem
  pub total : ℕ
  pub currency : String
  pub pdf_generated : Bool

-- A row of the table of quotes.
pub record Quote : Type 0 where
  pub id : Uuid
  pub company : String
  pub line_items : List QuoteLineItem
  pub total : ℕ
  pub currency : String
  pub has_pdf : Bool

-- A row of the table of prices.
pub record ProductPricing : Type 0 where
  pub unit_price : Decimal
  pub currency : String

-- `IncompleteQuoteSlotsError`, the `ValidationError` of a quantity of zero,
-- `PricingDataMissingError`, `QuoteCurrencyMismatchError`, and errors of the database or of the PDF.
pub data QuoteError : Type 0 where
  incomplete_slots invalid_slots currency_mismatch not_stored no_pdf : QuoteError
  pricing_missing : List Uuid → QuoteError

pub data Built (A : Type 0) : Type 0 where
  built : A → Built A
  refused : QuoteError → Built A

pub record Sources : Type 0 where
  pub price : Uuid → Option ProductPricing
  pub product_name : Uuid → Option String
  pub new_id : List Quote → Uuid
  pub inserts : List Quote → Bool
  pub makes_pdf : QuoteResult → Bool
  -- the content of the model's reply, `none` if the request failed
  pub narrates : QuoteResult → Option (Option String)
  pub amount_text : ℕ → String
  pub count_text : ℕ → String

abbrev slots_of : Option String → Option ℕ → List Uuid → Built QuoteSlots
slots_of (some company) (some quantity) ids =
    if leb 1 quantity
    then built (record { company = company; product_ids = ids; quantity = quantity })
    else refused invalid_slots
slots_of _ _ ids = refused incomplete_slots

abbrev complete_slots : FactsSchema → Option (List Uuid) → Built QuoteSlots
complete_slots facts none = refused incomplete_slots
complete_slots facts (some []) = refused incomplete_slots
complete_slots facts (some (id ∷ ids)) =
    if quote_slots_complete facts
    then slots_of facts.company facts.quantity (id ∷ ids)
    else refused incomplete_slots

-- _build_slots
unfoldable pub build_slots : FactsSchema → ExecutionContext → Built QuoteSlots
unfolding quote_slots_complete get_product_ids
build_slots facts context = complete_slots facts (get_product_ids context)

-- The sum of the subtotals.
abbrev pub total_of : List QuoteLineItem → ℕ
total_of [] = 0
total_of (item ∷ items) = item.subtotal + total_of items

module _ (sources : Sources) where
  open sources use {
    price, product_name, new_id, inserts, makes_pdf, narrates, amount_text, count_text,
  }

  abbrev or_id : Uuid → Option String → String
  or_id id none = id
  or_id id (some name) = name

  -- One line, with the amounts in cents.
  unfoldable pub line_item : ℕ → Uuid → ProductPricing → QuoteLineItem
  line_item quantity id pricing = record {
    product_id = id;
    name = or_id id (product_name id);
    unit_price = quantize pricing.unit_price.coefficient pricing.unit_price.scale;
    quantity = quantity;
    subtotal = quantize (pricing.unit_price.coefficient * quantity) pricing.unit_price.scale;
  }

  -- The products that have no price.
  abbrev add_missing : Uuid → Option ProductPricing → List Uuid → List Uuid
  add_missing id none rest = id ∷ rest
  add_missing id (some pricing) rest = rest

  abbrev pub missing_prices : List Uuid → List Uuid
  missing_prices [] = []
  missing_prices (id ∷ ids) = add_missing id (price id) (missing_prices ids)

  -- The rows of the prices, in the order of the products.
  abbrev add_priced :
      Uuid → Option ProductPricing → List (Uuid × ProductPricing) → List (Uuid × ProductPricing)
  add_priced id none rest = rest
  add_priced id (some pricing) rest = (id, pricing) ∷ rest

  abbrev pub priced_products : List Uuid → List (Uuid × ProductPricing)
  priced_products [] = []
  priced_products (id ∷ ids) = add_priced id (price id) (priced_products ids)

  abbrev pub line_items_of : ℕ → List (Uuid × ProductPricing) → List QuoteLineItem
  line_items_of quantity [] = []
  line_items_of quantity ((id, pricing) ∷ rest) =
      line_item quantity id pricing ∷ line_items_of quantity rest

  -- The one currency of all rows.
  abbrev one_currency : List (Uuid × ProductPricing) → Option String
  one_currency [] = none
  one_currency ((id, pricing) ∷ rest) =
      if all (λ row. row.1.currency == pricing.currency) rest then some pricing.currency else none

  -- QuoteRepository.create, and the result.
  unfoldable pub store_quote :
      QuoteSlots → List QuoteLineItem → String → List Quote → Built QuoteResult × List Quote
  store_quote slots items currency rows =
      let id = new_id rows in
      let total = total_of items in
      if inserts rows
      then (
        built (record {
          quote_id = id;
          company = slots.company;
          line_items = items;
          total = total;
          currency = currency;
          pdf_generated = false;
        }),
        rows
            ++ record {
              id = id;
              company = slots.company;
              line_items = items;
              total = total;
              currency = currency;
              has_pdf = false;
            }
              ∷ [],
      )
      else (refused not_stored, rows)

  abbrev with_currency :
      QuoteSlots
      → List (Uuid × ProductPricing)
      → Option String
      → List Quote
      → Built QuoteResult × List Quote
  with_currency slots priced none rows = (refused currency_mismatch, rows)
  with_currency slots priced (some currency) rows =
      store_quote slots (line_items_of slots.quantity priced) currency rows

  abbrev with_prices : QuoteSlots → List Uuid → List Quote → Built QuoteResult × List Quote
  with_prices slots [] rows =
      let priced = priced_products slots.product_ids in
      with_currency slots priced (one_currency priced) rows
  with_prices slots (id ∷ ids) rows = (refused (pricing_missing (id ∷ ids)), rows)

  abbrev with_slots : Built QuoteSlots → List Quote → Built QuoteResult × List Quote
  with_slots (refused e) rows = (refused e, rows)
  with_slots (built slots) rows = with_prices slots (missing_prices slots.product_ids) rows

  -- QuoteBuilder.build
  unfoldable pub build :
      FactsSchema → ExecutionContext → List Quote → Built QuoteResult × List Quote
  unfolding build_slots store_quote line_item
  build facts context rows = with_slots (build_slots facts context) rows

  -- deterministic_summary
  unfoldable pub deterministic_summary : QuoteResult → String
  deterministic_summary quote = concat (
      "Quote "
      ∷ quote.quote_id
      ∷ " for "
      ∷ quote.company
      ∷ ": "
      ∷ quote.currency
      ∷ " "
      ∷ amount_text quote.total
      ∷ " across "
      ∷ count_text (length quote.line_items)
      ∷ " line item(s)."
      ∷ [])

  abbrev or_summary : QuoteResult → Option (Option String) → String
  or_summary quote none = deterministic_summary quote
  or_summary quote (some none) = deterministic_summary quote
  or_summary quote (some (some text)) = if text == "" then deterministic_summary quote else text

  -- save_pdf
  abbrev save_pdf : Uuid → List Quote → List Quote
  save_pdf id [] = []
  save_pdf id (row ∷ rows) =
      let rest = save_pdf id rows in
      if row.id == id then record row { has_pdf = true } ∷ rest else row ∷ rest

  abbrev after_build : Built QuoteResult × List Quote → Built ToolExecutionResult × List Quote
  after_build (refused e, rows) = (refused e, rows)
  after_build (built quote, rows) =
      let with_pdf = record quote { pdf_generated = true } in
      if makes_pdf quote
      then (
        built (record {
          step = "generate_quote";
          success = true;
          result_summary = or_summary with_pdf (narrates with_pdf);
          error = none;
          product_ids = none;
        }),
        save_pdf quote.quote_id rows,
      )
      else (refused no_pdf, rows)

  -- What is committed: nothing of a call that raises.
  abbrev committed :
      List Quote → Built ToolExecutionResult × List Quote → Built ToolExecutionResult × List Quote
  committed before (built result, rows) = (built result, rows)
  committed before (refused e, rows) = (refused e, before)

  -- generate_quote_tool
  unfoldable pub generate_quote_tool :
      FactsSchema → ExecutionContext → List Quote → Built ToolExecutionResult × List Quote
  unfolding build deterministic_summary
  generate_quote_tool facts context rows = committed rows (after_build (build facts context rows))
