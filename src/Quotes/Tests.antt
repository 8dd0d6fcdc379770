-- ===== src/Quotes/Tests.antt =====
-- Runs of app/quotes/builder.py and the instance of its theorem.
use makkays_chatbot.Prelude.{
  ℕ, ◌≡◌, refl, String, List, [], ◌∷◌, true, false, none, some, ◌==◌, if◌then◌else◌,
}
use makkays_chatbot.Session.Schemas.{FactsSchema, empty_facts}
use makkays_chatbot.Tools.Schemas.{ExecutionContext}
use makkays_chatbot.SolutionBuilder.Bom.{quantize}
use makkays_chatbot.Quotes.{
  QuoteLineItem, QuoteResult, Quote, built, refused, pricing_missing, Sources, build,
}
use makkays_chatbot.Quotes.Laws.{IsQuote, build-IsQuote}

-- Two products are priced: a switch at 19.99 and a clip at 0.005.
abbrev catalog : Sources
catalog = record {
  price = λ id.
      if id == "switch"
      then some (record { unit_price = record { coefficient = 1999; scale = 2 }; currency = "USD" })
      else if id == "clip"
      then some (record { unit_price = record { coefficient = 5; scale = 3 }; currency = "USD" })
      else none;
  product_name = λ id. none;
  new_id = λ rows. "q";
  inserts = λ rows. true;
  makes_pdf = λ quote. true;
  narrates = λ quote. none;
  amount_text = λ n. "100.00";
  count_text = λ n. "2";
}

abbrev ready : FactsSchema
ready = record (empty_facts "t" "s") {
  company = some "Acme";
  product_interest = some "switches";
  quantity = some 100;
  budget = some (record { coefficient = 5; scale = 0 });
}

abbrev finding : List String → ExecutionContext
finding ids =
    (
      "retrieve_products",
      record {
        step = "retrieve_products";
        success = true;
        result_summary = "";
        error = none;
        product_ids = some ids;
      },
    )
    ∷ []

abbrev line : String → ℕ → ℕ → QuoteLineItem
line id unit_price subtotal = record {
  product_id = id;
  name = id;
  unit_price = unit_price;
  quantity = 100;
  subtotal = subtotal;
}

abbrev quote : QuoteResult
quote = record {
  quote_id = "q";
  company = "Acme";
  line_items = line "switch" 1999 199900 ∷ line "clip" 0 50 ∷ [];
  total = 199950;
  currency = "USD";
  pdf_generated = false;
}

abbrev row : Quote
row = record {
  id = "q";
  company = "Acme";
  line_items = line "switch" 1999 199900 ∷ line "clip" 0 50 ∷ [];
  total = 199950;
  currency = "USD";
  has_pdf = false;
}

-- The price of a clip is shown as nothing, and a hundred of them as fifty cents.
quoted : build catalog ready (finding ("switch" ∷ "clip" ∷ [])) [] ≡ (built quote, row ∷ [])
unfolding build quantize
quoted = refl

unpriced :
    build catalog ready (finding ("switch" ∷ "router" ∷ [])) []
    ≡ (refused (pricing_missing ("router" ∷ [])), [])
unfolding build
unpriced = refl

build-IsQuote_example : IsQuote catalog ready (finding ("switch" ∷ "clip" ∷ [])) [] quote (row ∷ [])
build-IsQuote_example =
    build-IsQuote catalog ready (finding ("switch" ∷ "clip" ∷ [])) [] (row ∷ []) quote quoted
