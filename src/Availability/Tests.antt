-- ===== src/Availability/Tests.antt =====
-- Runs of app/availability and the instance of its theorem.
use makkays_chatbot.Prelude.{ℕ, ◌≡◌, refl, String, List, [], ◌∷◌, map, true, false, none, some}
use makkays_chatbot.Session.Schemas.{empty_facts, empty_state}
use makkays_chatbot.Tools.Schemas.{raised, other, ToolExecutionResult, SessionContext}
use makkays_chatbot.Availability.{
  ProductAvailability, pos, negsuc, get, upsert, check, check_batch, local_provider, erp_provider,
  check_availability_tool,
}
use makkays_chatbot.Availability.Laws.{IsUnique, written, check_batch-upsert}

abbrev stock : List ProductAvailability
stock =
    record {
      tenant_id = "t";
      product_id = "p";
      quantity = 0;
      estimated_delivery_days = some 7;
      source = "manual";
    }
    ∷ []

abbrev session : SessionContext
session = record {
  tenant_id = "t";
  session_id = "s";
  facts = empty_facts "t" "s";
  conversation_state = empty_state "t" "s";
  message = "";
  recent_turns = [];
}

abbrev found : ToolExecutionResult
found = record {
  step = "retrieve_products";
  success = true;
  result_summary = "";
  error = none;
  product_ids = some ("p" ∷ []);
}

abbrev seven : ℕ → String
seven n = "7"

shown :
    (check_availability_tool seven local_provider stock session
      (("retrieve_products", found) ∷ [])).result_summary
    ≡ "Availability check:\n- Product p: out of stock, quantity 7. Estimated delivery: 7 days."
unfolding check_availability_tool
shown = refl

no_provider :
    (check_availability_tool seven erp_provider stock session
      (("retrieve_products", found) ∷ [])).success
    ≡ false
unfolding check_availability_tool
no_provider = refl

nothing_found :
    (check_availability_tool seven local_provider stock session []).error
    ≡ some "No retrieved product IDs"
unfolding check_availability_tool
nothing_found = refl

refused :
    upsert "check" "t" "p" (negsuc 0) none "manual" stock
    ≡ (raised (other "quantity must be >= 0"), stock)
unfolding upsert
refused = refl

late : (upsert "check" "t" "p" (pos 1) (some (negsuc 0)) "manual" stock).1 ≡ stock
unfolding upsert
late = refl

unique : IsUnique stock
unfolding IsUnique get
unique = (refl, tt)

check_batch-upsert_example :
    let (result, rows') = upsert "check" "t" "p" (pos 3) none "manual" stock in
    IsUnique rows'
    × (check_batch rows' ("q" ∷ "p" ∷ []) "t"
        ≡ map (λ p. written result p "t" (check stock p "t")) ("q" ∷ "p" ∷ []))
check_batch-upsert_example =
    check_batch-upsert "check" "t" "p" "manual" stock unique (pos 3) none ("q" ∷ "p" ∷ []) "t"
