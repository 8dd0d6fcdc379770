-- ===== src/Planner/Tests.antt =====
-- Runs of the planner, and its theorems at concrete inputs.
use makkays_chatbot.Prelude.{
  String, ◌≡◌, ◌↔◌, refl, [], ◌∷◌, true, false, none, some, All, contains, is_some, is_subsequence,
}
use makkays_chatbot.Shared.{IntentResult, tier1, intent_taxonomy, certain}
use makkays_chatbot.Flags.Schemas.{default_flags}
use makkays_chatbot.Session.Schemas.{
  FactsSchema, ConversationStateSchema, Plan, empty_facts, empty_state,
}
use makkays_chatbot.Planner.{is_open, filter_by_flags, unregistered, build_plan}
use makkays_chatbot.Planner.Rules.{plan_sales_inquiry, plan_quote_request}
use makkays_chatbot.Planner.RuleLaws.{IsSound}
use makkays_chatbot.Planner.Plans.{build_plan-IsSound, build_plan-IsTotal}
use makkays_chatbot.Planner.Menus.{menu, build_plan-menu}

abbrev ready_facts : FactsSchema
ready_facts = record (empty_facts "t" "s") {
  company = some "Acme";
  product_interest = some "switch";
  quantity = some 4;
  budget = some (record { coefficient = 500; scale = 0 });
}

abbrev captured_state : ConversationStateSchema
captured_state = record (empty_state "t" "s") { contact_info_captured = true }

abbrev ask : String → IntentResult
ask intent = record {
  intent = intent;
  confidence = certain;
  source = tier1;
  candidates = intent ∷ "quote_request" ∷ [];
  spec_question_detected = true;
}

abbrev sales_plan : Plan
sales_plan = record {
  intent = "sales_inquiry";
  steps =
      "retrieve_products" ∷ "retrieve_docs" ∷ "compare" ∷ "generate_quote" ∷ "create_lead"
      ∷ "respond" ∷ [];
}

sales_run :
    build_plan (ask "sales_inquiry") ready_facts captured_state default_flags ≡ some sales_plan
unfolding build_plan filter_by_flags is_open plan_sales_inquiry
sales_run = refl

-- Without retrieval, quotes and leads only the reply is left of the same inquiry.
flags_off_run :
    build_plan
      (ask "quote_request")
      ready_facts
      captured_state
      (record default_flags { enable_rag = false; enable_quotes = false })
    ≡ some (record { intent = "quote_request"; steps = "respond" ∷ [] })
unfolding build_plan filter_by_flags is_open plan_quote_request
flags_off_run = refl

unknown_run : build_plan (ask "small_talk") ready_facts captured_state default_flags ≡ none
unfolding build_plan
unknown_run = refl

build_plan-IsSound_example :
    IsSound ready_facts captured_state default_flags (ask "sales_inquiry") sales_plan.steps
    × All (λ step. is_open default_flags step ≡ true) sales_plan.steps
    × (unregistered sales_plan.steps ≡ [])
    × (sales_plan.intent ≡ "sales_inquiry")
build_plan-IsSound_example =
    build_plan-IsSound ready_facts captured_state default_flags (ask "sales_inquiry") sales_plan
      sales_run

build_plan-IsTotal_example :
    (is_some (build_plan (ask "sales_inquiry") ready_facts captured_state default_flags) ≡ true)
    ↔ (contains intent_taxonomy "sales_inquiry" ≡ true)
build_plan-IsTotal_example =
    build_plan-IsTotal ready_facts captured_state default_flags (ask "sales_inquiry")

build_plan-menu_example : is_subsequence sales_plan.steps (menu "sales_inquiry") ≡ true
build_plan-menu_example =
    build_plan-menu ready_facts captured_state default_flags (ask "sales_inquiry") sales_plan
      sales_run
