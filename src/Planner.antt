-- ===== src/Planner.antt =====
-- app/planner/planner.py: the deterministic plan of a classified intent.
pub mod Rules
pub mod RuleLaws
pub mod Plans
pub mod Menus
mod Tests
use makkays_chatbot.Prelude.{
  String, List, [], ◌∷◌, ◌++◌, Bool, true, false, not, Option, none, some, Dict, lookup, keep,
  contains, if◌then◌else◌,
}
use makkays_chatbot.Shared.{IntentResult}
use makkays_chatbot.Flags.Schemas.{FeatureFlags, get_attr}
use makkays_chatbot.Session.Schemas.{FactsSchema, ConversationStateSchema, Plan}
use Rules.{RuleFn, rule_registry}

-- REGISTERED_STEPS
abbrev pub registered_steps : List String
registered_steps =
    "retrieve_products" ∷ "retrieve_docs" ∷ "compare" ∷ "generate_quote" ∷ "request_missing_slots"
    ∷ "create_lead" ∷ "initiate_handoff" ∷ "check_availability" ∷ "respond" ∷ "compare_products"
    ∷ "check_compatibility" ∷ "recommend_accessories" ∷ "find_alternatives"
    ∷ "explain_specification" ∷ "run_wizard" ∷ "build_use_case_solution" ∷ "build_solution" ∷ []

-- _FLAG_GATED_STEPS
abbrev pub flag_gated_steps : Dict String
flag_gated_steps =
    ("retrieve_products", "enable_rag")
    ∷ ("retrieve_docs", "enable_rag")
    ∷ ("generate_quote", "enable_quotes")
    ∷ ("request_missing_slots", "enable_quotes")
    ∷ ("create_lead", "enable_crm")
    ∷ ("initiate_handoff", "enable_human_handoff")
    ∷ ("check_availability", "enable_availability_check")
    ∷ ("compare_products", "enable_product_comparison")
    ∷ ("check_compatibility", "enable_compatibility_check")
    ∷ ("recommend_accessories", "enable_accessory_recommendation")
    ∷ ("run_wizard", "enable_wizard")
    ∷ ("build_use_case_solution", "enable_use_case_recommendation")
    ∷ ("build_solution", "enable_solution_builder")
    ∷ []

-- `getattr(flags, name)` is the attribute; every name in the table is one.
abbrev pub truthy : Option Bool → Bool
truthy none = false
truthy (some b) = b

-- flag_name is None or getattr(flags, flag_name)
unfoldable pub is_open : FeatureFlags → String → Bool
unfolding get_attr lookup
is_open flags step = elim (lookup step flag_gated_steps) [
  | none ↦ true
  | some name ↦ truthy (get_attr flags name)
]

abbrev pub or_respond : List String → List String
or_respond [] = "respond" ∷ []
or_respond (s ∷ ss) = s ∷ ss

-- _filter_by_flags
unfoldable pub filter_by_flags : List String → FeatureFlags → List String
filter_by_flags steps flags = or_respond (keep (is_open flags) steps)

-- What a planned turn logs as an error: steps outside `registered_steps`.
unfoldable pub unregistered : List String → List String
unregistered steps = keep (λ step. not (contains registered_steps step)) steps

-- `none` is `UnknownIntentError`.
unfoldable pub build_plan :
    IntentResult → FactsSchema → ConversationStateSchema → FeatureFlags → Option Plan
unfolding lookup
build_plan intent_result facts state flags = elim (lookup intent_result.intent rule_registry) [
  | none ↦ none
  | some rule ↦ some (record {
    intent = intent_result.intent;
    steps = filter_by_flags (or_respond (rule facts state flags intent_result)) flags;
  })
]
