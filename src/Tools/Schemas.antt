-- ===== src/Tools/Schemas.antt =====
-- app/tools/schemas.py, and how a call that may raise ends.
--
-- `ExecutionContext` is a record of optional results; here it is a dictionary by field name, in which
-- only the names of `context_fields` are ever written. An absent name is a field that is `None`.
use makkays_chatbot.Prelude.{
  String, List, [], ◌∷◌, Bool, true, false, Option, none, some, Dict, lookup, is_some,
  if◌then◌else◌,
}
use makkays_chatbot.Shared.{Uuid}
use makkays_chatbot.Session.Schemas.{FactsSchema, ConversationStateSchema}

-- A call that raises; `plan_violation` is `PlanViolationError`, `other` any other exception by its
-- text.
pub data Error : Type 0 where
  plan_violation : String → Error
  bad_rate_limit : String → Error
  missing_key : String → Error
  other : String → Error

pub data Attempt {ℓ} (A : Type ℓ) : Type ℓ where
  returned : A → Attempt A
  raised : Error → Attempt A

pub record SecurityPolicySchema : Type 0 where
  pub tool_name : String
  pub allowed_intents : List String
  pub required_state : List String
  pub required_slots : List String
  pub rate_limit : Option String
  pub audit_log : Bool

pub data Clause : Type 0 where
  intent_clause state_clause slots_clause rate_limit_clause : Clause

-- `PolicyCheckResult`; a refusal carries the name that its reason quotes.
pub data PolicyCheckResult : Type 0 where
  allowed : PolicyCheckResult
  denied : Clause → String → PolicyCheckResult

pub record ToolExecutionResult : Type 0 where
  pub step : String
  pub success : Bool
  pub result_summary : String
  pub error : Option String
  pub product_ids : Option (List Uuid)

abbrev pub ExecutionContext : Type 0
ExecutionContext = Dict ToolExecutionResult

-- ExecutionContext.model_fields
abbrev pub context_fields : List String
context_fields =
    "retrieve_products" ∷ "retrieve_docs" ∷ "generate_quote" ∷ "create_lead" ∷ "compare_products"
    ∷ "check_compatibility" ∷ "recommend_accessories" ∷ "find_alternatives"
    ∷ "explain_specification" ∷ "run_wizard" ∷ "build_use_case_solution" ∷ "build_solution"
    ∷ "initiate_handoff" ∷ "check_availability" ∷ []

-- get_product_ids
unfoldable pub get_product_ids : ExecutionContext → Option (List Uuid)
unfolding lookup
get_product_ids context = elim (lookup "retrieve_products" context) [
  | none ↦ none
  | some result ↦ if result.success then result.product_ids else none
]

-- A conversation turn as the tools read it: the two texts.
pub record TurnText : Type 0 where
  pub user_message : String
  pub assistant_message : Option String

pub record SessionContext : Type 0 where
  pub tenant_id : Uuid
  pub session_id : String
  pub facts : FactsSchema
  pub conversation_state : ConversationStateSchema
  pub message : String
  pub recent_turns : List TurnText

-- getattr(facts, name, None) is not None, for the fields of the model.
abbrev pub fact_fields : FactsSchema → Dict Bool
fact_fields f =
    ("tenant_id", true)
    ∷ ("session_id", true)
    ∷ ("budget", is_some f.budget)
    ∷ ("company", is_some f.company)
    ∷ ("industry", is_some f.industry)
    ∷ ("product_interest", is_some f.product_interest)
    ∷ ("project_size", is_some f.project_size)
    ∷ ("location", is_some f.location)
    ∷ ("timeline", is_some f.timeline)
    ∷ ("is_decision_maker", is_some f.is_decision_maker)
    ∷ ("quantity", is_some f.quantity)
    ∷ ("contact_name", is_some f.contact_name)
    ∷ ("contact_email", is_some f.contact_email)
    ∷ ("contact_phone", is_some f.contact_phone)
    ∷ []

abbrev or_false : Option Bool → Bool
or_false none = false
or_false (some b) = b

unfoldable pub has_fact : FactsSchema → String → Bool
unfolding lookup
has_fact facts name = or_false (lookup name (fact_fields facts))
