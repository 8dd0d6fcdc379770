-- ===== src/Session/Schemas.antt =====
-- app/session/schemas.py: the read models of facts and conversation state. `None` is `none`.
--
-- A `Decimal` of the code is never negative where it is stored (`ge=0`): a coefficient and a number
-- of digits after the point. A quantity is read from digits and not negative either. `current_plan` is the dump of a `Plan`, which is all that the program
-- stores there.
use makkays_chatbot.Prelude.{ℕ, String, List, [], Bool, false, Option, none}
use makkays_chatbot.Shared.{Uuid, Confidence}

pub record Decimal : Type 0 where
  pub coefficient : ℕ
  pub scale : ℕ

-- app/planner/schemas.py
pub record Plan : Type 0 where
  pub intent : String
  pub steps : List String

pub record FactsSchema : Type 0 where
  pub tenant_id : Uuid
  pub session_id : String
  pub budget : Option Decimal
  pub company : Option String
  pub industry : Option String
  pub product_interest : Option String
  pub project_size : Option String
  pub location : Option String
  pub timeline : Option String
  pub is_decision_maker : Option Bool
  pub quantity : Option ℕ
  pub contact_name : Option String
  pub contact_email : Option String
  pub contact_phone : Option String

pub record ConversationStateSchema : Type 0 where
  pub tenant_id : Uuid
  pub session_id : String
  pub current_intent : Option String
  pub intent_confidence : Option Confidence
  pub awaiting_clarification : Bool
  pub clarification_candidates : List String
  pub clarification_rounds : ℕ
  pub current_plan : Option Plan
  pub current_plan_step : Option ℕ
  pub last_question : Option String
  pub spec_question_detected : Bool
  pub contact_info_captured : Bool
  pub handoff_target : Option String
  pub language_code : String
  pub language_override : Bool

-- FactsSchema(tenant_id=…, session_id=…)
abbrev pub empty_facts : Uuid → String → FactsSchema
empty_facts tenant session = record {
  tenant_id = tenant;
  session_id = session;
  budget = none;
  company = none;
  industry = none;
  product_interest = none;
  project_size = none;
  location = none;
  timeline = none;
  is_decision_maker = none;
  quantity = none;
  contact_name = none;
  contact_email = none;
  contact_phone = none;
}

-- ConversationStateSchema(tenant_id=…, session_id=…)
abbrev pub empty_state : Uuid → String → ConversationStateSchema
empty_state tenant session = record {
  tenant_id = tenant;
  session_id = session;
  current_intent = none;
  intent_confidence = none;
  awaiting_clarification = false;
  clarification_candidates = [];
  clarification_rounds = 0;
  current_plan = none;
  current_plan_step = none;
  last_question = none;
  spec_question_detected = false;
  contact_info_captured = false;
  handoff_target = none;
  language_code = "en";
  language_override = false;
}
