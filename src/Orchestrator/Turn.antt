-- ===== src/Orchestrator/Turn.antt =====
-- app/orchestrator/orchestrator.py: `Orchestrator.on_turn`, one message from the reading of the session
-- to the commit.
--
-- A step takes the state of the turn and returns it with its result, or fails; a failed turn is not
-- committed. The database of the tools has the rows that the turn itself reads and writes, and
-- whatever else the tools use. The flags are those that app/flags/service.py resolved.
use makkays_chatbot.Prelude.{
  ℕ, String, List, [], ◌∷◌, ◌++◌, Bool, false, ◌||◌, not, Option, none, some, Dict, lookup, ◌==◌,
}
use makkays_chatbot.Shared.{Confidence, IntentResult, certain, tier1, Source}
use makkays_chatbot.Session.Schemas.{Plan, FactsSchema, ConversationStateSchema}
use makkays_chatbot.Session.Updates.{ConversationStateUpdate, no_change}
use makkays_chatbot.Session.Service.{FactsStore, StateStore}
use makkays_chatbot.Turns.{ConversationTurn, TurnLog, ToolCall}
use makkays_chatbot.Router.Rules.{base_tier1_rules, tier1_rules_v42}
use makkays_chatbot.Router.Classifier.{ClassifyIntentArguments}
use makkays_chatbot.Router.Facts.{Value, Matches}
use makkays_chatbot.Clarification.{Prompts}
use makkays_chatbot.SolutionBuilder.Wizard.{WizardSession}
use makkays_chatbot.Tools.Schemas.{Error, SecurityPolicySchema, TurnText}
use makkays_chatbot.Tools.Policy.{Redis}
use makkays_chatbot.Tools.Executor.{AuditEntry, Environment, RunState}

abbrev patterns_of : Option (List String) → List String
patterns_of none = []
patterns_of (some patterns) = patterns

-- _WIZARD_ESCAPE_PATTERNS
unfoldable pub wizard_escape_patterns : List String
unfolding lookup
wizard_escape_patterns =
    patterns_of (lookup "escalation_request" base_tier1_rules)
    ++ patterns_of (lookup "human_handoff" tier1_rules_v42)
    ++ "\\bstop\\b" ∷ "\\bcancel\\b" ∷ "\\bnever ?mind\\b" ∷ "\\bforget it\\b"
      ∷ "\\bleave me alone\\b" ∷ "\\bgo away\\b" ∷ "\\bshut up\\b" ∷ "\\bbas\\b" ∷ "\\bchup\\b"
      ∷ "\\bdafa\\b" ∷ "\\bl[ae]khafa\\b" ∷ "\\bkhafa\\b" ∷ []

-- The rows of a session, and what else the tools use.
pub record Database (Outside : Type 0) : Type 0 where
  pub facts : FactsStore
  pub state : StateStore
  pub log : TurnLog
  pub wizards : List WizardSession
  pub outside : Outside

-- What a turn is given: settings, the calls that fail, the tools, and the replies of the model.
pub record Setup (Outside : Type 0) : Type 1 where
  pub redis : Redis
  pub accepts : AuditEntry → Database Outside → Bool
  pub describe : Error → String
  pub repr : String → String
  pub facts_fails : ℕ → Bool
  pub state_fails : ℕ → Bool
  pub log_fails : ℕ → Bool
  pub log_others : ℕ → List ConversationTurn
  pub commits : Database Outside → Bool
  pub threshold : Confidence
  pub max_rounds : ℕ
  pub search : String → List ℕ → Bool
  pub matches : String → Matches
  pub is_email : String → Bool
  pub facts_reply : FactsSchema → ConversationStateSchema → List TurnText → String → Dict Value
  pub intent_reply :
      FactsSchema
      → ConversationStateSchema
      → List TurnText
      → String
      → Option ClassifyIntentArguments
  pub langdetect : String → Option String
  pub translation : String → String → Option String
  pub prompts : Prompts
  pub policies : Dict SecurityPolicySchema

module _ {Outside : Type 0} where
  abbrev pub env : Setup Outside → Environment
  env setup = record {
    World = Database Outside;
    redis = setup.redis;
    accepts = setup.accepts;
    describe = setup.describe;
    repr = setup.repr;
  }

-- How a turn fails: an error of the session's state, a patch of facts that is not valid, a number
-- that cannot be read, a missing prompt, `UnknownIntentError`, an error of the executor, a commit.
pub data TurnError : Type 0 where
  session_error invalid_facts no_turn_number no_prompt unknown_intent not_committed : TurnError
  tool_error : Error → TurnError

pub data Ended (A : Type 0) : Type 0 where
  done : A → Ended A
  failed : TurnError → Ended A

-- The counts of the metrics registry, as the events that are counted.
pub data Metric : Type 0 where
  classified : Source → String → Confidence → Metric
  detected : String → Metric

pub record OrchestratorResult : Type 0 where
  pub assistant_message : String
  pub session_id : String
  pub intent : Option String
  pub awaiting_clarification : Bool
  pub plan : List String
  pub tool_calls : List ToolCall

abbrev pub certain_result : String → IntentResult
certain_result intent = record {
  intent = intent;
  confidence = certain;
  source = tier1;
  candidates = intent ∷ [];
  spec_question_detected = false;
}

abbrev pub wizard_intent : String
wizard_intent = "product_recommendation_wizard"

-- state.contact_info_captured: an empty text is falsy.
abbrev is_given : Option String → Bool
is_given none = false
is_given (some text) = not (text == "")

abbrev pub intent_patch : IntentResult → FactsSchema → ConversationStateUpdate
intent_patch result facts = record no_change {
  current_intent = some (some result.intent);
  intent_confidence = some (some result.confidence);
  spec_question_detected = some (some result.spec_question_detected);
  contact_info_captured =
      some (some (is_given facts.contact_email || is_given facts.contact_phone));
}

abbrev pub plan_patch : Plan → ConversationStateUpdate
plan_patch plan = record no_change {
  awaiting_clarification = some (some false);
  clarification_candidates = some (some []);
  current_plan = some (some plan);
  current_plan_step = some (some 0);
}

abbrev pub language_patch : String → ConversationStateUpdate
language_patch language = record no_change { language_code = some (some language) }

abbrev pub turn_text : ConversationTurn → TurnText
turn_text turn = record {
  user_message = turn.user_message;
  assistant_message = turn.assistant_message;
}

-- A step on a state: it returns, or it fails.
abbrev pub Step : Type 0 → Type 0 → Type 0
Step S A = S → Ended A × S

module _ {S : Type 0} where
  abbrev pub after : {A B : Type 0} → (A → Step S B) → Ended A × S → Ended B × S
  after f (done a, s) = f a s
  after f (failed e, s) = (failed e, s)

  infixl 5 ◌>>=◌ ◌>>◌
  abbrev pub ◌>>=◌ : {A B : Type 0} → Step S A → (A → Step S B) → Step S B
  m >>= f = λ s. after f (m s)

  abbrev pub ◌>>◌ : {A B : Type 0} → Step S A → Step S B → Step S B
  m >> k = m >>= λ _. k

  abbrev pub pure : {A : Type 0} → A → Step S A
  pure a = λ s. (done a, s)

  abbrev pub or_fail : {A : Type 0} → TurnError → Option A → Step S A
  or_fail e none = λ s. (failed e, s)
  or_fail e (some a) = pure a

module _ {Outside : Type 0} (setup : Setup Outside) where
  -- The state of the tools, with the database, and the metrics.
  pub record TurnState : Type 0 where
    pub tools : RunState (env setup)
    pub metrics : List Metric

  abbrev pub database : TurnState → Database Outside
  database s = s.tools.world

  abbrev pub with_database : Database Outside → TurnState → TurnState
  with_database db s = record s { tools = record s.tools { world = db } }
