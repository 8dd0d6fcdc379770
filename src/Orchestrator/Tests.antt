-- ===== src/Orchestrator/Tests.antt =====
-- Runs of app/orchestrator and the instances of its theorems.
use makkays_chatbot.Prelude.{
  ℕ, suc, ◌≡◌, refl, ◌==◌, String, List, [], ◌∷◌, Bool, true, false, Option, none, some, contains,
  concat, if◌then◌else◌, arith,
}
use makkays_chatbot.Flags.Schemas.{default_flags}
use makkays_chatbot.Session.Caching.{
  read_through, after_redis_get, redis_get, after_db_get, db_get, cache_row, redis_set, put_row,
  after_upsert, Store,
}
use makkays_chatbot.Session.Updates.{
  upsert_state, merge_state, increment_clarification_round, has_values, sets_field, breaks_not_null,
  change, change_value,
}
use makkays_chatbot.Session.Service.{
  get_facts, get_conversation_state, update_facts, update_conversation_state, validate_state,
  facts_key, state_key, update_clarification_state, after_patch, clarification_patch, after_reread,
}
use makkays_chatbot.Clarification.{Prompts}
use makkays_chatbot.Turns.{get_next_turn_number}
use makkays_chatbot.Language.{maybe_translate_response}
use makkays_chatbot.Planner.{filter_by_flags, is_open}
use makkays_chatbot.Planner.Rules.{plan_warranty_information}
use makkays_chatbot.SolutionBuilder.Wizard.{WizardSession, no_requirements}
use makkays_chatbot.Tools.Schemas.{returned, SecurityPolicySchema}
use makkays_chatbot.Tools.Policy.{
  Redis, check, after_state, check_state, after_slots, check_slots, check_limit, limit_clause,
}
use makkays_chatbot.Tools.Registry.{ToolRegistry, get}
use makkays_chatbot.Tools.Executor.{
  Tool, aborts, execute_steps, execute_step, dispatch, after_check, after_step, run_tool,
  or_failure,
}
use makkays_chatbot.Orchestrator.Replies.{fallback_message, assistant_message_from_results}
use makkays_chatbot.Orchestrator.Turn.{Setup, env, Ended, done, TurnState, OrchestratorResult}
use makkays_chatbot.Orchestrator.Control.{has_wizard, looks_like_wizard_escape, on_turn}
use makkays_chatbot.Orchestrator.Outcomes.{Ends}
use makkays_chatbot.Orchestrator.Turns.{IsWizardTurn, on_turn-IsWizardTurn}

abbrev counters : Redis
counters = record {
  Store = String → ℕ;
  incr =
      λ key store. (returned (suc (store key)), λ k. if key == k then suc (store key) else store k);
  expire = λ key window store. (returned tt, store);
}

abbrev templates : Prompts
templates = record {
  template = λ name. some "What do you need?";
  chat = none;
  missing_preserved_options = λ text rewritten. [];
}

abbrev open_policy : String → SecurityPolicySchema
open_policy name = record {
  tool_name = name;
  allowed_intents = "warranty_information" ∷ [];
  required_state = [];
  required_slots = [];
  rate_limit = none;
  audit_log = true;
}

-- A site whose messages match these patterns, and whose model never replies. The tools use no more
-- than the database.
abbrev site : List String → Setup (Unit {0})
site found = record {
  redis = counters;
  accepts = λ entry db. true;
  describe = λ e. "error";
  repr = λ s. s;
  facts_fails = λ n. false;
  state_fails = λ n. false;
  log_fails = λ n. false;
  log_others = λ n. [];
  commits = λ db. true;
  threshold = 700000;
  max_rounds = 3;
  search = λ pattern content. contains found pattern;
  matches = λ message. record {
    email = none;
    phone = none;
    quantity = none;
    budget = none;
    company = none;
  };
  is_email = λ s. true;
  facts_reply = λ facts state recent message. [];
  intent_reply = λ facts state recent message. none;
  langdetect = λ content. none;
  translation = λ language content. none;
  prompts = templates;
  policies =
      ("respond", open_policy "respond") ∷ ("retrieve_docs", open_policy "retrieve_docs") ∷ [];
}

abbrev empty_store : (A : Type 0) → Store A
empty_store A = record { rows = λ tenant session. none; cache = λ key. none; calls = 0 }

module _ (found : List String) where
  abbrev tool : String → Tool (env (site found))
  tool name session context db = (
    returned (record {
      step = name;
      success = true;
      result_summary = concat ("done: " ∷ name ∷ []);
      error = none;
      product_ids = none;
    }),
    db,
  )

  abbrev tools : ToolRegistry (Tool (env (site found))) String
  tools = record {
    tools = ("retrieve_docs", tool "retrieve_docs") ∷ ("respond", tool "respond") ∷ [];
    flag_gates = [];
    llm_schemas = [];
  }

  abbrev start : List WizardSession → TurnState (site found)
  start wizards = record {
    tools = record {
      world = record {
        facts = empty_store _;
        state = empty_store _;
        log = record { rows = []; calls = 0 };
        wizards = wizards;
        outside = tt;
      };
      store = λ key. 0;
      audit = [];
      metrics = [];
    };
    metrics = [];
  }

abbrev first_step : WizardSession
first_step = record {
  current_step = 1;
  collected_requirements = no_requirements;
  completed = false;
}

-- What the user sees of a turn.
abbrev seen : {S : Type 0} → Ended OrchestratorResult × S → Option (String × Bool × List String)
seen (done r, s) = some (r.assistant_message, r.awaiting_clarification, r.plan)
seen _ = none

abbrev warranty : List String
warranty = "\\bwarranty\\b" ∷ []

answered :
    seen (
      on_turn
        (site warranty)
        (tools warranty)
        default_flags
        "t"
        "s"
        "is there a warranty"
        none
        (start warranty []))
    ≡ some ("done: respond", false, "retrieve_docs" ∷ "respond" ∷ [])
unfolding on_turn assistant_message_from_results get_facts get_conversation_state update_facts
    update_conversation_state read_through after_redis_get redis_get after_db_get db_get cache_row
    redis_set put_row after_upsert upsert_state merge_state has_values sets_field breaks_not_null
    change change_value validate_state facts_key state_key execute_steps execute_step dispatch
    after_check after_step check run_tool get_next_turn_number filter_by_flags
    plan_warranty_information is_open get aborts maybe_translate_response after_state check_state
    after_slots check_slots check_limit limit_clause or_failure
answered = refl

-- A classification that failed has no confidence: the turn asks.
asks :
    seen (on_turn (site []) (tools []) default_flags "t" "s" "hm" none (start [] []))
    ≡ some ("What do you need?", true, [])
unfolding on_turn get_facts get_conversation_state update_facts update_conversation_state
    read_through after_redis_get redis_get after_db_get db_get cache_row redis_set put_row
    after_upsert upsert_state merge_state has_values sets_field breaks_not_null change change_value
    validate_state facts_key state_key execute_steps execute_step dispatch after_check after_step
    check run_tool get_next_turn_number update_clarification_state after_patch clarification_patch
    increment_clarification_round after_reread maybe_translate_response
asks = refl

-- Without a reply the user gets the fallback.
no_reply : assistant_message_from_results [] ≡ fallback_message
unfolding assistant_message_from_results
no_reply = refl

owned : has_wizard (site []) (tools []) default_flags "t" "s" (start [] (first_step ∷ [])) ≡ true
unfolding has_wizard
owned = refl

stays : looks_like_wizard_escape (site []) (tools []) default_flags "t" "s" "power" ≡ false
unfolding looks_like_wizard_escape
stays = refl

on_turn-IsWizardTurn_example :
    Ends
      (IsWizardTurn (site []) (tools []) default_flags "t" "s")
      (on_turn (site []) (tools []) default_flags "t" "s" "power" none (start [] (first_step ∷ [])))
on_turn-IsWizardTurn_example =
    on_turn-IsWizardTurn (site []) (tools []) default_flags "t" "s" "power" none
      (start [] (first_step ∷ [])) owned stays (omega arith)
