-- ===== src/Orchestrator/Control.antt =====
-- `Orchestrator.on_turn` of app/orchestrator/orchestrator.py: its flow.
use makkays_chatbot.Prelude.{
  ℕ, String, List, [], Bool, true, false, ◌&&◌, Option, none, some, is_some, any, map, ltb, lower,
  if◌then◌else◌,
}
use makkays_chatbot.Shared.{Uuid, IntentResult}
use makkays_chatbot.Flags.Schemas.{FeatureFlags}
use makkays_chatbot.Session.Schemas.{Plan, FactsSchema, ConversationStateSchema}
use makkays_chatbot.Router.Classifier.{classify}
use makkays_chatbot.Router.Facts.{extract}
use makkays_chatbot.Language.{maybe_translate_response}
use makkays_chatbot.Clarification.{
  ClarificationOutcome, asked_question, max_rounds_exceeded, prompt_not_found, state_error, run,
}
use makkays_chatbot.Planner.{build_plan}
use makkays_chatbot.SolutionBuilder.Wizard.{get_active, abandon}
use makkays_chatbot.Tools.Schemas.{Attempt, ToolExecutionResult, TurnText}
use makkays_chatbot.Tools.Registry.{ToolRegistry}
use makkays_chatbot.Tools.Executor.{Tool, RunState, execute_plan}
use makkays_chatbot.Orchestrator.Replies.{
  assistant_message_from_results, tool_call_record, intent_payload,
}
use makkays_chatbot.Orchestrator.Turn.{
  wizard_escape_patterns, Setup, env, session_error, invalid_facts, no_prompt, unknown_intent,
  Ended, done, failed, classified, OrchestratorResult, certain_result, wizard_intent, intent_patch,
  plan_patch, Step, ◌>>=◌, ◌>>◌, pure, or_fail, TurnState, database, with_database,
}
use makkays_chatbot.Orchestrator.Actions.{
  count, read_facts, write_facts, read_state, write_state, recent_turns, next_number, keep_turn,
  commit, apply_language_detection, of_attempt,
}

module _ {Outside : Type 0} (setup : Setup Outside)
    (registry : ToolRegistry (Tool (env setup)) String) (flags : FeatureFlags) (tenant : Uuid)
    (session : String) where
  -- _looks_like_wizard_escape
  unfoldable pub looks_like_wizard_escape : String → Bool
  unfolding wizard_escape_patterns lower
  looks_like_wizard_escape message =
      any (λ pattern. setup.search pattern (lower message)) wizard_escape_patterns

  -- A wizard is in progress.
  unfoldable pub has_wizard : TurnState setup → Bool
  unfolding get_active
  has_wizard s = flags.enable_wizard && is_some (get_active (database setup s).wizards)

  unfoldable pub abandon_wizard : TurnState setup → TurnState setup
  unfolding abandon
  abandon_wizard s =
      with_database setup
        (record (database setup s) { wizards = abandon (database setup s).wizards }) s

  -- The intent: that of the wizard in progress, unless the message leaves it.
  unfoldable pub find_intent :
      FactsSchema
      → ConversationStateSchema
      → List TurnText
      → String
      → Step (TurnState setup) IntentResult
  unfolding looks_like_wizard_escape has_wizard abandon_wizard classify
  find_intent facts state recent message s =
      let found = classify setup.search (setup.intent_reply facts state recent) message in
      if has_wizard s
      then (if looks_like_wizard_escape message
          then (done found, abandon_wizard s)
          else (done (certain_result wizard_intent), s))
      else (done found, s)

  abbrev pub with_results :
      Attempt (List ToolExecutionResult) × RunState (env setup)
      → TurnState setup
      → Ended (List ToolExecutionResult) × TurnState setup
  with_results (attempt, tools) s = (of_attempt attempt, record s { tools = tools })

  unfoldable pub run_tools :
      Plan
      → FactsSchema
      → ConversationStateSchema
      → List TurnText
      → String
      → Step (TurnState setup) (List ToolExecutionResult)
  unfolding execute_plan
  run_tools plan facts state recent message s =
      with_results
        (execute_plan (env setup) registry setup.policies plan
          (record {
            tenant_id = tenant;
            session_id = session;
            facts = facts;
            conversation_state = state;
            message = message;
            recent_turns = recent;
          })
          flags s.tools)
        s

  abbrev pub translated : String → ConversationStateSchema → String
  translated message state =
      maybe_translate_response setup.translation message state.language_code
        flags.enable_multi_language

  -- The turn with a plan.
  unfoldable pub plan_turn :
      ℕ
      → String
      → FactsSchema
      → ConversationStateSchema
      → List TurnText
      → IntentResult
      → Step (TurnState setup) OrchestratorResult
  unfolding build_plan write_state run_tools keep_turn commit assistant_message_from_results
      tool_call_record intent_payload
  plan_turn number message facts state recent intent_result = do
    plan ← or_fail unknown_intent (build_plan intent_result facts state flags)
    state' ← write_state setup registry flags tenant session (plan_patch plan)
    results ← run_tools plan facts state' recent message
    let answer = translated (assistant_message_from_results results) state'
    let calls = map tool_call_record results
    keep_turn setup registry flags tenant session number message answer
        (intent_payload intent_result) (some calls)
    commit setup registry flags tenant session
    pure (record {
      assistant_message = answer;
      session_id = session;
      intent = some intent_result.intent;
      awaiting_clarification = false;
      plan = plan.steps;
      tool_calls = calls;
    })

  abbrev pub after_clarification :
      ℕ
      → String
      → FactsSchema
      → ConversationStateSchema
      → List TurnText
      → IntentResult
      → ClarificationOutcome
      → Step (TurnState setup) OrchestratorResult
  after_clarification number message facts state recent intent_result
        (asked_question text rewritten candidates name rounds) =
      do
        let answer = translated text state
        keep_turn setup registry flags tenant session number message answer
            (intent_payload intent_result) none
        commit setup registry flags tenant session
        pure (record {
          assistant_message = answer;
          session_id = session;
          intent = some intent_result.intent;
          awaiting_clarification = true;
          plan = [];
          tool_calls = [];
        })
  after_clarification number message facts state recent intent_result (max_rounds_exceeded rounds) =
      plan_turn number message facts state recent (certain_result "escalation_request")
  after_clarification number message facts state recent intent_result prompt_not_found =
      λ s. (failed no_prompt, s)
  after_clarification number message facts state recent intent_result state_error =
      λ s. (failed session_error, s)

  unfoldable pub ask :
      IntentResult → ConversationStateSchema → Step (TurnState setup) ClarificationOutcome
  unfolding run
  ask intent_result state s =
      let (outcome, store) =
        run setup.prompts setup.state_fails tenant session setup.max_rounds intent_result state
          flags.enable_llm_clarification_rewrite (database setup s).state in
      (done outcome, with_database setup (record (database setup s) { state = store }) s)

  -- The turn with a question, or with the plan of an escalation.
  unfoldable pub clarify_turn :
      ℕ
      → String
      → FactsSchema
      → ConversationStateSchema
      → List TurnText
      → IntentResult
      → Step (TurnState setup) OrchestratorResult
  unfolding ask keep_turn commit plan_turn intent_payload
  clarify_turn number message facts state recent intent_result = do
    outcome ← ask intent_result state
    after_clarification number message facts state recent intent_result outcome

  unfoldable pub decide_turn :
      ℕ
      → String
      → FactsSchema
      → ConversationStateSchema
      → List TurnText
      → IntentResult
      → Step (TurnState setup) OrchestratorResult
  unfolding clarify_turn plan_turn
  decide_turn number message facts state recent intent_result =
      if ltb intent_result.confidence setup.threshold
      then clarify_turn number message facts state recent intent_result
      else plan_turn number message facts state recent intent_result

  -- The turn from the classification on.
  unfoldable pub route_turn :
      String
      → FactsSchema
      → ConversationStateSchema
      → List TurnText
      → Step (TurnState setup) OrchestratorResult
  unfolding find_intent write_state next_number decide_turn
  route_turn message facts state recent = do
    intent_result ← find_intent facts state recent message
    count setup registry flags tenant session
        (classified intent_result.source intent_result.intent intent_result.confidence)
    state' ← write_state setup registry flags tenant session (intent_patch intent_result facts)
    number ← next_number setup registry flags tenant session
    decide_turn number message facts state' recent intent_result

  -- Orchestrator.on_turn
  unfoldable pub on_turn : String → Option String → Step (TurnState setup) OrchestratorResult
  unfolding read_facts read_state write_facts apply_language_detection extract route_turn
  on_turn message hint = do
    facts ← read_facts setup registry flags tenant session
    state ← read_state setup registry flags tenant session
    recent ← recent_turns setup registry flags tenant session
    state' ←
        if flags.enable_multi_language
        then apply_language_detection setup registry flags tenant session message hint state
        else pure state
    patch ← or_fail invalid_facts (
        extract setup.is_email facts message (setup.matches message)
          (setup.facts_reply facts state' recent message))
    facts' ← write_facts setup registry flags tenant session patch
    route_turn message facts' state' recent
