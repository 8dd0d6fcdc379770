-- ===== src/Orchestrator/Laws.antt =====
-- What a turn of app/orchestrator/orchestrator.py has done when it returns.
use makkays_chatbot.Prelude.{
  ℕ, ◌≡◌, ◌⊎◌, refl, String, List, [], true, false, some, Option-cases, Bool-cases, inl, inr, map,
  contains, ltb,
}
use makkays_chatbot.Flags.Schemas.{FeatureFlags}
use makkays_chatbot.Shared.{Uuid, IntentResult, intent_taxonomy}
use makkays_chatbot.Session.Schemas.{Plan, FactsSchema, ConversationStateSchema}
use makkays_chatbot.Tools.Registry.{ToolRegistry}
use makkays_chatbot.Tools.Schemas.{Attempt, returned, raised, ToolExecutionResult, TurnText}
use makkays_chatbot.Tools.Executor.{Tool, RunState}
use makkays_chatbot.Clarification.{
  ClarificationOutcome, asked_question, max_rounds_exceeded, prompt_not_found, state_error,
}
use makkays_chatbot.Planner.{build_plan}
use makkays_chatbot.Planner.Plans.{build_plan-IsTotal}
use makkays_chatbot.Orchestrator.Replies.{assistant_message_from_results, tool_call_record}
use makkays_chatbot.Orchestrator.Turn.{
  Setup, env, done, after, pure, TurnState, database, OrchestratorResult, certain_result,
  plan_patch,
}
use makkays_chatbot.Orchestrator.Actions.{write_state, keep_turn, commit}
use makkays_chatbot.Orchestrator.Control.{
  with_results, run_tools, translated, plan_turn, after_clarification, ask, clarify_turn,
  decide_turn,
}
use makkays_chatbot.Orchestrator.Outcomes.{
  Ends, after-Ends, after-known, Ends-map, IsUntouched, Untouched, write_state-Untouched,
}

module _ {Outside : Type 0} (setup : Setup Outside)
    (registry : ToolRegistry (Tool (env setup)) String) (flags : FeatureFlags) (tenant : Uuid)
    (session : String) where
  -- From `start` on a question was asked, and no tool has run.
  pub record Asked (start : TurnState setup) (r : OrchestratorResult) (s : TurnState setup)
      : Type 0 where
    pub awaiting : r.awaiting_clarification ≡ true
    pub no_plan : r.plan ≡ []
    pub no_calls : r.tool_calls ≡ []
    pub unchanged : IsUntouched setup registry flags tenant session start s
    pub committed : setup.commits (database setup s) ≡ true

  -- The planner has a plan for the intent, the facts and the state. From `start` on it was written to
  -- the state and the executor has run it, on the message and what was read, and the answer is made of
  -- the results.
  pub record Planned (message : String) (facts : FactsSchema) (state : ConversationStateSchema)
      (recent : List TurnText) (start : TurnState setup) (intent_result : IntentResult)
      (r : OrchestratorResult) (s : TurnState setup) : Type 0 where
    pub plan : Plan
    pub state_after : ConversationStateSchema
    pub results : List ToolExecutionResult
    pub before : TurnState setup
    pub ran_to : TurnState setup
    pub made : build_plan intent_result facts state flags ≡ some plan
    pub written :
        write_state setup registry flags tenant session (plan_patch plan) start
        ≡ (done state_after, before)
    pub unchanged : IsUntouched setup registry flags tenant session start before
    pub ran :
        run_tools setup registry flags tenant session plan facts state_after recent message before
        ≡ (done results, ran_to)
    pub not_awaiting : r.awaiting_clarification ≡ false
    pub same_intent : r.intent ≡ some intent_result.intent
    pub same_steps : r.plan ≡ plan.steps
    pub same_calls : r.tool_calls ≡ map tool_call_record results
    pub answer :
        r.assistant_message
        ≡ translated setup registry flags tenant session
            (assistant_message_from_results results)
            state_after
    pub kept : IsUntouched setup registry flags tenant session ran_to s
    pub committed : setup.commits (database setup s) ≡ true

  -- A question was asked, or an escalation is run: after the rounds of questions were counted, which
  -- the tools do not use.
  abbrev pub AskedOrEscalated :
      String
      → FactsSchema
      → ConversationStateSchema
      → List TurnText
      → TurnState setup
      → OrchestratorResult
      → TurnState setup
      → Type 0
  AskedOrEscalated message facts state recent start r s =
      Asked start r s
      ⊎ ((from : TurnState setup) × IsUntouched setup registry flags tenant session start from
          × Planned message facts state recent from (certain_result "escalation_request") r s)

  -- Below the threshold a question or the plan of an escalation; else the plan of the intent.
  abbrev pub Decided :
      String
      → FactsSchema
      → ConversationStateSchema
      → List TurnText
      → TurnState setup
      → IntentResult
      → OrchestratorResult
      → TurnState setup
      → Type 0
  Decided message facts state recent start intent_result r s =
      ((ltb intent_result.confidence setup.threshold ≡ true)
        × AskedOrEscalated message facts state recent start r s)
      ⊎ ((ltb intent_result.confidence setup.threshold ≡ false)
          × Planned message facts state recent start intent_result r s)

  -- What is left after the last change of the database.
  commit-Ends :
      (Q : OrchestratorResult → TurnState setup → Type 0) (r : OrchestratorResult)
      (s : TurnState setup)
      → (setup.commits (database setup s) ≡ true → Q r s)
      → Ends Q (after (λ _. pure r) (commit setup registry flags tenant session s))
  unfolding commit
  commit-Ends Q r s k = elim (Bool-cases (setup.commits (database setup s))) [
    | inl t ↦ rw t (k t)
    | inr f ↦ rw f (λ e. cc)
  ]

  pub untouched : (s : TurnState setup) → IsUntouched setup registry flags tenant session s s
  untouched s = record { same_wizards = refl; same_outside = refl; same_audit = refl }

  with_results-Ends :
      (ran : Attempt (List ToolExecutionResult) × RunState (env setup)) (s : TurnState setup)
      → Ends
          (λ results s'.
            with_results setup registry flags tenant session ran s ≡ (done results, s'))
          (with_results setup registry flags tenant session ran s)
  with_results-Ends (returned results, tools) s = refl
  with_results-Ends (raised e, tools) s = λ q. cc

  run_tools-Ends :
      (plan : Plan) (facts : FactsSchema) (state : ConversationStateSchema) (recent : List TurnText)
      (message : String) (s : TurnState setup)
      → Ends
          (λ results s'.
            run_tools setup registry flags tenant session plan facts state recent message s
            ≡ (done results, s'))
          (run_tools setup registry flags tenant session plan facts state recent message s)
  unfolding run_tools
  run_tools-Ends plan facts state recent message s = with_results-Ends _ s

  pub plan_turn-Planned :
      (number : ℕ) (message : String) (facts : FactsSchema) (state : ConversationStateSchema)
      (recent : List TurnText) (intent_result : IntentResult) (s : TurnState setup)
      → contains intent_taxonomy intent_result.intent ≡ true
      → Ends (Planned message facts state recent s intent_result) (
          plan_turn setup registry flags tenant session number message facts state recent
            intent_result s)
  unfolding plan_turn keep_turn
  plan_turn-Planned number message facts state recent intent_result s known =
      let Goal = Planned message facts state recent s intent_result in
      elim (Option-cases (build_plan intent_result facts state flags)) [
        | inl e ↦
            let some_plan = (build_plan-IsTotal facts state flags intent_result).1 known in
            cc (rw e at some_plan)
        | inr (plan, e) ↦ rw e (
            after-known (Untouched setup registry flags tenant session s) Goal _
              (write_state setup registry flags tenant session (plan_patch plan) s)
              (write_state-Untouched setup registry flags tenant session s (plan_patch plan) s
                (untouched s))
              (λ state' s₁ written h.
                after-Ends
                  (λ results s'.
                    run_tools setup registry flags tenant session plan facts state' recent message
                      s₁
                    ≡ (done results, s'))
                  Goal _
                  (run_tools setup registry flags tenant session plan facts state' recent message
                    s₁)
                  (run_tools-Ends plan facts state' recent message s₁)
                  (λ results s₂ ran. commit-Ends Goal _ _ (λ committed. record {
                    plan = plan;
                    state_after = state';
                    results = results;
                    before = s₁;
                    ran_to = s₂;
                    made = e;
                    written = written;
                    unchanged = h;
                    ran = ran;
                    not_awaiting = refl;
                    same_intent = refl;
                    same_steps = refl;
                    same_calls = refl;
                    answer = refl;
                    kept = record { same_wizards = refl; same_outside = refl; same_audit = refl };
                    committed = committed;
                  }))))
      ]

  after_clarification-AskedOrEscalated :
      (number : ℕ) (message : String) (facts : FactsSchema) (state : ConversationStateSchema)
      (recent : List TurnText) (intent_result : IntentResult) (outcome : ClarificationOutcome)
      (start s : TurnState setup)
      → IsUntouched setup registry flags tenant session start s
      → Ends (AskedOrEscalated message facts state recent start) (
          after_clarification setup registry flags tenant session number message facts state recent
            intent_result outcome s)
  unfolding keep_turn
  after_clarification-AskedOrEscalated number message facts state recent intent_result
        (asked_question text rewritten candidates name rounds) start s h =
      commit-Ends (AskedOrEscalated message facts state recent start) _ _ (λ committed.
        inl (record {
          awaiting = refl;
          no_plan = refl;
          no_calls = refl;
          unchanged = record {
            same_wizards = h.same_wizards;
            same_outside = h.same_outside;
            same_audit = h.same_audit;
          };
          committed = committed;
        }))
  after_clarification-AskedOrEscalated number message facts state recent intent_result
        (max_rounds_exceeded rounds) start s h =
      let escalation = certain_result "escalation_request" in
      Ends-map (Planned message facts state recent s escalation)
        (AskedOrEscalated message facts state recent start) (λ r s' planned. inr (s, h, planned))
        (plan_turn setup registry flags tenant session number message facts state recent escalation
          s)
        (plan_turn-Planned number message facts state recent escalation s refl)
  after_clarification-AskedOrEscalated number message facts state recent intent_result
        prompt_not_found start s h =
      λ e. cc
  after_clarification-AskedOrEscalated number message facts state recent intent_result state_error
        start s h =
      λ e. cc

  clarify_turn-AskedOrEscalated :
      (number : ℕ) (message : String) (facts : FactsSchema) (state : ConversationStateSchema)
      (recent : List TurnText) (intent_result : IntentResult) (s : TurnState setup)
      → Ends (AskedOrEscalated message facts state recent s) (
          clarify_turn setup registry flags tenant session number message facts state recent
            intent_result s)
  unfolding clarify_turn ask
  clarify_turn-AskedOrEscalated number message facts state recent intent_result s =
      after_clarification-AskedOrEscalated number message facts state recent intent_result _ s _
        (record { same_wizards = refl; same_outside = refl; same_audit = refl })

  pub decide_turn-Decided :
      (number : ℕ) (message : String) (facts : FactsSchema) (state : ConversationStateSchema)
      (recent : List TurnText) (intent_result : IntentResult) (s : TurnState setup)
      → contains intent_taxonomy intent_result.intent ≡ true
      → Ends (Decided message facts state recent s intent_result) (
          decide_turn setup registry flags tenant session number message facts state recent
            intent_result s)
  unfolding decide_turn
  decide_turn-Decided number message facts state recent intent_result s known =
      let Goal = Decided message facts state recent s intent_result in
      elim (Bool-cases (ltb intent_result.confidence setup.threshold)) [
        | inl t ↦
            rw (t, decide_turn)
              (Ends-map (AskedOrEscalated message facts state recent s) Goal (λ r s' h. inl (t, h))
                _ (clarify_turn-AskedOrEscalated number message facts state recent intent_result s))
        | inr f ↦
            rw (f, decide_turn)
              (Ends-map (Planned message facts state recent s intent_result) Goal
                (λ r s' h. inr (f, h)) _
                (plan_turn-Planned number message facts state recent intent_result s known))
      ]
