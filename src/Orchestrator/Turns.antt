-- ===== src/Orchestrator/Turns.antt =====
-- What a whole turn of app/orchestrator/orchestrator.py has done when it ends.
use makkays_chatbot.Prelude.{
  ℕ, ◌≡◌, ◌≤◌, arith, refl, ◌∙◌, String, List, true, false, Option, some, ltb, contains,
}
use makkays_chatbot.Flags.Schemas.{FeatureFlags}
use makkays_chatbot.Shared.{Uuid, certain, IntentResult, intent_taxonomy}
use makkays_chatbot.Session.Schemas.{FactsSchema, ConversationStateSchema}
use makkays_chatbot.Tools.Registry.{ToolRegistry}
use makkays_chatbot.Tools.Schemas.{TurnText}
use makkays_chatbot.Tools.Executor.{Tool}
use makkays_chatbot.Orchestrator.Turn.{
  Setup, env, done, TurnState, classified, OrchestratorResult, certain_result, wizard_intent,
  intent_patch,
}
use makkays_chatbot.Orchestrator.Control.{
  has_wizard, looks_like_wizard_escape, find_intent, plan_turn, decide_turn, route_turn, on_turn,
}
use makkays_chatbot.Orchestrator.Laws.{Planned, plan_turn-Planned, Decided}
use makkays_chatbot.Orchestrator.Leaving.{IsLeft, has_wizard-Untouched}
use makkays_chatbot.Orchestrator.Traces.{IsRead, on_turn-Ends, IsNumbered, numbered-Ends}
use makkays_chatbot.Orchestrator.Outcomes.{Ends, Ends-map}

module _ {Outside : Type 0} (setup : Setup Outside)
    (registry : ToolRegistry (Tool (env setup)) String) (flags : FeatureFlags) (tenant : Uuid)
    (session : String) where
  -- How a turn that returns has come to its result: what was read, how the message was classified,
  -- what was written then, and what was decided on these.
  pub record Answered (message : String) (hint : Option String) (s₀ : TurnState setup)
      (r : OrchestratorResult) (s : TurnState setup) : Type 0 where
    pub facts : FactsSchema
    pub state : ConversationStateSchema
    pub recent : List TurnText
    pub read_to : TurnState setup
    pub read : IsRead setup registry flags tenant session message hint s₀ facts state recent read_to
    pub intent_result : IntentResult
    pub found_to : TurnState setup
    pub found :
        find_intent setup registry flags tenant session facts state recent message read_to
        ≡ (done intent_result, found_to)
    pub known : contains intent_taxonomy intent_result.intent ≡ true
    pub new_state : ConversationStateSchema
    pub number : ℕ
    pub start : TurnState setup
    pub numbered :
        IsNumbered setup registry flags tenant session
          (classified intent_result.source intent_result.intent intent_result.confidence)
          (intent_patch intent_result facts)
          found_to
          new_state
          number
          start
    pub left : IsLeft setup registry flags tenant session message s₀ start
    pub decided :
        Decided setup registry flags tenant session message facts new_state recent start
          intent_result r s

  -- The turn of a wizard: its intent is the wizard's, and no question is asked.
  abbrev pub IsWizardTurn : OrchestratorResult → TurnState setup → Type 0
  IsWizardTurn r s = (r.intent ≡ some wizard_intent) × (r.awaiting_clarification ≡ false)

  plan_turn-IsWizardTurn :
      (number : ℕ) (message : String) (facts : FactsSchema) (state : ConversationStateSchema)
      (recent : List TurnText) (s : TurnState setup)
      → Ends IsWizardTurn (
          plan_turn setup registry flags tenant session number message facts state recent
            (certain_result wizard_intent)
            s)
  plan_turn-IsWizardTurn number message facts state recent s =
      let intent_result = certain_result wizard_intent in
      Ends-map
        (Planned setup registry flags tenant session message facts state recent s intent_result)
        IsWizardTurn (λ r s' h. (h.same_intent, h.not_awaiting))
        (plan_turn setup registry flags tenant session number message facts state recent
          intent_result s)
        (plan_turn-Planned setup registry flags tenant session number message facts state recent
          intent_result s refl)

  -- A certain intent is never below the threshold.
  decide_turn-IsWizardTurn :
      (number : ℕ) (message : String) (facts : FactsSchema) (state : ConversationStateSchema)
      (recent : List TurnText) (s : TurnState setup)
      → setup.threshold ≤ certain
      → Ends IsWizardTurn (
          decide_turn setup registry flags tenant session number message facts state recent
            (certain_result wizard_intent)
            s)
  unfolding decide_turn
  decide_turn-IsWizardTurn number message facts state recent s low =
      let sure : ltb certain setup.threshold ≡ false = ground arith in
      rw sure (plan_turn-IsWizardTurn number message facts state recent s)

  find_intent-wizard :
      (message : String) (facts : FactsSchema) (state : ConversationStateSchema)
      (recent : List TurnText) (s : TurnState setup)
      → has_wizard setup registry flags tenant session s ≡ true
      → looks_like_wizard_escape setup registry flags tenant session message ≡ false
      → find_intent setup registry flags tenant session facts state recent message s
        ≡ (done (certain_result wizard_intent), s)
  unfolding find_intent
  find_intent-wizard message facts state recent s owned stays = rw (owned, stays) refl

  route_turn-IsWizardTurn :
      (message : String) (facts : FactsSchema) (state : ConversationStateSchema)
      (recent : List TurnText) (s : TurnState setup)
      → has_wizard setup registry flags tenant session s ≡ true
      → looks_like_wizard_escape setup registry flags tenant session message ≡ false
      → setup.threshold ≤ certain
      → Ends IsWizardTurn
          (route_turn setup registry flags tenant session message facts state recent s)
  unfolding route_turn
  route_turn-IsWizardTurn message facts state recent s owned stays low =
      rw (find_intent-wizard message facts state recent s owned stays) (
        numbered-Ends setup registry flags tenant session IsWizardTurn s _
          (intent_patch (certain_result wizard_intent) facts) _
          (λ state' number s' h.
            decide_turn-IsWizardTurn number message facts state' recent s' low))

  -- While a wizard is in progress, a message that does not ask to leave it belongs to it: a turn that
  -- returns has the wizard's intent and asks no question, if the threshold is at most one.
  pub on_turn-IsWizardTurn :
      (message : String) (hint : Option String) (s₀ : TurnState setup)
      → has_wizard setup registry flags tenant session s₀ ≡ true
      → looks_like_wizard_escape setup registry flags tenant session message ≡ false
      → setup.threshold ≤ certain
      → Ends IsWizardTurn (on_turn setup registry flags tenant session message hint s₀)
  on_turn-IsWizardTurn message hint s₀ owned stays low =
      on_turn-Ends setup registry flags tenant session IsWizardTurn message hint s₀
        (λ facts state recent s h.
          route_turn-IsWizardTurn message facts state recent s
            (has_wizard-Untouched setup registry flags tenant session s₀ s h.unchanged ∙ owned)
            stays low)
