-- ===== src/Orchestrator/Traces.antt =====
-- What a turn of app/orchestrator/orchestrator.py reads and writes before it is decided.
use makkays_chatbot.Prelude.{
  ℕ, ◌≡◌, refl, String, List, Option, none, some, Bool-cases, Option-cases, inl, inr, if◌then◌else◌,
  map,
}
use makkays_chatbot.Flags.Schemas.{FeatureFlags}
use makkays_chatbot.Shared.{Uuid}
use makkays_chatbot.Session.Schemas.{FactsSchema, ConversationStateSchema}
use makkays_chatbot.Session.Updates.{FactsUpdate, ConversationStateUpdate}
use makkays_chatbot.Turns.{get_recent_turns}
use makkays_chatbot.Tools.Registry.{ToolRegistry}
use makkays_chatbot.Tools.Schemas.{TurnText}
use makkays_chatbot.Tools.Executor.{Tool}
use makkays_chatbot.Router.Facts.{extract}
use makkays_chatbot.Orchestrator.Turn.{
  Setup, ◌>>=◌, env, invalid_facts, Ended, done, Step, after, or_fail, pure, TurnState, database,
  Metric, OrchestratorResult, turn_text,
}
use makkays_chatbot.Orchestrator.Actions.{
  read_facts, write_facts, read_state, write_state, next_number, count, apply_language_detection,
}
use makkays_chatbot.Orchestrator.Control.{route_turn, on_turn}
use makkays_chatbot.Orchestrator.Laws.{untouched}
use makkays_chatbot.Orchestrator.Outcomes.{
  Ends, after-known, IsUntouched, Untouched, read_facts-Untouched, write_facts-Untouched,
  read_state-Untouched, write_state-Untouched, count-Untouched, next_number-Untouched,
  apply_language_detection-Untouched,
}

module _ {Outside : Type 0} (setup : Setup Outside)
    (registry : ToolRegistry (Tool (env setup)) String) (flags : FeatureFlags) (tenant : Uuid)
    (session : String) where
  -- A step that leaves the tools' part as it is, and what follows it.
  after-Untouched :
      (R : OrchestratorResult → TurnState setup → Type 0) (s₀ : TurnState setup) {A : Type 0}
      (f : A → Step (TurnState setup) OrchestratorResult) (ended : Ended A × TurnState setup)
      → Ends (Untouched setup registry flags tenant session s₀) ended
      → ((a : A) (s : TurnState setup)
          → ended ≡ (done a, s)
          → IsUntouched setup registry flags tenant session s₀ s
          → Ends R (f a s))
      → Ends R (after f ended)
  after-Untouched R s₀ f ended h k =
      after-known (Untouched setup registry flags tenant session s₀) R f ended h k

  valid_facts-Untouched :
      (patch : Option FactsUpdate) (s₀ s : TurnState setup)
      → IsUntouched setup registry flags tenant session s₀ s
      → Ends (Untouched setup registry flags tenant session s₀) (or_fail invalid_facts patch s)
  valid_facts-Untouched none s₀ s h = λ e. cc
  valid_facts-Untouched (some patch) s₀ s h = h

  -- The language of the turn, where the flag is on.
  abbrev pub language_step :
      String
      → Option String
      → ConversationStateSchema
      → Step (TurnState setup) ConversationStateSchema
  language_step message hint state =
      if flags.enable_multi_language
      then apply_language_detection setup registry flags tenant session message hint state
      else pure state

  language-Untouched :
      (message : String) (hint : Option String) (state : ConversationStateSchema)
      (s₀ s : TurnState setup)
      → IsUntouched setup registry flags tenant session s₀ s
      → Ends (Untouched setup registry flags tenant session s₀) (language_step message hint state s)
  language-Untouched message hint state s₀ s h = elim (Bool-cases flags.enable_multi_language) [
    | inl t ↦ simp (t) (
        apply_language_detection-Untouched setup registry flags tenant session s₀ message hint state
          s h)
    | inr f ↦ simp (f) h
  ]

  -- What a turn reads before the classification: the facts on file, the state, the last eight turns,
  -- the language; and the facts with what the message says.
  pub record IsRead (message : String) (hint : Option String) (s₀ : TurnState setup)
      (facts : FactsSchema) (state : ConversationStateSchema) (recent : List TurnText)
      (s : TurnState setup) : Type 0 where
    pub old_facts : FactsSchema
    pub old_state : ConversationStateSchema
    pub patch : FactsUpdate
    pub facts_read : TurnState setup
    pub state_read : TurnState setup
    pub language_found : TurnState setup
    pub reads_facts :
        read_facts setup registry flags tenant session s₀ ≡ (done old_facts, facts_read)
    pub reads_state :
        read_state setup registry flags tenant session facts_read ≡ (done old_state, state_read)
    pub reads_turns :
        recent ≡ map turn_text (get_recent_turns 8 (database setup state_read).log.rows)
    pub finds_language :
        language_step message hint old_state state_read ≡ (done state, language_found)
    pub extracts :
        extract setup.is_email old_facts message
          (setup.matches message)
          (setup.facts_reply old_facts state recent message)
        ≡ some patch
    pub writes_facts :
        write_facts setup registry flags tenant session patch language_found ≡ (done facts, s)
    pub unchanged : IsUntouched setup registry flags tenant session s₀ s

  -- What is read before the classification leaves the tools' part of the state as it is.
  pub on_turn-Ends :
      (R : OrchestratorResult → TurnState setup → Type 0) (message : String) (hint : Option String)
      (s₀ : TurnState setup)
      → ((facts : FactsSchema) (state : ConversationStateSchema) (recent : List TurnText)
            (s : TurnState setup)
          → IsRead message hint s₀ facts state recent s
          → Ends R (route_turn setup registry flags tenant session message facts state recent s))
      → Ends R (on_turn setup registry flags tenant session message hint s₀)
  unfolding on_turn
  on_turn-Ends R message hint s₀ k =
      after-Untouched R s₀ _ (read_facts setup registry flags tenant session s₀)
        (read_facts-Untouched setup registry flags tenant session s₀ s₀
          (untouched setup registry flags tenant session s₀))
        (λ facts s₁ e₁ h₁.
          after-Untouched R s₀ _ (read_state setup registry flags tenant session s₁)
            (read_state-Untouched setup registry flags tenant session s₀ s₁ h₁)
            (λ state s₂ e₂ h₂.
              let recent = map turn_text (get_recent_turns 8 (database setup s₂).log.rows) in
              after-Untouched R s₀ _ _ (language-Untouched message hint state s₀ s₂ h₂)
                (λ state' s₃ e₃ h₃.
                  let found =
                    extract setup.is_email facts message (setup.matches message)
                      (setup.facts_reply facts state' recent message) in
                  elim (Option-cases found) [
                    | inl none_found ↦ rw none_found (λ e. cc)
                    | inr (patch, e₄) ↦ rw e₄ (
                        after-Untouched R s₀ _
                          (write_facts setup registry flags tenant session patch s₃)
                          (write_facts-Untouched setup registry flags tenant session s₀ patch s₃ h₃)
                          (λ facts' s₅ e₅ h₅. k facts' state' recent s₅ (record {
                            old_facts = facts;
                            old_state = state;
                            patch = patch;
                            facts_read = s₁;
                            state_read = s₂;
                            language_found = s₃;
                            reads_facts = e₁;
                            reads_state = e₂;
                            reads_turns = refl;
                            finds_language = e₃;
                            extracts = e₄;
                            writes_facts = e₅;
                            unchanged = h₅;
                          })))
                  ])))

  -- What is written after the classification: the intent, and the number of the turn is read.
  pub record IsNumbered (metric : Metric) (patch : ConversationStateUpdate) (s₀ : TurnState setup)
      (state : ConversationStateSchema) (number : ℕ) (s : TurnState setup) : Type 0 where
    pub state_written : TurnState setup
    pub writes_state :
        write_state setup registry flags tenant session patch
          (count setup registry flags tenant session metric s₀).1
        ≡ (done state, state_written)
    pub reads_number :
        next_number setup registry flags tenant session state_written ≡ (done number, s)
    pub unchanged : IsUntouched setup registry flags tenant session s₀ s

  -- After the classification, up to the decision.
  pub numbered-Ends :
      (R : OrchestratorResult → TurnState setup → Type 0) (s₀ : TurnState setup) (metric : Metric)
      (patch : ConversationStateUpdate)
      (rest : ConversationStateSchema → ℕ → Step (TurnState setup) OrchestratorResult)
      → ((state : ConversationStateSchema) (number : ℕ) (s : TurnState setup)
          → IsNumbered metric patch s₀ state number s
          → Ends R (rest state number s))
      → Ends R (
          after
            (λ _.
              write_state setup registry flags tenant session patch
              >>= (λ state. next_number setup registry flags tenant session >>= rest state))
            (count setup registry flags tenant session metric s₀))
  numbered-Ends R s₀ metric patch rest k =
      let s₁ = (count setup registry flags tenant session metric s₀).1 in
      after-Untouched R s₀ _ (write_state setup registry flags tenant session patch s₁)
        (write_state-Untouched setup registry flags tenant session s₀ patch s₁ (
          count-Untouched setup registry flags tenant session s₀ metric s₀
            (untouched setup registry flags tenant session s₀)))
        (λ state s₂ e₂ h₂.
          after-Untouched R s₀ _ (next_number setup registry flags tenant session s₂)
            (next_number-Untouched setup registry flags tenant session s₀ s₂ h₂)
            (λ number s₃ e₃ h₃. k state number s₃ (record {
              state_written = s₂;
              writes_state = e₂;
              reads_number = e₃;
              unchanged = h₃;
            })))
