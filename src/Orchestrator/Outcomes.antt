-- ===== src/Orchestrator/Outcomes.antt =====
-- How the steps of `Orchestrator.on_turn` (app/orchestrator/orchestrator.py) end.
use makkays_chatbot.Prelude.{
  ℕ, ◌==◌, ◌≡◌, ◌≢◌, refl, String, Option, none, some, Bool-cases, inl, inr,
}
use makkays_chatbot.Language.{detect}
use makkays_chatbot.Flags.Schemas.{FeatureFlags}
use makkays_chatbot.Shared.{Uuid}
use makkays_chatbot.Session.Schemas.{FactsSchema, ConversationStateSchema}
use makkays_chatbot.Session.Caching.{Outcome, ok, checkpoint_error, validation_error}
use makkays_chatbot.Session.Updates.{FactsUpdate, ConversationStateUpdate}
use makkays_chatbot.Session.Service.{
  FactsStore, StateStore, get_facts, update_facts, get_conversation_state,
  update_conversation_state,
}
use makkays_chatbot.Turns.{TurnLog, get_next_turn_number}
use makkays_chatbot.Tools.Registry.{ToolRegistry}
use makkays_chatbot.Tools.Executor.{Tool}
use makkays_chatbot.Orchestrator.Turn.{
  Setup, env, unknown_intent, Ended, done, failed, Step, after, TurnState, database, Metric,
  detected, language_patch,
}
use makkays_chatbot.Orchestrator.Actions.{
  with_facts, with_state, read_facts, write_facts, read_state, write_state, next_number,
  with_number, count, apply_language_detection, takes_hint, or_language, after_hint,
  detect_language,
}

module _ {A S : Type 0} where
  -- A step that returns ends as `Q` says, and one that fails does not lack a plan.
  abbrev pub Ends : (A → S → Type 0) → Ended A × S → Type 0
  Ends Q (done a, s) = Q a s
  Ends Q (failed e, s) = e ≢ unknown_intent

module _ {A S : Type 0} (Q R : A → S → Type 0) where
  pub Ends-map :
      ((a : A) (s : S) → Q a s → R a s) → (ended : Ended A × S) → Ends Q ended → Ends R ended
  Ends-map k (done a, s) h = k a s h
  Ends-map k (failed e, s) h = h

module _ {A B S : Type 0} (Q : A → S → Type 0) (R : B → S → Type 0) where
  pub after-Ends :
      (f : A → Step S B) (ended : Ended A × S)
      → Ends Q ended
      → ((a : A) (s : S) → Q a s → Ends R (f a s))
      → Ends R (after f ended)
  after-Ends f (done a, s) h k = k a s h
  after-Ends f (failed e, s) h k = h

  -- The same, knowing how the first step has ended.
  pub after-known :
      (f : A → Step S B) (ended : Ended A × S)
      → Ends Q ended
      → ((a : A) (s : S) → ended ≡ (done a, s) → Q a s → Ends R (f a s))
      → Ends R (after f ended)
  after-known f (done a, s) h k = k a s refl h
  after-known f (failed e, s) h k = h

module _ {Outside : Type 0} (setup : Setup Outside)
    (registry : ToolRegistry (Tool (env setup)) String) (flags : FeatureFlags) (tenant : Uuid)
    (session : String) (s₀ : TurnState setup) where
  -- The wizards, the audit log and what else the tools use are as they were.
  pub record IsUntouched (s : TurnState setup) : Type 0 where
    pub same_wizards : (database setup s).wizards ≡ (database setup s₀).wizards
    pub same_outside : (database setup s).outside ≡ (database setup s₀).outside
    pub same_audit : s.tools.audit ≡ s₀.tools.audit

  abbrev pub Untouched : {A : Type 0} → A → TurnState setup → Type 0
  Untouched a s = IsUntouched s

  with_facts-Untouched :
      (read : Outcome FactsSchema × FactsStore) (s : TurnState setup)
      → IsUntouched s
      → Ends Untouched (with_facts setup registry flags tenant session read s)
  with_facts-Untouched (ok facts, store) s h = record {
    same_wizards = h.same_wizards;
    same_outside = h.same_outside;
    same_audit = h.same_audit;
  }
  with_facts-Untouched (checkpoint_error, store) s h = λ e. cc
  with_facts-Untouched (validation_error, store) s h = λ e. cc

  with_state-Untouched :
      (read : Outcome ConversationStateSchema × StateStore) (s : TurnState setup)
      → IsUntouched s
      → Ends Untouched (with_state setup registry flags tenant session read s)
  with_state-Untouched (ok state, store) s h = record {
    same_wizards = h.same_wizards;
    same_outside = h.same_outside;
    same_audit = h.same_audit;
  }
  with_state-Untouched (checkpoint_error, store) s h = λ e. cc
  with_state-Untouched (validation_error, store) s h = λ e. cc

  pub read_facts-Untouched :
      (s : TurnState setup)
      → IsUntouched s
      → Ends Untouched (read_facts setup registry flags tenant session s)
  unfolding read_facts
  read_facts-Untouched s h =
      with_facts-Untouched (get_facts setup.facts_fails tenant session (database setup s).facts) s h

  pub write_facts-Untouched :
      (patch : FactsUpdate) (s : TurnState setup)
      → IsUntouched s
      → Ends Untouched (write_facts setup registry flags tenant session patch s)
  unfolding write_facts
  write_facts-Untouched patch s h =
      with_facts-Untouched
        (update_facts setup.facts_fails tenant session patch (database setup s).facts) s h

  pub read_state-Untouched :
      (s : TurnState setup)
      → IsUntouched s
      → Ends Untouched (read_state setup registry flags tenant session s)
  unfolding read_state
  read_state-Untouched s h =
      with_state-Untouched
        (get_conversation_state setup.state_fails tenant session (database setup s).state) s h

  pub write_state-Untouched :
      (patch : ConversationStateUpdate) (s : TurnState setup)
      → IsUntouched s
      → Ends Untouched (write_state setup registry flags tenant session patch s)
  unfolding write_state
  write_state-Untouched patch s h =
      with_state-Untouched
        (update_conversation_state setup.state_fails tenant session patch (database setup s).state)
        s h

  pub count-Untouched :
      (metric : Metric) (s : TurnState setup)
      → IsUntouched s
      → Ends Untouched (count setup registry flags tenant session metric s)
  count-Untouched metric s h = record {
    same_wizards = h.same_wizards;
    same_outside = h.same_outside;
    same_audit = h.same_audit;
  }

  with_number-Untouched :
      (read : Option ℕ × TurnLog) (s : TurnState setup)
      → IsUntouched s
      → Ends Untouched (with_number setup registry flags tenant session read s)
  with_number-Untouched (none, log) s h = λ e. cc
  with_number-Untouched (some n, log) s h = record {
    same_wizards = h.same_wizards;
    same_outside = h.same_outside;
    same_audit = h.same_audit;
  }

  pub next_number-Untouched :
      (s : TurnState setup)
      → IsUntouched s
      → Ends Untouched (next_number setup registry flags tenant session s)
  unfolding next_number
  next_number-Untouched s h =
      with_number-Untouched
        (get_next_turn_number setup.log_fails setup.log_others (database setup s).log) s h

  detect_language-Untouched :
      (message current : String) (state : ConversationStateSchema) (s : TurnState setup)
      → IsUntouched s
      → Ends Untouched (detect_language setup registry flags tenant session message current state s)
  detect_language-Untouched message current state s h =
      let language = detect setup.langdetect message current in
      elim (Bool-cases (language == current)) [
        | inl t ↦ rw t (count-Untouched (detected language) s h)
        | inr f ↦ rw f (
            write_state-Untouched (language_patch language)
              (count setup registry flags tenant session (detected language) s).1
              (count-Untouched (detected language) s h))
      ]

  after_hint-Untouched :
      (message current : String) (state : ConversationStateSchema) (s : TurnState setup)
      → IsUntouched s
      → Ends Untouched (after_hint setup registry flags tenant session message current state s)
  after_hint-Untouched message current state s h = elim (Bool-cases state.language_override) [
    | inl t ↦ simp (t) h
    | inr f ↦ simp (f) (detect_language-Untouched message current state s h)
  ]

  pub apply_language_detection-Untouched :
      (message : String) (hint : Option String) (state : ConversationStateSchema)
      (s : TurnState setup)
      → IsUntouched s
      → Ends Untouched
          (apply_language_detection setup registry flags tenant session message hint state s)
  unfolding apply_language_detection
  apply_language_detection-Untouched message hint state s h =
      let current = or_language state.language_code hint in
      elim (Bool-cases (takes_hint hint state)) [
        | inl t ↦ rw t (
            after-Ends Untouched Untouched
              (λ state'. after_hint setup registry flags tenant session message current state')
              (write_state setup registry flags tenant session (language_patch current) s)
              (write_state-Untouched (language_patch current) s h)
              (λ state' s' k. after_hint-Untouched message current state' s' k))
        | inr f ↦ rw f (after_hint-Untouched message state.language_code state s h)
      ]
