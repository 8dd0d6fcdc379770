-- ===== src/Orchestrator/Actions.antt =====
-- `Orchestrator.on_turn` of app/orchestrator/orchestrator.py: what a turn reads and writes.
use makkays_chatbot.Prelude.{
  ℕ, String, List, [], ◌∷◌, ◌++◌, Bool, ◌&&◌, not, Option, none, some, is_some, map, ◌==◌,
  if◌then◌else◌,
}
use makkays_chatbot.Shared.{Uuid}
use makkays_chatbot.Flags.Schemas.{FeatureFlags}
use makkays_chatbot.Session.Schemas.{FactsSchema, ConversationStateSchema}
use makkays_chatbot.Session.Caching.{Outcome, ok, checkpoint_error, validation_error}
use makkays_chatbot.Session.Updates.{FactsUpdate, ConversationStateUpdate}
use makkays_chatbot.Session.Service.{
  FactsStore, StateStore, get_facts, update_facts, get_conversation_state,
  update_conversation_state,
}
use makkays_chatbot.Turns.{
  TurnLog, IntentPayload, ToolCall, get_next_turn_number, record_turn, get_recent_turns,
}
use makkays_chatbot.Language.{detect}
use makkays_chatbot.Tools.Schemas.{Attempt, returned, raised, TurnText}
use makkays_chatbot.Tools.Registry.{ToolRegistry}
use makkays_chatbot.Tools.Executor.{Tool}
use makkays_chatbot.Orchestrator.Turn.{
  Setup, env, session_error, no_turn_number, not_committed, tool_error, Ended, done, failed, Metric,
  detected, language_patch, turn_text, Step, ◌>>=◌, ◌>>◌, pure, TurnState, database, with_database,
}

abbrev pub of_outcome : {A : Type 0} → Outcome A → Ended A
of_outcome (ok a) = done a
of_outcome checkpoint_error = failed session_error
of_outcome validation_error = failed session_error

abbrev pub of_attempt : {A : Type 0} → Attempt A → Ended A
of_attempt (returned a) = done a
of_attempt (raised e) = failed (tool_error e)

abbrev pub of_number : Option ℕ → Ended ℕ
of_number none = failed no_turn_number
of_number (some n) = done n

-- _apply_language_detection: the language after the hint.
unfoldable pub takes_hint : Option String → ConversationStateSchema → Bool
takes_hint hint state = is_some hint && (state.language_code == "en") && not state.language_override

abbrev pub or_language : String → Option String → String
or_language current none = current
or_language current (some hint) = hint

module _ {Outside : Type 0} (setup : Setup Outside)
    (registry : ToolRegistry (Tool (env setup)) String) (flags : FeatureFlags) (tenant : Uuid)
    (session : String) where
  abbrev pub Act : Type 0 → Type 0
  Act A = Step (TurnState setup) A

  abbrev pub with_facts :
      Outcome FactsSchema × FactsStore → TurnState setup → Ended FactsSchema × TurnState setup
  with_facts (outcome, store) s =
      (of_outcome outcome, with_database setup (record (database setup s) { facts = store }) s)

  abbrev pub with_state :
      Outcome ConversationStateSchema × StateStore
      → TurnState setup
      → Ended ConversationStateSchema × TurnState setup
  with_state (outcome, store) s =
      (of_outcome outcome, with_database setup (record (database setup s) { state = store }) s)

  abbrev pub count : Metric → Act (Unit {0})
  count metric s = (done tt, record s { metrics = s.metrics ++ metric ∷ [] })

  unfoldable pub read_facts : Act FactsSchema
  read_facts s = with_facts (get_facts setup.facts_fails tenant session (database setup s).facts) s

  unfoldable pub write_facts : FactsUpdate → Act FactsSchema
  write_facts patch s =
      with_facts (update_facts setup.facts_fails tenant session patch (database setup s).facts) s

  unfoldable pub read_state : Act ConversationStateSchema
  read_state s =
      with_state (get_conversation_state setup.state_fails tenant session (database setup s).state)
        s

  unfoldable pub write_state : ConversationStateUpdate → Act ConversationStateSchema
  write_state patch s =
      with_state
        (update_conversation_state setup.state_fails tenant session patch (database setup s).state)
        s

  abbrev pub recent_turns : Act (List TurnText)
  recent_turns s = (done (map turn_text (get_recent_turns 8 (database setup s).log.rows)), s)

  abbrev pub with_number : Option ℕ × TurnLog → TurnState setup → Ended ℕ × TurnState setup
  with_number (number, log) s =
      (of_number number, with_database setup (record (database setup s) { log = log }) s)

  unfoldable pub next_number : Act ℕ
  next_number s =
      with_number (get_next_turn_number setup.log_fails setup.log_others (database setup s).log) s

  -- turns.record_turn: whatever becomes of it, the turn goes on.
  unfoldable pub keep_turn :
      ℕ → String → String → IntentPayload → Option (List ToolCall) → Act (Unit {0})
  keep_turn n message answer payload calls s =
      let (logged, log) =
        record_turn setup.log_fails setup.log_others (some n) message (some answer) (some payload)
          calls (database setup s).log in
      (done tt, with_database setup (record (database setup s) { log = log }) s)

  -- db_session.commit()
  unfoldable pub commit : Act (Unit {0})
  commit s = (if setup.commits (database setup s) then done tt else failed not_committed, s)

  abbrev pub detect_language :
      String → String → ConversationStateSchema → Act ConversationStateSchema
  detect_language message current state =
      let language = detect setup.langdetect message current in
      do
        count (detected language)
        if language == current then pure state else write_state (language_patch language)

  abbrev pub after_hint : String → String → ConversationStateSchema → Act ConversationStateSchema
  after_hint message current state =
      if state.language_override then pure state else detect_language message current state

  -- _apply_language_detection
  unfoldable pub apply_language_detection :
      String → Option String → ConversationStateSchema → Act ConversationStateSchema
  unfolding takes_hint
  apply_language_detection message hint state =
      if takes_hint hint state
      then (do
        state' ← write_state (language_patch (or_language state.language_code hint))
        after_hint message (or_language state.language_code hint) state')
      else after_hint message state.language_code state
