-- ===== src/Session/Service.antt =====
-- app/session/service.py: the reads and writes of facts and conversation state.
--
-- The two stores are apart: facts have no expiry in Redis; the expiry of the state's copy
-- is left out.
-- The update is given as the checked model, not as a mapping.
use makkays_chatbot.Prelude.{
  ℕ, String, List, [], ◌∷◌, Bool, true, false, Option, none, some, length, leb, concat,
  if◌then◌else◌,
}
use makkays_chatbot.Shared.{Uuid}
use makkays_chatbot.Session.Schemas.{
  Plan, FactsSchema, ConversationStateSchema, empty_facts, empty_state,
}
use makkays_chatbot.Session.Caching.{
  Outcome, ok, checkpoint_error, validation_error, Store, redis_set, read_through, after_upsert,
}
use makkays_chatbot.Session.Updates.{
  FactsUpdate, has_values, ConversationStateUpdate, no_change, sets_field, upsert_facts,
  upsert_state, increment_clarification_round,
}

-- FactsSchema.model_validate: every row is a valid model.
abbrev pub validate_facts : FactsSchema → Outcome FactsSchema
validate_facts f = ok f

abbrev pub step_fits : Option ℕ → Option Plan → Bool
step_fits none _ = true
step_fits (some step) none = true
step_fits (some step) (some plan) = if leb (length plan.steps) step then false else true

-- validate_current_plan_step: the active step is one of the plan.
unfoldable pub validate_state : ConversationStateSchema → Outcome ConversationStateSchema
validate_state s = if step_fits s.current_plan_step s.current_plan then ok s else validation_error

unfoldable pub facts_key : Uuid → String → String
facts_key tenant session = concat ("session:facts:" ∷ tenant ∷ ":" ∷ session ∷ [])

unfoldable pub state_key : Uuid → String → String
state_key tenant session = concat ("conversation:state:" ∷ tenant ∷ ":" ∷ session ∷ [])

abbrev pub FactsStore : Type 0
FactsStore = Store FactsSchema

abbrev pub StateStore : Type 0
StateStore = Store ConversationStateSchema

abbrev given : {A : Type 0} → Option A → Option (Option A)
given none = none
given (some a) = some (some a)

-- The patch of update_clarification_state.
unfoldable pub clarification_patch : Option (List String) → Option String → ConversationStateUpdate
clarification_patch candidates last_question = record no_change {
  awaiting_clarification = some (some true);
  clarification_candidates = given candidates;
  last_question = given last_question;
}

-- The patch of reset_conversation_state.
abbrev pub reset_patch : ConversationStateUpdate
reset_patch = record no_change {
  awaiting_clarification = some (some false);
  clarification_candidates = some (some []);
  current_plan = some none;
  current_plan_step = some none;
}

module _ (fails : ℕ → Bool) (tenant : Uuid) (session : String) where
  unfoldable pub get_facts : FactsStore → Outcome FactsSchema × FactsStore
  get_facts s =
      read_through fails validate_facts (facts_key tenant session) (empty_facts tenant session)
        tenant session s

  unfoldable pub update_facts : FactsUpdate → FactsStore → Outcome FactsSchema × FactsStore
  unfolding get_facts
  update_facts p s =
      if has_values p
      then after_upsert fails validate_facts (facts_key tenant session)
          (upsert_facts fails tenant session p s)
      else get_facts s

  unfoldable pub get_conversation_state : StateStore → Outcome ConversationStateSchema × StateStore
  get_conversation_state s =
      read_through fails validate_state (state_key tenant session) (empty_state tenant session)
        tenant session s

  unfoldable pub update_conversation_state :
      ConversationStateUpdate → StateStore → Outcome ConversationStateSchema × StateStore
  unfolding get_conversation_state
  update_conversation_state p s =
      if sets_field p
      then after_upsert fails validate_state (state_key tenant session)
          (upsert_state fails tenant session p s)
      else get_conversation_state s

  -- state.model_copy(update={"clarification_rounds": rounds}), which is written to the cache
  unfoldable pub after_reread :
      ℕ
      → Outcome ConversationStateSchema × StateStore
      → Outcome ConversationStateSchema × StateStore
  after_reread rounds (ok state, s) =
      let refreshed = record state { clarification_rounds = rounds } in
      (ok refreshed, redis_set fails (state_key tenant session) refreshed s)
  after_reread rounds (checkpoint_error, s) = (checkpoint_error, s)
  after_reread rounds (validation_error, s) = (validation_error, s)

  unfoldable pub after_round : Option ℕ × StateStore → Outcome ConversationStateSchema × StateStore
  unfolding get_conversation_state
  after_round (none, s) = (checkpoint_error, s)
  after_round (some rounds, s) = after_reread rounds (get_conversation_state s)

  unfoldable pub after_patch :
      Outcome ConversationStateSchema × StateStore → Outcome ConversationStateSchema × StateStore
  unfolding after_round
  after_patch (ok _, s) = after_round (increment_clarification_round fails tenant session s)
  after_patch (checkpoint_error, s) = (checkpoint_error, s)
  after_patch (validation_error, s) = (validation_error, s)

  unfoldable pub update_clarification_state :
      Option (List String)
      → Option String
      → StateStore
      → Outcome ConversationStateSchema × StateStore
  unfolding update_conversation_state
  update_clarification_state candidates last_question s =
      after_patch (update_conversation_state (clarification_patch candidates last_question) s)

  unfoldable pub reset_conversation_state :
      StateStore → Outcome ConversationStateSchema × StateStore
  unfolding update_conversation_state
  reset_conversation_state s = update_conversation_state reset_patch s
