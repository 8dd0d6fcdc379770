-- ===== src/Session/Clarifying.antt =====
-- What a round of clarification and a reset leave in the conversation state
-- (`update_clarification_state` and `reset_conversation_state` of app/session/service.py).
use makkays_chatbot.Prelude.{
  ℕ, suc, String, List, [], ◌≡◌, refl, Bool, true, false, Option, none, some, eq_refl, inl, inr,
  Bool-cases,
}
use makkays_chatbot.Shared.{Uuid}
use makkays_chatbot.Session.Schemas.{ConversationStateSchema, empty_state}
use makkays_chatbot.Session.Caching.{
  ok, validation_error, put_row, redis_get, redis_set, after_redis_get, cache_row, read_through,
  after_upsert,
}
use makkays_chatbot.Session.Updates.{
  sets_field, breaks_not_null, merge_state, or_else, upsert_state, increment_clarification_round,
}
use makkays_chatbot.Session.Service.{
  StateStore, validate_state, step_fits, state_key, get_conversation_state,
  update_conversation_state, clarification_patch, after_reread, after_round, after_patch,
  update_clarification_state, reset_conversation_state,
}

-- The state with the question asked, before the round is counted.
abbrev asked_last : Option String → Option String → Option String
asked_last none old = old
asked_last (some q) old = some q

abbrev pub asked :
    Option (List String) → Option String → ConversationStateSchema → ConversationStateSchema
asked candidates last_question before = record before {
  awaiting_clarification = true;
  clarification_candidates = or_else before.clarification_candidates candidates;
  last_question = asked_last last_question before.last_question;
}

merge-clarification_patch :
    (candidates : Option (List String)) (last_question : Option String)
    (before : ConversationStateSchema)
    → merge_state (clarification_patch candidates last_question) before
      ≡ asked candidates last_question before
unfolding merge_state clarification_patch
merge-clarification_patch none none before = refl
merge-clarification_patch none (some q) before = refl
merge-clarification_patch (some c) none before = refl
merge-clarification_patch (some c) (some q) before = refl

breaks-clarification_patch :
    (candidates : Option (List String)) (last_question : Option String)
    → breaks_not_null (clarification_patch candidates last_question) ≡ false
unfolding breaks_not_null clarification_patch
breaks-clarification_patch none q = refl
breaks-clarification_patch (some c) q = refl

validate_state_fits :
    (state : ConversationStateSchema)
    → validate_state state ≡ ok state
    → step_fits state.current_plan_step state.current_plan ≡ true
unfolding validate_state
validate_state_fits state e =
    elim (Bool-cases (step_fits state.current_plan_step state.current_plan)) [
      | inl t ↦ t
      | inr f ↦ let q : validation_error ≡ ok state = rw f at e in cc q
    ]

module _ (fails : ℕ → Bool) (quiet : (n : ℕ) → fails n ≡ false) (tenant : Uuid)
    (session : String) where
  abbrev key : String
  key = state_key tenant session

  abbrev row_of : StateStore → ConversationStateSchema
  row_of s = or_else (empty_state tenant session) (s.rows tenant session)

  -- If no call fails and the step of the stored state, or of the empty one where none is stored, fits
  -- its plan, then a round of clarification returns that state with the question asked and one more
  -- round, the row is what is returned, and so is the copy in Redis.
  pub update_clarification_state_lem :
      (candidates : Option (List String)) (last_question : Option String) (s : StateStore)
      → validate_state (row_of s) ≡ ok (row_of s)
      → let after = record (asked candidates last_question (row_of s)) {
        clarification_rounds = suc (row_of s).clarification_rounds;
      } in
        let (answer, s') =
          update_clarification_state fails tenant session candidates last_question s in
        (answer ≡ ok after)
        × (s'.rows tenant session ≡ some after)
        × (s'.cache (state_key tenant session) ≡ some after)
  unfolding update_clarification_state update_conversation_state after_upsert upsert_state cache_row
      after_patch increment_clarification_round after_round after_reread redis_set put_row
      get_conversation_state read_through redis_get after_redis_get validate_state sets_field
      clarification_patch
  update_clarification_state_lem candidates last_question s valid =
      let fits = validate_state_fits (row_of s) valid in
      rw
        (
          quiet s.calls,
          breaks-clarification_patch candidates last_question,
          merge-clarification_patch candidates last_question (row_of s),
          fits,
          quiet (suc s.calls),
          quiet (suc (suc s.calls)),
          eq_refl tenant,
          eq_refl session,
          quiet (suc (suc (suc s.calls))),
          eq_refl (state_key tenant session),
          fits,
          quiet (suc (suc (suc (suc s.calls)))),
          eq_refl (state_key tenant session),
          eq_refl tenant,
          eq_refl session,
        )
        (refl, refl, refl)

  -- If no call fails, a reset returns the stored state, or the empty one where none is stored, with
  -- no clarification awaited, no candidates and no plan; all else is kept, the number of rounds
  -- too. The row and the copy in Redis are what is returned.
  pub reset_conversation_state_lem :
      (s : StateStore)
      → let after = record (row_of s) {
        awaiting_clarification = false;
        clarification_candidates = [];
        current_plan = none;
        current_plan_step = none;
      } in
        let (answer, s') = reset_conversation_state fails tenant session s in
        (answer ≡ ok after)
        × (s'.rows tenant session ≡ some after)
        × (s'.cache (state_key tenant session) ≡ some after)
  unfolding reset_conversation_state update_conversation_state after_upsert upsert_state cache_row
      redis_set put_row validate_state sets_field breaks_not_null merge_state
  reset_conversation_state_lem s =
      rw
        (
          quiet s.calls,
          quiet (suc s.calls),
          eq_refl tenant,
          eq_refl session,
          eq_refl (state_key tenant session),
        )
        (refl, refl, refl)
