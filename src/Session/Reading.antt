-- ===== src/Session/Reading.antt =====
-- Reads and writes of facts and state through app/session/service.py.
use makkays_chatbot.Prelude.{
  ℕ, suc, String, ◌≡◌, inl, inr, refl, Bool, true, false, some, Bool-cases, eq_refl,
}
use makkays_chatbot.Shared.{Uuid}
use makkays_chatbot.Session.Schemas.{FactsSchema, ConversationStateSchema, empty_facts, empty_state}
use makkays_chatbot.Session.Caching.{
  ok, validation_error, tick, put_row, redis_get, redis_set, after_redis_get, cache_row,
  read_through, after_upsert,
}
use makkays_chatbot.Session.Updates.{FactsUpdate, has_values, merge_facts, or_else, upsert_facts}
use makkays_chatbot.Session.Service.{
  FactsStore, StateStore, validate_facts, validate_state, step_fits, facts_key, state_key,
  get_facts, update_facts, get_conversation_state,
}
use makkays_chatbot.Session.Coherence.{IsCoherent, ReadsRow, read_through-ReadsRow}

validate_facts_same : (a b : FactsSchema) → validate_facts a ≡ ok b → a ≡ b
validate_facts_same a b e = cc

validate_state_same : (a b : ConversationStateSchema) → validate_state a ≡ ok b → a ≡ b
unfolding validate_state
validate_state_same a b e = elim (Bool-cases (step_fits a.current_plan_step a.current_plan)) [
  | inl t ↦ let q : ok a ≡ ok b = rw t at e in cc q
  | inr f ↦ let q : validation_error ≡ ok b = rw f at e in cc q
]

module _ (fails : ℕ → Bool) (tenant : Uuid) (session : String) where
  -- Whatever fails, if Redis has no copy of the facts or the row's, then a read leaves the rows as
  -- they are and Redis in that condition, and it returns the row, or empty facts if there is none or
  -- if the read of the row failed.
  pub get_facts-ReadsRow :
      (s : FactsStore)
      → IsCoherent (facts_key tenant session) tenant session s
      → ReadsRow
          (facts_key tenant session)
          tenant
          session
          fails
          validate_facts
          (empty_facts tenant session)
          s
          (get_facts fails tenant session s).0
          (get_facts fails tenant session s).1
  unfolding get_facts
  get_facts-ReadsRow s h =
      read_through-ReadsRow (facts_key tenant session) tenant session fails validate_facts
        (empty_facts tenant session) validate_facts_same s h

  -- Whatever fails, if Redis has no copy of the conversation state or the row's, then a read leaves
  -- the rows as they are and Redis in that condition, and it returns the row if its step fits its
  -- plan and a validation error if not, or an empty state if there is no row or if its read failed.
  pub get_conversation_state-ReadsRow :
      (s : StateStore)
      → IsCoherent (state_key tenant session) tenant session s
      → ReadsRow
          (state_key tenant session)
          tenant
          session
          fails
          validate_state
          (empty_state tenant session)
          s
          (get_conversation_state fails tenant session s).0
          (get_conversation_state fails tenant session s).1
  unfolding get_conversation_state
  get_conversation_state-ReadsRow s h =
      read_through-ReadsRow (state_key tenant session) tenant session fails validate_state
        (empty_state tenant session) validate_state_same s h

  -- The row that an update of facts writes.
  abbrev merged_facts : FactsUpdate → FactsStore → FactsSchema
  merged_facts p s = merge_facts p (or_else (empty_facts tenant session) (s.rows tenant session))

  update_facts_lem :
      (p : FactsUpdate) (s : FactsStore)
      → has_values p ≡ true
      → fails s.calls ≡ false
      → update_facts fails tenant session p s ≡ (
        ok (merged_facts p s),
        redis_set fails
            (facts_key tenant session)
            (merged_facts p s)
            (put_row tenant session (merged_facts p s) (tick s)),
      )
  unfolding update_facts after_upsert upsert_facts cache_row
  update_facts_lem p s given up = rw (given, up)

  -- When the insert and the two calls of Redis that follow do not fail, an update of facts with a
  -- value returns the merged row, and so does the read after it.
  pub get_facts-update_facts :
      (p : FactsUpdate) (s : FactsStore)
      → has_values p ≡ true
      → fails s.calls ≡ false
      → fails (suc s.calls) ≡ false
      → fails (suc (suc s.calls)) ≡ false
      → let row = merge_facts p (or_else (empty_facts tenant session) (s.rows tenant session)) in
        ((update_facts fails tenant session p s).0 ≡ ok row)
        × ((get_facts fails tenant session (update_facts fails tenant session p s).1).0 ≡ ok row)
  unfolding get_facts read_through redis_get after_redis_get redis_set put_row
  get_facts-update_facts p s given up written read =
      rw (update_facts_lem p s given up, written, read, eq_refl (facts_key tenant session))
        (refl, refl)

  -- When Redis has a copy of the facts and only its next write fails, an update of facts with a value
  -- stores and returns the merged row, but the read after it returns the old copy.
  pub get_facts_stale :
      (p : FactsUpdate) (s : FactsStore) (old : FactsSchema)
      → has_values p ≡ true
      → s.cache (facts_key tenant session) ≡ some old
      → fails s.calls ≡ false
      → fails (suc s.calls) ≡ true
      → fails (suc (suc s.calls)) ≡ false
      → let row = merge_facts p (or_else (empty_facts tenant session) (s.rows tenant session)) in
        let (answer, s') = update_facts fails tenant session p s in
        (answer ≡ ok row)
        × (s'.rows tenant session ≡ some row)
        × ((get_facts fails tenant session s').0 ≡ ok old)
  unfolding get_facts read_through redis_get after_redis_get redis_set put_row
  get_facts_stale p s old given copy up unwritten read =
      rw (update_facts_lem p s given up, unwritten, read, copy, eq_refl tenant, eq_refl session)
        (refl, refl, refl)
