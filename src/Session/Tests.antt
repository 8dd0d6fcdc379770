-- ===== src/Session/Tests.antt =====
-- Runs of the session service, and its theorems at concrete inputs.
use makkays_chatbot.Prelude.{
  ℕ, ◌≡◌, refl, [], ◌∷◌, Bool, true, false, none, some, eqb, ◌==◌, inl, inr, if◌then◌else◌,
}
use makkays_chatbot.Session.Schemas.{FactsSchema, ConversationStateSchema, empty_facts, empty_state}
use makkays_chatbot.Session.Caching.{ok}
use makkays_chatbot.Session.Updates.{FactsUpdate, no_facts, has_values, non_null, merge_facts}
use makkays_chatbot.Session.Service.{
  FactsStore, StateStore, validate_facts, validate_state, facts_key, state_key, get_facts,
  update_facts, get_conversation_state, update_clarification_state, reset_conversation_state,
}
use makkays_chatbot.Session.Coherence.{ReadsRow}
use makkays_chatbot.Session.Reading.{
  get_facts-ReadsRow, get_conversation_state-ReadsRow, get_facts-update_facts, get_facts_stale,
}
use makkays_chatbot.Session.Clarifying.{
  update_clarification_state_lem, reset_conversation_state_lem,
}
use makkays_chatbot.Session.Keeping.{includes, known, merge_facts_keeps}

-- All calls succeed; and only the call of a number fails.
abbrev calm : ℕ → Bool
calm n = false

abbrev only : ℕ → ℕ → Bool
only n m = eqb m n

abbrev old_facts : FactsSchema
old_facts = record (empty_facts "t" "s") { company = some "Acme" }

abbrev facts_store : FactsStore
facts_store = record {
  rows = λ t i. some old_facts;
  cache = λ k. if k == "session:facts:t:s" then some old_facts else none;
  calls = 0;
}

abbrev state_store : StateStore
state_store = record { rows = λ t i. none; cache = λ k. none; calls = 0 }

abbrev four : FactsUpdate
four = record no_facts { company = some none; quantity = some (some 4) }

abbrev new_facts : FactsSchema
new_facts = record old_facts { quantity = some 4 }

get_facts-ReadsRow_example :
    ReadsRow "session:facts:t:s" "t" "s"
      (only 1)
      validate_facts
      (empty_facts "t" "s")
      facts_store
      (get_facts (only 1) "t" "s" facts_store).0
      (get_facts (only 1) "t" "s" facts_store).1
unfolding facts_key
get_facts-ReadsRow_example = get_facts-ReadsRow (only 1) "t" "s" facts_store (inr refl)

get_conversation_state-ReadsRow_example :
    ReadsRow "conversation:state:t:s" "t" "s" calm validate_state
      (empty_state "t" "s")
      state_store
      (get_conversation_state calm "t" "s" state_store).0
      (get_conversation_state calm "t" "s" state_store).1
unfolding state_key
get_conversation_state-ReadsRow_example =
    get_conversation_state-ReadsRow calm "t" "s" state_store (inl refl)

get_facts-update_facts_example :
    ((update_facts calm "t" "s" four facts_store).0 ≡ ok new_facts)
    × ((get_facts calm "t" "s" (update_facts calm "t" "s" four facts_store).1).0 ≡ ok new_facts)
unfolding has_values non_null merge_facts
get_facts-update_facts_example =
    get_facts-update_facts calm "t" "s" four facts_store refl refl refl refl

get_facts_stale_example :
    ((update_facts (only 1) "t" "s" four facts_store).0 ≡ ok new_facts)
    × ((update_facts (only 1) "t" "s" four facts_store).1.rows "t" "s" ≡ some new_facts)
    × ((get_facts (only 1) "t" "s" (update_facts (only 1) "t" "s" four facts_store).1).0
        ≡ ok old_facts)
unfolding has_values non_null merge_facts facts_key
get_facts_stale_example =
    get_facts_stale (only 1) "t" "s" four facts_store old_facts refl refl refl refl refl

abbrev awaiting : ConversationStateSchema
awaiting = record (empty_state "t" "s") {
  awaiting_clarification = true;
  clarification_candidates = "sales_inquiry" ∷ [];
  clarification_rounds = 1;
  last_question = some "Sales or support?";
}

update_clarification_state_lem_example :
    let (answer, s') =
      update_clarification_state calm "t" "s"
        (some ("sales_inquiry" ∷ []))
        (some "Sales or support?")
        state_store in
    (answer ≡ ok awaiting)
    × (s'.rows "t" "s" ≡ some awaiting)
    × (s'.cache (state_key "t" "s") ≡ some awaiting)
unfolding validate_state
update_clarification_state_lem_example =
    update_clarification_state_lem calm (λ n. refl) "t" "s" (some ("sales_inquiry" ∷ []))
      (some "Sales or support?") state_store refl

abbrev answered_store : StateStore
answered_store = record { rows = λ t i. some awaiting; cache = λ k. none; calls = 0 }

-- The round is still counted after the reset.
reset_conversation_state_lem_example :
    let after = record awaiting { awaiting_clarification = false; clarification_candidates = [] } in
    let (answer, s') = reset_conversation_state calm "t" "s" answered_store in
    (answer ≡ ok after)
    × (s'.rows "t" "s" ≡ some after)
    × (s'.cache (state_key "t" "s") ≡ some after)
reset_conversation_state_lem_example =
    reset_conversation_state_lem calm (λ n. refl) "t" "s" answered_store

merge_facts_keeps_example :
    (includes (known old_facts) (known (merge_facts four old_facts)) ≡ true)
    × ((merge_facts four old_facts).tenant_id ≡ "t")
    × ((merge_facts four old_facts).session_id ≡ "s")
merge_facts_keeps_example = merge_facts_keeps four old_facts
