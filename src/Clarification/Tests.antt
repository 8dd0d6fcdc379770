-- ===== src/Clarification/Tests.antt =====
-- Runs of the clarification flow, and its theorems at concrete inputs.
use makkays_chatbot.Prelude.{suc, ◌≤◌, [], ◌∷◌, ◌≡◌, refl, false, none, some}
use makkays_chatbot.Shared.{IntentResult, tier2}
use makkays_chatbot.Session.Schemas.{empty_state}
use makkays_chatbot.Session.Caching.{
  redis_get, redis_set, read_through, after_redis_get, after_upsert, cache_row, put_row,
}
use makkays_chatbot.Session.Updates.{
  sets_field, merge_state, upsert_state, breaks_not_null, increment_clarification_round, change,
  change_value,
}
use makkays_chatbot.Session.Service.{
  StateStore, validate_state, state_key, get_conversation_state, update_conversation_state,
  clarification_patch, after_reread, after_round, after_patch, update_clarification_state,
}
use makkays_chatbot.Clarification.{
  same_set, resolve, resolve_in, distinct, candidate_list, asked_question, Prompts, load_template,
  question_text, after_template, run,
}
use makkays_chatbot.Clarification.Laws.{resolve-same_set, run_rounds}

resolve-same_set_example :
    resolve ("technical_support" ∷ "sales_inquiry" ∷ "sales_inquiry" ∷ [])
    ≡ resolve ("sales_inquiry" ∷ "technical_support" ∷ [])
unfolding same_set
resolve-same_set_example =
    resolve-same_set ("technical_support" ∷ "sales_inquiry" ∷ "sales_inquiry" ∷ [])
      ("sales_inquiry" ∷ "technical_support" ∷ []) refl

resolve_run : resolve ("technical_support" ∷ "sales_inquiry" ∷ []) ≡ "sales_vs_support"
unfolding resolve resolve_in same_set
resolve_run = refl

abbrev prompts : Prompts
prompts = record {
  template = λ name. some "Sales or support?";
  chat = some (λ text. some "Shall I sell or help?");
  missing_preserved_options = λ text rewritten. [];
}

abbrev unsure : IntentResult
unsure = record {
  intent = "sales_inquiry";
  confidence = 400000;
  source = tier2;
  candidates = "sales_inquiry" ∷ "technical_support" ∷ "sales_inquiry" ∷ [];
  spec_question_detected = false;
}

abbrev store : StateStore
store = record { rows = λ t i. none; cache = λ k. none; calls = 0 }

asked_run :
    (run prompts (λ n. false) "t" "s" 2 unsure (empty_state "t" "s") false store).0
    ≡ asked_question "Sales or support?" false
        ("sales_inquiry" ∷ "technical_support" ∷ [])
        "sales_vs_support"
        1
unfolding run after_template load_template candidate_list distinct resolve resolve_in same_set
    question_text update_clarification_state update_conversation_state after_upsert upsert_state
    cache_row after_patch increment_clarification_round after_round after_reread redis_set put_row
    get_conversation_state read_through redis_get after_redis_get validate_state sets_field
    clarification_patch breaks_not_null merge_state change change_value state_key
asked_run = refl

run_rounds_example : (1 ≤ 2) × (1 ≡ suc (empty_state "t" "s").clarification_rounds)
unfolding validate_state
run_rounds_example =
    run_rounds prompts (λ n. false) (λ n. refl) "t" "s" 2 unsure false store "Sales or support?"
      "sales_vs_support" false ("sales_inquiry" ∷ "technical_support" ∷ []) 1 refl asked_run
