-- ===== src/Clarification.antt =====
-- app/clarification: the question that is asked when the classifier is not sure.
--
-- The prompt store and the model's rewrite are parameters, and so is the test of which options of a
-- template a rewrite lost (`missing_preserved_options`, two regular expressions).
pub mod Laws
mod Tests
use makkays_chatbot.Prelude.{
  ℕ, String, List, [], ◌∷◌, Bool, true, false, ◌&&◌, Option, none, some, contains, all, keep, not,
  leb, ◌==◌, if◌then◌else◌,
}
use makkays_chatbot.Shared.{Uuid, IntentResult}
use makkays_chatbot.Session.Schemas.{ConversationStateSchema}
use makkays_chatbot.Session.Caching.{Outcome, ok, checkpoint_error, validation_error}
use makkays_chatbot.Session.Service.{StateStore, update_clarification_state}

-- TEMPLATE_REGISTRY: a set of candidates and the name of its template, and the fallback.
abbrev pub template_registry : List (List String × String)
template_registry =
    ("sales_inquiry" ∷ "technical_support" ∷ "quote_request" ∷ [], "sales_vs_support_vs_quote")
    ∷ ("sales_inquiry" ∷ "technical_support" ∷ [], "sales_vs_support")
    ∷ ("sales_inquiry" ∷ "quote_request" ∷ [], "sales_vs_quote")
    ∷ ("product_recommendation_wizard" ∷ [], "wizard_requirement_collection")
    ∷ ("product_compatibility" ∷ [], "compatibility_type_selection")
    ∷ ("use_case_recommendation" ∷ [], "use_case_selection")
    ∷ ("human_handoff" ∷ [], "handoff_type_selection")
    ∷ []

-- GENERIC_FALLBACK_TEMPLATE
abbrev pub generic_fallback_template : String
generic_fallback_template = "generic_fallback"

-- frozenset(xs) == frozenset(ys)
unfoldable pub same_set : List String → List String → Bool
same_set xs ys = all (contains ys) xs && all (contains xs) ys

unfoldable pub resolve_in : List (List String × String) → List String → String
unfolding same_set
resolve_in [] candidates = generic_fallback_template
resolve_in ((key, name) ∷ rest) candidates =
    let later = resolve_in rest candidates in if same_set key candidates then name else later

-- TemplateLookup.resolve with the registry of the code
unfoldable pub resolve : List String → String
unfolding resolve_in
resolve candidates = resolve_in template_registry candidates

-- list(dict.fromkeys(xs))
unfoldable pub distinct : List String → List String → List String
distinct seen [] = []
distinct seen (x ∷ xs) =
    let skipped = distinct seen xs in
    let taken = x ∷ distinct (x ∷ seen) xs in if contains seen x then skipped else taken

abbrev pub or_intent : String → List String → List String
or_intent intent [] = intent ∷ []
or_intent intent (x ∷ xs) = x ∷ xs

-- _candidate_list
unfoldable pub candidate_list : IntentResult → List String
unfolding distinct
candidate_list intent_result = or_intent intent_result.intent (distinct [] intent_result.candidates)

-- A question, `MaxClarificationRoundsExceededError`, `PromptNotFoundError`, or an error of the state.
pub data ClarificationOutcome : Type 0 where
  asked_question : String → Bool → List String → String → ℕ → ClarificationOutcome
  max_rounds_exceeded : ℕ → ClarificationOutcome
  prompt_not_found state_error : ClarificationOutcome

-- `template` finds a clarification template; `chat` is the stripped reply to the request to rewrite a
-- text, or `none` if a call raised.
pub record Prompts : Type 0 where
  pub template : String → Option String
  pub chat : Option (String → Option String)
  pub missing_preserved_options : String → String → List String

module _ (prompts : Prompts) where
  -- _load_template
  unfoldable pub load_template : String → Option String
  load_template name = elim (prompts.template name) [
    | some text ↦ some text
    | none ↦
        if name == generic_fallback_template
        then none
        else prompts.template generic_fallback_template
  ]

  abbrev or_nothing : String → Option String
  or_nothing text = if text == "" then none else some text

  abbrev if_preserved : String → List String → Option String
  if_preserved rewritten [] = or_nothing rewritten
  if_preserved rewritten (option ∷ options) = none

  abbrev checked_rewrite : String → Option String → Option String
  checked_rewrite text none = none
  checked_rewrite text (some rewritten) =
      if_preserved rewritten (prompts.missing_preserved_options text rewritten)

  -- _rewrite_template
  unfoldable pub rewrite_template : String → (String → Option String) → Option String
  rewrite_template text chat = checked_rewrite text (chat text)

  abbrev rewrite_if : Bool → Option (String → Option String) → String → Option String
  rewrite_if true (some chat) text = rewrite_template text chat
  rewrite_if true none text = none
  rewrite_if false chat text = none

  abbrev or_template : String → Option String → String × Bool
  or_template text none = (text, false)
  or_template text (some rewritten) = (rewritten, true)

  -- The text of the question and whether it was rewritten.
  unfoldable pub question_text : Bool → String → String × Bool
  unfolding rewrite_template
  question_text enabled text = or_template text (rewrite_if enabled prompts.chat text)

  module _ (fails : ℕ → Bool) (tenant : Uuid) (session : String) where
    abbrev after_update :
        List String
        → String
        → String × Bool
        → Outcome ConversationStateSchema × StateStore
        → ClarificationOutcome × StateStore
    after_update candidates name (text, rewritten) (ok state, s) =
        (asked_question text rewritten candidates name state.clarification_rounds, s)
    after_update candidates name question (checkpoint_error, s) = (state_error, s)
    after_update candidates name question (validation_error, s) = (state_error, s)

    unfoldable pub after_template :
        Bool → List String → String → Option String → StateStore → ClarificationOutcome × StateStore
    unfolding question_text
    after_template enabled candidates name none s = (prompt_not_found, s)
    after_template enabled candidates name (some text) s =
        let question = question_text enabled text in
        after_update candidates name question
          (update_clarification_state fails tenant session (some candidates) (some question.0) s)

    -- ClarificationFlow.run
    unfoldable pub run :
        ℕ
        → IntentResult
        → ConversationStateSchema
        → Bool
        → StateStore
        → ClarificationOutcome × StateStore
    unfolding after_template load_template candidate_list resolve
    run max_rounds intent_result state rewrite_enabled s =
        let candidates = candidate_list intent_result in
        let name = resolve candidates in
        let answer = after_template rewrite_enabled candidates name (load_template name) s in
        if leb max_rounds state.clarification_rounds
        then (max_rounds_exceeded state.clarification_rounds, s)
        else answer
