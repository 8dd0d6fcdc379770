-- ===== src/Clarification/Laws.antt =====
-- What app/clarification guarantees of templates, rewrites and rounds.
use makkays_chatbot.Prelude.{
  ℕ, suc, ◌≤◌, String, List, [], ◌∷◌, ◌≡◌, ◌⊎◌, inl, inr, refl, sym, ap, ◌∙◌, Bool, true, false,
  ◌&&◌, Option, none, some, some_inj, contains, all, leb, ◌==◌, eq_refl, eq_iff, if◌then◌else◌,
  Bool-cases, arith,
}
use makkays_chatbot.Shared.{Uuid, IntentResult}
use makkays_chatbot.Session.Schemas.{ConversationStateSchema, empty_state}
use makkays_chatbot.Session.Caching.{Outcome, ok, checkpoint_error, validation_error}
use makkays_chatbot.Session.Updates.{or_else}
use makkays_chatbot.Session.Service.{StateStore, validate_state, update_clarification_state}
use makkays_chatbot.Session.Clarifying.{update_clarification_state_lem}
use makkays_chatbot.Clarification.{
  same_set, resolve_in, resolve, asked_question, Prompts, rewrite_template, if_preserved,
  checked_rewrite, rewrite_if, or_template, after_update, question_text, after_template, run,
  template_registry,
}

all-contains :
    (p : String → Bool) (xs : List String) (a : String)
    → all p xs ≡ true
    → contains xs a ≡ true
    → p a ≡ true
all-contains p [] a h e = cc
all-contains p (x ∷ xs) a h e = ground (arith, eq_iff x a, all-contains p xs a, ap p)

if_same : (b : Bool) → (if b then true else true) ≡ true
if_same true = refl
if_same false = refl

contains-cons :
    (x : String) (xs : List String) (a : String) → contains xs a ≡ true → contains (x ∷ xs) a ≡ true
contains-cons x xs a h = rw h (if_same (x == a))

contains-all :
    (p : String → Bool) (xs : List String)
    → ((a : String) → contains xs a ≡ true → p a ≡ true)
    → all p xs ≡ true
contains-all p [] h = refl
contains-all p (x ∷ xs) h =
    let here : p x ≡ true = h x (rw (eq_refl x) refl) in
    rw here (contains-all p xs (λ a e. h a (contains-cons x xs a e)))

-- Two lists are the same set exactly when they have the same members.
all_same :
    (p q : String → Bool) (xs : List String) → ((a : String) → p a ≡ q a) → all p xs ≡ all q xs
all_same p q [] h = refl
all_same p q (x ∷ xs) h = rw (h x, all_same p q xs h)

true_iff : (a b : Bool) → (a ≡ true → b ≡ true) → (b ≡ true → a ≡ true) → a ≡ b
true_iff true true f g = refl
true_iff true false f g = sym (f refl)
true_iff false true f g = g refl
true_iff false false f g = refl

and_true : (a b : Bool) → (a && b) ≡ true → (a ≡ true) × (b ≡ true)
and_true true b h = (refl, h)
and_true false b h = cc

same_set_members :
    (xs ys : List String) → same_set xs ys ≡ true → (a : String) → contains xs a ≡ contains ys a
unfolding same_set
same_set_members xs ys h a =
    let (into, back) = and_true (all (contains ys) xs) (all (contains xs) ys) h in
    true_iff _ _ (all-contains (contains ys) xs a into) (all-contains (contains xs) ys a back)

all-same_set :
    (p : String → Bool) (xs ys : List String) → same_set xs ys ≡ true → all p xs ≡ all p ys
all-same_set p xs ys h =
    let members = same_set_members xs ys h in
    true_iff _ _ (λ e. contains-all p ys (λ a m. all-contains p xs a e (members a ∙ m)))
      (λ e. contains-all p xs (λ a m. all-contains p ys a e (sym (members a) ∙ m)))

resolve_in-same_set :
    (registry : List (List String × String)) (xs ys : List String)
    → same_set xs ys ≡ true
    → resolve_in registry xs ≡ resolve_in registry ys
unfolding resolve_in same_set
resolve_in-same_set [] xs ys h = refl
resolve_in-same_set ((key, name) ∷ rest) xs ys h = rw (
  all_same (contains xs) (contains ys) key (same_set_members xs ys h),
  all-same_set (contains key) xs ys h,
  resolve_in-same_set rest xs ys h,
)

-- The template depends on the set of the candidates only, not on their order or their repetitions.
pub resolve-same_set : (xs ys : List String) → same_set xs ys ≡ true → resolve xs ≡ resolve ys
unfolding resolve
resolve-same_set xs ys h = resolve_in-same_set template_registry xs ys h

module _ (prompts : Prompts) where
  if_preserved_lem :
      (rewritten text : String) (lost : List String)
      → if_preserved prompts rewritten lost ≡ some text
      → (lost ≡ []) × (rewritten ≡ text) × ((text == "") ≡ false)
  if_preserved_lem rewritten text [] e = elim (Bool-cases (rewritten == "")) [
    | inl t ↦ cc (rw t at e)
    | inr f ↦ let same = some_inj (rw f at e) in (refl, same, ap (λ x. x == "") (sym same) ∙ f)
  ]
  if_preserved_lem rewritten text (option ∷ options) e = cc

  checked_rewrite_lem :
      (reply : Option String) (text question : String)
      → checked_rewrite prompts text reply ≡ some question
      → (Prompts.missing_preserved_options prompts text question ≡ []) × ((question == "") ≡ false)
  checked_rewrite_lem none text question e = cc
  checked_rewrite_lem (some rewritten) text question e =
      let (kept, same, full) =
        if_preserved_lem rewritten question
          (Prompts.missing_preserved_options prompts text rewritten) e in
      (ap (Prompts.missing_preserved_options prompts text) (sym same) ∙ kept, full)

  rewrite_if_lem :
      (enabled : Bool) (chat : Option (String → Option String)) (text question : String)
      → rewrite_if prompts enabled chat text ≡ some question
      → (Prompts.missing_preserved_options prompts text question ≡ []) × ((question == "") ≡ false)
  unfolding rewrite_template
  rewrite_if_lem false chat text question e = cc
  rewrite_if_lem true none text question e = cc
  rewrite_if_lem true (some chat) text question e = checked_rewrite_lem (chat text) text question e

  or_template_lem :
      (found : Option String) (text : String) (Good : String → Type 0)
      → ((question : String) → found ≡ some question → Good question)
      → let (question, rewritten) = or_template prompts text found in
        ((rewritten ≡ false) × (question ≡ text)) ⊎ Good question
  or_template_lem none text Good h = inl (refl, refl)
  or_template_lem (some question) text Good h = inr (h question refl)

  -- A question that is not rewritten is the template; a rewritten one has lost no option of the
  -- template and is not empty.
  pub question_text_lem :
      (enabled : Bool) (text : String)
      → let (question, rewritten) = question_text prompts enabled text in
        ((rewritten ≡ false) × (question ≡ text))
        ⊎ ((Prompts.missing_preserved_options prompts text question ≡ [])
            × ((question == "") ≡ false))
  unfolding question_text
  question_text_lem enabled text =
      or_template_lem (rewrite_if prompts enabled (Prompts.chat prompts) text) text
        (λ question.
          (Prompts.missing_preserved_options prompts text question ≡ [])
          × ((question == "") ≡ false))
        (λ question e. rewrite_if_lem enabled (Prompts.chat prompts) text question e)

  module _ (fails : ℕ → Bool) (quiet : (n : ℕ) → fails n ≡ false) (tenant : Uuid)
      (session : String) where
    after_update_rounds :
        (candidates names : List String) (name title text : String) (question : String × Bool)
        (rewritten : Bool) (round : ℕ) (after : ConversationStateSchema)
        (result : Outcome ConversationStateSchema × StateStore)
        → result.0 ≡ ok after
        → (after_update prompts fails tenant session candidates name question result).0
          ≡ asked_question text rewritten names title round
        → round ≡ after.clarification_rounds
    after_update_rounds candidates names name title text (q, b) rewritten round after (ok state, s)
          h e =
        let here : state.clarification_rounds ≡ round = cc e in
        let there : state ≡ after = cc h in sym here ∙ ap (λ st. st.clarification_rounds) there
    after_update_rounds candidates names name title text question rewritten round after
          (checkpoint_error, s) h e =
        cc
    after_update_rounds candidates names name title text question rewritten round after
          (validation_error, s) h e =
        cc

    after_template_rounds :
        (enabled : Bool) (candidates names : List String) (name title text : String)
        (found : Option String) (rewritten : Bool) (round : ℕ) (s : StateStore)
        → let before = or_else (empty_state tenant session) (s.rows tenant session) in
          validate_state before ≡ ok before
          → (after_template prompts fails tenant session enabled candidates name found s).0
            ≡ asked_question text rewritten names title round
          → round ≡ suc before.clarification_rounds
    unfolding after_template
    after_template_rounds enabled candidates names name title text none rewritten round s valid e =
        cc
    after_template_rounds enabled candidates names name title text (some template) rewritten round s
          valid e =
        let question = question_text prompts enabled template in
        after_update_rounds candidates names name title text question rewritten round _
          (update_clarification_state fails tenant session (some candidates) (some question.0) s)
          (update_clarification_state_lem fails quiet tenant session (some candidates)
            (some question.0) s valid).0
          e

    -- If no call fails, and the state that the flow is given is the stored one, or the empty one where
    -- none is stored, and its step fits its plan: a question is asked only in a round up to the
    -- maximum, and its round is one more than those of that state.
    pub run_rounds :
        (max_rounds : ℕ) (intent_result : IntentResult) (enabled : Bool) (s : StateStore)
        (text name : String) (rewritten : Bool) (candidates : List String) (round : ℕ)
        → let before = or_else (empty_state tenant session) (s.rows tenant session) in
          let result = run prompts fails tenant session max_rounds intent_result before enabled s in
          validate_state before ≡ ok before
          → result.0 ≡ asked_question text rewritten candidates name round
          → (round ≤ max_rounds) × (round ≡ suc before.clarification_rounds)
    unfolding run
    run_rounds max_rounds intent_result enabled s text name rewritten candidates round valid e =
        let before = or_else (empty_state tenant session) (s.rows tenant session) in
        elim (Bool-cases (leb max_rounds before.clarification_rounds)) [
          | inl over ↦ cc (rw over at e)
          | inr under ↦
              let counted =
                after_template_rounds enabled _ candidates _ name text _ rewritten round s valid
                  (rw under at e) in
              (ground (arith, counted, under), counted)
        ]
