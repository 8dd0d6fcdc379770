-- ===== src/Router/Laws.antt =====
-- What app/router promises: known intents, confidences in range, and rules that fire only when they
-- are unambiguous.
use makkays_chatbot.Prelude.{
  ℕ, ◌≤◌, ◌≡◌, ◌⊎◌, ◌↔◌, inl, inr, refl, ap, ◌∙◌, sym, String, List, [], ◌∷◌, Bool, true, false,
  Option, none, some, some_inj, Dict, lookup, All-lookup, contains, keep, map, leb, lower, All,
  All-keep_test, Bool-cases, arith,
}
use makkays_chatbot.Shared.{certain, IntentResult, intent_taxonomy}
use makkays_chatbot.Router.Rules.{
  tier1_rules, min_pattern_matches, greeting_only_pattern, or_one, needed_matches, rule_result,
  count_matches, hits, confident, detect_spec_question, is_off_domain, decide, match_rules,
}
use makkays_chatbot.Router.Classifier.{
  Reported, negative, not_a_number, millionths, ClassifyIntentArguments, clamp_confidence,
  classify_reply, or_model, classify,
}

-- A classification that the rest of the program can use.
pub record IsUsable (result : IntentResult) : Type 0 where
  pub known : contains intent_taxonomy result.intent ≡ true
  pub in_range : result.confidence ≤ certain
  pub known_candidates : All (λ c. contains intent_taxonomy c ≡ true) result.candidates

-- Enough of the patterns are found.
abbrev pub is_met : (String → List ℕ → Bool) → List ℕ → String × List String → Bool
is_met search text (intent, patterns) =
    leb (needed_matches intent) (count_matches search patterns text)

abbrev pub met_intents : (String → List ℕ → Bool) → List ℕ → List String
met_intents search text = map (λ e. e.0) (keep (is_met search text) tier1_rules)

abbrev IsPositive : String → ℕ → Type 0
IsPositive name n = 1 ≤ n

one-le-or_one :
    (name : String) (found : Option ℕ) → lookup name min_pattern_matches ≡ found → 1 ≤ or_one found
one-le-or_one name none e = omega arith
one-le-or_one name (some n) e =
    All-lookup IsPositive min_pattern_matches name n (omega arith, (omega arith, (omega arith, tt)))
      e

one-le-needed_matches : (name : String) → 1 ≤ needed_matches name
unfolding needed_matches
one-le-needed_matches name = one-le-or_one name (lookup name min_pattern_matches) refl

module _ (search : String → List ℕ → Bool) (text : List ℕ) where
  -- The counts are only a way to find the intents whose patterns suffice.
  confident-hits :
      (rules : Dict (List String))
      → confident (hits search rules text) ≡ map (λ e. e.0) (keep (is_met search text) rules)
  unfolding hits confident
  confident-hits [] = refl
  confident-hits ((intent, patterns) ∷ rules) =
      let count = count_matches search patterns text in
      let ih = confident-hits rules in
      elim (Bool-cases (leb 1 count)) [
        | inl t ↦ elim (Bool-cases (leb (needed_matches intent) count)) [
          | inl s ↦ rw (t, s) (ap (λ rest. intent ∷ rest) ih)
          | inr f ↦ rw (t, f) ih
        ]
        | inr f ↦
            let short : leb (needed_matches intent) count ≡ false =
              ground (arith, one-le-needed_matches intent) in
            rw (f, short) ih
      ]

module _ (search : String → List ℕ → Bool) (message : String) where
  -- Just one intent of the tables has enough patterns, it is on the domain if it has to be, and the
  -- result is its own.
  pub record IsOnlyIntent (intents : List String) (r : IntentResult) : Type 0 where
    pub only : intents ≡ r.intent ∷ []
    pub on_domain : is_off_domain search message r.intent ≡ false
    pub result : r ≡ rule_result r.intent (detect_spec_question search message)

  -- When the first tier answers, and what: a bare greeting, or else the only intent.
  abbrev pub Fires : IntentResult → Type 0
  Fires r =
      ((search greeting_only_pattern (lower message) ≡ true)
        × (r ≡ rule_result "sales_inquiry" false))
      ⊎ ((search greeting_only_pattern (lower message) ≡ false)
          × IsOnlyIntent (met_intents search (lower message)) r)

  decide-IsOnlyIntent :
      (intents : List String) (r : IntentResult)
      → decide search message intents ≡ some r
      → IsOnlyIntent intents r
  unfolding decide
  decide-IsOnlyIntent [] r e = cc
  decide-IsOnlyIntent (intent ∷ other ∷ others) r e = cc
  decide-IsOnlyIntent (intent ∷ []) r e = elim (Bool-cases (is_off_domain search message intent)) [
    | inl t ↦ cc (rw t at e)
    | inr f ↦
        let found : rule_result intent (detect_spec_question search message) ≡ r =
          some_inj (rw f at e) in
        let same : intent ≡ r.intent = ap (λ x. x.intent) found in
        record {
          only = ap (λ x. x ∷ []) same;
          on_domain = rw (← same) f;
          result = sym found ∙ ap (λ i. rule_result i (detect_spec_question search message)) same;
        }
  ]

  IsOnlyIntent-decide :
      (intents : List String) (r : IntentResult)
      → IsOnlyIntent intents r
      → decide search message intents ≡ some r
  unfolding decide
  IsOnlyIntent-decide intents r h = rw (h.only, h.on_domain) (ap (λ x. some x) (sym h.result))

  decide-met :
      decide search message (confident (hits search tier1_rules (lower message)))
      ≡ decide search message (met_intents search (lower message))
  decide-met = ap (decide search message) (confident-hits search (lower message) tier1_rules)

  match_rules-Fires : (r : IntentResult) → match_rules search message ≡ some r → Fires r
  unfolding match_rules
  match_rules-Fires r e = elim (Bool-cases (search greeting_only_pattern (lower message))) [
    | inl t ↦ inl (t, sym (some_inj (rw t at e)))
    | inr f ↦ inr (f, decide-IsOnlyIntent _ r (sym decide-met ∙ (rw f at e)))
  ]

  Fires-match_rules : (r : IntentResult) → Fires r → match_rules search message ≡ some r
  unfolding match_rules
  Fires-match_rules r (inl (t, same)) = rw t (ap (λ x. some x) (sym same))
  Fires-match_rules r (inr (f, h)) = rw f (decide-met ∙ IsOnlyIntent-decide _ r h)

-- The first tier answers exactly on a bare greeting, with a sales inquiry, and else on a message of
-- which just one intent of the tables has enough patterns, and which is on the domain if the intent
-- has to be: then with this intent, and whether a question on a specification was detected.
pub match_rules_lem :
    (search : String → List ℕ → Bool) (message : String) (r : IntentResult)
    → (match_rules search message ≡ some r) ↔ Fires search message r
match_rules_lem search message r =
    (match_rules-Fires search message r, Fires-match_rules search message r)

abbrev IsKnown : String → Type 0
IsKnown name = contains intent_taxonomy name ≡ true

abbrev HasKnownName : String × List String → Type 0
HasKnownName e = IsKnown e.0

tier1_rules_known : All HasKnownName tier1_rules
tier1_rules_known = (
  refl,
  (
    refl,
    (
      refl,
      (
        refl,
        (
          refl,
          (
            refl,
            (
              refl,
              (
                refl,
                (
                  refl,
                  (
                    refl,
                    (refl, (refl, (refl, (refl, (refl, (refl, (refl, (refl, (refl, tt))))))))),
                  ),
                ),
              ),
            ),
          ),
        ),
      ),
    ),
  ),
)

All-confident :
    (search : String → List ℕ → Bool) (text : List ℕ) (rules : Dict (List String))
    → All HasKnownName rules
    → All IsKnown (confident (hits search rules text))
unfolding hits confident
All-confident search text [] h = tt
All-confident search text ((intent, patterns) ∷ rules) h =
    let count = count_matches search patterns text in
    let ih = All-confident search text rules h.1 in
    elim (Bool-cases (leb 1 count)) [
      | inr f ↦ rw f ih
      | inl t ↦ elim (Bool-cases (leb (needed_matches intent) count)) [
        | inl s ↦ rw (t, s) (h.0, ih)
        | inr f ↦ rw (t, f) ih
      ]
    ]

rule_result-IsUsable :
    (intent : String) (spec_question : Bool)
    → IsKnown intent
    → IsUsable (rule_result intent spec_question)
rule_result-IsUsable intent spec_question known = record {
  known = known;
  in_range = omega arith;
  known_candidates = (known, tt);
}

-- What holds of the result of a search that found something.
abbrev IsUsableIfFound : Option IntentResult → Type 0
IsUsableIfFound none = Unit
IsUsableIfFound (some r) = IsUsable r

decide-IsUsable :
    (search : String → List ℕ → Bool) (message : String) (intents : List String)
    → All IsKnown intents
    → IsUsableIfFound (decide search message intents)
unfolding decide
decide-IsUsable search message [] h = tt
decide-IsUsable search message (intent ∷ other ∷ others) h = tt
decide-IsUsable search message (intent ∷ []) h =
    elim (Bool-cases (is_off_domain search message intent)) [
      | inl t ↦ rw t tt
      | inr f ↦ rw f (rule_result-IsUsable intent (detect_spec_question search message) h.0)
    ]

match_rules-IsUsable :
    (search : String → List ℕ → Bool) (message : String)
    → IsUsableIfFound (match_rules search message)
unfolding match_rules
match_rules-IsUsable search message =
    elim (Bool-cases (search greeting_only_pattern (lower message))) [
      | inl t ↦ rw t (rule_result-IsUsable "sales_inquiry" false refl)
      | inr f ↦ rw f (
          decide-IsUsable search message (confident (hits search tier1_rules (lower message)))
            (All-confident search (lower message) tier1_rules tier1_rules_known))
    ]

clamp_confidence-le : (reported : Reported) → clamp_confidence reported ≤ certain
unfolding clamp_confidence
clamp_confidence-le negative = omega arith
clamp_confidence-le not_a_number = omega arith
clamp_confidence-le (millionths n) = omega arith

classify_reply-IsUsable : (reply : Option ClassifyIntentArguments) → IsUsable (classify_reply reply)
unfolding classify_reply
classify_reply-IsUsable none = record {
  known = refl;
  in_range = omega arith;
  known_candidates = tt;
}
classify_reply-IsUsable (some arguments) =
    let kept = All-keep_test (contains intent_taxonomy) arguments.candidates in
    elim (Bool-cases (contains intent_taxonomy arguments.intent)) [
      | inl t ↦ rw t (record {
        known = t;
        in_range = clamp_confidence-le arguments.confidence;
        known_candidates = kept;
      })
      | inr f ↦ rw f (record { known = refl; in_range = omega arith; known_candidates = kept })
    ]

or_model-IsUsable :
    (search : String → List ℕ → Bool) (chat : String → Option ClassifyIntentArguments)
    (message : String) (found : Option IntentResult)
    → IsUsableIfFound found
    → IsUsable (or_model search chat message found)
or_model-IsUsable search chat message none h = classify_reply-IsUsable (chat message)
or_model-IsUsable search chat message (some r) h = h

-- Whatever patterns are found and whatever the model replies, the intent and each candidate are of
-- the taxonomy, and the confidence is at most one.
pub classify-IsUsable :
    (search : String → List ℕ → Bool) (chat : String → Option ClassifyIntentArguments)
    (message : String)
    → IsUsable (classify search chat message)
unfolding classify
classify-IsUsable search chat message =
    let usable =
      or_model-IsUsable search chat message (match_rules search message)
        (match_rules-IsUsable search message) in
    record {
      known = usable.known;
      in_range = usable.in_range;
      known_candidates = usable.known_candidates;
    }
