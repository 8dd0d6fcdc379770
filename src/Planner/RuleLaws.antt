-- ===== src/Planner/RuleLaws.antt =====
-- What each rule of app/planner/rules.py guarantees: the order of its steps, and the reply last.
use makkays_chatbot.Prelude.{
  ◌&&◌, not, ltb, length, ◌==◌, String, ◌≡◌, refl, Bool, true, false, some, List, [], ◌∷◌, ◌++◌,
  All, All-append, is_subsequence, last?, last?-snoc, if◌then◌else◌, Bool-cases, inl, inr, arith,
}
use makkays_chatbot.Shared.{IntentResult}
use makkays_chatbot.Flags.Schemas.{FeatureFlags}
use makkays_chatbot.Session.Schemas.{FactsSchema, ConversationStateSchema}
use makkays_chatbot.Planner.Rules.{
  append_if, quote_slots_complete, solution_slots_complete, contact_info_newly_captured,
  rule_registry, plan_sales_inquiry, plan_quote_request, plan_technical_support,
  plan_escalation_request, plan_human_handoff, plan_out_of_scope, plan_product_comparison,
  plan_product_compatibility, plan_accessory_recommendation, plan_product_finder_by_problem,
  plan_product_alternative, plan_specification_explainer, plan_product_recommendation_wizard,
  plan_use_case_recommendation, plan_solution_builder, plan_availability_inquiry,
  plan_installation_guidance, plan_troubleshooting, plan_warranty_information,
  plan_pdf_documentation_search,
}

-- The order in which steps stand in every plan: what is retrieved first, then what uses it, and the
-- reply last.
abbrev pub step_order : List String
step_order =
    "retrieve_products" ∷ "retrieve_docs" ∷ "compare" ∷ "generate_quote" ∷ "request_missing_slots"
    ∷ "create_lead" ∷ "compare_products" ∷ "check_compatibility" ∷ "recommend_accessories"
    ∷ "find_alternatives" ∷ "check_availability" ∷ "explain_specification" ∷ "build_solution"
    ∷ "run_wizard" ∷ "build_use_case_solution" ∷ "initiate_handoff" ∷ "respond" ∷ []

-- The steps of a sales inquiry stand in order, for each outcome of its five tests.
sales_order :
    (spec many quote ask lead : Bool)
    → is_subsequence
        (append_if lead "create_lead" (
            let steps =
              append_if many "compare"
                (append_if spec "retrieve_docs" ("retrieve_products" ∷ [])) in
            if quote
            then steps ++ "generate_quote" ∷ []
            else append_if ask "request_missing_slots" steps)
          ++ "respond" ∷ [])
        step_order
      ≡ true
unfolding is_subsequence
sales_order spec many quote ask lead = ground arith

-- What a step needs of the facts, the state and the flags beyond its own flag.
unfoldable pub precondition : FactsSchema → ConversationStateSchema → FeatureFlags → String → Bool
unfolding quote_slots_complete solution_slots_complete contact_info_newly_captured
precondition facts state flags step =
    if step == "generate_quote"
    then flags.enable_quotes && quote_slots_complete facts
    else if step == "create_lead"
    then flags.enable_crm && contact_info_newly_captured state
    else if step == "build_solution"
    then flags.enable_solution_builder && solution_slots_complete facts
    else true

module _ (facts : FactsSchema) (state : ConversationStateSchema) (flags : FeatureFlags)
    (intent_result : IntentResult) where
  abbrev pub Meets : String → Type 0
  Meets step = precondition facts state flags step ≡ true

  pub record IsSound (steps : List String) : Type 0 where
    pub ends : last? steps ≡ some "respond"
    pub ordered : is_subsequence steps step_order ≡ true
    pub met : All Meets steps

  All-append_if :
      (test : Bool) (step : String) (steps : List String)
      → All Meets steps
      → (test ≡ true → Meets step)
      → All Meets (append_if test step steps)
  All-append_if true step steps h k = All-append Meets steps (step ∷ []) h (k refl, tt)
  All-append_if false step steps h k = h

  sales_quote-Meets :
      (steps : List String)
      → All Meets steps
      → All Meets (
          if flags.enable_quotes && quote_slots_complete facts
          then steps ++ "generate_quote" ∷ []
          else append_if
              (flags.enable_quotes
                && not (quote_slots_complete facts)
                && (intent_result.intent == "quote_request"))
              "request_missing_slots"
              steps)
  unfolding precondition
  sales_quote-Meets steps h =
      elim (Bool-cases (flags.enable_quotes && quote_slots_complete facts)) [
        | inl t ↦ rw t (All-append Meets steps ("generate_quote" ∷ []) h (t, tt))
        | inr f ↦ rw f (All-append_if _ "request_missing_slots" steps h (λ _. refl))
      ]

  sales_inquiry-IsSound : IsSound (plan_sales_inquiry facts state flags intent_result)
  unfolding plan_sales_inquiry precondition
  sales_inquiry-IsSound =
      let spec = intent_result.spec_question_detected in
      let many = ltb 1 (length intent_result.candidates) in
      let quote = flags.enable_quotes && quote_slots_complete facts in
      let ask =
        flags.enable_quotes
        && not (quote_slots_complete facts)
        && (intent_result.intent == "quote_request") in
      let lead = flags.enable_crm && contact_info_newly_captured state in
      let docs = append_if spec "retrieve_docs" ("retrieve_products" ∷ []) in
      let found = append_if many "compare" docs in
      let quoted =
        if quote
        then found ++ "generate_quote" ∷ []
        else append_if ask "request_missing_slots" found in
      let led = append_if lead "create_lead" quoted in
      let docs_met =
        All-append_if spec "retrieve_docs" ("retrieve_products" ∷ []) (refl, tt) (λ _. refl) in
      let found_met = All-append_if many "compare" docs docs_met (λ _. refl) in
      let led_met =
        All-append_if lead "create_lead" quoted (sales_quote-Meets found found_met) (λ t. t) in
      record {
        ends = last?-snoc led "respond";
        ordered = sales_order spec many quote ask lead;
        met = All-append Meets led ("respond" ∷ []) led_met (refl, tt);
      }

  quote_request-IsSound : IsSound (plan_quote_request facts state flags intent_result)
  unfolding plan_quote_request precondition is_subsequence
  quote_request-IsSound = ground arith

  solution_builder-IsSound : IsSound (plan_solution_builder facts state flags intent_result)
  unfolding plan_solution_builder precondition is_subsequence
  solution_builder-IsSound = ground arith

  technical_support-IsSound : IsSound (plan_technical_support facts state flags intent_result)
  unfolding plan_technical_support precondition is_subsequence
  technical_support-IsSound = ground arith

  escalation_request-IsSound : IsSound (plan_escalation_request facts state flags intent_result)
  unfolding plan_escalation_request precondition is_subsequence
  escalation_request-IsSound = ground arith

  human_handoff-IsSound : IsSound (plan_human_handoff facts state flags intent_result)
  unfolding plan_human_handoff precondition is_subsequence
  human_handoff-IsSound = ground arith

  out_of_scope-IsSound : IsSound (plan_out_of_scope facts state flags intent_result)
  unfolding plan_out_of_scope precondition is_subsequence
  out_of_scope-IsSound = ground arith

  product_comparison-IsSound : IsSound (plan_product_comparison facts state flags intent_result)
  unfolding plan_product_comparison precondition is_subsequence
  product_comparison-IsSound = ground arith

  product_compatibility-IsSound :
      IsSound (plan_product_compatibility facts state flags intent_result)
  unfolding plan_product_compatibility precondition is_subsequence
  product_compatibility-IsSound = ground arith

  accessory_recommendation-IsSound :
      IsSound (plan_accessory_recommendation facts state flags intent_result)
  unfolding plan_accessory_recommendation precondition is_subsequence
  accessory_recommendation-IsSound = ground arith

  product_finder_by_problem-IsSound :
      IsSound (plan_product_finder_by_problem facts state flags intent_result)
  unfolding plan_product_finder_by_problem precondition is_subsequence
  product_finder_by_problem-IsSound = ground arith

  product_alternative-IsSound : IsSound (plan_product_alternative facts state flags intent_result)
  unfolding plan_product_alternative precondition is_subsequence
  product_alternative-IsSound = ground arith

  specification_explainer-IsSound :
      IsSound (plan_specification_explainer facts state flags intent_result)
  unfolding plan_specification_explainer precondition is_subsequence
  specification_explainer-IsSound = ground arith

  product_recommendation_wizard-IsSound :
      IsSound (plan_product_recommendation_wizard facts state flags intent_result)
  unfolding plan_product_recommendation_wizard precondition is_subsequence
  product_recommendation_wizard-IsSound = ground arith

  use_case_recommendation-IsSound :
      IsSound (plan_use_case_recommendation facts state flags intent_result)
  unfolding plan_use_case_recommendation precondition is_subsequence
  use_case_recommendation-IsSound = ground arith

  availability_inquiry-IsSound : IsSound (plan_availability_inquiry facts state flags intent_result)
  unfolding plan_availability_inquiry precondition is_subsequence
  availability_inquiry-IsSound = ground arith

  installation_guidance-IsSound :
      IsSound (plan_installation_guidance facts state flags intent_result)
  unfolding plan_installation_guidance precondition is_subsequence
  installation_guidance-IsSound = ground arith

  troubleshooting-IsSound : IsSound (plan_troubleshooting facts state flags intent_result)
  unfolding plan_troubleshooting precondition is_subsequence
  troubleshooting-IsSound = ground arith

  warranty_information-IsSound : IsSound (plan_warranty_information facts state flags intent_result)
  unfolding plan_warranty_information precondition is_subsequence
  warranty_information-IsSound = ground arith

  pdf_documentation_search-IsSound :
      IsSound (plan_pdf_documentation_search facts state flags intent_result)
  unfolding plan_pdf_documentation_search precondition is_subsequence
  pdf_documentation_search-IsSound = ground arith

-- Every registered rule, in the order of the registry.
pub rules-IsSound :
    All
      (λ e.
        (facts : FactsSchema) (state : ConversationStateSchema) (flags : FeatureFlags)
        (intent_result : IntentResult)
        → IsSound facts state flags intent_result (e.1 facts state flags intent_result))
      rule_registry
rules-IsSound = (
  sales_inquiry-IsSound,
  (
    quote_request-IsSound,
    (
      technical_support-IsSound,
      (
        escalation_request-IsSound,
        (
          human_handoff-IsSound,
          (
            out_of_scope-IsSound,
            (
              product_comparison-IsSound,
              (
                product_compatibility-IsSound,
                (
                  accessory_recommendation-IsSound,
                  (
                    product_finder_by_problem-IsSound,
                    (
                      product_alternative-IsSound,
                      (
                        specification_explainer-IsSound,
                        (
                          product_recommendation_wizard-IsSound,
                          (
                            use_case_recommendation-IsSound,
                            (
                              solution_builder-IsSound,
                              (
                                availability_inquiry-IsSound,
                                (
                                  installation_guidance-IsSound,
                                  (
                                    troubleshooting-IsSound,
                                    (
                                      warranty_information-IsSound,
                                      (pdf_documentation_search-IsSound, tt),
                                    ),
                                  ),
                                ),
                              ),
                            ),
                          ),
                        ),
                      ),
                    ),
                  ),
                ),
              ),
            ),
          ),
        ),
      ),
    ),
  ),
)
