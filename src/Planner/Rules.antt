-- ===== src/Planner/Rules.antt =====
-- app/planner/rules.py: the ordered steps of each intent. The predicates on slots are those of
-- app/quotes/schemas.py and app/solution_builder/schemas.py.
use makkays_chatbot.Prelude.{
  String, List, [], ◌∷◌, ◌++◌, Bool, not, ◌&&◌, Dict, ltb, is_some, length, ◌==◌, if◌then◌else◌,
}
use makkays_chatbot.Shared.{IntentResult}
use makkays_chatbot.Flags.Schemas.{FeatureFlags}
use makkays_chatbot.Session.Schemas.{FactsSchema, ConversationStateSchema}

abbrev pub RuleFn : Type 0
RuleFn = FactsSchema → ConversationStateSchema → FeatureFlags → IntentResult → List String

unfoldable pub quote_slots_complete : FactsSchema → Bool
quote_slots_complete facts =
    is_some facts.company
    && is_some facts.product_interest
    && is_some facts.quantity
    && is_some facts.budget

unfoldable pub solution_slots_complete : FactsSchema → Bool
solution_slots_complete facts = is_some facts.product_interest && is_some facts.quantity

unfoldable pub contact_info_newly_captured : ConversationStateSchema → Bool
contact_info_newly_captured state = state.contact_info_captured

-- `if test: steps.append(step)`
abbrev pub append_if : Bool → String → List String → List String
append_if test step steps = if test then steps ++ step ∷ [] else steps

unfoldable pub plan_sales_inquiry : RuleFn
unfolding quote_slots_complete contact_info_newly_captured
plan_sales_inquiry facts state flags intent_result =
    let steps = "retrieve_products" ∷ [] in
    let steps = append_if intent_result.spec_question_detected "retrieve_docs" steps in
    let steps = append_if (ltb 1 (length intent_result.candidates)) "compare" steps in
    let steps =
      if flags.enable_quotes && quote_slots_complete facts
      then steps ++ "generate_quote" ∷ []
      else append_if
          (flags.enable_quotes
            && not (quote_slots_complete facts)
            && (intent_result.intent == "quote_request"))
          "request_missing_slots" steps in
    let steps =
      append_if (flags.enable_crm && contact_info_newly_captured state) "create_lead" steps in
    steps ++ "respond" ∷ []

unfoldable pub plan_quote_request : RuleFn
unfolding quote_slots_complete
plan_quote_request facts state flags intent_result =
    if flags.enable_quotes && quote_slots_complete facts
    then "retrieve_products" ∷ "generate_quote" ∷ "respond" ∷ []
    else "retrieve_products" ∷ "request_missing_slots" ∷ "respond" ∷ []

unfoldable pub plan_specification_explainer : RuleFn
plan_specification_explainer facts state flags intent_result =
    let steps : List String = [] in
    let steps =
      if flags.enable_rag
      then (steps ++ "retrieve_products" ∷ []) ++ "retrieve_docs" ∷ []
      else steps in
    (steps ++ "explain_specification" ∷ []) ++ "respond" ∷ []

unfoldable pub plan_solution_builder : RuleFn
unfolding solution_slots_complete
plan_solution_builder facts state flags intent_result =
    let steps : List String = [] in
    let steps =
      if flags.enable_solution_builder && solution_slots_complete facts
      then steps ++ "build_solution" ∷ []
      else append_if flags.enable_wizard "run_wizard" steps in
    steps ++ "respond" ∷ []

unfoldable pub plan_technical_support : RuleFn
plan_technical_support facts state flags intent_result = "retrieve_docs" ∷ "respond" ∷ []

unfoldable pub plan_escalation_request : RuleFn
plan_escalation_request facts state flags intent_result = "respond" ∷ []

unfoldable pub plan_human_handoff : RuleFn
plan_human_handoff facts state flags intent_result =
    append_if flags.enable_human_handoff "initiate_handoff" [] ++ "respond" ∷ []

unfoldable pub plan_out_of_scope : RuleFn
plan_out_of_scope facts state flags intent_result = "respond" ∷ []

unfoldable pub plan_product_comparison : RuleFn
plan_product_comparison facts state flags intent_result =
    append_if flags.enable_product_comparison "compare_products" ("retrieve_products" ∷ [])
    ++ "respond" ∷ []

unfoldable pub plan_product_compatibility : RuleFn
plan_product_compatibility facts state flags intent_result =
    append_if flags.enable_compatibility_check "check_compatibility" ("retrieve_products" ∷ [])
    ++ "respond" ∷ []

unfoldable pub plan_accessory_recommendation : RuleFn
plan_accessory_recommendation facts state flags intent_result =
    append_if flags.enable_accessory_recommendation "recommend_accessories"
      ("retrieve_products" ∷ [])
    ++ "respond" ∷ []

unfoldable pub plan_product_finder_by_problem : RuleFn
plan_product_finder_by_problem facts state flags intent_result =
    "retrieve_products" ∷ "respond" ∷ []

unfoldable pub plan_product_alternative : RuleFn
plan_product_alternative facts state flags intent_result =
    "retrieve_products" ∷ "find_alternatives" ∷ "respond" ∷ []

unfoldable pub plan_product_recommendation_wizard : RuleFn
plan_product_recommendation_wizard facts state flags intent_result =
    append_if flags.enable_wizard "run_wizard" [] ++ "respond" ∷ []

unfoldable pub plan_use_case_recommendation : RuleFn
plan_use_case_recommendation facts state flags intent_result =
    append_if flags.enable_use_case_recommendation "build_use_case_solution" [] ++ "respond" ∷ []

unfoldable pub plan_availability_inquiry : RuleFn
plan_availability_inquiry facts state flags intent_result =
    append_if flags.enable_availability_check "check_availability" ("retrieve_products" ∷ [])
    ++ "respond" ∷ []

unfoldable pub plan_installation_guidance : RuleFn
plan_installation_guidance facts state flags intent_result = "retrieve_docs" ∷ "respond" ∷ []

unfoldable pub plan_troubleshooting : RuleFn
plan_troubleshooting facts state flags intent_result = "retrieve_docs" ∷ "respond" ∷ []

unfoldable pub plan_warranty_information : RuleFn
plan_warranty_information facts state flags intent_result = "retrieve_docs" ∷ "respond" ∷ []

unfoldable pub plan_pdf_documentation_search : RuleFn
plan_pdf_documentation_search facts state flags intent_result = "retrieve_docs" ∷ "respond" ∷ []

-- RULE_REGISTRY
abbrev pub rule_registry : Dict RuleFn
rule_registry =
    ("sales_inquiry", plan_sales_inquiry)
    ∷ ("quote_request", plan_quote_request)
    ∷ ("technical_support", plan_technical_support)
    ∷ ("escalation_request", plan_escalation_request)
    ∷ ("human_handoff", plan_human_handoff)
    ∷ ("out_of_scope", plan_out_of_scope)
    ∷ ("product_comparison", plan_product_comparison)
    ∷ ("product_compatibility", plan_product_compatibility)
    ∷ ("accessory_recommendation", plan_accessory_recommendation)
    ∷ ("product_finder_by_problem", plan_product_finder_by_problem)
    ∷ ("product_alternative", plan_product_alternative)
    ∷ ("specification_explainer", plan_specification_explainer)
    ∷ ("product_recommendation_wizard", plan_product_recommendation_wizard)
    ∷ ("use_case_recommendation", plan_use_case_recommendation)
    ∷ ("solution_builder", plan_solution_builder)
    ∷ ("availability_inquiry", plan_availability_inquiry)
    ∷ ("installation_guidance", plan_installation_guidance)
    ∷ ("troubleshooting", plan_troubleshooting)
    ∷ ("warranty_information", plan_warranty_information)
    ∷ ("pdf_documentation_search", plan_pdf_documentation_search)
    ∷ []
