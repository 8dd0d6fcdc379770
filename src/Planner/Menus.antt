-- ===== src/Planner/Menus.antt =====
-- The steps that the rule of each intent (app/planner/rules.py) can plan, and no others.
use makkays_chatbot.Prelude.{
  String, ◌≡◌, List, [], ◌∷◌, ◌++◌, Bool, true, Dict, lookup, Option, none, some, All, All-lookup,
  is_subsequence, is_subsequence-keep, if◌then◌else◌, ltb, length, ◌&&◌, not, ◌==◌, arith,
}
use makkays_chatbot.Shared.{IntentResult}
use makkays_chatbot.Flags.Schemas.{FeatureFlags}
use makkays_chatbot.Session.Schemas.{FactsSchema, ConversationStateSchema, Plan}
use makkays_chatbot.Planner.{is_open, build_plan}
use makkays_chatbot.Planner.Plans.{build_plan_kept}
use makkays_chatbot.Planner.Rules.{
  RuleFn, append_if, quote_slots_complete, contact_info_newly_captured, rule_registry,
  plan_sales_inquiry, plan_quote_request, plan_technical_support, plan_escalation_request,
  plan_human_handoff, plan_out_of_scope, plan_product_comparison, plan_product_compatibility,
  plan_accessory_recommendation, plan_product_finder_by_problem, plan_product_alternative,
  plan_specification_explainer, plan_product_recommendation_wizard, plan_use_case_recommendation,
  plan_solution_builder, plan_availability_inquiry, plan_installation_guidance,
  plan_troubleshooting, plan_warranty_information, plan_pdf_documentation_search,
}

abbrev pub menus : Dict (List String)
menus =
    (
      "sales_inquiry",
      "retrieve_products" ∷ "retrieve_docs" ∷ "compare" ∷ "generate_quote" ∷ "request_missing_slots"
          ∷ "create_lead" ∷ "respond" ∷ [],
    )
    ∷ (
      "quote_request",
      "retrieve_products" ∷ "generate_quote" ∷ "request_missing_slots" ∷ "respond" ∷ [],
    )
    ∷ ("technical_support", "retrieve_docs" ∷ "respond" ∷ [])
    ∷ ("escalation_request", "respond" ∷ [])
    ∷ ("human_handoff", "initiate_handoff" ∷ "respond" ∷ [])
    ∷ ("out_of_scope", "respond" ∷ [])
    ∷ ("product_comparison", "retrieve_products" ∷ "compare_products" ∷ "respond" ∷ [])
    ∷ ("product_compatibility", "retrieve_products" ∷ "check_compatibility" ∷ "respond" ∷ [])
    ∷ ("accessory_recommendation", "retrieve_products" ∷ "recommend_accessories" ∷ "respond" ∷ [])
    ∷ ("product_finder_by_problem", "retrieve_products" ∷ "respond" ∷ [])
    ∷ ("product_alternative", "retrieve_products" ∷ "find_alternatives" ∷ "respond" ∷ [])
    ∷ (
      "specification_explainer",
      "retrieve_products" ∷ "retrieve_docs" ∷ "explain_specification" ∷ "respond" ∷ [],
    )
    ∷ ("product_recommendation_wizard", "run_wizard" ∷ "respond" ∷ [])
    ∷ ("use_case_recommendation", "build_use_case_solution" ∷ "respond" ∷ [])
    ∷ ("solution_builder", "build_solution" ∷ "run_wizard" ∷ "respond" ∷ [])
    ∷ ("availability_inquiry", "retrieve_products" ∷ "check_availability" ∷ "respond" ∷ [])
    ∷ ("installation_guidance", "retrieve_docs" ∷ "respond" ∷ [])
    ∷ ("troubleshooting", "retrieve_docs" ∷ "respond" ∷ [])
    ∷ ("warranty_information", "retrieve_docs" ∷ "respond" ∷ [])
    ∷ ("pdf_documentation_search", "retrieve_docs" ∷ "respond" ∷ [])
    ∷ []

abbrev or_empty : Option (List String) → List String
or_empty none = []
or_empty (some steps) = steps

unfoldable pub menu : String → List String
unfolding lookup
menu intent = or_empty (lookup intent menus)

sales_menu :
    (spec many quote ask lead : Bool)
    → is_subsequence
        (append_if lead "create_lead" (
            let steps =
              append_if many "compare"
                (append_if spec "retrieve_docs" ("retrieve_products" ∷ [])) in
            if quote
            then steps ++ "generate_quote" ∷ []
            else append_if ask "request_missing_slots" steps)
          ++ "respond" ∷ [])
        (menu "sales_inquiry")
      ≡ true
unfolding is_subsequence menu
sales_menu spec many quote ask lead = ground arith

-- The rule plans steps of its menu, in the order of the menu.
abbrev pub KeepsMenu : String → RuleFn → Type 0
KeepsMenu intent rule =
    (facts : FactsSchema) (state : ConversationStateSchema) (flags : FeatureFlags)
    (intent_result : IntentResult)
    → is_subsequence (rule facts state flags intent_result) (menu intent) ≡ true

sales_inquiry-KeepsMenu : KeepsMenu "sales_inquiry" plan_sales_inquiry
unfolding plan_sales_inquiry
sales_inquiry-KeepsMenu facts state flags intent_result =
    sales_menu intent_result.spec_question_detected (ltb 1 (length intent_result.candidates))
      (flags.enable_quotes && quote_slots_complete facts)
      (flags.enable_quotes
        && not (quote_slots_complete facts)
        && (intent_result.intent == "quote_request"))
      (flags.enable_crm && contact_info_newly_captured state)

quote_request-KeepsMenu : KeepsMenu "quote_request" plan_quote_request
unfolding plan_quote_request is_subsequence menu
quote_request-KeepsMenu facts state flags intent_result = ground arith

technical_support-KeepsMenu : KeepsMenu "technical_support" plan_technical_support
unfolding plan_technical_support is_subsequence menu
technical_support-KeepsMenu facts state flags intent_result = ground arith

escalation_request-KeepsMenu : KeepsMenu "escalation_request" plan_escalation_request
unfolding plan_escalation_request is_subsequence menu
escalation_request-KeepsMenu facts state flags intent_result = ground arith

human_handoff-KeepsMenu : KeepsMenu "human_handoff" plan_human_handoff
unfolding plan_human_handoff is_subsequence menu
human_handoff-KeepsMenu facts state flags intent_result = ground arith

out_of_scope-KeepsMenu : KeepsMenu "out_of_scope" plan_out_of_scope
unfolding plan_out_of_scope is_subsequence menu
out_of_scope-KeepsMenu facts state flags intent_result = ground arith

product_comparison-KeepsMenu : KeepsMenu "product_comparison" plan_product_comparison
unfolding plan_product_comparison is_subsequence menu
product_comparison-KeepsMenu facts state flags intent_result = ground arith

product_compatibility-KeepsMenu : KeepsMenu "product_compatibility" plan_product_compatibility
unfolding plan_product_compatibility is_subsequence menu
product_compatibility-KeepsMenu facts state flags intent_result = ground arith

accessory_recommendation-KeepsMenu :
    KeepsMenu "accessory_recommendation" plan_accessory_recommendation
unfolding plan_accessory_recommendation is_subsequence menu
accessory_recommendation-KeepsMenu facts state flags intent_result = ground arith

product_finder_by_problem-KeepsMenu :
    KeepsMenu "product_finder_by_problem" plan_product_finder_by_problem
unfolding plan_product_finder_by_problem is_subsequence menu
product_finder_by_problem-KeepsMenu facts state flags intent_result = ground arith

product_alternative-KeepsMenu : KeepsMenu "product_alternative" plan_product_alternative
unfolding plan_product_alternative is_subsequence menu
product_alternative-KeepsMenu facts state flags intent_result = ground arith

specification_explainer-KeepsMenu : KeepsMenu "specification_explainer" plan_specification_explainer
unfolding plan_specification_explainer is_subsequence menu
specification_explainer-KeepsMenu facts state flags intent_result = ground arith

product_recommendation_wizard-KeepsMenu :
    KeepsMenu "product_recommendation_wizard" plan_product_recommendation_wizard
unfolding plan_product_recommendation_wizard is_subsequence menu
product_recommendation_wizard-KeepsMenu facts state flags intent_result = ground arith

use_case_recommendation-KeepsMenu : KeepsMenu "use_case_recommendation" plan_use_case_recommendation
unfolding plan_use_case_recommendation is_subsequence menu
use_case_recommendation-KeepsMenu facts state flags intent_result = ground arith

solution_builder-KeepsMenu : KeepsMenu "solution_builder" plan_solution_builder
unfolding plan_solution_builder is_subsequence menu
solution_builder-KeepsMenu facts state flags intent_result = ground arith

availability_inquiry-KeepsMenu : KeepsMenu "availability_inquiry" plan_availability_inquiry
unfolding plan_availability_inquiry is_subsequence menu
availability_inquiry-KeepsMenu facts state flags intent_result = ground arith

installation_guidance-KeepsMenu : KeepsMenu "installation_guidance" plan_installation_guidance
unfolding plan_installation_guidance is_subsequence menu
installation_guidance-KeepsMenu facts state flags intent_result = ground arith

troubleshooting-KeepsMenu : KeepsMenu "troubleshooting" plan_troubleshooting
unfolding plan_troubleshooting is_subsequence menu
troubleshooting-KeepsMenu facts state flags intent_result = ground arith

warranty_information-KeepsMenu : KeepsMenu "warranty_information" plan_warranty_information
unfolding plan_warranty_information is_subsequence menu
warranty_information-KeepsMenu facts state flags intent_result = ground arith

pdf_documentation_search-KeepsMenu :
    KeepsMenu "pdf_documentation_search" plan_pdf_documentation_search
unfolding plan_pdf_documentation_search is_subsequence menu
pdf_documentation_search-KeepsMenu facts state flags intent_result = ground arith

rules-KeepsMenu : All (λ e. KeepsMenu e.0 e.1) rule_registry
rules-KeepsMenu = (
  sales_inquiry-KeepsMenu,
  (
    quote_request-KeepsMenu,
    (
      technical_support-KeepsMenu,
      (
        escalation_request-KeepsMenu,
        (
          human_handoff-KeepsMenu,
          (
            out_of_scope-KeepsMenu,
            (
              product_comparison-KeepsMenu,
              (
                product_compatibility-KeepsMenu,
                (
                  accessory_recommendation-KeepsMenu,
                  (
                    product_finder_by_problem-KeepsMenu,
                    (
                      product_alternative-KeepsMenu,
                      (
                        specification_explainer-KeepsMenu,
                        (
                          product_recommendation_wizard-KeepsMenu,
                          (
                            use_case_recommendation-KeepsMenu,
                            (
                              solution_builder-KeepsMenu,
                              (
                                availability_inquiry-KeepsMenu,
                                (
                                  installation_guidance-KeepsMenu,
                                  (
                                    troubleshooting-KeepsMenu,
                                    (
                                      warranty_information-KeepsMenu,
                                      (pdf_documentation_search-KeepsMenu, tt),
                                    ),
                                  ),
                                ),
                              ),
                            ),
                          ),
                        ),
                      ),
                    ),
                  ),
                ),
              ),
            ),
          ),
        ),
      ),
    ),
  ),
)

-- Every plan is made of steps of its intent's menu, in the order of the menu.
pub build_plan-menu :
    (facts : FactsSchema) (state : ConversationStateSchema) (flags : FeatureFlags)
    (intent_result : IntentResult) (plan : Plan)
    → build_plan intent_result facts state flags ≡ some plan
    → is_subsequence plan.steps (menu plan.intent) ≡ true
build_plan-menu facts state flags intent_result plan h =
    let (rule, found, _, kept, intent) = build_plan_kept facts state flags intent_result plan h in
    let planned = rule facts state flags intent_result in
    let on_menu =
      All-lookup KeepsMenu rule_registry intent_result.intent rule rules-KeepsMenu found facts state
        flags intent_result in
    rw (kept, intent)
      (is_subsequence-keep (is_open flags) planned (menu intent_result.intent) on_menu)
