-- ===== src/Tools/Catalog.antt =====
-- The policies of security_policies/*.yaml, in the order of the files' names, and the registrations of
-- the tools (app/tools/__init__.py, app/tools/executor.py, app/rag/__init__.py,
-- app/product_intelligence/__init__.py, app/solution_builder/__init__.py).
use makkays_chatbot.Prelude.{
  String, List, [], ◌∷◌, Bool, true, false, Option, none, some, lookup, lookup-insert, Bool-cases,
  inl, inr, some_inj, sym, ap, eq_iff, ◌==◌, ◌≡◌, ◌∙◌,
}
use makkays_chatbot.Tools.Schemas.{SecurityPolicySchema}
use makkays_chatbot.Tools.Registry.{ToolRegistry, empty_registry, register}

abbrev policy :
    String → List String → List String → List String → Option String → Bool → SecurityPolicySchema
policy tool intents state slots limit audited = record {
  tool_name = tool;
  allowed_intents = intents;
  required_state = state;
  required_slots = slots;
  rate_limit = limit;
  audit_log = audited;
}

abbrev pub policy_files : List SecurityPolicySchema
policy_files =
    policy "build_solution" ("solution_builder" ∷ []) ([]) ([]) (some "20/min") false
    ∷ policy "build_use_case_solution" ("use_case_recommendation" ∷ []) ([]) ([]) (some "20/min")
        false
    ∷ policy "check_availability"
        ("availability_inquiry" ∷ "sales_inquiry" ∷ "solution_builder" ∷ []) ([]) ([])
        (some "30/min") false
    ∷ policy "check_compatibility" ("product_compatibility" ∷ []) ([]) ([]) (some "20/min") false
    ∷ policy "compare" ("sales_inquiry" ∷ []) ([]) ([]) (some "20/min") false
    ∷ policy "compare_products" ("product_comparison" ∷ []) ([]) ([]) (some "20/min") false
    ∷ policy "create_lead" ("sales_inquiry" ∷ "quote_request" ∷ []) ("contact_info_complete" ∷ [])
        ([]) (some "5/min") true
    ∷ policy "explain_specification" ("specification_explainer" ∷ []) ([]) ([]) (some "20/min")
        false
    ∷ policy "find_alternatives" ("product_alternative" ∷ []) ([]) ([]) (some "20/min") false
    ∷ policy "generate_quote" ("sales_inquiry" ∷ "quote_request" ∷ []) ("quote_slots_complete" ∷ [])
        ("company" ∷ "product_interest" ∷ "quantity" ∷ "budget" ∷ []) (some "5/min") true
    ∷ policy "initiate_handoff" ("human_handoff" ∷ "escalation_request" ∷ []) ([]) ([])
        (some "3/min") true
    ∷ policy "recommend_accessories" ("accessory_recommendation" ∷ []) ([]) ([]) (some "20/min")
        false
    ∷ policy "request_missing_slots" ("sales_inquiry" ∷ "quote_request" ∷ []) ([]) ([]) none false
    ∷ policy "respond"
        ("sales_inquiry" ∷ "quote_request" ∷ "technical_support" ∷ "escalation_request"
          ∷ "out_of_scope" ∷ "product_comparison" ∷ "product_compatibility"
          ∷ "accessory_recommendation" ∷ "product_finder_by_problem" ∷ "product_alternative"
          ∷ "specification_explainer" ∷ "product_recommendation_wizard" ∷ "use_case_recommendation"
          ∷ "installation_guidance" ∷ "troubleshooting" ∷ "warranty_information"
          ∷ "pdf_documentation_search" ∷ "availability_inquiry" ∷ "solution_builder"
          ∷ "human_handoff" ∷ [])
        ([]) ([]) none false
    ∷ policy "retrieve_docs"
        ("sales_inquiry" ∷ "technical_support" ∷ "troubleshooting" ∷ "installation_guidance"
          ∷ "warranty_information" ∷ "pdf_documentation_search" ∷ "specification_explainer" ∷ [])
        ([]) ([]) (some "20/min") false
    ∷ policy "retrieve_products"
        ("sales_inquiry" ∷ "quote_request" ∷ "product_comparison" ∷ "product_compatibility"
          ∷ "accessory_recommendation" ∷ "product_finder_by_problem" ∷ "product_alternative"
          ∷ "product_recommendation_wizard" ∷ "use_case_recommendation" ∷ "availability_inquiry"
          ∷ "solution_builder" ∷ "specification_explainer" ∷ [])
        ([]) ([]) (some "20/min") false
    ∷ policy "run_wizard" ("product_recommendation_wizard" ∷ "solution_builder" ∷ []) ([]) ([])
        (some "20/min") false
    ∷ []

-- The names under which tools register, each with its feature flag if it has one.
abbrev pub registrations : List (String × Option String)
registrations =
    ("respond", none)
    ∷ ("compare", none)
    ∷ ("request_missing_slots", some "enable_quotes")
    ∷ ("retrieve_products", some "enable_rag")
    ∷ ("retrieve_docs", some "enable_rag")
    ∷ ("compare_products", some "enable_product_comparison")
    ∷ ("check_compatibility", some "enable_compatibility_check")
    ∷ ("recommend_accessories", some "enable_accessory_recommendation")
    ∷ ("find_alternatives", none)
    ∷ ("explain_specification", none)
    ∷ ("run_wizard", some "enable_wizard")
    ∷ ("build_use_case_solution", some "enable_use_case_recommendation")
    ∷ ("build_solution", some "enable_solution_builder")
    ∷ ("create_lead", some "enable_crm")
    ∷ ("generate_quote", some "enable_quotes")
    ∷ ("initiate_handoff", some "enable_human_handoff")
    ∷ ("check_availability", some "enable_availability_check")
    ∷ []

-- The registry after the registrations; `implementation` is the tool of each name.
module _ {Tool : Type 0} (implementation : String → Tool) where
  unfoldable pub register_all : List (String × Option String) → ToolRegistry Tool String
  unfolding register
  register_all [] = empty_registry
  register_all ((name, flag) ∷ rest) =
      register name (implementation name) flag none (register_all rest)

  -- A tool that is found is the implementation of its name.
  pub register_all-lookup :
      (entries : List (String × Option String)) (name : String) (tool : Tool)
      → lookup name (register_all entries).tools ≡ some tool
      → tool ≡ implementation name
  unfolding register_all register
  register_all-lookup [] name tool q = unfold lookup in cc q
  register_all-lookup ((n, flag) ∷ rest) name tool q =
      let here = rw lookup-insert at q in
      elim (Bool-cases (n == name)) [
        | inl same ↦ sym (some_inj (rw same at here)) ∙ ap implementation ((eq_iff n name).0 same)
        | inr other ↦ register_all-lookup rest name tool (rw other at here)
      ]
