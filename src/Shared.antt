-- ===== src/Shared.antt =====
-- app/shared/intent_context.py: the result of intent classification; identifiers; the taxonomy of
-- app/config.py.
--
-- A UUID is its canonical text. A confidence, a float of [0, 1] in the code, is a number of
-- millionths: the code only compares confidences with one another and with constants.
use makkays_chatbot.Prelude.{ℕ, String, List, [], ◌∷◌, Bool}

abbrev pub Uuid : Type 0
Uuid = String

abbrev pub Confidence : Type 0
Confidence = ℕ

-- 1.0
abbrev pub certain : Confidence
certain = 1000000

pub data Source : Type 0 where
  tier1 tier2 : Source

pub record IntentResult : Type 0 where
  pub intent : String
  pub confidence : Confidence
  pub source : Source
  pub candidates : List String
  pub spec_question_detected : Bool

-- INTENT_TAXONOMY
abbrev pub intent_taxonomy : List String
intent_taxonomy =
    "sales_inquiry" ∷ "quote_request" ∷ "technical_support" ∷ "escalation_request" ∷ "out_of_scope"
    ∷ "product_comparison" ∷ "product_compatibility" ∷ "accessory_recommendation"
    ∷ "product_finder_by_problem" ∷ "product_alternative" ∷ "specification_explainer"
    ∷ "product_recommendation_wizard" ∷ "use_case_recommendation" ∷ "installation_guidance"
    ∷ "troubleshooting" ∷ "warranty_information" ∷ "pdf_documentation_search"
    ∷ "availability_inquiry" ∷ "solution_builder" ∷ "human_handoff" ∷ []
