-- ===== src/Flags/Schemas.antt =====
-- app/flags/schemas.py: the snapshot of feature flags that the planner and the tools read.
use makkays_chatbot.Prelude.{String, List, [], ◌∷◌, Bool, true, false, Option, Dict, lookup}

pub record FeatureFlags : Type 0 where
  pub enable_rag : Bool
  pub enable_quotes : Bool
  pub enable_crm : Bool
  pub enable_tickets : Bool
  pub enable_image_upload : Bool
  pub enable_llm_clarification_rewrite : Bool
  pub enable_product_comparison : Bool
  pub enable_compatibility_check : Bool
  pub enable_accessory_recommendation : Bool
  pub enable_pdf_search : Bool
  pub enable_solution_builder : Bool
  pub enable_wizard : Bool
  pub enable_use_case_recommendation : Bool
  pub enable_human_handoff : Bool
  pub enable_availability_check : Bool
  pub enable_multi_language : Bool
  pub enable_voice_chat : Bool
  pub enable_image_understanding : Bool

-- flags.model_dump(): the flags by name.
abbrev pub model_dump : FeatureFlags → Dict Bool
model_dump f =
    ("enable_rag", f.enable_rag)
    ∷ ("enable_quotes", f.enable_quotes)
    ∷ ("enable_crm", f.enable_crm)
    ∷ ("enable_tickets", f.enable_tickets)
    ∷ ("enable_image_upload", f.enable_image_upload)
    ∷ ("enable_llm_clarification_rewrite", f.enable_llm_clarification_rewrite)
    ∷ ("enable_product_comparison", f.enable_product_comparison)
    ∷ ("enable_compatibility_check", f.enable_compatibility_check)
    ∷ ("enable_accessory_recommendation", f.enable_accessory_recommendation)
    ∷ ("enable_pdf_search", f.enable_pdf_search)
    ∷ ("enable_solution_builder", f.enable_solution_builder)
    ∷ ("enable_wizard", f.enable_wizard)
    ∷ ("enable_use_case_recommendation", f.enable_use_case_recommendation)
    ∷ ("enable_human_handoff", f.enable_human_handoff)
    ∷ ("enable_availability_check", f.enable_availability_check)
    ∷ ("enable_multi_language", f.enable_multi_language)
    ∷ ("enable_voice_chat", f.enable_voice_chat)
    ∷ ("enable_image_understanding", f.enable_image_understanding)
    ∷ []

-- getattr(flags, name)
unfoldable pub get_attr : FeatureFlags → String → Option Bool
unfolding lookup
get_attr f name = lookup name (model_dump f)

-- The defaults of the model's fields.
abbrev pub default_flags : FeatureFlags
default_flags = record {
  enable_rag = true;
  enable_quotes = true;
  enable_crm = true;
  enable_tickets = true;
  enable_image_upload = false;
  enable_llm_clarification_rewrite = false;
  enable_product_comparison = true;
  enable_compatibility_check = true;
  enable_accessory_recommendation = true;
  enable_pdf_search = true;
  enable_solution_builder = true;
  enable_wizard = true;
  enable_use_case_recommendation = true;
  enable_human_handoff = true;
  enable_availability_check = false;
  enable_multi_language = false;
  enable_voice_chat = false;
  enable_image_understanding = false;
}

-- FORCED_DISABLED_FLAGS
abbrev pub forced_disabled_flags : List String
forced_disabled_flags = "enable_voice_chat" ∷ "enable_image_understanding" ∷ []
