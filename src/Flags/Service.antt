-- ===== src/Flags/Service.antt =====
-- app/flags/service.py: the flags of a tenant, from the settings, the overrides in the database and
-- the flags that are always off.
--
-- The cache is the `TTLCache` of cachetools, a parameter: what it has for a tenant, and what it is
-- after a write. `none` for the overrides is a read that raises. The settings have the same names as
-- the flags (`FeatureFlagDefaults` of app/config.py).
use makkays_chatbot.Prelude.{
  String, List, [], ◌∷◌, Bool, true, false, ◌||◌, Option, none, some, Dict, lookup, insert,
  contains, codes, strip, lower, same_codes, map, if◌then◌else◌,
}
use makkays_chatbot.Shared.{Uuid}
use makkays_chatbot.Flags.Schemas.{FeatureFlags, model_dump, default_flags, forced_disabled_flags}

-- VALID_FLAG_NAMES
abbrev pub valid_flag_names : List String
valid_flag_names = map (λ e. e.0) (model_dump default_flags)

-- A value of the override table.
pub data RawValue : Type 0 where
  boolean : Bool → RawValue
  text : String → RawValue
  other : RawValue

-- _VALID_BOOL_STRINGS.get(value.strip().lower())
unfoldable pub bool_of_text : String → Option Bool
unfolding strip lower
bool_of_text value =
    let word = lower (strip value) in
    if same_codes word (codes "true") || same_codes word (codes "1")
    then some true
    else if same_codes word (codes "false") || same_codes word (codes "0")
    then some false
    else none

-- _coerce_bool
unfoldable pub coerce_bool : RawValue → Option Bool
unfolding bool_of_text
coerce_bool (boolean b) = some b
coerce_bool (text s) = bool_of_text s
coerce_bool other = none

abbrev pub write_flag : String → Option Bool → Dict Bool → Dict Bool
write_flag name none merged = merged
write_flag name (some b) merged = insert name b merged

-- The loop over the overrides: an unknown name or an unusable value is left out.
unfoldable pub apply_overrides : Dict RawValue → Dict Bool → Dict Bool
unfolding coerce_bool insert
apply_overrides [] merged = merged
apply_overrides ((name, raw) ∷ rest) merged =
    apply_overrides rest
      (if contains valid_flag_names name then write_flag name (coerce_bool raw) merged else merged)

-- The loop over FORCED_DISABLED_FLAGS.
unfoldable pub force_disabled : List String → Dict Bool → Dict Bool
unfolding insert
force_disabled [] merged = merged
force_disabled (name ∷ names) merged = force_disabled names (insert name false merged)

abbrev pub or_default : Bool → Option Bool → Bool
or_default b none = b
or_default b (some c) = c

-- FeatureFlags(**merged)
unfoldable pub from_dict : Dict Bool → FeatureFlags
unfolding lookup
from_dict d = record {
  enable_rag = or_default true (lookup "enable_rag" d);
  enable_quotes = or_default true (lookup "enable_quotes" d);
  enable_crm = or_default true (lookup "enable_crm" d);
  enable_tickets = or_default true (lookup "enable_tickets" d);
  enable_image_upload = or_default false (lookup "enable_image_upload" d);
  enable_llm_clarification_rewrite = or_default false (lookup "enable_llm_clarification_rewrite" d);
  enable_product_comparison = or_default true (lookup "enable_product_comparison" d);
  enable_compatibility_check = or_default true (lookup "enable_compatibility_check" d);
  enable_accessory_recommendation = or_default true (lookup "enable_accessory_recommendation" d);
  enable_pdf_search = or_default true (lookup "enable_pdf_search" d);
  enable_solution_builder = or_default true (lookup "enable_solution_builder" d);
  enable_wizard = or_default true (lookup "enable_wizard" d);
  enable_use_case_recommendation = or_default true (lookup "enable_use_case_recommendation" d);
  enable_human_handoff = or_default true (lookup "enable_human_handoff" d);
  enable_availability_check = or_default false (lookup "enable_availability_check" d);
  enable_multi_language = or_default false (lookup "enable_multi_language" d);
  enable_voice_chat = or_default false (lookup "enable_voice_chat" d);
  enable_image_understanding = or_default false (lookup "enable_image_understanding" d);
}

abbrev pub or_no_overrides : Option (Dict RawValue) → Dict RawValue
or_no_overrides none = []
or_no_overrides (some overrides) = overrides

-- What `resolve` computes when the cache has nothing.
unfoldable pub resolve_flags : FeatureFlags → Option (Dict RawValue) → FeatureFlags
unfolding apply_overrides force_disabled from_dict
resolve_flags settings overrides = from_dict (
    force_disabled forced_disabled_flags
      (apply_overrides (or_no_overrides overrides) (model_dump settings)))

pub record TtlCache : Type 1 where
  pub Cache : Type 0
  pub get_cached : Uuid → Cache → Option FeatureFlags
  pub set_cached : Uuid → FeatureFlags → Cache → Cache

module _ (ttl : TtlCache) (settings : FeatureFlags) where
  open ttl use {Cache, get_cached, set_cached}

  abbrev after_lookup :
      Uuid → Option (Dict RawValue) → Cache → Option FeatureFlags → FeatureFlags × Cache
  after_lookup tenant overrides cache (some cached) = (cached, cache)
  after_lookup tenant overrides cache none =
      let flags = resolve_flags settings overrides in (flags, set_cached tenant flags cache)

  -- FeatureFlagsService.resolve
  unfoldable pub resolve_for : Uuid → Option (Dict RawValue) → Cache → FeatureFlags × Cache
  unfolding resolve_flags
  resolve_for tenant overrides cache = after_lookup tenant overrides cache (get_cached tenant cache)
