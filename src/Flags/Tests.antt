-- ===== src/Flags/Tests.antt =====
-- A resolution of flags, and the theorem about it at a concrete input.
use makkays_chatbot.Prelude.{[], ◌∷◌, ◌≡◌, refl, true, false, some, Dict}
use makkays_chatbot.Prelude.{strip, lower}
use makkays_chatbot.Flags.Schemas.{get_attr, default_flags}
use makkays_chatbot.Flags.Service.{
  RawValue, boolean, text, other, bool_of_text, coerce_bool, apply_overrides, force_disabled,
  from_dict, resolve_flags,
}
use makkays_chatbot.Flags.Resolution.{resolve_flags_lem}

abbrev overrides : Dict RawValue
overrides =
    ("enable_rag", text " False ")
    ∷ ("enable_crm", other)
    ∷ ("enable_voice_chat", boolean true)
    ∷ ("enable_magic", boolean true)
    ∷ []

resolve_run :
    let flags = resolve_flags default_flags (some overrides) in
    (flags.enable_rag ≡ false) × (flags.enable_crm ≡ true) × (flags.enable_voice_chat ≡ false)
unfolding resolve_flags apply_overrides force_disabled from_dict coerce_bool bool_of_text strip
    lower
resolve_run = (refl, refl, refl)

resolve_flags_lem_example :
    get_attr (resolve_flags default_flags (some overrides)) "enable_rag" ≡ some false
unfolding coerce_bool bool_of_text strip lower get_attr
resolve_flags_lem_example = resolve_flags_lem default_flags (some overrides) "enable_rag" refl
