-- ===== src/Flags/Resolution.antt =====
-- What each flag is after the service of app/flags/service.py has resolved it.
use makkays_chatbot.Prelude.{
  String, List, [], ◌∷◌, ◌≡◌, refl, ap, ◌∙◌, Bool, true, false, Option, none, some, Dict, lookup,
  insert, lookup-insert, contains, All, All-contains, ◌==◌, eq_iff, if◌then◌else◌, Bool-cases, inl,
  inr,
}
use makkays_chatbot.Flags.Schemas.{
  FeatureFlags, model_dump, get_attr, default_flags, forced_disabled_flags,
}
use makkays_chatbot.Flags.Service.{
  valid_flag_names, RawValue, coerce_bool, write_flag, apply_overrides, force_disabled, or_default,
  from_dict, or_no_overrides, resolve_flags,
}

-- The last usable override of a name, or else the setting.
abbrev pub overridden : String → Dict RawValue → Bool → Bool
overridden name [] setting = setting
overridden name ((other, raw) ∷ rest) setting =
    overridden name rest (if other == name then or_default setting (coerce_bool raw) else setting)

-- What a flag should be.
abbrev pub effective : FeatureFlags → Option (Dict RawValue) → String → Bool
effective settings overrides name =
    if contains forced_disabled_flags name
    then false
    else overridden name (or_no_overrides overrides) (or_default false (get_attr settings name))

-- The field of a name is its entry, or the default of the field.
abbrev ReadsBack : String → Type 0
ReadsBack name =
    (d : Dict Bool)
    → get_attr (from_dict d) name
      ≡ some (or_default (or_default false (get_attr default_flags name)) (lookup name d))

get_attr-from_dict : All ReadsBack valid_flag_names
unfolding from_dict get_attr
get_attr-from_dict = (
  λ d. refl,
  (
    λ d. refl,
    (
      λ d. refl,
      (
        λ d. refl,
        (
          λ d. refl,
          (
            λ d. refl,
            (
              λ d. refl,
              (
                λ d. refl,
                (
                  λ d. refl,
                  (
                    λ d. refl,
                    (
                      λ d. refl,
                      (
                        λ d. refl,
                        (
                          λ d. refl,
                          (λ d. refl, (λ d. refl, (λ d. refl, (λ d. refl, (λ d. refl, tt))))),
                        ),
                      ),
                    ),
                  ),
                ),
              ),
            ),
          ),
        ),
      ),
    ),
  ),
)

from_dict-lookup :
    (name : String) (d : Dict Bool) (b : Bool)
    → contains valid_flag_names name ≡ true
    → lookup name d ≡ some b
    → get_attr (from_dict d) name ≡ some b
from_dict-lookup name d b valid here =
    All-contains ReadsBack valid_flag_names name get_attr-from_dict valid d
    ∙ ap (λ o. some (or_default (or_default false (get_attr default_flags name)) o)) here

abbrev HasFlag : FeatureFlags → String → Type 0
HasFlag settings name = get_attr settings name ≡ some (or_default false (get_attr settings name))

settings_has : (settings : FeatureFlags) → All (HasFlag settings) valid_flag_names
unfolding get_attr
settings_has settings = (
  refl,
  (
    refl,
    (
      refl,
      (
        refl,
        (
          refl,
          (
            refl,
            (
              refl,
              (
                refl,
                (refl, (refl, (refl, (refl, (refl, (refl, (refl, (refl, (refl, (refl, tt)))))))))),
              ),
            ),
          ),
        ),
      ),
    ),
  ),
)

lookup-write_flag :
    (name other : String) (found : Option Bool) (d : Dict Bool) (b : Bool)
    → lookup name d ≡ some b
    → lookup name (write_flag other found d)
      ≡ some (if other == name then or_default b found else b)
lookup-write_flag name other none d b here = elim (Bool-cases (other == name)) [
  | inl t ↦ rw t here
  | inr f ↦ rw f here
]
lookup-write_flag name other (some c) d b here = elim (Bool-cases (other == name)) [
  | inl t ↦ rw (lookup-insert, t)
  | inr f ↦ rw (lookup-insert, f) here
]

lookup-apply_overrides :
    (overrides : Dict RawValue) (name : String) (d : Dict Bool) (b : Bool)
    → contains valid_flag_names name ≡ true
    → lookup name d ≡ some b
    → lookup name (apply_overrides overrides d) ≡ some (overridden name overrides b)
unfolding apply_overrides
lookup-apply_overrides [] name d b valid here = here
lookup-apply_overrides ((other, raw) ∷ rest) name d b valid here =
    elim (Bool-cases (contains valid_flag_names other)) [
      | inl known ↦ rw known (
          lookup-apply_overrides rest name (write_flag other (coerce_bool raw) d) _ valid
            (lookup-write_flag name other (coerce_bool raw) d b here))
      | inr unknown ↦ elim (Bool-cases (other == name)) [
        | inl same ↦
            let bad : contains valid_flag_names other ≡ true =
              rw ((eq_iff other name).0 same) valid in
            cc (bad, unknown)
        | inr apart ↦ rw (unknown, apart) (lookup-apply_overrides rest name d b valid here)
      ]
    ]

both_false : (b : Bool) → (if b then false else false) ≡ false
both_false true = refl
both_false false = refl

lookup-force_disabled :
    (names : List String) (name : String) (d : Dict Bool) (b : Bool)
    → lookup name d ≡ some b
    → lookup name (force_disabled names d) ≡ some (if contains names name then false else b)
unfolding force_disabled
lookup-force_disabled [] name d b here = here
lookup-force_disabled (other ∷ names) name d b here = elim (Bool-cases (other == name)) [
  | inl same ↦ rw same (
      lookup-force_disabled names name (insert other false d) false (rw (lookup-insert, same))
      ∙ ap some (both_false (contains names name)))
  | inr apart ↦
      rw apart
        (lookup-force_disabled names name (insert other false d) b (rw (lookup-insert, apart) here))
]

dumped :
    (settings : FeatureFlags) (name : String)
    → contains valid_flag_names name ≡ true
    → lookup name (model_dump settings) ≡ some (or_default false (get_attr settings name))
unfolding get_attr
dumped settings name valid =
    All-contains (HasFlag settings) valid_flag_names name (settings_has settings) valid

-- Each flag is off if it is one of those that are always off; else it has the last usable override
-- of its name, or the setting if there is none or if the overrides could not be read.
pub resolve_flags_lem :
    (settings : FeatureFlags) (overrides : Option (Dict RawValue)) (name : String)
    → contains valid_flag_names name ≡ true
    → get_attr (resolve_flags settings overrides) name ≡ some (effective settings overrides name)
unfolding resolve_flags
resolve_flags_lem settings overrides name valid =
    let setting : lookup name (model_dump settings)
        ≡ some (or_default false (get_attr settings name)) =
      dumped settings name valid in
    from_dict-lookup name _ _ valid (
      lookup-force_disabled forced_disabled_flags name _ _ (
        lookup-apply_overrides (or_no_overrides overrides) name (model_dump settings) _ valid
          setting))
