-- ===== src/Planner/Plans.antt =====
-- The plans of `TaskPlanner.build_plan` (app/planner/planner.py).
use makkays_chatbot.Prelude.{
  String, ◌≡◌, refl, true, some, List, [], ◌∷◌, lookup, keep, All, All-keep, All-keep_test,
  All-lookup, All-contains, All-is_subsequence, is_subsequence, is_subsequence-keep, last?,
  last?-keep, contains, Option-cases, inl, inr, is_some, some_inj, sym, ap, ◌∙◌, ◌↔◌, keep-eq-nil,
  All-all, All-all,
}
use makkays_chatbot.Shared.{IntentResult, intent_taxonomy}
use makkays_chatbot.Flags.Schemas.{FeatureFlags}
use makkays_chatbot.Session.Schemas.{FactsSchema, ConversationStateSchema, Plan}
use makkays_chatbot.Planner.{
  registered_steps, is_open, or_respond, filter_by_flags, unregistered, build_plan,
}
use makkays_chatbot.Planner.Rules.{RuleFn, rule_registry}
use makkays_chatbot.Planner.RuleLaws.{step_order, Meets, IsSound, rules-IsSound}

pub or_respond_of_last :
    (steps : List String) (a : String) → last? steps ≡ some a → or_respond steps ≡ steps
or_respond_of_last [] a h = cc
or_respond_of_last (s ∷ ss) a h = refl

unregistered_of_ordered :
    (steps : List String) → is_subsequence steps step_order ≡ true → unregistered steps ≡ []
unfolding unregistered
unregistered_of_ordered steps h =
    keep-eq-nil (contains registered_steps) steps (
      All-is_subsequence _ steps step_order (All-all (contains registered_steps) step_order refl) h)

module _ (facts : FactsSchema) (state : ConversationStateSchema) (flags : FeatureFlags)
    (intent_result : IntentResult) where
  pub filter_by_flags_lem :
      (steps : List String)
      → last? steps ≡ some "respond"
      → filter_by_flags steps flags ≡ keep (is_open flags) steps
  unfolding filter_by_flags is_open
  filter_by_flags_lem steps h =
      or_respond_of_last _ "respond" (last?-keep (is_open flags) steps "respond" h refl)

  keep-IsSound :
      (steps : List String)
      → IsSound facts state flags intent_result steps
      → IsSound facts state flags intent_result (keep (is_open flags) steps)
  keep-IsSound steps s = record {
    ends = last?-keep (is_open flags) steps "respond" s.ends (unfold is_open in refl);
    ordered = is_subsequence-keep (is_open flags) steps step_order s.ordered;
    met = All-keep (Meets facts state flags intent_result) (is_open flags) steps s.met;
  }

  -- A plan comes from the rule that is registered for its intent.
  pub build_plan_source :
      (plan : Plan)
      → build_plan intent_result facts state flags ≡ some plan
      → (rule : RuleFn) × (lookup intent_result.intent rule_registry ≡ some rule)
        × (plan.intent ≡ intent_result.intent)
        × (plan.steps ≡ filter_by_flags (or_respond (rule facts state flags intent_result)) flags)
  unfolding build_plan
  build_plan_source plan h = elim (Option-cases (lookup intent_result.intent rule_registry)) [
    | inl e ↦ cc (rw (e, build_plan) at h)
    | inr (rule, e) ↦
        let same = some_inj (rw (e, build_plan) at h) in
        (rule, e, ap (λ (p : Plan). p.intent) (sym same), ap (λ (p : Plan). p.steps) (sym same))
  ]

  -- A plan is what its registered rule plans, less the steps whose flag is off.
  pub build_plan_kept :
      (plan : Plan)
      → build_plan intent_result facts state flags ≡ some plan
      → (rule : RuleFn) × (lookup intent_result.intent rule_registry ≡ some rule)
        × IsSound facts state flags intent_result (rule facts state flags intent_result)
        × (plan.steps ≡ keep (is_open flags) (rule facts state flags intent_result))
        × (plan.intent ≡ intent_result.intent)
  build_plan_kept plan h =
      let (rule, found, intent, steps) = build_plan_source plan h in
      let planned = rule facts state flags intent_result in
      let sound =
        All-lookup
          (λ _ f.
            (fs : FactsSchema) (st : ConversationStateSchema) (fl : FeatureFlags)
            (ir : IntentResult)
            → IsSound fs st fl ir (f fs st fl ir))
          rule_registry intent_result.intent rule rules-IsSound found facts state flags
          intent_result in
      let kept : plan.steps ≡ filter_by_flags planned flags =
        steps
        ∙ ap (λ ss. filter_by_flags ss flags) (or_respond_of_last planned "respond" sound.ends) in
      (rule, found, sound, kept ∙ filter_by_flags_lem planned sound.ends, intent)

  -- The plan of an intent has that intent. It ends with the reply; its steps are registered and are
  -- a subsequence of `step_order`, so none stands twice; each has its feature flag on; and each
  -- meets its precondition: a quote or a direct solution has its flag and its slots, a lead has its
  -- flag and captured contact details.
  pub build_plan-IsSound :
      (plan : Plan)
      → build_plan intent_result facts state flags ≡ some plan
      → IsSound facts state flags intent_result plan.steps
        × All (λ step. is_open flags step ≡ true) plan.steps
        × (unregistered plan.steps ≡ [])
        × (plan.intent ≡ intent_result.intent)
  build_plan-IsSound plan h =
      let (rule, found, sound, kept, intent) = build_plan_kept plan h in
      let planned = rule facts state flags intent_result in
      let kept_sound : IsSound facts state flags intent_result plan.steps =
        rw kept (keep-IsSound planned sound) in
      (
        kept_sound,
        rw kept (All-keep_test (is_open flags) planned),
        unregistered_of_ordered plan.steps kept_sound.ordered,
        intent,
      )

  build_plan_some :
      is_some (build_plan intent_result facts state flags)
      ≡ is_some (lookup intent_result.intent rule_registry)
  unfolding build_plan
  build_plan_some = elim (Option-cases (lookup intent_result.intent rule_registry)) [
    | inl e ↦ rw (e, build_plan)
    | inr (rule, e) ↦ rw (e, build_plan)
  ]

  build_plan_each :
      contains intent_taxonomy intent_result.intent ≡ true
      → is_some (build_plan intent_result facts state flags) ≡ true
  unfolding lookup
  build_plan_each h =
      build_plan_some
      ∙ All-contains (λ i. is_some (lookup i rule_registry) ≡ true) intent_taxonomy
          intent_result.intent
          (All-all (λ i. is_some (lookup i rule_registry)) intent_taxonomy refl) h

  build_plan_only :
      is_some (build_plan intent_result facts state flags) ≡ true
      → contains intent_taxonomy intent_result.intent ≡ true
  build_plan_only h = elim (Option-cases (lookup intent_result.intent rule_registry)) [
    | inl e ↦ cc (rw (build_plan_some, e) at h)
    | inr (rule, e) ↦
        All-lookup (λ intent _. contains intent_taxonomy intent ≡ true) rule_registry
          intent_result.intent rule
          (All-all (λ entry. contains intent_taxonomy entry.0) rule_registry refl) e
  ]

  -- There is a plan exactly for the intents of the taxonomy.
  pub build_plan-IsTotal :
      (is_some (build_plan intent_result facts state flags) ≡ true)
      ↔ (contains intent_taxonomy intent_result.intent ≡ true)
  build_plan-IsTotal = (build_plan_only, build_plan_each)
