-- ===== src/Tools/Planned.antt =====
-- The planner and the policies fit together: a planned step has its tool and its policy, and nothing but
-- a rate limit can refuse it (app/planner/planner.py, app/tools/policy.py, security_policies/).
use makkays_chatbot.Prelude.{
  String, ◌≡◌, refl, List, [], ◌∷◌, Bool, true, false, Option, none, some, Dict, lookup, insert,
  contains, All, All-all, All-contains, All-is_subsequence, all, arith,
}
use makkays_chatbot.Shared.{IntentResult, intent_taxonomy}
use makkays_chatbot.Flags.Schemas.{FeatureFlags}
use makkays_chatbot.Session.Schemas.{ConversationStateSchema, Plan}
use makkays_chatbot.Planner.{is_open, build_plan}
use makkays_chatbot.Planner.Rules.{contact_info_newly_captured}
use makkays_chatbot.Planner.RuleLaws.{step_order, precondition}
use makkays_chatbot.Planner.Plans.{build_plan-IsSound, build_plan-IsTotal}
use makkays_chatbot.Planner.Menus.{menu, build_plan-menu}
use makkays_chatbot.Tools.Schemas.{SecurityPolicySchema, SessionContext, has_fact}
use makkays_chatbot.Tools.Policy.{load, contact_info_complete}
use makkays_chatbot.Tools.Clauses.{Cleared, holds}
use makkays_chatbot.Tools.Registry.{get}
use makkays_chatbot.Tools.Catalog.{policy_files, registrations, register_all}

abbrev or_empty : Option (Dict SecurityPolicySchema) → Dict SecurityPolicySchema
or_empty none = []
or_empty (some d) = d

-- What `PolicyRegistry.load` makes of the policy files.
unfoldable pub startup_policies : Dict SecurityPolicySchema
unfolding load lookup insert
startup_policies = or_empty (load policy_files [])

abbrev allowed_by : Option SecurityPolicySchema → String → Bool
allowed_by none intent = false
allowed_by (some policy) intent = contains policy.allowed_intents intent

allows : String → String → Bool
unfolding startup_policies
allows intent step = allowed_by (lookup step startup_policies) intent

module _ {Tool : Type 0} (implementation : String → Tool) (session : SessionContext)
    (state : ConversationStateSchema) (flags : FeatureFlags) (intent : String) where
  -- The tool is there and switched on, and the clauses of its policy hold.
  pub record IsReady (step : String) : Type 0 where
    pub available :
        get (register_all implementation registrations) step flags ≡ some (implementation step)
    pub policy : SecurityPolicySchema
    pub guarded : lookup step startup_policies ≡ some policy
    pub cleared : Cleared policy intent session

  module _
      (captured : contact_info_newly_captured state ≡ true
        → contact_info_complete session.facts session.conversation_state ≡ true) where
    abbrev Ripe : String → Type 0
    Ripe step =
        is_open flags step ≡ true
        → precondition session.facts state flags step ≡ true
        → allows intent step ≡ true
        → IsReady step

    retrieve_products-Ripe : Ripe "retrieve_products"
    unfolding is_open precondition allows startup_policies get register_all holds has_fact
        contact_info_complete
    retrieve_products-Ripe open_now met listed = record {
      available = ground arith;
      policy = _;
      guarded = refl;
      cleared = record { intent_allowed = listed; state_met = tt; slots_filled = tt };
    }

    retrieve_docs-Ripe : Ripe "retrieve_docs"
    unfolding is_open precondition allows startup_policies get register_all holds has_fact
        contact_info_complete
    retrieve_docs-Ripe open_now met listed = record {
      available = ground arith;
      policy = _;
      guarded = refl;
      cleared = record { intent_allowed = listed; state_met = tt; slots_filled = tt };
    }

    compare-Ripe : Ripe "compare"
    unfolding is_open precondition allows startup_policies get register_all holds has_fact
        contact_info_complete
    compare-Ripe open_now met listed = record {
      available = ground arith;
      policy = _;
      guarded = refl;
      cleared = record { intent_allowed = listed; state_met = tt; slots_filled = tt };
    }

    generate_quote-Ripe : Ripe "generate_quote"
    unfolding is_open precondition allows startup_policies get register_all holds has_fact
        contact_info_complete
    generate_quote-Ripe open_now met listed = record {
      available = ground arith;
      policy = _;
      guarded = refl;
      cleared = record {
        intent_allowed = listed;
        state_met = ground arith;
        slots_filled = ground arith;
      };
    }

    request_missing_slots-Ripe : Ripe "request_missing_slots"
    unfolding is_open precondition allows startup_policies get register_all holds has_fact
        contact_info_complete
    request_missing_slots-Ripe open_now met listed = record {
      available = ground arith;
      policy = _;
      guarded = refl;
      cleared = record { intent_allowed = listed; state_met = tt; slots_filled = tt };
    }

    create_lead-Ripe : Ripe "create_lead"
    unfolding is_open precondition allows startup_policies get register_all holds has_fact
        contact_info_complete
    create_lead-Ripe open_now met listed = record {
      available = ground arith;
      policy = _;
      guarded = refl;
      cleared = record {
        intent_allowed = listed;
        state_met = (captured (ground arith), tt);
        slots_filled = tt;
      };
    }

    compare_products-Ripe : Ripe "compare_products"
    unfolding is_open precondition allows startup_policies get register_all holds has_fact
        contact_info_complete
    compare_products-Ripe open_now met listed = record {
      available = ground arith;
      policy = _;
      guarded = refl;
      cleared = record { intent_allowed = listed; state_met = tt; slots_filled = tt };
    }

    check_compatibility-Ripe : Ripe "check_compatibility"
    unfolding is_open precondition allows startup_policies get register_all holds has_fact
        contact_info_complete
    check_compatibility-Ripe open_now met listed = record {
      available = ground arith;
      policy = _;
      guarded = refl;
      cleared = record { intent_allowed = listed; state_met = tt; slots_filled = tt };
    }

    recommend_accessories-Ripe : Ripe "recommend_accessories"
    unfolding is_open precondition allows startup_policies get register_all holds has_fact
        contact_info_complete
    recommend_accessories-Ripe open_now met listed = record {
      available = ground arith;
      policy = _;
      guarded = refl;
      cleared = record { intent_allowed = listed; state_met = tt; slots_filled = tt };
    }

    find_alternatives-Ripe : Ripe "find_alternatives"
    unfolding is_open precondition allows startup_policies get register_all holds has_fact
        contact_info_complete
    find_alternatives-Ripe open_now met listed = record {
      available = ground arith;
      policy = _;
      guarded = refl;
      cleared = record { intent_allowed = listed; state_met = tt; slots_filled = tt };
    }

    check_availability-Ripe : Ripe "check_availability"
    unfolding is_open precondition allows startup_policies get register_all holds has_fact
        contact_info_complete
    check_availability-Ripe open_now met listed = record {
      available = ground arith;
      policy = _;
      guarded = refl;
      cleared = record { intent_allowed = listed; state_met = tt; slots_filled = tt };
    }

    explain_specification-Ripe : Ripe "explain_specification"
    unfolding is_open precondition allows startup_policies get register_all holds has_fact
        contact_info_complete
    explain_specification-Ripe open_now met listed = record {
      available = ground arith;
      policy = _;
      guarded = refl;
      cleared = record { intent_allowed = listed; state_met = tt; slots_filled = tt };
    }

    build_solution-Ripe : Ripe "build_solution"
    unfolding is_open precondition allows startup_policies get register_all holds has_fact
        contact_info_complete
    build_solution-Ripe open_now met listed = record {
      available = ground arith;
      policy = _;
      guarded = refl;
      cleared = record { intent_allowed = listed; state_met = tt; slots_filled = tt };
    }

    run_wizard-Ripe : Ripe "run_wizard"
    unfolding is_open precondition allows startup_policies get register_all holds has_fact
        contact_info_complete
    run_wizard-Ripe open_now met listed = record {
      available = ground arith;
      policy = _;
      guarded = refl;
      cleared = record { intent_allowed = listed; state_met = tt; slots_filled = tt };
    }

    build_use_case_solution-Ripe : Ripe "build_use_case_solution"
    unfolding is_open precondition allows startup_policies get register_all holds has_fact
        contact_info_complete
    build_use_case_solution-Ripe open_now met listed = record {
      available = ground arith;
      policy = _;
      guarded = refl;
      cleared = record { intent_allowed = listed; state_met = tt; slots_filled = tt };
    }

    initiate_handoff-Ripe : Ripe "initiate_handoff"
    unfolding is_open precondition allows startup_policies get register_all holds has_fact
        contact_info_complete
    initiate_handoff-Ripe open_now met listed = record {
      available = ground arith;
      policy = _;
      guarded = refl;
      cleared = record { intent_allowed = listed; state_met = tt; slots_filled = tt };
    }

    respond-Ripe : Ripe "respond"
    unfolding is_open precondition allows startup_policies get register_all holds has_fact
        contact_info_complete
    respond-Ripe open_now met listed = record {
      available = ground arith;
      policy = _;
      guarded = refl;
      cleared = record { intent_allowed = listed; state_met = tt; slots_filled = tt };
    }

    steps-Ripe : All Ripe step_order
    steps-Ripe = (
      retrieve_products-Ripe,
      (
        retrieve_docs-Ripe,
        (
          compare-Ripe,
          (
            generate_quote-Ripe,
            (
              request_missing_slots-Ripe,
              (
                create_lead-Ripe,
                (
                  compare_products-Ripe,
                  (
                    check_compatibility-Ripe,
                    (
                      recommend_accessories-Ripe,
                      (
                        find_alternatives-Ripe,
                        (
                          check_availability-Ripe,
                          (
                            explain_specification-Ripe,
                            (
                              build_solution-Ripe,
                              (
                                run_wizard-Ripe,
                                (
                                  build_use_case_solution-Ripe,
                                  (initiate_handoff-Ripe, (respond-Ripe, tt)),
                                ),
                              ),
                            ),
                          ),
                        ),
                      ),
                    ),
                  ),
                ),
              ),
            ),
          ),
        ),
      ),
    )

    steps-AreReady :
        (steps : List String)
        → All Ripe steps
        → All (λ step. is_open flags step ≡ true) steps
        → All (λ step. precondition session.facts state flags step ≡ true) steps
        → All (λ step. allows intent step ≡ true) steps
        → All IsReady steps
    steps-AreReady [] r o m l = tt
    steps-AreReady (step ∷ steps) r o m l = (r.0 o.0 m.0 l.0, steps-AreReady steps r.1 o.1 m.1 l.1)

allows-menu :
    (intent : String)
    → contains intent_taxonomy intent ≡ true
    → all (allows intent) (menu intent) ≡ true
unfolding allows startup_policies menu
allows-menu intent h =
    All-contains (λ i. all (allows i) (menu i) ≡ true) intent_taxonomy intent
      (All-all (λ i. all (allows i) (menu i)) intent_taxonomy refl) h

module _ {Tool : Type 0} (implementation : String → Tool) where
  -- With the policies and the registrations of the repository, and if captured contact details are
  -- on file when the state says so: every step of a plan has its tool registered and switched on and
  -- its policy loaded, and the plan's intent, the state and the facts clear that policy. So only a
  -- rate limit can refuse a planned step.
  pub build_plan-AreReady :
      (session : SessionContext) (state : ConversationStateSchema) (flags : FeatureFlags)
      (intent_result : IntentResult) (plan : Plan)
      → (contact_info_newly_captured state ≡ true
          → contact_info_complete session.facts session.conversation_state ≡ true)
      → build_plan intent_result session.facts state flags ≡ some plan
      → All (IsReady implementation session state flags plan.intent) plan.steps
  build_plan-AreReady session state flags intent_result plan captured h =
      let (sound, open_steps, _, intent) =
        build_plan-IsSound session.facts state flags intent_result plan h in
      let known = (build_plan-IsTotal session.facts state flags intent_result).0 (rw h refl) in
      let on_menu = build_plan-menu session.facts state flags intent_result plan h in
      let listed =
        All-is_subsequence (λ step. allows plan.intent step ≡ true) plan.steps (menu plan.intent)
          (All-all (allows plan.intent) (menu plan.intent)
            (allows-menu plan.intent (rw intent known)))
          on_menu in
      let ripe =
        All-is_subsequence _ plan.steps step_order
          (steps-Ripe implementation session state flags plan.intent captured) sound.ordered in
      steps-AreReady implementation session state flags plan.intent captured plan.steps ripe
        open_steps sound.met listed
