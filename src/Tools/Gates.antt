-- ===== src/Tools/Gates.antt =====
-- A tool can act on the world only behind every gate of `execute_step` (app/tools/executor.py).
use makkays_chatbot.Prelude.{
  String, ◌≡◌, ◌⊎◌, refl, Bool, true, false, Option, none, some, Dict, lookup, contains, Bool-cases,
  inl, inr,
}
use makkays_chatbot.Flags.Schemas.{FeatureFlags}
use makkays_chatbot.Session.Schemas.{Plan}
use makkays_chatbot.Tools.Schemas.{
  Attempt, returned, raised, SecurityPolicySchema, PolicyCheckResult, allowed, denied,
  ExecutionContext, SessionContext,
}
use makkays_chatbot.Tools.Policy.{check}
use makkays_chatbot.Tools.Clauses.{Cleared, check-Cleared}
use makkays_chatbot.Tools.Registry.{ToolRegistry, get}
use makkays_chatbot.Tools.Executor.{
  Environment, Tool, RunState, AuditEntry, write_audit_entry, audit_if, count_result, deny_step,
  after_check, dispatch, execute_step,
}

module _ (env : Environment) (registry : ToolRegistry (Tool env) String)
    (policies : Dict SecurityPolicySchema) (plan : Plan) (session : SessionContext)
    (flags : FeatureFlags) where
  -- The step is planned, its tool is registered and switched on, it has a policy, and the intent, the
  -- state and the facts clear that policy.
  pub record Permitted (step : String) : Type 0 where
    pub in_plan : contains plan.steps step ≡ true
    pub tool : Tool env
    pub enabled : get registry step flags ≡ some tool
    pub policy : SecurityPolicySchema
    pub guarded : lookup step policies ≡ some policy
    pub cleared : Cleared policy plan.intent session

  world-audit_if :
      (b : Bool) (entry : AuditEntry) (s : RunState env) → (audit_if env b entry s).world ≡ s.world
  unfolding audit_if write_audit_entry
  world-audit_if false entry s = refl
  world-audit_if true entry s = elim (Bool-cases (Environment.accepts env entry s.world)) [
    | inl t ↦ rw t
    | inr f ↦ rw f
  ]

  after_check_world :
      (tool : Tool env) (policy : SecurityPolicySchema) (step : String) (context : ExecutionContext)
      (s : RunState env) (verdict : Attempt PolicyCheckResult)
      → ((after_check env registry policies plan session flags tool policy step context s
            verdict).1.world
          ≡ s.world)
        ⊎ (verdict ≡ returned allowed)
  unfolding after_check deny_step count_result
  after_check_world tool policy step context s (raised e) = inl refl
  after_check_world tool policy step context s (returned (denied c n)) =
      inl (world-audit_if policy.audit_log _ s)
  after_check_world tool policy step context s (returned allowed) = inr refl

  dispatch_gate :
      (step : String) (context : ExecutionContext) (s : RunState env) (found : Option (Tool env))
      (guard : Option SecurityPolicySchema)
      → contains plan.steps step ≡ true
      → get registry step flags ≡ found
      → lookup step policies ≡ guard
      → ((dispatch env registry policies plan session flags step context s found guard).1.world
          ≡ s.world)
        ⊎ Permitted step
  unfolding dispatch
  dispatch_gate step context s none guard on e g = inl refl
  dispatch_gate step context s (some tool) none on e g = inl refl
  dispatch_gate step context s (some tool) (some policy) on e g =
      elim (after_check_world tool policy step context
        (record s { store = (check env.redis policy plan.intent session s.store).1 })
        (check env.redis policy plan.intent session s.store).0) [
          | inl same ↦ inl same
          | inr passed ↦ inr (record {
            in_plan = on;
            tool = tool;
            enabled = e;
            policy = policy;
            guarded = g;
            cleared = check-Cleared env.redis policy plan.intent session s.store passed;
          })
        ]

  -- Either the step leaves the world of the tools as it is, or every gate was passed.
  pub execute_step_gate :
      (step : String) (context : ExecutionContext) (s : RunState env)
      → ((execute_step env registry policies plan session flags step context s).1.world ≡ s.world)
        ⊎ Permitted step
  unfolding execute_step
  execute_step_gate step context s = elim (Bool-cases (contains plan.steps step)) [
    | inr off ↦ inl (rw off)
    | inl on ↦
        rw on (
          dispatch_gate step context s (get registry step flags) (lookup step policies) on refl
            refl)
  ]
