-- ===== src/Tools/Steps.antt =====
-- When `execute_step` (app/tools/executor.py) has a result: the gates that were passed before.
use makkays_chatbot.Prelude.{
  String, ◌≡◌, ◌≢◌, ◌∙◌, refl, true, Option, none, some, Dict, lookup, contains, Bool-cases,
  Option-cases, inl, inr,
}
use makkays_chatbot.Flags.Schemas.{FeatureFlags}
use makkays_chatbot.Session.Schemas.{Plan}
use makkays_chatbot.Tools.Schemas.{
  Attempt, returned, raised, SecurityPolicySchema, PolicyCheckResult, allowed, denied,
  ToolExecutionResult, ExecutionContext, SessionContext,
}
use makkays_chatbot.Tools.Policy.{check}
use makkays_chatbot.Tools.Registry.{ToolRegistry, get, is_enabled}
use makkays_chatbot.Tools.Executor.{
  Environment, Tool, RunState, after_check, dispatch, execute_step,
}

get_source :
    {Tool Schema : Type 0} (r : ToolRegistry Tool Schema) (name : String) (flags : FeatureFlags)
    (fn : Tool)
    → get r name flags ≡ some fn
    → (lookup name r.tools ≡ some fn) × (is_enabled r name flags ≡ true)
unfolding get
get_source r name flags fn q = elim (Option-cases (lookup name r.tools)) [
  | inl e ↦ cc (rw (e, get) at q)
  | inr (f, e) ↦ elim (Bool-cases (is_enabled r name flags)) [
    | inl t ↦ (e ∙ rw (e, t, get) at q, t)
    | inr n ↦ cc (rw (e, n, get) at q)
  ]
]

module _ (env : Environment) (registry : ToolRegistry (Tool env) String)
    (policies : Dict SecurityPolicySchema) (plan : Plan) (session : SessionContext)
    (flags : FeatureFlags) where
  -- The gates before the policy's verdict.
  pub record Reached (step : String) (context : ExecutionContext) (s : RunState env)
      (outcome : Attempt (Option ToolExecutionResult × ExecutionContext) × RunState env)
      : Type 0 where
    pub in_plan : contains plan.steps step ≡ true
    pub tool : Tool env
    pub registered : lookup step registry.tools ≡ some tool
    pub enabled : is_enabled registry step flags ≡ true
    pub policy : SecurityPolicySchema
    pub guarded : lookup step policies ≡ some policy
    pub followed :
        after_check env registry policies plan session flags tool policy step context
          (record s { store = (check env.redis policy plan.intent session s.store).1 })
          (check env.redis policy plan.intent session s.store).0
        ≡ outcome

  dispatch-Reached :
      (step : String) (context context' : ExecutionContext) (s s' : RunState env)
      (result : ToolExecutionResult) (found : Option (Tool env))
      (guard : Option SecurityPolicySchema)
      → contains plan.steps step ≡ true
      → get registry step flags ≡ found
      → lookup step policies ≡ guard
      → dispatch env registry policies plan session flags step context s found guard
        ≡ (returned (some result, context'), s')
      → Reached step context s (returned (some result, context'), s')
  unfolding dispatch
  dispatch-Reached step context context' s s' result none guard on e g q = cc
  dispatch-Reached step context context' s s' result (some tool) none on e g q = cc
  dispatch-Reached step context context' s s' result (some tool) (some policy) on e g q =
      let (registered, enabled) = get_source registry step flags tool e in
      record {
        in_plan = on;
        tool = tool;
        registered = registered;
        enabled = enabled;
        policy = policy;
        guarded = g;
        followed = q;
      }

  pub execute_step-Reached :
      (step : String) (context : ExecutionContext) (s : RunState env) (result : ToolExecutionResult)
      (context' : ExecutionContext) (s' : RunState env)
      → execute_step env registry policies plan session flags step context s
        ≡ (returned (some result, context'), s')
      → Reached step context s (returned (some result, context'), s')
  unfolding execute_step
  execute_step-Reached step context s result context' s' q =
      elim (Bool-cases (contains plan.steps step)) [
        | inr off ↦ cc (rw off at q)
        | inl on ↦
            dispatch-Reached step context context' s s' result (get registry step flags)
              (lookup step policies) on refl refl (rw on at q)
      ]

  after_check-ne-none :
      (tool : Tool env) (policy : SecurityPolicySchema) (step : String)
      (context context' : ExecutionContext) (s s' : RunState env)
      (verdict : Attempt PolicyCheckResult)
      → after_check env registry policies plan session flags tool policy step context s verdict
        ≢ (returned (none, context'), s')
  unfolding after_check
  after_check-ne-none tool policy step context context' s s' (raised e) q = cc
  after_check-ne-none tool policy step context context' s s' (returned (denied c n)) q = cc
  after_check-ne-none tool policy step context context' s s' (returned allowed) q = cc

  dispatch_skip :
      (step : String) (context context' : ExecutionContext) (s s' : RunState env)
      (found : Option (Tool env)) (guard : Option SecurityPolicySchema)
      → dispatch env registry policies plan session flags step context s found guard
        ≡ (returned (none, context'), s')
      → (s ≡ s') × (context ≡ context')
  unfolding dispatch
  dispatch_skip step context context' s s' none guard q = (cc, cc)
  dispatch_skip step context context' s s' (some tool) none q = (cc, cc)
  dispatch_skip step context context' s s' (some tool) (some policy) q =
      absurd (after_check-ne-none tool policy step context context' _ s' _ q)

  -- A step without a result changes nothing.
  pub execute_step_skip :
      (step : String) (context context' : ExecutionContext) (s s' : RunState env)
      → execute_step env registry policies plan session flags step context s
        ≡ (returned (none, context'), s')
      → (s ≡ s') × (context ≡ context')
  unfolding execute_step
  execute_step_skip step context context' s s' q = elim (Bool-cases (contains plan.steps step)) [
    | inr off ↦ cc (rw off at q)
    | inl on ↦
        dispatch_skip step context context' s s' (get registry step flags) (lookup step policies)
          (rw on at q)
  ]
