-- ===== src/Tools/Effects.antt =====
-- What one step of `ToolExecutor` (app/tools/executor.py) does to the metric and the audit log, and
-- what a whole plan does.
use makkays_chatbot.Prelude.{
  String, ◌≡◌, refl, sym, ap, [], ◌∷◌, ◌++◌, Bool, true, false, Option, none, some, Dict, lookup,
  if◌then◌else◌, append-nil,
}
use mathlib.Core.Path.{subst₂}
use makkays_chatbot.Flags.Schemas.{FeatureFlags}
use makkays_chatbot.Session.Schemas.{Plan}
use makkays_chatbot.Tools.Schemas.{
  Attempt, returned, raised, SecurityPolicySchema, PolicyCheckResult, allowed, denied,
  ToolExecutionResult, ExecutionContext, SessionContext,
}
use makkays_chatbot.Tools.Policy.{check}
use makkays_chatbot.Tools.Registry.{ToolRegistry}
use makkays_chatbot.Tools.Steps.{execute_step-Reached}
use makkays_chatbot.Tools.Executor.{
  Environment, AuditEntry, Tool, RunState, or_failure, denial_reason, audit_if, deny_step, run_tool,
  count_result, after_check, execute_step,
}

-- The parts of a finished step.
module _ {R C S : Type 0} {r r' : R} {c c' : C} {s s' : S} where
  result_of :
      ◌≡◌ {A = Attempt (Option R × C) × S} (returned (some r, c), s) (returned (some r', c'), s')
      → r ≡ r'
  result_of q = cc

  state_of :
      ◌≡◌ {A = Attempt (Option R × C) × S} (returned (some r, c), s) (returned (some r', c'), s')
      → s ≡ s'
  state_of q = cc

module _ (env : Environment) where
  -- A tool that names its results as it is registered.
  abbrev pub IsNamed : String → Tool env → Type 0
  IsNamed name tool =
      (session : SessionContext) (context : ExecutionContext) (w w' : Environment.World env)
      (result : ToolExecutionResult)
      → tool session context w ≡ (returned result, w')
      → result.step ≡ name

  -- The audit row of a result.
  abbrev pub row : String → ToolExecutionResult → AuditEntry
  row intent result = record {
    tool_name = result.step;
    intent = intent;
    is_allowed = result.success;
    denial_reason = result.error;
  }

  module _ (policies : Dict SecurityPolicySchema) where
    abbrev is_audited_by : Option SecurityPolicySchema → Bool
    is_audited_by none = false
    is_audited_by (some policy) = policy.audit_log

    -- Whether the policy of a step asks for an audit row.
    unfoldable pub is_audited : String → Bool
    unfolding lookup
    is_audited step = is_audited_by (lookup step policies)

    pub record StepEffect (intent step : String) (s : RunState env) (result : ToolExecutionResult)
        (s' : RunState env) : Type 0 where
      pub named : result.step ≡ step
      pub counted : s'.metrics ≡ s.metrics ++ (result.step, result.success) ∷ []
      pub audited :
          s'.audit ≡ s.audit ++ (if is_audited result.step then row intent result ∷ [] else [])

    module _ (registry : ToolRegistry (Tool env) String) (plan : Plan) (session : SessionContext)
        (flags : FeatureFlags)
        (accepted : (entry : AuditEntry) (w : Environment.World env)
          → Environment.accepts env entry w ≡ true) where
      audit_if_lem :
          (b : Bool) (entry : AuditEntry) (s : RunState env)
          → (audit_if env b entry s).audit ≡ s.audit ++ (if b then entry ∷ [] else [])
      unfolding audit_if
      audit_if_lem true entry s = rw (accepted entry s.world)
      audit_if_lem false entry s = sym (append-nil s.audit)

      metrics-audit_if :
          (b : Bool) (entry : AuditEntry) (s : RunState env)
          → (audit_if env b entry s).metrics ≡ s.metrics
      unfolding audit_if
      metrics-audit_if true entry s = rw (accepted entry s.world)
      metrics-audit_if false entry s = refl

      deny_step-StepEffect :
          (policy : SecurityPolicySchema) (step reason : String) (s : RunState env)
          → lookup step policies ≡ some policy
          → StepEffect plan.intent step s
              (deny_step env policy step plan.intent reason s).0
              (deny_step env policy step plan.intent reason s).1
      unfolding deny_step count_result is_audited
      deny_step-StepEffect policy step reason s found = record {
        named = refl;
        counted = ap (λ m. m ++ (step, false) ∷ []) (metrics-audit_if policy.audit_log _ s);
        audited = rw found (audit_if_lem policy.audit_log _ s);
      }

      step-or_failure :
          (tool : Tool env) (step : String) (context : ExecutionContext)
          (w w' : Environment.World env) (attempt : Attempt ToolExecutionResult)
          → IsNamed step tool
          → tool session context w ≡ (attempt, w')
          → (or_failure env step attempt).step ≡ step
      unfolding or_failure
      step-or_failure tool step context w w' (returned r) h q = h session context w w' r q
      step-or_failure tool step context w w' (raised e) h q = refl

      run_tool-StepEffect :
          (tool : Tool env) (policy : SecurityPolicySchema) (step : String)
          (context : ExecutionContext) (s : RunState env)
          → IsNamed step tool
          → lookup step policies ≡ some policy
          → StepEffect plan.intent step s
              (run_tool env tool policy step plan.intent session context s).0.0
              (run_tool env tool policy step plan.intent session context s).1
      unfolding run_tool count_result is_audited
      run_tool-StepEffect tool policy step context s h found =
          let attempt = (tool session context s.world).0 in
          let named =
            step-or_failure tool step context s.world (tool session context s.world).1 attempt h
              refl in
          record {
            named = named;
            counted = rw named (metrics-audit_if policy.audit_log _ _);
            audited = rw (named, found) (audit_if_lem policy.audit_log _ _);
          }

      after_check-StepEffect :
          (tool : Tool env) (policy : SecurityPolicySchema) (step : String)
          (context : ExecutionContext) (s : RunState env) (verdict : Attempt PolicyCheckResult)
          (result : ToolExecutionResult) (context' : ExecutionContext) (s' : RunState env)
          → IsNamed step tool
          → lookup step policies ≡ some policy
          → after_check env registry policies plan session flags tool policy step context s verdict
            ≡ (returned (some result, context'), s')
          → StepEffect plan.intent step s result s'
      unfolding after_check
      after_check-StepEffect tool policy step context s (raised e) result context' s' h found q = cc
      after_check-StepEffect tool policy step context s (returned (denied c n)) result context' s' h
            found q =
          subst₂ (λ r t. StepEffect plan.intent step s r t) (result_of q) (state_of q)
            (deny_step-StepEffect policy step (denial_reason env c n) s found)
      after_check-StepEffect tool policy step context s (returned allowed) result context' s' h
            found q =
          subst₂ (λ r t. StepEffect plan.intent step s r t) (result_of q) (state_of q)
            (run_tool-StepEffect tool policy step context s h found)

      -- Every result of a step has its effect, if the tools are named.
      pub execute_step-StepEffect :
          (step : String) (context : ExecutionContext) (s : RunState env)
          (result : ToolExecutionResult) (context' : ExecutionContext) (s' : RunState env)
          → ((tool : Tool env) → lookup step registry.tools ≡ some tool → IsNamed step tool)
          → execute_step env registry policies plan session flags step context s
            ≡ (returned (some result, context'), s')
          → StepEffect plan.intent step s result s'
      execute_step-StepEffect step context s result context' s' h q =
          let r =
            execute_step-Reached env registry policies plan session flags step context s result
              context' s' q in
          let e =
            after_check-StepEffect r.tool r.policy step context
              (record s { store = (check env.redis r.policy plan.intent session s.store).1 })
              (check env.redis r.policy plan.intent session s.store).0 result context' s'
              (h r.tool r.registered) r.guarded r.followed in
          record { named = e.named; counted = e.counted; audited = e.audited }
