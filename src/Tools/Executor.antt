-- ===== src/Tools/Executor.antt =====
-- app/tools/executor.py: `ToolExecutor.execute_plan` and `execute_step`.
--
-- A tool is a function of the session, the results so far and the world, which it may change; it
-- returns a result or raises. The world, Redis and whether an audit row can be written are
-- parameters. The state of a run has the world, the counters of Redis, the audit rows written and the
-- increments of the tool metric.
use makkays_chatbot.Prelude.{
  String, List, [], ◌∷◌, ◌++◌, Bool, false, ◌&&◌, not, Option, none, some, Dict, lookup, insert,
  concat, contains, if◌then◌else◌,
}
use makkays_chatbot.Flags.Schemas.{FeatureFlags}
use makkays_chatbot.Session.Schemas.{Plan}
use makkays_chatbot.Tools.Schemas.{
  Error, plan_violation, Attempt, returned, raised, SecurityPolicySchema, Clause, intent_clause,
  state_clause, slots_clause, rate_limit_clause, PolicyCheckResult, allowed, denied,
  ToolExecutionResult, ExecutionContext, context_fields, SessionContext,
}
use makkays_chatbot.Tools.Policy.{Redis, check}
use makkays_chatbot.Tools.Registry.{ToolRegistry, get}

-- CRITICAL_STEPS
abbrev pub critical_steps : List String
critical_steps = "generate_quote" ∷ "create_lead" ∷ []

-- A failed critical step ends the loop.
unfoldable pub aborts : String → ToolExecutionResult → Bool
aborts step result = not result.success && contains critical_steps step

module _ {S : Type 0} where
  abbrev pub add_result :
      ToolExecutionResult
      → Attempt (List ToolExecutionResult) × S
      → Attempt (List ToolExecutionResult) × S
  add_result result (returned results, s) = (returned (result ∷ results), s)
  add_result result (raised e, s) = (raised e, s)

  -- One round of the loop; `rest` runs the steps after it.
  unfoldable pub after_step :
      String
      → (ExecutionContext → S → Attempt (List ToolExecutionResult) × S)
      → Attempt (Option ToolExecutionResult × ExecutionContext) × S
      → Attempt (List ToolExecutionResult) × S
  after_step step rest (raised e, s) = (raised e, s)
  after_step step rest (returned (none, context), s) = rest context s
  after_step step rest (returned (some result, context), s) =
      if aborts step result then (returned (result ∷ []), s) else add_result result (rest context s)

pub record AuditEntry : Type 0 where
  pub tool_name : String
  pub intent : String
  pub is_allowed : Bool
  pub denial_reason : Option String

pub record Environment : Type 1 where
  pub World : Type 0
  pub redis : Redis
  -- whether the insert of an audit row succeeds
  pub accepts : AuditEntry → World → Bool
  -- str(exc), and repr of a text
  pub describe : Error → String
  pub repr : String → String

module _ (env : Environment) where
  open env use {World, accepts, describe, repr}

  abbrev pub Tool : Type 0
  Tool = SessionContext → ExecutionContext → World → Attempt ToolExecutionResult × World

  pub record RunState : Type 0 where
    pub world : World
    pub store : Redis.Store env.redis
    pub audit : List AuditEntry
    pub metrics : List (String × Bool)

  -- PolicyCheckResult.reason
  unfoldable pub denial_reason : Clause → String → String
  denial_reason intent_clause name = concat ("intent " ∷ repr name ∷ " not in allowed_intents" ∷ [])
  denial_reason state_clause name =
      concat ("required_state predicate " ∷ repr name ∷ " failed" ∷ [])
  denial_reason slots_clause name = concat ("required slot " ∷ repr name ∷ " is missing" ∷ [])
  denial_reason rate_limit_clause name = concat ("rate limit " ∷ repr name ∷ " exceeded" ∷ [])

  -- _write_audit_entry: a failed insert is logged and nothing else.
  unfoldable pub write_audit_entry : AuditEntry → RunState → RunState
  write_audit_entry entry s =
      if accepts entry s.world then record s { audit = s.audit ++ entry ∷ [] } else s

  -- `if policy.audit_log: await self._write_audit_entry(…)`
  unfoldable pub audit_if : Bool → AuditEntry → RunState → RunState
  unfolding write_audit_entry
  audit_if audited entry s = if audited then write_audit_entry entry s else s

  unfoldable pub count_result : String → Bool → RunState → RunState
  count_result step success s = record s { metrics = s.metrics ++ (step, success) ∷ [] }

  abbrev pub failure : String → String → ToolExecutionResult
  failure step reason = record {
    step = step;
    success = false;
    result_summary = "";
    error = some reason;
    product_ids = none;
  }

  -- The branch on a refusal by the policy.
  unfoldable pub deny_step :
      SecurityPolicySchema → String → String → String → RunState → ToolExecutionResult × RunState
  deny_step policy step intent reason s = (
    failure step reason,
    count_result step false (
        audit_if policy.audit_log
          (record {
            tool_name = step;
            intent = intent;
            is_allowed = false;
            denial_reason = some reason;
          })
          s),
  )

  -- `except Exception`: a tool that raises has failed.
  unfoldable pub or_failure : String → Attempt ToolExecutionResult → ToolExecutionResult
  or_failure step (returned result) = result
  or_failure step (raised e) = failure step (describe e)

  -- setattr(context, step, result), if the context has the field
  unfoldable pub remember : String → ToolExecutionResult → ExecutionContext → ExecutionContext
  unfolding insert
  remember step result context =
      if contains context_fields step then insert step result context else context

  -- The call of the tool and what follows it.
  unfoldable pub run_tool :
      Tool
      → SecurityPolicySchema
      → String
      → String
      → SessionContext
      → ExecutionContext
      → RunState
      → (ToolExecutionResult × ExecutionContext) × RunState
  run_tool tool policy step intent session context s =
      let (attempt, world) = tool session context s.world in
      let result = or_failure step attempt in
      (
        (result, remember step result context),
        audit_if policy.audit_log
            (record {
              tool_name = step;
              intent = intent;
              is_allowed = result.success;
              denial_reason = result.error;
            })
            (count_result step result.success (record s { world = world })),
      )

  module _ (registry : ToolRegistry Tool String) (policies : Dict SecurityPolicySchema)
      (plan : Plan) (session : SessionContext) (flags : FeatureFlags) where
    -- What follows the check of the policy.
    unfoldable pub after_check :
        Tool
        → SecurityPolicySchema
        → String
        → ExecutionContext
        → RunState
        → Attempt PolicyCheckResult
        → Attempt (Option ToolExecutionResult × ExecutionContext) × RunState
    after_check tool policy step context s (raised e) = (raised e, s)
    after_check tool policy step context s (returned (denied clause name)) =
        let (result, s') = deny_step policy step plan.intent (denial_reason clause name) s in
        (returned (some result, context), s')
    after_check tool policy step context s (returned allowed) =
        let ((result, context'), s') = run_tool tool policy step plan.intent session context s in
        (returned (some result, context'), s')

    -- The step with its tool and its policy, if there are any. `none` as the result is the
    -- log-and-skip of a step that lacks one.
    unfoldable pub dispatch :
        String
        → ExecutionContext
        → RunState
        → Option Tool
        → Option SecurityPolicySchema
        → Attempt (Option ToolExecutionResult × ExecutionContext) × RunState
    dispatch step context s none _ = (returned (none, context), s)
    dispatch step context s (some tool) none = (returned (none, context), s)
    dispatch step context s (some tool) (some policy) =
        let (result, store) = check env.redis policy plan.intent session s.store in
        after_check tool policy step context (record s { store = store }) result

    unfoldable pub execute_step :
        String
        → ExecutionContext
        → RunState
        → Attempt (Option ToolExecutionResult × ExecutionContext) × RunState
    execute_step step context s =
        if contains plan.steps step
        then dispatch step context s (get registry step flags) (lookup step policies)
        else (raised (plan_violation step), s)

    -- The loop over the steps of the plan. An exception leaves the state as it is.
    unfoldable pub execute_steps :
        List String → ExecutionContext → RunState → Attempt (List ToolExecutionResult) × RunState
    execute_steps [] context s = (returned [], s)
    execute_steps (step ∷ steps) context s =
        after_step step (execute_steps steps) (execute_step step context s)

    unfoldable pub execute_plan : RunState → Attempt (List ToolExecutionResult) × RunState
    execute_plan s = execute_steps plan.steps [] s
