-- ===== src/Tools/Runs.antt =====
-- What a run of `ToolExecutor.execute_plan` (app/tools/executor.py) has done when it returns.
use makkays_chatbot.Prelude.{
  String, ◌≡◌, ◌∙◌, refl, sym, List, [], ◌∷◌, ◌++◌, Bool, true, false, ◌&&◌, not, Option, none,
  some, Dict, lookup, contains, map, keep, if◌then◌else◌, Bool-cases, inl, inr, append-nil,
  append_assoc, is_subsequence, is_subsequence-cons, is_subsequence-cons_cons,
}
use mathlib.Core.Path.{subst₂}
use makkays_chatbot.Flags.Schemas.{FeatureFlags}
use makkays_chatbot.Session.Schemas.{Plan}
use makkays_chatbot.Tools.Schemas.{
  Attempt, returned, raised, SecurityPolicySchema, ToolExecutionResult, ExecutionContext,
  SessionContext,
}
use makkays_chatbot.Tools.Registry.{ToolRegistry}
use makkays_chatbot.Tools.Steps.{execute_step_skip}
use makkays_chatbot.Tools.Effects.{IsNamed, row, is_audited, StepEffect, execute_step-StepEffect}
use makkays_chatbot.Tools.Executor.{
  Environment, AuditEntry, Tool, RunState, critical_steps, execute_step, aborts, add_result,
  after_step, execute_steps, execute_plan,
}

-- A failure of a critical step.
abbrev pub is_fatal : ToolExecutionResult → Bool
is_fatal result = not result.success && contains critical_steps result.step

-- Only the last result may be fatal.
abbrev pub Uninterrupted : List ToolExecutionResult → Type 0
Uninterrupted [] = Unit
Uninterrupted (r ∷ []) = Unit
Uninterrupted (r ∷ r' ∷ rs) = (is_fatal r ≡ false) × Uninterrupted (r' ∷ rs)

Uninterrupted-cons :
    (r : ToolExecutionResult) (rs : List ToolExecutionResult)
    → is_fatal r ≡ false
    → Uninterrupted rs
    → Uninterrupted (r ∷ rs)
Uninterrupted-cons r [] h k = tt
Uninterrupted-cons r (r' ∷ rs) h k = (h, k)

rows-cons :
    {A B : Type 0} (f : A → B) (b : Bool) (r : A) (rs : List A) (rows : List B)
    → (rows ++ (if b then f r ∷ [] else [])) ++ map f rs ≡ rows ++ map f (if b then r ∷ rs else rs)
rows-cons f true r rs rows = append_assoc rows (f r ∷ []) (map f rs)
rows-cons f false r rs rows = rw (append-nil rows)

module _ (env : Environment) (policies : Dict SecurityPolicySchema) where
  -- One count of the metric for each result, one audit row for each result of an audited step, and
  -- no step out of the plan's order.
  pub record PlanEffect (intent : String) (steps : List String) (s : RunState env)
      (results : List ToolExecutionResult) (s' : RunState env) : Type 0 where
    pub counted : s'.metrics ≡ s.metrics ++ map (λ r. (r.step, r.success)) results
    pub audited :
        s'.audit
        ≡ s.audit ++ map (row env intent) (keep (λ r. is_audited env policies r.step) results)
    pub in_order : is_subsequence (map (λ r. r.step) results) steps ≡ true
    pub uninterrupted : Uninterrupted results

  PlanEffect-nil :
      (intent : String) (steps : List String) (s : RunState env) → PlanEffect intent steps s [] s
  unfolding is_subsequence
  PlanEffect-nil intent steps s = record {
    counted = sym (append-nil s.metrics);
    audited = sym (append-nil s.audit);
    in_order = refl;
    uninterrupted = tt;
  }

  PlanEffect-skip :
      (intent step : String) (steps : List String) (s s' : RunState env)
      (results : List ToolExecutionResult)
      → PlanEffect intent steps s results s'
      → PlanEffect intent (step ∷ steps) s results s'
  PlanEffect-skip intent step steps s s' results e = record {
    counted = e.counted;
    audited = e.audited;
    in_order = is_subsequence-cons step _ steps e.in_order;
    uninterrupted = e.uninterrupted;
  }

  PlanEffect-cons :
      (intent step : String) (steps : List String) (s s' s'' : RunState env)
      (r : ToolExecutionResult) (rs : List ToolExecutionResult)
      → StepEffect env policies intent step s r s'
      → PlanEffect intent steps s' rs s''
      → Uninterrupted (r ∷ rs)
      → PlanEffect intent (step ∷ steps) s (r ∷ rs) s''
  PlanEffect-cons intent step steps s s' s'' r rs e es u = record {
    counted = es.counted ∙ rw e.counted (append_assoc s.metrics ((r.step, r.success) ∷ []) _);
    audited =
        es.audited
        ∙ rw e.audited (rows-cons (row env intent) (is_audited env policies r.step) r _ s.audit);
    in_order = rw e.named (is_subsequence-cons_cons step _ steps es.in_order);
    uninterrupted = u;
  }

  module _ (registry : ToolRegistry (Tool env) String) (plan : Plan) (session : SessionContext)
      (flags : FeatureFlags)
      (accepted : (entry : AuditEntry) (w : Environment.World env)
        → Environment.accepts env entry w ≡ true)
      (named : (name : String) (tool : Tool env)
        → lookup name registry.tools ≡ some tool
        → IsNamed env name tool) where
    -- What the rest of the plan guarantees.
    abbrev RestEffect :
        List String
        → (ExecutionContext → RunState env → Attempt (List ToolExecutionResult) × RunState env)
        → Type 0
    RestEffect steps rest =
        (context : ExecutionContext) (s s' : RunState env) (results : List ToolExecutionResult)
        → rest context s ≡ (returned results, s')
        → PlanEffect plan.intent steps s results s'

    -- The step and what is left after it, when it has a result that is not fatal.
    add_result-PlanEffect :
        (step : String) (steps : List String) (s s' s'' : RunState env) (r : ToolExecutionResult)
        (results : List ToolExecutionResult)
        (outcome : Attempt (List ToolExecutionResult) × RunState env)
        → StepEffect env policies plan.intent step s r s'
        → aborts step r ≡ false
        → ((t : RunState env) (rs : List ToolExecutionResult)
            → outcome ≡ (returned rs, t)
            → PlanEffect plan.intent steps s' rs t)
        → add_result r outcome ≡ (returned results, s'')
        → PlanEffect plan.intent (step ∷ steps) s results s''
    unfolding aborts
    add_result-PlanEffect step steps s s' s'' r results (raised x, t) e go k q = cc
    add_result-PlanEffect step steps s s' s'' r results (returned rs, t) e go k q =
        let same : r ∷ rs ≡ results = cc in
        let ended : t ≡ s'' = cc in
        subst₂ (λ out end. PlanEffect plan.intent (step ∷ steps) s out end) same ended
          (PlanEffect-cons plan.intent step steps s s' t r rs e (k t rs refl)
            (Uninterrupted-cons r rs (rw e.named go) (k t rs refl).uninterrupted))

    after_step-PlanEffect :
        (step : String) (steps : List String) (context : ExecutionContext) (s s' : RunState env)
        (results : List ToolExecutionResult)
        (rest : ExecutionContext → RunState env → Attempt (List ToolExecutionResult) × RunState env)
        (outcome : Attempt (Option ToolExecutionResult × ExecutionContext) × RunState env)
        → execute_step env registry policies plan session flags step context s ≡ outcome
        → RestEffect steps rest
        → after_step step rest outcome ≡ (returned results, s')
        → PlanEffect plan.intent (step ∷ steps) s results s'
    unfolding after_step
    after_step-PlanEffect step steps context s s' results rest (raised x, t) ran k q = cc
    after_step-PlanEffect step steps context s s' results rest (returned (none, c), t) ran k q =
        let same =
          (execute_step_skip env registry policies plan session flags step context c s t ran).0 in
        PlanEffect-skip plan.intent step steps s s' results (rw same (k c t s' results q))
    after_step-PlanEffect step steps context s s' results rest (returned (some r, c), t) ran k q =
        let e =
          execute_step-StepEffect env policies registry plan session flags accepted step context s r
            c t (named step) ran in
        elim (Bool-cases (aborts step r)) [
          | inl stop ↦
              let cut = rw stop at q in
              let same : r ∷ [] ≡ results = cc cut in
              let ended : t ≡ s' = cc cut in
              subst₂ (λ out end. PlanEffect plan.intent (step ∷ steps) s out end) same ended
                (PlanEffect-cons plan.intent step steps s t t r [] e
                  (PlanEffect-nil plan.intent steps t) tt)
          | inr go ↦
              add_result-PlanEffect step steps s t s' r results (rest c t) e go
                (λ t' rs. k c t t' rs) (rw go at q)
        ]

    execute_steps-PlanEffect :
        (steps : List String)
        → RestEffect steps (execute_steps env registry policies plan session flags steps)
    unfolding execute_steps
    execute_steps-PlanEffect [] context s s' results q =
        let same : [] ≡ results = cc in
        let ended : s ≡ s' = cc in
        subst₂ (λ out end. PlanEffect plan.intent [] s out end) same ended
          (PlanEffect-nil plan.intent [] s)
    execute_steps-PlanEffect (step ∷ steps) context s s' results q =
        after_step-PlanEffect step steps context s s' results
          (execute_steps env registry policies plan session flags steps)
          (execute_step env registry policies plan session flags step context s) refl
          (execute_steps-PlanEffect steps) q

    -- If every tool names its results as it is registered and the audit table accepts its rows, a
    -- plan that returns has counted each result once in the tool metric and written one audit row for
    -- each result of an audited step, in the order of the results, and nothing else there. The
    -- results stand in the order of the plan's steps, and none but the last is the failure of a
    -- critical step.
    pub execute_plan-PlanEffect :
        (s s' : RunState env) (results : List ToolExecutionResult)
        → execute_plan env registry policies plan session flags s ≡ (returned results, s')
        → PlanEffect plan.intent plan.steps s results s'
    unfolding execute_plan
    execute_plan-PlanEffect s s' results q = execute_steps-PlanEffect plan.steps [] s s' results q
