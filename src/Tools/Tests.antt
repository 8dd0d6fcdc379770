-- ===== src/Tools/Tests.antt =====
-- Runs of the policies and of the executor, and their theorems at concrete inputs.
use makkays_chatbot.Prelude.{
  ℕ, suc, String, ◌≡◌, ◌≤◌, ◌↔◌, ◌≢◌, ◌⊎◌, refl, List, [], ◌∷◌, ◌++◌, true, false, none, some,
  lookup, All, codes, not, if◌then◌else◌, ◌==◌, eq_refl,
}
use mathlib.Core.Path.{subst, sym}
use makkays_chatbot.Shared.{IntentResult, tier1, certain}
use makkays_chatbot.Flags.Schemas.{default_flags}
use makkays_chatbot.Session.Schemas.{
  FactsSchema, ConversationStateSchema, Plan, empty_facts, empty_state,
}
use makkays_chatbot.Planner.{build_plan, filter_by_flags, is_open}
use makkays_chatbot.Planner.Rules.{plan_sales_inquiry, quote_slots_complete}
use makkays_chatbot.Tools.Schemas.{
  Attempt, returned, SecurityPolicySchema, allowed, ToolExecutionResult, SessionContext, has_fact,
}
use makkays_chatbot.Tools.RateLimit.{minute, parse_rate_limit, parse_rate_limit_format}
use makkays_chatbot.Tools.Policy.{
  Redis, check, check_limit, check_state, check_slots, after_state, after_slots, limit_clause,
  check_rate_limit, after_incr, rate_limit_key, contact_info_complete, missing_policies,
}
use makkays_chatbot.Tools.Clauses.{Cleared, holds, check_uncleared}
use makkays_chatbot.Tools.Registry.{ToolRegistry, registered_tool_names, get, is_enabled}
use makkays_chatbot.Tools.Catalog.{registrations, register_all, register_all-lookup}
use makkays_chatbot.Tools.Planned.{startup_policies, IsReady, build_plan-AreReady}
use makkays_chatbot.Tools.Limits.{CountsCalls, admitted_of, admitted_of_lem, check_counted}
use makkays_chatbot.Tools.Gates.{Permitted, execute_step_gate}
use makkays_chatbot.Tools.Effects.{IsNamed}
use makkays_chatbot.Tools.Runs.{PlanEffect, execute_plan-PlanEffect}
use makkays_chatbot.Tools.Executor.{
  Environment, RunState, Tool, execute_step, execute_steps, execute_plan, dispatch, after_check,
  after_step, aborts, deny_step, run_tool, or_failure, remember, audit_if, write_audit_entry,
  count_result,
}

-- A Redis in which no key expires.
abbrev counters : Redis
counters = record {
  Store = String → ℕ;
  incr =
      λ key store. (returned (suc (store key)), λ k. if key == k then suc (store key) else store k);
  expire = λ key window store. (returned tt, store);
}

counters-CountsCalls : CountsCalls counters
counters-CountsCalls = record {
  count = λ store key. store key;
  incr_returns = λ key store. refl;
  incr_adds = λ key store. rw eq_refl;
  expire_returns = λ key window store. refl;
  expire_keeps = λ key key' window store. refl;
}

abbrev no_calls : String → ℕ
no_calls key = 0

-- The world is the list of the tools that have run; every audit row is accepted.
abbrev env : Environment
env = record {
  World = List String;
  redis = counters;
  accepts = λ entry w. true;
  describe = λ e. "failed";
  repr = λ s. s;
}

-- Every tool succeeds but that of the quote.
abbrev implementation : String → Tool env
implementation name session context w = (
  returned (record {
    step = name;
    success = not (name == "generate_quote");
    result_summary = name;
    error = none;
    product_ids = none;
  }),
  w ++ name ∷ [],
)

abbrev registry : ToolRegistry (Tool env) String
registry = register_all implementation registrations

abbrev facts : FactsSchema
facts = record (empty_facts "t" "s") {
  company = some "Acme";
  product_interest = some "switch";
  quantity = some 4;
  budget = some (record { coefficient = 500; scale = 0 });
  contact_email = some "a@acme.example";
}

abbrev state : ConversationStateSchema
state = record (empty_state "t" "s") { contact_info_captured = true }

abbrev session : SessionContext
session = record {
  tenant_id = "t";
  session_id = "s";
  facts = facts;
  conversation_state = state;
  message = "a quote, please";
  recent_turns = [];
}

abbrev inquiry : IntentResult
inquiry = record {
  intent = "sales_inquiry";
  confidence = certain;
  source = tier1;
  candidates = "sales_inquiry" ∷ [];
  spec_question_detected = false;
}

abbrev plan : Plan
plan = record {
  intent = "sales_inquiry";
  steps = "retrieve_products" ∷ "generate_quote" ∷ "create_lead" ∷ "respond" ∷ [];
}

planned : build_plan inquiry facts state default_flags ≡ some plan
unfolding build_plan filter_by_flags is_open plan_sales_inquiry
planned = refl

-- Every registered tool has a policy.
startup_check : missing_policies startup_policies (registered_tool_names registry) ≡ []
unfolding missing_policies startup_policies registered_tool_names register_all
startup_check = refl

abbrev start : RunState env
start = record { world = []; store = no_calls; audit = []; metrics = [] }

execution : Unit {0}
unfolding execute_plan execute_steps execute_step after_step dispatch after_check deny_step run_tool
    or_failure remember audit_if write_audit_entry count_result aborts get is_enabled register_all
    startup_policies check check_state check_slots after_state after_slots check_limit limit_clause
    check_rate_limit after_incr parse_rate_limit rate_limit_key quote_slots_complete
execution = tt

-- The failed quote is critical: neither the lead nor the reply runs, and one row is written.
aborted_world :
    (execute_plan env registry startup_policies plan session default_flags start).1.world
    ≡ "retrieve_products" ∷ "generate_quote" ∷ []
unfolding execution
aborted_world = refl

parse_rate_limit_format_example : parse_rate_limit (codes "20/min") ≡ some (20, 60)
parse_rate_limit_format_example = parse_rate_limit_format b'2' (b'0' ∷ []) minute (refl, (refl, tt))

abbrev ran : List ToolExecutionResult
ran =
    record {
      step = "retrieve_products";
      success = true;
      result_summary = "retrieve_products";
      error = none;
      product_ids = none;
    }
    ∷ record {
      step = "generate_quote";
      success = false;
      result_summary = "generate_quote";
      error = none;
      product_ids = none;
    }
    ∷ []

aborted_run :
    (execute_plan env registry startup_policies plan session default_flags start).0 ≡ returned ran
unfolding execution
aborted_run = refl

step_of :
    {r r' : ToolExecutionResult} {w w' : List String}
    → ◌≡◌ {A = Attempt ToolExecutionResult × List String} (returned r, w) (returned r', w')
    → r'.step ≡ r.step
step_of q = cc

implementation-IsNamed :
    (name : String) (tool : Tool env)
    → lookup name registry.tools ≡ some tool
    → IsNamed env name tool
implementation-IsNamed name tool found =
    subst (IsNamed env name)
      (sym (register_all-lookup implementation registrations name tool found))
      (λ session context w w' result q. step_of q)

execute_plan-PlanEffect_example :
    PlanEffect env startup_policies "sales_inquiry" plan.steps start ran
      (execute_plan env registry startup_policies plan session default_flags start).1
execute_plan-PlanEffect_example =
    execute_plan-PlanEffect env startup_policies registry plan session default_flags
      (λ entry w. refl) implementation-IsNamed start
      (execute_plan env registry startup_policies plan session default_flags start).1 ran
      (λ i. (
        aborted_run i,
        (execute_plan env registry startup_policies plan session default_flags start).1,
      ))

execute_step_gate_example :
    ((execute_step env registry startup_policies plan session default_flags "respond" []
        start).1.world
      ≡ [])
    ⊎ Permitted env registry startup_policies plan session default_flags "respond"
execute_step_gate_example =
    execute_step_gate env registry startup_policies plan session default_flags "respond" [] start

abbrev lead_policy : SecurityPolicySchema
lead_policy = record {
  tool_name = "create_lead";
  allowed_intents = "sales_inquiry" ∷ [];
  required_state = "contact_info_complete" ∷ [];
  required_slots = [];
  rate_limit = some "5/min";
  audit_log = true;
}

lead-Cleared : Cleared lead_policy "sales_inquiry" session
unfolding holds has_fact contact_info_complete
lead-Cleared = record { intent_allowed = refl; state_met = (refl, tt); slots_filled = tt }

off_intent : ¬ Cleared lead_policy "out_of_scope" session
off_intent h = cc h.intent_allowed

check_uncleared_example :
    ((check counters lead_policy "out_of_scope" session no_calls).1 ≡ no_calls)
    × ((check counters lead_policy "out_of_scope" session no_calls).0 ≢ returned allowed)
check_uncleared_example =
    check_uncleared counters lead_policy "out_of_scope" session no_calls off_intent

-- Of eight calls in a minute, five leads are allowed.
admitted_of_lem_example : admitted_of counters lead_policy session 8 no_calls ≡ 5
unfolding parse_rate_limit counters-CountsCalls
admitted_of_lem_example =
    admitted_of_lem counters lead_policy session counters-CountsCalls "5/min" 5 60 refl refl 8
      no_calls

-- The first call of the window.
check_counted_example :
    let checked = check counters lead_policy "sales_inquiry" session no_calls in
    (checked.1 (rate_limit_key session "create_lead") ≡ 1)
    × ((checked.0 ≡ returned allowed) ↔ (1 ≤ 5))
unfolding parse_rate_limit counters-CountsCalls
check_counted_example =
    check_counted counters lead_policy session counters-CountsCalls "5/min" 5 60 refl refl
      "sales_inquiry" no_calls lead-Cleared

build_plan-AreReady_example :
    All (IsReady implementation session state default_flags "sales_inquiry") plan.steps
unfolding contact_info_complete
build_plan-AreReady_example =
    build_plan-AreReady implementation session state default_flags inquiry plan (λ h. refl) planned
