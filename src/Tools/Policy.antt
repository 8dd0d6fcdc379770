-- ===== src/Tools/Policy.antt =====
-- app/tools/policy.py: the check of one tool's policy, and the registry of policies.
--
-- Redis is a parameter: an `incr` that may raise, an `expire` that may raise, and the counters that
-- they act on. Loading takes the parsed YAML files as a list.
use makkays_chatbot.Prelude.{
  ℕ, String, List, [], ◌∷◌, Bool, ◌||◌, not, Option, none, some, Dict, lookup, insert, keep, leb,
  eqb, codes, concat, contains, is_some, if◌then◌else◌, all,
}
use makkays_chatbot.Session.Schemas.{FactsSchema, ConversationStateSchema}
use makkays_chatbot.Planner.Rules.{quote_slots_complete}
use makkays_chatbot.Tools.RateLimit.{parse_rate_limit}
use makkays_chatbot.Tools.Schemas.{
  bad_rate_limit, missing_key, Attempt, returned, raised, SecurityPolicySchema, intent_clause,
  state_clause, slots_clause, rate_limit_clause, PolicyCheckResult, allowed, denied, SessionContext,
  has_fact,
}

abbrev pub Predicate : Type 0
Predicate = FactsSchema → ConversationStateSchema → Bool

unfoldable pub contact_info_complete : Predicate
contact_info_complete facts state = is_some facts.contact_email || is_some facts.contact_phone

-- PREDICATE_REGISTRY
abbrev pub predicate_registry : Dict Predicate
predicate_registry =
    ("quote_slots_complete", λ facts state. quote_slots_complete facts)
    ∷ ("contact_info_complete", contact_info_complete)
    ∷ []

-- What Redis does for the program: both calls return the new counters, also when they raise.
pub record Redis : Type 1 where
  pub Store : Type 0
  pub incr : String → Store → Attempt ℕ × Store
  pub expire : String → ℕ → Store → Attempt (Unit {0}) × Store

-- The loop over `required_state`: the first predicate that fails.
unfoldable pub check_state :
    FactsSchema → ConversationStateSchema → List String → Attempt PolicyCheckResult
unfolding lookup
check_state facts state [] = returned allowed
check_state facts state (name ∷ names) =
    let rest = check_state facts state names in
    elim (lookup name predicate_registry) [
      | none ↦ raised (missing_key name)
      | some predicate ↦ if predicate facts state then rest else returned (denied state_clause name)
    ]

-- The loop over `required_slots`: the first fact that is missing.
unfoldable pub check_slots : FactsSchema → List String → PolicyCheckResult
unfolding has_fact
check_slots facts [] = allowed
check_slots facts (slot ∷ slots) =
    let rest = check_slots facts slots in
    if has_fact facts slot then rest else denied slots_clause slot

-- f"rate_limit:tool:{tenant_id}:{session_id}:{tool_name}"
unfoldable pub rate_limit_key : SessionContext → String → String
rate_limit_key session tool =
    concat ("rate_limit:tool:" ∷ session.tenant_id ∷ ":" ∷ session.session_id ∷ ":" ∷ tool ∷ [])

module _ (redis : Redis) where
  open redis use {Store, incr, expire}

  -- What follows the increment: the window starts with the first call.
  unfoldable pub after_incr : String → ℕ → ℕ → Attempt ℕ × Store → Attempt Bool × Store
  after_incr key limit window (raised e, store) = (raised e, store)
  after_incr key limit window (returned count, store) =
      if eqb count 1
      then (
        elim (expire key window store).0 [
          | returned _ ↦ returned (leb count limit)
          | raised e ↦ raised e
        ],
        (expire key window store).1,
      )
      else (returned (leb count limit), store)

  -- _check_rate_limit
  unfoldable pub check_rate_limit : SessionContext → String → String → Store → Attempt Bool × Store
  check_rate_limit session tool rate_limit store = elim (parse_rate_limit (codes rate_limit)) [
    | none ↦ (raised (bad_rate_limit rate_limit), store)
    | some (limit, window) ↦
        let key = rate_limit_key session tool in after_incr key limit window (incr key store)
  ]

  abbrev pub within_limit : String → Attempt Bool × Store → Attempt PolicyCheckResult × Store
  within_limit rate_limit (raised e, store) = (raised e, store)
  within_limit rate_limit (returned within, store) =
      (returned (if within then allowed else denied rate_limit_clause rate_limit), store)

  -- The last clause of the check.
  unfoldable pub limit_clause :
      Option String
      → SecurityPolicySchema
      → SessionContext
      → Store
      → Attempt PolicyCheckResult × Store
  limit_clause none schema session store = (returned allowed, store)
  limit_clause (some rate_limit) schema session store =
      within_limit rate_limit (check_rate_limit session schema.tool_name rate_limit store)

  unfoldable pub check_limit :
      SecurityPolicySchema → SessionContext → Store → Attempt PolicyCheckResult × Store
  check_limit schema session store = limit_clause schema.rate_limit schema session store

  unfoldable pub after_slots :
      SecurityPolicySchema
      → SessionContext
      → Store
      → PolicyCheckResult
      → Attempt PolicyCheckResult × Store
  after_slots schema session store (denied c name) = (returned (denied c name), store)
  after_slots schema session store allowed = check_limit schema session store

  unfoldable pub after_state :
      SecurityPolicySchema
      → SessionContext
      → Store
      → Attempt PolicyCheckResult
      → Attempt PolicyCheckResult × Store
  after_state schema session store (raised e) = (raised e, store)
  after_state schema session store (returned (denied c name)) = (returned (denied c name), store)
  after_state schema session store (returned allowed) =
      after_slots schema session store (check_slots session.facts schema.required_slots)

  -- SecurityPolicy.check: intent, then state, then slots, then the rate limit. The limit is counted
  -- only when the clauses before it hold.
  unfoldable pub check :
      SecurityPolicySchema → String → SessionContext → Store → Attempt PolicyCheckResult × Store
  check schema intent session store =
      if contains schema.allowed_intents intent
      then after_state schema session store
          (check_state session.facts session.conversation_state schema.required_state)
      else (returned (denied intent_clause intent), store)

-- PolicyRegistry.load, over the parsed files in the order of their names: a later file for the same
-- tool replaces the earlier one. `none` is the `ValueError` on an unknown predicate.
unfoldable pub load :
    List SecurityPolicySchema → Dict SecurityPolicySchema → Option (Dict SecurityPolicySchema)
unfolding lookup insert
load [] loaded = some loaded
load (schema ∷ schemas) loaded =
    let rest = load schemas (insert schema.tool_name schema loaded) in
    if all (λ name. is_some (lookup name predicate_registry)) schema.required_state
    then rest
    else none

-- startup_self_check: the registered tools that have no policy.
unfoldable pub missing_policies : Dict SecurityPolicySchema → List String → List String
unfolding lookup
missing_policies policies names = keep (λ name. not (is_some (lookup name policies))) names
