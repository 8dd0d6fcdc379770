-- ===== src/Tools/Clauses.antt =====
-- The clauses of `SecurityPolicy.check` (app/tools/policy.py) that do not depend on Redis.
use makkays_chatbot.Prelude.{
  String, ◌≡◌, ◌≢◌, refl, List, [], ◌∷◌, Bool, true, false, Option, none, some, lookup, contains,
  All, Bool-cases, Option-cases, inl, inr,
}
use makkays_chatbot.Session.Schemas.{FactsSchema, ConversationStateSchema}
use makkays_chatbot.Tools.Schemas.{
  Attempt, returned, raised, SecurityPolicySchema, PolicyCheckResult, allowed, denied,
  SessionContext, has_fact,
}
use makkays_chatbot.Tools.Policy.{
  Redis, after_state, after_slots, Predicate, predicate_registry, check_state, check_slots,
  check_limit, check,
}

abbrev applies : Option Predicate → FactsSchema → ConversationStateSchema → Bool
applies none facts state = false
applies (some predicate) facts state = predicate facts state

-- The named predicate exists and holds.
unfoldable pub holds : FactsSchema → ConversationStateSchema → String → Bool
unfolding lookup
holds facts state name = applies (lookup name predicate_registry) facts state

-- The clauses on the intent, the state and the facts hold.
pub record Cleared (schema : SecurityPolicySchema) (intent : String) (session : SessionContext)
    : Type 0 where
  pub intent_allowed : contains schema.allowed_intents intent ≡ true
  pub state_met :
      All (λ name. holds session.facts session.conversation_state name ≡ true) schema.required_state
  pub slots_filled : All (λ slot. has_fact session.facts slot ≡ true) schema.required_slots

check_state_held :
    (facts : FactsSchema) (state : ConversationStateSchema) (names : List String)
    → All (λ name. holds facts state name ≡ true) names
    → check_state facts state names ≡ returned allowed
unfolding check_state holds
check_state_held facts state [] h = refl
check_state_held facts state (name ∷ names) (here, later) =
    elim (Option-cases (lookup name predicate_registry)) [
      | inl e ↦ cc (rw (e, holds) at here)
      | inr (p, e) ↦
          let passed : p facts state ≡ true = rw (e, holds) at here in
          rw (e, passed, check_state) (check_state_held facts state names later)
    ]

state_held :
    (facts : FactsSchema) (state : ConversationStateSchema) (names : List String)
    → check_state facts state names ≡ returned allowed
    → All (λ name. holds facts state name ≡ true) names
unfolding check_state holds
state_held facts state [] q = tt
state_held facts state (name ∷ names) q = elim (Option-cases (lookup name predicate_registry)) [
  | inl e ↦ cc (rw (e, check_state) at q)
  | inr (p, e) ↦ elim (Bool-cases (p facts state)) [
    | inl t ↦ (rw (e, t, holds), state_held facts state names (rw (e, t, check_state) at q))
    | inr f ↦ cc (rw (e, f, check_state) at q)
  ]
]

check_slots_filled :
    (facts : FactsSchema) (slots : List String)
    → All (λ slot. has_fact facts slot ≡ true) slots
    → check_slots facts slots ≡ allowed
unfolding check_slots
check_slots_filled facts [] h = refl
check_slots_filled facts (slot ∷ slots) (here, later) =
    rw here (check_slots_filled facts slots later)

slots_filled :
    (facts : FactsSchema) (slots : List String)
    → check_slots facts slots ≡ allowed
    → All (λ slot. has_fact facts slot ≡ true) slots
unfolding check_slots
slots_filled facts [] q = tt
slots_filled facts (slot ∷ slots) q = elim (Bool-cases (has_fact facts slot)) [
  | inl t ↦ (t, slots_filled facts slots (rw t at q))
  | inr f ↦ cc (rw f at q)
]

module _ (redis : Redis) (schema : SecurityPolicySchema) (intent : String)
    (session : SessionContext) (store : Redis.Store redis) where
  -- Where the other clauses hold, the check is that of the rate limit.
  pub check_of_Cleared :
      Cleared schema intent session
      → check redis schema intent session store ≡ check_limit redis schema session store
  unfolding check after_state after_slots
  check_of_Cleared c = rw (
    c.intent_allowed,
    check_state_held session.facts session.conversation_state schema.required_state c.state_met,
    after_state,
    check_slots_filled session.facts schema.required_slots c.slots_filled,
    after_slots,
  )

  -- The outcomes of the state clause and of the slots clause, where the check allows the call.
  after_slots_allowed :
      (verdict : PolicyCheckResult)
      → (after_slots redis schema session store verdict).0 ≡ returned allowed
      → verdict ≡ allowed
  unfolding after_slots
  after_slots_allowed allowed q = refl
  after_slots_allowed (denied c n) q = cc

  after_state_allowed :
      (verdict : Attempt PolicyCheckResult)
      → (after_state redis schema session store verdict).0 ≡ returned allowed
      → (verdict ≡ returned allowed) × (check_slots session.facts schema.required_slots ≡ allowed)
  unfolding after_state
  after_state_allowed (returned allowed) q = (refl, after_slots_allowed _ q)
  after_state_allowed (returned (denied c n)) q = cc
  after_state_allowed (raised e) q = cc

  pub check-Cleared :
      (check redis schema intent session store).0 ≡ returned allowed → Cleared schema intent session
  unfolding check
  check-Cleared q = elim (Bool-cases (contains schema.allowed_intents intent)) [
    | inr off ↦ cc (rw off at q)
    | inl on ↦
        let (state, slots) = after_state_allowed _ (rw on at q) in
        record {
          intent_allowed = on;
          state_met =
              state_held session.facts session.conversation_state schema.required_state state;
          slots_filled = slots_filled session.facts schema.required_slots slots;
        }
  ]

  after_slots_store :
      (verdict : PolicyCheckResult)
      → verdict ≢ allowed
      → (after_slots redis schema session store verdict).1 ≡ store
  unfolding after_slots
  after_slots_store allowed h = absurd (h refl)
  after_slots_store (denied c n) h = refl

  after_state_store :
      (verdict : Attempt PolicyCheckResult)
      → ¬ (
          (verdict ≡ returned allowed)
          × (check_slots session.facts schema.required_slots ≡ allowed))
      → (after_state redis schema session store verdict).1 ≡ store
  unfolding after_state
  after_state_store (returned allowed) h = after_slots_store _ (λ e. h (refl, e))
  after_state_store (returned (denied c n)) h = refl
  after_state_store (raised e) h = refl

  check_store :
      ¬ Cleared schema intent session → (check redis schema intent session store).1 ≡ store
  unfolding check
  check_store n = elim (Bool-cases (contains schema.allowed_intents intent)) [
    | inr off ↦ rw off
    | inl on ↦ rw on (
        after_state_store _ λ h. n (record {
          intent_allowed = on;
          state_met = state_held session.facts session.conversation_state schema.required_state h.0;
          slots_filled = slots_filled session.facts schema.required_slots h.1;
        }))
  ]

  -- When a call does not clear the clauses on the intent, the state and the facts, it is not allowed
  -- and Redis is left as it is, so it does not count against the rate limit.
  pub check_uncleared :
      ¬ Cleared schema intent session
      → ((check redis schema intent session store).1 ≡ store)
        × ((check redis schema intent session store).0 ≢ returned allowed)
  check_uncleared n = (check_store n, λ q. n (check-Cleared q))
