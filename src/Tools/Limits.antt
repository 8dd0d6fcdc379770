-- ===== src/Tools/Limits.antt =====
-- The rate limit of app/tools/policy.py over a sequence of calls in one window.
use makkays_chatbot.Prelude.{
  ℕ, zero, suc, ◌+◌, ◌-◌, ◌≤◌, ◌↔◌, ◌≡◌, ◌∙◌, refl, ap, min, String, Bool, true, false, some, codes,
  leb, eqb, if◌then◌else◌, Bool-cases, inl, inr, arith,
}
use makkays_chatbot.Tools.RateLimit.{parse_rate_limit}
use makkays_chatbot.Tools.Schemas.{
  Attempt, returned, raised, SecurityPolicySchema, PolicyCheckResult, allowed, denied,
  SessionContext,
}
use makkays_chatbot.Tools.Clauses.{Cleared, check_of_Cleared}
use makkays_chatbot.Tools.Policy.{
  Redis, rate_limit_key, after_incr, check_rate_limit, within_limit, limit_clause, check_limit,
  check,
}

-- Redis as documented, while no key expires: INCR adds one to the counter and returns it, EXPIRE leaves
-- the counters as they are, and neither fails.
pub record CountsCalls (redis : Redis) : Type 0 where
  pub count : Redis.Store redis → String → ℕ
  pub incr_returns :
      (key : String) (store : Redis.Store redis)
      → (Redis.incr redis key store).0 ≡ returned (suc (count store key))
  pub incr_adds :
      (key : String) (store : Redis.Store redis)
      → count (Redis.incr redis key store).1 key ≡ suc (count store key)
  pub expire_returns :
      (key : String) (window : ℕ) (store : Redis.Store redis)
      → (Redis.expire redis key window store).0 ≡ returned tt
  pub expire_keeps :
      (key key' : String) (window : ℕ) (store : Redis.Store redis)
      → count (Redis.expire redis key window store).1 key' ≡ count store key'

abbrev admitted : Attempt PolicyCheckResult → ℕ
admitted (returned allowed) = 1
admitted (returned (denied c n)) = 0
admitted (raised e) = 0

-- A verdict that is admitted just up to the limit.
is_admitted :
    (verdict : Attempt PolicyCheckResult) (n limit : ℕ)
    → admitted verdict ≡ (if leb n limit then 1 else 0)
    → (verdict ≡ returned allowed) ↔ (n ≤ limit)
is_admitted (returned allowed) n limit e = (λ q. ground arith, λ q. refl)
is_admitted (returned (denied c name)) n limit e = (λ q. cc, λ q. absurd (ground arith))
is_admitted (raised error) n limit e = (λ q. cc, λ q. absurd (ground arith))

module _ (redis : Redis) (schema : SecurityPolicySchema) (session : SessionContext) where
  -- How many of `n` checks in a row are allowed.
  pub admitted_of : ℕ → Redis.Store redis → ℕ
  admitted_of zero store = 0
  admitted_of (suc n) store =
      let (verdict, store') = check_limit redis schema session store in
      admitted verdict + admitted_of n store'

  module _ (counts : CountsCalls redis) (text : String) (limit window : ℕ)
      (limited : schema.rate_limit ≡ some text)
      (parsed : parse_rate_limit (codes text) ≡ some (limit, window)) where
    abbrev key : String
    key = rate_limit_key session schema.tool_name

    after_incr_verdict :
        (n : ℕ) (store : Redis.Store redis)
        → (after_incr redis key limit window (returned n, store)).0 ≡ returned (leb n limit)
    unfolding after_incr
    after_incr_verdict n store = elim (Bool-cases (eqb n 1)) [
      | inl t ↦ rw (t, counts.expire_returns key window store)
      | inr f ↦ rw f
    ]

    after_incr_count :
        (n : ℕ) (store : Redis.Store redis)
        → counts.count (after_incr redis key limit window (returned n, store)).1 key
          ≡ counts.count store key
    unfolding after_incr
    after_incr_count n store = elim (Bool-cases (eqb n 1)) [
      | inl t ↦ rw t (counts.expire_keeps key key window store)
      | inr f ↦ rw f
    ]

    incr_pair :
        (store : Redis.Store redis)
        → Redis.incr redis key store
          ≡ (returned (suc (counts.count store key)), (Redis.incr redis key store).1)
    incr_pair store i = (counts.incr_returns key store i, (Redis.incr redis key store).1)

    check_rate_limit_lem :
        (store : Redis.Store redis)
        → check_rate_limit redis session schema.tool_name text store
          ≡ after_incr redis key limit window
              (returned (suc (counts.count store key)), (Redis.incr redis key store).1)
    unfolding check_rate_limit
    check_rate_limit_lem store =
        rw (parsed, check_rate_limit) (ap (after_incr redis key limit window) (incr_pair store))

    check_limit_lem :
        (store : Redis.Store redis)
        → check_limit redis schema session store
          ≡ within_limit redis text (
              after_incr redis key limit window
                (returned (suc (counts.count store key)), (Redis.incr redis key store).1))
    unfolding check_limit limit_clause
    check_limit_lem store =
        ap (λ o. limit_clause redis o schema session store) limited
        ∙ ap (within_limit redis text) (check_rate_limit_lem store)

    within_limit_verdict :
        (o : Attempt Bool × Redis.Store redis) (b : Bool)
        → o.0 ≡ returned b
        → admitted (within_limit redis text o).0 ≡ (if b then 1 else 0)
    within_limit_verdict (raised e, store) b q = cc
    within_limit_verdict (returned true, store) b q = ground arith
    within_limit_verdict (returned false, store) b q = ground arith

    within_limit_store :
        (o : Attempt Bool × Redis.Store redis) → (within_limit redis text o).1 ≡ o.1
    within_limit_store (raised e, store) = refl
    within_limit_store (returned b, store) = refl

    check_limit_verdict :
        (store : Redis.Store redis)
        → admitted (check_limit redis schema session store).0
          ≡ (if leb (suc (counts.count store key)) limit then 1 else 0)
    check_limit_verdict store =
        rw (check_limit_lem store) (within_limit_verdict _ _ (after_incr_verdict _ _))

    check_limit_count :
        (store : Redis.Store redis)
        → counts.count (check_limit redis schema session store).1 key ≡ suc (counts.count store key)
    check_limit_count store =
        rw (check_limit_lem store, within_limit_store)
          (after_incr_count _ _ ∙ counts.incr_adds key store)

    -- Of `n` calls in one window, those up to the limit are allowed and the rest refused.
    pub admitted_of_lem :
        (n : ℕ) (store : Redis.Store redis)
        → admitted_of n store ≡ min n (limit - counts.count store key)
    unfolding admitted_of
    admitted_of_lem zero store = omega arith
    admitted_of_lem (suc n) store = ground (
      arith,
      check_limit_verdict store,
      check_limit_count store,
      admitted_of_lem n (check_limit redis schema session store).1,
    )

    -- When a call clears the clauses on the intent, the state and the facts, it is counted, and it is
    -- allowed just if the count does not pass the limit.
    pub check_counted :
        (intent : String) (store : Redis.Store redis)
        → Cleared schema intent session
        → let checked = check redis schema intent session store in
          (counts.count checked.1 key ≡ suc (counts.count store key))
          × ((checked.0 ≡ returned allowed) ↔ (suc (counts.count store key) ≤ limit))
    check_counted intent store cleared =
        rw (check_of_Cleared redis schema intent session store cleared) (
          check_limit_count store,
          is_admitted (check_limit redis schema session store).0 (suc (counts.count store key))
              limit (check_limit_verdict store),
        )
