-- ===== src/Session/Caching.antt =====
-- The cache-aside pattern that app/session/service.py uses twice: rows in Postgres, copies in Redis.
--
-- Every call of Redis or Postgres takes the next number, and `fails` says which numbers raise, so a
-- theorem for every `fails` holds for every pattern of outages. Redis keeps the JSON text of a read
-- model; here it keeps the model itself. A row stands for the read model with its columns.
use makkays_chatbot.Prelude.{ℕ, suc, String, Bool, ◌&&◌, Option, none, some, ◌==◌, if◌then◌else◌}
use makkays_chatbot.Shared.{Uuid}

-- How a call of the service ends: a result, `FactsCheckpointError` or `StateCheckpointError`, or the
-- `ValidationError` of a read model.
pub data Outcome (A : Type 0) : Type 0 where
  ok : A → Outcome A
  checkpoint_error : Outcome A
  validation_error : Outcome A

pub record Store (A : Type 0) : Type 0 where
  pub rows : Uuid → String → Option A
  pub cache : String → Option A
  pub calls : ℕ

module _ {A : Type 0} where
  -- The next call is made.
  abbrev pub tick : Store A → Store A
  tick s = record s { calls = suc s.calls }

  -- A row is written.
  unfoldable pub put_row : Uuid → String → A → Store A → Store A
  put_row tenant session row s = record s {
    rows = λ t i. if t == tenant && i == session then some row else s.rows t i;
  }

  module _ (fails : ℕ → Bool) where
    -- _redis_get: `None` for a missing key and for a failed read.
    unfoldable pub redis_get : String → Store A → Option A × Store A
    redis_get key s = (if fails s.calls then none else s.cache key, tick s)

    -- _redis_set: a failed write is logged and nothing else.
    unfoldable pub redis_set : String → A → Store A → Store A
    redis_set key value s =
        if fails s.calls
        then tick s
        else tick (record s { cache = λ k. if k == key then some value else s.cache k })

    -- The read of a row; `none` is a read that raises.
    unfoldable pub db_get : Uuid → String → Store A → Option (Option A) × Store A
    db_get tenant session s = (if fails s.calls then none else some (s.rows tenant session), tick s)

    module _ (validate : A → Outcome A) (key : String) where
      -- The model of a row goes to the cache, unless it is invalid.
      unfoldable pub cache_row : Outcome A → Store A → Outcome A × Store A
      cache_row (ok schema) s = (ok schema, redis_set key schema s)
      cache_row checkpoint_error s = (checkpoint_error, s)
      cache_row validation_error s = (validation_error, s)

      unfoldable pub after_db_get : A → Option (Option A) × Store A → Outcome A × Store A
      after_db_get empty (none, s) = (ok empty, s)
      after_db_get empty (some none, s) = (ok empty, s)
      after_db_get empty (some (some row), s) = cache_row (validate row) s

      unfoldable pub after_redis_get : A → Uuid → String → Option A × Store A → Outcome A × Store A
      after_redis_get empty tenant session (some cached, s) = (validate cached, s)
      after_redis_get empty tenant session (none, s) = after_db_get empty (db_get tenant session s)

      -- get_facts, get_conversation_state
      unfoldable pub read_through : A → Uuid → String → Store A → Outcome A × Store A
      read_through empty tenant session s = after_redis_get empty tenant session (redis_get key s)

      -- What follows an upsert that returns its row, or raises.
      unfoldable pub after_upsert : Option A × Store A → Outcome A × Store A
      after_upsert (none, s) = (checkpoint_error, s)
      after_upsert (some row, s) = cache_row (validate row) s
