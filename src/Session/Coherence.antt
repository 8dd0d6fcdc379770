-- ===== src/Session/Coherence.antt =====
-- What the cache-aside pattern of app/session/service.py keeps: the copy in Redis and the row.
use makkays_chatbot.Prelude.{
  ℕ, suc, String, ◌≡◌, ◌⊎◌, inl, inr, refl, sym, ap, ◌∙◌, Bool, true, Option, none, some, eq_refl,
  if◌then◌else◌, Bool-cases, some_inj,
}
use makkays_chatbot.Shared.{Uuid}
use makkays_chatbot.Session.Caching.{
  Outcome, ok, checkpoint_error, validation_error, Store, tick, put_row, redis_get, redis_set,
  db_get, cache_row, after_db_get, after_redis_get, read_through,
}

module _ {A : Type 0} (key : String) (tenant : Uuid) (session : String) where
  -- There is no copy, or it is the row.
  abbrev pub IsCoherent : Store A → Type 0
  IsCoherent s = (s.cache key ≡ none) ⊎ (s.cache key ≡ s.rows tenant session)

  -- What a reader of the row is answered.
  abbrev pub expected : (A → Outcome A) → A → Option A → Outcome A
  expected validate empty none = ok empty
  expected validate empty (some row) = validate row

  pub rows-put_row :
      (row : A) (s : Store A) → (put_row tenant session row s).rows tenant session ≡ some row
  unfolding put_row
  rows-put_row row s = rw (eq_refl tenant, eq_refl session)

  module _ (fails : ℕ → Bool) where
    pub rows-redis_set : (value : A) (s : Store A) → (redis_set fails key value s).rows ≡ s.rows
    unfolding redis_set
    rows-redis_set value s = elim (Bool-cases (fails s.calls)) [ inl t ↦ rw t | inr f ↦ rw f ]

    pub cache-redis_set :
        (value : A) (s : Store A)
        → (redis_set fails key value s).cache key
          ≡ (if fails s.calls then s.cache key else some value)
    unfolding redis_set
    cache-redis_set value s = elim (Bool-cases (fails s.calls)) [
      | inl t ↦ rw t
      | inr f ↦ rw (f, eq_refl key)
    ]

    -- Writing the row's copy keeps the store coherent, also when the write fails.
    pub redis_set-IsCoherent :
        (value : A) (s : Store A)
        → s.rows tenant session ≡ some value
        → IsCoherent s
        → IsCoherent (redis_set fails key value s)
    redis_set-IsCoherent value s row h =
        rw (rows-redis_set value s, cache-redis_set value s)
          (elim (Bool-cases (fails s.calls)) [ inl t ↦ rw t h | inr f ↦ rw f (inr (rw row)) ])

    module _ (validate : A → Outcome A) (empty : A) where
      -- The rows are kept, the store is coherent, and the answer is the row's, or the empty model's
      -- when the read of the row failed.
      pub record ReadsRow (s : Store A) (answer : Outcome A) (s' : Store A) : Type 0 where
        pub kept : s'.rows ≡ s.rows
        pub coherent : IsCoherent s'
        pub answered :
            (answer ≡ expected validate empty (s.rows tenant session))
            ⊎ ((answer ≡ ok empty) × (fails (suc s.calls) ≡ true))

      abbrev Reads : Store A → Outcome A × Store A → Type 0
      Reads s result = ReadsRow s result.0 result.1

      module _ (same : (a b : A) → validate a ≡ ok b → a ≡ b) where
        cache_row-Reads :
            (row : A) (o : Outcome A) (s t : Store A)
            → validate row ≡ o
            → t.rows ≡ s.rows
            → s.rows tenant session ≡ some row
            → IsCoherent t
            → Reads s (cache_row fails validate key o t)
        unfolding cache_row
        cache_row-Reads row (ok schema) s t e kept at_row h = record {
          kept = rows-redis_set schema t ∙ kept;
          coherent = redis_set-IsCoherent schema t (rw (kept, at_row, same row schema e)) h;
          answered = inl (rw at_row (sym e));
        }
        cache_row-Reads row checkpoint_error s t e kept at_row h = record {
          kept = kept;
          coherent = h;
          answered = inl (rw at_row (sym e));
        }
        cache_row-Reads row validation_error s t e kept at_row h = record {
          kept = kept;
          coherent = h;
          answered = inl (rw at_row (sym e));
        }

        after_db_get-Reads :
            (found : Option (Option A)) (s t : Store A)
            → ((found ≡ none) × (fails (suc s.calls) ≡ true))
              ⊎ (found ≡ some (s.rows tenant session))
            → t.rows ≡ s.rows
            → IsCoherent t
            → Reads s (after_db_get fails validate key empty (found, t))
        unfolding after_db_get
        after_db_get-Reads none s t (inl e) kept h = record {
          kept = kept;
          coherent = h;
          answered = inr (refl, e.1);
        }
        after_db_get-Reads none s t (inr e) kept h = cc
        after_db_get-Reads (some none) s t (inl e) kept h = cc
        after_db_get-Reads (some none) s t (inr e) kept h =
            let none_there : none ≡ s.rows tenant session = cc in
            record { kept = kept; coherent = h; answered = inl (rw (← none_there)) }
        after_db_get-Reads (some (some row)) s t (inl e) kept h = cc
        after_db_get-Reads (some (some row)) s t (inr e) kept h =
            cache_row-Reads row (validate row) s t refl kept (sym (some_inj e)) h

        after_redis_get-Reads :
            (found : Option A) (s t : Store A)
            → (found ≡ none) ⊎ (found ≡ s.rows tenant session)
            → t.rows ≡ s.rows
            → t.calls ≡ suc s.calls
            → IsCoherent t
            → Reads s (after_redis_get fails validate key empty tenant session (found, t))
        unfolding after_redis_get db_get
        after_redis_get-Reads (some cached) s t (inl e) kept clock h = cc
        after_redis_get-Reads (some cached) s t (inr e) kept clock h = record {
          kept = kept;
          coherent = h;
          answered = inl (rw (← e));
        }
        after_redis_get-Reads none s t e kept clock h = elim (Bool-cases (fails t.calls)) [
          | inl off ↦
              rw off
                (after_db_get-Reads none s (tick t) (inl (refl, ap fails (sym clock) ∙ off)) kept h)
          | inr on ↦
              rw on (
                after_db_get-Reads (some (t.rows tenant session)) s (tick t) (inr (rw kept)) kept h)
        ]

        pub read_through-ReadsRow :
            (s : Store A)
            → IsCoherent s
            → Reads s (read_through fails validate key empty tenant session s)
        unfolding read_through redis_get
        read_through-ReadsRow s h = elim (Bool-cases (fails s.calls)) [
          | inl off ↦ rw off (after_redis_get-Reads none s (tick s) (inl refl) refl refl h)
          | inr on ↦ rw on (after_redis_get-Reads (s.cache key) s (tick s) h refl refl h)
        ]
