-- ===== src/Session/Keeping.antt =====
-- What updates of facts and state never lose (app/session/repository.py, app/session/service.py).
use makkays_chatbot.Prelude.{
  ℕ, String, ◌≢◌, ◌||◌, ◌&&◌, not, List, [], ◌∷◌, ◌≡◌, refl, Bool, true, Option, none, some,
  is_some, if◌then◌else◌, Bool-cases, inl, inr,
}
use makkays_chatbot.Shared.{Uuid}
use makkays_chatbot.Session.Schemas.{FactsSchema, ConversationStateSchema}
use makkays_chatbot.Session.Caching.{
  Outcome, ok, checkpoint_error, validation_error, Store, tick, read_through, redis_get,
  after_redis_get, db_get, after_db_get, cache_row, after_upsert,
}
use makkays_chatbot.Session.Updates.{
  FactsUpdate, has_values, non_null, override, merge_facts, upsert_facts, ConversationStateUpdate,
  sets_field, breaks_not_null, upsert_state,
}
use makkays_chatbot.Session.Service.{
  FactsStore, StateStore, validate_facts, validate_state, step_fits, get_facts, update_facts,
  get_conversation_state, update_conversation_state,
}

-- FACT_FIELDS: whether each fact is known.
abbrev pub known : FactsSchema → List Bool
known f =
    is_some f.budget
    ∷ is_some f.company
    ∷ is_some f.industry
    ∷ is_some f.product_interest
    ∷ is_some f.project_size
    ∷ is_some f.location
    ∷ is_some f.timeline
    ∷ is_some f.is_decision_maker
    ∷ is_some f.quantity
    ∷ is_some f.contact_name
    ∷ is_some f.contact_email
    ∷ is_some f.contact_phone
    ∷ []

-- What is true on the left is true on the right.
abbrev pub includes : List Bool → List Bool → Bool
includes (x ∷ xs) (y ∷ ys) = (not x || y) && includes xs ys
includes _ _ = true

override_keeps :
    {A : Type 0} (new old : Option A) → (not (is_some old) || is_some (override new old)) ≡ true
unfolding override
override_keeps (some a) none = refl
override_keeps (some a) (some b) = refl
override_keeps none none = refl
override_keeps none (some b) = refl

-- A fact that is known stays known under every update, also one that sets it to null, and the row
-- stays the session's.
pub merge_facts_keeps :
    (p : FactsUpdate) (f : FactsSchema)
    → (includes (known f) (known (merge_facts p f)) ≡ true)
      × ((merge_facts p f).tenant_id ≡ f.tenant_id)
      × ((merge_facts p f).session_id ≡ f.session_id)
unfolding merge_facts
merge_facts_keeps p f = (
  rw (
    override_keeps (non_null p.budget) f.budget,
    override_keeps (non_null p.company) f.company,
    override_keeps (non_null p.industry) f.industry,
    override_keeps (non_null p.product_interest) f.product_interest,
    override_keeps (non_null p.project_size) f.project_size,
    override_keeps (non_null p.location) f.location,
    override_keeps (non_null p.timeline) f.timeline,
    override_keeps (non_null p.is_decision_maker) f.is_decision_maker,
    override_keeps (non_null p.quantity) f.quantity,
    override_keeps (non_null p.contact_name) f.contact_name,
    override_keeps (non_null p.contact_email) f.contact_email,
    override_keeps (non_null p.contact_phone) f.contact_phone,
  ),
  refl,
  refl,
)

module _ {A : Type 0} (fails : ℕ → Bool) (validate : A → Outcome A)
    (sure : (a : A) → validate a ≢ checkpoint_error) (key : String) where
  cache_row_sure :
      (o : Outcome A) (s : Store A)
      → o ≢ checkpoint_error
      → (cache_row fails validate key o s).0 ≢ checkpoint_error
  unfolding cache_row
  cache_row_sure (ok a) s h = h
  cache_row_sure checkpoint_error s h = h
  cache_row_sure validation_error s h = h

  after_db_get_sure :
      (empty : A) (found : Option (Option A)) (s : Store A)
      → (after_db_get fails validate key empty (found, s)).0 ≢ checkpoint_error
  unfolding after_db_get
  after_db_get_sure empty none s = λ e. cc e
  after_db_get_sure empty (some none) s = λ e. cc e
  after_db_get_sure empty (some (some row)) s = cache_row_sure (validate row) s (sure row)

  after_redis_get_sure :
      (empty : A) (tenant : Uuid) (session : String) (found : Option A) (s : Store A)
      → (after_redis_get fails validate key empty tenant session (found, s)).0 ≢ checkpoint_error
  unfolding after_redis_get db_get
  after_redis_get_sure empty tenant session (some a) s = sure a
  after_redis_get_sure empty tenant session none s =
      after_db_get_sure empty (if fails s.calls then none else some (s.rows tenant session))
        (tick s)

  -- A read never ends with a checkpoint error.
  read_through_sure :
      (empty : A) (tenant : Uuid) (session : String) (s : Store A)
      → (read_through fails validate key empty tenant session s).0 ≢ checkpoint_error
  unfolding read_through redis_get
  read_through_sure empty tenant session s =
      after_redis_get_sure empty tenant session (if fails s.calls then none else s.cache key)
        (tick s)

validate_state_sure : (a : ConversationStateSchema) → validate_state a ≢ checkpoint_error
unfolding validate_state
validate_state_sure a e = elim (Bool-cases (step_fits a.current_plan_step a.current_plan)) [
  | inl t ↦ let q : ok a ≡ checkpoint_error = rw t at e in cc q
  | inr f ↦ let q : validation_error ≡ checkpoint_error = rw f at e in cc q
]

-- Nothing is written.
abbrev pub Untouched : {A : Type 0} → Store A → Store A → Type 0
Untouched s s' = (s'.rows ≡ s.rows) × (s'.cache ≡ s.cache)

module _ (fails : ℕ → Bool) (tenant : Uuid) (session : String) where
  -- An update of facts that raises a checkpoint error has written neither the row nor the copy.
  pub update_facts_error :
      (p : FactsUpdate) (s : FactsStore)
      → (update_facts fails tenant session p s).0 ≡ checkpoint_error
      → Untouched s (update_facts fails tenant session p s).1
  unfolding update_facts after_upsert upsert_facts get_facts
  update_facts_error p s e = elim (Bool-cases (has_values p)) [
    | inr f ↦ absurd (read_through_sure fails validate_facts (λ a q. cc q) _ _ _ _ s (rw f at e))
    | inl t ↦ elim (Bool-cases (fails s.calls)) [
      | inl off ↦ rw (t, off) (refl, refl)
      | inr on ↦
          absurd
            (cache_row_sure fails validate_facts (λ a q. cc q) _ _ _ (λ q. cc q) (rw (t, on) at e))
    ]
  ]

  -- An update of the conversation state that raises a checkpoint error has written neither the row
  -- nor the copy.
  pub update_conversation_state_error :
      (p : ConversationStateUpdate) (s : StateStore)
      → (update_conversation_state fails tenant session p s).0 ≡ checkpoint_error
      → Untouched s (update_conversation_state fails tenant session p s).1
  unfolding update_conversation_state after_upsert upsert_state get_conversation_state
  update_conversation_state_error p s e = elim (Bool-cases (sets_field p)) [
    | inr f ↦
        absurd (read_through_sure fails validate_state validate_state_sure _ _ _ _ s (rw f at e))
    | inl t ↦ elim (Bool-cases (fails s.calls || breaks_not_null p)) [
      | inl off ↦ rw (t, off) (refl, refl)
      | inr on ↦ absurd (
          cache_row_sure fails validate_state validate_state_sure _ _ _ (validate_state_sure _)
            (rw (t, on) at e))
    ]
  ]
