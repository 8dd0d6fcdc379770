-- ===== src/Crm/Outbox.antt =====
-- app/crm/service.py with app/crm/worker.py: the queue as an outbox of the leads.
use makkays_chatbot.Prelude.{
  ℕ, ◌+◌, ◌≡◌, refl, ap, String, List, [], ◌∷◌, ◌++◌, Bool, true, false, ◌&&◌, ◌||◌, Option, none,
  some, map, length, contains, All, All-append, leb, ltb, Bool-cases, Option-cases, inl, inr, arith,
}
use makkays_chatbot.Shared.{Uuid}
use makkays_chatbot.Tools.Schemas.{Attempt, returned, raised, ExecutionContext, SessionContext}
use makkays_chatbot.Crm.{
  QueueStatus, pending, synced, permanently_failed, RetryQueueItem, enqueue, Taken, get_due_item,
  mark_succeeded, mark_failed, Pass, process, after_due, run_once,
}
use makkays_chatbot.Crm.Laws.{All-split, IsTaken, get_due_item-IsTaken}
use makkays_chatbot.Crm.Leads.{
  Lead, LeadStore, Services, is_text, lead_ids, normalize_email, build_lead, add_lead, after_email,
  create_lead, committed, create_lead_tool, run_worker,
}

abbrev is_given_up : QueueStatus → Bool
is_given_up pending = false
is_given_up synced = false
is_given_up permanently_failed = true

-- An item that is given up was tried as often as allowed.
abbrev IsTried : ℕ → RetryQueueItem → Type 0
IsTried max_attempts item = (is_given_up item.status && ltb item.attempts max_attempts) ≡ false

abbrev pub queued_ids : List RetryQueueItem → List Uuid
queued_ids queue = map (λ item. item.lead_id) queue

-- Each lead has one item, in the same order, and no item is given up early.
pub record IsOutbox (max_attempts : ℕ) (store : LeadStore) : Type 0 where
  pub one_each : queued_ids store.queue ≡ lead_ids store.leads
  pub all_tried : All (IsTried max_attempts) store.queue

-- A call of the tool or a pass of the worker.
pub data Event : Type 0 where
  captured : ℕ → Option String → SessionContext → ExecutionContext → Event
  passed : ℕ → (Uuid → Option String) → Event

abbrev count_returned : {A : Type 0} → Attempt A → ℕ
count_returned (returned a) = 1
count_returned (raised e) = 0

mark_failed-IsTried :
    (now n : ℕ) (error : String) (item : RetryQueueItem)
    → (IsTried n (mark_failed now n error item))
      × ((mark_failed now n error item).lead_id ≡ item.lead_id)
unfolding mark_failed
mark_failed-IsTried now n error item = elim (Bool-cases (leb n (item.attempts + 1))) [
  | inl t ↦ rw t (ground arith, refl)
  | inr f ↦ rw f (refl, refl)
]

process-IsTried :
    (n : ℕ) (pass : Pass) (item : RetryQueueItem)
    → (IsTried n (process n pass item)) × ((process n pass item).lead_id ≡ item.lead_id)
unfolding process mark_succeeded
process-IsTried n pass item = elim (Bool-cases (pass.lead_exists item.lead_id)) [
  | inr f ↦ rw f (mark_failed-IsTried pass.now n _ item)
  | inl t ↦ elim (Option-cases (pass.crm_error item.lead_id)) [
    | inr (error, e) ↦ rw (t, e) (mark_failed-IsTried pass.now n error item)
    | inl e ↦ rw (t, e) (refl, refl)
  ]
]

queued_ids-put :
    (before rest : List RetryQueueItem) (item item' : RetryQueueItem)
    → item'.lead_id ≡ item.lead_id
    → queued_ids (before ++ item' ∷ rest) ≡ queued_ids (before ++ item ∷ rest)
queued_ids-put [] rest item item' e = ap (λ id. id ∷ queued_ids rest) e
queued_ids-put (x ∷ before) rest item item' e =
    ap (λ ids. x.lead_id ∷ ids) (queued_ids-put before rest item item' e)

after_due-IsTried :
    (n : ℕ) (pass : Pass) (items : List RetryQueueItem) (found : Option Taken)
    → All (IsTried n) items
    → IsTaken pass.now items found
    → let items' = (after_due n pass items found).1 in
      (queued_ids items' ≡ queued_ids items) × All (IsTried n) items'
after_due-IsTried n pass items none tried h = (refl, tried)
after_due-IsTried n pass items (some taken) tried (same, waits) =
    let (left, (here, right)) =
      All-split (IsTried n) taken.before (taken.item ∷ taken.rest) (rw same at tried) in
    let (now_tried, same_lead) = process-IsTried n pass taken.item in
    let item = process n pass taken.item in
    (
      rw same (queued_ids-put taken.before taken.rest taken.item item same_lead),
      All-append (IsTried n) taken.before (item ∷ taken.rest) left (now_tried, right),
    )

run_worker-IsOutbox :
    (n now : ℕ) (crm_error : Uuid → Option String) (store : LeadStore)
    → IsOutbox n store
    → IsOutbox n (run_worker n now crm_error store).1
unfolding run_worker run_once
run_worker-IsOutbox n now crm_error store h =
    let pass : Pass = record {
      now = now;
      lead_exists = contains (lead_ids store.leads);
      crm_error = crm_error;
    } in
    let (same, tried) =
      after_due-IsTried n pass store.queue (get_due_item now store.queue) h.all_tried
        (get_due_item-IsTaken now store.queue) in
    record { one_each = rw same h.one_each; all_tried = tried }

map-snoc :
    {A : Type 0} (f : A → Uuid) (xs : List A) (x : A) → map f (xs ++ x ∷ []) ≡ map f xs ++ f x ∷ []
map-snoc f [] x = refl
map-snoc f (y ∷ xs) x = ap (λ ids. f y ∷ ids) (map-snoc f xs x)

length-snoc : {A : Type 0} (xs : List A) (x : A) → length (xs ++ x ∷ []) ≡ length xs + 1
length-snoc [] x = refl
length-snoc (y ∷ xs) x = omega (arith, length-snoc xs x)

-- What a call of the tool leaves.
abbrev IsCaptured : {A : Type 0} → ℕ → LeadStore → Attempt A × LeadStore → Type 0
IsCaptured n before (result, store) =
    (IsOutbox n before → IsOutbox n store)
    × (length store.leads ≡ length before.leads + count_returned result)

module _ (services : Services) (n now : ℕ) where
  add_lead-IsOutbox :
      (lead : Lead) (store : LeadStore)
      → IsOutbox n store
      → IsOutbox n (add_lead services now lead store)
  unfolding add_lead enqueue
  add_lead-IsOutbox lead store h = record {
    one_each =
        rw (map-snoc (λ item. item.lead_id) store.queue, map-snoc (λ l. l.id) store.leads)
          (ap (λ ids. ids ++ lead.id ∷ []) h.one_each);
    all_tried = All-append (IsTried n) store.queue _ h.all_tried (refl, tt);
  }

  after_email-IsCaptured :
      (session : SessionContext) (context : ExecutionContext) (store : LeadStore)
      (email : Attempt (Option String))
      → IsCaptured n store (after_email services now session context store email)
  unfolding add_lead
  after_email-IsCaptured session context store (raised error) = (λ h. h, omega arith)
  after_email-IsCaptured session context store (returned email) =
      let lead = build_lead services session context email store.leads in
      (λ h. add_lead-IsOutbox lead store h, length-snoc store.leads lead)

  create_lead-IsCaptured :
      (session : SessionContext) (context : ExecutionContext) (store : LeadStore)
      → IsCaptured n store (create_lead services now session context store)
  unfolding create_lead
  create_lead-IsCaptured session context store =
      elim (Bool-cases
        (is_text session.facts.contact_email || is_text session.facts.contact_phone)) [
          | inl t ↦ rw t (
              after_email-IsCaptured session context store
                (normalize_email services session.facts.contact_email))
          | inr f ↦ rw f (λ h. h, omega arith)
        ]

  committed-IsCaptured :
      (commit_error : Option String) (before : LeadStore) (ended : Attempt String × LeadStore)
      → IsCaptured n before ended
      → IsCaptured n before (committed services commit_error before ended)
  committed-IsCaptured commit_error before (raised error, store) h = (λ h. h, omega arith)
  committed-IsCaptured (some error) before (returned summary, store) h = (λ h. h, omega arith)
  committed-IsCaptured none before (returned summary, store) h = h

  create_lead_tool-IsCaptured :
      (commit_error : Option String) (session : SessionContext) (context : ExecutionContext)
      (store : LeadStore)
      → IsCaptured n store (create_lead_tool services now commit_error session context store)
  unfolding create_lead_tool
  create_lead_tool-IsCaptured commit_error session context store =
      committed-IsCaptured commit_error store (create_lead services now session context store)
        (create_lead-IsCaptured session context store)

module _ (services : Services) (n : ℕ) where
  abbrev counted : {A : Type 0} → Attempt A × LeadStore → ℕ × LeadStore
  counted (result, store) = (count_returned result, store)

  -- An event, with the number of leads that the tool reported.
  abbrev run_event : Event → LeadStore → ℕ × LeadStore
  run_event (captured now commit_error session context) store =
      counted (create_lead_tool services now commit_error session context store)
  run_event (passed now crm_error) store = (0, (run_worker n now crm_error store).1)

  -- The events one after another.
  unfoldable pub run_events : List Event → LeadStore → ℕ × LeadStore
  unfolding create_lead_tool run_worker
  run_events [] store = (0, store)
  run_events (event ∷ events) store =
      let (here, store') = run_event event store in
      let (later, store'') = run_events events store' in (here + later, store'')

  abbrev IsRun : LeadStore → ℕ × LeadStore → Type 0
  IsRun before (reported, store) =
      IsOutbox n store × (length store.leads ≡ length before.leads + reported)

  run_event-IsRun :
      (event : Event) (store : LeadStore) → IsOutbox n store → IsRun store (run_event event store)
  unfolding run_worker
  run_event-IsRun (captured now commit_error session context) store h =
      let (kept, longer) =
        create_lead_tool-IsCaptured services n now commit_error session context store in
      (kept h, longer)
  run_event-IsRun (passed now crm_error) store h =
      (run_worker-IsOutbox n now crm_error store h, omega arith)

  -- Whatever the calls of the tool and the passes of the worker are, in any order: if each lead has
  -- exactly one item in the queue, in the order of the leads, and no item is given up before it was
  -- tried as often as allowed, then this stays so, and the number of leads grows by the number of
  -- calls that report one. A call that fails, at the commit too, leaves no lead without an item.
  pub run_events-IsOutbox :
      (events : List Event) (store : LeadStore)
      → IsOutbox n store
      → let (reported, store') = run_events events store in
        IsOutbox n store' × (length store'.leads ≡ length store.leads + reported)
  unfolding run_events
  run_events-IsOutbox [] store h = (h, omega arith)
  run_events-IsOutbox (event ∷ events) store h =
      let (here, more) = run_event-IsRun event store h in
      let (later, still_more) = run_events-IsOutbox events (run_event event store).1 here in
      (later, omega (arith, more, still_more))
