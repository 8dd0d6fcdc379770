-- ===== src/Crm/Laws.antt =====
-- app/crm/worker.py: how often the CRM is called.
use makkays_chatbot.Prelude.{
  ℕ, ◌+◌, ◌-◌, ◌≡◌, ◌≤◌, refl, ap, String, List, [], ◌∷◌, ◌++◌, true, false, ◌&&◌, Option, none,
  some, All, All-append, leb, ltb, Bool-cases, Option-cases, inl, inr, if◌then◌else◌, arith,
}
use makkays_chatbot.Crm.{
  RetryQueueItem, is_pending, is_due, Taken, later_in, earlier_of, get_due_item, mark_succeeded,
  mark_failed, Pass, RetryQueueResult, process, after_due, run_once, count_processed, run_passes,
}

-- The attempts that are left to an item.
unfoldable pub attempts_left : ℕ → RetryQueueItem → ℕ
attempts_left max_attempts item = if is_pending item.status then max_attempts - item.attempts else 0

abbrev pub total_left : ℕ → List RetryQueueItem → ℕ
total_left max_attempts [] = 0
total_left max_attempts (item ∷ items) =
    attempts_left max_attempts item + total_left max_attempts items

-- An item that waits has an attempt left.
abbrev pub CanWait : ℕ → RetryQueueItem → Type 0
CanWait max_attempts item = (is_pending item.status && leb max_attempts item.attempts) ≡ false

total_left-append :
    (n : ℕ) (xs ys : List RetryQueueItem)
    → total_left n (xs ++ ys) ≡ total_left n xs + total_left n ys
total_left-append n [] ys = omega arith
total_left-append n (x ∷ xs) ys = omega (arith, total_left-append n xs ys)

-- What is taken is due, and the queue is what is around it.
abbrev pub IsTaken : ℕ → List RetryQueueItem → Option Taken → Type 0
IsTaken now items none = Unit
IsTaken now items (some taken) =
    (items ≡ taken.before ++ taken.item ∷ taken.rest) × (is_pending taken.item.status ≡ true)

later_in-IsTaken :
    (now : ℕ) (item : RetryQueueItem) (items : List RetryQueueItem) (found : Option Taken)
    → IsTaken now items found
    → IsTaken now (item ∷ items) (later_in item found)
later_in-IsTaken now item items none h = tt
later_in-IsTaken now item items (some taken) (same, waits) = (ap (λ xs. item ∷ xs) same, waits)

earlier_of-IsTaken :
    (now : ℕ) (item : RetryQueueItem) (items : List RetryQueueItem) (found : Option Taken)
    → is_pending item.status ≡ true
    → IsTaken now items found
    → IsTaken now (item ∷ items) (earlier_of item items found)
earlier_of-IsTaken now item items none here h = (refl, here)
earlier_of-IsTaken now item items (some taken) here (same, waits) =
    elim (Bool-cases (ltb taken.item.next_retry_at item.next_retry_at)) [
      | inl t ↦ rw t (ap (λ xs. item ∷ xs) same, waits)
      | inr f ↦ rw f (refl, here)
    ]

is_due-pending :
    (now : ℕ) (item : RetryQueueItem) → is_due now item ≡ true → is_pending item.status ≡ true
is_due-pending now item e = elim (Bool-cases (is_pending item.status)) [
  | inl t ↦ t
  | inr f ↦ cc (rw f at e)
]

pub get_due_item-IsTaken :
    (now : ℕ) (items : List RetryQueueItem) → IsTaken now items (get_due_item now items)
unfolding get_due_item
get_due_item-IsTaken now [] = tt
get_due_item-IsTaken now (item ∷ items) =
    let found = get_due_item now items in
    let ih = get_due_item-IsTaken now items in
    elim (Bool-cases (is_due now item)) [
      | inl t ↦ rw t (earlier_of-IsTaken now item items found (is_due-pending now item t) ih)
      | inr f ↦ rw f (later_in-IsTaken now item items found ih)
    ]

mark_failed-left :
    (now n : ℕ) (error : String) (item : RetryQueueItem)
    → is_pending item.status ≡ true
    → CanWait n item
    → CanWait n (mark_failed now n error item)
      × (attempts_left n (mark_failed now n error item) + 1 ≤ attempts_left n item)
unfolding mark_failed attempts_left
mark_failed-left now n error item waits can =
    let some_left : leb n item.attempts ≡ false = rw waits at can in
    elim (Bool-cases (leb n (item.attempts + 1))) [
      | inl t ↦ rw (t, waits) (refl, ground arith)
      | inr f ↦ rw (f, waits) (f, ground arith)
    ]

-- After a pass an item can wait, and it has one attempt less.
abbrev HasTried : ℕ → RetryQueueItem → RetryQueueItem → Type 0
HasTried n item item' = CanWait n item' × (attempts_left n item' + 1 ≤ attempts_left n item)

process-HasTried :
    (n : ℕ) (pass : Pass) (item : RetryQueueItem)
    → is_pending item.status ≡ true
    → CanWait n item
    → HasTried n item (process n pass item)
unfolding process mark_succeeded attempts_left
process-HasTried n pass item waits can = elim (Bool-cases (pass.lead_exists item.lead_id)) [
  | inr f ↦ rw f (mark_failed-left pass.now n _ item waits can)
  | inl t ↦ elim (Option-cases (pass.crm_error item.lead_id)) [
    | inr (error, e) ↦ rw (t, e) (mark_failed-left pass.now n error item waits can)
    | inl e ↦
        let some_left : leb n item.attempts ≡ false = rw waits at can in
        rw (t, e) (refl, rw waits (ground arith))
  ]
]

pub All-split :
    (P : RetryQueueItem → Type 0) (xs ys : List RetryQueueItem)
    → All P (xs ++ ys)
    → All P xs × All P ys
All-split P [] ys h = (tt, h)
All-split P (x ∷ xs) ys (here, later) =
    let (left, right) = All-split P xs ys later in ((here, left), right)

-- What a pass does to the queue.
abbrev IsPassed : ℕ → List RetryQueueItem → RetryQueueResult × List RetryQueueItem → Type 0
IsPassed n items (result, items') =
    All (CanWait n) items' × (count_processed result + total_left n items' ≤ total_left n items)

after_due-IsPassed :
    (n : ℕ) (pass : Pass) (items : List RetryQueueItem) (found : Option Taken)
    → All (CanWait n) items
    → IsTaken pass.now items found
    → IsPassed n items (after_due n pass items found)
after_due-IsPassed n pass items none can h = (can, omega arith)
after_due-IsPassed n pass items (some taken) can (same, waits) =
    let (left, (here, right)) =
      All-split (CanWait n) taken.before (taken.item ∷ taken.rest) (rw same at can) in
    let item = process n pass taken.item in
    let (still, less) = process-HasTried n pass taken.item waits here in
    (
      All-append (CanWait n) taken.before (item ∷ taken.rest) left (still, right),
      rw same (
          omega (
            arith,
            less,
            total_left-append n taken.before (item ∷ taken.rest),
            total_left-append n taken.before (taken.item ∷ taken.rest),
          )),
    )

run_once-IsPassed :
    (n : ℕ) (pass : Pass) (items : List RetryQueueItem)
    → All (CanWait n) items
    → IsPassed n items (run_once n pass items)
unfolding run_once
run_once-IsPassed n pass items can =
    after_due-IsPassed n pass items (get_due_item pass.now items) can
      (get_due_item-IsTaken pass.now items)

-- If no waiting item has used up its attempts, then this stays so, and the passes, however many, take
-- an item at most as often as the waiting items have attempts left: whatever the CRM answers, no item
-- is tried for ever.
pub run_passes-total_left :
    (max_attempts : ℕ) (passes : List Pass) (items : List RetryQueueItem)
    → All (CanWait max_attempts) items
    → let (count, items') = run_passes max_attempts passes items in
      All (CanWait max_attempts) items'
      × (count + total_left max_attempts items' ≤ total_left max_attempts items)
unfolding run_passes
run_passes-total_left n [] items can = (can, omega arith)
run_passes-total_left n (pass ∷ passes) items can =
    let (still, less) = run_once-IsPassed n pass items can in
    let (after, fewer) = run_passes-total_left n passes (run_once n pass items).1 still in
    (after, omega (arith, less, fewer))
