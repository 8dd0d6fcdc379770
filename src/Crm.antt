-- ===== src/Crm.antt =====
-- app/crm/repository.py and app/crm/worker.py: the queue of the leads that wait for the CRM, and the
-- worker that sends them.
--
-- Times are numbers of minutes. One pass is given the time, whether the lead of an item still exists,
-- and the answer of the CRM, `none` if the call succeeds. Rows that other workers have locked, which a
-- pass skips, are left out.
pub mod Laws
pub mod Leads
pub mod Outbox
mod Tests
use makkays_chatbot.Prelude.{
  ℕ, zero, suc, ◌+◌, ◌-◌, ◌^◌, String, List, [], ◌∷◌, ◌++◌, Bool, true, false, ◌&&◌, Option, none,
  some, leb, ltb, take_text, concat, if◌then◌else◌,
}
use makkays_chatbot.Shared.{Uuid}

pub data QueueStatus : Type 0 where
  pending synced permanently_failed : QueueStatus

pub record RetryQueueItem : Type 0 where
  pub id : Uuid
  pub lead_id : Uuid
  pub status : QueueStatus
  pub attempts : ℕ
  pub next_retry_at : ℕ
  pub last_error : Option String

abbrev pub is_pending : QueueStatus → Bool
is_pending pending = true
is_pending synced = false
is_pending permanently_failed = false

abbrev pub is_due : ℕ → RetryQueueItem → Bool
is_due now item = is_pending item.status && leb item.next_retry_at now

-- enqueue: a new item is due at once.
unfoldable pub enqueue : Uuid → Uuid → ℕ → List RetryQueueItem → List RetryQueueItem
enqueue id lead_id now items =
    items
    ++ record {
      id = id;
      lead_id = lead_id;
      status = pending;
      attempts = 0;
      next_retry_at = now;
      last_error = none;
    }
      ∷ []

-- The queue around the item that is taken.
pub record Taken : Type 0 where
  pub before : List RetryQueueItem
  pub item : RetryQueueItem
  pub rest : List RetryQueueItem

abbrev pub later_in : RetryQueueItem → Option Taken → Option Taken
later_in item none = none
later_in item (some taken) = some (record taken { before = item ∷ taken.before })

abbrev pub earlier_of : RetryQueueItem → List RetryQueueItem → Option Taken → Option Taken
earlier_of item items none = some (record { before = []; item = item; rest = items })
earlier_of item items (some taken) =
    if ltb taken.item.next_retry_at item.next_retry_at
    then some (record taken { before = item ∷ taken.before })
    else some (record { before = []; item = item; rest = items })

-- get_due_item: the due item whose time is the earliest.
unfoldable pub get_due_item : ℕ → List RetryQueueItem → Option Taken
get_due_item now [] = none
get_due_item now (item ∷ items) =
    let found = get_due_item now items in
    let here = earlier_of item items found in if is_due now item then here else later_in item found

-- mark_succeeded
unfoldable pub mark_succeeded : RetryQueueItem → RetryQueueItem
mark_succeeded item = record item { status = synced; last_error = none }

-- mark_failed: the delay doubles with each attempt, and after the last one the item is given up.
unfoldable pub mark_failed : ℕ → ℕ → String → RetryQueueItem → RetryQueueItem
mark_failed now max_attempts error item =
    let attempts = item.attempts + 1 in
    let last_error = some (take_text 2000 error) in
    if leb max_attempts attempts
    then record item { attempts = attempts; last_error = last_error; status = permanently_failed }
    else record item {
      attempts = attempts;
      last_error = last_error;
      next_retry_at = now + 2 ^ (attempts - 1);
      status = pending;
    }

-- One pass of the worker as the outside sees it.
pub record Pass : Type 0 where
  pub now : ℕ
  pub lead_exists : Uuid → Bool
  pub crm_error : Uuid → Option String

-- RetryQueueResult: whether an item was processed, and its status then.
pub data RetryQueueResult : Type 0 where
  idle : RetryQueueResult
  processed : Uuid → QueueStatus → RetryQueueResult

abbrev pub answered : ℕ → ℕ → Option String → RetryQueueItem → RetryQueueItem
answered now max_attempts none item = mark_succeeded item
answered now max_attempts (some error) item = mark_failed now max_attempts error item

unfoldable pub process : ℕ → Pass → RetryQueueItem → RetryQueueItem
unfolding mark_succeeded mark_failed
process max_attempts pass item =
    if pass.lead_exists item.lead_id
    then answered pass.now max_attempts (pass.crm_error item.lead_id) item
    else mark_failed pass.now max_attempts
        (concat ("Lead " ∷ item.lead_id ∷ " no longer exists" ∷ [])) item

abbrev pub after_due :
    ℕ → Pass → List RetryQueueItem → Option Taken → RetryQueueResult × List RetryQueueItem
after_due max_attempts pass items none = (idle, items)
after_due max_attempts pass items (some taken) =
    let item = process max_attempts pass taken.item in
    (processed item.id item.status, taken.before ++ item ∷ taken.rest)

-- RetryWorker.run_once
unfoldable pub run_once : ℕ → Pass → List RetryQueueItem → RetryQueueResult × List RetryQueueItem
unfolding get_due_item process
run_once max_attempts pass items = after_due max_attempts pass items (get_due_item pass.now items)

abbrev pub count_processed : RetryQueueResult → ℕ
count_processed idle = 0
count_processed (processed id status) = 1

-- The passes one after another, and how many of them processed an item.
unfoldable pub run_passes : ℕ → List Pass → List RetryQueueItem → ℕ × List RetryQueueItem
unfolding run_once
run_passes max_attempts [] items = (0, items)
run_passes max_attempts (pass ∷ passes) items =
    let (result, items') = run_once max_attempts pass items in
    let (count, items'') = run_passes max_attempts passes items' in
    (count_processed result + count, items'')
