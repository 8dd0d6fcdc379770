-- ===== src/Crm/Tests.antt =====
-- Runs of app/crm/worker.py and app/crm/service.py, and the instances of their theorems.
use makkays_chatbot.Prelude.{ℕ, ◌≡◌, ◌+◌, ◌≤◌, refl, List, [], ◌∷◌, length, true, none, some, All}
use makkays_chatbot.Session.Schemas.{empty_facts, empty_state}
use makkays_chatbot.Tools.Schemas.{returned, raised, other, SessionContext}
use makkays_chatbot.Crm.{permanently_failed, enqueue, Pass, run_passes}
use makkays_chatbot.Crm.Leads.{
  LeadStore, Services, normalize_phone, normalize_email, create_lead, create_lead_tool,
}
use makkays_chatbot.Crm.Outbox.{IsOutbox, Event, captured, passed, run_events, run_events-IsOutbox}
use makkays_chatbot.Crm.Laws.{CanWait, total_left, run_passes-total_left}

abbrev down : ℕ → Pass
down now = record { now = now; lead_exists = λ id. true; crm_error = λ id. some "timeout" }

-- Two attempts: at once and a minute later. The third pass finds nothing.
gives_up : run_passes 2 (down 0 ∷ down 1 ∷ down 9 ∷ []) (enqueue "i" "l" 0 []) ≡ (
  2,
  record {
    id = "i";
    lead_id = "l";
    status = permanently_failed;
    attempts = 2;
    next_retry_at = 1;
    last_error = some "timeout";
  }
      ∷ [],
)
unfolding run_passes enqueue
gives_up = refl

can_wait : All (CanWait 2) (enqueue "i" "l" 0 [])
unfolding enqueue
can_wait = (refl, tt)

run_passes-total_left_example :
    let (count, items') = run_passes 2 (down 0 ∷ down 1 ∷ down 9 ∷ []) (enqueue "i" "l" 0 []) in
    All (CanWait 2) items' × (count + total_left 2 items' ≤ total_left 2 (enqueue "i" "l" 0 []))
run_passes-total_left_example =
    run_passes-total_left 2 (down 0 ∷ down 1 ∷ down 9 ∷ []) (enqueue "i" "l" 0 []) can_wait

abbrev services : Services
services = record {
  new_lead_id = λ leads. "l";
  new_item_id = λ items. "i";
  decimal_text = λ amount. "0";
  lower_text = λ text. text;
  validation_text = λ text. text;
}

abbrev visitor : SessionContext
visitor = record {
  tenant_id = "t";
  session_id = "s";
  facts = record (empty_facts "t" "s") { contact_email = some " a@b.c "; company = some "" };
  conversation_state = empty_state "t" "s";
  message = "";
  recent_turns = [];
}

abbrev nobody : SessionContext
nobody = record visitor { facts = empty_facts "t" "s" }

abbrev empty : LeadStore
empty = record { leads = []; queue = [] }

email_read : normalize_email services (some " a@b.c ") ≡ returned (some "a@b.c")
unfolding normalize_email
email_read = refl

-- The part after the last `@` has no dot.
email_refused :
    normalize_email services (some "a.b@c")
    ≡ raised (other "contact_email must look like an email address")
unfolding normalize_email
email_refused = refl

phone_dropped : normalize_phone (some "  ") ≡ none
unfolding normalize_phone
phone_dropped = refl

summary_read : (create_lead services 0 visitor [] empty).0 ≡ returned "Created lead l for a@b.c."
unfolding create_lead
summary_read = refl

no_contact : (create_lead services 0 nobody [] empty).1 ≡ empty
unfolding create_lead
no_contact = refl

not_kept :
    create_lead_tool services 0 (some "down") visitor [] empty ≡ (raised (other "down"), empty)
unfolding create_lead_tool
not_kept = refl

abbrev day : List Event
day =
    captured 0 none visitor []
    ∷ captured 1 none nobody []
    ∷ passed 2 (λ id. some "timeout")
    ∷ passed 3 (λ id. none)
    ∷ []

one_lead : (run_events services 5 day empty).0 ≡ 1
unfolding run_events
one_lead = refl

run_events-IsOutbox_example :
    let (reported, store') = run_events services 5 day empty in
    IsOutbox 5 store' × (length store'.leads ≡ 0 + reported)
run_events-IsOutbox_example =
    run_events-IsOutbox services 5 day empty (record { one_each = refl; all_tried = tt })
