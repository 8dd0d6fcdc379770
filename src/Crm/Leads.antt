-- ===== src/Crm/Leads.antt =====
-- app/crm/service.py: the capture of a lead, and the queue item that goes with it.
--
-- The identifiers of new rows, the text of a decimal, `str.lower`, the text of pydantic's error and
-- the failure of a commit are parameters. The notification that is sent in the background, which
-- changes nothing, is left out.
use makkays_chatbot.Prelude.{
  ℕ, String, List, [], ◌∷◌, ◌++◌, Bool, true, false, ◌&&◌, ◌||◌, not, Option, none, some, map, any,
  eqb, codes, concat, contains, lookup, strip, ◌==◌, if◌then◌else◌,
}
use makkays_chatbot.Shared.{Uuid}
use makkays_chatbot.Session.Schemas.{Decimal, FactsSchema}
use makkays_chatbot.Tools.Schemas.{
  Attempt, returned, raised, other, ToolExecutionResult, ExecutionContext, SessionContext,
}
use makkays_chatbot.Crm.{RetryQueueItem, enqueue, RetryQueueResult, run_once}

-- The dictionary of _qualification_from_facts, which has these four keys.
pub record Qualification : Type 0 where
  pub budget : Option String
  pub quantity : Option ℕ
  pub industry : Option String
  pub project_size : Option String

pub record Lead : Type 0 where
  pub id : Uuid
  pub tenant_id : Uuid
  pub session_id : String
  pub contact_name : Option String
  pub contact_email : Option String
  pub contact_phone : Option String
  pub company : Option String
  pub product_interest : Option String
  pub message : Option String
  pub status : String
  pub qualification : Qualification
  pub facts_snapshot : FactsSchema

-- The two tables.
pub record LeadStore : Type 0 where
  pub leads : List Lead
  pub queue : List RetryQueueItem

pub record Services : Type 0 where
  pub new_lead_id : List Lead → Uuid
  pub new_item_id : List RetryQueueItem → Uuid
  pub decimal_text : Decimal → String
  pub lower_text : String → String
  pub validation_text : String → String

-- bool(text)
abbrev pub is_text : Option String → Bool
is_text none = false
is_text (some text) = not (text == "")

abbrev pub or_none : String → Option String
or_none text = if text == "" then none else some text

-- LeadCreate.normalize_phone
unfoldable pub normalize_phone : Option String → Option String
unfolding strip
normalize_phone none = none
normalize_phone (some value) = or_none (strip value)

-- text.rsplit("@", 1)[-1]
abbrev pub after_at : List ℕ → List ℕ
after_at [] = []
after_at (c ∷ text) =
    let rest = after_at text in
    if any (eqb 64) text then rest else if eqb c 64 then text else c ∷ text

abbrev pub looks_like_email : List ℕ → Bool
looks_like_email text = any (eqb 64) text && any (eqb 46) (after_at text)

module _ (services : Services) where
  abbrev pub checked_email : String → Attempt (Option String)
  checked_email stripped =
      if stripped == ""
      then returned none
      else if looks_like_email (codes stripped)
      then returned (some stripped)
      else raised (other (services.validation_text "contact_email must look like an email address"))

  -- LeadCreate.normalize_email
  unfoldable pub normalize_email : Option String → Attempt (Option String)
  unfolding strip
  normalize_email none = returned none
  normalize_email (some value) = checked_email (services.lower_text (strip value))

  abbrev pub budget_text : Option Decimal → Option String
  budget_text none = none
  budget_text (some budget) = some (services.decimal_text budget)

  -- _qualification_from_facts
  unfoldable pub qualification_from_facts : FactsSchema → Qualification
  qualification_from_facts facts = record {
    budget = budget_text facts.budget;
    quantity = facts.quantity;
    industry = facts.industry;
    project_size = facts.project_size;
  }

  abbrev pub summary_of : Option ToolExecutionResult → Option String
  summary_of none = none
  summary_of (some quote) = some quote.result_summary

  -- _build_lead_create and LeadRepository.create, for an email that is normalised.
  unfoldable pub build_lead : SessionContext → ExecutionContext → Option String → List Lead → Lead
  unfolding qualification_from_facts normalize_phone lookup
  build_lead session context email leads = record {
    id = services.new_lead_id leads;
    tenant_id = session.tenant_id;
    session_id = session.session_id;
    contact_name = session.facts.contact_name;
    contact_email = email;
    contact_phone = normalize_phone session.facts.contact_phone;
    company = session.facts.company;
    product_interest = session.facts.product_interest;
    message = summary_of (lookup "generate_quote" context);
    status = "new";
    qualification = qualification_from_facts session.facts;
    facts_snapshot = session.facts;
  }

  -- The text of the last value of an `or`.
  abbrev pub last_text : Option String → String
  last_text none = "None"
  last_text (some text) = text

  abbrev pub or_next : Option String → String → String
  or_next none next = next
  or_next (some text) next = if text == "" then next else text

  unfoldable pub lead_summary : Lead → String
  lead_summary lead = concat (
      "Created lead "
      ∷ lead.id
      ∷ " for "
      ∷ or_next lead.company
          (or_next lead.contact_name (or_next lead.contact_email (last_text lead.contact_phone)))
      ∷ "."
      ∷ [])

  -- The rows of a lead and of its item.
  unfoldable pub add_lead : ℕ → Lead → LeadStore → LeadStore
  unfolding enqueue
  add_lead now lead store = record {
    leads = store.leads ++ lead ∷ [];
    queue = enqueue (services.new_item_id store.queue) lead.id now store.queue;
  }

  abbrev pub after_email :
      ℕ
      → SessionContext
      → ExecutionContext
      → LeadStore
      → Attempt (Option String)
      → Attempt String × LeadStore
  after_email now session context store (raised error) = (raised error, store)
  after_email now session context store (returned email) =
      let lead = build_lead session context email store.leads in
      (returned (lead_summary lead), add_lead now lead store)

  -- LeadService.create_lead: the summary of the result.
  unfoldable pub create_lead :
      ℕ → SessionContext → ExecutionContext → LeadStore → Attempt String × LeadStore
  unfolding normalize_email build_lead lead_summary add_lead
  create_lead now session context store =
      if is_text session.facts.contact_email || is_text session.facts.contact_phone
      then after_email now session context store (normalize_email session.facts.contact_email)
      else (raised (other "Lead creation requires contact_email or contact_phone"), store)

  -- The commit; a transaction that is left by an exception is rolled back to `before`.
  abbrev pub committed :
      Option String
      → LeadStore
      → Attempt String × LeadStore
      → Attempt ToolExecutionResult × LeadStore
  committed commit_error before (raised error, store) = (raised error, before)
  committed (some error) before (returned summary, store) = (raised (other error), before)
  committed none before (returned summary, store) = (
    returned (record {
      step = "create_lead";
      success = true;
      result_summary = summary;
      error = none;
      product_ids = none;
    }),
    store,
  )

  -- create_lead_tool
  unfoldable pub create_lead_tool :
      ℕ
      → Option String
      → SessionContext
      → ExecutionContext
      → LeadStore
      → Attempt ToolExecutionResult × LeadStore
  unfolding create_lead
  create_lead_tool now commit_error session context store =
      committed commit_error store (create_lead now session context store)

-- LeadRepository.get, as the worker asks it.
abbrev pub lead_ids : List Lead → List Uuid
lead_ids leads = map (λ lead. lead.id) leads

-- RetryWorker.run_once on the two tables.
unfoldable pub run_worker :
    ℕ → ℕ → (Uuid → Option String) → LeadStore → RetryQueueResult × LeadStore
unfolding run_once
run_worker max_attempts now crm_error store =
    let (result, queue) =
      run_once max_attempts
        (record { now = now; lead_exists = contains (lead_ids store.leads); crm_error = crm_error })
        store.queue in
    (result, record store { queue = queue })
