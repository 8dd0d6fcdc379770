-- ===== src/Session/Updates.antt =====
-- The partial updates of app/session/schemas.py, and the upserts of app/session/repository.py that
-- apply them.
--
-- A field of an update is `none` when it is unset and `some none` when it is null.
use makkays_chatbot.Prelude.{
  ℕ, suc, String, List, [], ◌∷◌, Bool, true, false, ◌||◌, Option, none, some, is_some, any,
  if◌then◌else◌,
}
use makkays_chatbot.Shared.{Uuid, Confidence}
use makkays_chatbot.Session.Schemas.{
  Decimal, Plan, FactsSchema, ConversationStateSchema, empty_facts, empty_state,
}
use makkays_chatbot.Session.Caching.{Store, tick, put_row}

pub record FactsUpdate : Type 0 where
  pub budget : Option (Option Decimal)
  pub company : Option (Option String)
  pub industry : Option (Option String)
  pub product_interest : Option (Option String)
  pub project_size : Option (Option String)
  pub location : Option (Option String)
  pub timeline : Option (Option String)
  pub is_decision_maker : Option (Option Bool)
  pub quantity : Option (Option ℕ)
  pub contact_name : Option (Option String)
  pub contact_email : Option (Option String)
  pub contact_phone : Option (Option String)

-- FactsUpdate()
abbrev pub no_facts : FactsUpdate
no_facts = record {
  budget = none;
  company = none;
  industry = none;
  product_interest = none;
  project_size = none;
  location = none;
  timeline = none;
  is_decision_maker = none;
  quantity = none;
  contact_name = none;
  contact_email = none;
  contact_phone = none;
}

-- A field of non_null_patch: null is dropped as unset is.
unfoldable pub non_null : {A : Type 0} → Option (Option A) → Option A
non_null none = none
non_null (some value) = value

-- The patch has a value that is not null.
unfoldable pub has_values : FactsUpdate → Bool
unfolding non_null
has_values p =
    any (λ b. b)
      (is_some (non_null p.budget)
        ∷ is_some (non_null p.company)
        ∷ is_some (non_null p.industry)
        ∷ is_some (non_null p.product_interest)
        ∷ is_some (non_null p.project_size)
        ∷ is_some (non_null p.location)
        ∷ is_some (non_null p.timeline)
        ∷ is_some (non_null p.is_decision_maker)
        ∷ is_some (non_null p.quantity)
        ∷ is_some (non_null p.contact_name)
        ∷ is_some (non_null p.contact_email)
        ∷ is_some (non_null p.contact_phone)
        ∷ [])

-- EXCLUDED's column if the patch has it, else the row's.
unfoldable pub override : {A : Type 0} → Option A → Option A → Option A
override (some new) old = some new
override none old = old

-- The row of FactsRepository.upsert: inserted, or updated in the columns of the patch.
unfoldable pub merge_facts : FactsUpdate → FactsSchema → FactsSchema
unfolding override non_null
merge_facts p f = record {
  tenant_id = f.tenant_id;
  session_id = f.session_id;
  budget = override (non_null p.budget) f.budget;
  company = override (non_null p.company) f.company;
  industry = override (non_null p.industry) f.industry;
  product_interest = override (non_null p.product_interest) f.product_interest;
  project_size = override (non_null p.project_size) f.project_size;
  location = override (non_null p.location) f.location;
  timeline = override (non_null p.timeline) f.timeline;
  is_decision_maker = override (non_null p.is_decision_maker) f.is_decision_maker;
  quantity = override (non_null p.quantity) f.quantity;
  contact_name = override (non_null p.contact_name) f.contact_name;
  contact_email = override (non_null p.contact_email) f.contact_email;
  contact_phone = override (non_null p.contact_phone) f.contact_phone;
}

pub record ConversationStateUpdate : Type 0 where
  pub current_intent : Option (Option String)
  pub intent_confidence : Option (Option Confidence)
  pub awaiting_clarification : Option (Option Bool)
  pub clarification_candidates : Option (Option (List String))
  pub clarification_rounds : Option (Option ℕ)
  pub current_plan : Option (Option Plan)
  pub current_plan_step : Option (Option ℕ)
  pub last_question : Option (Option String)
  pub spec_question_detected : Option (Option Bool)
  pub contact_info_captured : Option (Option Bool)
  pub handoff_target : Option (Option String)
  pub language_code : Option (Option String)
  pub language_override : Option (Option Bool)

-- ConversationStateUpdate()
abbrev pub no_change : ConversationStateUpdate
no_change = record {
  current_intent = none;
  intent_confidence = none;
  awaiting_clarification = none;
  clarification_candidates = none;
  clarification_rounds = none;
  current_plan = none;
  current_plan_step = none;
  last_question = none;
  spec_question_detected = none;
  contact_info_captured = none;
  handoff_target = none;
  language_code = none;
  language_override = none;
}

-- The patch sets a field, to a value or to null.
unfoldable pub sets_field : ConversationStateUpdate → Bool
sets_field p =
    any (λ b. b)
      (is_some p.current_intent
        ∷ is_some p.intent_confidence
        ∷ is_some p.awaiting_clarification
        ∷ is_some p.clarification_candidates
        ∷ is_some p.clarification_rounds
        ∷ is_some p.current_plan
        ∷ is_some p.current_plan_step
        ∷ is_some p.last_question
        ∷ is_some p.spec_question_detected
        ∷ is_some p.contact_info_captured
        ∷ is_some p.handoff_target
        ∷ is_some p.language_code
        ∷ is_some p.language_override
        ∷ [])

abbrev is_null : {A : Type 0} → Option (Option A) → Bool
is_null (some none) = true
is_null (some (some a)) = false
is_null none = false

-- The patch sets a column to null that is declared `nullable=False`, which Postgres refuses.
unfoldable pub breaks_not_null : ConversationStateUpdate → Bool
breaks_not_null p =
    any (λ b. b)
      (is_null p.awaiting_clarification
        ∷ is_null p.clarification_candidates
        ∷ is_null p.clarification_rounds
        ∷ is_null p.spec_question_detected
        ∷ is_null p.contact_info_captured
        ∷ is_null p.language_code
        ∷ is_null p.language_override
        ∷ [])

-- A nullable column.
unfoldable pub change : {A : Type 0} → Option (Option A) → Option A → Option A
change (some new) old = new
change none old = old

-- A column that is not null.
unfoldable pub change_value : {A : Type 0} → Option (Option A) → A → A
change_value (some (some new)) old = new
change_value (some none) old = old
change_value none old = old

-- The row of ConversationStateRepository.upsert.
unfoldable pub merge_state :
    ConversationStateUpdate → ConversationStateSchema → ConversationStateSchema
unfolding change change_value
merge_state p s = record {
  tenant_id = s.tenant_id;
  session_id = s.session_id;
  current_intent = change p.current_intent s.current_intent;
  intent_confidence = change p.intent_confidence s.intent_confidence;
  awaiting_clarification = change_value p.awaiting_clarification s.awaiting_clarification;
  clarification_candidates = change_value p.clarification_candidates s.clarification_candidates;
  clarification_rounds = change_value p.clarification_rounds s.clarification_rounds;
  current_plan = change p.current_plan s.current_plan;
  current_plan_step = change p.current_plan_step s.current_plan_step;
  last_question = change p.last_question s.last_question;
  spec_question_detected = change_value p.spec_question_detected s.spec_question_detected;
  contact_info_captured = change_value p.contact_info_captured s.contact_info_captured;
  handoff_target = change p.handoff_target s.handoff_target;
  language_code = change_value p.language_code s.language_code;
  language_override = change_value p.language_override s.language_override;
}

abbrev pub or_else : {A : Type 0} → A → Option A → A
or_else a none = a
or_else a (some b) = b

abbrev rounds_of : Option ConversationStateSchema → Option ℕ
rounds_of none = none
rounds_of (some row) = some row.clarification_rounds

-- `none` is a statement that raises.
module _ (fails : ℕ → Bool) (tenant : Uuid) (session : String) where
  -- FactsRepository.upsert with a value in the patch
  unfoldable pub upsert_facts :
      FactsUpdate → Store FactsSchema → Option FactsSchema × Store FactsSchema
  upsert_facts p s =
      let row = merge_facts p (or_else (empty_facts tenant session) (s.rows tenant session)) in
      if fails s.calls then (none, tick s) else (some row, put_row tenant session row (tick s))

  -- ConversationStateRepository.upsert with a field in the patch
  unfoldable pub upsert_state :
      ConversationStateUpdate
      → Store ConversationStateSchema
      → Option ConversationStateSchema × Store ConversationStateSchema
  upsert_state p s =
      let row = merge_state p (or_else (empty_state tenant session) (s.rows tenant session)) in
      if fails s.calls || breaks_not_null p
      then (none, tick s)
      else (some row, put_row tenant session row (tick s))

  abbrev after_increment :
      Store ConversationStateSchema
      → Option ConversationStateSchema
      → Option ℕ × Store ConversationStateSchema
  after_increment s (some row) =
      let next = record row { clarification_rounds = suc row.clarification_rounds } in
      (some next.clarification_rounds, put_row tenant session next s)
  after_increment s none =
      let (created, s') =
        upsert_state (record no_change { clarification_rounds = some (some 1) }) s in
      (rounds_of created, s')

  -- increment_clarification_round: an UPDATE … RETURNING, and an insert where there is no row.
  unfoldable pub increment_clarification_round :
      Store ConversationStateSchema → Option ℕ × Store ConversationStateSchema
  unfolding upsert_state
  increment_clarification_round s =
      if fails s.calls then (none, tick s) else after_increment (tick s) (s.rows tenant session)
