-- ===== src/SolutionBuilder/Wizard.antt =====
-- app/solution_builder/wizard_service.py and WizardSessionRepository of repository.py: the wizard that
-- asks for the requirements of a project, one question a turn.
--
-- The rows are those of one session, the newest first. The lead for a large project, the narration of
-- a solution and the capacity stated in the conversation come from other components, which are
-- parameters.
use makkays_chatbot.Prelude.{
  ℕ, String, List, [], ◌∷◌, Bool, true, false, Option, none, some, eqb, codes, ◌==◌, if◌then◌else◌,
  strip,
}
use makkays_chatbot.Tools.RateLimit.{is_digit, span_digits}
use makkays_chatbot.SolutionBuilder.Bom.{
  PricingMode, calculated, call_for_pricing, ProjectScale, SolutionBuilderSettings, classify,
  Capacity, WizardRequirements, Solution, Catalog, or_zero, build,
}

abbrev number_of : Option (ℕ × List ℕ) → Option ℕ
number_of none = none
number_of (some (n, rest)) = some n

-- The number that the first digits write.
unfoldable first_number : List ℕ → Option ℕ
unfolding span_digits
first_number [] = none
first_number (c ∷ cs) =
    let later = first_number cs in
    let here = number_of (span_digits 0 false (c ∷ cs)) in if is_digit c then here else later

-- _parse_device_count
unfoldable pub parse_device_count : String → Option ℕ
unfolding first_number
parse_device_count answer = first_number (codes answer)

-- `answer or None`
abbrev pub or_none : String → Option String
or_none answer = if answer == "" then none else some answer

-- The answers collected so far.
pub record Requirements : Type 0 where
  pub use_case : Option String
  pub device_count : Option ℕ
  pub location : Option String
  pub brand_preference : Option String
  pub project_size : Option ProjectScale

abbrev pub no_requirements : Requirements
no_requirements = record {
  use_case = none;
  device_count = none;
  location = none;
  brand_preference = none;
  project_size = none;
}

pub record WizardSession : Type 0 where
  pub current_step : ℕ
  pub collected_requirements : Requirements
  pub completed : Bool

-- get_latest
abbrev pub get_latest : List WizardSession → Option WizardSession
get_latest [] = none
get_latest (row ∷ rows) = some row

-- get_active
unfoldable pub get_active : List WizardSession → Option WizardSession
get_active [] = none
get_active (row ∷ rows) = let later = get_active rows in if row.completed then later else some row

abbrev with_row : WizardSession → Option (List WizardSession) → Option (List WizardSession)
with_row row none = none
with_row row (some rows) = some (row ∷ rows)

abbrev or_newest :
    WizardSession → List WizardSession → Option (List WizardSession) → List WizardSession
or_newest new rows none = new ∷ rows
or_newest new rows (some replaced) = replaced

-- The active row is replaced, if there is one.
unfoldable pub replace_active : WizardSession → List WizardSession → Option (List WizardSession)
replace_active new [] = none
replace_active new (row ∷ rows) =
    let later = with_row row (replace_active new rows) in
    if row.completed then later else some (new ∷ rows)

-- upsert
unfoldable pub upsert_session : WizardSession → List WizardSession → List WizardSession
unfolding replace_active
upsert_session new rows = or_newest new rows (replace_active new rows)

abbrev complete_row : WizardSession → WizardSession
complete_row row = record row { completed = true }

-- abandon
unfoldable pub abandon : List WizardSession → List WizardSession
abandon [] = []
abandon (row ∷ rows) =
    let later = row ∷ abandon rows in if row.completed then later else complete_row row ∷ rows

-- STEP_USE_CASE, STEP_DEVICE_COUNT, STEP_LOCATION, STEP_BRAND_PREFERENCE
abbrev pub step_use_case : ℕ
step_use_case = 1

abbrev pub step_device_count : ℕ
step_device_count = 2

abbrev pub step_location : ℕ
step_location = 4

abbrev pub step_brand_preference : ℕ
step_brand_preference = 5

-- What a turn of the wizard ends with: `WizardAlreadyCompleteError`, `InsufficientProductDataError`,
-- another exception, the next question, a solution, or the reference of a lead.
pub data WizardResult : Type 0 where
  already_complete insufficient_data failed : WizardResult
  question : ℕ → WizardResult
  solved : Solution → String → WizardResult
  referred : String → WizardResult

-- `advance` has raised.
abbrev pub is_raised : WizardResult → Bool
is_raised already_complete = true
is_raised insufficient_data = true
is_raised failed = true
is_raised (question step) = false
is_raised (solved solution narration) = false
is_raised (referred reference) = false

-- The rows after the transaction: those before it, if it is left by an exception.
abbrev pub committed :
    List WizardSession → WizardResult × List WizardSession → WizardResult × List WizardSession
committed before (result, rows) = (result, if is_raised result then before else rows)

-- The answer is recorded, and the next step, or none after the last question.
unfoldable pub record_answer : ℕ → String → Requirements → Requirements × Option ℕ
unfolding parse_device_count
record_answer step answer requirements =
    if eqb step step_use_case
    then (record requirements { use_case = or_none answer }, some step_device_count)
    else if eqb step step_device_count
    then (record requirements { device_count = parse_device_count answer }, some step_location)
    else if eqb step step_location
    then (record requirements { location = or_none answer }, some step_brand_preference)
    else if eqb step step_brand_preference
    then (record requirements { brand_preference = or_none answer }, none)
    else (requirements, none)

-- The components that complete a wizard: the lead, the narration and the saving of a solution may
-- raise (`none`).
pub record Services : Type 0 where
  pub settings : SolutionBuilderSettings
  pub catalog : Catalog
  pub capacity : Option Capacity
  pub call_for_pricing_service : WizardRequirements → ProjectScale → Option String
  pub explain : Solution → Option String
  pub save : Solution → Bool

module _ (services : Services) where
  abbrev or_failed : Option String → WizardResult
  or_failed none = failed
  or_failed (some reference) = referred reference

  abbrev saved : Solution → Option String → WizardResult
  saved solution none = failed
  saved solution (some narration) =
      if services.save solution then solved solution narration else failed

  abbrev narrated : Option Solution → WizardResult
  narrated none = insufficient_data
  narrated (some solution) = saved solution (services.explain solution)

  abbrev outcome : PricingMode → ProjectScale → WizardRequirements → WizardResult
  outcome call_for_pricing scale requirements =
      or_failed (services.call_for_pricing_service requirements scale)
  outcome calculated scale requirements = narrated (build services.catalog requirements)

  -- _complete: the row is completed first, whatever the outcome; `run_wizard` undoes it where the
  -- outcome is an exception.
  unfoldable pub complete : Requirements → List WizardSession → WizardResult × List WizardSession
  unfolding upsert_session classify
  complete r rows =
      let scale = classify services.settings (or_zero r.device_count) r.use_case in
      (
        outcome scale.pricing_mode scale (record {
          use_case = r.use_case;
          device_count = r.device_count;
          project_size = some scale;
          location = r.location;
          brand_preference = r.brand_preference;
          capacity = services.capacity;
        }),
        upsert_session
            (record {
              current_step = step_brand_preference;
              collected_requirements = record r { project_size = some scale };
              completed = true;
            })
            rows,
      )

  unfoldable pub after_answer :
      Requirements × Option ℕ → List WizardSession → WizardResult × List WizardSession
  unfolding upsert_session complete
  after_answer (requirements, some next) rows = (
    question next,
    upsert_session
        (record { current_step = next; collected_requirements = requirements; completed = false })
        rows,
  )
  after_answer (requirements, none) rows = complete requirements rows

  unfoldable pub advance_from :
      Option WizardSession → String → List WizardSession → WizardResult × List WizardSession
  unfolding after_answer record_answer upsert_session strip
  advance_from none message rows = (
    question step_use_case,
    upsert_session
        (record {
          current_step = step_use_case;
          collected_requirements = no_requirements;
          completed = false;
        })
        rows,
  )
  advance_from (some row) message rows =
      let next =
        after_answer (record_answer row.current_step (strip message) row.collected_requirements)
          rows in
      if row.completed then (already_complete, rows) else next

  -- advance
  unfoldable pub advance : String → List WizardSession → WizardResult × List WizardSession
  unfolding advance_from
  advance message rows = advance_from (get_latest rows) message rows

  -- run_wizard_tool: the transaction is committed only where `advance` has returned a step.
  unfoldable pub run_wizard : String → List WizardSession → WizardResult × List WizardSession
  unfolding advance
  run_wizard message rows = committed rows (advance message rows)

  -- The wizard over a sequence of messages, a call of the tool for each.
  unfoldable pub converse :
      List String → List WizardSession → List WizardResult × List WizardSession
  converse [] rows = ([], rows)
  converse (message ∷ messages) rows =
      let (result, rows') = run_wizard message rows in
      let (results, end) = converse messages rows' in (result ∷ results, end)
