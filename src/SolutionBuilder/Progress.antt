-- ===== src/SolutionBuilder/Progress.antt =====
-- How the wizard of app/solution_builder/wizard_service.py moves, and where it stops.
use makkays_chatbot.Prelude.{
  strip, ℕ, String, List, [], ◌∷◌, ◌≡◌, ◌≢◌, refl, true, false, Option, none, some, map, All, ap,
  if◌then◌else◌, Bool-cases, inl, inr,
}
use mathlib.Core.Path.{subst, sym}
use makkays_chatbot.SolutionBuilder.Bom.{classify, or_zero}
use makkays_chatbot.SolutionBuilder.Wizard.{
  parse_device_count, or_none, Requirements, WizardSession, replace_active, upsert_session, abandon,
  step_brand_preference, already_complete, question, record_answer, Services, complete,
  after_answer, advance_from, advance, run_wizard, converse, is_raised, WizardResult,
}

-- The newest row is completed.
abbrev pub IsOver : List WizardSession → Type 0
IsOver [] = ⊥
IsOver (row ∷ rows) = row.completed ≡ true

-- Only the newest row may be active.
abbrev pub IsOrderly : List WizardSession → Type 0
IsOrderly [] = Unit
IsOrderly (row ∷ rows) = All (λ old. old.completed ≡ true) rows

module _ (services : Services) where
  -- The answers of four messages, with the scale that they make.
  abbrev pub answers : String → String → String → String → Requirements
  answers use_case device_count location brand =
      let purpose = or_none (strip use_case) in
      let count = parse_device_count (strip device_count) in
      record {
        use_case = purpose;
        device_count = count;
        location = or_none (strip location);
        brand_preference = or_none (strip brand);
        project_size = some (classify (Services.settings services) (or_zero count) purpose);
      }

  advance_over :
      (message : String) (row : WizardSession) (rows : List WizardSession)
      → row.completed ≡ true
      → advance services message (row ∷ rows) ≡ (already_complete, row ∷ rows)
  unfolding advance advance_from
  advance_over message row rows over = simp (over)

  advance_active :
      (message : String) (row : WizardSession) (rows : List WizardSession)
      → row.completed ≡ false
      → advance services message (row ∷ rows)
        ≡ after_answer services
            (record_answer row.current_step (strip message) row.collected_requirements)
            (row ∷ rows)
  unfolding advance advance_from
  advance_active message row rows active = simp (active)

  run_wizard_over :
      (message : String) (row : WizardSession) (rows : List WizardSession)
      → row.completed ≡ true
      → run_wizard services message (row ∷ rows) ≡ (already_complete, row ∷ rows)
  unfolding run_wizard
  run_wizard_over message row rows over = rw (advance_over message row rows over) refl

  -- Once the newest row is completed, every later message is refused and no row changes.
  pub converse_over :
      (messages : List String) (rows : List WizardSession)
      → IsOver rows
      → converse services messages rows ≡ (map (λ _. already_complete) messages, rows)
  unfolding converse
  converse_over messages [] over = absurd over
  converse_over [] (row ∷ rows) over = refl
  converse_over (message ∷ messages) (row ∷ rows) over =
      rw (run_wizard_over message row rows over, converse_over messages (row ∷ rows) over)

  -- The row that waits for the last answer, and the completed one.
  abbrev pub waiting : String → String → String → WizardSession
  waiting use_case device_count location = record {
    current_step = step_brand_preference;
    collected_requirements = record {
      use_case = or_none (strip use_case);
      device_count = parse_device_count (strip device_count);
      location = or_none (strip location);
      brand_preference = none;
      project_size = none;
    };
    completed = false;
  }

  abbrev pub finished : String → String → String → String → WizardSession
  finished use_case device_count location brand = record {
    current_step = step_brand_preference;
    collected_requirements = answers use_case device_count location brand;
    completed = true;
  }

  -- What the answers come to: an exception, a solution or a lead.
  abbrev pub outcome_of : String → String → String → String → WizardResult
  outcome_of use_case device_count location brand =
      (complete services
        (record (answers use_case device_count location brand) { project_size = none }) []).0

  -- The last question, over the messages that answer it: each that comes to an exception leaves the
  -- row waiting; the first other one completes it, and what follows is refused.
  abbrev pub last_question :
      String → String → String → List String → List WizardResult × WizardSession
  last_question use_case device_count location [] = ([], waiting use_case device_count location)
  last_question use_case device_count location (brand ∷ brands) =
      let result = outcome_of use_case device_count location brand in
      let (later, row) = last_question use_case device_count location brands in
      if is_raised result then (result ∷ later, row) else (
        result ∷ map (λ _. already_complete) brands,
        finished use_case device_count location brand,
      )

  run_wizard-waiting :
      (use_case device_count location brand : String)
      → let result = outcome_of use_case device_count location brand in
        run_wizard services brand (waiting use_case device_count location ∷ []) ≡ (
          result,
          (if is_raised result
                then waiting use_case device_count location
                else finished use_case device_count location brand)
              ∷ [],
        )
  unfolding run_wizard advance advance_from after_answer record_answer complete upsert_session
      replace_active
  run_wizard-waiting use_case device_count location brand =
      elim (Bool-cases (is_raised (outcome_of use_case device_count location brand))) [
        | inl t ↦ rw t refl
        | inr f ↦ rw f refl
      ]

  converse-waiting :
      (use_case device_count location : String) (brands : List String)
      → let (results, row) = last_question use_case device_count location brands in
        converse services brands (waiting use_case device_count location ∷ []) ≡ (results, row ∷ [])
  unfolding converse
  converse-waiting use_case device_count location [] = refl
  converse-waiting use_case device_count location (brand ∷ brands) =
      elim (Bool-cases (is_raised (outcome_of use_case device_count location brand))) [
        | inl t ↦
            rw (run_wizard-waiting use_case device_count location brand, t)
              (rw (converse-waiting use_case device_count location brands) refl)
        | inr f ↦
            rw (run_wizard-waiting use_case device_count location brand, f)
              (rw (converse_over brands (finished use_case device_count location brand ∷ []) refl)
                refl)
      ]

  -- From no row, four messages get the four questions in order, whatever they say. From then on each
  -- message answers the last question: while this comes to an exception, nothing is kept of it and the
  -- question stays open; the first answer that does not completes the one row, with the answers and
  -- the scale that they make, and every message after it is refused.
  pub converse_completes :
      (start use_case device_count location : String) (brands : List String)
      → let (results, row) = last_question use_case device_count location brands in
        converse services (start ∷ use_case ∷ device_count ∷ location ∷ brands) []
        ≡ (question 1 ∷ question 2 ∷ question 4 ∷ question 5 ∷ results, row ∷ [])
  unfolding converse run_wizard advance advance_from after_answer record_answer upsert_session
      replace_active
  converse_completes start use_case device_count location brands =
      ap (λ ended. (question 1 ∷ question 2 ∷ question 4 ∷ question 5 ∷ ended.0, ended.1))
        (converse-waiting use_case device_count location brands)

  abandon-IsOver : (rows : List WizardSession) → rows ≢ [] → IsOver (abandon rows)
  unfolding abandon
  abandon-IsOver [] some_row = some_row refl
  abandon-IsOver (row ∷ rows) some_row = elim (Bool-cases row.completed) [
    | inl t ↦ rw t refl
    | inr f ↦ rw f refl
  ]

  -- After a wizard was abandoned, every later message is refused and no row changes.
  pub converse-abandon :
      (messages : List String) (rows : List WizardSession)
      → rows ≢ []
      → converse services messages (abandon rows)
        ≡ (map (λ _. already_complete) messages, abandon rows)
  converse-abandon messages rows some_row =
      converse_over messages (abandon rows) (abandon-IsOver rows some_row)

  upsert_session-IsOrderly :
      (new row : WizardSession) (rows : List WizardSession)
      → row.completed ≡ false
      → IsOrderly (row ∷ rows)
      → IsOrderly (upsert_session new (row ∷ rows))
  unfolding upsert_session replace_active
  upsert_session-IsOrderly new row rows active orderly = rw active orderly

  after_answer-IsOrderly :
      (answered : Requirements × Option ℕ) (row : WizardSession) (rows : List WizardSession)
      → row.completed ≡ false
      → IsOrderly (row ∷ rows)
      → IsOrderly (after_answer services answered (row ∷ rows)).1
  unfolding after_answer complete
  after_answer-IsOrderly (requirements, some next) row rows active orderly =
      upsert_session-IsOrderly _ row rows active orderly
  after_answer-IsOrderly (requirements, none) row rows active orderly =
      upsert_session-IsOrderly _ row rows active orderly

  -- If no row but the newest is active, a turn of the wizard leaves it so.
  pub advance-IsOrderly :
      (message : String) (rows : List WizardSession)
      → IsOrderly rows
      → IsOrderly (advance services message rows).1
  unfolding advance advance_from upsert_session replace_active
  advance-IsOrderly message [] orderly = tt
  advance-IsOrderly message (row ∷ rows) orderly = elim (Bool-cases row.completed) [
    | inl over ↦ subst (λ r. IsOrderly r.1) (sym (advance_over message row rows over)) orderly
    | inr active ↦
        subst (λ r. IsOrderly r.1) (sym (advance_active message row rows active))
          (after_answer-IsOrderly
            (record_answer row.current_step (strip message) row.collected_requirements) row rows
            active orderly)
  ]
