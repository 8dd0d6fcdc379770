-- ===== src/SolutionBuilder/Tests.antt =====
-- Runs of the wizard and of the bill of materials, and their theorems at concrete inputs.
use makkays_chatbot.Prelude.{
  strip, ◌*◌, ◌-◌, ◌≤◌, ◌<◌, [], ◌∷◌, ◌≡◌, ◌≢◌, ◌⊎◌, refl, true, false, none, some, All, ◌==◌,
  if◌then◌else◌,
}
use makkays_chatbot.SolutionBuilder.Bom.{
  Catalog, WizardRequirements, Solution, default_settings, switch_quantity, ups_quantity, half_even,
  quantize, category_quantities, find_product, line_item_for_category, line_items_for,
  sum_subtotals, build, classify,
}
use makkays_chatbot.SolutionBuilder.Wizard.{
  Services, WizardSession, no_requirements, step_location, already_complete, question,
  parse_device_count, or_none, advance, converse, abandon, failed, record_answer, replace_active,
  upsert_session, complete, after_answer, advance_from, run_wizard,
}
use makkays_chatbot.SolutionBuilder.Quantities.{switch_quantity_lem}
use makkays_chatbot.SolutionBuilder.Bills.{IsPriced, build-IsPriced}
use makkays_chatbot.SolutionBuilder.Progress.{
  IsOrderly, waiting, last_question, converse_completes, converse-abandon, advance-IsOrderly,
}

abbrev catalog : Catalog
catalog = record {
  find_by_filters = λ category capacity. if category == "UPS Solutions" then "p1" ∷ [] else [];
  get_name = λ id. some "UPS 20kVA";
  get_price = λ id. some (record { coefficient = 19995; scale = 2 });
}

abbrev services : Services
services = record {
  settings = default_settings;
  catalog = catalog;
  capacity = none;
  call_for_pricing_service = λ requirements scale. some "ref";
  explain = λ solution. some "text";
  save = λ solution. true;
}

switch_quantity_lem_example :
    (50 ≤ 24 * switch_quantity 50)
    × ((switch_quantity 50 ≡ 1) ⊎ (24 * (switch_quantity 50 - 1) < 50))
    × (switch_quantity 50 ≤ 10 * ups_quantity (switch_quantity 50))
    × ((ups_quantity (switch_quantity 50) ≡ 1)
        ⊎ (10 * (ups_quantity (switch_quantity 50) - 1) < switch_quantity 50))
switch_quantity_lem_example = switch_quantity_lem 50

-- 0.125 is rounded to 0.12.
half_even_run : half_even 12500 1000 ≡ 12
unfolding half_even
half_even_run = refl

abbrev wanted : WizardRequirements
wanted = record {
  use_case = some "office";
  device_count = some 50;
  project_size = none;
  location = none;
  brand_preference = none;
  capacity = none;
}

abbrev bill : Solution
bill = record {
  use_case = some "office";
  line_items =
      record {
        category = "ups";
        product_id = "p1";
        product_name = "UPS 20kVA";
        quantity = 1;
        unit_price = record { coefficient = 19995; scale = 2 };
        subtotal = 19995;
      }
      ∷ [];
  total_estimate = 19995;
}

-- No switch is in the catalogue.
build_run : build catalog wanted ≡ some bill
unfolding build category_quantities switch_quantity ups_quantity line_items_for
    line_item_for_category find_product quantize half_even
build_run = refl

build-IsPriced_example :
    (bill.line_items ≢ [])
    × (bill.total_estimate ≡ sum_subtotals catalog bill.line_items)
    × All (IsPriced catalog (category_quantities 50)) bill.line_items
build-IsPriced_example = build-IsPriced catalog wanted bill build_run

-- Two answers: the first one completes the wizard.
converse_completes_example :
    let (results, row) = last_question services "office" "50 users" "Lahore" (" " ∷ "APC" ∷ []) in
    converse services ("hi" ∷ "office" ∷ "50 users" ∷ "Lahore" ∷ " " ∷ "APC" ∷ []) []
    ≡ (question 1 ∷ question 2 ∷ question 4 ∷ question 5 ∷ results, row ∷ [])
converse_completes_example =
    converse_completes services "hi" "office" "50 users" "Lahore" (" " ∷ "APC" ∷ [])

-- Without a narration the last turn raises, and the question stays open.
abbrev silent : Services
silent = record services { explain = λ solution. none }

stays_open :
    run_wizard silent "APC" (waiting silent "office" "50 users" "Lahore" ∷ [])
    ≡ (failed, waiting silent "office" "50 users" "Lahore" ∷ [])
unfolding run_wizard advance advance_from after_answer record_answer complete upsert_session
    replace_active classify parse_device_count strip build category_quantities switch_quantity
    ups_quantity line_items_for line_item_for_category find_product quantize half_even
stays_open = refl

answers_run :
    (parse_device_count "about 50 users" ≡ some 50)
    × (or_none (strip "  ") ≡ none)
    × (strip " Lahore " ≡ "Lahore")
unfolding parse_device_count strip
answers_run = (refl, refl, refl)

abbrev active_row : WizardSession
active_row = record {
  current_step = step_location;
  collected_requirements = no_requirements;
  completed = false;
}

abbrev over_row : WizardSession
over_row = record active_row { completed = true }

converse-abandon_example :
    converse services ("again" ∷ []) (abandon (active_row ∷ []))
    ≡ (already_complete ∷ [], abandon (active_row ∷ []))
converse-abandon_example = converse-abandon services ("again" ∷ []) (active_row ∷ []) (λ e. cc e)

advance-IsOrderly_example : IsOrderly (advance services "Lahore" (active_row ∷ over_row ∷ [])).1
advance-IsOrderly_example =
    advance-IsOrderly services "Lahore" (active_row ∷ over_row ∷ []) (refl, tt)
