-- ===== src/Rag.antt =====
-- app/rag/retrieval_service.py: how a search for products is narrowed, and relaxed when nothing matches.
--
-- The rows that a query with filters finds, and the search for vectors, are parameters. Decimals,
-- which this part only passes on, are those of the session.
pub mod Relaxation
mod Tests
use makkays_chatbot.Prelude.{
  ℕ, zero, suc, ◌+◌, String, List, [], ◌∷◌, ◌++◌, Bool, true, false, ◌&&◌, ◌||◌, not, Option, none,
  some, is_some, Dict, lookup, length, leb, max, min, concat, strip, ◌==◌, if◌then◌else◌,
}
use makkays_chatbot.Shared.{Uuid}
use makkays_chatbot.Session.Schemas.{Decimal}
use makkays_chatbot.Tools.Schemas.{SessionContext}

-- ConstraintOperator
pub data ConstraintOperator : Type 0 where
  eq gte lte between among not_eq nearest : ConstraintOperator

pub data ConstraintValue : Type 0 where
  numeric : Decimal → ConstraintValue
  textual : String → ConstraintValue

pub record Constraint : Type 0 where
  pub field : String
  pub operator : ConstraintOperator
  pub value : Option ConstraintValue
  pub value_max : Option Decimal
  pub values : Option (List ConstraintValue)
  pub unit : Option String
  pub hard : Bool
  pub source_text : Option String

pub record ExtractedFilters : Type 0 where
  pub brand : Option String
  pub category : Option String
  pub spec_filters : Dict String
  pub doc_type : Option String
  pub use_case : Option String
  pub capacity_requirement : Option Decimal
  pub capacity_unit : Option String
  pub constraints : List Constraint
  pub list_all : Bool

abbrev is_text : Option String → Bool
is_text none = false
is_text (some text) = not (text == "")

abbrev is_filled : {A : Type 0} → List A → Bool
is_filled [] = false
is_filled (x ∷ xs) = true

-- has_product_filters
unfoldable pub has_product_filters : ExtractedFilters → Bool
has_product_filters filters =
    is_text filters.brand
    || is_text filters.category
    || is_filled filters.spec_filters
    || is_text filters.use_case
    || is_some filters.capacity_requirement
    || is_filled filters.constraints

-- _RELAXATION_PRIORITY
abbrev pub relaxation_priority : List String
relaxation_priority =
    "service_life_type" ∷ "sub_category_key" ∷ "product_type_key" ∷ "battery_mode"
    ∷ "form_factor_key" ∷ "chemistry_key" ∷ "technology_key" ∷ "parallel_capable"
    ∷ "max_parallel_units" ∷ "service_life_years" ∷ "power_factor" ∷ "voltage_class_v"
    ∷ "max_discharge_power_kw" ∷ "phase_input_count" ∷ "phase_output_count" ∷ "current_a"
    ∷ "capacity_ah" ∷ "energy_kwh" ∷ "nominal_voltage_vdc" ∷ "series_key" ∷ "capacity_kva" ∷ []

-- _FIELD_LABELS
abbrev pub field_labels : Dict String
field_labels =
    ("capacity_kva", "capacity (kVA)")
    ∷ ("power_factor", "power factor")
    ∷ ("current_a", "current rating")
    ∷ ("phase_input_count", "input phase")
    ∷ ("phase_output_count", "output phase")
    ∷ ("form_factor_key", "form factor")
    ∷ ("battery_mode", "battery configuration")
    ∷ ("parallel_capable", "parallel capability")
    ∷ ("technology_key", "technology")
    ∷ ("voltage_class_v", "voltage class")
    ∷ ("nominal_voltage_vdc", "voltage")
    ∷ ("capacity_ah", "capacity (Ah)")
    ∷ ("energy_kwh", "energy (kWh)")
    ∷ ("chemistry_key", "chemistry")
    ∷ ("series_key", "series")
    ∷ ("max_discharge_power_kw", "max discharge power")
    ∷ ("max_parallel_units", "max parallel units")
    ∷ ("service_life_years", "service life")
    ∷ []

-- The place of a field in the priorities from one on, and zero for one that has none.
abbrev place_in : List String → String → ℕ → ℕ
place_in [] field n = 0
place_in (name ∷ names) field n = if name == field then n else place_in names field (suc n)

unfoldable pub priority : Constraint → ℕ
priority c = place_in relaxation_priority c.field 1

-- list.sort with the priority as its key, which keeps the order of equals.
unfoldable pub insert_sorted : Constraint → List Constraint → List Constraint
unfolding priority
insert_sorted c [] = c ∷ []
insert_sorted c (d ∷ ds) =
    let further = d ∷ insert_sorted c ds in
    if leb (priority c) (priority d) then c ∷ d ∷ ds else further

unfoldable pub sort_constraints : List Constraint → List Constraint
unfolding insert_sorted
sort_constraints [] = []
sort_constraints (c ∷ cs) = insert_sorted c (sort_constraints cs)

module _ (query : ExtractedFilters → List Uuid) where
  -- find_by_filters
  unfoldable pub find_by_filters : ExtractedFilters → Option (List Uuid)
  unfolding has_product_filters
  find_by_filters filters = if has_product_filters filters then some (query filters) else none

  -- What follows one attempt: a result that is not empty ends the loop.
  abbrev pub after_attempt :
      Constraint
      → Option (List Uuid)
      → Option (List Uuid) × Option Constraint
      → Option (List Uuid) × Option Constraint
  after_attempt dropped (some (id ∷ ids)) rest = (some (id ∷ ids), some dropped)
  after_attempt dropped (some []) rest = rest
  after_attempt dropped none rest = rest

  -- One round of the loop of _relax_and_retry, on sorted constraints; `again` runs the rounds after it.
  abbrev pub relax_round :
      ExtractedFilters
      → (List Constraint → Option Constraint → Option (List Uuid) × Option Constraint)
      → List Constraint
      → Option Constraint
      → Option (List Uuid) × Option Constraint
  relax_round filters again [] dropped = (none, dropped)
  relax_round filters again (c ∷ rest) dropped =
      after_attempt c (find_by_filters (record filters { constraints = rest }))
        (again rest (some c))

  -- The loop, which sorts before each attempt; one attempt per constraint.
  unfoldable pub relax_loop :
      ExtractedFilters
      → ℕ
      → List Constraint
      → Option Constraint
      → Option (List Uuid) × Option Constraint
  unfolding sort_constraints find_by_filters
  relax_loop filters zero remaining dropped = (none, dropped)
  relax_loop filters (suc n) remaining dropped =
      relax_round filters (relax_loop filters n) (sort_constraints remaining) dropped

  -- _relax_and_retry
  unfoldable pub relax_and_retry : ExtractedFilters → Option (List Uuid) × Option Constraint
  unfolding relax_loop
  relax_and_retry filters = relax_loop filters (length filters.constraints) filters.constraints none

  -- The candidates of retrieve_products: relaxed when there are none and a constraint is to blame.
  abbrev pub relaxed_if_empty :
      ExtractedFilters → Option (List Uuid) → Option (List Uuid) × Option Constraint
  relaxed_if_empty filters (some []) =
      let relaxed = relax_and_retry filters in
      if is_filled filters.constraints then relaxed else (some [], none)
  relaxed_if_empty filters (some (id ∷ ids)) = (some (id ∷ ids), none)
  relaxed_if_empty filters none = (none, none)

  unfoldable pub candidates : ExtractedFilters → Option (List Uuid) × Option Constraint
  unfolding relax_and_retry find_by_filters
  candidates filters = relaxed_if_empty filters (find_by_filters filters)

-- _product_qdrant_filter: the identifiers that a search is limited to, besides the tenant; `none` is a
-- search of all products.
unfoldable pub product_qdrant_filter : Option (List Uuid) → Option (List Uuid)
product_qdrant_filter none = none
product_qdrant_filter (some []) = none
product_qdrant_filter (some (id ∷ ids)) = some (id ∷ ids)

abbrev label_of : String → Option String → String
label_of field none = field
label_of field (some label) = label

abbrev detail_of : Option String → String
detail_of none = ""
detail_of (some text) = if text == "" then "" else concat (" (" ∷ text ∷ ")" ∷ [])

-- The notice for the model, of the constraint that was dropped last.
unfoldable pub relaxation_notice : Option Constraint → Option String
unfolding lookup
relaxation_notice none = none
relaxation_notice (some dropped) = some (
    concat (
      "No exact match for the requested "
      ∷ label_of dropped.field (lookup dropped.field field_labels)
      ∷ detail_of dropped.source_text
      ∷ " — showing the closest available alternatives instead of an exact match. Say so plainly rather than presenting these as an exact match."
      ∷ []))

abbrev or_text : Option String → String → String
or_text none other = other
or_text (some text) other = if text == "" then other else text

abbrev not_blank : String → Option String
not_blank text = if text == "" then none else some text

-- _query_from_session; `none` is a `RagQueryError`.
unfoldable pub query_from_session : SessionContext → Option String
unfolding strip
query_from_session session = not_blank (
    strip (
      or_text session.facts.product_interest
        (or_text session.conversation_state.last_question session.message)))

-- _bounded_limit, _list_all_limit
unfoldable pub bounded_limit : ℕ → ℕ → ℕ
bounded_limit default_limit max_limit = max 1 (min default_limit max_limit)

unfoldable pub list_all_limit : ℕ → ℕ
list_all_limit limit = max 1 limit
