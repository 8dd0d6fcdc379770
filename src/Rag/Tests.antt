-- ===== src/Rag/Tests.antt =====
-- Runs of app/rag/retrieval_service.py and the instance of its theorem.
use makkays_chatbot.Prelude.{
  ◌≡◌, refl, String, List, [], ◌∷◌, true, false, none, some, length, eqb, if◌then◌else◌,
}
use makkays_chatbot.Rag.{
  eq, Constraint, ExtractedFilters, sort_constraints, relax_and_retry, candidates,
  product_qdrant_filter,
}
use makkays_chatbot.Rag.Relaxation.{first_match, relax_and_retry-first_match}

abbrev on_field : String → Constraint
on_field name = record {
  field = name;
  operator = eq;
  value = none;
  value_max = none;
  values = none;
  unit = none;
  hard = true;
  source_text = none;
}

abbrev wanted : ExtractedFilters
wanted = record {
  brand = some "Acme";
  category = none;
  spec_filters = [];
  doc_type = none;
  use_case = none;
  capacity_requirement = none;
  capacity_unit = none;
  constraints = on_field "capacity_kva" ∷ on_field "form_factor_key" ∷ on_field "battery_mode" ∷ [];
  list_all = false;
}

-- A catalogue in which one constraint can be met, and one in which nothing can.
abbrev meets_one : ExtractedFilters → List String
meets_one filters = if eqb (length filters.constraints) 1 then "ups" ∷ [] else []

abbrev meets_none : ExtractedFilters → List String
meets_none filters = []

-- Two constraints are dropped, and only the second one is reported.
reports_last :
    relax_and_retry meets_one wanted ≡ (some ("ups" ∷ []), some (on_field "form_factor_key"))
unfolding relax_and_retry
reports_last = refl

-- When nothing matches, not even without constraints, the search is one of all products: the brand is
-- gone too.
unscoped : product_qdrant_filter (candidates meets_none wanted).0 ≡ none
unfolding candidates product_qdrant_filter
unscoped = refl

relax_and_retry-first_match_example :
    relax_and_retry meets_one wanted
    ≡ first_match meets_one wanted (sort_constraints wanted.constraints) none
relax_and_retry-first_match_example = relax_and_retry-first_match meets_one wanted
