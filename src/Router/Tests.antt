-- ===== src/Router/Tests.antt =====
-- Runs of app/router and the instances of its theorems.
use makkays_chatbot.Prelude.{
  ◌↔◌, ℕ, ◌≡◌, refl, String, List, [], ◌∷◌, Bool, true, false, Option, none, some, lookup, contains,
}
use makkays_chatbot.Shared.{certain}
use makkays_chatbot.Router.Rules.{rule_result, match_rules}
use makkays_chatbot.Router.Classifier.{
  ClassifyIntentArguments, not_a_number, negative, classify_reply, classify,
}
use makkays_chatbot.Session.Schemas.{FactsSchema, empty_facts}
use makkays_chatbot.Router.Facts.{
  Matches, text, other, extract_deterministic, get_fact, write_matches, extract_patch, extract,
}
use makkays_chatbot.Router.Grounding.{IsGrounded, extract_patch-IsGrounded}
use makkays_chatbot.Router.Laws.{Fires, match_rules_lem, IsUsable, classify-IsUsable}

-- A text in which these patterns are found.
abbrev finding : List String → String → List ℕ → Bool
finding patterns pattern lowered = contains patterns pattern

abbrev about_warranty : String → List ℕ → Bool
about_warranty = finding ("\\bwarranty\\b" ∷ [])

abbrev unsure : String → Option ClassifyIntentArguments
unsure message = some (record {
  intent = "quote_request";
  confidence = negative;
  candidates = "quote_request" ∷ "weather" ∷ [];
})

fires : match_rules about_warranty "my warranty" ≡ some (rule_result "warranty_information" false)
unfolding match_rules
fires = refl

-- Each text that is not working is a matter of two intents: no rule fires.
both_supports : match_rules (finding ("\\bnot working\\b" ∷ [])) "not working" ≡ none
unfolding match_rules
both_supports = refl

-- A comparison of things that are not in the catalog is left to the model.
off_domain : match_rules (finding ("\\bcompare\\b" ∷ [])) "compare cars" ≡ none
unfolding match_rules
off_domain = refl

-- A confidence that is no number is read as certain.
no_number :
    (classify_reply (
      some (record {
        intent = "quote_request";
        confidence = not_a_number;
        candidates = [];
      }))).confidence
    ≡ certain
unfolding classify_reply
no_number = refl

match_rules_lem_example :
    (match_rules about_warranty "my warranty" ≡ some (rule_result "warranty_information" false))
    ↔ Fires about_warranty "my warranty" (rule_result "warranty_information" false)
match_rules_lem_example =
    match_rules_lem about_warranty "my warranty" (rule_result "warranty_information" false)

classify-IsUsable_example : IsUsable (classify (finding []) unsure "how is the weather")
classify-IsUsable_example = classify-IsUsable (finding []) unsure "how is the weather"

abbrev known_company : FactsSchema
known_company = record (empty_facts "t" "s") { company = some "Acme Ltd" }

abbrev no_matches : Matches
no_matches = record { email = none; phone = none; quantity = none; budget = none; company = none }

abbrev any_email : String → Bool
any_email s = true

-- A company that the model has guessed from older turns does not replace the known one.
preserved :
    extract_patch any_email known_company "please send me more prices" no_matches
      (("company", text "Other Inc") ∷ [])
    ≡ []
unfolding extract_patch
preserved = refl

corrected :
    extract_patch any_email known_company "sorry, we are Beta Corp" no_matches
      (("company", text " Beta Corp ") ∷ [])
    ≡ ("company", text "Beta Corp") ∷ []
unfolding extract_patch
corrected = refl

-- A value of the model's reply that is no text is an error.
not_a_text :
    extract any_email
      (empty_facts "t" "s")
      "we are five hundred people"
      no_matches
      (("company", other) ∷ [])
    ≡ none
unfolding extract
not_a_text = refl

has_company : get_fact known_company "company" ≡ some (text "Acme Ltd")
unfolding get_fact
has_company = refl

extract_patch-IsGrounded_example :
    IsGrounded any_email known_company "sorry, we are Beta Corp" "company"
      (text "Acme Ltd")
      has_company
      (lookup "company" (
        write_matches any_email known_company "sorry, we are Beta Corp"
          (extract_deterministic no_matches)
          []))
      (lookup "company" (
        extract_patch any_email known_company "sorry, we are Beta Corp" no_matches
          (("company", text " Beta Corp ") ∷ [])))
extract_patch-IsGrounded_example =
    extract_patch-IsGrounded any_email known_company "sorry, we are Beta Corp" "company"
      (text "Acme Ltd") no_matches (("company", text " Beta Corp ") ∷ []) has_company
