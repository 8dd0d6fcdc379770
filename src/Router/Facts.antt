-- ===== src/Router/Facts.antt =====
-- app/router/facts_extractor.py: what a message says of the customer.
--
-- The matches of the regular expressions are parameters, and so is the reply of the model: the
-- truthy values of its JSON object, empty if the request failed. A product of more than 28 digits,
-- which `Decimal` rounds, is left out. `isdigit` and
-- the lower case of texts that are compared are those of ASCII.
use makkays_chatbot.Prelude.{
  ℕ, ◌*◌, ◌^◌, ◌||◌, take_text, String, List, [], ◌∷◌, ◌++◌, Bool, false, ◌&&◌, not, Option, none,
  some, is_some, Dict, lookup, insert, any, all, length, leb, eqb, codes, keep, lower, same_codes,
  includes_word, strip, ◌==◌, if◌then◌else◌,
}
use makkays_chatbot.Session.Schemas.{Decimal, FactsSchema}
use makkays_chatbot.Session.Updates.{FactsUpdate, no_facts}

-- A value of a field; `other` is a value of JSON that is no text.
pub data Value : Type 0 where
  text : String → Value
  number : ℕ → Value
  amount : Decimal → Value
  other : Value

-- FACT_LLM_FIELDS
abbrev pub fact_llm_fields : List String
fact_llm_fields =
    "company" ∷ "industry" ∷ "product_interest" ∷ "project_size" ∷ "location" ∷ "timeline" ∷ []

-- The groups of the first match of each pattern. A budget has its number, if `Decimal` reads it, and
-- whether a `k` follows.
pub record Matches : Type 0 where
  pub email : Option String
  pub phone : Option String
  pub quantity : Option ℕ
  pub budget : Option (Option Decimal × Bool)
  pub company : Option String

abbrev entry : String → Option Value → Dict Value
entry field none = []
entry field (some value) = (field, value) ∷ []

abbrev text_value : Option String → Option Value
text_value none = none
text_value (some s) = some (text s)

abbrev number_value : Option ℕ → Option Value
number_value none = none
number_value (some n) = some (number n)

abbrev amount_value : Option Decimal → Option Value
amount_value none = none
amount_value (some d) = some (amount d)

abbrev count_digits : List ℕ → ℕ
count_digits cs = length (keep (λ c. leb b'0' c && leb c b'9') cs)

abbrev phone_value : Option String → Option Value
phone_value none = none
phone_value (some s) = if leb 7 (count_digits (codes s)) then some (text (strip s)) else none

abbrev budget_value : Option (Option Decimal × Bool) → Option Value
budget_value none = none
budget_value (some (none, thousands)) = none
budget_value (some (some d, thousands)) =
    some (amount (if thousands then record d { coefficient = d.coefficient * 1000 } else d))

abbrev company_value : Option String → Option Value
company_value none = none
company_value (some s) = some (text (strip s))

-- _extract_deterministic
unfoldable pub extract_deterministic : Matches → Dict Value
unfolding strip
extract_deterministic m =
    entry "contact_email" (text_value m.email)
    ++ entry "contact_phone" (phone_value m.phone)
    ++ entry "quantity" (number_value m.quantity)
    ++ entry "budget" (budget_value m.budget)
    ++ entry "company" (company_value m.company)

-- stripped[:500] or None
unfoldable pub trimmed : String → Option Value
unfolding strip
trimmed s =
    let stripped = take_text 500 (strip s) in if stripped == "" then none else some (text stripped)

-- _normalize, of a value that is not None; the e-mail pattern is matched against the whole value. The
-- code asks for e-mails that are texts only.
unfoldable pub normalize : (String → Bool) → String → Value → Option Value
unfolding trimmed
normalize is_email field (number n) =
    if field == "quantity"
    then (if leb 1 n then some (number n) else none)
    else if field == "budget"
    then none
    else some (number n)
normalize is_email field (amount d) = if field == "quantity" then none else some (amount d)
normalize is_email field (text s) =
    if field == "quantity"
    then none
    else if field == "budget"
    then none
    else if field == "contact_email"
    then (if is_email s then some (text s) else none)
    else trimmed s
normalize is_email field other =
    if field == "quantity" then none else if field == "budget" then none else some other

-- _values_equal
unfoldable pub values_equal : Value → Value → Bool
unfolding lower strip
values_equal (text a) (text b) = same_codes (lower (strip a)) (lower (strip b))
values_equal (number a) (number b) = eqb a b
values_equal (amount a) (amount b) =
    eqb (a.coefficient * 10 ^ b.scale) (b.coefficient * 10 ^ a.scale)
values_equal _ _ = false

abbrev is_word_code : ℕ → Bool
is_word_code c = (leb b'a' c && leb c b'z') || (leb b'0' c && leb c b'9')

-- A word that has ended counts from three letters.
abbrev add_word : List ℕ → List (List ℕ) → List (List ℕ)
add_word word words = if leb 3 (length word) then word ∷ words else words

-- _EXPLICIT_WORD_PATTERN.findall; `word` is the word that is being read.
unfoldable pub find_words : List ℕ → List ℕ → List (List ℕ)
find_words word [] = add_word word []
find_words word (c ∷ cs) =
    let longer = find_words (word ++ c ∷ []) cs in
    let next = add_word word (find_words [] cs) in if is_word_code c then longer else next

-- _explicit_in_message
unfoldable pub explicit_in_message : Value → String → Bool
unfolding find_words lower includes_word
explicit_in_message (text s) message =
    any (λ word. includes_word word (lower message)) (find_words [] (lower s))
explicit_in_message _ message = false

-- getattr(facts, field)
unfoldable pub get_fact : FactsSchema → String → Option Value
get_fact facts field =
    if field == "contact_email"
    then text_value facts.contact_email
    else if field == "contact_phone"
    then text_value facts.contact_phone
    else if field == "quantity"
    then number_value facts.quantity
    else if field == "budget"
    then amount_value facts.budget
    else if field == "company"
    then text_value facts.company
    else if field == "industry"
    then text_value facts.industry
    else if field == "product_interest"
    then text_value facts.product_interest
    else if field == "project_size"
    then text_value facts.project_size
    else if field == "location"
    then text_value facts.location
    else if field == "timeline"
    then text_value facts.timeline
    else none

-- The value that a match puts into the patch.
unfoldable pub matched_value : Option Value → Option Value → Option Value
unfolding values_equal
matched_value existing none = none
matched_value none (some normal) = some normal
matched_value (some known) (some normal) = if values_equal known normal then none else some normal

-- The value that the model's reply puts into the patch: a known one gives way only to one that is
-- explicit in the message.
unfoldable pub replied_value : String → Option Value → Option Value → Option Value
unfolding values_equal explicit_in_message
replied_value message existing none = none
replied_value message none (some normal) = some normal
replied_value message (some known) (some normal) =
    if values_equal known normal
    then none
    else if explicit_in_message normal message
    then some normal
    else none

abbrev pub write_value : String → Option Value → Dict Value → Dict Value
write_value field none patch = patch
write_value field (some value) patch = insert field value patch

abbrev normalized : Option Value → (Value → Option Value) → Option Value
normalized none f = none
normalized (some value) f = f value

module _ (is_email : String → Bool) (facts : FactsSchema) (message : String) where
  unfoldable pub write_matches : Dict Value → Dict Value → Dict Value
  unfolding matched_value normalize get_fact insert
  write_matches [] patch = patch
  write_matches ((field, raw) ∷ rest) patch = write_matches rest (
      write_value field (matched_value (get_fact facts field) (normalize is_email field raw)) patch)

  unfoldable pub write_replies : Dict Value → Dict Value → Dict Value
  unfolding replied_value normalize get_fact insert lookup
  write_replies [] patch = patch
  write_replies ((field, raw) ∷ rest) patch =
      let written =
        write_value field
          (replied_value message (get_fact facts field) (normalize is_email field raw)) patch in
      write_replies rest (if is_some (lookup field patch) then patch else written)

  -- has_missing_field
  unfoldable pub has_missing_field : Dict Value → Bool
  unfolding get_fact lookup
  has_missing_field patch =
      any (λ field. not (is_some (lookup field patch)) && not (is_some (get_fact facts field)))
        fact_llm_fields

  -- {field: parsed.get(field) for field in missing_fields if parsed.get(field)}
  unfoldable pub requested : List String → Dict Value → Dict Value
  unfolding lookup
  requested [] reply = []
  requested (field ∷ fields) reply = entry field (lookup field reply) ++ requested fields reply

  -- The patch of FactsExtractor.extract
  unfoldable pub extract_patch : Matches → Dict Value → Dict Value
  unfolding write_matches write_replies has_missing_field requested extract_deterministic strip
  extract_patch m reply =
      let patch = write_matches (extract_deterministic m) [] in
      let asked = has_missing_field patch && leb 16 (length (codes (strip message))) in
      if asked then write_replies (requested fact_llm_fields reply) patch else patch

-- The value fits the field of FactsUpdate.
abbrev fits : String → Value → Bool
fits field (text s) = not (field == "quantity") && not (field == "budget")
fits field (number n) = field == "quantity"
fits field (amount d) = field == "budget"
fits field other = false

abbrev text_of : Option Value → Option String
text_of (some (text s)) = some s
text_of _ = none

abbrev number_of : Option Value → Option ℕ
number_of (some (number n)) = some n
number_of _ = none

abbrev amount_of : Option Value → Option Decimal
amount_of (some (amount d)) = some d
amount_of _ = none

-- A field of the patch, if it has one: no value of a patch is null.
abbrev set_field : {A : Type 0} → Option A → Option (Option A)
set_field none = none
set_field (some value) = some (some value)

-- FactsUpdate(**patch); `none` is a `ValidationError`.
unfoldable pub facts_update : Dict Value → Option FactsUpdate
unfolding lookup
facts_update patch =
    if all (λ e. fits e.0 e.1) patch
    then some (record no_facts {
      budget = set_field (amount_of (lookup "budget" patch));
      company = set_field (text_of (lookup "company" patch));
      industry = set_field (text_of (lookup "industry" patch));
      product_interest = set_field (text_of (lookup "product_interest" patch));
      project_size = set_field (text_of (lookup "project_size" patch));
      location = set_field (text_of (lookup "location" patch));
      timeline = set_field (text_of (lookup "timeline" patch));
      quantity = set_field (number_of (lookup "quantity" patch));
      contact_email = set_field (text_of (lookup "contact_email" patch));
      contact_phone = set_field (text_of (lookup "contact_phone" patch));
    })
    else none

-- FactsExtractor.extract
unfoldable pub extract :
    (String → Bool) → FactsSchema → String → Matches → Dict Value → Option FactsUpdate
unfolding extract_patch facts_update
extract is_email facts message m reply = facts_update (extract_patch is_email facts message m reply)
