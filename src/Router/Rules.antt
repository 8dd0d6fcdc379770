-- ===== src/Router/Rules.antt =====
-- app/router/rules.py: the rules of the first tier.
--
-- `search pattern text` is the regular-expression search of Python's `re`; the two patterns compiled
-- with re.IGNORECASE, and `match` of the anchored one, are searches too: the text is in lower case.
use makkays_chatbot.Prelude.{
  ℕ, suc, String, List, [], ◌∷◌, ◌++◌, Bool, false, ◌&&◌, not, Option, none, some, Dict, lookup,
  contains, any, leb, lower, if◌then◌else◌,
}
use makkays_chatbot.Shared.{IntentResult, certain, tier1}

-- BASE_TIER1_RULES
abbrev pub base_tier1_rules : Dict (List String)
base_tier1_rules =
    (
      "sales_inquiry",
      "\\blooking for\\b" ∷ "\\bdo you have\\b" ∷ "\\brecommend (a |an )?product\\b"
          ∷ "\\binterested in\\b" ∷ "\\bwhich (model|product) (should|would)\\b" ∷ [],
    )
    ∷ (
      "quote_request",
      "\\bquote\\b" ∷ "\\bpricing\\b" ∷ "\\bprice\\b" ∷ "\\bhow much (is|does|for)\\b"
          ∷ "\\bcost estimate\\b" ∷ "\\bproposal\\b" ∷ [],
    )
    ∷ (
      "technical_support",
      "\\bnot working\\b" ∷ "\\bbroken\\b" ∷ "\\berror\\b" ∷ "\\bdoesn.t work\\b"
          ∷ "\\btroubleshoot\\b" ∷ "\\bissue with my\\b" ∷ [],
    )
    ∷ (
      "escalation_request",
      "\\bspeak (to|with) a (human|person|representative)\\b"
          ∷ "\\btalk to (someone|a real person)\\b" ∷ "\\bescalate\\b" ∷ "\\bcustomer service\\b"
          ∷ [],
    )
    ∷ []

-- TIER1_RULES_V42
abbrev pub tier1_rules_v42 : Dict (List String)
tier1_rules_v42 =
    (
      "product_comparison",
      "\\bcompare\\b" ∷ "\\bvs\\.?\\b" ∷ "\\bdifference between\\b" ∷ "\\bside.by.side\\b" ∷ [],
    )
    ∷ (
      "product_compatibility",
      "\\bcompatible with\\b" ∷ "\\bworks with\\b" ∷ "\\bwill .+ work with\\b" ∷ [],
    )
    ∷ (
      "accessory_recommendation",
      "\\baccessor(y|ies)\\b" ∷ "\\badd.on\\b" ∷ "\\bwhat .+ need with\\b" ∷ [],
    )
    ∷ (
      "product_finder_by_problem",
      "\\bmy .+ (is|keeps|won.t)\\b" ∷ "\\bproblem with\\b" ∷ "\\bsolution for\\b" ∷ [],
    )
    ∷ (
      "product_alternative",
      "\\breplacement for\\b" ∷ "\\balternative to\\b" ∷ "\\bsubstitute\\b" ∷ [],
    )
    ∷ (
      "specification_explainer",
      "\\bwhat (is|does|are)\\b .+(PoE|SFP|PoE\\+|UPS|rack|watt)" ∷ "\\bexplain\\b" ∷ [],
    )
    ∷ (
      "product_recommendation_wizard",
      "\\bhelp me choose\\b" ∷ "\\bguide me\\b" ∷ "\\bwhat should I (get|buy)\\b" ∷ [],
    )
    ∷ (
      "use_case_recommendation",
      "\\bfor (a |the )?(school|hospital|office|data.?center|cctv|enterprise|smb)\\b" ∷ [],
    )
    ∷ (
      "installation_guidance",
      "\\bhow (do I|to) install\\b" ∷ "\\bsetup (guide|steps|instructions)\\b" ∷ [],
    )
    ∷ (
      "troubleshooting",
      "\\bnot working\\b" ∷ "\\berror code\\b" ∷ "\\bfault\\b" ∷ "\\bbroken\\b" ∷ [],
    )
    ∷ (
      "warranty_information",
      "\\bwarranty\\b" ∷ "\\brma\\b" ∷ "\\brepair\\b" ∷ "\\bguarantee\\b" ∷ [],
    )
    ∷ (
      "pdf_documentation_search",
      "\\b(manual|datasheet|brochure|installation guide)\\b" ∷ "\\bshow me the doc\\b" ∷ [],
    )
    ∷ (
      "availability_inquiry",
      "\\bin.?stock\\b" ∷ "\\bavailable\\b" ∷ "\\bstock check\\b" ∷ "\\bwhen can I get\\b" ∷ [],
    )
    ∷ (
      "solution_builder",
      "\\bbuild (a |the )?solution\\b" ∷ "\\bbom\\b" ∷ "\\bbill of materials\\b"
          ∷ "\\bfull setup\\b" ∷ [],
    )
    ∷ (
      "human_handoff",
      "\\bspeak to\\b" ∷ "\\btalk to\\b" ∷ "\\bconnect me to\\b" ∷ "\\bhuman\\b" ∷ "\\bagent\\b"
          ∷ [],
    )
    ∷ []

-- TIER1_RULES: the two tables have no key in common.
abbrev pub tier1_rules : Dict (List String)
tier1_rules = base_tier1_rules ++ tier1_rules_v42

-- MIN_PATTERN_MATCHES
abbrev pub min_pattern_matches : Dict ℕ
min_pattern_matches =
    ("sales_inquiry", 2) ∷ ("product_finder_by_problem", 2) ∷ ("product_alternative", 2) ∷ []

-- SPEC_QUESTION_PATTERNS
abbrev pub spec_question_patterns : List String
spec_question_patterns =
    "\\bwhat (is|does|are)\\b" ∷ "\\bspec(s|ification)?\\b" ∷ "\\bhow many (ports|watts|amps)\\b"
    ∷ "\\bexplain\\b" ∷ []

-- _DOMAIN_SENSITIVE_INTENTS
abbrev pub domain_sensitive_intents : List String
domain_sensitive_intents =
    "product_comparison" ∷ "product_compatibility" ∷ "accessory_recommendation"
    ∷ "product_alternative" ∷ "specification_explainer" ∷ []

-- _DOMAIN_KEYWORD_PATTERN
abbrev pub domain_keyword_pattern : String
domain_keyword_pattern =
    "\\b(switch(?:es)?|router|access point|wi-?fi|ups|avr|voltage regulator|battery|batteries|rack|cabinet|network(?:ing)?|poe|sfp|data ?center|interconnect solutions|i-?power|i-?connect)\\b"

-- _GREETING_ONLY_PATTERN
abbrev pub greeting_only_pattern : String
greeting_only_pattern =
    "^\\s*(hi+|hello+|hey+|hola|salam|(as)?salam(u|o)?\\s*(a|o)?\\s*alaikum|greetings|good\\s*(morning|afternoon|evening))[\\s!.,]*$"

-- MIN_PATTERN_MATCHES.get(intent, 1)
abbrev pub or_one : Option ℕ → ℕ
or_one none = 1
or_one (some n) = n

unfoldable pub needed_matches : String → ℕ
unfolding lookup
needed_matches intent = or_one (lookup intent min_pattern_matches)

-- The intents with enough matches.
unfoldable pub confident : Dict ℕ → List String
unfolding needed_matches
confident [] = []
confident ((intent, count) ∷ rest) =
    let others = confident rest in
    if leb (needed_matches intent) count then intent ∷ others else others

-- The result of a rule.
abbrev pub rule_result : String → Bool → IntentResult
rule_result intent spec_question = record {
  intent = intent;
  confidence = certain;
  source = tier1;
  candidates = intent ∷ [];
  spec_question_detected = spec_question;
}

module _ (search : String → List ℕ → Bool) where
  -- The number of the patterns that are found.
  abbrev pub count_matches : List String → List ℕ → ℕ
  count_matches [] text = 0
  count_matches (pattern ∷ patterns) text =
      let rest = count_matches patterns text in if search pattern text then suc rest else rest

  -- hits: the intents of which a pattern is found, with their numbers.
  unfoldable pub hits : Dict (List String) → List ℕ → Dict ℕ
  hits [] text = []
  hits ((intent, patterns) ∷ rules) text =
      let rest = hits rules text in
      let count = count_matches patterns text in
      if leb 1 count then (intent, count) ∷ rest else rest

  unfoldable pub detect_spec_question : String → Bool
  unfolding lower
  detect_spec_question message =
      let lowered = lower message in any (λ pattern. search pattern lowered) spec_question_patterns

  -- The intent has to do with the catalog, and no word of the catalog is found.
  unfoldable pub is_off_domain : String → String → Bool
  unfolding lower
  is_off_domain message intent =
      contains domain_sensitive_intents intent
      && not (search domain_keyword_pattern (lower message))

  -- What follows the search: one confident intent, in the domain if it has to be.
  unfoldable pub decide : String → List String → Option IntentResult
  unfolding detect_spec_question is_off_domain
  decide message [] = none
  decide message (intent ∷ other ∷ others) = none
  decide message (intent ∷ []) =
      if is_off_domain message intent
      then none
      else some (rule_result intent (detect_spec_question message))

  -- Tier1RuleEngine.match
  unfoldable pub match_rules : String → Option IntentResult
  unfolding decide confident hits lower
  match_rules message =
      let lowered = lower message in
      let decided = decide message (confident (hits tier1_rules lowered)) in
      if search greeting_only_pattern lowered
      then some (rule_result "sales_inquiry" false)
      else decided
