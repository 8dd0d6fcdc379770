-- ===== src/Router/Classifier.antt =====
-- app/router/classifier.py and app/router/router.py: the second tier, which asks the model, and the
-- two tiers in their order.
--
-- `chat` is the reply to the message: the arguments of the first call of `classify_intent` if they
-- are those of the schema, and `none` if the request failed, there was no such call or its
-- arguments were others. The prompt and the request are taken to be there: what is raised for a missing
-- prompt or a message that does not fit into a request is left out.
use makkays_chatbot.Prelude.{
  ℕ, String, List, [], Bool, false, Option, none, some, contains, keep, min, if◌then◌else◌,
}
use makkays_chatbot.Shared.{Confidence, certain, IntentResult, tier2, intent_taxonomy}
use makkays_chatbot.Router.Rules.{match_rules, detect_spec_question}

-- A float that the model reports: negative, a number of millionths, or not a number.
pub data Reported : Type 0 where
  negative not_a_number : Reported
  millionths : ℕ → Reported

pub record ClassifyIntentArguments : Type 0 where
  pub intent : String
  pub confidence : Reported
  pub candidates : List String

-- max(0.0, min(1.0, value)); the comparison with a number that is none fails, and leaves 1.0.
unfoldable pub clamp_confidence : Reported → Confidence
clamp_confidence negative = 0
clamp_confidence not_a_number = certain
clamp_confidence (millionths n) = min certain n

-- _FAILURE_FALLBACK_INTENT
abbrev pub failure_fallback_intent : String
failure_fallback_intent = "out_of_scope"

abbrev pub known_candidates : List String → List String
known_candidates candidates = keep (contains intent_taxonomy) candidates

abbrev pub model_result : String → Confidence → List String → IntentResult
model_result intent confidence candidates = record {
  intent = intent;
  confidence = confidence;
  source = tier2;
  candidates = candidates;
  spec_question_detected = false;
}

-- Tier2Classifier.classify
unfoldable pub classify_reply : Option ClassifyIntentArguments → IntentResult
unfolding clamp_confidence
classify_reply none = model_result failure_fallback_intent 0 []
classify_reply (some arguments) =
    let candidates = known_candidates arguments.candidates in
    if contains intent_taxonomy arguments.intent
    then model_result arguments.intent (clamp_confidence arguments.confidence) candidates
    else model_result failure_fallback_intent 0 candidates

module _ (search : String → List ℕ → Bool) (chat : String → Option ClassifyIntentArguments) where
  abbrev with_spec_question : Bool → IntentResult → IntentResult
  with_spec_question spec_question result = record result { spec_question_detected = spec_question }

  abbrev pub or_model : String → Option IntentResult → IntentResult
  or_model message (some result) = result
  or_model message none = classify_reply (chat message)

  -- Router.classify
  unfoldable pub classify : String → IntentResult
  unfolding match_rules detect_spec_question classify_reply
  classify message =
      with_spec_question (detect_spec_question search message)
        (or_model message (match_rules search message))
