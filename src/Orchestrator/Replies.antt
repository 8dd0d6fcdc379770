-- ===== src/Orchestrator/Replies.antt =====
-- app/orchestrator/orchestrator.py: what a turn answers with, and the audit form of its tool calls.
use makkays_chatbot.Prelude.{
  String, List, [], ◌∷◌, Bool, ◌&&◌, not, Option, none, some, concat, ◌==◌, if◌then◌else◌,
}
use makkays_chatbot.Shared.{Uuid, IntentResult}
use makkays_chatbot.Turns.{ToolCall, IntentPayload}
use makkays_chatbot.Tools.Schemas.{ToolExecutionResult}

-- The fallback of _assistant_message_from_results.
abbrev pub fallback_message : String
fallback_message =
    "I could not complete that request just now. Please try again with a little more detail."

-- The result is a reply: that of a `respond` that succeeded with a text.
unfoldable pub is_reply : ToolExecutionResult → Bool
is_reply result = (result.step == "respond") && result.success && not (result.result_summary == "")

abbrev or_fallback : Option String → String
or_fallback none = fallback_message
or_fallback (some text) = text

abbrev or_this : ToolExecutionResult → Option String → Option String
or_this result (some later) = some later
or_this result none = if is_reply result then some result.result_summary else none

-- The loop over the reversed results: the last reply.
unfoldable pub last_reply : List ToolExecutionResult → Option String
unfolding is_reply
last_reply [] = none
last_reply (result ∷ results) = or_this result (last_reply results)

-- _assistant_message_from_results
unfoldable pub assistant_message_from_results : List ToolExecutionResult → String
unfolding last_reply
assistant_message_from_results results = or_fallback (last_reply results)

abbrev joined : List Uuid → String
joined [] = ""
joined (id ∷ []) = id
joined (id ∷ next ∷ ids) = concat (id ∷ "," ∷ joined (next ∷ ids) ∷ [])

abbrev ids_text : Option (List Uuid) → String
ids_text none = "null"
ids_text (some []) = "null"
ids_text (some (id ∷ ids)) = joined (id ∷ ids)

abbrev or_null : Option String → String
or_null none = "null"
or_null (some text) = text

-- _tool_call_record. Values that are no text are written out.
unfoldable pub tool_call_record : ToolExecutionResult → ToolCall
tool_call_record result =
    ("tool", result.step)
    ∷ ("args", "{}")
    ∷ ("result_summary", result.result_summary)
    ∷ ("success", if result.success then "true" else "false")
    ∷ ("error", or_null result.error)
    ∷ ("product_ids", ids_text result.product_ids)
    ∷ []

-- _intent_payload
unfoldable pub intent_payload : IntentResult → IntentPayload
intent_payload result = record {
  intent = result.intent;
  confidence = result.confidence;
  source = result.source;
  candidate_intents = result.candidates;
}
