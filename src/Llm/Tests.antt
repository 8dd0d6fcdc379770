-- ===== src/Llm/Tests.antt =====
-- A request to the model, and the theorem about it at a concrete input.
use makkays_chatbot.Prelude.{
  ◌+◌, ◌≤◌, String, List, [], ◌∷◌, ◌≡◌, refl, true, none, some, length, max,
}
use makkays_chatbot.Llm.Context.{
  system, user, assistant, ChatMessage, ContextBuildMetadata, Json, text_length, total_length,
  message, append_if_fits, append_with_tail_truncation, tail_text, candidate_messages,
  recent_turn_messages, add_tool_results, context_block, source_messages, source_message, Request,
  fill, build_llm_messages, validate_messages,
}
use makkays_chatbot.Prelude.{strip}
use makkays_chatbot.Llm.Requests.{build_llm_messages_lem}

abbrev json : Json
json = record {
  Value = String;
  dumps = λ v. v;
  dumps_context = λ facts state planner quote. none;
  source_id = λ v. none;
  str = λ n. "1";
}

abbrev request : Request json
request = record {
  system_prompt = "sell";
  facts = none;
  state = none;
  recent_turns =
      record { user_message = "hi"; assistant_message = some "hello" }
      ∷ record { user_message = "a long message"; assistant_message = none }
      ∷ [];
  tool_results = [];
  planner_metadata = none;
  retrieved_sources = [];
  quote_summary = none;
  latest_user_message = some "price?";
  max_context_chars = 15;
}

-- The second turn does not fit, and of the last message only the end does.
abbrev sent : List ChatMessage
sent =
    message system "sell" ∷ message user "hi" ∷ message assistant "hello" ∷ message user "ice?" ∷ []

abbrev counts : ContextBuildMetadata
counts = record {
  included_source_ids = [];
  truncated_source_count = 0;
  included_turn_count = 1;
  truncated_turn_count = 1;
}

sent_run : build_llm_messages json request ≡ some (sent, counts)
unfolding build_llm_messages fill append_if_fits append_with_tail_truncation tail_text
    candidate_messages recent_turn_messages add_tool_results context_block source_messages
    source_message strip
sent_run = refl

build_llm_messages_lem_example :
    (total_length sent ≤ max (text_length "sell") 15)
    × (validate_messages sent ≡ true)
    × (1 + 1 ≡ length request.recent_turns)
    × (length counts.included_source_ids + 0 ≡ length request.retrieved_sources)
build_llm_messages_lem_example = build_llm_messages_lem json request sent counts sent_run
