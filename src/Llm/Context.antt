-- ===== src/Llm/Context.antt =====
-- app/llm/context.py: the messages of a request to a model, within a budget of characters; and
-- `validate_messages` of app/llm/_shared.py.
--
-- JSON values, their texts and the text of a number are a parameter. A length is a number of code
-- points. A tool result is an object with attributes, of which an empty one counts as absent.
use makkays_chatbot.Prelude.{
  ℕ, suc, ◌+◌, ◌-◌, String, List, [], ◌∷◌, ◌++◌, Bool, true, false, ◌&&◌, ◌||◌, Option, none, some,
  length, ltb, leb, eqb, codes, concat, ◌==◌, if◌then◌else◌, strip, drop_text,
}
use makkays_chatbot.Session.Schemas.{FactsSchema, ConversationStateSchema}
use makkays_chatbot.Tools.Schemas.{TurnText}

pub data Role : Type 0 where
  system user assistant tool : Role

pub record ChatMessage : Type 0 where
  pub role : Role
  pub content : String
  pub tool_call_id : Option String

-- ContextBuildMetadata, less the references to prompts
pub record ContextBuildMetadata : Type 0 where
  pub included_source_ids : List String
  pub truncated_source_count : ℕ
  pub included_turn_count : ℕ
  pub truncated_turn_count : ℕ

pub record Json : Type 1 where
  pub Value : Type 0
  pub dumps : Value → String
  -- the dump of the facts, the state, the planner's metadata and the quote that are there
  pub dumps_context :
      Option FactsSchema
      → Option ConversationStateSchema
      → Option Value
      → Option Value
      → Option String
  -- str(source.get("id") or source.get("source_id")), where one of them is truthy
  pub source_id : Value → Option String
  pub str : ℕ → String

pub record ToolResult : Type 0 where
  pub role : Option String
  pub content : Option String
  pub tool_call_id : Option String

abbrev pub text_length : String → ℕ
text_length s = length (codes s)

abbrev pub content_length : ChatMessage → ℕ
content_length m = text_length m.content

-- sum(len(message.content) for message in messages)
abbrev pub total_length : List ChatMessage → ℕ
total_length [] = 0
total_length (m ∷ ms) = content_length m + total_length ms

abbrev pub message : Role → String → ChatMessage
message role content = record { role = role; content = content; tool_call_id = none }

-- _append_if_fits; the messages and the characters used.
unfoldable pub append_if_fits : ℕ → ChatMessage → List ChatMessage × ℕ → List ChatMessage × ℕ
append_if_fits limit m (messages, used) =
    if m.content == ""
    then (messages, used)
    else if ltb limit (used + content_length m)
    then (messages, used)
    else (messages ++ m ∷ [], used + content_length m)

-- content[-remaining:], for a positive `remaining`
unfoldable pub tail_text : ℕ → String → String
tail_text remaining content = drop_text (text_length content - remaining) content

-- _append_with_tail_truncation
unfoldable pub append_with_tail_truncation :
    ℕ → ChatMessage → List ChatMessage × ℕ → List ChatMessage
unfolding tail_text
append_with_tail_truncation limit m (messages, used) =
    let remaining = limit - used in
    let kept = record m {
      content =
          if ltb remaining (content_length m) then tail_text remaining m.content else m.content;
    } in
    if leb limit used then messages else messages ++ kept ∷ []

-- The messages of a turn.
abbrev pub if_text : Role → Option String → List ChatMessage
if_text role none = []
if_text role (some text) = if text == "" then [] else message role text ∷ []

unfoldable pub candidate_messages : TurnText → List ChatMessage
candidate_messages turn =
    if_text user (some turn.user_message) ++ if_text assistant turn.assistant_message

-- What the two loops return: the messages, and how many items were taken and left out.
pub record Selection : Type 0 where
  pub messages : List ChatMessage
  pub included : ℕ
  pub truncated : ℕ

abbrev pub take_turn : List ChatMessage → Selection → Selection
take_turn ms rest = record {
  messages = ms ++ rest.messages;
  included = suc rest.included;
  truncated = rest.truncated;
}

abbrev pub skip_turn : Selection → Selection
skip_turn rest = record rest { truncated = suc rest.truncated }

-- _recent_turn_messages
unfoldable pub recent_turn_messages : ℕ → ℕ → List TurnText → Selection
unfolding candidate_messages
recent_turn_messages limit current [] = record { messages = []; included = 0; truncated = 0 }
recent_turn_messages limit current (turn ∷ turns) =
    let ms = candidate_messages turn in
    let skipped = skip_turn (recent_turn_messages limit current turns) in
    let taken = take_turn ms (recent_turn_messages limit (current + total_length ms) turns) in
    if ltb limit (current + total_length ms) then skipped else taken

abbrev pub given_text : Option String → Option String
given_text none = none
given_text (some text) = if text == "" then none else some text

abbrev pub tool_message_of : Option String → Option String → Option String → Option ChatMessage
tool_message_of (some role) (some content) (some id) =
    if role == "tool"
    then some (record { role = tool; content = content; tool_call_id = some id })
    else none
tool_message_of (some role) (some content) none = none
tool_message_of (some role) none id = none
tool_message_of none content id = none

-- _tool_result_message
unfoldable pub tool_result_message : ToolResult → Option ChatMessage
tool_result_message r =
    tool_message_of (given_text r.role) (given_text r.content) (given_text r.tool_call_id)

abbrev pub add_result_message : ℕ → Option ChatMessage → List ChatMessage × ℕ → List ChatMessage × ℕ
add_result_message limit none state = state
add_result_message limit (some m) state = append_if_fits limit m state

-- The loop over the tool results.
unfoldable pub add_tool_results : ℕ → List ToolResult → List ChatMessage × ℕ → List ChatMessage × ℕ
unfolding tool_result_message append_if_fits
add_tool_results limit [] state = state
add_tool_results limit (r ∷ rs) state =
    add_tool_results limit rs (add_result_message limit (tool_result_message r) state)

abbrev pub with_latest : ℕ → Option String → List ChatMessage × ℕ → List ChatMessage
with_latest limit none state = state.0
with_latest limit (some text) state =
    let appended = append_with_tail_truncation limit (message user text) state in
    if text == "" then state.0 else appended

abbrev pub block_of : Option String → String
block_of none = ""
block_of (some dump) = concat ("Context:\n" ∷ dump ∷ [])

module _ (json : Json) where
  open json use {Value, dumps, dumps_context, source_id, str}

  -- _build_context_block
  unfoldable pub context_block :
      Option FactsSchema → Option ConversationStateSchema → Option Value → Option Value → String
  context_block facts state planner_metadata quote_summary =
      block_of (dumps_context facts state planner_metadata quote_summary)

  abbrev pub id_or : Option String → ℕ → String
  id_or none taken = str (taken + 1)
  id_or (some id) taken = id

  unfoldable pub source_message : String → Value → ChatMessage
  source_message id source =
      message user (concat ("Retrieved source " ∷ id ∷ ":\n" ∷ dumps source ∷ []))

  -- What the loop over the sources returns.
  pub record Sources : Type 0 where
    pub messages : List ChatMessage
    pub included_ids : List String
    pub truncated : ℕ

  abbrev pub take_source : ChatMessage → String → Sources → Sources
  take_source m id rest = record {
    messages = m ∷ rest.messages;
    included_ids = id ∷ rest.included_ids;
    truncated = rest.truncated;
  }

  abbrev pub skip_source : Sources → Sources
  skip_source rest = record rest { truncated = suc rest.truncated }

  -- _source_messages; `taken` is len(included_ids).
  unfoldable pub source_messages : ℕ → ℕ → ℕ → List Value → Sources
  unfolding source_message
  source_messages limit taken current [] = record {
    messages = [];
    included_ids = [];
    truncated = 0;
  }
  source_messages limit taken current (source ∷ sources) =
      let id = id_or (source_id source) taken in
      let m = source_message id source in
      let skipped = skip_source (source_messages limit taken current sources) in
      let kept =
        take_source m id (source_messages limit (suc taken) (current + content_length m) sources) in
      if ltb limit (current + content_length m) then skipped else kept

  pub record Request : Type 0 where
    pub system_prompt : String
    pub facts : Option FactsSchema
    pub state : Option ConversationStateSchema
    pub recent_turns : List TurnText
    pub tool_results : List ToolResult
    pub planner_metadata : Option Value
    pub retrieved_sources : List Value
    pub quote_summary : Option Value
    pub latest_user_message : Option String
    pub max_context_chars : ℕ

  -- The steps in their order, once the two arguments are checked.
  unfoldable pub fill : Request → List ChatMessage × ContextBuildMetadata
  unfolding append_if_fits source_messages recent_turn_messages add_tool_results
      append_with_tail_truncation context_block
  fill r =
      let limit = r.max_context_chars in
      let (first, used) =
        append_if_fits limit
          (message user (context_block r.facts r.state r.planner_metadata r.quote_summary))
          (message system r.system_prompt ∷ [], text_length r.system_prompt) in
      let sources = source_messages limit 0 used r.retrieved_sources in
      let used_sources = used + total_length sources.messages in
      let turns = recent_turn_messages limit used_sources r.recent_turns in
      let used_turns = used_sources + total_length turns.messages in
      let state =
        add_tool_results limit r.tool_results
          ((first ++ sources.messages) ++ turns.messages, used_turns) in
      (
        with_latest limit r.latest_user_message state,
        record {
          included_source_ids = sources.included_ids;
          truncated_source_count = sources.truncated;
          included_turn_count = turns.included;
          truncated_turn_count = turns.truncated;
        },
      )

  -- build_llm_messages; `none` is the `ValueError`.
  unfoldable pub build_llm_messages : Request → Option (List ChatMessage × ContextBuildMetadata)
  unfolding fill
  build_llm_messages r =
      if strip r.system_prompt == "" || eqb r.max_context_chars 0 then none else some (fill r)

abbrev pub is_system : Role → Bool
is_system system = true
is_system _ = false

abbrev pub system_count : List ChatMessage → ℕ
system_count [] = 0
system_count (m ∷ ms) = (if is_system m.role then 1 else 0) + system_count ms

abbrev pub leads : List ChatMessage → Bool
leads [] = false
leads (m ∷ ms) = is_system m.role

-- validate_messages: exactly one system message, and it is the first.
unfoldable pub validate_messages : List ChatMessage → Bool
validate_messages messages = eqb (system_count messages) 1 && leads messages
