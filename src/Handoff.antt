-- ===== src/Handoff.antt =====
-- app/handoff/handoff_service.py and repository.py: the request for a human, one at a time per session.
--
-- The rows are those of one tenant, the oldest first. The date, the identifier of a new row, the text
-- of a number in three digits, the references of the other tenants and the failure of a write are
-- parameters; time stamps are left out. The notification that is sent in the background is left out.
pub mod Laws
mod Tests
use makkays_chatbot.Prelude.{
  ℕ, ◌+◌, String, List, [], ◌∷◌, ◌++◌, Bool, true, false, ◌&&◌, ◌||◌, Option, none, some, is_some,
  any, keep, map, contains, length, leb, codes, concat, drop, ◌-◌, min, lower, strip, same_codes,
  includes_word, ◌==◌, if◌then◌else◌,
}
use makkays_chatbot.Shared.{Uuid}
use makkays_chatbot.Session.Schemas.{FactsSchema}
use makkays_chatbot.Turns.{ConversationTurn}
use makkays_chatbot.Tools.Schemas.{
  Attempt, returned, raised, other, ToolExecutionResult, SessionContext,
}

-- HandoffTeam, HandoffStatus
pub data Team : Type 0 where
  sales technical support : Team

pub data HandoffStatus : Type 0 where
  pending in_progress resolved cancelled : HandoffStatus

-- ConversationExportItem; the note that the export is capped has no turn.
pub record ConversationExportItem : Type 0 where
  pub role : String
  pub content : String
  pub turn_number : Option ℕ

pub record HandoffRecord : Type 0 where
  pub id : Uuid
  pub session_id : String
  pub target_team : Team
  pub reference_id : String
  pub status : HandoffStatus
  pub conversation_export : List ConversationExportItem
  pub contact_name : Option String
  pub contact_email : Option String
  pub contact_phone : Option String
  pub created_on : String

-- ACTIVE_HANDOFF_STATUSES
abbrev pub is_active : HandoffStatus → Bool
is_active pending = true
is_active in_progress = true
is_active resolved = false
is_active cancelled = false

-- get_active: the oldest active row of the session.
unfoldable pub get_active : String → List HandoffRecord → Option HandoffRecord
get_active session [] = none
get_active session (row ∷ rows) =
    let later = get_active session rows in
    if (row.session_id == session) && is_active row.status then some row else later

-- count_created_on
unfoldable pub count_created_on : String → List HandoffRecord → ℕ
count_created_on day rows = length (keep (λ row. row.created_on == day) rows)

-- VALID_TEAMS, as the keys of the teams
abbrev team_of : List ℕ → Option Team
team_of name =
    if same_codes name (codes "sales")
    then some sales
    else if same_codes name (codes "technical")
    then some technical
    else if same_codes name (codes "support")
    then some support
    else none

-- validate_target_team; `none` is an `InvalidHandoffTeamError`.
unfoldable pub validate_target_team : String → Option Team
unfolding lower strip
validate_target_team target_team = team_of (lower (strip target_team))

abbrev or_message : String → Option Team → Team
or_message message (some team) = team
or_message message none =
    let text = lower message in
    if includes_word (codes "technical") text || includes_word (codes "engineer") text
    then technical
    else if includes_word (codes "support") text
        || includes_word (codes "issue") text
        || includes_word (codes "problem") text
    then support
    else sales

abbrev state_team : Option String → Option Team
state_team none = none
state_team (some target) = validate_target_team target

-- infer_target_team
unfoldable pub infer_target_team : Option String → String → Team
unfolding validate_target_team lower includes_word
infer_target_team handoff_target message = or_message message (state_team handoff_target)

abbrev add_item :
    String → ℕ → Option String → List ConversationExportItem → List ConversationExportItem
add_item role n none rest = rest
add_item role n (some content) rest =
    if content == ""
    then rest
    else record { role = role; content = content; turn_number = some n } ∷ rest

-- build_conversation_export
unfoldable pub build_conversation_export : List ConversationTurn → List ConversationExportItem
build_conversation_export [] = []
build_conversation_export (turn ∷ turns) =
    add_item "user" turn.turn_number (some turn.user_message) (
      add_item "assistant" turn.turn_number turn.assistant_message
        (build_conversation_export turns))

-- The last fifty turns, with a note if there are fifty.
unfoldable pub export_of : List ConversationTurn → List ConversationExportItem
unfolding build_conversation_export
export_of turns =
    let items = build_conversation_export turns in
    if leb 50 (length turns)
    then record {
      role = "system";
      content = "Conversation export is capped at the most recent 50 turns.";
      turn_number = none;
    }
      ∷ items
    else items

abbrev label : Team → String
label sales = "Sales"
label technical = "Technical"
label support = "Support"

-- acknowledgement_text
unfoldable pub acknowledgement_text : Team → String → String
acknowledgement_text team reference_id = concat (
    "I've connected you with our "
    ∷ label team
    ∷ " team. Reference: "
    ∷ reference_id
    ∷ ". Someone will contact you shortly."
    ∷ [])

-- What a request takes from outside.
pub record Surroundings : Type 0 where
  -- the date of a row, and as eight digits
  pub today : String
  pub day_text : String
  -- a number in at least three digits
  pub three_digits : ℕ → String
  pub new_id : List HandoffRecord → Uuid
  -- the references of other tenants' rows, and the texts of exceptions: where a reference is not
  -- unique, and where a statement or the commit fails
  pub references_elsewhere : List String
  pub integrity_error : String
  pub write_error : Option String

pub data Handoff : Type 0 where
  created : HandoffRecord → Handoff
  already_initiated : String → Handoff

module _ (around : Surroundings) where
  -- _next_reference_id
  unfoldable pub next_reference_id : List HandoffRecord → String
  unfolding count_created_on
  next_reference_id rows = concat (
      "HO-"
      ∷ around.day_text
      ∷ "-"
      ∷ around.three_digits (count_created_on around.today rows + 1)
      ∷ [])

  unfoldable pub new_record :
      SessionContext → Team → List ConversationTurn → List HandoffRecord → HandoffRecord
  unfolding next_reference_id export_of
  new_record session team turns rows = record {
    id = around.new_id rows;
    session_id = session.session_id;
    target_team = team;
    reference_id = next_reference_id rows;
    status = pending;
    conversation_export = export_of (drop (length turns - 50) turns);
    contact_name = session.facts.contact_name;
    contact_email = session.facts.contact_email;
    contact_phone = session.facts.contact_phone;
    created_on = around.today;
  }

  -- The unique constraint on the reference, which holds for all tenants.
  abbrev pub is_taken : String → List HandoffRecord → Bool
  is_taken reference rows =
      contains around.references_elsewhere reference
      || contains (map (λ row. row.reference_id) rows) reference

  abbrev pub insert_row :
      Option String → HandoffRecord → List HandoffRecord → Attempt Handoff × List HandoffRecord
  insert_row (some error) row rows = (raised (other error), rows)
  insert_row none row rows =
      if is_taken row.reference_id rows
      then (raised (other around.integrity_error), rows)
      else (returned (created row), rows ++ row ∷ [])

  abbrev pub after_active :
      SessionContext
      → Team
      → List ConversationTurn
      → List HandoffRecord
      → Option HandoffRecord
      → Attempt Handoff × List HandoffRecord
  after_active session team turns rows (some existing) =
      (returned (already_initiated existing.reference_id), rows)
  after_active session team turns rows none =
      insert_row around.write_error (new_record session team turns rows) rows

  -- HandoffService.initiate, for a team that is valid, and the commit or rollback that follows it
  unfoldable pub initiate :
      SessionContext
      → Team
      → List ConversationTurn
      → List HandoffRecord
      → Attempt Handoff × List HandoffRecord
  unfolding get_active new_record
  initiate session team turns rows =
      after_active session team turns rows (get_active session.session_id rows)

  abbrev tool_result : Bool → String → ToolExecutionResult
  tool_result success summary = record {
    step = "initiate_handoff";
    success = success;
    result_summary = summary;
    error = none;
    product_ids = none;
  }

  abbrev pub reply_to : Handoff → ToolExecutionResult
  reply_to (created row) = tool_result true (acknowledgement_text row.target_team row.reference_id)
  reply_to (already_initiated reference_id) = tool_result false (
      concat (
        "A handoff is already active for this conversation. Reference: " ∷ reference_id ∷ "." ∷ []))

  abbrev pub after_initiate :
      Attempt Handoff × List HandoffRecord → Attempt ToolExecutionResult × List HandoffRecord
  after_initiate (returned handoff, rows) = (returned (reply_to handoff), rows)
  after_initiate (raised e, rows) = (raised e, rows)

  -- initiate_handoff_tool: the inferred team is always valid.
  unfoldable pub initiate_handoff_tool :
      SessionContext
      → List ConversationTurn
      → List HandoffRecord
      → Attempt ToolExecutionResult × List HandoffRecord
  unfolding initiate infer_target_team acknowledgement_text
  initiate_handoff_tool session turns rows = after_initiate (
      initiate session (infer_target_team session.conversation_state.handoff_target session.message)
        turns rows)
