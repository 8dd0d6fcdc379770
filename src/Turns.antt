-- ===== src/Turns.antt =====
-- app/turns: the append-only log of the turns of one session.
--
-- The calls of the database are numbered; `fails` says which of them raise and `others` which rows
-- other transactions have committed before a call. The unique constraint on the turn number holds
-- for all writers. The rows are those that the session's transaction sees.
pub mod Laws
pub mod Once
pub mod Numbering
mod Tests
use makkays_chatbot.Prelude.{
  ℕ, zero, suc, ◌+◌, max, min, String, List, [], ◌∷◌, ◌++◌, Bool, true, false, ◌&&◌, ◌||◌, not,
  Option, none, some, Dict, lookup, is_some, all, any, length, drop, leb, eqb, map, ◌==◌, ◌-◌,
  strip, if◌then◌else◌,
}
use makkays_chatbot.Shared.{Confidence, Source, certain}

-- One tool call as it is audited: a dictionary of texts.
abbrev pub ToolCall : Type 0
ToolCall = Dict String

-- What the log takes of a classification.
pub record IntentPayload : Type 0 where
  pub intent : String
  pub confidence : Confidence
  pub source : Source
  pub candidate_intents : List String

pub record ConversationTurn : Type 0 where
  pub turn_number : ℕ
  pub user_message : String
  pub assistant_message : Option String
  pub intent_result : Option IntentPayload
  pub tool_calls : Option (List ToolCall)

-- validate_tool_calls: each has a tool and its arguments.
unfoldable pub valid_tool_calls : Option (List ToolCall) → Bool
unfolding lookup
valid_tool_calls none = true
valid_tool_calls (some calls) =
    all (λ call. is_some (lookup "tool" call) && is_some (lookup "args" call)) calls

abbrev pub valid_confidence : Option IntentPayload → Bool
valid_confidence none = true
valid_confidence (some payload) = leb payload.confidence certain

-- The checks of ConversationTurnCreate.
unfoldable pub is_valid_turn : ConversationTurn → Bool
unfolding valid_tool_calls strip
is_valid_turn turn =
    leb 1 turn.turn_number
    && not (strip turn.user_message == "")
    && valid_confidence turn.intent_result
    && valid_tool_calls turn.tool_calls

-- _validate_tool_calls: calls that are not valid are not recorded.
unfoldable pub normalized_tool_calls : Option (List ToolCall) → Option (List ToolCall)
unfolding valid_tool_calls
normalized_tool_calls calls = if valid_tool_calls calls then calls else none

pub record TurnLog : Type 0 where
  pub rows : List ConversationTurn
  pub calls : ℕ

-- The number stands in the log.
abbrev pub is_taken : ℕ → List ConversationTurn → Bool
is_taken n rows = any (λ row. eqb row.turn_number n) rows

-- The rows with those of other writers, which obey the constraint too.
unfoldable pub commit_rows : List ConversationTurn → List ConversationTurn → List ConversationTurn
commit_rows rows [] = rows
commit_rows rows (new ∷ news) =
    commit_rows (if is_taken new.turn_number rows then rows else rows ++ new ∷ []) news

-- coalesce(max(turn_number), 0)
abbrev pub max_turn_number : List ConversationTurn → ℕ
max_turn_number [] = 0
max_turn_number (row ∷ rows) = max row.turn_number (max_turn_number rows)

-- How an insert ends.
pub data Inserted : Type 0 where
  inserted conflict broken : Inserted

-- What is logged of a recording.
pub data Recording : Type 0 where
  recorded : ℕ → Recording
  invalid_turn insert_failed : Recording

module _ (fails : ℕ → Bool) (others : ℕ → List ConversationTurn) where
  -- The next call is made, and sees what others have committed.
  unfoldable pub next_call : TurnLog → TurnLog
  unfolding commit_rows
  next_call log = record { rows = commit_rows log.rows (others log.calls); calls = suc log.calls }

  -- TurnsRepository.get_next_turn_number; `none` is a call that raises.
  unfoldable pub get_next_turn_number : TurnLog → Option ℕ × TurnLog
  unfolding next_call
  get_next_turn_number log =
      let log' = next_call log in
      (if fails log.calls then none else some (max_turn_number log'.rows + 1), log')

  -- TurnsRepository.create
  unfoldable pub create : ConversationTurn → TurnLog → Inserted × TurnLog
  unfolding next_call
  create turn log =
      let log' = next_call log in
      if fails log.calls
      then (broken, log')
      else if is_taken turn.turn_number log'.rows
      then (conflict, log')
      else (inserted, record log' { rows = log'.rows ++ turn ∷ [] })

  -- What follows the insert; `again` is the next attempt, if there is one.
  abbrev pub after_create :
      ℕ → (TurnLog → Recording × TurnLog) → Inserted × TurnLog → Recording × TurnLog
  after_create n again (inserted, log) = (recorded n, log)
  after_create n again (conflict, log) = again log
  after_create n again (broken, log) = (insert_failed, log)

  abbrev pub after_number :
      ConversationTurn → (TurnLog → Recording × TurnLog) → Option ℕ × TurnLog → Recording × TurnLog
  after_number turn again (none, log) = (insert_failed, log)
  after_number turn again (some n, log) =
      let numbered_turn = record turn { turn_number = n } in
      let stored = after_create n again (create numbered_turn log) in
      if is_valid_turn numbered_turn then stored else (invalid_turn, log)

  -- The number of an attempt: the given one at the first attempt, if there is one.
  abbrev pub resolve_number : Option ℕ → TurnLog → Option ℕ × TurnLog
  resolve_number none log = get_next_turn_number log
  resolve_number (some n) log = (some n, log)

  -- The attempts that are left, `turn_number` given only to the first.
  unfoldable pub attempt : ℕ → Option ℕ → ConversationTurn → TurnLog → Recording × TurnLog
  unfolding get_next_turn_number create is_valid_turn
  attempt zero turn_number turn log = (insert_failed, log)
  attempt (suc n) turn_number turn log =
      after_number turn (attempt n none turn) (resolve_number turn_number log)

  -- record_turn: at most three attempts. It raises nothing.
  unfoldable pub record_turn :
      Option ℕ
      → String
      → Option String
      → Option IntentPayload
      → Option (List ToolCall)
      → TurnLog
      → Recording × TurnLog
  unfolding attempt normalized_tool_calls
  record_turn turn_number user_message assistant_message intent_result tool_calls log =
      attempt 3 turn_number
        (record {
          turn_number = 0;
          user_message = user_message;
          assistant_message = assistant_message;
          intent_result = intent_result;
          tool_calls = normalized_tool_calls tool_calls;
        })
        log

-- get_recent_turns: the last rows by number, at most eight, the oldest first. The rows are in the
-- order of their numbers.
unfoldable pub get_recent_turns : ℕ → List ConversationTurn → List ConversationTurn
get_recent_turns limit rows = drop (length rows - min limit 8) rows
