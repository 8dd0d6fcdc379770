-- ===== src/Turns/Tests.antt =====
-- Runs of app/turns and the instances of its theorems.
use makkays_chatbot.Prelude.{
  ℕ, ◌≡◌, refl, List, [], ◌∷◌, ◌++◌, true, false, none, some, eqb, not, strip, ◌==◌, if◌then◌else◌,
  arith,
}
use makkays_chatbot.Turns.{
  ConversationTurn, normalized_tool_calls, TurnLog, recorded, insert_failed, record_turn,
  get_recent_turns,
}
use makkays_chatbot.Turns.Laws.{IsGrown, has_distinct_numbers}
use makkays_chatbot.Turns.Once.{IsOnce, record_turn-IsOnce}
use makkays_chatbot.Turns.Numbering.{record_turn-chosen_number}

abbrev turn_of : ℕ → ConversationTurn
turn_of n = record {
  turn_number = n;
  user_message = "hello";
  assistant_message = none;
  intent_result = none;
  tool_calls = none;
}

abbrev two_turns : TurnLog
two_turns = record { rows = turn_of 1 ∷ turn_of 2 ∷ []; calls = 0 }

-- Another writer takes the third number between the reading of the number and the insert.
abbrev racing : ℕ → List ConversationTurn
racing n = if eqb n 1 then turn_of 3 ∷ [] else []

-- The second attempt gets the fourth number.
raced : (record_turn (λ n. false) racing none "hello" none none none two_turns).0 ≡ recorded 4
unfolding record_turn
raced = refl

-- A database that is down: nothing is raised.
unreachable :
    (record_turn (λ n. true) (λ n. []) none "hello" none none none two_turns).0 ≡ insert_failed
unfolding record_turn
unreachable = refl

recent : get_recent_turns 1 two_turns.rows ≡ turn_of 2 ∷ []
unfolding get_recent_turns
recent = refl

has_two : has_distinct_numbers two_turns.rows ≡ true
unfolding has_distinct_numbers
has_two = refl

record_turn-IsOnce_example :
    let ended = record_turn (λ n. eqb n 5) racing none "hello" none none none two_turns in
    IsOnce
      (λ n. eqb n 5)
      racing
      two_turns
      none
      (record (turn_of 0) { tool_calls = normalized_tool_calls none })
      6
      ended
    × IsGrown two_turns.rows ended.1
record_turn-IsOnce_example =
    record_turn-IsOnce (λ n. eqb n 5) racing none "hello" none none none two_turns has_two

has_text : not (strip "hello" == "") ≡ true
unfolding strip
has_text = refl

record_turn-chosen_number_example :
    let ended = record_turn (λ n. false) (λ n. []) (some 2) "hello" none none none two_turns in
    (ended.0 ≡ recorded 3)
    × (ended.1.rows
        ≡ two_turns.rows
          ++ record {
            turn_number = 3;
            user_message = "hello";
            assistant_message = none;
            intent_result = none;
            tool_calls = normalized_tool_calls none;
          }
            ∷ [])
record_turn-chosen_number_example =
    record_turn-chosen_number (some 2) "hello" none none none two_turns has_text refl (omega arith)
