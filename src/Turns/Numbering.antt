-- ===== src/Turns/Numbering.antt =====
-- app/turns: the number under which a turn is recorded.
use makkays_chatbot.Prelude.{
  ℕ, suc, ◌+◌, ◌≡◌, ◌≤◌, refl, ap, ◌∙◌, ◌==◌, String, List, [], ◌∷◌, ◌++◌, Bool, true, false, not,
  Option, none, some, inl, inr, Bool-cases, leb, eqb, strip, if◌then◌else◌, arith,
}
use makkays_chatbot.Turns.{
  ToolCall, IntentPayload, ConversationTurn, valid_tool_calls, valid_confidence, is_valid_turn,
  normalized_tool_calls, TurnLog, is_taken, commit_rows, max_turn_number, Recording, recorded,
  next_call, get_next_turn_number, create, after_number, attempt, record_turn,
}

-- A turn that is stored: its data without a number, and the number.
abbrev numbered : ConversationTurn → ℕ → ConversationTurn
numbered turn n = record turn { turn_number = n }

-- The number that a turn should get: the given one if it is free, else the next one.
abbrev pub chosen_number : Option ℕ → List ConversationTurn → ℕ
chosen_number none rows = max_turn_number rows + 1
chosen_number (some n) rows = if is_taken n rows then max_turn_number rows + 1 else n

abbrev pub IsPositive : Option ℕ → Type 0
IsPositive none = Unit
IsPositive (some n) = 1 ≤ n

is_taken-max_turn_number :
    (n : ℕ) (rows : List ConversationTurn) → is_taken n rows ≡ true → n ≤ max_turn_number rows
is_taken-max_turn_number n [] e = cc
is_taken-max_turn_number n (row ∷ rows) e = elim (Bool-cases (eqb row.turn_number n)) [
  | inl t ↦ ground arith
  | inr f ↦ omega (arith, is_taken-max_turn_number n rows (rw f at e))
]

-- The next number is free.
next_is_free : (rows : List ConversationTurn) → is_taken (max_turn_number rows + 1) rows ≡ false
next_is_free rows = elim (Bool-cases (is_taken (max_turn_number rows + 1) rows)) [
  | inl t ↦
      let low : max_turn_number rows + 1 ≤ max_turn_number rows =
        is_taken-max_turn_number (max_turn_number rows + 1) rows t in
      absurd (omega arith)
  | inr f ↦ f
]

valid_tool_calls-normalized_tool_calls :
    (calls : Option (List ToolCall)) → valid_tool_calls (normalized_tool_calls calls) ≡ true
unfolding normalized_tool_calls valid_tool_calls
valid_tool_calls-normalized_tool_calls calls = elim (Bool-cases (valid_tool_calls calls)) [
  | inl t ↦ rw (t, t) refl
  | inr f ↦ rw f refl
]

-- A turn with a text, a proper confidence and proper calls is valid with each number but zero.
numbered-is_valid_turn :
    (turn : ConversationTurn) (n : ℕ)
    → not (strip turn.user_message == "") ≡ true
    → valid_confidence turn.intent_result ≡ true
    → valid_tool_calls turn.tool_calls ≡ true
    → 1 ≤ n
    → is_valid_turn (numbered turn n) ≡ true
unfolding is_valid_turn
numbered-is_valid_turn turn n text confidence calls positive =
    let one : leb 1 n ≡ true = ground arith in rw (one, text, confidence, calls) refl

abbrev alone : ℕ → List ConversationTurn
alone n = []

abbrev reliable : ℕ → Bool
reliable n = false

module _ (turn : ConversationTurn) (text : not (strip turn.user_message == "") ≡ true)
    (confidence : valid_confidence turn.intent_result ≡ true)
    (calls : valid_tool_calls turn.tool_calls ≡ true) where
  -- An attempt with a free number is the last one.
  attempt-free :
      (again : TurnLog → Recording × TurnLog) (n : ℕ) (log : TurnLog)
      → 1 ≤ n
      → is_taken n log.rows ≡ false
      → after_number reliable alone turn again (some n, log)
        ≡ (recorded n, record { rows = log.rows ++ numbered turn n ∷ []; calls = suc log.calls })
  unfolding create next_call commit_rows
  attempt-free again n log positive free =
      rw (numbered-is_valid_turn turn n text confidence calls positive, free) refl

  -- An attempt with a number that is taken only makes a call.
  attempt-taken :
      (again : TurnLog → Recording × TurnLog) (n : ℕ) (log : TurnLog)
      → 1 ≤ n
      → is_taken n log.rows ≡ true
      → after_number reliable alone turn again (some n, log)
        ≡ again (record { rows = log.rows; calls = suc log.calls })
  unfolding create next_call commit_rows
  attempt-taken again n log positive taken =
      rw (numbered-is_valid_turn turn n text confidence calls positive, taken) refl

  attempt-next :
      (left : ℕ) (log : TurnLog)
      → attempt reliable alone (suc left) none turn log ≡ (
        recorded (max_turn_number log.rows + 1),
        record {
          rows = log.rows ++ numbered turn (max_turn_number log.rows + 1) ∷ [];
          calls = suc (suc log.calls);
        },
      )
  unfolding attempt get_next_turn_number next_call commit_rows
  attempt-next left log =
      attempt-free (attempt reliable alone left none turn) (max_turn_number log.rows + 1)
        (record { rows = log.rows; calls = suc log.calls }) (omega arith) (next_is_free log.rows)

  attempt-given :
      (left n : ℕ) (log : TurnLog)
      → attempt reliable alone (suc left) (some n) turn log
        ≡ after_number reliable alone turn (attempt reliable alone left none turn) (some n, log)
  unfolding attempt
  attempt-given left n log = refl

  -- Two attempts are enough.
  attempt-chosen_number :
      (turn_number : Option ℕ) (left : ℕ) (log : TurnLog)
      → IsPositive turn_number
      → let ended = attempt reliable alone (suc (suc left)) turn_number turn log in
        let n = chosen_number turn_number log.rows in
        (ended.0 ≡ recorded n) × (ended.1.rows ≡ log.rows ++ numbered turn n ∷ [])
  attempt-chosen_number none left log positive =
      let ended = attempt-next (suc left) log in (ap (λ e. e.0) ended, ap (λ e. e.1.rows) ended)
  attempt-chosen_number (some n) left log positive =
      let again = attempt reliable alone (suc left) none turn in
      elim (Bool-cases (is_taken n log.rows)) [
        | inr f ↦
            let ended = attempt-given (suc left) n log ∙ attempt-free again n log positive f in
            rw f (ap (λ e. e.0) ended, ap (λ e. e.1.rows) ended)
        | inl t ↦
            let retried : TurnLog = record { rows = log.rows; calls = suc log.calls } in
            let ended =
              attempt-given (suc left) n log
              ∙ attempt-taken again n log positive t
              ∙ attempt-next left retried in
            rw t (ap (λ e. e.0) ended, ap (λ e. e.1.rows) ended)
      ]

-- With no failing call and no other writer, a turn with a text and a proper confidence is recorded
-- once, as the last row and with proper tool calls or none: under the given number, if it is
-- positive and free, and under the next number if it is taken or none is given.
pub record_turn-chosen_number :
    (turn_number : Option ℕ) (user_message : String) (assistant_message : Option String)
    (intent_result : Option IntentPayload) (tool_calls : Option (List ToolCall)) (log : TurnLog)
    → not (strip user_message == "") ≡ true
    → valid_confidence intent_result ≡ true
    → IsPositive turn_number
    → let ended =
        record_turn
          (λ n. false)
          (λ n. [])
          turn_number
          user_message
          assistant_message
          intent_result
          tool_calls
          log in
      let n = chosen_number turn_number log.rows in
      (ended.0 ≡ recorded n)
      × (ended.1.rows
          ≡ log.rows
            ++ record {
              turn_number = n;
              user_message = user_message;
              assistant_message = assistant_message;
              intent_result = intent_result;
              tool_calls = normalized_tool_calls tool_calls;
            }
              ∷ [])
unfolding record_turn
record_turn-chosen_number turn_number user_message assistant_message intent_result tool_calls log
      text confidence positive =
    attempt-chosen_number
      (record {
        turn_number = 0;
        user_message = user_message;
        assistant_message = assistant_message;
        intent_result = intent_result;
        tool_calls = normalized_tool_calls tool_calls;
      })
      text confidence (valid_tool_calls-normalized_tool_calls tool_calls) turn_number 1 log positive
