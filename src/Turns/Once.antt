-- ===== src/Turns/Once.antt =====
-- app/turns: a turn is recorded once if it is reported, and else not.
use makkays_chatbot.Prelude.{
  ℕ, zero, suc, ◌+◌, ◌*◌, ◌≡◌, ◌≤◌, ◌⊎◌, refl, ap, String, List, [], ◌∷◌, ◌++◌, Bool, true, Option,
  none, some, inl, inr, Bool-cases, arith,
}
use makkays_chatbot.Turns.{
  ToolCall, IntentPayload, ConversationTurn, is_valid_turn, normalized_tool_calls, TurnLog,
  is_taken, commit_rows, max_turn_number, Recording, recorded, invalid_turn, insert_failed,
  next_call, get_next_turn_number, create, after_create, after_number, attempt, record_turn,
}
use makkays_chatbot.Turns.Laws.{has_distinct_numbers, IsGrown, record_turn-IsGrown}

-- The rows after `k` calls from a call on, of which none has inserted a row.
unfoldable pub seen :
    (ℕ → List ConversationTurn) → List ConversationTurn → ℕ → ℕ → List ConversationTurn
seen others rows call zero = rows
seen others rows call (suc k) = commit_rows (seen others rows call k) (others (call + k))

-- The number is the given one, or the next one after those of the rows.
abbrev pub IsNumber : Option ℕ → List ConversationTurn → ℕ → Type 0
IsNumber given rows n = (given ≡ some n) ⊎ (n ≡ max_turn_number rows + 1)

module _ (fails : ℕ → Bool) (others : ℕ → List ConversationTurn) (log₀ : TurnLog) where
  -- After `k` calls the recording has inserted nothing.
  abbrev IsSeen : ℕ → TurnLog → Type 0
  IsSeen k log = (log.calls ≡ log₀.calls + k) × (log.rows ≡ seen others log₀.rows log₀.calls k)

  -- How a recording ends after at most `most` calls. A turn that is reported is the last row, after
  -- those that others have committed, and has the reported number, which is the given one or was read
  -- as the next one at the call before; otherwise there are only the rows of others.
  abbrev pub IsOnce : Option ℕ → ConversationTurn → ℕ → Recording × TurnLog → Type 0
  IsOnce given turn most (recorded n, log) =
      (k : ℕ) × (suc k ≤ most)
      × (log.calls ≡ log₀.calls + suc k)
      × (log.rows
          ≡ seen others log₀.rows log₀.calls (suc k) ++ record turn { turn_number = n } ∷ [])
      × IsNumber given (seen others log₀.rows log₀.calls k) n
  IsOnce given turn most (invalid_turn, log) = (k : ℕ) × (k ≤ most) × IsSeen k log
  IsOnce given turn most (insert_failed, log) = (k : ℕ) × (k ≤ most) × IsSeen k log

  next_call-IsSeen :
      (k : ℕ) (log : TurnLog) → IsSeen k log → IsSeen (suc k) (next_call fails others log)
  unfolding next_call seen
  next_call-IsSeen k log (calls, rows) = (omega (arith, calls), rw (calls, rows) refl)

  -- An attempt without a given number may stand for one with it.
  IsOnce-given :
      (given : Option ℕ) (turn : ConversationTurn) (most : ℕ) (ended : Recording × TurnLog)
      → IsOnce none turn most ended
      → IsOnce given turn most ended
  IsOnce-given given turn most (recorded n, log) (k, few, calls, rows, inl e) = cc
  IsOnce-given given turn most (recorded n, log) (k, few, calls, rows, inr e) =
      (k, few, calls, rows, inr e)
  IsOnce-given given turn most (invalid_turn, log) h = h
  IsOnce-given given turn most (insert_failed, log) h = h

  module _ (given : Option ℕ) (turn : ConversationTurn) (most n k : ℕ) (few : suc k ≤ most)
      (again : TurnLog → Recording × TurnLog)
      (ih : (log : TurnLog) → IsSeen (suc k) log → IsOnce given turn most (again log))
      (chosen : IsNumber given (seen others log₀.rows log₀.calls k) n) where
    create-IsOnce :
        (log : TurnLog)
        → IsSeen k log
        → IsOnce given turn most (
            after_create fails others n again
              (create fails others (record turn { turn_number = n }) log))
    unfolding create
    create-IsOnce log h =
        let log' = next_call fails others log in
        let (calls, rows) = next_call-IsSeen k log h in
        elim (Bool-cases (fails log.calls)) [
          | inl t ↦ rw t (suc k, few, (calls, rows))
          | inr f ↦ elim (Bool-cases (is_taken n log'.rows)) [
            | inl t ↦ rw (f, t) (ih log' (calls, rows))
            | inr g ↦
                rw (f, g)
                  (k, few, calls, ap (λ r. r ++ record turn { turn_number = n } ∷ []) rows, chosen)
          ]
        ]

    after_number-IsOnce :
        (log : TurnLog)
        → IsSeen k log
        → IsOnce given turn most (after_number fails others turn again (some n, log))
    after_number-IsOnce log h =
        elim (Bool-cases (is_valid_turn (record turn { turn_number = n }))) [
          | inl t ↦ rw t (create-IsOnce log h)
          | inr f ↦ rw f (k, omega (arith, few), h)
        ]

  numbered-IsOnce :
      (turn : ConversationTurn) (most left k : ℕ) (log : TurnLog)
      → suc (suc k) ≤ most
      → ((log' : TurnLog)
          → IsSeen (suc (suc k)) log'
          → IsOnce none turn most (attempt fails others left none turn log'))
      → IsSeen k log
      → IsOnce none turn most (
          after_number fails others turn
            (attempt fails others left none turn)
            (get_next_turn_number fails others log))
  unfolding get_next_turn_number
  numbered-IsOnce turn most left k log few ih h =
      let log' = next_call fails others log in
      let h' = next_call-IsSeen k log h in
      elim (Bool-cases (fails log.calls)) [
        | inl t ↦ rw t (suc k, omega (arith, few), h')
        | inr f ↦ rw f (
            after_number-IsOnce none turn most (max_turn_number log'.rows + 1) (suc k) few
              (attempt fails others left none turn) ih
              (inr (ap (λ rows. max_turn_number rows + 1) h'.1)) log' h')
      ]

  attempt-IsOnce :
      (turn : ConversationTurn) (most left k : ℕ) (log : TurnLog)
      → k + 2 * left ≤ most
      → IsSeen k log
      → IsOnce none turn most (attempt fails others left none turn log)
  unfolding attempt
  attempt-IsOnce turn most zero k log few h = (k, omega (arith, few), h)
  attempt-IsOnce turn most (suc left) k log few h =
      numbered-IsOnce turn most left k log (omega (arith, few))
        (λ log' h'. attempt-IsOnce turn most left (suc (suc k)) log' (omega (arith, few)) h') h

  attempt_given-IsOnce :
      (given : Option ℕ) (turn : ConversationTurn) (most left : ℕ)
      → 2 * suc left ≤ most
      → IsOnce given turn most (attempt fails others (suc left) given turn log₀)
  unfolding attempt seen
  attempt_given-IsOnce none turn most left few =
      attempt-IsOnce turn most (suc left) 0 log₀ (omega (arith, few)) (omega arith, refl)
  attempt_given-IsOnce (some n) turn most left few =
      after_number-IsOnce (some n) turn most n 0 (omega (arith, few))
        (attempt fails others left none turn)
        (λ log h.
          IsOnce-given (some n) turn most _
            (attempt-IsOnce turn most left 1 log (omega (arith, few)) h))
        (inl refl) log₀ (omega arith, refl)

-- Whatever calls fail and whatever rows other writers commit, a recording makes at most six calls.
-- If it reports a number, the turn is the last row, once and with that number, after the rows that
-- others have committed up to the last call; the number is the given one, or was read as the next one
-- at the call before. If it reports a failure, the turn is not in the log: there are only the rows of
-- others. If the log has no number twice, it has none twice afterwards, and begins with its old rows.
pub record_turn-IsOnce :
    (fails : ℕ → Bool) (others : ℕ → List ConversationTurn) (given : Option ℕ)
    (user_message : String) (assistant_message : Option String)
    (intent_result : Option IntentPayload) (tool_calls : Option (List ToolCall)) (log : TurnLog)
    → has_distinct_numbers log.rows ≡ true
    → let ended =
        record_turn fails others given user_message assistant_message intent_result tool_calls
          log in
      IsOnce fails others log given
        (record {
          turn_number = 0;
          user_message = user_message;
          assistant_message = assistant_message;
          intent_result = intent_result;
          tool_calls = normalized_tool_calls tool_calls;
        })
        6
        ended
      × IsGrown log.rows ended.1
unfolding record_turn
record_turn-IsOnce fails others given user_message assistant_message intent_result tool_calls log
      h =
    (
      attempt_given-IsOnce fails others log given
          (record {
            turn_number = 0;
            user_message = user_message;
            assistant_message = assistant_message;
            intent_result = intent_result;
            tool_calls = normalized_tool_calls tool_calls;
          })
          6 2 (omega arith),
      record_turn-IsGrown fails others given user_message assistant_message intent_result tool_calls
          log h,
    )
