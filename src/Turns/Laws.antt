-- ===== src/Turns/Laws.antt =====
-- app/turns: what recording does to the log.
use makkays_chatbot.Prelude.{
  ℕ, zero, suc, ◌≡◌, refl, ap, sym, ◌∙◌, String, List, [], ◌∷◌, ◌++◌, append-nil, append_assoc,
  Bool, true, false, ◌&&◌, not, Option, none, some, inl, inr, Bool-cases, eqb, arith,
}
use makkays_chatbot.Turns.{
  ToolCall, IntentPayload, ConversationTurn, is_valid_turn, normalized_tool_calls, TurnLog,
  is_taken, commit_rows, Inserted, inserted, conflict, broken, Recording, next_call,
  get_next_turn_number, create, after_create, after_number, resolve_number, attempt, record_turn,
}

-- No two rows have the same number.
unfoldable pub has_distinct_numbers : List ConversationTurn → Bool
has_distinct_numbers [] = true
has_distinct_numbers (row ∷ rows) = not (is_taken row.turn_number rows) && has_distinct_numbers rows

-- The first rows of the log are the given ones, in order, and all numbers differ.
abbrev pub IsGrown : List ConversationTurn → TurnLog → Type 0
IsGrown rows log =
    ((added : List ConversationTurn) × (log.rows ≡ rows ++ added))
    × (has_distinct_numbers log.rows ≡ true)

is_taken-snoc :
    (n : ℕ) (rows : List ConversationTurn) (new : ConversationTurn)
    → is_taken n rows ≡ false
    → eqb new.turn_number n ≡ false
    → is_taken n (rows ++ new ∷ []) ≡ false
is_taken-snoc n [] new e d = rw d refl
is_taken-snoc n (row ∷ rows) new e d = elim (Bool-cases (eqb row.turn_number n)) [
  | inl t ↦ cc (rw t at e)
  | inr f ↦ rw f (is_taken-snoc n rows new (rw f at e) d)
]

has_distinct_numbers-snoc :
    (rows : List ConversationTurn) (new : ConversationTurn)
    → has_distinct_numbers rows ≡ true
    → is_taken new.turn_number rows ≡ false
    → has_distinct_numbers (rows ++ new ∷ []) ≡ true
unfolding has_distinct_numbers
has_distinct_numbers-snoc [] new h e = refl
has_distinct_numbers-snoc (row ∷ rows) new h e =
    elim (Bool-cases (eqb row.turn_number new.turn_number)) [
      | inl t ↦ cc (rw t at e)
      | inr f ↦ elim (Bool-cases (is_taken row.turn_number rows)) [
        | inl t ↦ cc (rw t at h)
        | inr g ↦
            let other : eqb new.turn_number row.turn_number ≡ false = ground arith in
            rw (is_taken-snoc row.turn_number rows new g other)
              (has_distinct_numbers-snoc rows new (rw g at h) (rw f at e))
      ]
    ]

-- A row whose number is free is added.
snoc-IsGrown :
    (before rows : List ConversationTurn) (calls : ℕ) (new : ConversationTurn)
    → is_taken new.turn_number rows ≡ false
    → IsGrown before (record { rows = rows; calls = calls })
    → IsGrown before (record { rows = rows ++ new ∷ []; calls = calls })
snoc-IsGrown before rows calls new e ((added, same), distinct) = (
  (added ++ new ∷ [], ap (λ list. list ++ new ∷ []) same ∙ append_assoc before added (new ∷ [])),
  has_distinct_numbers-snoc rows new distinct e,
)

commit_rows-IsGrown :
    (before rows news : List ConversationTurn) (calls : ℕ)
    → IsGrown before (record { rows = rows; calls = calls })
    → IsGrown before (record { rows = commit_rows rows news; calls = calls })
unfolding commit_rows
commit_rows-IsGrown before rows [] calls h = h
commit_rows-IsGrown before rows (new ∷ news) calls h =
    elim (Bool-cases (is_taken new.turn_number rows)) [
      | inl t ↦ rw t (commit_rows-IsGrown before rows news calls h)
      | inr f ↦ rw f (
          commit_rows-IsGrown before (rows ++ new ∷ []) news calls
            (snoc-IsGrown before rows calls new f h))
    ]

module _ (fails : ℕ → Bool) (others : ℕ → List ConversationTurn)
    (before : List ConversationTurn) where
  next_call-IsGrown :
      (log : TurnLog) → IsGrown before log → IsGrown before (next_call fails others log)
  unfolding next_call
  next_call-IsGrown log h = commit_rows-IsGrown before log.rows (others log.calls) log.calls h

  create-IsGrown :
      (turn : ConversationTurn) (log : TurnLog)
      → IsGrown before log
      → IsGrown before (create fails others turn log).1
  unfolding create
  create-IsGrown turn log h =
      let log' = next_call fails others log in
      let grown = next_call-IsGrown log h in
      elim (Bool-cases (fails log.calls)) [
        | inl t ↦ rw t grown
        | inr f ↦ elim (Bool-cases (is_taken turn.turn_number log'.rows)) [
          | inl t ↦ rw (f, t) grown
          | inr g ↦ rw (f, g) (snoc-IsGrown before log'.rows log'.calls turn g grown)
        ]
      ]

  after_create-IsGrown :
      (n : ℕ) (again : TurnLog → Recording × TurnLog)
      → ((log : TurnLog) → IsGrown before log → IsGrown before (again log).1)
      → (stored : Inserted × TurnLog) → IsGrown before stored.1
      → IsGrown before (after_create fails others n again stored).1
  after_create-IsGrown n again ih (inserted, log) h = h
  after_create-IsGrown n again ih (conflict, log) h = ih log h
  after_create-IsGrown n again ih (broken, log) h = h

  after_number-IsGrown :
      (turn : ConversationTurn) (again : TurnLog → Recording × TurnLog)
      → ((log : TurnLog) → IsGrown before log → IsGrown before (again log).1)
      → (number : Option ℕ × TurnLog) → IsGrown before number.1
      → IsGrown before (after_number fails others turn again number).1
  after_number-IsGrown turn again ih (none, log) h = h
  after_number-IsGrown turn again ih (some n, log) h =
      let numbered_turn = record turn { turn_number = n } in
      let stored = create fails others numbered_turn log in
      elim (Bool-cases (is_valid_turn numbered_turn)) [
        | inl t ↦ rw t (after_create-IsGrown n again ih stored (create-IsGrown numbered_turn log h))
        | inr f ↦ rw f h
      ]

  resolve_number-IsGrown :
      (turn_number : Option ℕ) (log : TurnLog)
      → IsGrown before log
      → IsGrown before (resolve_number fails others turn_number log).1
  unfolding get_next_turn_number
  resolve_number-IsGrown none log h = next_call-IsGrown log h
  resolve_number-IsGrown (some n) log h = h

  attempt-IsGrown :
      (left : ℕ) (turn_number : Option ℕ) (turn : ConversationTurn) (log : TurnLog)
      → IsGrown before log
      → IsGrown before (attempt fails others left turn_number turn log).1
  unfolding attempt
  attempt-IsGrown zero turn_number turn log h = h
  attempt-IsGrown (suc left) turn_number turn log h =
      after_number-IsGrown turn (attempt fails others left none turn)
        (attempt-IsGrown left none turn) (resolve_number fails others turn_number log)
        (resolve_number-IsGrown turn_number log h)

-- Whatever calls fail and whatever rows other writers commit, a recording keeps the rows of the log
-- as they are and where they are, and no two rows get the same number.
pub record_turn-IsGrown :
    (fails : ℕ → Bool) (others : ℕ → List ConversationTurn) (turn_number : Option ℕ)
    (user_message : String) (assistant_message : Option String)
    (intent_result : Option IntentPayload) (tool_calls : Option (List ToolCall)) (log : TurnLog)
    → has_distinct_numbers log.rows ≡ true
    → IsGrown log.rows
        (record_turn fails others turn_number user_message assistant_message intent_result
          tool_calls log).1
unfolding record_turn
record_turn-IsGrown fails others n user_message assistant_message intent_result tool_calls log h =
    attempt-IsGrown fails others log.rows 3 n
      (record {
        turn_number = 0;
        user_message = user_message;
        assistant_message = assistant_message;
        intent_result = intent_result;
        tool_calls = normalized_tool_calls tool_calls;
      })
      log (([], sym (append-nil log.rows)), h)
