-- ===== src/Handoff/Laws.antt =====
-- app/handoff/handoff_service.py: one active request per session.
use makkays_chatbot.Prelude.{
  ℕ, suc, ◌+◌, ◌≡◌, ◌≤◌, refl, sym, String, List, [], ◌∷◌, ◌++◌, append-nil, Bool, true, false,
  length, ◌&&◌, ◌||◌, not, Option, none, some, is_some, ◌==◌, eq_refl, eq_iff, Bool-cases, inl, inr,
  if◌then◌else◌, arith,
}
use makkays_chatbot.Turns.{ConversationTurn}
use makkays_chatbot.Tools.Schemas.{Attempt, returned, raised, ToolExecutionResult, SessionContext}
use makkays_chatbot.Handoff.{
  Team, HandoffRecord, is_active, get_active, infer_target_team, Surroundings, new_record, is_taken,
  insert_row, after_active, initiate, after_initiate, initiate_handoff_tool,
}

-- The number of the active requests of a session.
unfoldable pub count_active : String → List HandoffRecord → ℕ
count_active session [] = 0
count_active session (row ∷ rows) =
    let rest = count_active session rows in
    if (row.session_id == session) && is_active row.status then suc rest else rest

abbrev is_returned : {A : Type 0} → Attempt A → Bool
is_returned (returned a) = true
is_returned (raised e) = false

-- The tool returned, and its result is a success.
abbrev has_made : Attempt ToolExecutionResult → Bool
has_made (returned result) = result.success
has_made (raised e) = false

-- How a call of the tool ends, where the insert of a row would be refused or not. Rows are only added,
-- and one just if the call has made a request.
pub record IsHandled (session : String) (refused : Bool) (rows : List HandoffRecord)
    (result : Attempt ToolExecutionResult) (rows' : List HandoffRecord) : Type 0 where
  pub added : List HandoffRecord
  pub kept : rows' ≡ rows ++ added
  pub one_if_made : length added ≡ (if has_made result then 1 else 0)
  pub has_active : is_some (get_active session rows') ≡ is_returned result
  pub made : has_made result ≡ (not (is_some (get_active session rows)) && not refused)
  pub returns : is_returned result ≡ (is_some (get_active session rows) || not refused)

count_active-snoc :
    (session : String) (rows : List HandoffRecord) (new : HandoffRecord)
    → count_active session (rows ++ new ∷ [])
      ≡ count_active session rows + count_active session (new ∷ [])
unfolding count_active
count_active-snoc session [] new = omega arith
count_active-snoc session (row ∷ rows) new =
    elim (Bool-cases ((row.session_id == session) && is_active row.status)) [
      | inl t ↦ rw t (omega (arith, count_active-snoc session rows new))
      | inr f ↦ rw f (count_active-snoc session rows new)
    ]

count_active-one : (session : String) (row : HandoffRecord) → count_active session (row ∷ []) ≤ 1
unfolding count_active
count_active-one session row =
    elim (Bool-cases ((row.session_id == session) && is_active row.status)) [
      | inl t ↦ rw t (omega arith)
      | inr f ↦ rw f (omega arith)
    ]

count_active-other :
    (session : String) (row : HandoffRecord)
    → (row.session_id == session) ≡ false
    → count_active session (row ∷ []) ≡ 0
unfolding count_active
count_active-other session row f = rw f refl

-- A session without an active request has none to count.
get_active-count_active :
    (session : String) (rows : List HandoffRecord)
    → get_active session rows ≡ none
    → count_active session rows ≡ 0
unfolding get_active count_active
get_active-count_active session [] e = refl
get_active-count_active session (row ∷ rows) e =
    elim (Bool-cases ((row.session_id == session) && is_active row.status)) [
      | inl t ↦ cc (rw t at e)
      | inr f ↦ rw f (get_active-count_active session rows (rw f at e))
    ]

get_active-snoc :
    (session : String) (rows : List HandoffRecord) (new : HandoffRecord)
    → ((new.session_id == session) && is_active new.status) ≡ true
    → is_some (get_active session (rows ++ new ∷ [])) ≡ true
unfolding get_active
get_active-snoc session [] new h = rw h refl
get_active-snoc session (row ∷ rows) new h =
    elim (Bool-cases ((row.session_id == session) && is_active row.status)) [
      | inl t ↦ rw t refl
      | inr f ↦ rw f (get_active-snoc session rows new h)
    ]

module _ (around : Surroundings) (session : SessionContext) (team : Team)
    (turns : List ConversationTurn) (rows : List HandoffRecord) where
  new_record_active :
      (((new_record around session team turns rows).session_id == session.session_id)
        && is_active (new_record around session team turns rows).status)
      ≡ true
  unfolding new_record
  new_record_active = rw (eq_refl session.session_id) refl

  -- A write fails, or the reference that the request would get is taken.
  abbrev pub is_refused : Bool
  is_refused =
      is_some around.write_error
      || is_taken around (new_record around session team turns rows).reference_id rows

  insert_row-IsHandled :
      (error : Option String)
      → around.write_error ≡ error
      → get_active session.session_id rows ≡ none
      → let new = new_record around session team turns rows in
        let ended = after_initiate around (insert_row around error new rows) in
        IsHandled session.session_id is_refused rows ended.0 ended.1
  insert_row-IsHandled (some error) w e = record {
    added = [];
    kept = sym (append-nil rows);
    one_if_made = refl;
    has_active = rw e refl;
    made = rw (e, w) refl;
    returns = rw (e, w) refl;
  }
  insert_row-IsHandled none w e =
      let new = new_record around session team turns rows in
      elim (Bool-cases (is_taken around new.reference_id rows)) [
        | inl t ↦ rw t (record {
          added = [];
          kept = sym (append-nil rows);
          one_if_made = refl;
          has_active = rw e refl;
          made = rw (e, w) refl;
          returns = rw (e, w) refl;
        })
        | inr f ↦ rw f (record {
          added = new ∷ [];
          kept = refl;
          one_if_made = refl;
          has_active = get_active-snoc session.session_id rows new new_record_active;
          made = rw (e, w) refl;
          returns = rw (e, w) refl;
        })
      ]

  after_active-IsHandled :
      (found : Option HandoffRecord)
      → get_active session.session_id rows ≡ found
      → let ended = after_initiate around (after_active around session team turns rows found) in
        IsHandled session.session_id is_refused rows ended.0 ended.1
  after_active-IsHandled (some existing) e = record {
    added = [];
    kept = sym (append-nil rows);
    one_if_made = refl;
    has_active = rw e refl;
    made = rw e refl;
    returns = rw e refl;
  }
  after_active-IsHandled none e = insert_row-IsHandled around.write_error refl e

  -- No session gets a second active request.
  new_record-count_active :
      (other : String)
      → get_active session.session_id rows ≡ none
      → count_active other rows ≤ 1
      → count_active other (rows ++ new_record around session team turns rows ∷ []) ≤ 1
  unfolding new_record
  new_record-count_active other e h =
      let new = new_record around session team turns rows in
      elim (Bool-cases (session.session_id == other)) [
        | inl t ↦
            let same : session.session_id ≡ other = (eq_iff session.session_id other).0 t in
            let none_yet : count_active other rows ≡ 0 =
              rw (← same) (get_active-count_active session.session_id rows e) in
            omega (arith, none_yet, count_active-snoc other rows new, count_active-one other new)
        | inr f ↦ omega (arith, h, count_active-snoc other rows new, count_active-other other new f)
      ]

  insert_row-count_active :
      (other : String) (error : Option String)
      → get_active session.session_id rows ≡ none
      → count_active other rows ≤ 1
      → count_active other
          (after_initiate around
            (insert_row around error (new_record around session team turns rows) rows)).1
        ≤ 1
  insert_row-count_active other (some error) e h = h
  insert_row-count_active other none e h =
      elim (Bool-cases
        (is_taken around (new_record around session team turns rows).reference_id rows)) [
          | inl t ↦ rw t h
          | inr f ↦ rw f (new_record-count_active other e h)
        ]

  after_active-count_active :
      (other : String) (found : Option HandoffRecord)
      → get_active session.session_id rows ≡ found
      → count_active other rows ≤ 1
      → count_active other
          (after_initiate around (after_active around session team turns rows found)).1
        ≤ 1
  after_active-count_active other (some existing) e h = h
  after_active-count_active other none e h = insert_row-count_active other around.write_error e h

-- A call of the tool only adds rows: one, if it has made a request, else none. It makes one, and
-- succeeds, just if the session has no active request and the insert is not refused: no write fails
-- and no tenant has the reference. It returns just if the session has an active request or the insert
-- is not refused, and then the session has one; else it raises, and the session has none. No session,
-- the same or another, that has at most one active request gets a second one.
pub initiate_handoff_tool-IsHandled :
    (around : Surroundings) (session : SessionContext) (turns : List ConversationTurn)
    (rows : List HandoffRecord) (other : String)
    → count_active other rows ≤ 1
    → let ended = initiate_handoff_tool around session turns rows in
      let team = infer_target_team session.conversation_state.handoff_target session.message in
      let refused = is_refused around session team turns rows in
      IsHandled session.session_id refused rows ended.0 ended.1 × (count_active other ended.1 ≤ 1)
unfolding initiate_handoff_tool initiate
initiate_handoff_tool-IsHandled around session turns rows other h =
    let team = infer_target_team session.conversation_state.handoff_target session.message in
    (
      after_active-IsHandled around session team turns rows (get_active session.session_id rows)
          refl,
      after_active-count_active around session team turns rows other
          (get_active session.session_id rows) refl h,
    )
