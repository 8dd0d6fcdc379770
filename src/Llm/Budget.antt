-- ===== src/Llm/Budget.antt =====
-- What app/llm/context.py guarantees of a request: its length, its system message, its counts.
use makkays_chatbot.Prelude.{
  ℕ, zero, suc, ◌+◌, ◌-◌, ◌≤◌, String, List, [], ◌∷◌, ◌++◌, ◌≡◌, refl, sym, ap, true, false, Option,
  none, some, some_inj, length, ltb, ◌==◌, drop_text, Bool-cases, inl, inr, arith,
}
use makkays_chatbot.Tools.Schemas.{TurnText}
use makkays_chatbot.Llm.Context.{
  Role, user, assistant, ChatMessage, Json, ToolResult, text_length, content_length, total_length,
  append_if_fits, if_text, candidate_messages, recent_turn_messages, tool_message_of, given_text,
  tool_result_message, add_result_message, add_tool_results, id_or, source_message, source_messages,
  is_system, system_count, leads,
}

total_length-append :
    (xs ys : List ChatMessage) → total_length (xs ++ ys) ≡ total_length xs + total_length ys
total_length-append [] ys = omega arith
total_length-append (x ∷ xs) ys = omega (arith, total_length-append xs ys)

system_count-append :
    (xs ys : List ChatMessage) → system_count (xs ++ ys) ≡ system_count xs + system_count ys
system_count-append [] ys = omega arith
system_count-append (x ∷ xs) ys = omega (arith, system_count-append xs ys)

leads-append : (xs ys : List ChatMessage) → leads xs ≡ true → leads (xs ++ ys) ≡ true
leads-append [] ys h = cc
leads-append (x ∷ xs) ys h = h

pub text_length-drop_text : (n : ℕ) (s : String) → text_length (drop_text n s) ≡ text_length s - n
text_length-drop_text zero s = omega arith
text_length-drop_text (suc n) String.[] = omega arith
text_length-drop_text (suc n) (String.◌∷◌ c s) = omega (arith, text_length-drop_text n s)

-- Messages within a bound, of which the first and only the first is the system's; `used` is their
-- length.
pub record IsFitting (bound : ℕ) (messages : List ChatMessage) (used : ℕ) : Type 0 where
  pub counted : total_length messages ≡ used
  pub within : used ≤ bound
  pub single : system_count messages ≡ 1
  pub led : leads messages ≡ true

pub extend-IsFitting :
    (bound : ℕ) (messages : List ChatMessage) (used : ℕ) (new : List ChatMessage)
    → IsFitting bound messages used
    → system_count new ≡ 0
    → used + total_length new ≤ bound
    → IsFitting bound (messages ++ new) (used + total_length new)
extend-IsFitting bound messages used new fits plain room = record {
  counted = omega (arith, total_length-append messages new, fits.counted);
  within = room;
  single = omega (arith, system_count-append messages new, fits.single);
  led = leads-append messages new fits.led;
}

if_text_plain :
    (role : Role)
    → is_system role ≡ false
    → (text : Option String) → system_count (if_text role text) ≡ 0
if_text_plain role plain none = refl
if_text_plain role plain (some text) = elim (Bool-cases (text == "")) [
  | inl t ↦ rw t
  | inr f ↦ rw (f, plain)
]

module _ (bound limit : ℕ) (below : limit ≤ bound) where
  pub append_if_fits-IsFitting :
      (m : ChatMessage) (messages : List ChatMessage) (used : ℕ)
      → is_system m.role ≡ false
      → IsFitting bound messages used
      → IsFitting bound
          (append_if_fits limit m (messages, used)).0
          (append_if_fits limit m (messages, used)).1
  unfolding append_if_fits
  append_if_fits-IsFitting m messages used plain fits = elim (Bool-cases (m.content == "")) [
    | inl t ↦ simp (t) fits
    | inr f ↦ elim (Bool-cases (ltb limit (used + content_length m))) [
      | inl over ↦ simp (f, over) fits
      | inr room ↦
          let one : system_count (m ∷ []) ≡ 0 = ground (arith, plain) in
          let long : content_length m + 0 ≡ content_length m = omega arith in
          simp (f, room)
            (rw long at
              (extend-IsFitting bound messages used (m ∷ []) fits one (ground (arith, room))))
    ]
  ]

  candidate_messages_plain : (turn : TurnText) → system_count (candidate_messages turn) ≡ 0
  unfolding candidate_messages
  candidate_messages_plain turn = omega (
    arith,
    system_count-append (if_text user (some turn.user_message))
        (if_text assistant turn.assistant_message),
    if_text_plain user refl (some turn.user_message),
    if_text_plain assistant refl turn.assistant_message,
  )

  -- The turns that are taken stay within the bound and hold no system message, and each turn is
  -- counted once.
  pub recent_turn_messages_fit :
      (current : ℕ) (turns : List TurnText)
      → current ≤ bound
      → let chosen = recent_turn_messages limit current turns in
        (current + total_length chosen.messages ≤ bound)
        × (system_count chosen.messages ≡ 0)
        × (chosen.included + chosen.truncated ≡ length turns)
  unfolding recent_turn_messages
  recent_turn_messages_fit current [] h = omega arith
  recent_turn_messages_fit current (turn ∷ turns) h =
      let ms = candidate_messages turn in
      elim (Bool-cases (ltb limit (current + total_length ms))) [
        | inl over ↦ rw over (ground (arith, recent_turn_messages_fit current turns h))
        | inr room ↦
            let later =
              recent_turn_messages_fit (current + total_length ms) turns (ground (arith, room)) in
            rw room (
              omega (arith, total_length-append ms _, later),
              omega (arith, system_count-append ms _, candidate_messages_plain turn, later),
              omega (arith, later),
            )
      ]

  module _ (json : Json) where
    pub source_messages_fit :
        (taken current : ℕ) (sources : List (Json.Value json))
        → current ≤ bound
        → let chosen = source_messages json limit taken current sources in
          (current + total_length chosen.messages ≤ bound)
          × (system_count chosen.messages ≡ 0)
          × (length chosen.included_ids + chosen.truncated ≡ length sources)
    unfolding source_messages source_message
    source_messages_fit taken current [] h = omega arith
    source_messages_fit taken current (source ∷ sources) h =
        let m = source_message json (id_or json (Json.source_id json source) taken) source in
        elim (Bool-cases (ltb limit (current + content_length m))) [
          | inl over ↦ rw over (ground (arith, source_messages_fit taken current sources h))
          | inr room ↦
              let later =
                source_messages_fit (suc taken) (current + content_length m) sources
                  (ground (arith, room)) in
              rw room (omega (arith, later))
        ]

  tool_message_of_plain :
      (role content id : Option String) (m : ChatMessage)
      → tool_message_of role content id ≡ some m
      → is_system m.role ≡ false
  tool_message_of_plain none content id m e = cc
  tool_message_of_plain (some role) none id m e = cc
  tool_message_of_plain (some role) (some content) none m e = cc
  tool_message_of_plain (some role) (some content) (some id) m e =
      elim (Bool-cases (role == "tool")) [
        | inl t ↦ ap (λ x. is_system x.role) (sym (some_inj (rw t at e)))
        | inr f ↦ cc (rw f at e)
      ]

  tool_result_message_plain :
      (r : ToolResult) (m : ChatMessage) → tool_result_message r ≡ some m → is_system m.role ≡ false
  unfolding tool_result_message
  tool_result_message_plain r m e =
      tool_message_of_plain (given_text r.role) (given_text r.content) (given_text r.tool_call_id) m
        e

  add_result_message-IsFitting :
      (found : Option ChatMessage) (messages : List ChatMessage) (used : ℕ)
      → ((m : ChatMessage) → found ≡ some m → is_system m.role ≡ false)
      → IsFitting bound messages used
      → IsFitting bound
          (add_result_message limit found (messages, used)).0
          (add_result_message limit found (messages, used)).1
  add_result_message-IsFitting none messages used plain fits = fits
  add_result_message-IsFitting (some m) messages used plain fits =
      append_if_fits-IsFitting m messages used (plain m refl) fits

  pub add_tool_results-IsFitting :
      (results : List ToolResult) (messages : List ChatMessage) (used : ℕ)
      → IsFitting bound messages used
      → IsFitting bound
          (add_tool_results limit results (messages, used)).0
          (add_tool_results limit results (messages, used)).1
  unfolding add_tool_results
  add_tool_results-IsFitting [] messages used fits = fits
  add_tool_results-IsFitting (r ∷ rs) messages used fits = add_tool_results-IsFitting rs _ _ (
      add_result_message-IsFitting (tool_result_message r) messages used
        (tool_result_message_plain r) fits)
