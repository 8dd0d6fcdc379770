-- ===== src/Llm/Requests.antt =====
-- What a request of app/llm/context.py is as a whole: its length, its system message, its counts.
use makkays_chatbot.Prelude.{
  ℕ, ◌+◌, ◌-◌, ◌≤◌, max, String, List, [], ◌∷◌, ◌++◌, ◌≡◌, refl, true, ◌||◌, Option, none, some,
  some_inj, length, ltb, leb, eqb, ◌==◌, strip, Bool-cases, inl, inr, arith,
}
use mathlib.Core.Path.{subst}
use makkays_chatbot.Llm.Context.{
  system, user, ChatMessage, ContextBuildMetadata, Json, text_length, total_length, message,
  append_if_fits, tail_text, append_with_tail_truncation, recent_turn_messages, context_block,
  source_messages, Request, with_latest, fill, build_llm_messages, validate_messages,
}
use makkays_chatbot.Llm.Budget.{
  IsFitting, extend-IsFitting, append_if_fits-IsFitting, recent_turn_messages_fit,
  source_messages_fit, add_tool_results-IsFitting, text_length-drop_text,
}

module _ (bound limit : ℕ) (below : limit ≤ bound) where
  -- What is checked of a whole request.
  pub record IsRequest (messages : List ChatMessage) : Type 0 where
    pub within : total_length messages ≤ bound
    pub valid : validate_messages messages ≡ true

  IsFitting-IsRequest :
      (messages : List ChatMessage) (used : ℕ) → IsFitting bound messages used → IsRequest messages
  unfolding validate_messages
  IsFitting-IsRequest messages used fits = record {
    within = omega (arith, fits.counted, fits.within);
    valid = rw (fits.single, fits.led);
  }

  tail_text_length :
      (remaining : ℕ) (content : String)
      → remaining ≤ text_length content
      → text_length (tail_text remaining content) ≡ remaining
  unfolding tail_text
  tail_text_length remaining content h =
      omega (arith, text_length-drop_text (text_length content - remaining) content)

  latest-IsRequest :
      (text : String) (messages : List ChatMessage) (used : ℕ)
      → IsFitting bound messages used
      → IsRequest (append_with_tail_truncation limit (message user text) (messages, used))
  unfolding append_with_tail_truncation
  latest-IsRequest text messages used fits = elim (Bool-cases (leb limit used)) [
    | inl full ↦ rw full (IsFitting-IsRequest messages used fits)
    | inr room ↦ elim (Bool-cases (ltb (limit - used) (text_length text))) [
      | inl long ↦
          rw (room, long)
            (IsFitting-IsRequest _ _ (
              extend-IsFitting bound messages used
                (message user (tail_text (limit - used) text) ∷ []) fits refl
                (ground (arith, room, long, tail_text_length (limit - used) text))))
      | inr short ↦
          rw (room, short)
            (IsFitting-IsRequest _ _ (
              extend-IsFitting bound messages used (message user text ∷ []) fits refl
                (ground (arith, room, short))))
    ]
  ]

  with_latest-IsRequest :
      (text : Option String) (messages : List ChatMessage) (used : ℕ)
      → IsFitting bound messages used
      → IsRequest (with_latest limit text (messages, used))
  with_latest-IsRequest none messages used fits = IsFitting-IsRequest messages used fits
  with_latest-IsRequest (some text) messages used fits = elim (Bool-cases (text == "")) [
    | inl t ↦ rw t (IsFitting-IsRequest messages used fits)
    | inr f ↦ rw f (latest-IsRequest text messages used fits)
  ]

module _ (json : Json) (r : Request json) where
  abbrev limit : ℕ
  limit = r.max_context_chars

  abbrev bound : ℕ
  bound = max (text_length r.system_prompt) limit

  fill_lem :
      (total_length (fill json r).0 ≤ bound)
      × (validate_messages (fill json r).0 ≡ true)
      × ((fill json r).1.included_turn_count + (fill json r).1.truncated_turn_count
          ≡ length r.recent_turns)
      × (length (fill json r).1.included_source_ids + (fill json r).1.truncated_source_count
          ≡ length r.retrieved_sources)
  unfolding fill
  fill_lem =
      let below : limit ≤ bound = omega arith in
      let start : IsFitting bound (message system r.system_prompt ∷ [])
          (text_length r.system_prompt) =
        record { counted = omega arith; within = omega arith; single = refl; led = refl } in
      let block =
        message user (context_block json r.facts r.state r.planner_metadata r.quote_summary) in
      let (first, used) =
        append_if_fits limit block
          (message system r.system_prompt ∷ [], text_length r.system_prompt) in
      let begun = append_if_fits-IsFitting bound limit below block _ _ refl start in
      let sources = source_messages json limit 0 used r.retrieved_sources in
      let cited =
        source_messages_fit bound limit below json 0 used r.retrieved_sources begun.within in
      let sourced = extend-IsFitting bound first used sources.messages begun cited.1 cited.0 in
      let used_sources = used + total_length sources.messages in
      let turns = recent_turn_messages limit used_sources r.recent_turns in
      let told =
        recent_turn_messages_fit bound limit below used_sources r.recent_turns sourced.within in
      let turned =
        extend-IsFitting bound (first ++ sources.messages) used_sources turns.messages sourced
          told.1 told.0 in
      let resulted = add_tool_results-IsFitting bound limit below r.tool_results _ _ turned in
      let done = with_latest-IsRequest bound limit below r.latest_user_message _ _ resulted in
      (done.within, done.valid, told.2, cited.2)

  -- A request that is built is no longer than its limit, or than the system prompt if that alone is
  -- longer; it has exactly one system message, the first; and each turn and each source is counted
  -- as included or as truncated.
  pub build_llm_messages_lem :
      (messages : List ChatMessage) (metadata : ContextBuildMetadata)
      → build_llm_messages json r ≡ some (messages, metadata)
      → (total_length messages ≤ max (text_length r.system_prompt) r.max_context_chars)
        × (validate_messages messages ≡ true)
        × (metadata.included_turn_count + metadata.truncated_turn_count ≡ length r.recent_turns)
        × (length metadata.included_source_ids + metadata.truncated_source_count
            ≡ length r.retrieved_sources)
  unfolding build_llm_messages
  build_llm_messages_lem messages metadata e =
      elim (Bool-cases (strip r.system_prompt == "" || eqb r.max_context_chars 0)) [
        | inl bad ↦ cc (rw bad at e)
        | inr good ↦
            let same : fill json r ≡ (messages, metadata) = some_inj (rw good at e) in
            subst
              (λ out.
                (total_length out.0 ≤ max (text_length r.system_prompt) r.max_context_chars)
                × (validate_messages out.0 ≡ true)
                × (out.1.included_turn_count + out.1.truncated_turn_count ≡ length r.recent_turns)
                × (length out.1.included_source_ids + out.1.truncated_source_count
                    ≡ length r.retrieved_sources))
              same fill_lem
      ]
