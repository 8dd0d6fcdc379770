-- ===== src/Router/Grounding.antt =====
-- app/router/facts_extractor.py: what may replace a fact that is known.
use makkays_chatbot.Prelude.{
  ◌≡◌, ◌⊎◌, inl, inr, refl, sym, ◌∙◌, String, [], ◌∷◌, Bool, true, false, Option, none, some,
  some_inj, Dict, lookup, insert, lookup-insert, ◌==◌, eq_iff, eq_refl, Bool-cases, Option-cases,
  ◌&&◌, leb, length, codes, strip,
}
use makkays_chatbot.Session.Schemas.{FactsSchema}
use makkays_chatbot.Router.Facts.{
  Value, Matches, fact_llm_fields, extract_deterministic, normalize, values_equal,
  explicit_in_message, get_fact, replied_value, write_value, write_matches, write_replies,
  has_missing_field, requested, extract_patch,
}

lookup-write_value_other :
    (field other : String) (new : Option Value) (patch : Dict Value)
    → (field == other) ≡ false
    → lookup other (write_value field new patch) ≡ lookup other patch
lookup-write_value_other field other none patch d = refl
lookup-write_value_other field other (some v) patch d =
    lookup-insert field other v patch ∙ rw d refl

-- A reply takes the place of a known value only if it differs and is explicit.
replied_value_known :
    (message : String) (known v : Value) (normal : Option Value)
    → replied_value message (some known) normal ≡ some v
    → (explicit_in_message v message ≡ true) × (values_equal known v ≡ false)
unfolding replied_value
replied_value_known message known v none e = cc
replied_value_known message known v (some n) e = elim (Bool-cases (values_equal known n)) [
  | inl t ↦ cc (rw t at e)
  | inr f ↦ elim (Bool-cases (explicit_in_message n message)) [
    | inl t ↦ let same : n ≡ v = some_inj (rw (f, t) at e) in (rw (← same) t, rw (← same) f)
    | inr g ↦ cc (rw (f, g) at e)
  ]
]

module _ (is_email : String → Bool) (facts : FactsSchema) (message : String) (field : String)
    (known : Value) (here : get_fact facts field ≡ some known) (matched : Option Value) where
  -- The entry is the matched one, or an explicit one where nothing was matched.
  abbrev pub IsGrounded : Option Value → Type 0
  IsGrounded found =
      (found ≡ matched)
      ⊎ ((v : Value) × (found ≡ some v)
          × (matched ≡ none)
          × (explicit_in_message v message ≡ true)
          × (values_equal known v ≡ false))

  write_value-IsGrounded :
      (normal : Option Value) (patch : Dict Value)
      → lookup field patch ≡ none
      → IsGrounded (lookup field patch)
      → (new : Option Value) → replied_value message (some known) normal ≡ new
      → IsGrounded (lookup field (write_value field new patch))
  write_value-IsGrounded normal patch empty h none e = h
  write_value-IsGrounded normal patch empty h (some v) e =
      let (explicit, differs) = replied_value_known message known v normal e in
      let found : lookup field (insert field v patch) ≡ some v =
        lookup-insert field field v patch ∙ rw (eq_refl field) refl in
      elim h [
        | inl same ↦ inr (v, found, (sym same) ∙ empty, explicit, differs)
        | inr (w, some_w, a, b, c) ↦ cc (sym empty ∙ some_w)
      ]

  write_reply-IsGrounded :
      (name : String) (raw : Value) (patch : Dict Value)
      → name ≡ field
      → lookup name patch ≡ none
      → IsGrounded (lookup field patch)
      → IsGrounded (
          lookup field (
            write_value name
              (replied_value message (get_fact facts name) (normalize is_email name raw))
              patch))
  write_reply-IsGrounded name raw patch same empty h =
      let normal = normalize is_email field raw in
      let free : lookup field patch ≡ none = rw same at empty in
      rw (same, here)
        (write_value-IsGrounded normal patch free h (replied_value message (some known) normal)
          refl)

  write_replies-IsGrounded :
      (replies : Dict Value) (patch : Dict Value)
      → IsGrounded (lookup field patch)
      → IsGrounded (lookup field (write_replies is_email facts message replies patch))
  unfolding write_replies
  write_replies-IsGrounded [] patch h = h
  write_replies-IsGrounded ((name, raw) ∷ rest) patch h =
      let normal = normalize is_email name raw in
      let new = replied_value message (get_fact facts name) normal in
      elim (Option-cases (lookup name patch)) [
        | inr (v, e) ↦ rw e (write_replies-IsGrounded rest patch h)
        | inl e ↦
            let step : IsGrounded (lookup field (write_value name new patch)) =
              elim (Bool-cases (name == field)) [
                | inr f ↦ rw (lookup-write_value_other name field new patch f) h
                | inl t ↦ write_reply-IsGrounded name raw patch ((eq_iff name field).0 t) e h
              ] in
            rw e (write_replies-IsGrounded rest (write_value name new patch) step)
      ]

-- The entry of a fact that is known is that of a match in the message; or nothing was matched for
-- it, and the entry is a value that differs from the known one and of which a word is in the message.
pub extract_patch-IsGrounded :
    (is_email : String → Bool) (facts : FactsSchema) (message : String) (field : String)
    (known : Value) (m : Matches) (reply : Dict Value) (here : get_fact facts field ≡ some known)
    → IsGrounded is_email facts message field known here
        (lookup field (write_matches is_email facts message (extract_deterministic m) []))
        (lookup field (extract_patch is_email facts message m reply))
unfolding extract_patch
extract_patch-IsGrounded is_email facts message field known m reply here =
    let patch = write_matches is_email facts message (extract_deterministic m) [] in
    let asked =
      has_missing_field is_email facts message patch && leb 16 (length (codes (strip message))) in
    elim (Bool-cases asked) [
      | inr f ↦ rw f (inl refl)
      | inl t ↦ rw t (
          write_replies-IsGrounded is_email facts message field known here (lookup field patch)
            (requested is_email facts message fact_llm_fields reply) patch (inl refl))
    ]
