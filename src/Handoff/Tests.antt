-- ===== src/Handoff/Tests.antt =====
-- Runs of app/handoff/handoff_service.py and the instance of its theorem.
use makkays_chatbot.Prelude.{◌≡◌, ◌≤◌, refl, List, [], ◌∷◌, false, none, some, arith}
use makkays_chatbot.Session.Schemas.{empty_facts, empty_state}
use makkays_chatbot.Tools.Schemas.{returned, raised, other, SessionContext}
use makkays_chatbot.Handoff.{
  HandoffRecord, sales, technical, infer_target_team, Surroundings, initiate_handoff_tool,
}
use makkays_chatbot.Handoff.Laws.{
  count_active, is_refused, IsHandled, initiate_handoff_tool-IsHandled,
}

abbrev around : Surroundings
around = record {
  today = "2026-01-31";
  day_text = "20260131";
  three_digits = λ n. "001";
  new_id = λ rows. "h";
  references_elsewhere = "HO-20260131-002" ∷ [];
  integrity_error = "duplicate key";
  write_error = none;
}

abbrev asking : SessionContext
asking = record {
  tenant_id = "t";
  session_id = "s";
  facts = empty_facts "t" "s";
  conversation_state = empty_state "t" "s";
  message = "I need an Engineer";
  recent_turns = [];
}

inferred : infer_target_team none "I need an Engineer" ≡ technical
unfolding infer_target_team
inferred = refl

-- The state comes first.
stated : infer_target_team (some " Sales ") "I need an Engineer" ≡ sales
unfolding infer_target_team
stated = refl

abbrev once : List HandoffRecord
once = (initiate_handoff_tool around asking [] []).1

second :
    (initiate_handoff_tool around asking [] once).0
    ≡ returned (record {
      step = "initiate_handoff";
      success = false;
      result_summary =
          "A handoff is already active for this conversation. Reference: HO-20260131-001.";
      error = none;
      product_ids = none;
    })
unfolding initiate_handoff_tool
second = refl

-- The first number of the day is that of another tenant's request.
collides :
    initiate_handoff_tool
      (record around { references_elsewhere = "HO-20260131-001" ∷ [] })
      asking
      []
      []
    ≡ (raised (other "duplicate key"), [])
unfolding initiate_handoff_tool
collides = refl

single : count_active "s" [] ≤ 1
unfolding count_active
single = omega arith

initiate_handoff_tool-IsHandled_example :
    let ended = initiate_handoff_tool around asking [] [] in
    IsHandled "s" (is_refused around asking technical [] []) [] ended.0 ended.1
    × (count_active "s" ended.1 ≤ 1)
unfolding infer_target_team
initiate_handoff_tool-IsHandled_example =
    initiate_handoff_tool-IsHandled around asking [] [] "s" single
