-- ===== src/Orchestrator/Leaving.antt =====
-- What the classification of a turn leaves of the wizards (app/orchestrator/orchestrator.py).
use makkays_chatbot.Prelude.{
  ◌≡◌, ◌∙◌, if◌then◌else◌, refl, String, List, true, Bool-cases, inl, inr, contains,
}
use makkays_chatbot.Flags.Schemas.{FeatureFlags}
use makkays_chatbot.Shared.{Uuid, IntentResult, intent_taxonomy}
use makkays_chatbot.Session.Schemas.{FactsSchema, ConversationStateSchema}
use makkays_chatbot.Tools.Registry.{ToolRegistry}
use makkays_chatbot.Tools.Schemas.{TurnText}
use makkays_chatbot.Tools.Executor.{Tool}
use makkays_chatbot.SolutionBuilder.Wizard.{WizardSession, abandon}
use makkays_chatbot.Router.Laws.{classify-IsUsable}
use makkays_chatbot.Orchestrator.Turn.{Setup, env, TurnState, database}
use makkays_chatbot.Orchestrator.Control.{
  has_wizard, looks_like_wizard_escape, abandon_wizard, find_intent,
}
use makkays_chatbot.Orchestrator.Outcomes.{Ends, IsUntouched}

module _ {Outside : Type 0} (setup : Setup Outside)
    (registry : ToolRegistry (Tool (env setup)) String) (flags : FeatureFlags) (tenant : Uuid)
    (session : String) where
  -- The wizards after the classification: a wizard that the message leaves is abandoned.
  abbrev pub wizards_after : String → TurnState setup → List WizardSession
  wizards_after message s =
      if has_wizard setup registry flags tenant session s
      then (if looks_like_wizard_escape setup registry flags tenant session message
          then abandon (database setup s).wizards
          else (database setup s).wizards)
      else (database setup s).wizards

  -- Nothing that the tools use has changed but a wizard that the message leaves.
  pub record IsLeft (message : String) (s₀ s : TurnState setup) : Type 0 where
    pub left_wizards : (database setup s).wizards ≡ wizards_after message s₀
    pub left_outside : (database setup s).outside ≡ (database setup s₀).outside
    pub left_audit : s.tools.audit ≡ s₀.tools.audit

  -- The intent is of the taxonomy.
  abbrev pub Found : String → TurnState setup → IntentResult → TurnState setup → Type 0
  Found message s₀ intent_result s =
      (contains intent_taxonomy intent_result.intent ≡ true) × IsLeft message s₀ s

  pub find_intent-Found :
      (facts : FactsSchema) (state : ConversationStateSchema) (recent : List TurnText)
      (message : String) (s : TurnState setup)
      → Ends
          (Found message s)
          (find_intent setup registry flags tenant session facts state recent message s)
  unfolding find_intent abandon_wizard
  find_intent-Found facts state recent message s =
      let usable = classify-IsUsable setup.search (setup.intent_reply facts state recent) message in
      elim (Bool-cases (has_wizard setup registry flags tenant session s)) [
        | inr f ↦ rw f (
          usable.known,
          record { left_wizards = rw f refl; left_outside = refl; left_audit = refl },
        )
        | inl t ↦
            elim (Bool-cases
              (looks_like_wizard_escape setup registry flags tenant session message)) [
                | inl l ↦
                    rw (t, l)
                      (
                        usable.known,
                        record {
                          left_wizards = rw (t, l) refl;
                          left_outside = refl;
                          left_audit = refl;
                        },
                      )
                | inr n ↦
                    rw (t, n)
                      (
                        refl,
                        record {
                          left_wizards = rw (t, n) refl;
                          left_outside = refl;
                          left_audit = refl;
                        },
                      )
              ]
      ]

  pub has_wizard-Untouched :
      (s₀ s : TurnState setup)
      → IsUntouched setup registry flags tenant session s₀ s
      → has_wizard setup registry flags tenant session s
        ≡ has_wizard setup registry flags tenant session s₀
  unfolding has_wizard
  has_wizard-Untouched s₀ s h = rw h.same_wizards

  -- Reading and writing before and after it changes nothing of this.
  pub IsLeft-Untouched :
      (message : String) (s₀ s₁ s₂ s₃ : TurnState setup)
      → IsUntouched setup registry flags tenant session s₀ s₁
      → IsLeft message s₁ s₂
      → IsUntouched setup registry flags tenant session s₂ s₃
      → IsLeft message s₀ s₃
  IsLeft-Untouched message s₀ s₁ s₂ s₃ h k l = record {
    left_wizards =
        l.same_wizards ∙ k.left_wizards ∙ rw (has_wizard-Untouched s₀ s₁ h, h.same_wizards) refl;
    left_outside = l.same_outside ∙ k.left_outside ∙ h.same_outside;
    left_audit = l.same_audit ∙ k.left_audit ∙ h.same_audit;
  }
