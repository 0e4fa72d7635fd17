-- ===== src/Manager/SetState.antt =====
-- What `_set_state` of jetsocket/manager.py writes, and what it leaves.
use jetsocket.Prelude.{◌≡◌, refl, sym, ◌∙◌, Bool-cases, inl, inr, if_true, if_false, ap, List}
use jetsocket.State.{ConnectionState, same_state}
use jetsocket.State.Same.{same_state→≡}
use jetsocket.Float.{Float}
use jetsocket.Stats.Defs.{Stats}
use jetsocket.Events.Defs.{Event}
use jetsocket.Manager.Defs.{Manager, set_state}

module _ {f : Float} {D T S : Type 0} where
  pub set_state-state : (s : ConnectionState) (m : Manager f D T S) → (set_state s m).state ≡ s
  unfolding set_state
  set_state-state s m = elim (Bool-cases (same_state s m.state)) [
    | inl same ↦ rw same (sym (same_state→≡ s m.state same))
    | inr other ↦ rw other refl
  ]

  -- What is read of the other fields stays.
  pub set_state-frame {ℓ} :
      {A : Type ℓ} (g : Manager f D T S → A) (s : ConnectionState) (m : Manager f D T S)
      → ((state : ConnectionState) (stats : Stats f D) (log : List (Event f.F T S))
          → g (record m { state = state; stats = stats; log = log }) ≡ g m)
      → g (set_state s m) ≡ g m
  unfolding set_state
  set_state-frame g s m h = elim (Bool-cases (same_state s m.state)) [
    | inl same ↦ ap g (if_true (same_state s m.state) _ _ same)
    | inr other ↦ ap g (if_false (same_state s m.state) _ _ other) ∙ h _ _ _
  ]
