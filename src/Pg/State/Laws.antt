-- ===== src/Pg/State/Laws.antt =====
-- Reading a state that was written.
use pgfga.Base.{◌≡◌, refl, Bool-cases, inl, inr, if◌then◌else◌, ◌=ℕ=◌}
use pgfga.Base.Result.{ok}
use pgfga.Text.{to_lower}
use pgfga.GoMap.{lookup}
use pgfga.Pg.State.{State, present, absent, state_absent, to_string, marshal_yaml, unmarshal_yaml}

-- A state that is written and read again is absent if it was absent, and present otherwise.
pub unmarshal_yaml-marshal_yaml :
    (s : State)
    → unmarshal_yaml (marshal_yaml s) ≡ ok (if s.value =ℕ= state_absent then absent else present)
unfolding unmarshal_yaml marshal_yaml to_string to_lower lookup
unmarshal_yaml-marshal_yaml s = elim (Bool-cases (s.value =ℕ= state_absent)) [
  | inl gone ↦ rw gone refl
  | inr other ↦ rw other refl
]
