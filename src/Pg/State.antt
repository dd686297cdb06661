-- ===== src/Pg/State.antt =====
-- pkg/pg/state.go: whether an object should exist.
pub mod Laws
use pgfga.Base.{ℕ, String, ◌≡◌, Option, none, some, List, [], ◌∷◌, if◌then◌else◌, ◌=ℕ=◌, Bool}
use pgfga.Base.Result.{Error, Result, ok, err, invalid_state, ◌>>=◌}
use pgfga.GoMap.{Map, lookup}
use pgfga.Text.{to_lower}

abbrev pub state_present : ℕ
state_present = 0

abbrev pub state_absent : ℕ
state_absent = 1

abbrev pub state_allowed : ℕ
state_allowed = 2

pub record State : Type 0 where
  pub value : ℕ

abbrev pub present : State
present = record { value = state_present }

abbrev pub absent : State
absent = record { value = state_absent }

abbrev pub allowed : State
allowed = record { value = state_allowed }

-- s == t
infix 50 ◌=S=◌
abbrev pub ◌=S=◌ : State → State → Bool
s =S= t = s.value =ℕ= t.value

abbrev pub to_state : Map State
to_state = ("present", present) ∷ ("absent", absent) ∷ ("allowed", allowed) ∷ ("", present) ∷ []

-- State.String
unfoldable pub to_string : State → String
to_string s = if s.value =ℕ= state_absent then "Absent" else "Present"

-- State.MarshalYAML, whose error is always nil
unfoldable pub marshal_yaml : State → Result String
unfolding to_string
marshal_yaml s = ok (to_string s)

abbrev pub found_state : String → Option State → Result State
found_state str (some state) = ok state
found_state str none = err (invalid_state str)

-- State.UnmarshalYAML: what the YAML reader hands over is the text or its error
unfoldable pub unmarshal_yaml : Result String → Result State
unfolding to_lower lookup
unmarshal_yaml read = read >>= λ str. found_state (to_lower str) (lookup (to_lower str) to_state)
