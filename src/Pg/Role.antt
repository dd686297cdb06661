-- ===== src/Pg/Role.antt =====
-- pkg/pg/role.go: a role, and the map of roles. What is asked of the server is in Actions.
pub mod Merging
pub mod Statements
pub mod AllRoles
pub mod Finalizing
pub mod Facts
pub mod Converging
pub mod Actions
use pgfga.Base.{ℕ, String, Bool, Option, none, some, List, [], ◌∷◌, ◌==◌, if◌then◌else◌, ◌=ℕ=◌}
use pgfga.GoMap.{Map, lookup, put}
use pgfga.Pg.State.{State, present, ◌=S=◌}
use pgfga.Pg.RoleOption.Options
use pgfga.Pg.RoleOption.Options.{RoleOptionMap}

-- time.Time, of which the program uses IsZero and Format: none for the zero time, or else the
-- time's RFC 3339 form
abbrev pub Time : Type 0
Time = Option String

-- A nil map of options is none.
pub record Role : Type 0 where
  pub name : String
  pub options : Option RoleOptionMap
  pub state : State
  pub password : String
  pub expiry : Time

-- Go reads a nil map as an empty one.
abbrev pub entries {ℓ} : {V : Type ℓ} → Option (Map V) → Map V
entries none = []
entries (some m) = m

-- Role{}, whose state is the value 0
abbrev pub zero_role : Role
zero_role = record { name = ""; options = none; state = present; password = ""; expiry = none }

-- Role.Clone: the password and the expiry are left out
unfoldable pub clone : Role → Role
clone r = record zero_role {
  name = r.name;
  options = some (Options.clone (entries r.options));
  state = r.state;
}

-- Role.Merge
unfoldable pub merge : Role → Role → Role
unfolding clone
merge r other = record (clone r) {
  options = some (Options.merge (entries r.options) (entries other.options));
  state = if other.state =S= present then present else r.state;
}

-- NewRole
unfoldable pub new_role : String → Role
new_role name = record zero_role { name = name; options = some [] }

-- Role.SetPassword
unfoldable pub set_password : Role → String → Role
set_password r password = record r { password = password }

-- Role.SetExpiry
unfoldable pub set_expiry : Role → Time → Role
set_expiry r expiry = record r { expiry = expiry }

abbrev pub Roles : Type 0
Roles = Map Role

-- the role that roles[r.Name] read, and the writes that follow
abbrev pub added : Roles → Role → Option Role → Roles
added roles r none = put r.name (merge zero_role r) (put r.name r roles)
added roles r (some role) = put r.name (merge role r) roles

-- Roles.AddRole
unfoldable pub add_role : Roles → Role → Roles
unfolding merge
add_role roles r = added roles r (lookup r.name roles)
