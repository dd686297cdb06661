-- ===== src/Handler/Stored/Steps.antt =====
-- The steps that the handlers share keep the roles stored.
use pgfga.Base.{
  String, ◌≡◌, Bool, true, false, Bool-cases, Option, none, some, List, [], ◌∷◌, ◌=ℕ=◌, inl, inr,
  if◌then◌else◌,
}
use pgfga.Base.Result.{Result, ok}
use pgfga.Pg.State.{State, absent, ◌=S=◌}
use pgfga.Pg.RoleOption.Options.{RoleOptionMap}
use pgfga.Pg.Role.{Role, entries}
use pgfga.Pg.Role.Merging.{
  AreStored, AreOn, AreValid, AreOn-AreValid, merge-AreOn, add_role-AreStored,
}
use pgfga.Pg.Handler
use pgfga.Pg.Handler.{get_role, grant}
use pgfga.Pg.Handler.Stored.{get_role-AreStored, grant-AreStored}
use pgfga.Handler.{PgFgaHandler, grant_all, grant_if_present, set_role, add_user, add_users}
use pgfga.Handler.Run.{owner_options, kind_options, update_role, handle_db_role}
use pgfga.Pg.Database.{Database}
use pgfga.Pg.RoleOption.Names.{validate-own}

abbrev pub HasStored : PgFgaHandler → Type 0
HasStored pfh = AreStored pfh.pg.roles

pub if-ok :
    (b : Bool) {m n : Result PgFgaHandler} (pfh : PgFgaHandler)
    → (m ≡ ok pfh → HasStored pfh)
    → (n ≡ ok pfh → HasStored pfh)
    → (if b then m else n) ≡ ok pfh
    → HasStored pfh
if-ok true pfh f g = f
if-ok false pfh f g = g

pub set_role-AreStored :
    (pg : Handler.Handler) (name : String) (options : RoleOptionMap) (state : State)
    → AreValid options
    → AreStored pg.roles
    → AreStored (set_role pg name options state).1.roles
unfolding set_role
set_role-AreStored pg name options state v s =
    let (role, pg') = get_role pg name in
    add_role-AreStored pg'.roles (record role { options = some options; state = state }) v
      (get_role-AreStored pg name s).1

grant_all-AreStored :
    (pg : Handler.Handler) (name : String) (member_of : List String)
    → AreStored pg.roles
    → AreStored (grant_all pg name member_of).roles
unfolding grant_all
grant_all-AreStored pg name [] s = s
grant_all-AreStored pg name (granted ∷ member_of) s =
    grant_all-AreStored (grant pg name granted) name member_of (grant-AreStored pg name granted s)

pub grant_if_present-AreStored :
    (state : State) (pg : Handler.Handler) (name : String) (member_of : List String)
    → AreStored pg.roles
    → AreStored (grant_if_present state pg name member_of).roles
grant_if_present-AreStored state pg name member_of s = elim (Bool-cases (state.value =ℕ= 0)) [
  | inl yes_present ↦ rw yes_present (grant_all-AreStored pg name member_of s)
  | inr other ↦ rw other s
]

add_user-AreStored :
    (pg : Handler.Handler) (group : Role) (options : RoleOptionMap) (state : State) (name : String)
    → AreValid options
    → AreStored pg.roles
    → AreStored (add_user pg group options state name).roles
unfolding add_user
add_user-AreStored pg group options state name v s = set_role-AreStored pg name options state v s

pub add_users-AreStored :
    (pg : Handler.Handler) (group : Role) (options : RoleOptionMap) (state : State)
    (names : List String)
    → AreValid options
    → AreStored pg.roles
    → AreStored (add_users pg group options state names).roles
unfolding add_users
add_users-AreStored pg group options state [] v s = s
add_users-AreStored pg group options state (name ∷ names) v s =
    add_users-AreStored (add_user pg group options state name) group options state names v
      (add_user-AreStored pg group options state name v s)

update_role-AreStored :
    (pg : Handler.Handler) (name : String) (f : Option RoleOptionMap → RoleOptionMap)
    → ((o : Option RoleOptionMap) → AreOn (entries o) → AreOn (f o))
    → AreStored pg.roles
    → AreStored (update_role pg name f).roles
unfolding update_role
update_role-AreStored pg name f k s =
    let (role, pg') = get_role pg name in
    let (stored, s') = get_role-AreStored pg name s in
    add_role-AreStored pg'.roles (record role { options = some (f role.options) })
      (AreOn-AreValid _ (k role.options stored.switched_on)) s'

owner_options-AreOn : (o : Option RoleOptionMap) → AreOn (entries o) → AreOn (owner_options o)
owner_options-AreOn none h = ((validate-own.2, validate-own.1), tt)
owner_options-AreOn (some m) h = merge-AreOn m _ h (validate-own.1, tt)

kind_options-AreOn : (o : Option RoleOptionMap) → AreOn (entries o) → AreOn (kind_options o)
kind_options-AreOn none h = tt
kind_options-AreOn (some m) h = h

pub handle_db_role-AreStored :
    (db_name : String) (db_config : Database) (pg : Handler.Handler)
    → AreStored pg.roles
    → AreStored (handle_db_role db_name db_config pg).roles
unfolding handle_db_role
handle_db_role-AreStored db_name db_config pg s = elim (Bool-cases (db_config.state =S= absent)) [
  | inl gone ↦ rw gone s
  | inr wanted ↦ rw wanted (
      grant-AreStored _ "opex" _ (
        update_role-AreStored _ _ kind_options kind_options-AreOn (
          update_role-AreStored _ _ kind_options kind_options-AreOn
            (update_role-AreStored pg _ owner_options owner_options-AreOn s))))
]
