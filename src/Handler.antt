-- ===== src/Handler.antt =====
-- internal/handler/pgfga_handler.go: from the configuration and the directory to the wanted state.
pub mod Run
pub mod Wanted
pub mod Stored
pub mod Handled
pub mod Named
pub mod Group
mod Tests
use pgfga.Base.{String, Bool, ◌=ℕ=◌, Option, none, some, List, [], ◌∷◌, ◌++◌, if◌then◌else◌}
use pgfga.Base.Result.{Result, ok, ◌>>=◌}
use pgfga.GoMap.{put}
use pgfga.Pg.State.{present, ◌=S=◌}
use pgfga.Pg.RoleOption.{enabled}
use pgfga.Pg.RoleOption.Options as RoleOptions
use pgfga.Pg.RoleOption.Options.{RoleOptionMap, validate, add_absolute}
use pgfga.Pg.State
use pgfga.Pg.Conn.Params.{Process}
use pgfga.Pg.Role.{Role, add_role}
use pgfga.Pg.Handler
use pgfga.Pg.Handler.{new_pg_handler, get_role, grant}
use pgfga.Ldap.Directory
use pgfga.Ldap.Directory.{Directory, new_ldap_handler}
use pgfga.Config.{FgaConfig}

-- The part of PgFgaHandler that the handlers change; the configuration is their argument.
pub record PgFgaHandler : Type 0 where
  pub pg : Handler.Handler
  pub ldap : Directory.Handler

-- NewPgFgaHandler, on the configuration that was read
unfoldable pub new_pg_fga_handler : Process → FgaConfig → Result PgFgaHandler
new_pg_fga_handler process cnf = do
  pg ← new_pg_handler process cnf.pg_dsn cnf.strict_config cnf.dbs_config cnf.slots
  ok (record { pg = pg; ldap = new_ldap_handler cnf.ldap_config })

-- pfh.pg.Roles.AddRole(r)
abbrev pub with_role : Handler.Handler → Role → Handler.Handler
with_role pg r = record pg { roles = add_role pg.roles r }

-- for _, granted := range memberOf { pfh.pg.Grant(name, granted) }
unfoldable pub grant_all : Handler.Handler → String → List String → Handler.Handler
grant_all pg name [] = pg
grant_all pg name (granted ∷ member_of) = grant_all (grant pg name granted) name member_of

-- the grants that are made if the state is Present
abbrev pub grant_if_present : State.State → Handler.Handler → String → List String → Handler.Handler
grant_if_present state pg name member_of =
    if state =S= present then grant_all pg name member_of else pg

-- the loop over the options of a user
unfoldable pub user_options : RoleOptionMap → List String → Result RoleOptionMap
user_options options [] = ok options
user_options options (option ∷ names) = do
  _ ← validate option
  user_options (add_absolute options option) names

-- the loop over the options of a role
unfoldable pub role_options : RoleOptionMap → List String → Result RoleOptionMap
role_options options [] = ok options
role_options options (option ∷ names) = do
  _ ← validate option
  role_options (put option (enabled option) options) names

-- role := pfh.pg.GetRole(name), its options and state set, and AddRole(role)
unfoldable pub set_role :
    Handler.Handler → String → RoleOptionMap → State.State → Role × Handler.Handler
set_role pg name options state =
    let (role, pg') = get_role pg name in
    let role' = record role { options = some options; state = state } in
    (role', with_role pg' role')

-- the body of the loop over the memberships of an LDAP group
unfoldable pub add_user :
    Handler.Handler → Role → RoleOptionMap → State.State → String → Handler.Handler
add_user pg group options state name =
    let (user, pg') = set_role pg name options state in
    record pg' {
      grants = pg'.grants ++ record { grantee = user; granted = group; state = present } ∷ [];
    }

unfoldable pub add_users :
    Handler.Handler → Role → RoleOptionMap → State.State → List String → Handler.Handler
add_users pg group options state [] = pg
add_users pg group options state (name ∷ names) =
    add_users (add_user pg group options state name) group options state names
