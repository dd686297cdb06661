-- ===== src/Handler/Run.antt =====
-- internal/handler/pgfga_handler.go: the handlers of users, roles and databases, and Handle.
use Prim.Native.String.{◌++◌ as append}
use pgfga.Base.{
  ℕ, String, true, ◌||◌, ◌==◌, Option, none, some, List, [], ◌∷◌, length, suc, map, if◌then◌else◌,
}
use pgfga.Base.Result.{Result, ok, err, stack_overflow, invalid_auth, ldap_unset, ◌>>=◌}
use pgfga.GoMap.{Map}
use pgfga.Pg.State.{present, absent, ◌=S=◌}
use pgfga.Pg.RoleOption.Options as RoleOptions
use pgfga.Pg.RoleOption.Options.{RoleOptionMap, validate, add_absolute}
use pgfga.Pg.Server.{Server}
use pgfga.Pg.Conn.Act
use pgfga.Pg.Conn.Act.{Act}
use pgfga.Pg.Role.{Role, zero_role}
use pgfga.Pg.Role.Actions.{Digest}
use pgfga.Pg.Handler
use pgfga.Pg.Handler.{new_pg_handler, get_role, grant}
use pgfga.Pg.Database.{Database, Databases}
use pgfga.Ldap.Credential.{System}
use pgfga.Ldap.Member.Heap.{at}
use pgfga.Ldap.Member.Tree.{Membership, get_member, membership_tree}
use pgfga.Ldap.Directory
use pgfga.Ldap.Directory.{Directory, get_members}
use pgfga.Config.{FgaConfig, FgaUserConfig, FgaRoleConfig}
use pgfga.Handler.{
  PgFgaHandler, with_role, grant_if_present, user_options, role_options, set_role, add_users,
}

abbrev pub or_overflow : Option (List Membership) → Result (List Membership)
or_overflow none = err stack_overflow
or_overflow (some mss) = ok mss

-- what PgFgaHandler.handleLdapGroup does with the group that the directory names `base_name`, and
-- with the members `names` of its tree
unfoldable pub apply_group :
    FgaUserConfig
    → String
    → RoleOptionMap
    → String
    → List String
    → Handler.Handler
    → Handler.Handler
apply_group user_config group_name options base_name names pg =
    let group : Role = record zero_role {
      name = base_name;
      options = some options;
      state = user_config.state;
    } in
    let pg1 = with_role pg group in
    let pg2 = grant_if_present user_config.state pg1 group_name user_config.member_of in
    let user_options = add_absolute (RoleOptions.clone options) "LOGIN" in
    add_users pg2 group user_options user_config.state names

-- the memberships of a group that GetMembers found. The depth of the tree is bounded by the number
-- of members; on a cycle Go overflows its stack.
unfoldable pub tree_of : Directory.Handler → ℕ → Result (List Membership)
tree_of ldap base_group =
    let heap = ldap.graph.heap in
    or_overflow (membership_tree (suc (length heap)) heap (at heap base_group))

-- PgFgaHandler.handleLdapGroup
unfoldable pub handle_ldap_group :
    System → Directory → FgaUserConfig → String → RoleOptionMap → PgFgaHandler → Result PgFgaHandler
handle_ldap_group sys dir user_config group_name options pfh =
    if user_config.base_dn == "" || user_config.filter == ""
    then err (ldap_unset group_name)
    else do
      (ldap, base_group) ← get_members sys dir pfh.ldap user_config.base_dn user_config.filter
      mss ← tree_of ldap base_group
      let heap = ldap.graph.heap
      let names = map (λ ms. (get_member heap ms).name) mss
      let pg = apply_group user_config group_name options (at heap base_group).name names pfh.pg
      ok (record { pg = pg; ldap = ldap })

-- PgFgaHandler.handleLdapUser
unfoldable pub handle_ldap_user :
    FgaUserConfig → String → RoleOptionMap → Handler.Handler → Handler.Handler
handle_ldap_user user_config user_name options pg =
    let (_, pg') = set_role pg user_name (add_absolute options "LOGIN") user_config.state in
    grant_if_present user_config.state pg' user_name user_config.member_of

-- PgFgaHandler.handlePasswordUser: the password and the expiry are set on a copy of the role that
-- nothing reads
unfoldable pub handle_password_user :
    FgaUserConfig → String → RoleOptionMap → Handler.Handler → Handler.Handler
handle_password_user user_config user_name options pg =
    let (user, pg') = set_role pg user_name (add_absolute options "LOGIN") user_config.state in
    let user' =
      if user_config.state =S= present
      then record user { password = user_config.password; expiry = user_config.expiry }
      else user in
    grant_if_present user_config.state pg' user_name user_config.member_of

-- the switch on the authentication in PgFgaHandler.handleUsers
unfoldable pub handle_auth :
    System → Directory → FgaUserConfig → String → RoleOptionMap → PgFgaHandler → Result PgFgaHandler
handle_auth sys dir user_config user_name options pfh =
    let auth = user_config.auth in
    if auth == "ldap-group"
    then handle_ldap_group sys dir user_config user_name options pfh
    else if auth == "ldap-user" || auth == "clientcert"
    then ok (record pfh { pg = handle_ldap_user user_config user_name options pfh.pg })
    else if auth == "password" || auth == "md5"
    then ok (record pfh { pg = handle_password_user user_config user_name options pfh.pg })
    else err (invalid_auth auth user_name)

-- PgFgaHandler.handleUsers
unfoldable pub handle_users :
    System → Directory → Map FgaUserConfig → PgFgaHandler → Result PgFgaHandler
handle_users sys dir [] pfh = ok pfh
handle_users sys dir ((user_name, user_config) ∷ users) pfh = do
  options ← user_options [] user_config.options
  pfh' ← handle_auth sys dir user_config user_name options pfh
  handle_users sys dir users pfh'

-- PgFgaHandler.handleRoles
unfoldable pub handle_roles : Map FgaRoleConfig → PgFgaHandler → Result PgFgaHandler
handle_roles [] pfh = ok pfh
handle_roles ((role_name, role_config) ∷ roles) pfh = do
  options ← role_options [] role_config.options
  let pg = (set_role pfh.pg role_name options role_config.state).1
  handle_roles roles
      (record pfh { pg = grant_if_present role_config.state pg role_name role_config.member_of })

-- the options of the owner of a database in PgFgaHandler.handleDbRoles
abbrev pub owner_options : Option RoleOptionMap → RoleOptionMap
owner_options none = ("CREATEDB", true) ∷ []
owner_options (some options) = RoleOptions.merge options (("CREATEDB", true) ∷ [])

abbrev pub kind_options : Option RoleOptionMap → RoleOptionMap
kind_options none = []
kind_options (some options) = options

-- role := pfh.pg.GetRole(name), its options replaced, and AddRole(role)
unfoldable pub update_role :
    Handler.Handler → String → (Option RoleOptionMap → RoleOptionMap) → Handler.Handler
update_role pg name f =
    let (role, pg') = get_role pg name in
    with_role pg' (record role { options = some (f role.options) })

-- the body of the loop of PgFgaHandler.handleDbRoles
unfoldable pub handle_db_role : String → Database → Handler.Handler → Handler.Handler
handle_db_role db_name db_config pg =
    if db_config.state =S= absent
    then pg
    else let owner = if db_config.owner == "" then db_name else db_config.owner in
      let pg1 = update_role pg owner owner_options in
      let pg2 = update_role pg1 (append db_name "_readonly") kind_options in
      let pg3 = update_role pg2 (append db_name "_readwrite") kind_options in
      grant pg3 "opex" (append db_name "_readwrite")

-- PgFgaHandler.handleDbRoles
unfoldable pub handle_db_roles : Databases → PgFgaHandler → Result PgFgaHandler
handle_db_roles [] pfh = ok pfh
handle_db_roles ((db_name, db_config) ∷ dbs) pfh =
    handle_db_roles dbs (record pfh { pg = handle_db_role db_name db_config pfh.pg })

-- PgFgaHandler.handleDatabases
unfoldable pub handle_databases : Databases → PgFgaHandler → Result PgFgaHandler
handle_databases dbs pfh = ok (record pfh { pg = record pfh.pg { databases = dbs } })

-- the loop over the sub handlers in PgFgaHandler.Handle; its first error ends the process
unfoldable pub prepare : System → Directory → FgaConfig → PgFgaHandler → Result PgFgaHandler
prepare sys dir config pfh = do
  pfh1 ← handle_roles config.roles pfh
  pfh2 ← handle_users sys dir config.user_config pfh1
  pfh3 ← handle_databases config.dbs_config pfh2
  handle_db_roles config.dbs_config pfh3

module _ {C : Type 0} ⦃srv : Server C⦄ where
  abbrev pub reconciled : Digest → Result PgFgaHandler → Act C (Unit {0})
  reconciled digest (ok pfh) = Handler.reconcile digest pfh.pg
  reconciled digest (err x) = Act.raise x

  -- PgFgaHandler.Handle, after the delay
  unfoldable pub handle : System → Directory → Digest → FgaConfig → PgFgaHandler → Act C (Unit {0})
  handle sys dir digest config pfh = reconciled digest (prepare sys dir config pfh)
