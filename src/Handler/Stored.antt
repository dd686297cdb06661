-- ===== src/Handler/Stored.antt =====
-- The roles that the handlers of internal/handler/pgfga_handler.go leave in the map of roles: what
-- holds of each of them whatever the configuration and the directory say.
mod Steps
use pgfga.Base.{String, ◌≡◌, Bool-cases, some, List, [], ◌∷◌, ◌==◌, ◌||◌, inl, inr, subst}
use pgfga.Base.Result.{ok, >>=-eq-ok, ok-injective}
use pgfga.GoMap.{Map}
use pgfga.Pg.RoleOption.Options.{RoleOptionMap, clone, add_absolute}
use pgfga.Pg.Role.{Role, zero_role}
use pgfga.Pg.Role.Merging.{
  add_absolute-AreOn, clone-AreOn, AreStored, AreOn, AreOn-AreValid, add_role-AreStored,
}
use pgfga.Pg.Handler
use pgfga.Handler.{PgFgaHandler, with_role, grant_if_present, set_role, role_options, user_options}
use pgfga.Handler.Run.{
  apply_group, tree_of, handle_ldap_group, handle_ldap_user, handle_password_user, handle_auth,
  handle_users, handle_roles, handle_db_role, handle_db_roles, handle_databases, prepare,
}
use pgfga.Config.{FgaConfig, FgaUserConfig, FgaRoleConfig}
use pgfga.Pg.Database.{Databases}
use pgfga.Ldap.Credential.{System}
use pgfga.Ldap.Directory.{Directory, get_members}
use pgfga.Pg.RoleOption.Names.{validate-own}
use pgfga.Handler.Wanted.{user_options-AreOn, role_options-AreValid}
use pgfga.Handler.Stored.Steps.{
  HasStored, if-ok, set_role-AreStored, grant_if_present-AreStored, add_users-AreStored,
  handle_db_role-AreStored,
}

handle_db_roles-AreStored :
    (dbs : Databases) (pfh : PgFgaHandler) {pfh' : PgFgaHandler}
    → AreStored pfh.pg.roles
    → handle_db_roles dbs pfh ≡ ok pfh'
    → AreStored pfh'.pg.roles
unfolding handle_db_roles
handle_db_roles-AreStored [] pfh s e = subst HasStored (ok-injective e) s
handle_db_roles-AreStored ((db_name, db_config) ∷ dbs) pfh s e =
    handle_db_roles-AreStored dbs (record pfh { pg = handle_db_role db_name db_config pfh.pg })
      (handle_db_role-AreStored db_name db_config pfh.pg s) e

handle_roles-AreStored :
    (roles : Map FgaRoleConfig) (pfh : PgFgaHandler) {pfh' : PgFgaHandler}
    → AreStored pfh.pg.roles
    → handle_roles roles pfh ≡ ok pfh'
    → AreStored pfh'.pg.roles
unfolding handle_roles
handle_roles-AreStored [] pfh s e = subst HasStored (ok-injective e) s
handle_roles-AreStored ((role_name, role_config) ∷ roles) pfh s e =
    let (options, read, rest) = >>=-eq-ok (role_options [] role_config.options) _ e in
    let pg = (set_role pfh.pg role_name options role_config.state).1 in
    handle_roles-AreStored roles
      (record pfh { pg = grant_if_present role_config.state pg role_name role_config.member_of })
      (grant_if_present-AreStored role_config.state pg role_name role_config.member_of (
        set_role-AreStored pfh.pg role_name options role_config.state
          (role_options-AreValid role_config.options [] tt read) s))
      rest

handle_ldap_user-AreStored :
    (user_config : FgaUserConfig) (name : String) (options : RoleOptionMap) (pg : Handler.Handler)
    → AreOn options
    → AreStored pg.roles
    → AreStored (handle_ldap_user user_config name options pg).roles
unfolding handle_ldap_user
handle_ldap_user-AreStored user_config name options pg o s =
    grant_if_present-AreStored user_config.state _ name user_config.member_of (
      set_role-AreStored pg name (add_absolute options "LOGIN") user_config.state
        (AreOn-AreValid _ (add_absolute-AreOn options "LOGIN" validate-own.0 o)) s)

handle_password_user-AreStored :
    (user_config : FgaUserConfig) (name : String) (options : RoleOptionMap) (pg : Handler.Handler)
    → AreOn options
    → AreStored pg.roles
    → AreStored (handle_password_user user_config name options pg).roles
unfolding handle_password_user
handle_password_user-AreStored user_config name options pg o s =
    grant_if_present-AreStored user_config.state _ name user_config.member_of (
      set_role-AreStored pg name (add_absolute options "LOGIN") user_config.state
        (AreOn-AreValid _ (add_absolute-AreOn options "LOGIN" validate-own.0 o)) s)

apply_group-AreStored :
    (user_config : FgaUserConfig) (name : String) (options : RoleOptionMap) (base_name : String)
    (names : List String) (pg : Handler.Handler)
    → AreOn options
    → AreStored pg.roles
    → AreStored (apply_group user_config name options base_name names pg).roles
unfolding apply_group
apply_group-AreStored user_config name options base_name names pg o s =
    let group : Role = record zero_role {
      name = base_name;
      options = some options;
      state = user_config.state;
    } in
    let pg2 = grant_if_present user_config.state (with_role pg group) name user_config.member_of in
    add_users-AreStored pg2 group (add_absolute (clone options) "LOGIN") user_config.state names
      (AreOn-AreValid _
        (add_absolute-AreOn (clone options) "LOGIN" validate-own.0 (clone-AreOn options o)))
      (grant_if_present-AreStored user_config.state (with_role pg group) name user_config.member_of
        (add_role-AreStored pg.roles group (AreOn-AreValid options o) s))

module _ (sys : System) (dir : Directory) where
  handle_ldap_group-AreStored :
      (user_config : FgaUserConfig) (name : String) (options : RoleOptionMap) (pfh : PgFgaHandler)
      {pfh' : PgFgaHandler}
      → AreOn options
      → AreStored pfh.pg.roles
      → handle_ldap_group sys dir user_config name options pfh ≡ ok pfh'
      → AreStored pfh'.pg.roles
  unfolding handle_ldap_group
  handle_ldap_group-AreStored user_config name options pfh o s e =
      elim (Bool-cases (user_config.base_dn == "" || user_config.filter == "")) [
        | inl unset ↦ cc (rw unset at e)
        | inr given ↦
            let ((ldap, base_group), _, rest) =
              >>=-eq-ok (get_members sys dir pfh.ldap user_config.base_dn user_config.filter) _
                (rw given at e) in
            let (mss, _, end) = >>=-eq-ok (tree_of ldap base_group) _ rest in
            subst HasStored (ok-injective end)
              (apply_group-AreStored user_config name options _ _ pfh.pg o s)
      ]

  handle_auth-AreStored :
      (user_config : FgaUserConfig) (name : String) (options : RoleOptionMap) (pfh : PgFgaHandler)
      {pfh' : PgFgaHandler}
      → AreOn options
      → AreStored pfh.pg.roles
      → handle_auth sys dir user_config name options pfh ≡ ok pfh'
      → AreStored pfh'.pg.roles
  unfolding handle_auth
  handle_auth-AreStored user_config name options pfh {pfh'} o s =
      let auth = user_config.auth in
      if-ok (auth == "ldap-group") pfh'
        (handle_ldap_group-AreStored user_config name options pfh o s)
        (if-ok (auth == "ldap-user" || auth == "clientcert") pfh'
          (λ e.
            subst HasStored (ok-injective e)
              (handle_ldap_user-AreStored user_config name options pfh.pg o s))
          (if-ok (auth == "password" || auth == "md5") pfh'
            (λ e.
              subst HasStored (ok-injective e)
                (handle_password_user-AreStored user_config name options pfh.pg o s))
            (λ e. cc)))

  handle_users-AreStored :
      (users : Map FgaUserConfig) (pfh : PgFgaHandler) {pfh' : PgFgaHandler}
      → AreStored pfh.pg.roles
      → handle_users sys dir users pfh ≡ ok pfh'
      → AreStored pfh'.pg.roles
  unfolding handle_users
  handle_users-AreStored [] pfh s e = subst HasStored (ok-injective e) s
  handle_users-AreStored ((name, user_config) ∷ users) pfh s e =
      let (options, read, rest) = >>=-eq-ok (user_options [] user_config.options) _ e in
      let (pfh1, handled, rest') =
        >>=-eq-ok (handle_auth sys dir user_config name options pfh) _ rest in
      handle_users-AreStored users pfh1
        (handle_auth-AreStored user_config name options pfh
          (user_options-AreOn user_config.options [] tt read) s handled)
        rest'

  -- Whatever the configuration and the directory say about state, password and expiry: if the
  -- handlers succeed, and the roles were before all present, with no password and no expiry, and
  -- with valid options that switch something on, then so are the roles that they leave.
  pub prepare-AreStored :
      (config : FgaConfig) (pfh : PgFgaHandler) {pfh' : PgFgaHandler}
      → AreStored pfh.pg.roles
      → prepare sys dir config pfh ≡ ok pfh'
      → AreStored pfh'.pg.roles
  unfolding prepare handle_databases
  prepare-AreStored config pfh s e =
      let (pfh1, roles, e1) = >>=-eq-ok (handle_roles config.roles pfh) _ e in
      let (pfh2, users, e2) = >>=-eq-ok (handle_users sys dir config.user_config pfh1) _ e1 in
      handle_db_roles-AreStored config.dbs_config _
        (handle_users-AreStored config.user_config pfh1
          (handle_roles-AreStored config.roles pfh s roles) users)
        e2
