-- ===== src/Handler/Named/Kept.antt =====
-- The handlers lose no role.
use pgfga.Base.{
  String, ◌≡◌, Bool, true, false, Bool-cases, Option, Option-cases, List, [], ◌∷◌, ◌==◌, ◌||◌,
  ◌=ℕ=◌, inl, inr, subst, sym, ap, arith, if◌then◌else◌,
}
use pgfga.Base.Result.{Result, ok, >>=-eq-ok, ok-injective}
use pgfga.GoMap.{Map, lookup, put, contains}
use pgfga.GoMap.Laws.{contains-put}
use pgfga.Pg.State.{State, absent, ◌=S=◌}
use pgfga.Pg.RoleOption.Options.{RoleOptionMap, add_absolute}
use pgfga.Pg.Role.{Role, Roles, add_role}
use pgfga.Pg.Database.{Database, Databases}
use pgfga.Pg.Handler
use pgfga.Pg.Handler.{got, get_role, grant}
use pgfga.Handler.{
  PgFgaHandler, grant_all, grant_if_present, set_role, role_options, user_options, add_user,
  add_users,
}
use pgfga.Handler.Run.{
  apply_group, tree_of, handle_ldap_group, handle_ldap_user, handle_password_user, handle_auth,
  handle_users, handle_roles, update_role, handle_db_role, handle_db_roles,
}
use pgfga.Config.{FgaUserConfig, FgaRoleConfig}
use pgfga.Ldap.Credential.{System}
use pgfga.Ldap.Directory.{Directory, get_members}

module _ (k : String) where
  abbrev Has : Handler.Handler → Type 0
  Has pg = contains k pg.roles ≡ true

  put-Has :
      {V : Type 0} (j : String) (v : V) (m : Map V)
      → contains k m ≡ true
      → contains k (put j v m) ≡ true
  put-Has j v m h = ground (arith, contains-put j k v m, h)

  pub add_role-Has :
      (roles : Roles) (r : Role) → contains k roles ≡ true → contains k (add_role roles r) ≡ true
  unfolding add_role
  add_role-Has roles r h = elim (Option-cases (lookup r.name roles)) [
    | inl missing ↦ rw missing (put-Has r.name _ _ (put-Has r.name r roles h))
    | inr (role, found) ↦ rw found (put-Has r.name _ roles h)
  ]

  get_role-Has : (pg : Handler.Handler) (name : String) → Has pg → Has (get_role pg name).1
  unfolding get_role
  get_role-Has pg name h = elim (Option-cases (lookup name pg.roles)) [
    | inl missing ↦
        subst (λ r. Has r.1) (sym (ap (got pg name) missing)) (put-Has name _ pg.roles h)
    | inr (r, found) ↦ subst (λ r. Has r.1) (sym (ap (got pg name) found)) h
  ]

  set_role-Has :
      (pg : Handler.Handler) (name : String) (options : RoleOptionMap) (state : State)
      → Has pg
      → Has (set_role pg name options state).1
  unfolding set_role
  set_role-Has pg name options state h = add_role-Has _ _ (get_role-Has pg name h)

  grant-Has :
      (pg : Handler.Handler) (grantee granted : String) → Has pg → Has (grant pg grantee granted)
  unfolding grant
  grant-Has pg grantee granted h = get_role-Has _ grantee (get_role-Has pg granted h)

  grant_all-Has :
      (pg : Handler.Handler) (name : String) (member_of : List String)
      → Has pg
      → Has (grant_all pg name member_of)
  unfolding grant_all
  grant_all-Has pg name [] h = h
  grant_all-Has pg name (granted ∷ member_of) h =
      grant_all-Has (grant pg name granted) name member_of (grant-Has pg name granted h)

  pub grant_if_present-Has :
      (state : State) (pg : Handler.Handler) (name : String) (member_of : List String)
      → Has pg
      → Has (grant_if_present state pg name member_of)
  grant_if_present-Has state pg name member_of h = elim (Bool-cases (state.value =ℕ= 0)) [
    | inl yes_present ↦ rw yes_present (grant_all-Has pg name member_of h)
    | inr other ↦ rw other h
  ]

  pub add_users-Has :
      (pg : Handler.Handler) (group : Role) (options : RoleOptionMap) (state : State)
      (names : List String)
      → Has pg
      → Has (add_users pg group options state names)
  unfolding add_users add_user
  add_users-Has pg group options state [] h = h
  add_users-Has pg group options state (name ∷ names) h =
      add_users-Has (add_user pg group options state name) group options state names
        (set_role-Has pg name options state h)

  update_role-Has :
      (pg : Handler.Handler) (name : String) (f : Option RoleOptionMap → RoleOptionMap)
      → Has pg
      → Has (update_role pg name f)
  unfolding update_role
  update_role-Has pg name f h = add_role-Has _ _ (get_role-Has pg name h)

  handle_db_role-Has :
      (db_name : String) (db_config : Database) (pg : Handler.Handler)
      → Has pg
      → Has (handle_db_role db_name db_config pg)
  unfolding handle_db_role
  handle_db_role-Has db_name db_config pg h = elim (Bool-cases (db_config.state =S= absent)) [
    | inl gone ↦ rw gone h
    | inr wanted ↦ rw wanted (
        grant-Has _ "opex" _
          (update_role-Has _ _ _ (update_role-Has _ _ _ (update_role-Has pg _ _ h))))
  ]

  pub handle_db_roles-Has :
      (dbs : Databases) (pfh : PgFgaHandler) {pfh' : PgFgaHandler}
      → Has pfh.pg
      → handle_db_roles dbs pfh ≡ ok pfh'
      → Has pfh'.pg
  unfolding handle_db_roles
  handle_db_roles-Has [] pfh h e = subst (λ p. Has p.pg) (ok-injective e) h
  handle_db_roles-Has ((db_name, db_config) ∷ dbs) pfh h e =
      handle_db_roles-Has dbs (record pfh { pg = handle_db_role db_name db_config pfh.pg })
        (handle_db_role-Has db_name db_config pfh.pg h) e

  apply_group-Has :
      (user_config : FgaUserConfig) (name : String) (options : RoleOptionMap) (base_name : String)
      (names : List String) (pg : Handler.Handler)
      → Has pg
      → Has (apply_group user_config name options base_name names pg)
  unfolding apply_group
  apply_group-Has user_config name options base_name names pg h =
      add_users-Has _ _ _ user_config.state names
        (grant_if_present-Has user_config.state _ name user_config.member_of (add_role-Has _ _ h))

  handle_ldap_user-Has :
      (user_config : FgaUserConfig) (name : String) (options : RoleOptionMap) (pg : Handler.Handler)
      → Has pg
      → Has (handle_ldap_user user_config name options pg)
  unfolding handle_ldap_user
  handle_ldap_user-Has user_config name options pg h =
      grant_if_present-Has user_config.state _ name user_config.member_of
        (set_role-Has pg name (add_absolute options "LOGIN") user_config.state h)

  handle_password_user-Has :
      (user_config : FgaUserConfig) (name : String) (options : RoleOptionMap) (pg : Handler.Handler)
      → Has pg
      → Has (handle_password_user user_config name options pg)
  unfolding handle_password_user
  handle_password_user-Has user_config name options pg h =
      grant_if_present-Has user_config.state _ name user_config.member_of
        (set_role-Has pg name (add_absolute options "LOGIN") user_config.state h)

  pub if-ok :
      (b : Bool) {m n : Result PgFgaHandler} (pfh : PgFgaHandler)
      → (m ≡ ok pfh → Has pfh.pg)
      → (n ≡ ok pfh → Has pfh.pg)
      → (if b then m else n) ≡ ok pfh
      → Has pfh.pg
  if-ok true pfh f g = f
  if-ok false pfh f g = g

  module _ (sys : System) (dir : Directory) where
    handle_ldap_group-Has :
        (user_config : FgaUserConfig) (name : String) (options : RoleOptionMap) (pfh : PgFgaHandler)
        {pfh' : PgFgaHandler}
        → Has pfh.pg
        → handle_ldap_group sys dir user_config name options pfh ≡ ok pfh'
        → Has pfh'.pg
    unfolding handle_ldap_group
    handle_ldap_group-Has user_config name options pfh {pfh'} h =
        if-ok (user_config.base_dn == "" || user_config.filter == "") pfh' (λ e. cc)
          λ e.
            let ((ldap, base_group), _, rest) =
              >>=-eq-ok (get_members sys dir pfh.ldap user_config.base_dn user_config.filter) _ e in
            let (mss, _, end) = >>=-eq-ok (tree_of ldap base_group) _ rest in
            subst (λ p. Has p.pg) (ok-injective end)
              (apply_group-Has user_config name options _ _ pfh.pg h)

    handle_auth-Has :
        (user_config : FgaUserConfig) (name : String) (options : RoleOptionMap) (pfh : PgFgaHandler)
        {pfh' : PgFgaHandler}
        → Has pfh.pg
        → handle_auth sys dir user_config name options pfh ≡ ok pfh'
        → Has pfh'.pg
    unfolding handle_auth
    handle_auth-Has user_config name options pfh {pfh'} h =
        let auth = user_config.auth in
        if-ok (auth == "ldap-group") pfh' (handle_ldap_group-Has user_config name options pfh h) (
          if-ok (auth == "ldap-user" || auth == "clientcert") pfh'
            (λ e.
              subst (λ p. Has p.pg) (ok-injective e)
                (handle_ldap_user-Has user_config name options pfh.pg h))
            (if-ok (auth == "password" || auth == "md5") pfh'
              (λ e.
                subst (λ p. Has p.pg) (ok-injective e)
                  (handle_password_user-Has user_config name options pfh.pg h))
              (λ e. cc)))

    pub handle_users-Has :
        (users : Map FgaUserConfig) (pfh : PgFgaHandler) {pfh' : PgFgaHandler}
        → Has pfh.pg
        → handle_users sys dir users pfh ≡ ok pfh'
        → Has pfh'.pg
    unfolding handle_users
    handle_users-Has [] pfh h e = subst (λ p. Has p.pg) (ok-injective e) h
    handle_users-Has ((name, user_config) ∷ users) pfh h e =
        let (options, _, rest) = >>=-eq-ok (user_options [] user_config.options) _ e in
        let (pfh1, handled, rest') =
          >>=-eq-ok (handle_auth sys dir user_config name options pfh) _ rest in
        handle_users-Has users pfh1 (handle_auth-Has user_config name options pfh h handled) rest'

  pub handle_roles-Has :
      (roles : Map FgaRoleConfig) (pfh : PgFgaHandler) {pfh' : PgFgaHandler}
      → Has pfh.pg
      → handle_roles roles pfh ≡ ok pfh'
      → Has pfh'.pg
  unfolding handle_roles
  handle_roles-Has [] pfh h e = subst (λ p. Has p.pg) (ok-injective e) h
  handle_roles-Has ((name, role_config) ∷ roles) pfh h e =
      let (options, _, rest) = >>=-eq-ok (role_options [] role_config.options) _ e in
      handle_roles-Has roles _
        (grant_if_present-Has role_config.state _ name role_config.member_of
          (set_role-Has pfh.pg name options role_config.state h))
        rest
