-- ===== src/Handler/Named.antt =====
-- Every role of the configuration is among the roles that are handed to the package pg.
pub mod Kept
use mathlib.Core.Option.{some-injective}
use pgfga.Base.{
  String, ◌≡◌, refl, true, false, Bool-cases, some, Option-cases, [], ◌∷◌, ◌==◌, ◌||◌, eq_iff,
  eq_refl, inl, inr, subst, sym, ap, ◌∙◌,
}
use pgfga.Base.Result.{ok, >>=-eq-ok, ok-injective}
use pgfga.GoMap.{Map, lookup, contains}
use pgfga.GoMap.Laws.{contains-put, contains-cons, lookup-cons}
use pgfga.Pg.State.{State}
use pgfga.Pg.RoleOption.Options.{RoleOptionMap, add_absolute}
use pgfga.Pg.Role.{new_role}
use pgfga.Pg.Handler
use pgfga.Pg.Handler.{got, get_role}
use pgfga.Handler.{PgFgaHandler, set_role, role_options, user_options}
use pgfga.Handler.Run.{
  handle_ldap_user, handle_password_user, handle_auth, handle_users, handle_roles, handle_databases,
  prepare,
}
use pgfga.Config.{FgaConfig, FgaUserConfig, FgaRoleConfig}
use pgfga.Ldap.Credential.{System}
use pgfga.Ldap.Directory.{Directory}
use pgfga.Handler.Named.Kept.{
  grant_if_present-Has, add_role-Has, handle_roles-Has, handle_db_roles-Has, handle_users-Has,
  if-ok,
}

get_role_self :
    (pg : Handler.Handler) (name : String) → contains name (get_role pg name).1.roles ≡ true
unfolding get_role contains lookup
get_role_self pg name = elim (Option-cases (lookup name pg.roles)) [
  | inl missing ↦
      subst (λ r. contains name r.1.roles ≡ true) (sym (ap (got pg name) missing))
        (contains-put name name (new_role name) pg.roles ∙ simp eq_refl)
  | inr (r, found) ↦
      subst (λ p. contains name p.1.roles ≡ true) (sym (ap (got pg name) found)) (rw found refl)
]

pub set_role_self :
    (pg : Handler.Handler) (name : String) (options : RoleOptionMap) (state : State)
    → contains name (set_role pg name options state).1.roles ≡ true
unfolding set_role
set_role_self pg name options state = add_role-Has name _ _ (get_role_self pg name)

handle_roles-names :
    (name : String) (roles : Map FgaRoleConfig) (pfh : PgFgaHandler) {pfh' : PgFgaHandler}
    → contains name roles ≡ true
    → handle_roles roles pfh ≡ ok pfh'
    → contains name pfh'.pg.roles ≡ true
unfolding handle_roles
handle_roles-names name [] pfh h e = unfold contains lookup in cc
handle_roles-names name ((other, role_config) ∷ roles) pfh h e =
    let (options, _, rest) = >>=-eq-ok (role_options [] role_config.options) _ e in
    elim (Bool-cases (other == name)) [
      | inl same ↦
          handle_roles-Has name roles _
            (grant_if_present-Has name role_config.state _ other role_config.member_of (
              subst
                (λ n. contains n (set_role pfh.pg other options role_config.state).1.roles ≡ true)
                ((eq_iff other name).0 same)
                (set_role_self pfh.pg other options role_config.state)))
            rest
      | inr differs ↦ handle_roles-names name roles _ (rw (contains-cons, differs) at h) rest
    ]

-- If the handlers succeed, every role that the configuration names under its roles, whatever its
-- state, is among the roles that they leave.
pub prepare-contains :
    (sys : System) (dir : Directory) (config : FgaConfig) (pfh : PgFgaHandler) {pfh' : PgFgaHandler}
    (name : String)
    → contains name config.roles ≡ true
    → prepare sys dir config pfh ≡ ok pfh'
    → contains name pfh'.pg.roles ≡ true
unfolding prepare handle_databases
prepare-contains sys dir config pfh name h e =
    let (pfh1, roles, e1) = >>=-eq-ok (handle_roles config.roles pfh) _ e in
    let (pfh2, users, e2) = >>=-eq-ok (handle_users sys dir config.user_config pfh1) _ e1 in
    handle_db_roles-Has name config.dbs_config _
      (handle_users-Has name sys dir config.user_config pfh1
        (handle_roles-names name config.roles pfh h roles) users)
      e2

handle_auth_self :
    (sys : System) (dir : Directory) (user_config : FgaUserConfig) (name : String)
    (options : RoleOptionMap) (pfh : PgFgaHandler) {pfh' : PgFgaHandler}
    → (user_config.auth == "ldap-group") ≡ false
    → handle_auth sys dir user_config name options pfh ≡ ok pfh'
    → contains name pfh'.pg.roles ≡ true
unfolding handle_auth handle_ldap_user handle_password_user
handle_auth_self sys dir user_config name options pfh {pfh'} single e =
    let auth = user_config.auth in
    let made =
      grant_if_present-Has name user_config.state _ name user_config.member_of
        (set_role_self pfh.pg name (add_absolute options "LOGIN") user_config.state) in
    if-ok name (auth == "ldap-user" || auth == "clientcert") pfh'
      (λ e. subst (λ p. contains name p.pg.roles ≡ true) (ok-injective e) made)
      (if-ok name (auth == "password" || auth == "md5") pfh'
        (λ e. subst (λ p. contains name p.pg.roles ≡ true) (ok-injective e) made) (λ e. cc))
      (rw single at e)

handle_users-names :
    (sys : System) (dir : Directory) (name : String) (user : FgaUserConfig)
    (users : Map FgaUserConfig) (pfh : PgFgaHandler) {pfh' : PgFgaHandler}
    → lookup name users ≡ some user
    → (user.auth == "ldap-group") ≡ false
    → handle_users sys dir users pfh ≡ ok pfh'
    → contains name pfh'.pg.roles ≡ true
unfolding handle_users
handle_users-names sys dir name user [] pfh h single e = unfold lookup in cc
handle_users-names sys dir name user ((other, user_config) ∷ users) pfh h single e =
    let (options, _, rest) = >>=-eq-ok (user_options [] user_config.options) _ e in
    let (pfh1, handled, rest') =
      >>=-eq-ok (handle_auth sys dir user_config other options pfh) _ rest in
    elim (Bool-cases (other == name)) [
      | inl same ↦
          handle_users-Has name sys dir users pfh1
            (subst (λ n. contains n pfh1.pg.roles ≡ true) ((eq_iff other name).0 same)
              (handle_auth_self sys dir user_config other options pfh
                (subst (λ u. (u.auth == "ldap-group") ≡ false)
                  (sym (some-injective _ _ (rw (lookup-cons, same) at h))) single)
                handled))
            rest'
      | inr differs ↦
          handle_users-names sys dir name user users pfh1 (rw (lookup-cons, differs) at h) single
            rest'
    ]

-- If the handlers succeed, every user that the configuration names, unless it stands for an LDAP
-- group, is among the roles that they leave, whatever its state.
pub prepare-contains_user :
    (sys : System) (dir : Directory) (config : FgaConfig) (pfh : PgFgaHandler) {pfh' : PgFgaHandler}
    (name : String) (user : FgaUserConfig)
    → lookup name config.user_config ≡ some user
    → (user.auth == "ldap-group") ≡ false
    → prepare sys dir config pfh ≡ ok pfh'
    → contains name pfh'.pg.roles ≡ true
unfolding prepare handle_databases
prepare-contains_user sys dir config pfh name user h single e =
    let (pfh1, _, e1) = >>=-eq-ok (handle_roles config.roles pfh) _ e in
    let (pfh2, users, e2) = >>=-eq-ok (handle_users sys dir config.user_config pfh1) _ e1 in
    handle_db_roles-Has name config.dbs_config _
      (handle_users-names sys dir name user config.user_config pfh1 h single users) e2
