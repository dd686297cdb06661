-- ===== src/Pg/Role/Statements.antt =====
-- Which statements bringing a role in line sends.
use pgfga.Base.{String, ◌≡◌, refl, true, false, arith, none, some, List, [], ◌∷◌, map, not}
use pgfga.Pg.RoleOption.{RoleOption}
use pgfga.Pg.RoleOption.Options.{to_list}
use pgfga.Pg.Server.{Server}
use pgfga.Pg.Conn.Act.{World, Statement, Act, run_all}
use pgfga.Pg.Conn.Keeps.{Keeps, Keeps-pure, Keeps-by_value, Keeps-if}
use pgfga.Pg.Conn.Adds.{
  Allows, Adds-Allows, Sent, Sends, Keeps-Sends, Keeps-nil, Keeps-cons, adds_rules,
}
use pgfga.Pg.Role.{Role, Time, entries}
use pgfga.Pg.Role.Actions.{
  Digest, create_sql, alter_sql, set_expiry_sql, reset_expiry_sql, set_password_sql,
  reset_password_sql, hashed_password, has_login_password, create, exists, has_options,
  reconcile_option, reconcile_role_options, reconcile_set_expiry, reconcile_reset_expiry,
  reconcile_set_password, reconcile_reset_password, reconcile, set_expiry_to, reset_expiry_from,
}

-- The option stands in the list.
pub data Among (opt : RoleOption) : List RoleOption → Type 0 where
  first : (opts : List RoleOption) → Among opt (opt ∷ opts)
  later : (other : RoleOption) {opts : List RoleOption} → Among opt opts → Among opt (other ∷ opts)

-- The statements that suit a role.
pub data RoleStatement (digest : Digest) (r : Role) (s : Statement) : Type 0 where
  creates : s.sql ≡ create_sql r.name → RoleStatement digest r s
  alters :
      (opt : RoleOption)
      → Among opt (to_list (entries r.options))
      → s.sql ≡ alter_sql r.name opt
      → RoleStatement digest r s
  sets_expiry :
      (formatted : String)
      → r.expiry ≡ some formatted
      → s.sql ≡ set_expiry_sql r.name formatted
      → RoleStatement digest r s
  resets_expiry : r.expiry ≡ none → s.sql ≡ reset_expiry_sql r.name → RoleStatement digest r s
  sets_password :
      has_login_password r ≡ true
      → s.sql ≡ set_password_sql r.name (hashed_password digest r)
      → RoleStatement digest r s
  resets_password :
      has_login_password r ≡ false → s.sql ≡ reset_password_sql r.name → RoleStatement digest r s

-- the steps of Role.reconcile behind the options
abbrev pub after_options : {C : Type 0} → ⦃srv : Server C⦄ → Digest → Role → List (Act C (Unit {0}))
after_options digest r =
    reconcile_set_expiry r
    ∷ reconcile_reset_expiry r
    ∷ reconcile_set_password digest r
    ∷ reconcile_reset_password r
    ∷ []

module _ {C : Type 0} ⦃srv : Server C⦄ (P : Statement → Type 0) {kept : World C → Type 0}
    (allows : Allows P kept) where
  pub create_role-Adds : (r : Role) → Sent P (create_sql r.name) → Keeps kept (create r)
  unfolding create exists
  create_role-Adds r p = search (adds_rules, p) depth 7

module _ (P : Statement → Type 0) (digest : Digest) (r : Role)
    (suits : (s : Statement) → RoleStatement digest r s → P s) where
  creates_suits : Sent P (create_sql r.name)
  creates_suits dsn = suits _ (creates refl)

  alters_suits :
      (opt : RoleOption) → Among opt (to_list (entries r.options)) → Sent P (alter_sql r.name opt)
  alters_suits opt a dsn = suits _ (alters opt a refl)

  sets_expiry_suits :
      (formatted : String) → r.expiry ≡ some formatted → Sent P (set_expiry_sql r.name formatted)
  sets_expiry_suits formatted e dsn = suits _ (sets_expiry formatted e refl)

  resets_expiry_suits : r.expiry ≡ none → Sent P (reset_expiry_sql r.name)
  resets_expiry_suits e dsn = suits _ (resets_expiry e refl)

  sets_password_suits :
      not (has_login_password r) ≡ false
      → Sent P (set_password_sql r.name (hashed_password digest r))
  sets_password_suits e dsn = suits _ (sets_password (ground arith) refl)

  resets_password_suits : has_login_password r ≡ false → Sent P (reset_password_sql r.name)
  resets_password_suits e dsn = suits _ (resets_password e refl)

module _ {C : Type 0} ⦃srv : Server C⦄ (P : Statement → Type 0) {kept : World C → Type 0}
    (allows : Allows P kept) (digest : Digest) (r : Role)
    (suits : (s : Statement) → RoleStatement digest r s → P s) where
  abbrev Add : Act C (Unit {0}) → Type 0
  Add m = Keeps kept m

  create-Adds : Add (create r)
  create-Adds = create_role-Adds P allows r (creates_suits P digest r suits)

  reconcile_option-Adds :
      (opt : RoleOption) → Among opt (to_list (entries r.options)) → Add (reconcile_option r opt)
  unfolding reconcile_option has_options
  reconcile_option-Adds opt a = search (adds_rules, alters_suits P digest r suits opt a) depth 7

  pub options-Adds :
      (opts : List RoleOption)
      → ((opt : RoleOption) → Among opt opts → Among opt (to_list (entries r.options)))
      → Add (run_all (map (reconcile_option r) opts))
  options-Adds [] sub = Keeps-nil
  options-Adds (opt ∷ opts) sub =
      Keeps-cons _ _ (reconcile_option-Adds opt (sub opt (first opts)))
        (options-Adds opts (λ o a. sub o (later opt a)))

  reconcile_role_options-Adds : Add (reconcile_role_options r)
  unfolding reconcile_role_options
  reconcile_role_options-Adds =
      Keeps-by_value _ (options-Adds (to_list (entries r.options)) (λ o a. a))

  reset_password-Adds : Add (reconcile_reset_password r)
  unfolding reconcile_reset_password
  reset_password-Adds = search (adds_rules, resets_password_suits P digest r suits) depth 7

  set_password-Adds : Add (reconcile_set_password digest r)
  unfolding reconcile_set_password
  set_password-Adds = search (adds_rules, sets_password_suits P digest r suits) depth 7

  set_expiry-Adds : (t : Time) → r.expiry ≡ t → Add (set_expiry_to r t)
  set_expiry-Adds none e = search adds_rules
  set_expiry-Adds (some formatted) e =
      search (adds_rules, sets_expiry_suits P digest r suits formatted e) depth 7

  reset_expiry-Adds : (t : Time) → r.expiry ≡ t → Add (reset_expiry_from r t)
  reset_expiry-Adds none e = search (adds_rules, resets_expiry_suits P digest r suits e) depth 7
  reset_expiry-Adds (some formatted) e = search adds_rules

  -- what follows the options
  pub after_options-Adds : Add (run_all (after_options digest r))
  unfolding reconcile_set_expiry reconcile_reset_expiry
  after_options-Adds = Keeps-cons _ _ (set_expiry-Adds r.expiry refl) (
      Keeps-cons _ _ (reset_expiry-Adds r.expiry refl)
        (Keeps-cons _ _ set_password-Adds (Keeps-cons _ _ reset_password-Adds Keeps-nil)))

  -- what follows the creation
  pub after_create-Adds : Add (run_all (reconcile_role_options r ∷ after_options digest r))
  after_create-Adds = Keeps-cons _ _ reconcile_role_options-Adds after_options-Adds

  pub reconcile-Adds : Add (reconcile digest r)
  unfolding reconcile
  reconcile-Adds =
      Keeps-if _ _ _ (λ _. Keeps-pure tt) (λ _. Keeps-cons _ _ create-Adds after_create-Adds)

-- Bringing one role in line sends only statements that suit it: they create it, alter it by an
-- option of its map, set its expiry if it has one and reset it if not, set its password if it has
-- one and the option LOGIN is enabled, and reset it if not.
pub reconcile-RoleStatement :
    {C : Type 0} ⦃srv : Server C⦄ (digest : Digest) (r : Role)
    → Sends (RoleStatement digest r) (reconcile {C = C} digest r)
reconcile-RoleStatement digest r =
    Keeps-Sends _ _ (λ log. reconcile-Adds _ (Adds-Allows _ log) digest r (λ s h. h))
