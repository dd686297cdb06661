-- ===== src/Pg/Role/AllRoles.antt =====
-- Which statements bringing all roles in line sends.
use pgfga.Base.{All, String, eq_iff, arith, ◌≡◌, List, [], ◌∷◌, ◌⊎◌, inl, inr}
use pgfga.Pg.RoleOption.{RoleOption}
use pgfga.Pg.Server.{Server}
use pgfga.Pg.Conn.Act.{World, Statement}
use pgfga.Pg.Conn.Keeps.{Keeps, Keeps-pure, Keeps-bind}
use pgfga.Pg.Conn.Adds.{Allows, Adds-Allows, Sends, Keeps-Sends}
use pgfga.Pg.Role.{Role, Roles}
use pgfga.Pg.Role.Actions.{
  Digest, create_sql, alter_sql, reset_expiry_sql, reset_password_sql, has_login_password,
  reconcile_all,
}
use pgfga.Pg.Role.Merging.{IsStored-named, to_list-AreOn, IsOn, IsStored, AreStored}
use pgfga.Pg.Role.Statements.{
  Among, first, later, RoleStatement, creates, alters, sets_expiry, resets_expiry, sets_password,
  resets_password, reconcile-Adds,
}

-- The statement suits one of the roles, under the name that the map has for it.
abbrev pub FromRole : Digest → Roles → Statement → Type 0
FromRole digest [] s = ⊥
FromRole digest ((name, r) ∷ rs) s =
    RoleStatement digest (record r { name = name }) s ⊎ FromRole digest rs s

pub reconcile_all-Adds :
    {C : Type 0} ⦃srv : Server C⦄ (P : Statement → Type 0) {kept : World C → Type 0}
    (allows : Allows P kept) (digest : Digest) (rs : Roles)
    → ((s : Statement) → FromRole digest rs s → P s)
    → Keeps kept (reconcile_all digest rs)
unfolding reconcile_all
reconcile_all-Adds P allows digest [] suits = Keeps-pure tt
reconcile_all-Adds P allows digest ((name, r) ∷ rs) suits =
    Keeps-bind _ _
      (reconcile-Adds P allows digest (record r { name = name }) (λ s h. suits s (inl h)))
      (λ _. reconcile_all-Adds P allows digest rs (λ s h. suits s (inr h)))

-- Statements that create a role, switch a valid option on, or take away an expiry or a password.
pub data PlainStatement (s : Statement) : Type 0 where
  creates_role : (name : String) → s.sql ≡ create_sql name → PlainStatement s
  switches_on :
      (name : String) (opt : RoleOption) → IsOn opt → s.sql ≡ alter_sql name opt → PlainStatement s
  removes_expiry : (name : String) → s.sql ≡ reset_expiry_sql name → PlainStatement s
  removes_password : (name : String) → s.sql ≡ reset_password_sql name → PlainStatement s

Among-All :
    (P : RoleOption → Type 0) (opt : RoleOption) {opts : List RoleOption}
    → Among opt opts
    → All P opts
    → P opt
Among-All P opt (first opts) (p, ps) = p
Among-All P opt (later other a) (p, ps) = Among-All P opt a ps

RoleStatement-PlainStatement :
    (digest : Digest) (r : Role) (s : Statement)
    → IsStored r
    → RoleStatement digest r s
    → PlainStatement s
unfolding has_login_password
RoleStatement-PlainStatement digest r s h (creates e) = creates_role r.name e
RoleStatement-PlainStatement digest r s h (alters opt a e) =
    switches_on r.name opt (Among-All _ opt a (to_list-AreOn _ h.switched_on)) e
RoleStatement-PlainStatement digest r s h (sets_expiry t some_expiry e) =
    absurd (cc (h.no_expiry, some_expiry))
RoleStatement-PlainStatement digest r s h (resets_expiry no_expiry e) = removes_expiry r.name e
RoleStatement-PlainStatement digest r s h (sets_password has e) =
    absurd (ground (arith, eq_iff r.password "", has, h.no_password))
RoleStatement-PlainStatement digest r s h (resets_password has e) = removes_password r.name e

pub FromRole-PlainStatement :
    (digest : Digest) (rs : Roles) (s : Statement)
    → AreStored rs
    → FromRole digest rs s
    → PlainStatement s
FromRole-PlainStatement digest [] s h f = absurd f
FromRole-PlainStatement digest ((name, r) ∷ rs) s h (inl f) =
    RoleStatement-PlainStatement digest (record r { name = name }) s (IsStored-named r name h.0) f
FromRole-PlainStatement digest ((name, r) ∷ rs) s h (inr f) =
    FromRole-PlainStatement digest rs s h.1 f

-- Bringing roles in line that are all present, with no password and no expiry, and with valid
-- options that switch something on, sends only statements that create a role, switch a valid option
-- on, or take away an expiry or a password.
pub reconcile_all-PlainStatement :
    {C : Type 0} ⦃srv : Server C⦄ (digest : Digest) (rs : Roles)
    → AreStored rs
    → Sends PlainStatement (reconcile_all {C = C} digest rs)
reconcile_all-PlainStatement digest rs h = Keeps-Sends _ _ (λ log.
    reconcile_all-Adds _ (Adds-Allows _ log) digest rs (λ s. FromRole-PlainStatement digest rs s h))
