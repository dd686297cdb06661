-- ===== src/Pg/Grant/Laws.antt =====
-- Which statements granting and revoking send.
use pgfga.Base.{◌≡◌, refl, false, List, [], ◌∷◌, ◌⊎◌, inl, inr}
use pgfga.Pg.State.{absent, present, ◌=S=◌}
use pgfga.Pg.Server.{Server}
use pgfga.Pg.Conn.Act.{World, Statement, Act, pure}
use pgfga.Pg.Conn.Query.{run_query_exec}
use pgfga.Pg.Conn.Keeps.{Keeps, Keeps-pure, Keeps-bind, Keeps-if, Keeps-by_value}
use pgfga.Pg.Conn.Adds.{
  Allows, Adds-Allows, Sent, Adds-exec, Adds-exists, Sends, Keeps-Sends, adds_rules,
}
use pgfga.Pg.Role.{Role}
use pgfga.Pg.Role.Statements.{create_role-Adds}
use pgfga.Pg.Role.Actions.{create_sql}
use pgfga.Pg.Grant.{
  Grant, grant_sql, revoke_sql, exists, ensure_role, ignoring_error, grant, revoke, reconcile_all,
  finalize_all,
}

-- The statements that suit a grant that is made.
pub data GrantStatement (g : Grant) (s : Statement) : Type 0 where
  creates_granted : s.sql ≡ create_sql g.granted.name → GrantStatement g s
  creates_grantee : s.sql ≡ create_sql g.grantee.name → GrantStatement g s
  grants :
      (g.state =S= absent) ≡ false
      → s.sql ≡ grant_sql g.granted.name g.grantee.name
      → GrantStatement g s

abbrev pub FromGrants : List Grant → Statement → Type 0
FromGrants [] s = ⊥
FromGrants (g ∷ gs) s = GrantStatement g s ⊎ FromGrants gs s

-- Revoking a grant of the list that is not present.
abbrev pub Revokes : List Grant → Statement → Type 0
Revokes [] s = ⊥
Revokes (g ∷ gs) s =
    (((g.state =S= present) ≡ false) × (s.sql ≡ revoke_sql g.granted.name g.grantee.name))
    ⊎ Revokes gs s

module _ {C : Type 0} ⦃srv : Server C⦄ (P : Statement → Type 0) {kept : World C → Type 0}
    (allows : Allows P kept) where
  abbrev Add : Act C (Unit {0}) → Type 0
  Add m = Keeps kept m

  ensure_role-Adds : (r : Role) → Sent P (create_sql r.name) → Add (ensure_role r)
  unfolding ensure_role
  ensure_role-Adds r p = search (adds_rules, create_role-Adds P allows r p) depth 7

  ignoring_error-Adds : (m : Act C (Unit {0})) → Add m → Add (ignoring_error m)
  unfolding ignoring_error pure
  ignoring_error-Adds m k = record { at = λ e h. k.at e h }

  send_grant-Adds :
      (g : Grant)
      → ((s : Statement) → GrantStatement g s → P s)
      → (g.state =S= absent) ≡ false
      → Add (run_query_exec (grant_sql g.granted.name g.grantee.name) [])
  send_grant-Adds g suits wanted = Adds-exec P allows _ [] (λ dsn. suits _ (grants wanted refl))

  pub grant-Adds : (g : Grant) → ((s : Statement) → GrantStatement g s → P s) → Add (grant g)
  unfolding grant exists
  grant-Adds g suits =
      let granted : Sent P (create_sql g.granted.name) = λ dsn. suits _ (creates_granted refl) in
      Keeps-if _ _ _ (λ _. Keeps-pure tt)
        λ wanted. Keeps-by_value _ (
          Keeps-bind _ _ (Keeps-by_value _ (Adds-exists P allows _ _)) λ found.
            Keeps-if _ _ _ (λ _. Keeps-pure tt)
              λ _. Keeps-bind _ _ (ensure_role-Adds g.granted granted) λ _.
                Keeps-bind _ _ (ensure_role-Adds g.grantee (λ dsn. suits _ (creates_grantee refl)))
                  λ _.
                    Keeps-bind _ _
                      (ignoring_error-Adds _ (create_role-Adds P allows g.granted granted))
                      λ _. send_grant-Adds g suits wanted)

  pub reconcile_all-Adds :
      (gs : List Grant) → ((s : Statement) → FromGrants gs s → P s) → Add (reconcile_all gs)
  unfolding reconcile_all
  reconcile_all-Adds [] suits = Keeps-pure tt
  reconcile_all-Adds (g ∷ gs) suits =
      Keeps-bind _ _ (grant-Adds g (λ s h. suits s (inl h)))
        (λ _. reconcile_all-Adds gs (λ s h. suits s (inr h)))

  revoke-Adds :
      (g : Grant)
      → ((g.state =S= present) ≡ false → Sent P (revoke_sql g.granted.name g.grantee.name))
      → Add (revoke g)
  unfolding revoke exists
  revoke-Adds g p = search (adds_rules, p) depth 7

  pub finalize_all-Adds :
      (gs : List Grant) → ((s : Statement) → Revokes gs s → P s) → Add (finalize_all gs)
  unfolding finalize_all
  finalize_all-Adds [] suits = Keeps-pure tt
  finalize_all-Adds (g ∷ gs) suits =
      Keeps-bind _ _ (revoke-Adds g (λ n dsn. suits _ (inl (n, refl))))
        (λ _. finalize_all-Adds gs (λ s h. suits s (inr h)))

-- Bringing grants in line sends only statements that suit one of them: they create one of its two
-- roles, or, if its state is not absent, grant the one to the other.
pub reconcile_all-FromGrants :
    {C : Type 0} ⦃srv : Server C⦄ (gs : List Grant)
    → Sends (FromGrants gs) (reconcile_all {C = C} gs)
reconcile_all-FromGrants gs =
    Keeps-Sends _ _ (λ log. reconcile_all-Adds _ (Adds-Allows _ log) gs (λ s h. h))
