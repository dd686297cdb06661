-- ===== src/Pg/Role/Finalizing.antt =====
-- Which statements dropping roles sends.
use pgfga.Base.{String, ◌≡◌, refl, false, not, [], ◌∷◌, ◌⊎◌, inl, inr}
use pgfga.Pg.State.{present, ◌=S=◌}
use pgfga.Pg.Server.{Server, Scans, row, no_rows, failed}
use pgfga.Pg.Conn.Act.{World, Statement, Act}
use pgfga.Pg.Conn.Query.{switch_db}
use pgfga.Pg.Conn.Keeps.{
  Keeps, Keeps-pure, Keeps-raise, Keeps-bind, Keeps-if, Keeps-by_value, Keeps-on_conn,
  Keeps-ask_pair,
}
use pgfga.Pg.Conn.Adds.{Allows, Adds-exec, Adds-exists, Sent}
use pgfga.Pg.Role.{Role, Roles}
use pgfga.Pg.Role.Actions.{reassign_sql, drop_sql, reassign_all, drop, finalize_all}

-- The statements that drop a role: what it owns goes to another, and it is dropped.
pub data DropStatement (name : String) (s : Statement) : Type 0 where
  reassigns : (new_owner : String) → s.sql ≡ reassign_sql name new_owner → DropStatement name s
  drops : s.sql ≡ drop_sql name → DropStatement name s

-- They suit a role of the map that is not present, under the name that the map has for it.
abbrev pub DropsRoles : Roles → Statement → Type 0
DropsRoles [] s = ⊥
DropsRoles ((name, r) ∷ rs) s =
    (((r.state =S= present) ≡ false) × DropStatement name s) ⊎ DropsRoles rs s

module _ {C : Type 0} ⦃srv : Server C⦄ (P : Statement → Type 0) {kept : World C → Type 0}
    (allows : Allows P kept) where
  abbrev Add : Act C (Unit {0}) → Type 0
  Add m = Keeps kept m

  reassign_all-Adds :
      (r : Role) (owners : Scans (String × String))
      → ((new_owner : String) → Sent P (reassign_sql r.name new_owner))
      → Add (reassign_all r owners)
  unfolding reassign_all
  reassign_all-Adds r no_rows p = Keeps-pure tt
  reassign_all-Adds r (failed e) p = Keeps-raise _
  reassign_all-Adds r (row (db_name, new_owner) rest) p =
      Keeps-bind _ _
        (record {
          at = λ e.
              (Keeps-on_conn (switch_db e.conn db_name) _
                  (Adds-exec P allows _ [] (p new_owner))).at
                e;
        })
        (λ _. reassign_all-Adds r rest p)

  drop-Adds :
      (r : Role)
      → ((r.state =S= present) ≡ false → (s : Statement) → DropStatement r.name s → P s)
      → Add (drop r)
  unfolding drop
  drop-Adds r suits =
      Keeps-if _ _ _ (λ _. Keeps-pure tt)
        λ gone. Keeps-by_value _ (
          Keeps-bind _ _ (Adds-exists P allows _ _) λ droppable.
            Keeps-if (not droppable) _ _ (λ _. Keeps-pure tt)
              λ _. Keeps-bind _ _ (Keeps-ask_pair allows.opens _ _) λ owners.
                Keeps-bind _ _
                  (reassign_all-Adds r owners
                    (λ new_owner dsn. suits gone _ (reassigns new_owner refl)))
                  (λ _. Adds-exec P allows _ [] (λ dsn. suits gone _ (drops refl))))

  pub finalize_all-Adds :
      (rs : Roles) → ((s : Statement) → DropsRoles rs s → P s) → Add (finalize_all rs)
  unfolding finalize_all
  finalize_all-Adds [] suits = Keeps-pure tt
  finalize_all-Adds ((name, r) ∷ rs) suits =
      Keeps-bind _ _ (drop-Adds (record r { name = name }) (λ n s h. suits s (inl (n, h))))
        (λ _. finalize_all-Adds rs (λ s h. suits s (inr h)))
