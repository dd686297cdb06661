-- ===== src/Pg/Handler/Steps.antt =====
-- Which statements Reconcile sends.
use pgfga.Base.{List}
use pgfga.Base.Result.{Result, ok, err}
use pgfga.Pg.Server.{Server}
use pgfga.Pg.Conn.Act.{World, Conn, Statement, Act, run_all}
use pgfga.Pg.Conn.Keeps.{Keeps, Keeps-on_conn, Keeps-raise}
use pgfga.Pg.Conn.Adds.{Allows, Keeps-cons, Keeps-nil}
use pgfga.Pg.Role.Actions.{Digest}
use pgfga.Pg.Role.AllRoles as AllRoles
use pgfga.Pg.Role.AllRoles.{FromRole, PlainStatement, FromRole-PlainStatement}
use pgfga.Pg.Role.Merging.{AreStored}
use pgfga.Pg.Grant.Laws as GrantLaws
use pgfga.Pg.Grant.Laws.{FromGrants}
use pgfga.Pg.Slot.Laws as SlotLaws
use pgfga.Pg.Slot.Laws.{Creates}
use pgfga.Pg.Database.Laws as DatabaseLaws
use pgfga.Pg.Database.Laws.{FromDatabases}
use pgfga.Pg.Handler.{Handler, on_primary, reconcile}

-- The statements that suit the wanted state of a cluster, with roles that AddRole and GetRole stored:
-- those of a role suit a role of the map, under its name there, and are of the four kinds that such
-- a role needs.
pub data ReconcileStatement (digest : Digest) (h : Handler) (s : Statement) : Type 0 where
  for_roles : FromRole digest h.roles s → PlainStatement s → ReconcileStatement digest h s
  for_grants : FromGrants h.grants s → ReconcileStatement digest h s
  for_databases : FromDatabases h.databases s → ReconcileStatement digest h s
  for_slots : Creates h.slots s → ReconcileStatement digest h s

pub stored_roles :
    (digest : Digest) (h : Handler)
    → AreStored h.roles
    → (s : Statement) → FromRole digest h.roles s
    → ReconcileStatement digest h s
stored_roles digest h stored s f = for_roles f (FromRole-PlainStatement digest h.roles s stored f)

module _ {C : Type 0} ⦃srv : Server C⦄ (P : Statement → Type 0) {kept : World C → Type 0}
    (allows : Allows P kept) where
  pub on_primary-Adds :
      (primary : Result Conn) (steps : List (Act C (Unit {0})))
      → Keeps kept (run_all steps)
      → Keeps kept (on_primary primary steps)
  on_primary-Adds (ok primary) steps k = Keeps-on_conn _ _ k
  on_primary-Adds (err x) steps k = Keeps-raise x

  pub reconcile-Adds :
      (digest : Digest) (h : Handler)
      → AreStored h.roles
      → ((s : Statement) → ReconcileStatement digest h s → P s)
      → Keeps kept (reconcile digest h)
  unfolding reconcile
  reconcile-Adds digest h stored suits = on_primary-Adds _ _ (
      Keeps-cons _ _
        (AllRoles.reconcile_all-Adds P allows digest h.roles
          (λ s q. suits s (stored_roles digest h stored s q)))
        (Keeps-cons _ _
          (GrantLaws.reconcile_all-Adds P allows h.grants (λ s q. suits s (for_grants q)))
          (Keeps-cons _ _
            (DatabaseLaws.reconcile_all-Adds P allows h.databases
              (λ s q. suits s (for_databases q)))
            (Keeps-cons _ _
              (SlotLaws.reconcile_all-Adds P allows h.slots (λ s q. suits s (for_slots q)))
              Keeps-nil))))
