-- ===== src/Pg/Handler/Converging.antt =====
-- On a server that keeps track of what it holds, Reconcile makes the wanted ones exist.
use pgfga.Base.{String, Bool, List, [], ◌∷◌, All}
use pgfga.Base.Result.{Result, ok, err}
use pgfga.Pg.Server.{Server}
use pgfga.Pg.Conn.Act.{Conn, World, Act, run_all}
use pgfga.Pg.Conn.Keeps.{Keeps}
use pgfga.Pg.Conn.Adds.{Keeps-cons, Keeps-nil}
use pgfga.Pg.Conn.Triples.{
  Triple, Triple-mono, Triple-on_conn, Triple-raise, Triple-cons, Triple-any, Triple-bind,
  Triple-pure,
}
use pgfga.Pg.Conn.Ensuring.{Anything}
use pgfga.Pg.Role.Actions.{Digest}
use pgfga.Pg.Role.Actions
use pgfga.Pg.Role.Merging.{AreStored}
use pgfga.Pg.Role.Facts.{Fact, IsRoleServer, AllExist}
use pgfga.Pg.Role.Converging.{AllExist-Allows, reconcile_all-Triple}
use pgfga.Pg.Grant
use pgfga.Pg.Grant.Laws as GrantLaws
use pgfga.Pg.Grant.Converging as GrantConverging
use pgfga.Pg.Grant.Converging.{IsGrantServer, Holds, AllHold-Allows}
use pgfga.Pg.Slot
use pgfga.Pg.Slot.Laws as SlotLaws
use pgfga.Pg.Database
use pgfga.Pg.Database.Laws as DatabaseLaws
use pgfga.Pg.Database.Converging as DatabaseConverging
use pgfga.Pg.Database.Converging.{IsDatabaseServer, AllCreated, AllCreated-Allows}
use pgfga.Pg.Slot.Converging as SlotConverging
use pgfga.Pg.Slot.Converging.{IsSlotServer}
use pgfga.Pg.Handler.{Handler, on_primary, reconcile}
use pgfga.Pg.Handler.Steps.{ReconcileStatement, stored_roles, for_grants, for_databases, for_slots}

module _ {C : Type 0} ⦃srv : Server C⦄ where
  on_primary-Triple :
      (primary : Result Conn) (steps : List (Act C (Unit {0}))) (post : World C → Type 0)
      → Triple (Anything {C = C}) (run_all steps) (λ _. post) Anything
      → Triple (Anything {C = C}) (on_primary primary steps) (λ _. post) Anything
  on_primary-Triple (ok primary) steps post t = Triple-on_conn primary (run_all steps) t
  on_primary-Triple (err x) steps post t = Triple-raise x (λ w _. tt)

module _ {C : Type 0} ⦃srv : Server C⦄ (h : Handler) (holds : Fact → C → Bool) (digest : Digest)
    (lawful : IsRoleServer (ReconcileStatement digest h) holds) (stored : AreStored h.roles) where
  after_roles-Keeps :
      Keeps
        (λ w. AllExist holds h.roles w.cluster)
        (run_all (
          Grant.reconcile_all {C = C} h.grants
          ∷ Database.reconcile_all h.databases
          ∷ Slot.reconcile_all h.slots
          ∷ []))
  after_roles-Keeps =
      let P = ReconcileStatement digest h in
      let allows =
        AllExist-Allows P holds lawful digest h.roles (stored_roles digest h stored) stored in
      Keeps-cons _ _ (GrantLaws.reconcile_all-Adds P allows h.grants (λ s. for_grants)) (
        Keeps-cons _ _ (DatabaseLaws.reconcile_all-Adds P allows h.databases (λ s. for_databases)) (
          Keeps-cons _ _ (SlotLaws.reconcile_all-Adds P allows h.slots (λ s. for_slots)) Keeps-nil))

  pub reconcile-Triple :
      Triple
        (Anything {C = C})
        (reconcile digest h)
        (λ _ w. AllExist holds h.roles w.cluster)
        Anything
  unfolding reconcile
  reconcile-Triple = on_primary-Triple _ _ _ (
      Triple-mono _ _ _
        (Triple-cons (Actions.reconcile_all digest h.roles) _
          (reconcile_all-Triple (ReconcileStatement digest h) holds lawful digest h.roles
            (stored_roles digest h stored) stored)
          (Triple-any _) after_roles-Keeps)
        (λ w _. tt) (λ _ w k. k.0))

module _ {C : Type 0} ⦃srv : Server C⦄ (h : Handler) (has_grant : String → String → C → Bool)
    (digest : Digest) (lawful : IsGrantServer (ReconcileStatement digest h) has_grant) where
  after_grants-Keeps :
      Keeps
        (λ w. All (λ g. Holds has_grant g w.cluster) h.grants)
        (run_all (Database.reconcile_all {C = C} h.databases ∷ Slot.reconcile_all h.slots ∷ []))
  after_grants-Keeps =
      let P = ReconcileStatement digest h in
      let allows = AllHold-Allows P has_grant lawful h.grants in
      Keeps-cons _ _ (DatabaseLaws.reconcile_all-Adds P allows h.databases (λ s. for_databases))
        (Keeps-cons _ _ (SlotLaws.reconcile_all-Adds P allows h.slots (λ s. for_slots)) Keeps-nil)

  pub grants-Triple :
      Triple
        (Anything {C = C})
        (reconcile digest h)
        (λ _ w. All (λ g. Holds has_grant g w.cluster) h.grants)
        Anything
  unfolding reconcile run_all
  grants-Triple = on_primary-Triple _ _ _ (
      Triple-bind _ _ (Triple-any _) λ _.
        Triple-mono _ _ _
          (Triple-cons (Grant.reconcile_all h.grants)
            (Database.reconcile_all h.databases ∷ Slot.reconcile_all h.slots ∷ [])
            (GrantConverging.reconcile_all-Triple (ReconcileStatement digest h) has_grant lawful
              h.grants (λ s. for_grants))
            (Triple-any _) after_grants-Keeps)
          (λ w _. tt) (λ _ w k. k.0))

module _ {C : Type 0} ⦃srv : Server C⦄ (h : Handler) (has_db has_slot : String → C → Bool)
    (digest : Digest) (databases : IsDatabaseServer (ReconcileStatement digest h) has_db)
    (slots : IsSlotServer has_slot) where
  pub created-Triple :
      Triple
        (Anything {C = C})
        (reconcile digest h)
        (λ _ w.
          AllCreated has_db h.databases w.cluster
          × SlotConverging.AllExist has_slot h.slots w.cluster)
        Anything
  unfolding reconcile run_all
  created-Triple =
      let P = ReconcileStatement digest h in
      on_primary-Triple _ _ _ (
        Triple-bind _ _ (Triple-any _) λ _. Triple-bind _ _ (Triple-any _) λ _.
          Triple-mono _ _ _
            (Triple-cons (Database.reconcile_all h.databases) (Slot.reconcile_all h.slots ∷ [])
              (DatabaseConverging.reconcile_all-Triple P has_db databases h.databases
                (λ s. for_databases))
              (Triple-bind _ _ (SlotConverging.reconcile_all-Triple has_slot slots h.slots)
                (λ _. Triple-pure tt (λ w k. k)))
              (Keeps-cons _ []
                (SlotLaws.reconcile_all-Adds P (AllCreated-Allows P has_db databases h.databases)
                  h.slots (λ s. for_slots))
                Keeps-nil))
            (λ w _. tt) (λ _ w k. k))
