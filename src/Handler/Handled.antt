-- ===== src/Handler/Handled.antt =====
-- PgFgaHandler.Handle of internal/handler/pgfga_handler.go as a whole, from the configuration to the
-- statements that are sent and the cluster that is left.
use pgfga.Base.{All, Bool, subst, String, ◌≡◌, refl, List}
use pgfga.Base.Result.{Result, ok, err, >>=-eq-ok, ok-injective}
use pgfga.Pg.Server.{Server}
use pgfga.Pg.Conn.Act.{Env, Statement, raise}
use pgfga.Pg.Conn.Params.{Process, db_name, as_conns}
use pgfga.Pg.Conn.Keeps.{Keeps, Keeps-raise}
use pgfga.Pg.Conn.Adds.{Adds-Allows, Adds, Sends, Keeps-Sends}
use pgfga.Pg.Role.Actions.{Digest}
use pgfga.Pg.Role.Merging.{AreStored, new_role-IsStored}
use pgfga.Pg.Handler.{reconcile, Handler, StrictOptions, new_pg_handler}
use pgfga.Pg.Handler.Converging.{reconcile-Triple, grants-Triple, created-Triple}
use pgfga.Pg.Database.Converging.{IsDatabaseServer, AllCreated}
use pgfga.Pg.Slot.Converging as Slots
use pgfga.Pg.Slot.Converging.{IsSlotServer}
use pgfga.Pg.Grant.Converging.{IsGrantServer, Holds}
use pgfga.Pg.Conn.Ensuring.{Anything}
use pgfga.Pg.Role.Facts.{Fact, IsRoleServer, AllExist}
use pgfga.Pg.Conn.Triples.{Triple, Triple-ok}
use pgfga.Pg.Handler.Steps.{ReconcileStatement, reconcile-Adds}
use pgfga.Pg.ConnParam.{ConnParams}
use pgfga.Pg.Database.{Databases}
use pgfga.Ldap.Credential.{System}
use pgfga.Ldap.Directory.{Directory}
use pgfga.Config.{FgaConfig}
use pgfga.Handler.{PgFgaHandler, new_pg_fga_handler}
use pgfga.Handler.Run.{prepare, handle, reconciled}
use pgfga.Handler.Stored.{prepare-AreStored}

-- A new handler holds the role opex alone.
pub new_pg_handler-AreStored :
    (process : Process) (conn_params : ConnParams) (options : StrictOptions) (databases : Databases)
    (slots : List String) {h : Handler}
    → new_pg_handler process conn_params options databases slots ≡ ok h
    → AreStored h.roles
unfolding new_pg_handler
new_pg_handler-AreStored process conn_params options databases slots e =
    let (default_db, _, e1) = >>=-eq-ok (db_name process _) _ e in
    let (connections, _, e2) = >>=-eq-ok (as_conns process _) _ e1 in
    subst (λ h. AreStored h.roles) (ok-injective e2) (new_role-IsStored "opex", tt)

new_pg_fga_handler-AreStored :
    (process : Process) (config : FgaConfig) {pfh : PgFgaHandler}
    → new_pg_fga_handler process config ≡ ok pfh
    → AreStored pfh.pg.roles
unfolding new_pg_fga_handler
new_pg_fga_handler-AreStored process config e =
    let (pg, made, e1) = >>=-eq-ok (new_pg_handler process _ _ _ _) _ e in
    subst (λ pfh. AreStored pfh.pg.roles) (ok-injective e1)
      (new_pg_handler-AreStored process _ _ _ _ made)

-- The handlers gave the wanted state `pfh`, and the statement suits it.
abbrev pub Suits : Digest → Result PgFgaHandler → Statement → Type 0
Suits digest prepared s =
    (pfh : PgFgaHandler) × (prepared ≡ ok pfh) × ReconcileStatement digest pfh.pg s

module _ {C : Type 0} ⦃srv : Server C⦄ (base : List Statement) (digest : Digest) where
  reconciled-Adds :
      (prepared : Result PgFgaHandler)
      → ((pfh : PgFgaHandler) → prepared ≡ ok pfh → AreStored pfh.pg.roles)
      → Keeps {C = C} (Adds (Suits digest prepared) base) (reconciled digest prepared)
  reconciled-Adds (ok pfh) stored =
      reconcile-Adds _ (Adds-Allows _ base) digest pfh.pg (stored pfh refl) (λ s q. (pfh, refl, q))
  reconciled-Adds (err x) stored = Keeps-raise x

-- A whole run, from a handler that NewPgFgaHandler made, on whatever server and whatever the
-- directory answers: nothing is sent unless the handlers succeed, and then every statement suits
-- the state that they want. It suits one of the roles of that state under its name there, and
-- creates it, switches a valid option of its map on, or takes away its expiry or its password; or
-- it suits a grant, a database that is present, or a slot of that state.
pub handle-Suits :
    {C : Type 0} ⦃srv : Server C⦄ (process : Process) (sys : System) (dir : Directory)
    (digest : Digest) (config : FgaConfig) (pfh : PgFgaHandler)
    → new_pg_fga_handler process config ≡ ok pfh
    → Sends (Suits digest (prepare sys dir config pfh)) (handle {C = C} sys dir digest config pfh)
unfolding handle
handle-Suits process sys dir digest config pfh made = Keeps-Sends _ _ (λ base.
    reconciled-Adds base digest (prepare sys dir config pfh) (λ pfh' e.
      prepare-AreStored sys dir config pfh (new_pg_fga_handler-AreStored process config made) e))

-- A run that succeeded was one of a wanted state, and what reconciling that state brings about holds.
reconciled-ok :
    {C : Type 0} ⦃srv : Server C⦄ (digest : Digest) (prepared : Result PgFgaHandler)
    (post : Handler → C → Type 0) (e : Env C)
    → ((pfh : PgFgaHandler)
        → prepared ≡ ok pfh
        → Triple
            (Anything {C = C})
            (reconcile digest pfh.pg)
            (λ _ w. post pfh.pg w.cluster)
            Anything)
    → (reconciled digest prepared e).0 ≡ ok tt
    → (wanted : PgFgaHandler) × (prepared ≡ ok wanted)
      × post wanted.pg (reconciled digest prepared e).1.cluster
unfolding raise
reconciled-ok digest (ok pfh) post e t succeeded =
    (pfh, refl, Triple-ok (reconcile digest pfh.pg) e tt (t pfh refl) tt succeeded)
reconciled-ok digest (err x) post e t succeeded = cc

-- The end of a whole run: if it succeeds, from a handler that NewPgFgaHandler made, then the
-- handlers succeeded, and each role of the state that they want exists in the cluster and has all
-- options of its map. This holds on every server whose answers about roles tell the truth, whose
-- statements that create a role or switch an option on do so unless they fail, and on which no
-- statement that suits a wanted state removes a role or switches an option off.
pub handle-AllExist :
    {C : Type 0} ⦃srv : Server C⦄ (process : Process) (sys : System) (dir : Directory)
    (digest : Digest) (config : FgaConfig) (pfh : PgFgaHandler) (holds : Fact → C → Bool)
    → ((s : Handler) → IsRoleServer (ReconcileStatement digest s) holds)
    → (e : Env C) → new_pg_fga_handler process config ≡ ok pfh
    → (handle sys dir digest config pfh e).0 ≡ ok tt
    → (wanted : PgFgaHandler) × (prepare sys dir config pfh ≡ ok wanted)
      × AllExist holds wanted.pg.roles (handle sys dir digest config pfh e).1.cluster
unfolding handle
handle-AllExist process sys dir digest config pfh holds lawful e made succeeded =
    reconciled-ok digest (prepare sys dir config pfh) (λ h. AllExist holds h.roles) e
      (λ wanted p.
        reconcile-Triple wanted.pg holds digest (lawful wanted.pg) (
          prepare-AreStored sys dir config pfh (new_pg_fga_handler-AreStored process config made)
            p))
      succeeded

-- If a whole run succeeds, then the handlers succeeded, and each grant of the state that they want,
-- unless it is absent, holds in the cluster: the one role is granted to the other. This holds on
-- every server whose answers about grants tell the truth, whose statement that grants a role does
-- so unless it fails, and on which no statement that suits a wanted state revokes a grant.
pub handle-AllHold :
    {C : Type 0} ⦃srv : Server C⦄ (sys : System) (dir : Directory) (digest : Digest)
    (config : FgaConfig) (pfh : PgFgaHandler) (has_grant : String → String → C → Bool)
    → ((s : Handler) → IsGrantServer (ReconcileStatement digest s) has_grant)
    → (e : Env C) → (handle sys dir digest config pfh e).0 ≡ ok tt
    → (wanted : PgFgaHandler) × (prepare sys dir config pfh ≡ ok wanted)
      × All (λ g. Holds has_grant g (handle sys dir digest config pfh e).1.cluster) wanted.pg.grants
unfolding handle
handle-AllHold sys dir digest config pfh has_grant lawful e succeeded =
    reconciled-ok digest (prepare sys dir config pfh)
      (λ h c. All (λ g. Holds has_grant g c) h.grants) e
      (λ wanted p. grants-Triple wanted.pg has_grant digest (lawful wanted.pg)) succeeded

-- If a whole run succeeds, then the handlers succeeded, each database of the state that they want
-- that is present exists in the cluster, and so does each replication slot of it that is not
-- absent. This holds on every server whose answers about databases and slots tell the truth, whose
-- statements that create a database or a slot do so unless they fail, on which no statement that
-- suits a wanted state drops a database, and on which creating a slot removes no other.
pub handle-AllCreated :
    {C : Type 0} ⦃srv : Server C⦄ (sys : System) (dir : Directory) (digest : Digest)
    (config : FgaConfig) (pfh : PgFgaHandler) (has_db has_slot : String → C → Bool)
    → ((s : Handler) → IsDatabaseServer (ReconcileStatement digest s) has_db)
    → IsSlotServer has_slot
    → (e : Env C) → (handle sys dir digest config pfh e).0 ≡ ok tt
    → (wanted : PgFgaHandler) × (prepare sys dir config pfh ≡ ok wanted)
      × AllCreated has_db wanted.pg.databases (handle sys dir digest config pfh e).1.cluster
      × Slots.AllExist has_slot wanted.pg.slots (handle sys dir digest config pfh e).1.cluster
unfolding handle
handle-AllCreated sys dir digest config pfh has_db has_slot databases slots e succeeded =
    let (wanted, prepared, (dbs, others)) =
      reconciled-ok digest (prepare sys dir config pfh)
        (λ h c. AllCreated has_db h.databases c × Slots.AllExist has_slot h.slots c) e
        (λ wanted p. created-Triple wanted.pg has_db has_slot digest (databases wanted.pg) slots)
        succeeded in
    (wanted, prepared, dbs, others)
