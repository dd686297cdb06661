-- ===== src/Pg/Handler.antt =====
-- pkg/pg/handler.go and strict_options.go: the wanted state of a cluster, and its reconciliation.
pub mod Stored
pub mod Steps
pub mod Finalizing
pub mod Converging
use pgfga.Base.{String, Bool, Option, none, some, List, [], ◌∷◌, ◌++◌}
use pgfga.Base.Result
use pgfga.Base.Result.{Result, ok, err, panicked}
use pgfga.GoMap.{Map, lookup, put, put_all}
use pgfga.Pg.State.{present}
use pgfga.Pg.ConnParam
use pgfga.Pg.ConnParam.{ConnParams}
use pgfga.Pg.Server.{Server}
use pgfga.Pg.Conn.Act.{Conn, new_conn, Act, raise, on_conn, run_all}
use pgfga.Pg.Conn.Params.{Process, db_name, as_conns}
use pgfga.Pg.Role.{Role, Roles, new_role}
use pgfga.Pg.Role.Actions
use pgfga.Pg.Role.Actions.{Digest}
use pgfga.Pg.Grant
use pgfga.Pg.Grant.{Grant}
use pgfga.Pg.Slot
use pgfga.Pg.Slot.{Slots}
use pgfga.Pg.Database
use pgfga.Pg.Database.{Databases}

-- StrictOptions, which nothing reads
pub record StrictOptions : Type 0 where
  pub users : Bool
  pub databases : Bool
  pub extensions : Bool
  pub slots : Bool

pub record Handler : Type 0 where
  pub default_db : String
  pub connections : Map Conn
  pub strict_options : StrictOptions
  pub databases : Databases
  pub roles : Roles
  pub grants : List Grant
  pub slots : Slots

-- Handler.setDefaults: the loops set the names of copies, so nothing changes
unfoldable pub set_defaults : Handler → Handler
set_defaults h = h

-- NewPgHandler
unfoldable pub new_pg_handler :
    Process → ConnParams → StrictOptions → Databases → List String → Result Handler
unfolding set_defaults
new_pg_handler process conn_params options databases slots =
    let connection = new_conn (ConnParam.clone conn_params) in
    Result.◌>>=◌ (db_name process connection) λ default_db.
      Result.◌>>=◌ (as_conns process connection) λ connections. ok (
        set_defaults (record {
          default_db = default_db;
          connections = connections;
          strict_options = options;
          databases = databases;
          roles = ("opex", new_role "opex") ∷ [];
          grants = [];
          slots = put_all (λ name. name) (λ name. record { name = name; state = present }) [] slots;
        }))

abbrev primary_or_panic : Option Conn → Result Conn
primary_or_panic none =
    err (
      panicked
        "we should have a default database connection by now, but it does not seem to be set")
primary_or_panic (some c) = ok c

-- Handler.getPrimaryConnection
unfoldable pub get_primary_connection : Handler → Result Conn
get_primary_connection h = primary_or_panic (lookup h.default_db h.connections)

abbrev pub got : Handler → String → Option Role → Role × Handler
got h role_name (some r) = (r, h)
got h role_name none =
    (new_role role_name, record h { roles = put role_name (new_role role_name) h.roles })

-- Handler.GetRole
unfoldable pub get_role : Handler → String → Role × Handler
get_role h role_name = got h role_name (lookup role_name h.roles)

-- Handler.Grant
unfoldable pub grant : Handler → String → String → Handler
grant h grantee granted =
    let (granted_role, h1) = get_role h granted in
    let (grantee_role, h2) = get_role h1 grantee in
    record h2 {
      grants =
          h2.grants
          ++ record { grantee = grantee_role; granted = granted_role; state = present } ∷ [];
    }

module _ {C : Type 0} ⦃srv : Server C⦄ where
  abbrev on_primary : Result Conn → List (Act C (Unit {0})) → Act C (Unit {0})
  on_primary (ok primary) steps = on_conn primary (run_all steps)
  on_primary (err x) steps = raise x

  -- Handler.Reconcile
  unfoldable pub reconcile : Digest → Handler → Act C (Unit {0})
  reconcile digest h = on_primary (get_primary_connection h) (
      Actions.reconcile_all digest h.roles
      ∷ Grant.reconcile_all h.grants
      ∷ Database.reconcile_all h.databases
      ∷ Slot.reconcile_all h.slots
      ∷ [])

  -- Handler.Finalize
  unfoldable pub finalize : Handler → Act C (Unit {0})
  finalize h = on_primary (get_primary_connection h) (
      Database.finalize_all h.databases
      ∷ Grant.finalize_all h.grants
      ∷ Actions.finalize_all h.roles
      ∷ Slot.finalize_all h.slots
      ∷ [])
