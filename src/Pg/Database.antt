-- ===== src/Pg/Database.antt =====
-- pkg/pg/database.go: databases, and what is reconciled inside them over a connection of their own.
pub mod Laws
pub mod Converging
mod Tests
use Prim.Native.String.{◌++◌}
use pgfga.Base.{
  String, Bool, not, Option, none, some, List, [], ◌∷◌, ◌==◌, ◌=ℕ=◌, if◌then◌else◌, map,
}
use pgfga.Base.Result
use pgfga.Base.Result.{Result, ok, err, scan_error, owner_missing}
use pgfga.GoMap.{Map}
use pgfga.Pg.State.{State, present, absent, ◌=S=◌}
use pgfga.Pg.Quote.{identifier}
use pgfga.Pg.Server.{Server, Scans, row, no_rows, failed}
use pgfga.Pg.Conn.Act.{Act, Env, raise, lift, by_value, on_conn, done, run_all, ◌>>=◌, ◌>>◌}
use pgfga.Pg.Conn.Query.{switch_db, connect, close, ask, run_query_exists, run_query_exec}
use pgfga.Pg.Role.{zero_role, new_role}
use pgfga.Pg.Role.Actions
use pgfga.Pg.Extension
use pgfga.Pg.Extension.{Extensions}
use pgfga.Pg.Schema
use pgfga.Pg.Schema.{Schemas}

-- A nil map of extensions or schemas is none.
pub record Database : Type 0 where
  pub name : String
  pub owner : String
  pub extensions : Option Extensions
  pub schemas : Option Schemas
  pub state : State

abbrev pub Databases : Type 0
Databases = Map Database

-- NewDatabase
unfoldable pub new_database : String → String → Database
new_database name owner = record {
  name = name;
  owner = owner;
  extensions = some [];
  schemas = none;
  state = present;
}

-- Database.getOwner
unfoldable pub get_owner : Database → String
get_owner d = if d.owner == "" then d.name else d.owner

abbrev pub owner_query : String
owner_query =
    "SELECT datname\n\t\tFROM pg_database db\n\t\tINNER JOIN pg_roles rol\n\t\tON db.datdba = rol.oid\n\t\tWHERE datname = $1\n\t\tAND rolname = $2"

abbrev pub database_query : String
database_query = "SELECT datname FROM pg_database WHERE datname = $1"

abbrev pub read_only_query : String
read_only_query =
    "select distinct schemaname from pg_tables\n              where schemaname not in ('pg_catalog','information_schema')\n\t\t\t  and schemaname||'.'||tablename not in (SELECT table_schema||'.'||table_name\n                  FROM information_schema.role_table_grants\n                  WHERE grantee = $1 and privilege_type = 'SELECT')"

abbrev pub read_write_query : String
read_write_query =
    "select distinct schemaname from pg_tables\n              where schemaname not in ('pg_catalog','information_schema')\n\t\t\t  and schemaname||'.'||tablename not in (\n\t\t\t      SELECT table_schema||'.'||table_name\n                  FROM information_schema.role_table_grants\n                  WHERE grantee = $1 and privilege_type in \n\t\t\t\t    ('SELECT','INSERT','UPDATE','DELETE','TRUNCATE')\n\t\t\t\t  GROUP BY table_schema||'.'||table_name\n\t\t\t\t  HAVING COUNT(*) = 5\n\t\t\t\t  )"

abbrev pub create_sql : String → String
create_sql name = "CREATE DATABASE " ++ identifier name

abbrev pub drop_sql : String → String
drop_sql name = "DROP DATABASE " ++ identifier name

abbrev pub owner_sql : String → String → String
owner_sql name owner = "ALTER DATABASE " ++ (identifier name ++ (" OWNER TO " ++ identifier owner))

abbrev pub read_only_sql : String → String → String
read_only_sql schema role =
    "GRANT SELECT ON ALL TABLES IN SCHEMA " ++ (identifier schema ++ (" TO " ++ identifier role))

abbrev pub read_write_sql : String → String → String
read_write_sql schema role =
    "GRANT SELECT, INSERT, UPDATE, DELETE, TRUNCATE ON ALL TABLES IN SCHEMA "
    ++ (identifier schema ++ (" TO " ++ identifier role))

-- the loop that scans the schemas; an error of Scan names the query
unfoldable pub collect : String → Scans String → Result (List String)
collect query (row schema rest) =
    Result.◌>>=◌ (collect query rest) (λ schemas. ok (schema ∷ schemas))
collect query no_rows = ok []
collect query (failed _) = err (scan_error query)

module _ {C : Type 0} ⦃srv : Server C⦄ where
  -- Database.exists
  unfoldable pub exists : Database → Act C Bool
  exists d = by_value (run_query_exists database_query (d.name ∷ []))

  -- Database.create
  unfoldable pub create : Database → Act C (Unit {0})
  create d =
      if d.state =S= absent
      then done
      else by_value
          do found ← exists d; if found then done else run_query_exec (create_sql d.name) []

  -- Database.drop, but for the state of the caller's copy, which no one reads
  unfoldable pub drop : Database → Act C (Unit {0})
  drop d =
      if d.state =S= present
      then done
      else by_value do found ← exists d; if found then run_query_exec (drop_sql d.name) [] else done

  -- Database.reconcileOwner
  unfoldable pub reconcile_owner : Database → Act C (Unit {0})
  unfolding get_owner
  reconcile_owner d = by_value do
    has_proper_owner ← run_query_exists owner_query (d.name ∷ get_owner d ∷ [])
    if has_proper_owner then done else do
      owner_exists ← Actions.exists (new_role (get_owner d))
      if owner_exists
          then run_query_exec (owner_sql d.name (get_owner d)) []
          else raise owner_missing

  -- the loop over the schemas that lack grants
  unfoldable pub grant_each : (String → String) → List String → Act C (Unit {0})
  grant_each sql [] = done
  grant_each sql (schema ∷ schemas) = run_query_exec (sql schema) [] >> grant_each sql schemas

  unfoldable pub grant_missing : String → String → (String → String) → Act C (Unit {0})
  grant_missing query role sql = do
    connect
    answer ← ask query (role ∷ [])
    schemas ← lift (collect query answer)
    grant_each sql schemas

  -- Database.reconcileReadOnlyGrants
  unfoldable pub reconcile_read_only_grants : Database → Act C (Unit {0})
  unfolding grant_missing
  reconcile_read_only_grants d =
      let role = d.name ++ "_readonly" in
      grant_missing read_only_query role (λ schema. read_only_sql schema role)

  -- Database.reconcileReadWriteGrants
  unfoldable pub reconcile_read_write_grants : Database → Act C (Unit {0})
  unfolding grant_missing
  reconcile_read_write_grants d =
      let role = d.name ++ "_readwrite" in
      grant_missing read_write_query role (λ schema. read_write_sql schema role)

  abbrev pub each_extension : Option Extensions → Act C (Unit {0})
  each_extension none = done
  each_extension (some es) = Extension.reconcile_all es

  -- Database.reconcileExtensions
  unfoldable pub reconcile_extensions : Database → Act C (Unit {0})
  reconcile_extensions d = each_extension d.extensions

  abbrev pub each_schema : Option Schemas → Act C (Unit {0})
  each_schema none = done
  each_schema (some ss) = Schema.reconcile_all ss

  -- Database.reconcileSchemas
  unfoldable pub reconcile_schemas : Database → Act C (Unit {0})
  reconcile_schemas d = each_schema d.schemas

  -- a deferred call, whose own error is dropped
  unfoldable pub deferring : Act C (Unit {0}) → Act C (Unit {0}) → Act C (Unit {0})
  deferring late m e = let (r, e') = m e in (r, (late e').1)

  -- Database.reconcileDbCon
  unfoldable pub reconcile_db_con : Database → Act C (Unit {0})
  reconcile_db_con d e =
      on_conn (switch_db e.conn d.name)
        (deferring close (
          run_all (
            reconcile_read_only_grants d
            ∷ reconcile_read_write_grants d
            ∷ reconcile_extensions d
            ∷ reconcile_schemas d
            ∷ [])))
        e

  -- Database.reconcilePrimaryCon
  unfoldable pub reconcile : Database → Act C (Unit {0})
  unfolding get_owner
  reconcile d =
      if not (d.state =S= present)
      then done
      else run_all (
          Actions.create (record zero_role { name = get_owner d })
          ∷ create d
          ∷ reconcile_owner d
          ∷ reconcile_db_con d
          ∷ [])

  -- Databases.reconcile
  unfoldable pub reconcile_all : Databases → Act C (Unit {0})
  reconcile_all [] = done
  reconcile_all ((db_name, db) ∷ d) = reconcile (record db { name = db_name }) >> reconcile_all d

  -- Databases.finalize
  unfoldable pub finalize_all : Databases → Act C (Unit {0})
  finalize_all [] = done
  finalize_all ((db_name, db) ∷ d) = drop (record db { name = db_name }) >> finalize_all d
