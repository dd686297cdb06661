-- ===== src/Pg/Extension.antt =====
-- pkg/pg/extension.go: extensions of a database.
pub mod Laws
use Prim.Native.String.{◌++◌}
use pgfga.Base.{String, Bool, not, List, [], ◌∷◌, ◌==◌, ◌=ℕ=◌, if◌then◌else◌}
use pgfga.Base.Result.{extension_unavailable, version_unavailable}
use pgfga.GoMap.{Map}
use pgfga.Pg.State.{State, present, absent, ◌=S=◌}
use pgfga.Pg.Quote.{identifier, quoted_sql_value}
use pgfga.Pg.Server.{Server}
use pgfga.Pg.Conn.Act.{Act, raise, done, run_all, ◌>>=◌, ◌>>◌}
use pgfga.Pg.Conn.Query.{run_query_exists, run_query_exec, run_query_get_one_field}
use pgfga.Pg.Schema
use pgfga.Pg.Schema.{zero_schema}

pub record Extension : Type 0 where
  pub name : String
  pub schema : String
  pub state : State
  pub version : String

abbrev pub Extensions : Type 0
Extensions = Map Extension

abbrev pub available_query : String
available_query = "SELECT name FROM pg_available_Extensions WHERE name = $1"

abbrev pub version_query : String
version_query = "SELECT name FROM pg_available_Extension_versions WHERE name = $1 AND version = $2"

abbrev pub extension_query : String
extension_query = "SELECT extname FROM pg_Extension WHERE extname = $1"

abbrev pub current_version_query : String
current_version_query = "SELECT extversion FROM pg_Extension WHERE extname = $1"

abbrev pub current_schema_query : String
current_schema_query =
    "SELECT pg_namespace.nspname \n\t\t\t\tFROM pg_Extension INNER JOIN pg_namespace\n\t\t\t\tON extnamespace = pg_namespace.oid\n\t\t\t\tWHERE extname = $1;"

abbrev pub drop_sql : String → String
drop_sql name = "DROP EXTENSION IF EXISTS " ++ identifier name

-- createQry, with the parts that are there
abbrev pub create_sql : Extension → String
create_sql e =
    "CREATE EXTENSION IF NOT EXISTS "
    ++ (identifier e.name
        ++ ((if e.schema == "" then "" else " SCHEMA " ++ identifier e.schema)
            ++ (if e.version == "" then "" else " VERSION " ++ identifier e.version)))

abbrev pub update_sql : String → String → String
update_sql name version =
    "ALTER EXTENSION " ++ (identifier name ++ (" UPDATE TO " ++ quoted_sql_value version))

abbrev pub schema_sql : String → String → String
schema_sql name schema =
    "ALTER EXTENSION " ++ (identifier name ++ (" SET SCHEMA " ++ identifier schema))

module _ {C : Type 0} ⦃srv : Server C⦄ where
  -- Extension.exists
  unfoldable pub exists : Extension → Act C Bool
  exists e = run_query_exists extension_query (e.name ∷ [])

  -- Extension.available
  unfoldable pub available : Extension → Act C Bool
  available e = run_query_exists available_query (e.name ∷ [])

  -- Extension.versionAvailable
  unfoldable pub version_available : Extension → Act C Bool
  version_available e = run_query_exists version_query (e.name ∷ e.version ∷ [])

  -- Extension.drop: whether the extension exists is only logged
  unfoldable pub drop : Extension → Act C (Unit {0})
  drop e =
      if not (e.state =S= absent)
      then done
      else do _ ← exists e; run_query_exec (drop_sql e.name) []

  -- the check of the version in Extension.create
  unfoldable pub check_version : Extension → Act C (Unit {0})
  check_version e = if e.version == "" then done else do
    there ← version_available e
    if there then done else raise (version_unavailable e.version e.name)

  -- Extension.create
  unfoldable pub create : Extension → Act C (Unit {0})
  create e = if not (e.state =S= present) then done else do
    there ← available e
    if not there then raise (extension_unavailable e.name) else do
      check_version e
      found ← exists e
      if found then done else do
        if e.schema == "" then done else Schema.create (record zero_schema { name = e.schema })
        run_query_exec (create_sql e) []

  -- Extension.currentVersion
  unfoldable pub current_version : Extension → Act C String
  current_version e = run_query_get_one_field current_version_query (e.name ∷ [])

  -- Extension.reconcileVersion
  unfoldable pub reconcile_version : Extension → Act C (Unit {0})
  reconcile_version e =
      if not (e.state =S= present) then done else if e.version == "" then done else do
        version ← current_version e
        if version == e.version then done else run_query_exec (update_sql e.name e.version) []

  -- Extension.currentSchema
  unfoldable pub current_schema : Extension → Act C String
  current_schema e = run_query_get_one_field current_schema_query (e.name ∷ [])

  -- Extension.reconcileSchema
  unfoldable pub reconcile_schema : Extension → Act C (Unit {0})
  reconcile_schema e =
      if not (e.state =S= present) then done else if e.schema == "" then done else do
        schema ← current_schema e
        if schema == e.schema then done else do
          Schema.create (record zero_schema { name = e.schema })
          run_query_exec (schema_sql e.name e.schema) []

  -- Extension.reconcile
  unfoldable pub reconcile : Extension → Act C (Unit {0})
  reconcile e = run_all (create e ∷ drop e ∷ reconcile_schema e ∷ reconcile_version e ∷ [])

  -- Extensions.reconcile
  unfoldable pub reconcile_all : Extensions → Act C (Unit {0})
  reconcile_all [] = done
  reconcile_all ((ext_name, ext) ∷ es) =
      reconcile (record ext { name = ext_name }) >> reconcile_all es
