-- ===== src/Pg/Schema.antt =====
-- pkg/pg/schema.go: schemas of a database. The methods take a *Conn, so that the session which one
-- of them opens is used by the next.
pub mod Laws
use Prim.Native.String.{◌++◌}
use pgfga.Base.{String, Bool, List, [], ◌∷◌, ◌==◌, ◌=ℕ=◌, if◌then◌else◌}
use pgfga.GoMap.{Map}
use pgfga.Pg.State.{State, present, absent, ◌=S=◌}
use pgfga.Pg.Quote.{identifier}
use pgfga.Pg.Server.{Server}
use pgfga.Pg.Conn.Act.{Act, done, run_all, ◌>>=◌, ◌>>◌}
use pgfga.Pg.Conn.Query.{run_query_exists, run_query_exec, run_query_get_one_field}
use pgfga.Pg.Role.{zero_role}
use pgfga.Pg.Role.Actions

pub record Schema : Type 0 where
  pub name : String
  pub owner : String
  pub state : State

abbrev pub Schemas : Type 0
Schemas = Map Schema

-- Schema{}
abbrev pub zero_schema : Schema
zero_schema = record { name = ""; owner = ""; state = present }

abbrev pub schema_query : String
schema_query = "SELECT nspname FROM pg_namespace WHERE nspname = $1"

abbrev pub owner_query : String
owner_query =
    "SELECT rolname FROM pg_roles\n\t\tWHERE oid IN (\n\t\t  SELECT nspowner FROM pg_namespace WHERE nspname = $1)"

abbrev pub create_sql : String → String
create_sql name = "CREATE SCHEMA " ++ identifier name

abbrev pub drop_sql : String → String
drop_sql name = "DROP SCHEMA " ++ identifier name

abbrev pub owner_sql : String → String → String
owner_sql name owner = "ALTER SCHEMA " ++ (identifier name ++ (" OWNER TO " ++ identifier owner))

module _ {C : Type 0} ⦃srv : Server C⦄ where
  -- Schema.exists
  unfoldable pub exists : Schema → Act C Bool
  exists s = run_query_exists schema_query (s.name ∷ [])

  -- Schema.create
  unfoldable pub create : Schema → Act C (Unit {0})
  create s =
      if s.state =S= absent
      then done
      else do found ← exists s; if found then done else run_query_exec (create_sql s.name) []

  -- Schema.drop
  unfoldable pub drop : Schema → Act C (Unit {0})
  drop s =
      if s.state =S= present
      then done
      else do found ← exists s; if found then run_query_exec (drop_sql s.name) [] else done

  -- Schema.currentOwner
  unfoldable pub current_owner : Schema → Act C String
  current_owner s = run_query_get_one_field owner_query (s.name ∷ [])

  -- Schema.reconcileOwner
  unfoldable pub reconcile_owner : Schema → Act C (Unit {0})
  reconcile_owner s = if s.state =S= absent then done else if s.owner == "" then done else do
    owner ← current_owner s
    if owner == s.owner then done else do
      Actions.create (record zero_role { name = s.owner })
      run_query_exec (owner_sql s.name s.owner) []

  -- Schema.reconcile
  unfoldable pub reconcile : Schema → Act C (Unit {0})
  reconcile s = run_all (create s ∷ drop s ∷ reconcile_owner s ∷ [])

  -- Schemas.reconcile
  unfoldable pub reconcile_all : Schemas → Act C (Unit {0})
  reconcile_all [] = done
  reconcile_all ((schema_name, schema) ∷ ss) =
      reconcile (record schema { name = schema_name }) >> reconcile_all ss
