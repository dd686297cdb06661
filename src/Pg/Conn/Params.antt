-- ===== src/Pg/Conn/Params.antt =====
-- The names that a connection goes by: Conn.DBName, Conn.UserName and Conn.AsConns. The process
-- environment and the account database are an argument.
use pgfga.Base.{String, Option, none, some, [], ◌∷◌, ◌==◌, if◌then◌else◌}
use pgfga.Base.Result.{Result, ok, err, panicked, ◌>>=◌}
use pgfga.GoMap.{Map, lookup}
use pgfga.Pg.Conn.Act.{Conn}

-- os.Getenv, which is empty for a variable that is not set; user.Current, or none for its error
pub record Process : Type 0 where
  pub getenv : String → String
  pub current_user : Option String

abbrev current_name : Option String → Result String
current_name none = err (panicked "cannot determine current user")
current_name (some name) = ok name

abbrev given_or : Option String → Result String → Result String
given_or (some value) other = ok value
given_or none other = other

module _ (process : Process) where
  abbrev env_or : String → Result String → Result String
  env_or variable other =
      let value = process.getenv variable in if value == "" then other else ok value

  -- Conn.UserName
  unfoldable pub user_name : Conn → Result String
  unfolding lookup
  user_name c =
      given_or (lookup "user" c.conn_params) (env_or "PGUSER" (current_name process.current_user))

  -- Conn.DBName
  unfoldable pub db_name : Conn → Result String
  unfolding user_name
  db_name c = given_or (lookup "dbname" c.conn_params) (env_or "PGDATABASE" (user_name c))

  -- Conn.AsConns
  unfoldable pub as_conns : Conn → Result (Map Conn)
  unfolding db_name
  as_conns c = do name ← db_name c; ok ((name, c) ∷ [])
