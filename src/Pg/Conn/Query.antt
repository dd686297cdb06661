-- ===== src/Pg/Conn/Query.antt =====
-- The methods of Conn that talk to the server.
use pgfga.Base.{
  ℕ, suc, String, Option, none, some, List, [], ◌∷◌, Bool, true, false, if◌then◌else◌, ◌=ℕ=◌,
}
use pgfga.Base.Result.{Result, ok, err, sql_error, field_error}
use pgfga.Pg.ConnParam
use pgfga.Pg.ConnParam.{ConnParams, conn_param_db_name}
use pgfga.GoMap.{put}
use pgfga.Pg.Server.{Server, Scans, row, no_rows, failed}
use pgfga.Pg.Conn.Act.{Conn, new_conn, Act, with_world, lift, ◌>>=◌, ◌>>◌}

abbrev pub member : ℕ → List ℕ → Bool
member n [] = false
member n (m ∷ ms) = if n =ℕ= m then true else member n ms

-- the connection string of a connection
abbrev pub dsn_of : Conn → String
dsn_of c = ConnParam.to_string (ConnParam.clone c.conn_params)

-- Conn.SwitchDB
unfoldable pub switch_db : Conn → String → Conn
unfolding new_conn
switch_db c db = new_conn (put conn_param_db_name db (ConnParam.clone c.conn_params))

abbrev pub answer_exists : Scans String → Result Bool
answer_exists (row _ _) = ok true
answer_exists no_rows = ok false
answer_exists (failed msg) = err (sql_error msg)

abbrev pub answer_field : String → Scans String → Result String
answer_field query (row answer _) = ok answer
answer_field query no_rows = err (field_error query "no rows in result set")
answer_field query (failed msg) = err (field_error query msg)

abbrev pub from_error : Option String → Result (Unit {0})
from_error none = ok tt
from_error (some msg) = err (sql_error msg)

module _ {C : Type 0} where
  abbrev opened_session : Option String → Act C (Unit {0})
  opened_session (some msg) e =
      (err (sql_error msg), record e { conn = record e.conn { conn = none } })
  opened_session none e = (
    ok tt,
    record {
      conn = record e.conn { conn = some e.opened };
      world = record e.world { opened = suc e.opened };
    },
  )

  -- pgx.Conn.Close marks the session as closed, whether or not it reports an error
  abbrev closed_session : ℕ → Option String → Act C (Unit {0})
  closed_session id answer e =
      with_world (from_error answer) e (record e.world { closed = id ∷ e.closed })

  abbrev sent : Option String × C → String → List String → Act C (Unit {0})
  sent (answer, c) sql args e = with_world (from_error answer) e (record e.world {
    cluster = c;
    log = record { dsn = dsn_of e.conn; sql = sql; args = args } ∷ e.log;
  })

module _ {C : Type 0} ⦃srv : Server C⦄ where
  unfoldable pub open_session : Act C (Unit {0})
  open_session e = opened_session (srv.connect (dsn_of e.conn) e.cluster) e

  unfoldable pub connect_held : Option ℕ → Act C (Unit {0})
  unfolding open_session
  connect_held none e = open_session e
  connect_held (some id) e = if member id e.closed then open_session e else (ok tt, e)

  -- Conn.Connect
  unfoldable pub connect : Act C (Unit {0})
  unfolding connect_held
  connect e = connect_held e.conn.conn e

  -- Conn.Close
  unfoldable pub close : Act C (Unit {0})
  close e = elim e.conn.conn [
    | none ↦ (ok tt, e)
    | some id ↦
        if member id e.closed
        then (ok tt, e)
        else closed_session id (srv.disconnect (dsn_of e.conn) e.cluster) e
  ]

  -- QueryRow and the first Scan, into one text
  unfoldable pub ask : String → List String → Act C (Scans String)
  ask query args e = (ok (srv.query (dsn_of e.conn) query args e.cluster), e)

  -- the same, into two texts
  unfoldable pub ask_pair : String → List String → Act C (Scans (String × String))
  ask_pair query args e = (ok (srv.query_pair (dsn_of e.conn) query args e.cluster), e)

  unfoldable pub send : String → List String → Act C (Unit {0})
  send query args e = sent (srv.exec (dsn_of e.conn) query args e.cluster) query args e

  -- Conn.runQueryExists
  unfoldable pub run_query_exists : String → List String → Act C Bool
  unfolding connect ask
  run_query_exists query args = do connect; answer ← ask query args; lift (answer_exists answer)

  -- Conn.runQueryExec
  unfoldable pub run_query_exec : String → List String → Act C (Unit {0})
  unfolding connect send
  run_query_exec query args = do connect; send query args

  -- Conn.runQueryGetOneField
  unfoldable pub run_query_get_one_field : String → List String → Act C String
  unfolding connect ask
  run_query_get_one_field query args = do
    connect
    answer ← ask query args
    lift (answer_field query answer)
