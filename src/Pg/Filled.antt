-- ===== src/Pg/Filled.antt =====
-- A cluster that is empty until the first statement, and then holds everything.
use pgfga.Base.{sym, String, ◌≡◌, refl, Bool, true, false, none, List, []}
use pgfga.Base.Result.{ok, ok-injective}
use pgfga.Pg.Server.{Server, Scans, row, no_rows}
use pgfga.Pg.Conn.Act.{Statement, Env}
use pgfga.Pg.Conn.Query.{answer_exists}
use pgfga.Pg.Conn.Ensuring.{IsEnsuring}
use pgfga.Pg.Slot.Converging.{IsSlotServer}
use pgfga.Pg.Role.Facts.{IsRoleServer}
use pgfga.Pg.Grant.Converging.{IsGrantServer}
use pgfga.Pg.Database.Converging.{IsDatabaseServer}

abbrev answer : Bool → Scans String
answer true = row "" no_rows
answer false = no_rows

instance abbrev pub filled_server : Server Bool
filled_server = record {
  connect = λ dsn filled. none;
  disconnect = λ dsn filled. none;
  query = λ dsn sql args filled. answer filled;
  query_pair = λ dsn sql args filled. no_rows;
  exec = λ dsn sql args filled. (none, true);
}

abbrev pub empty_cluster : Env Bool
empty_cluster = record {
  conn = record { conn_params = []; conn = none };
  world = record { cluster = false; opened = 0; closed = []; log = [] };
}

answer-finds : (filled b : Bool) → answer_exists (answer filled) ≡ ok b → b ≡ filled
answer-finds true b e = sym (ok-injective e)
answer-finds false b e = sym (ok-injective e)

ensuring :
    (query : String) (asked : List String) (sql : String) (args : List String)
    → IsEnsuring {C = Bool} query asked sql args (λ filled. filled)
ensuring query asked sql args = record {
  finds = λ dsn filled b e. answer-finds filled b e;
  creates = λ dsn filled e. refl;
}

pub filled-IsSlotServer : IsSlotServer {C = Bool} (λ name filled. filled)
filled-IsSlotServer = record {
  ensures = λ name. ensuring _ _ _ _;
  spares = λ name other dsn filled h. refl;
}

pub filled-IsRoleServer :
    (P : Statement → Type 0) → IsRoleServer {C = Bool} P (λ fact filled. filled)
filled-IsRoleServer P = record {
  creates = λ name. ensuring _ _ _ _;
  alters = λ name opt on. ensuring _ _ _ _;
  spares = λ s fact p positive dsn filled h. refl;
}

pub filled-IsGrantServer :
    (P : Statement → Type 0) → IsGrantServer {C = Bool} P (λ granted grantee filled. filled)
filled-IsGrantServer P = record {
  ensures = λ granted grantee. ensuring _ _ _ _;
  spares = λ s granted grantee p dsn filled h. refl;
}

pub filled-IsDatabaseServer :
    (P : Statement → Type 0) → IsDatabaseServer {C = Bool} P (λ name filled. filled)
filled-IsDatabaseServer P = record {
  ensures = λ name. ensuring _ _ _ _;
  spares = λ s name p dsn filled h. refl;
}
