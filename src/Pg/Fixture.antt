-- ===== src/Pg/Fixture.antt =====
-- A small cluster, roles and databases, for the tests.
use pgfga.Base.{String, true, false, none, some, List, [], ◌∷◌, ◌==◌, if◌then◌else◌}
use pgfga.Pg.State.{present, absent}
use pgfga.Pg.Server.{Server, Scans, row, no_rows}
use pgfga.Pg.Conn.Act.{Env}
use pgfga.Pg.Role.{Role, Roles, zero_role}
use pgfga.Pg.Role.Actions.{Digest}
use pgfga.Pg.Grant.{Grant}
use pgfga.Pg.Slot.{Slots}
use pgfga.Pg.Schema.{Schemas}
use pgfga.Pg.Extension.{Extensions}
use pgfga.Pg.Database.{Databases}

-- The cluster is the list of the names that exist: a query finds the name that is its first argument.
abbrev answer : List String → List String → Scans String
answer [] args = no_rows
answer names [] = no_rows
answer (name ∷ names) (arg ∷ args) =
    if name == arg then row name no_rows else answer names (arg ∷ args)

instance abbrev pub names_server : Server (List String)
names_server = record {
  connect = λ dsn names. none;
  disconnect = λ dsn names. none;
  query = λ dsn sql args names. answer names args;
  query_pair = λ dsn sql args names. no_rows;
  exec = λ dsn sql args names. (none, names);
}

abbrev pub no_digest : Digest
no_digest = record { md5_hex = λ s. s }

abbrev pub start : Env (List String)
start = record {
  conn = record { conn_params = ("host", "db1") ∷ []; conn = none };
  world = record { cluster = "opex" ∷ []; opened = 1; closed = 0 ∷ []; log = [] };
}

abbrev pub app : Role
app = record zero_role { name = "app"; options = some (("LOGIN", true) ∷ []) }

abbrev pub report : Role
report = record zero_role {
  name = "report";
  options = some (("NOLOGIN", false) ∷ []);
  state = absent;
  password = "secret";
}

abbrev pub roles : Roles
roles = ("app", app) ∷ []

abbrev pub grants : List Grant
grants = record { grantee = app; granted = report; state = present } ∷ []

abbrev pub slots : Slots
slots =
    ("standby1", record { name = "standby1"; state = present })
    ∷ ("standby2", record { name = "standby2"; state = absent })
    ∷ []

abbrev pub schemas : Schemas
schemas =
    ("sales", record { name = ""; owner = "app"; state = present })
    ∷ ("old", record { name = ""; owner = ""; state = absent })
    ∷ []

abbrev pub extensions : Extensions
extensions =
    ("pgcrypto", record { name = ""; schema = "sales"; state = present; version = "1.3" }) ∷ []

abbrev pub databases : Databases
databases =
    (
      "shop",
      record {
        name = "";
        owner = "app";
        extensions = some extensions;
        schemas = some schemas;
        state = present;
      },
    )
    ∷ []
