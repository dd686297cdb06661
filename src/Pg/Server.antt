-- ===== src/Pg/Server.antt =====
-- What the program asks of pgx and of the PostgreSQL server behind it. They are not part of the
-- program: the server is an argument of everything that talks to it.
use pgfga.Base.{String, List, Option}

-- What calling Scan again and again on one pgx.Row gives, until a call gives no row.
pub data Scans (A : Type 0) : Type 0 where
  row : A → Scans A → Scans A
  no_rows : Scans A
  failed : String → Scans A

-- `C` is the state of the cluster. Every call names the connection string of its session. A text
-- in an answer is an error's message. `query` and `query_pair` are QueryRow, whose rows are scanned
-- into one text or into two.
pub record Server (C : Type 0) : Type 0 where
  pub connect : String → C → Option String
  pub disconnect : String → C → Option String
  pub query : String → String → List String → C → Scans String
  pub query_pair : String → String → List String → C → Scans (String × String)
  pub exec : String → String → List String → C → Option String × C
