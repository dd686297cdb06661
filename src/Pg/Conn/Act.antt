-- ===== src/Pg/Conn/Act.antt =====
-- Actions with state and errors. What was written before an error stays written. A Conn that Go
-- passes by value is a copy: what the callee does to it is lost when it returns (`by_value`).
use pgfga.Base.{ℕ, String, List, Option, none}
use pgfga.Base.Result.{Error, Result, ok, err}
use pgfga.Pg.ConnParam.{ConnParams}

-- `conn` is the number of the open session, or none for a nil pointer.
pub record Conn : Type 0 where
  pub conn_params : ConnParams
  pub conn : Option ℕ

-- NewConn
unfoldable pub new_conn : ConnParams → Conn
new_conn conn_params = record { conn_params = conn_params; conn = none }

-- A statement that was sent by Exec: to which connection string, with which arguments.
pub record Statement : Type 0 where
  pub dsn : String
  pub sql : String
  pub args : List String

-- What calls share: the cluster, and what has been asked of the server. `opened` counts the
-- sessions that were opened, which are numbered from 0; `closed` lists those that were closed;
-- `log` holds the statements sent by Exec, the last one first.
pub record World (C : Type 0) : Type 0 where
  pub cluster : C
  pub opened : ℕ
  pub closed : List ℕ
  pub log : List Statement

pub record Env (C : Type 0) : Type 0 where
  pub conn : Conn
  pub world : World C
  pub open world use *

abbrev pub Act : Type 0 → Type 0 → Type 0
Act C A = Env C → Result A × Env C

module _ {C A : Type 0} where
  unfoldable pub pure : A → Act C A
  pure a e = (ok a, e)

  unfoldable pub raise : Error → Act C A
  raise x e = (err x, e)

  -- what a pure function returned
  unfoldable pub lift : Result A → Act C A
  lift r e = (r, e)

  -- a call that changes what calls share
  abbrev pub with_world : Result A → Env C → World C → Result A × Env C
  with_world r e w = (r, record e { world = w })

  unfoldable pub by_value : Act C A → Act C A
  by_value m e = let (r, e') = m e in (r, record e' { conn = e.conn })

  -- run the action on another connection, and come back to one's own
  unfoldable pub on_conn : Conn → Act C A → Act C A
  on_conn c m e = let (r, e') = m (record e { conn = c }) in (r, record e' { conn = e.conn })

module _ {C A B : Type 0} where
  abbrev pub continue : Result A → (A → Act C B) → Act C B
  continue (ok a) f e = f a e
  continue (err x) f e = (err x, e)

  infixl 10 ◌>>=◌ ◌>>◌
  -- opening this opens `pure`, `raise` and `lift` too
  unfoldable pub ◌>>=◌ : Act C A → (A → Act C B) → Act C B
  unfolding pure raise lift
  ◌>>=◌ m f e = let (r, e') = m e in continue r f e'

  abbrev pub ◌>>◌ : Act C A → Act C B → Act C B
  m >> n = m >>= λ _. n

module _ {C : Type 0} where
  abbrev pub done : Act C (Unit {0})
  done = pure tt

  -- for _, f := range []func(Conn) error{…} { if err := f(conn); err != nil { return err } }
  unfoldable pub run_all : List (Act C (Unit {0})) → Act C (Unit {0})
  run_all List.[] = done
  run_all (List.◌∷◌ m ms) = m >> run_all ms
