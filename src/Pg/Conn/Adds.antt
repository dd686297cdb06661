-- ===== src/Pg/Conn/Adds.antt =====
-- Which statements an action sends: those that it adds to the log all have a property, whether it
-- succeeds or fails.
use pgfga.Base.{
  ℕ, Option-cases, Bool-cases, inl, inr, String, ◌≡◌, refl, List, [], ◌∷◌, ◌++◌, All, ap,
}
use pgfga.Pg.Server.{Server}
use pgfga.Pg.Conn.Act.{Statement, World, Env, Act, run_all}
use pgfga.Pg.Conn.Query.{
  close, member, run_query_exists, run_query_exec, run_query_get_one_field, connect, ask,
}
use pgfga.Pg.Conn.Keeps.{
  Keeps, Keeps-pure, Keeps-raise, Keeps-lift, Keeps-by_value, Keeps-on_conn, Keeps-if, Keeps-bind,
  Opens, Keeps-exec, Keeps-exists, Keeps-get_one_field, Keeps-connect, Keeps-ask, Keeps-ask_pair,
  after_send,
}

-- The log is `base` with new statements in front, each with the property.
pub record Adds {C : Type 0} (P : Statement → Type 0) (base : List Statement) (w : World C)
    : Type 0 where
  pub new : List Statement
  pub logged : w.log ≡ new ++ base
  pub each : All P new

-- What is kept by opening and closing sessions, and by the statements with the property: a client
-- that only sends such statements keeps it.
pub record Allows {C : Type 0} ⦃srv : Server C⦄ (P : Statement → Type 0) (kept : World C → Type 0)
    : Type 0 where
  pub opens : Opens kept
  pub closes : (w : World C) (ids : List ℕ) → kept w → kept (record w { closed = ids })
  pub sending :
      (s : Statement) (w : World C) → P s → kept w → kept (after_send s.dsn s.sql s.args w)

pub Adds-Allows :
    {C : Type 0} ⦃srv : Server C⦄ (P : Statement → Type 0) (base : List Statement)
    → Allows {C = C} P (Adds P base)
Adds-Allows P base = record {
  opens = record { opens = λ w n h. record { new = h.new; logged = h.logged; each = h.each } };
  closes = λ w ids h. record { new = h.new; logged = h.logged; each = h.each };
  sending =
      λ s w p h. record { new = s ∷ h.new; logged = ap (λ l. s ∷ l) h.logged; each = (p, h.each) };
}

-- Nothing is added at the start.
pub Adds-start : {C : Type 0} (P : Statement → Type 0) (w : World C) → Adds P w.log w
Adds-start P w = record { new = []; logged = refl; each = tt }

-- What an action adds, put as a statement about one run of it.
pub record Sends {C A : Type 0} (P : Statement → Type 0) (m : Act C A) : Type 0 where
  pub sends : (e : Env C) → Adds P e.log (m e).1.world

module _ {C A : Type 0} (P : Statement → Type 0) (m : Act C A) where
  pub Keeps-Sends : ((base : List Statement) → Keeps (Adds P base) m) → Sends P m
  Keeps-Sends k = record { sends = λ e. (k e.log).at e (Adds-start P e.world) }

-- The statement with this text and no arguments has the property, on whatever connection.
abbrev pub Sent : (Statement → Type 0) → String → Type 0
Sent P sql = (dsn : String) → P (record { dsn = dsn; sql = sql; args = [] })

module _ {C : Type 0} ⦃srv : Server C⦄ (P : Statement → Type 0) {kept : World C → Type 0}
    (allows : Allows P kept) where
  pub Adds-get_one_field :
      (sql : String) (args : List String) → Keeps kept (run_query_get_one_field sql args)
  Adds-get_one_field = Keeps-get_one_field allows.opens

  pub Adds-connect : Keeps kept connect
  Adds-connect = Keeps-connect allows.opens

  pub Adds-close : Keeps kept close
  unfolding close
  Adds-close = record {
    at = λ e h. elim (Option-cases e.conn.conn) [
      | inl unconnected ↦ rw unconnected h
      | inr (id, held) ↦ elim (Bool-cases (member id e.closed)) [
        | inl gone ↦ rw held (rw gone h)
        | inr live ↦ rw held (rw live (allows.closes e.world (id ∷ e.closed) h))
      ]
    ];
  }

  pub Adds-ask : (sql : String) (args : List String) → Keeps kept (ask sql args)
  Adds-ask = Keeps-ask allows.opens

  pub Adds-exec :
      (sql : String) (args : List String)
      → ((dsn : String) → P (record { dsn = dsn; sql = sql; args = args }))
      → Keeps kept (run_query_exec sql args)
  Adds-exec sql args p =
      Keeps-exec allows.opens sql args
        (λ dsn w h. allows.sending (record { dsn = dsn; sql = sql; args = args }) w (p dsn) h)

  pub Adds-exists : (sql : String) (args : List String) → Keeps kept (run_query_exists sql args)
  Adds-exists = Keeps-exists allows.opens

module _ {C : Type 0} {P : World C → Type 0} where
  pub Keeps-nil : Keeps {C = C} P (run_all [])
  unfolding run_all
  Keeps-nil = Keeps-pure tt

  pub Keeps-cons :
      (m : Act C (Unit {0})) (ms : List (Act C (Unit {0})))
      → Keeps P m
      → Keeps P (run_all ms)
      → Keeps P (run_all (m ∷ ms))
  unfolding run_all
  Keeps-cons m ms h hs = Keeps-bind m (λ _. run_all ms) h (λ _. hs)

pub ruleset adds_rules = (
  Keeps-pure, Keeps-raise, Keeps-lift, Keeps-by_value, Keeps-on_conn, Keeps-if, Keeps-bind,
  Adds-exec, Adds-exists, Adds-get_one_field, Adds-connect, Adds-ask, Keeps-nil, Keeps-cons,
)
