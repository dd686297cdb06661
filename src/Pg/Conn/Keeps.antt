-- ===== src/Pg/Conn/Keeps.antt =====
-- What an action keeps of the world that calls share, whether it succeeds or fails: one rule for
-- each way to build an action.
use pgfga.Base.{
  ℕ, suc, inl, inr, Option-cases, Bool-cases, String, ◌≡◌, refl, Bool, true, false, if◌then◌else◌,
  Option, none, some, List, ◌∷◌,
}
use pgfga.Base.Result.{Error, Result, ok, err}
use pgfga.Pg.Server.{Server}
use pgfga.Pg.Conn.Act.{Conn, World, Env, Act, pure, raise, lift, by_value, on_conn, continue, ◌>>=◌}
use pgfga.Pg.Conn.Query.{
  dsn_of, connect, connect_held, member, open_session, ask, ask_pair, send, run_query_exists,
  run_query_exec, run_query_get_one_field,
}

-- `m` keeps `P`.
pub record Keeps {C A : Type 0} (P : World C → Type 0) (m : Act C A) : Type 0 where
  pub at : (e : Env C) → P e.world → P (m e).1.world

module _ {C A : Type 0} {P : World C → Type 0} where
  pub Keeps-pure : (a : A) → Keeps P (pure {C = C} a)
  unfolding pure
  Keeps-pure a = record { at = λ e h. h }

  pub Keeps-raise : (x : Error) → Keeps P (raise {C = C} {A = A} x)
  unfolding raise
  Keeps-raise x = record { at = λ e h. h }

  pub Keeps-lift : (r : Result A) → Keeps P (lift {C = C} r)
  unfolding lift
  Keeps-lift r = record { at = λ e h. h }

  pub Keeps-by_value : (m : Act C A) → Keeps P m → Keeps P (by_value m)
  unfolding by_value
  Keeps-by_value m k = record { at = λ e h. k.at e h }

  pub Keeps-on_conn : (c : Conn) (m : Act C A) → Keeps P m → Keeps P (on_conn c m)
  unfolding on_conn
  Keeps-on_conn c m k = record { at = λ e h. k.at (record e { conn = c }) h }

  pub Keeps-if :
      (test : Bool) (taken other : Act C A)
      → (test ≡ true → Keeps P taken)
      → (test ≡ false → Keeps P other)
      → Keeps P (if test then taken else other)
  Keeps-if true taken other kept _ = kept refl
  Keeps-if false taken other _ kept = kept refl

module _ {C A B : Type 0} {P : World C → Type 0} where
  Keeps-continue :
      (r : Result A) (f : A → Act C B) (e : Env C)
      → ((a : A) → Keeps P (f a))
      → P e.world
      → P (continue r f e).1.world
  Keeps-continue (ok a) f e kf h = (kf a).at e h
  Keeps-continue (err x) f e kf h = h

  pub Keeps-bind :
      (m : Act C A) (f : A → Act C B) → Keeps P m → ((a : A) → Keeps P (f a)) → Keeps P (m >>= f)
  unfolding ◌>>=◌
  Keeps-bind m f km kf = record { at = λ e h. Keeps-continue (m e).0 f (m e).1 kf (km.at e h) }

-- Opening a session alone breaks no property of interest: those that only read the cluster, the
-- log or the closed sessions.
pub record Opens {C : Type 0} (P : World C → Type 0) : Type 0 where
  pub opens : (w : World C) (n : ℕ) → P w → P (record w { opened = n })

module _ {C : Type 0} ⦃srv : Server C⦄ where
  -- the world after a statement was sent
  abbrev pub after_send : String → String → List String → World C → World C
  after_send dsn sql args w = record w {
    cluster = (srv.exec dsn sql args w.cluster).1;
    log = record { dsn = dsn; sql = sql; args = args } ∷ w.log;
  }

  module _ {P : World C → Type 0} (o : Opens P) where
    Keeps-open_session : Keeps P open_session
    unfolding open_session
    Keeps-open_session = record {
      at = λ e h. elim (Option-cases (srv.connect (dsn_of e.conn) e.cluster)) [
        | inl free ↦ rw free (o.opens e.world (suc e.opened) h)
        | inr (msg, refused) ↦ rw refused h
      ];
    }

    Keeps-connect_held : (held : Option ℕ) → Keeps P (connect_held held)
    unfolding connect_held
    Keeps-connect_held none = Keeps-open_session
    Keeps-connect_held (some id) = record {
      at = λ e h. elim (Bool-cases (member id e.closed)) [
        | inl gone ↦ rw gone (Keeps-open_session.at e h)
        | inr live ↦ rw live h
      ];
    }

    pub Keeps-connect : Keeps P connect
    unfolding connect
    Keeps-connect = record { at = λ e h. (Keeps-connect_held e.conn.conn).at e h }

    pub Keeps-ask : (sql : String) (args : List String) → Keeps P (ask sql args)
    unfolding ask
    Keeps-ask sql args = record { at = λ e h. h }

    pub Keeps-ask_pair : (sql : String) (args : List String) → Keeps P (ask_pair sql args)
    unfolding ask_pair
    Keeps-ask_pair sql args = record { at = λ e h. h }

    pub Keeps-exists : (sql : String) (args : List String) → Keeps P (run_query_exists sql args)
    unfolding run_query_exists
    Keeps-exists sql args = search (Keeps-bind, Keeps-connect, Keeps-ask, Keeps-lift)

    pub Keeps-get_one_field :
        (sql : String) (args : List String) → Keeps P (run_query_get_one_field sql args)
    unfolding run_query_get_one_field
    Keeps-get_one_field sql args = search (Keeps-bind, Keeps-connect, Keeps-ask, Keeps-lift)

    Keeps-send :
        (sql : String) (args : List String)
        → ((dsn : String) (w : World C) → P w → P (after_send dsn sql args w))
        → Keeps P (send sql args)
    unfolding send
    Keeps-send sql args k = record { at = λ e h. k (dsn_of e.conn) e.world h }

    pub Keeps-exec :
        (sql : String) (args : List String)
        → ((dsn : String) (w : World C) → P w → P (after_send dsn sql args w))
        → Keeps P (run_query_exec sql args)
    unfolding run_query_exec
    Keeps-exec sql args k = search (Keeps-bind, Keeps-connect, Keeps-send)
