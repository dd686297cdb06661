-- ===== src/Pg/Conn/Triples.antt =====
-- What holds after an action: after its success, and after its failure. The rules go through the
-- ways to build an action; what a query or a statement does is left to the server.
use pgfga.Base.{
  ◌∷◌, ℕ, suc, String, ◌≡◌, refl, Bool, true, false, Bool-cases, Option, none, some, Option-cases,
  List, inl, inr, subst, if◌then◌else◌,
}
use pgfga.Base.Result.{Error, Result, ok, err}
use pgfga.Pg.Server.{Server}
use pgfga.Pg.Conn.Act.{
  Conn, World, Env, Act, pure, raise, lift, by_value, on_conn, continue, run_all, ◌>>=◌,
}
use pgfga.Pg.Conn.Query.{
  dsn_of, connect, connect_held, member, open_session, ask, send, answer_exists, from_error,
  run_query_exists, run_query_exec,
}
use pgfga.Pg.Conn.Keeps.{Keeps, after_send, Opens}

abbrev pub Outcome :
    {A C : Type 0} → (A → World C → Type 0) → (World C → Type 0) → Result A → World C → Type 0
Outcome post failed (ok a) w = post a w
Outcome post failed (err x) w = failed w

-- From a world with `pre`, success ends in one with `post` and failure in one with `failed`.
pub record Triple {C A : Type 0} (pre : World C → Type 0) (m : Act C A)
    (post : A → World C → Type 0) (failed : World C → Type 0) : Type 0 where
  pub after : (e : Env C) → pre e.world → Outcome post failed (m e).0 (m e).1.world

module _ {C A : Type 0} {pre : World C → Type 0} {post : A → World C → Type 0}
    {failed : World C → Type 0} where
  pub Triple-pure : (a : A) → ((w : World C) → pre w → post a w) → Triple pre (pure a) post failed
  unfolding pure
  Triple-pure a k = record { after = λ e h. k e.world h }

  pub Triple-raise :
      (x : Error) → ((w : World C) → pre w → failed w) → Triple pre (raise {A = A} x) post failed
  unfolding raise
  Triple-raise x k = record { after = λ e h. k e.world h }

  pub Triple-by_value :
      (m : Act C A) → Triple pre m post failed → Triple pre (by_value m) post failed
  unfolding by_value
  Triple-by_value m t = record { after = λ e h. t.after e h }

  pub Triple-unvalue :
      (m : Act C A) → Triple pre (by_value m) post failed → Triple pre m post failed
  unfolding by_value
  Triple-unvalue m t = record { after = λ e h. t.after e h }

  pub Triple-on_conn :
      (c : Conn) (m : Act C A) → Triple pre m post failed → Triple pre (on_conn c m) post failed
  unfolding on_conn
  Triple-on_conn c m t = record { after = λ e h. t.after (record e { conn = c }) h }

  pub Triple-if :
      (test : Bool) (taken other : Act C A)
      → (test ≡ true → Triple pre taken post failed)
      → (test ≡ false → Triple pre other post failed)
      → Triple pre (if test then taken else other) post failed
  Triple-if true taken other t _ = t refl
  Triple-if false taken other _ t = t refl

module _ {C A B : Type 0} {between : A → World C → Type 0} {post : B → World C → Type 0}
    {failed : World C → Type 0} where
  Outcome-continue :
      (r : Result A) (f : A → Act C B) (e : Env C)
      → ((a : A) → Triple (between a) (f a) post failed)
      → Outcome between failed r e.world
      → Outcome post failed (continue r f e).0 (continue r f e).1.world
  Outcome-continue (ok a) f e t h = (t a).after e h
  Outcome-continue (err x) f e t h = h

module _ {C A B : Type 0} {pre : World C → Type 0} {between : A → World C → Type 0}
    {post : B → World C → Type 0} {failed : World C → Type 0} where
  pub Triple-bind :
      (m : Act C A) (f : A → Act C B)
      → Triple pre m between failed
      → ((a : A) → Triple (between a) (f a) post failed)
      → Triple pre (m >>= f) post failed
  unfolding ◌>>=◌
  Triple-bind m f t u = record { after = λ e h. Outcome-continue (m e).0 f (m e).1 u (t.after e h) }

module _ {C A : Type 0} (post : A → World C → Type 0) (failed : World C → Type 0) where
  Outcome-and :
      (r : Result A) (w : World C) (kept : World C → Type 0)
      → Outcome post failed r w
      → kept w
      → Outcome (λ a v. post a v × kept v) failed r w
  Outcome-and (ok a) w kept h k = (h, k)
  Outcome-and (err x) w kept h k = h

  Outcome-mono :
      (post' : A → World C → Type 0) (r : Result A) (w : World C)
      → ((a : A) (v : World C) → post a v → post' a v)
      → Outcome post failed r w
      → Outcome post' failed r w
  Outcome-mono post' (ok a) w g h = g a w h
  Outcome-mono post' (err x) w g h = h

  Outcome-ok : (r : Result A) (w : World C) (a : A) → r ≡ ok a → Outcome post failed r w → post a w
  Outcome-ok r w a e h = subst (λ s. Outcome post failed s w) e h

module _ {C A : Type 0} {pre : World C → Type 0} {post : A → World C → Type 0}
    {failed : World C → Type 0} where
  -- What the action keeps holds afterwards too.
  pub Triple-Keeps :
      (m : Act C A) {kept : World C → Type 0}
      → Triple pre m post failed
      → Keeps kept m
      → Triple (λ w. pre w × kept w) m (λ a w. post a w × kept w) failed
  Triple-Keeps m {kept} t k = record {
    after = λ e h. Outcome-and post failed (m e).0 (m e).1.world kept (t.after e h.0) (k.at e h.1);
  }

  -- From more to less.
  pub Triple-mono :
      (m : Act C A) (pre' : World C → Type 0) (post' : A → World C → Type 0)
      → Triple pre m post failed
      → ((w : World C) → pre' w → pre w)
      → ((a : A) (w : World C) → post a w → post' a w)
      → Triple pre' m post' failed
  Triple-mono m pre' post' t f g = record {
    after = λ e h. Outcome-mono post failed post' (m e).0 (m e).1.world g (t.after e (f e.world h));
  }

  -- Using a triple on a run that succeeded.
  pub Triple-ok :
      (m : Act C A) (e : Env C) (a : A)
      → Triple pre m post failed
      → pre e.world
      → (m e).0 ≡ ok a
      → post a (m e).1.world
  Triple-ok m e a t h succeeded =
      Outcome-ok post failed (m e).0 (m e).1.world a succeeded (t.after e h)

module _ {C A : Type 0} {post : A → World C → Type 0} {failed : World C → Type 0} where
  -- Where the start is impossible.
  pub Triple-never :
      (m : Act C A) (pre : World C → Type 0)
      → ((w : World C) → pre w → ⊥)
      → Triple pre m post failed
  Triple-never m pre k = record { after = λ e h. absurd (k e.world h) }

Outcome-any :
    {A C : Type 0} (r : Result A) (w : World C) → Outcome (λ _ _. Unit {0}) (λ _. Unit {0}) r w
Outcome-any (ok a) w = tt
Outcome-any (err x) w = tt

-- An action that leaves the same after success and failure.
pub Outcome-both :
    {A C : Type 0} (kept : World C → Type 0) (r : Result A) (w : World C)
    → Outcome (λ _. kept) kept r w
    → kept w
Outcome-both kept (ok a) w h = h
Outcome-both kept (err x) w h = h

module _ {C : Type 0} ⦃srv : Server C⦄ {pre : World C → Type 0} (o : Opens pre)
    {failed : World C → Type 0} (fails : (w : World C) → pre w → failed w) where
  Triple-open_session : Triple pre open_session (λ _. pre) failed
  unfolding open_session
  Triple-open_session = record {
    after = λ e h. elim (Option-cases (srv.connect (dsn_of e.conn) e.cluster)) [
      | inl free ↦ rw free (o.opens e.world (suc e.opened) h)
      | inr (msg, refused) ↦ rw refused (fails e.world h)
    ];
  }

  Triple-connect_held : (held : Option ℕ) → Triple pre (connect_held held) (λ _. pre) failed
  unfolding connect_held
  Triple-connect_held none = Triple-open_session
  Triple-connect_held (some id) = record {
    after = λ e h. elim (Bool-cases (member id e.closed)) [
      | inl gone ↦ rw gone (Triple-open_session.after e h)
      | inr live ↦ rw live h
    ];
  }

  Triple-connect : Triple pre connect (λ _. pre) failed
  unfolding connect
  Triple-connect = record { after = λ e h. (Triple-connect_held e.conn.conn).after e h }

  pub Triple-exists :
      (sql : String) (args : List String) {post : Bool → World C → Type 0}
      → ((dsn : String) (w : World C)
          → pre w
          → Outcome post failed (answer_exists (srv.query dsn sql args w.cluster)) w)
      → Triple pre (run_query_exists sql args) post failed
  unfolding run_query_exists ask lift ◌>>=◌
  Triple-exists sql args k =
      Triple-bind _ _ Triple-connect (λ _. record { after = λ e h. k (dsn_of e.conn) e.world h })

  pub Triple-exec :
      (sql : String) (args : List String) {post : Unit {0} → World C → Type 0}
      → ((dsn : String) (w : World C)
          → pre w
          → Outcome post failed
              (from_error (srv.exec dsn sql args w.cluster).0)
              (after_send dsn sql args w))
      → Triple pre (run_query_exec sql args) post failed
  unfolding run_query_exec send
  Triple-exec sql args k =
      Triple-bind _ _ Triple-connect (λ _. record { after = λ e h. k (dsn_of e.conn) e.world h })

module _ {C A : Type 0} where
  pub Triple-any : (m : Act C A) → Triple (λ _. Unit {0}) m (λ _ _. Unit {0}) (λ _. Unit {0})
  Triple-any m = record { after = λ e h. Outcome-any (m e).0 (m e).1.world }

module _ {C : Type 0} {post between : World C → Type 0} where
  -- A first step, what it brings about being kept by the others.
  pub Triple-cons :
      (m : Act C (Unit {0})) (ms : List (Act C (Unit {0})))
      → Triple (λ _. Unit {0}) m (λ _. between) (λ _. Unit {0})
      → Triple (λ _. Unit {0}) (run_all ms) (λ _. post) (λ _. Unit {0})
      → Keeps between (run_all ms)
      → Triple (λ _. Unit {0}) (run_all (m ∷ ms)) (λ _ w. between w × post w) (λ _. Unit {0})
  unfolding run_all
  Triple-cons m ms t u k =
      Triple-bind m (λ _. run_all ms) t
        (λ _.
          Triple-mono (run_all ms) _ _ (Triple-Keeps (run_all ms) u k) (λ w h. (tt, h))
            (λ _ w h. (h.1, h.0)))
