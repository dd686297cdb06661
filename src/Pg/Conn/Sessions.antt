-- ===== src/Pg/Conn/Sessions.antt =====
-- Sessions are opened once: Connect on a connection that is open does nothing.
use pgfga.Base.{
  ℕ, ◌<◌, ◌≡◌, refl, false, Bool-cases, Option, none, some, Option-cases, List, [], ◌∷◌, inl, inr,
  All, All-mono, arith,
}
use pgfga.Base.Result.{ok}
use pgfga.Pg.Server.{Server}
use pgfga.Pg.Conn.Act.{World, Env}
use pgfga.Pg.Conn.Query.{member, dsn_of, open_session, connect_held, connect}

-- Only sessions that were opened are closed.
abbrev pub IsNumbered : {C : Type 0} → World C → Type 0
IsNumbered w = All (λ id. id < w.opened) w.closed

new-member : (n : ℕ) (ids : List ℕ) → All (λ id. id < n) ids → member n ids ≡ false
new-member n [] h = refl
new-member n (id ∷ ids) h = ground (arith, h.0, new-member n ids h.1)

-- The connection holds a session that is not closed.
abbrev pub IsLive : {C : Type 0} → Env C → Type 0
IsLive e = (id : ℕ) × (e.conn.conn ≡ some id) × (member id e.closed ≡ false)

module _ {C : Type 0} ⦃srv : Server C⦄ where
  open_session-IsLive :
      (e : Env C)
      → IsNumbered e.world
      → (open_session e).0 ≡ ok tt
      → IsLive (open_session e).1 × IsNumbered (open_session e).1.world
  unfolding open_session
  open_session-IsLive e n h = elim (Option-cases (srv.connect (dsn_of e.conn) e.cluster)) [
    | inl free ↦ rw free (
      (e.opened, refl, new-member e.opened e.closed n),
      All-mono _ _ e.closed (λ id lower. omega arith) n,
    )
    | inr (msg, refused) ↦ cc (rw refused at h)
  ]

  connect_held-IsLive :
      (held : Option ℕ) (e : Env C)
      → e.conn.conn ≡ held
      → IsNumbered e.world
      → (connect_held held e).0 ≡ ok tt
      → IsLive (connect_held held e).1 × IsNumbered (connect_held held e).1.world
  unfolding connect_held
  connect_held-IsLive none e q n h = open_session-IsLive e n h
  connect_held-IsLive (some id) e q n h = elim (Bool-cases (member id e.closed)) [
    | inl gone ↦ rw gone (open_session-IsLive e n (rw gone at h))
    | inr live ↦ rw live ((id, q, live), n)
  ]

  connect-live : (e : Env C) → IsLive e → connect e ≡ (ok tt, e)
  unfolding connect connect_held
  connect-live e (id, held, live) = rw (held, live) refl

  -- If only sessions that were opened are closed, then a Connect that succeeds leaves a connection
  -- with a session that is not closed, still only sessions that were opened are closed, and a
  -- second Connect succeeds and changes nothing.
  pub connect-connect :
      (e : Env C)
      → IsNumbered e.world
      → (connect e).0 ≡ ok tt
      → IsLive (connect e).1
        × IsNumbered (connect e).1.world
        × (connect (connect e).1 ≡ (ok tt, (connect e).1))
  unfolding connect
  connect-connect e n h =
      let (live, numbered) = connect_held-IsLive e.conn.conn e refl n h in
      (live, numbered, connect-live (connect e).1 live)
