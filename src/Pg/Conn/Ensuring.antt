-- ===== src/Pg/Conn/Ensuring.antt =====
-- The way in which the program makes an object exist: it asks for it, and creates it if it is not
-- there. On a server whose answers tell the truth this works, and does nothing the second time.
use pgfga.Base.{
  String, ◌≡◌, refl, Bool, true, false, Option, none, some, List, if◌then◌else◌, ap, ◌∙◌,
}
use pgfga.Base.Result.{Result, ok, err}
use pgfga.Pg.Server.{Server}
use pgfga.Pg.Conn.Act.{Statement, World, Act, by_value, done, ◌>>=◌}
use pgfga.Pg.Conn.Query.{answer_exists, from_error, run_query_exists, run_query_exec}
use pgfga.Pg.Conn.Keeps.{
  Keeps, Keeps-pure, Keeps-bind, Keeps-if, Keeps-by_value, Keeps-exists, Keeps-exec, Opens,
}
use pgfga.Pg.Conn.Triples.{
  Outcome, Triple, Triple-pure, Triple-by_value, Triple-if, Triple-bind, Triple-exists, Triple-exec,
  Triple-never,
}

-- Unless the object should be gone: the query for it, and the statement that creates it.
abbrev pub ensured :
    {C : Type 0}
    → ⦃srv : Server C⦄ → Bool
    → String
    → List String
    → String
    → List String
    → Act C (Unit {0})
ensured gone query asked sql args =
    if gone
    then done
    else by_value do
      found ← by_value (run_query_exists query asked)
      if found then done else run_query_exec sql args

-- The query tells whether the object exists, and the statement makes it exist unless it fails.
pub record IsEnsuring {C : Type 0} ⦃srv : Server C⦄ (query : String) (asked : List String)
    (sql : String) (args : List String) (has : C → Bool) : Type 0 where
  pub finds :
      (dsn : String) (c : C) (b : Bool)
      → answer_exists (srv.query dsn query asked c) ≡ ok b
      → b ≡ has c
  pub creates :
      (dsn : String) (c : C)
      → (srv.exec dsn sql args c).0 ≡ none
      → has (srv.exec dsn sql args c).1 ≡ true

-- The statement leaves the object there if it is there.
abbrev pub Spares : {C : Type 0} → ⦃srv : Server C⦄ → String → List String → (C → Bool) → Type 0
Spares {C} ⦃srv⦄ sql args has =
    (dsn : String) (c : C) → has c ≡ true → has (srv.exec dsn sql args c).1 ≡ true

abbrev pub Anything : {C : Type 0} → World C → Type 0
Anything w = Unit {0}

-- The cluster and the log are as given.
abbrev pub Idle : {C : Type 0} → C → List Statement → World C → Type 0
Idle c log w = (w.cluster ≡ c) × (w.log ≡ log)

module _ {C : Type 0} (has : C → Bool) where
  pub found-Outcome :
      (r : Result Bool) (w : World C)
      → ((b : Bool) → r ≡ ok b → b ≡ has w.cluster)
      → Outcome (λ b v. b ≡ has v.cluster) Anything r w
  found-Outcome (ok b) w k = k b refl
  found-Outcome (err x) w k = tt

  pub created-Outcome :
      (gone : Bool) (answer : Option String) (w : World C)
      → (answer ≡ none → has w.cluster ≡ true)
      → Outcome (λ _ v. gone ≡ false → has v.cluster ≡ true) Anything (from_error answer) w
  created-Outcome gone none w k = λ _. k refl
  created-Outcome gone (some msg) w k = tt

  settled-Outcome :
      (c : C) (log : List Statement) (r : Result Bool) (w : World C)
      → ((b : Bool) → r ≡ ok b → b ≡ true)
      → Idle c log w
      → Outcome (λ b v. (b ≡ true) × Idle c log v) (Idle c log) r w
  settled-Outcome c log (ok b) w k i = (k b refl, i)
  settled-Outcome c log (err x) w k i = i

module _ {C : Type 0} ⦃srv : Server C⦄ (gone : Bool) (query : String) (asked : List String)
    (sql : String) (args : List String) where
  -- Other objects are left there.
  pub ensured-Keeps :
      (other : C → Bool)
      → Spares sql args other
      → Keeps {C = C} (λ w. other w.cluster ≡ true) (ensured gone query asked sql args)
  ensured-Keeps other spares =
      let opens : Opens {C = C} (λ w. other w.cluster ≡ true) = record { opens = λ w n h. h } in
      Keeps-if gone _ _ (λ _. Keeps-pure tt)
        λ _. Keeps-by_value _ (
          Keeps-bind _ _ (Keeps-by_value _ (Keeps-exists opens query asked)) λ found.
            Keeps-if found _ _ (λ _. Keeps-pure tt)
              λ _. Keeps-exec opens sql args (λ dsn w h. spares dsn w.cluster h))

  module _ (has : C → Bool) (ensuring : IsEnsuring query asked sql args has) where
    -- If it succeeds, the object exists.
    pub ensured-Triple :
        Triple {C = C} Anything
          (ensured gone query asked sql args)
          (λ _ w. gone ≡ false → has w.cluster ≡ true)
          Anything
    ensured-Triple =
        let opens : Opens {C = C} Anything = record { opens = λ w n h. h } in
        Triple-if gone _ _ (λ e. Triple-pure tt (λ w _ wanted. absurd (cc (e, wanted))))
          λ _. Triple-by_value _ (
            Triple-bind _ _
              (Triple-by_value _ (
                Triple-exists opens (λ w h. h) query asked
                  (λ dsn w h. found-Outcome has _ w (ensuring.finds dsn w.cluster))))
              λ found.
                let asked_opens : Opens {C = C} (λ w. found ≡ has w.cluster) = record {
                  opens = λ w n h. h;
                } in
                Triple-if found _ _ (λ f. Triple-pure tt (λ w e _. cc (f, e)))
                  λ _.
                    Triple-exec asked_opens (λ w h. tt) sql args
                      (λ dsn w h. created-Outcome has gone _ _ (ensuring.creates dsn w.cluster)))

    -- If the object exists, nothing is sent and nothing changes, whether it succeeds or fails.
    pub ensured-Idle :
        (c : C) (log : List Statement)
        → (gone ≡ false → has c ≡ true)
        → Triple {C = C}
            (Idle c log)
            (ensured gone query asked sql args)
            (λ _. Idle c log)
            (Idle c log)
    ensured-Idle c log settled =
        let opens : Opens {C = C} (Idle c log) = record { opens = λ w n h. h } in
        Triple-if gone _ _ (λ _. Triple-pure tt (λ w h. h))
          λ wanted. Triple-by_value _ (
            Triple-bind _ _
              (Triple-by_value _ (
                Triple-exists opens (λ w h. h) query asked
                  (λ dsn w h.
                    settled-Outcome has c log _ w
                      (λ b e. ensuring.finds dsn w.cluster b e ∙ ap has h.0 ∙ settled wanted) h)))
              λ found.
                Triple-if found _ _ (λ _. Triple-pure tt (λ w h. h.1))
                  λ missing. Triple-never _ _ (λ w h. absurd (cc (missing, h.0))))
