-- ===== src/Pg/Database/Converging.antt =====
-- On a server that keeps track of its databases, bringing databases in line makes them exist.
use pgfga.Base.{String, ◌≡◌, Bool, true, not, [], ◌∷◌, inl, inr, arith}
use pgfga.Base.Result.{ok}
use pgfga.GoMap.Laws.{AllEntries}
use pgfga.Pg.State.{present, absent, ◌=S=◌}
use pgfga.Pg.Server.{Server}
use pgfga.Pg.Conn.Act.{Statement, Env, run_all}
use pgfga.Pg.Conn.Adds.{Allows}
use pgfga.Pg.Conn.Triples.{
  Triple, Triple-pure, Triple-if, Triple-bind, Triple-cons, Triple-any, Triple-mono, Triple-Keeps,
  Triple-ok,
}
use pgfga.Pg.Conn.Ensuring.{IsEnsuring, Spares, Anything, ensured-Triple}
use pgfga.Pg.Database.{
  Database, Databases, database_query, create_sql, exists, create, reconcile_owner,
  reconcile_db_con, reconcile, reconcile_all,
}
use pgfga.Pg.Database.Laws.{DatabaseStatement, FromDatabases, after_create-Adds, reconcile_all-Adds}

-- What the program relies on: the query tells whether a database exists, the statement creates it
-- unless it fails, and the statements with the property `P` drop none.
pub record IsDatabaseServer {C : Type 0} ⦃srv : Server C⦄ (P : Statement → Type 0)
    (has_db : String → C → Bool) : Type 0 where
  pub ensures :
      (name : String) → IsEnsuring database_query (name ∷ []) (create_sql name) [] (has_db name)
  pub spares : (s : Statement) (name : String) → P s → Spares s.sql s.args (has_db name)

-- The database exists if it is present in the wanted state.
abbrev pub Created : {C : Type 0} → (String → C → Bool) → String → Database → C → Type 0
Created has_db name d c = (d.state =S= present) ≡ true → has_db name c ≡ true

abbrev pub AllCreated : {C : Type 0} → (String → C → Bool) → Databases → C → Type 0
AllCreated has_db ds c = AllEntries (λ name d. Created has_db name d c) ds

module _ {C : Type 0} ⦃srv : Server C⦄ (P : Statement → Type 0) (has_db : String → C → Bool)
    (lawful : IsDatabaseServer P has_db) where
  has_db-Allows : (name : String) → Allows {C = C} P (λ w. has_db name w.cluster ≡ true)
  has_db-Allows name = record {
    opens = record { opens = λ w n h. h };
    closes = λ w ids h. h;
    sending = λ s w p h. lawful.spares s name p s.dsn w.cluster h;
  }

  Created-Allows :
      (name : String) (d : Database) → Allows {C = C} P (λ w. Created has_db name d w.cluster)
  Created-Allows name d = record {
    opens = record { opens = λ w n h. h };
    closes = λ w ids h. h;
    sending = λ s w p h wanted. (has_db-Allows name).sending s w p (h wanted);
  }

  -- That all these databases exist is kept by statements with the property.
  pub AllCreated-Allows : (ds : Databases) → Allows {C = C} P (λ w. AllCreated has_db ds w.cluster)
  AllCreated-Allows [] = record {
    opens = record { opens = λ w n h. h };
    closes = λ w ids h. h;
    sending = λ s w p h. h;
  }
  AllCreated-Allows ((name, d) ∷ ds) =
      let first = Created-Allows name d in
      let others = AllCreated-Allows ds in
      record {
        opens = record { opens = λ w n h. h };
        closes = λ w ids h. h;
        sending = λ s w p h. (first.sending s w p h.0, others.sending s w p h.1);
      }

  create-Triple :
      (d : Database)
      → (d.state =S= present) ≡ true
      → Triple (Anything {C = C}) (create d) (λ _ w. has_db d.name w.cluster ≡ true) Anything
  unfolding create exists
  create-Triple d wanted =
      Triple-mono (create d) _ _
        (ensured-Triple (d.state =S= absent) _ _ _ _ _ (lawful.ensures d.name)) (λ w h. h)
        (λ _ w h. h (ground (arith, wanted)))

  reconcile-Triple :
      (d : Database)
      → ((d.state =S= present) ≡ true → (s : Statement) → DatabaseStatement d s → P s)
      → Triple (Anything {C = C}) (reconcile d) (λ _ w. Created has_db d.name d w.cluster) Anything
  unfolding reconcile run_all
  reconcile-Triple d suits =
      Triple-if (not (d.state =S= present)) _ _
        (λ other. Triple-pure tt (λ w _ wanted. absurd (ground (arith, other, wanted))))
        λ same.
          let wanted : (d.state =S= present) ≡ true = ground (arith, same) in
          Triple-bind _ _ (Triple-any _) λ _.
            Triple-mono _ _ _
              (Triple-cons (create d) (reconcile_owner d ∷ reconcile_db_con d ∷ [])
                (create-Triple d wanted) (Triple-any _)
                (after_create-Adds P (has_db-Allows d.name) d (suits wanted)))
              (λ w _. tt) (λ _ w h _. h.0)

  pub reconcile_all-Triple :
      (ds : Databases)
      → ((s : Statement) → FromDatabases ds s → P s)
      → Triple
          (Anything {C = C})
          (reconcile_all ds)
          (λ _ w. AllCreated has_db ds w.cluster)
          Anything
  unfolding reconcile_all
  reconcile_all-Triple [] suits = Triple-pure tt (λ w _. tt)
  reconcile_all-Triple ((name, d) ∷ ds) suits =
      Triple-bind _ _ (reconcile-Triple (record d { name = name }) (λ w s h. suits s (inl (w, h))))
        λ _.
          Triple-mono (reconcile_all ds) _ _
            (Triple-Keeps _ (reconcile_all-Triple ds (λ s q. suits s (inr q)))
              (reconcile_all-Adds P (Created-Allows name d) ds (λ s q. suits s (inr q))))
            (λ w h. (tt, h)) (λ _ w h. (h.1, h.0))

-- If bringing databases in line succeeds, then each database of the map that is present exists in
-- the cluster, under the name that the map has for it. This holds on every server whose answers
-- about databases tell the truth, whose statement that creates a database does so unless it fails,
-- and on which none of the statements that the databases may need drops one.
pub reconcile_all-AllCreated :
    {C : Type 0} ⦃srv : Server C⦄ (has_db : String → C → Bool) (ds : Databases)
    (lawful : IsDatabaseServer (FromDatabases ds) has_db) (e : Env C)
    → (reconcile_all ds e).0 ≡ ok tt
    → AllCreated has_db ds (reconcile_all ds e).1.cluster
reconcile_all-AllCreated has_db ds lawful e succeeded =
    Triple-ok (reconcile_all ds) e tt
      (reconcile_all-Triple (FromDatabases ds) has_db lawful ds (λ s q. q)) tt succeeded
