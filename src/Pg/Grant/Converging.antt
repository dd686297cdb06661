-- ===== src/Pg/Grant/Converging.antt =====
-- On a server that keeps track of the members of its roles, bringing grants in line makes them hold.
use pgfga.Base.{String, ◌≡◌, Bool, true, false, List, [], ◌∷◌, All, inr}
use pgfga.Base.Result.{ok}
use pgfga.Pg.State.{absent, ◌=S=◌}
use pgfga.Pg.Server.{Server}
use pgfga.Pg.Conn.Act.{Statement, Env}
use pgfga.Pg.Conn.Keeps.{Opens}
use pgfga.Pg.Conn.Adds.{Allows}
use pgfga.Pg.Conn.Triples.{
  Triple, Triple-pure, Triple-if, Triple-by_value, Triple-bind, Triple-exists, Triple-exec,
  Triple-any, Triple-mono, Triple-Keeps, Triple-ok,
}
use pgfga.Pg.Conn.Ensuring.{IsEnsuring, Spares, Anything, found-Outcome, created-Outcome}
use pgfga.Pg.Grant.{Grant, member_query, grant_sql, exists, grant, reconcile_all}
use pgfga.Pg.Grant.Laws.{FromGrants, reconcile_all-Adds}

-- What the program relies on: the query tells whether the first role is granted to the second, the
-- statement grants it unless it fails, and the statements with the property `P` revoke nothing.
pub record IsGrantServer {C : Type 0} ⦃srv : Server C⦄ (P : Statement → Type 0)
    (has_grant : String → String → C → Bool) : Type 0 where
  pub ensures :
      (granted grantee : String)
      → IsEnsuring member_query
          (granted ∷ grantee ∷ [])
          (grant_sql granted grantee)
          []
          (has_grant granted grantee)
  pub spares :
      (s : Statement) (granted grantee : String)
      → P s
      → Spares s.sql s.args (has_grant granted grantee)

-- Unless it is absent, the grant holds in the cluster.
abbrev pub Holds : {C : Type 0} → (String → String → C → Bool) → Grant → C → Type 0
Holds has_grant g c =
    (g.state =S= absent) ≡ false → has_grant g.granted.name g.grantee.name c ≡ true

module _ {C : Type 0} ⦃srv : Server C⦄ (P : Statement → Type 0)
    (has_grant : String → String → C → Bool) (lawful : IsGrantServer P has_grant) where
  Holds-Allows : (g : Grant) → Allows {C = C} P (λ w. Holds has_grant g w.cluster)
  Holds-Allows g = record {
    opens = record { opens = λ w n h. h };
    closes = λ w ids h. h;
    sending = λ s w p h wanted.
        lawful.spares s g.granted.name g.grantee.name p s.dsn w.cluster (h wanted);
  }

  grant-Triple :
      (g : Grant)
      → Triple (Anything {C = C}) (grant g) (λ _ w. Holds has_grant g w.cluster) Anything
  unfolding grant exists
  grant-Triple g =
      let has = has_grant g.granted.name g.grantee.name in
      let ensuring = lawful.ensures g.granted.name g.grantee.name in
      let opens : Opens {C = C} Anything = record { opens = λ w n h. h } in
      Triple-if (g.state =S= absent) _ _
        (λ gone. Triple-pure tt (λ w _ wanted. absurd (cc (gone, wanted))))
        λ _. Triple-by_value _ (
          Triple-bind _ _
            (Triple-by_value _ (
              Triple-exists opens (λ w h. h) member_query _
                (λ dsn w h. found-Outcome has _ w (ensuring.finds dsn w.cluster))))
            λ found.
              Triple-if found _ _ (λ f. Triple-pure tt (λ w e _. cc (f, e)))
                λ _.
                  Triple-mono _ _ _
                    (Triple-bind _ _ (Triple-any _) λ _. Triple-bind _ _ (Triple-any _) λ _.
                      Triple-bind _ _ (Triple-any _) λ _.
                        Triple-exec opens (λ w h. h) _ []
                          (λ dsn w h.
                            created-Outcome has (g.state =S= absent) _ _
                              (ensuring.creates dsn w.cluster)))
                    (λ w h. tt) (λ _ w h. h))

  -- That all these grants hold is kept by statements with the property.
  pub AllHold-Allows :
      (gs : List Grant) → Allows {C = C} P (λ w. All (λ g. Holds has_grant g w.cluster) gs)
  AllHold-Allows [] = record {
    opens = record { opens = λ w n h. h };
    closes = λ w ids h. h;
    sending = λ s w p h. h;
  }
  AllHold-Allows (g ∷ gs) =
      let first = Holds-Allows g in
      let others = AllHold-Allows gs in
      record {
        opens = record { opens = λ w n h. h };
        closes = λ w ids h. h;
        sending = λ s w p h. (first.sending s w p h.0, others.sending s w p h.1);
      }

  pub reconcile_all-Triple :
      (gs : List Grant)
      → ((s : Statement) → FromGrants gs s → P s)
      → Triple
          (Anything {C = C})
          (reconcile_all gs)
          (λ _ w. All (λ g. Holds has_grant g w.cluster) gs)
          Anything
  unfolding reconcile_all
  reconcile_all-Triple [] suits = Triple-pure tt (λ w _. tt)
  reconcile_all-Triple (g ∷ gs) suits = Triple-bind _ _ (grant-Triple g) λ _.
      Triple-mono (reconcile_all gs) _ _
        (Triple-Keeps _ (reconcile_all-Triple gs (λ s q. suits s (inr q)))
          (reconcile_all-Adds P (Holds-Allows g) gs (λ s q. suits s (inr q))))
        (λ w h. (tt, h)) (λ _ w h. (h.1, h.0))

-- If bringing grants in line succeeds, then each grant that is not absent holds in the cluster: the
-- one role is granted to the other. This holds on every server whose answers about grants tell the
-- truth, whose statement that grants a role does so unless it fails, and on which none of the
-- statements that the grants may need revokes one.
pub reconcile_all-AllHold :
    {C : Type 0} ⦃srv : Server C⦄ (has_grant : String → String → C → Bool) (gs : List Grant)
    (lawful : IsGrantServer (FromGrants gs) has_grant) (e : Env C)
    → (reconcile_all gs e).0 ≡ ok tt
    → All (λ g. Holds has_grant g (reconcile_all gs e).1.cluster) gs
reconcile_all-AllHold has_grant gs lawful e succeeded =
    Triple-ok (reconcile_all gs) e tt
      (reconcile_all-Triple (FromGrants gs) has_grant lawful gs (λ s q. q)) tt succeeded
