-- ===== src/Pg/Slot/Converging.antt =====
-- On a server that keeps track of its replication slots, bringing them in line makes them exist, and
-- then there is nothing left to do.
use pgfga.Base.{subst, sym, String, ◌≡◌, refl, Bool, true, false, List, [], ◌∷◌}
use pgfga.Base.Result.{ok}
use pgfga.GoMap.Laws.{AllEntries}
use pgfga.Pg.State.{absent, ◌=S=◌}
use pgfga.Pg.Server.{Server}
use pgfga.Pg.Conn.Act.{Statement, World, Env}
use pgfga.Pg.Conn.Keeps.{Keeps, Keeps-pure, Keeps-bind}
use pgfga.Pg.Conn.Triples.{
  Triple, Triple-pure, Triple-bind, Triple-Keeps, Triple-mono, Triple-ok, Outcome-both,
}
use pgfga.Pg.Conn.Ensuring.{
  IsEnsuring, Spares, Anything, Idle, ensured-Keeps, ensured-Triple, ensured-Idle,
}
use pgfga.Pg.Slot.{Slot, Slots, slot_query, create_sql, exists, create, reconcile_all}

-- What the program relies on: the query for a slot tells whether it exists, creating a slot without
-- an error makes it exist, and creating a slot removes no other.
pub record IsSlotServer {C : Type 0} ⦃srv : Server C⦄ (has_slot : String → C → Bool) : Type 0 where
  pub ensures :
      (name : String) → IsEnsuring slot_query (name ∷ []) create_sql (name ∷ []) (has_slot name)
  pub spares : (name other : String) → Spares create_sql (name ∷ []) (has_slot other)

-- Every slot of the map that is not absent exists in the cluster.
abbrev pub AllExist : {C : Type 0} → (String → C → Bool) → Slots → C → Type 0
AllExist has_slot slots c =
    AllEntries (λ name slot. (slot.state =S= absent) ≡ false → has_slot name c ≡ true) slots

module _ {C : Type 0} ⦃srv : Server C⦄ (has_slot : String → C → Bool)
    (lawful : IsSlotServer has_slot) where
  abbrev Wants : String → Slot → World C → Type 0
  Wants name slot w = (slot.state =S= absent) ≡ false → has_slot name w.cluster ≡ true

  create-Keeps :
      (other : String) (slot : Slot)
      → Keeps (λ w. has_slot other w.cluster ≡ true) (create {C = C} slot)
  unfolding create exists
  create-Keeps other slot = ensured-Keeps _ _ _ _ _ (has_slot other) (lawful.spares slot.name other)

  create-Triple :
      (slot : Slot) → Triple (Anything {C = C}) (create slot) (λ _. Wants slot.name slot) Anything
  unfolding create exists
  create-Triple slot = ensured-Triple _ _ _ _ _ (has_slot slot.name) (lawful.ensures slot.name)

  create-Idle :
      (slot : Slot) (c : C) (log : List Statement)
      → ((slot.state =S= absent) ≡ false → has_slot slot.name c ≡ true)
      → Triple (Idle c log) (create slot) (λ _. Idle c log) (Idle c log)
  unfolding create exists
  create-Idle slot c log h =
      ensured-Idle _ _ _ _ _ (has_slot slot.name) (lawful.ensures slot.name) c log h

  reconcile_all-Keeps :
      (name : String) (slot : Slot) (slots : Slots)
      → Keeps (Wants name slot) (reconcile_all {C = C} slots)
  unfolding reconcile_all
  reconcile_all-Keeps name slot [] = Keeps-pure tt
  reconcile_all-Keeps name slot ((other, s) ∷ slots) =
      Keeps-bind _ _
        (record {
          at = λ e h wanted. (create-Keeps name (record s { name = other })).at e (h wanted);
        })
        (λ _. reconcile_all-Keeps name slot slots)

  pub reconcile_all-Triple :
      (slots : Slots)
      → Triple
          (Anything {C = C})
          (reconcile_all slots)
          (λ _ w. AllExist has_slot slots w.cluster)
          Anything
  unfolding reconcile_all
  reconcile_all-Triple [] = Triple-pure tt (λ w h. tt)
  reconcile_all-Triple ((name, slot) ∷ slots) =
      Triple-bind _ _ (create-Triple (record slot { name = name })) λ _.
        Triple-mono (reconcile_all slots) _ _
          (Triple-Keeps _ (reconcile_all-Triple slots) (reconcile_all-Keeps name slot slots))
          (λ w h. (tt, h)) (λ _ w h. (h.1, h.0))

  reconcile_all-Idle :
      (slots : Slots) (c : C) (log : List Statement)
      → AllExist has_slot slots c
      → Triple (Idle c log) (reconcile_all slots) (λ _. Idle c log) (Idle c log)
  unfolding reconcile_all
  reconcile_all-Idle [] c log h = Triple-pure tt (λ w i. i)
  reconcile_all-Idle ((name, slot) ∷ slots) c log h =
      Triple-bind _ _ (create-Idle (record slot { name = name }) c log h.0)
        (λ _. reconcile_all-Idle slots c log h.1)

-- If bringing slots in line succeeds, then every slot of the map that is not absent exists in the
-- cluster, and bringing them in line again, over any connection, sends nothing and changes nothing
-- in the cluster, whether it succeeds or fails. This holds on every server whose answers about
-- slots tell the truth, and on which creating a slot makes it exist unless it fails, and removes no
-- other.
pub reconcile_all-reconcile_all :
    {C : Type 0} ⦃srv : Server C⦄ (has_slot : String → C → Bool) (lawful : IsSlotServer has_slot)
    (slots : Slots) (e later : Env C)
    → (reconcile_all slots e).0 ≡ ok tt
    → later.cluster ≡ (reconcile_all slots e).1.cluster
    → AllExist has_slot slots later.cluster
      × ((reconcile_all slots later).1.cluster ≡ later.cluster)
      × ((reconcile_all slots later).1.log ≡ later.log)
reconcile_all-reconcile_all has_slot lawful slots e later succeeded same =
    let there : AllExist has_slot slots later.cluster = subst (AllExist has_slot slots) (sym same) (
      Triple-ok (reconcile_all slots) e tt (reconcile_all-Triple has_slot lawful slots) tt
        succeeded) in
    let (cluster, log) =
      Outcome-both (Idle later.cluster later.log) (reconcile_all slots later).0
        (reconcile_all slots later).1.world
        ((reconcile_all-Idle has_slot lawful slots later.cluster later.log there).after later
          (refl, refl)) in
    (there, cluster, log)
