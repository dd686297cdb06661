-- ===== src/Pg/Slot/Laws.antt =====
-- Which statements creating and dropping replication slots send.
use pgfga.Base.{String, ◌≡◌, refl, false, [], ◌∷◌, ◌⊎◌, inl, inr}
use pgfga.Pg.State.{absent, present, ◌=S=◌}
use pgfga.Pg.Server.{Server}
use pgfga.Pg.Conn.Act.{World, Statement, Act}
use pgfga.Pg.Conn.Keeps.{Keeps, Keeps-pure, Keeps-bind}
use pgfga.Pg.Conn.Adds.{Allows, Adds-Allows, Sends, Keeps-Sends, adds_rules}
use pgfga.Pg.Slot.{
  Slot, Slots, create_sql, drop_sql, exists, create, drop, reconcile_all, finalize_all,
}

-- Creating a slot of the map that is not absent, or dropping one that is not present, under the
-- name that the map has for it.
abbrev pub Creates : Slots → Statement → Type 0
Creates [] s = ⊥
Creates ((name, slot) ∷ slots) s =
    (((slot.state =S= absent) ≡ false) × (s.sql ≡ create_sql) × (s.args ≡ name ∷ []))
    ⊎ Creates slots s

abbrev pub Drops : Slots → Statement → Type 0
Drops [] s = ⊥
Drops ((name, slot) ∷ slots) s =
    (((slot.state =S= present) ≡ false) × (s.sql ≡ drop_sql) × (s.args ≡ name ∷ [])) ⊎ Drops slots s

module _ {C : Type 0} ⦃srv : Server C⦄ (P : Statement → Type 0) {kept : World C → Type 0}
    (allows : Allows P kept) where
  abbrev Add : Act C (Unit {0}) → Type 0
  Add m = Keeps kept m

  create-Adds :
      (slot : Slot)
      → ((slot.state =S= absent) ≡ false
          → (dsn : String) → P (record { dsn = dsn; sql = create_sql; args = slot.name ∷ [] }))
      → Add (create slot)
  unfolding create exists
  create-Adds slot p = search (adds_rules, p) depth 7

  drop-Adds :
      (slot : Slot)
      → ((slot.state =S= present) ≡ false
          → (dsn : String) → P (record { dsn = dsn; sql = drop_sql; args = slot.name ∷ [] }))
      → Add (drop slot)
  unfolding drop exists
  drop-Adds slot p = search (adds_rules, p) depth 7

  pub reconcile_all-Adds :
      (slots : Slots) → ((s : Statement) → Creates slots s → P s) → Add (reconcile_all slots)
  unfolding reconcile_all
  reconcile_all-Adds [] suits = Keeps-pure tt
  reconcile_all-Adds ((name, slot) ∷ slots) suits =
      Keeps-bind _ _
        (create-Adds (record slot { name = name }) (λ n dsn. suits _ (inl (n, refl, refl))))
        (λ _. reconcile_all-Adds slots (λ s h. suits s (inr h)))

  pub finalize_all-Adds :
      (slots : Slots) → ((s : Statement) → Drops slots s → P s) → Add (finalize_all slots)
  unfolding finalize_all
  finalize_all-Adds [] suits = Keeps-pure tt
  finalize_all-Adds ((name, slot) ∷ slots) suits =
      Keeps-bind _ _
        (drop-Adds (record slot { name = name }) (λ n dsn. suits _ (inl (n, refl, refl))))
        (λ _. finalize_all-Adds slots (λ s h. suits s (inr h)))

-- Bringing slots in line only creates slots of the map that are not absent, and finalizing them
-- only drops slots of the map that are not present.
pub slots_lem :
    {C : Type 0} ⦃srv : Server C⦄ (slots : Slots)
    → Sends (Creates slots) (reconcile_all {C = C} slots)
      × Sends (Drops slots) (finalize_all {C = C} slots)
slots_lem slots = (
  Keeps-Sends _ _ (λ log. reconcile_all-Adds _ (Adds-Allows _ log) slots (λ s h. h)),
  Keeps-Sends _ _ (λ log. finalize_all-Adds _ (Adds-Allows _ log) slots (λ s h. h)),
)
