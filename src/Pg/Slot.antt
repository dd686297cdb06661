-- ===== src/Pg/Slot.antt =====
-- pkg/pg/replicationslot.go: physical replication slots.
pub mod Laws
pub mod Converging
use pgfga.Base.{String, Bool, List, [], ◌∷◌, ◌=ℕ=◌, if◌then◌else◌}
use pgfga.GoMap.{Map}
use pgfga.Pg.State.{State, present, absent, ◌=S=◌}
use pgfga.Pg.Server.{Server}
use pgfga.Pg.Conn.Act.{Act, by_value, done, ◌>>=◌, ◌>>◌}
use pgfga.Pg.Conn.Query.{run_query_exists, run_query_exec}

-- replicationSlot
pub record Slot : Type 0 where
  pub name : String
  pub state : State

-- replicationSlots
abbrev pub Slots : Type 0
Slots = Map Slot

abbrev pub slot_query : String
slot_query = "SELECT slot_name FROM pg_replication_slots WHERE slot_name = $1"

abbrev pub create_sql : String
create_sql = "SELECT pg_create_physical_replication_slot($1)"

abbrev pub drop_sql : String
drop_sql = "SELECT pg_drop_replication_slot($1)"

module _ {C : Type 0} ⦃srv : Server C⦄ where
  -- replicationSlot.exists
  unfoldable pub exists : Slot → Act C Bool
  exists rs = by_value (run_query_exists slot_query (rs.name ∷ []))

  -- replicationSlot.drop
  unfoldable pub drop : Slot → Act C (Unit {0})
  drop rs =
      if rs.state =S= present
      then done
      else by_value
          do found ← exists rs; if found then run_query_exec drop_sql (rs.name ∷ []) else done

  -- replicationSlot.create
  unfoldable pub create : Slot → Act C (Unit {0})
  create rs =
      if rs.state =S= absent
      then done
      else by_value
          do found ← exists rs; if found then done else run_query_exec create_sql (rs.name ∷ [])

  -- replicationSlots.reconcile
  unfoldable pub reconcile_all : Slots → Act C (Unit {0})
  reconcile_all [] = done
  reconcile_all ((slot_name, slot) ∷ rs) =
      create (record slot { name = slot_name }) >> reconcile_all rs

  -- replicationSlots.finalize
  unfoldable pub finalize_all : Slots → Act C (Unit {0})
  finalize_all [] = done
  finalize_all ((slot_name, slot) ∷ rs) = drop (record slot { name = slot_name }) >> finalize_all rs
