-- ===== src/Pg/Handler/Finalizing.antt =====
-- Which statements Finalize sends.
use pgfga.Pg.Server.{Server}
use pgfga.Pg.Conn.Act.{World, Statement}
use pgfga.Pg.Conn.Keeps.{Keeps}
use pgfga.Pg.Conn.Adds.{Allows, Adds-Allows, Sends, Keeps-Sends, Keeps-cons, Keeps-nil}
use pgfga.Pg.Role.Finalizing as RoleLaws
use pgfga.Pg.Role.Finalizing.{DropsRoles}
use pgfga.Pg.Grant.Laws as GrantLaws
use pgfga.Pg.Grant.Laws.{Revokes}
use pgfga.Pg.Slot.Laws as SlotLaws
use pgfga.Pg.Slot.Laws.{Drops}
use pgfga.Pg.Database.Laws as DatabaseLaws
use pgfga.Pg.Database.Laws.{DropsDatabases}
use pgfga.Pg.Handler.{Handler, finalize}
use pgfga.Pg.Handler.Steps.{on_primary-Adds}

-- The statements that remove what the wanted state of a cluster does not have as present.
pub data FinalizeStatement (h : Handler) (s : Statement) : Type 0 where
  for_databases : DropsDatabases h.databases s → FinalizeStatement h s
  for_grants : Revokes h.grants s → FinalizeStatement h s
  for_roles : DropsRoles h.roles s → FinalizeStatement h s
  for_slots : Drops h.slots s → FinalizeStatement h s

module _ {C : Type 0} ⦃srv : Server C⦄ (P : Statement → Type 0) {kept : World C → Type 0}
    (allows : Allows P kept) where
  finalize-Adds :
      (h : Handler) → ((s : Statement) → FinalizeStatement h s → P s) → Keeps kept (finalize h)
  unfolding finalize
  finalize-Adds h suits = on_primary-Adds P allows _ _ (
      Keeps-cons _ _
        (DatabaseLaws.finalize_all-Adds P allows h.databases (λ s q. suits s (for_databases q)))
        (Keeps-cons _ _
          (GrantLaws.finalize_all-Adds P allows h.grants (λ s q. suits s (for_grants q)))
          (Keeps-cons _ _
            (RoleLaws.finalize_all-Adds P allows h.roles (λ s q. suits s (for_roles q)))
            (Keeps-cons _ _
              (SlotLaws.finalize_all-Adds P allows h.slots (λ s q. suits s (for_slots q)))
              Keeps-nil))))

-- Finalize, whatever the wanted state and the server, sends only statements that remove something
-- of the wanted state that is not present: they drop a database, revoke one role of a grant from
-- the other, hand what a role owns to another role, drop a role, or drop a slot.
pub finalize-FinalizeStatement :
    {C : Type 0} ⦃srv : Server C⦄ (h : Handler) → Sends (FinalizeStatement h) (finalize {C = C} h)
finalize-FinalizeStatement h =
    Keeps-Sends _ _ (λ log. finalize-Adds _ (Adds-Allows _ log) h (λ s q. q))
