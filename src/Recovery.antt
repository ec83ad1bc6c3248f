-- ===== src/Recovery.antt =====
-- `recoverStuck` of src/orders/sagaOrchestrator.ts and src/orders/recoverStuckOrders.ts: rolling
-- back the orders that a stopped process left behind.
pub mod Rollback
pub mod Previous
mod Tests
use supply_chain_mangement_s.Common.{
  ℕ, String, Bool, true, false, ◌||◌, Option, none, some, List, [], ◌∷◌, ◌==◌, length,
  if◌then◌else◌,
}
use supply_chain_mangement_s.Dict.{lookup}
use supply_chain_mangement_s.Exec.{Exec, pure, gets, ◌>>=◌, ◌>>◌}
use supply_chain_mangement_s.Types.{OrderStatus, Reservation, Detail, OrderEvent, Order}
use supply_chain_mangement_s.Orders
use supply_chain_mangement_s.Orders.{is_terminal_status}
use supply_chain_mangement_s.World.{World}
use supply_chain_mangement_s.Saga.{Completed, was, compensate, fail, must_get}

-- `order.history.some((h) => h.type === type)`
unfoldable pub has_event : String → List OrderEvent → Bool
has_event type [] = false
has_event type (e ∷ es) = e.type == type || has_event type es

-- `order.history.find((h) => h.type === type)`
unfoldable pub find_event : String → List OrderEvent → Option OrderEvent
find_event type [] = none
find_event type (e ∷ es) = if e.type == type then some e else find_event type es

abbrev reservations_in : Option Detail → List Reservation
reservations_in (some (Detail.reservations rs)) = rs
reservations_in _ = []

unfoldable pub reservations_from_history : Order → List Reservation
unfolding find_event
reservations_from_history order = elim (find_event "order.inventory_reserved" order.history) [
  | none ↦ []
  | some e ↦ reservations_in e.detail
]

unfoldable pub completed_steps : Order → Completed
unfolding has_event
completed_steps order = record {
  paid = has_event "order.payment_charged" order.history;
  shipped = has_event "order.shipping_scheduled" order.history;
}

-- `order.status` after the compensation. OrderStore gives out its own objects, which `updateStatus`
-- changes (`aliased`); PgOrderStore builds a new object for each read.
unfoldable pub current_status : (aliased : Bool) → Order → World → OrderStatus
current_status false order w = order.status
current_status true order w = elim (lookup order.id w.store) [
  | none ↦ order.status
  | some o ↦ o.status
]

unfoldable pub roll_back : (aliased : Bool) → Order → Exec World Order
roll_back aliased order = do
  compensate order.id (reservations_from_history order) (completed_steps order)
  status ← gets (current_status aliased order)
  fail order.id "RECOVERED_AFTER_RESTART" (was status)
  must_get order.id

unfoldable pub recover_stuck : (aliased : Bool) → Order → Exec World Order
recover_stuck aliased order =
    if is_terminal_status order.status then pure order else roll_back aliased order

-- `recoverStuckOrders`: the loop over the stuck orders, and their number.
unfoldable pub recover_each : (aliased : Bool) → List Order → Exec World (Unit {0})
recover_each aliased [] = pure tt
recover_each aliased (order ∷ orders) = do recover_stuck aliased order; recover_each aliased orders

unfoldable pub recover_stuck_orders : (aliased : Bool) → Exec World ℕ
recover_stuck_orders aliased = do
  stuck ← gets (λ w. Orders.non_terminal w.store)
  recover_each aliased stuck
  pure (length stuck)
