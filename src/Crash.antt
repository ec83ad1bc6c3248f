-- ===== src/Crash.antt =====
-- scripts/chaos/crash-mid-saga.ts: a process that creates an order, reserves its stock, records the
-- reservation in the order's history, and is killed. Its order store is the one in Postgres, whose
-- `updatedAt` is the event's time.
mod Tests
pub mod Recovered
use supply_chain_mangement_s.Common.{
  ℕ, ℤ, pos, leb_ℤ, String, Bool, true, false, not, ◌||◌, ◌&&◌, Option, none, some, List, [], ◌∷◌,
  if◌then◌else◌,
}
use supply_chain_mangement_s.Exec.{Exec, ok, pure, modify, ◌>>=◌, ◌>>◌}
use supply_chain_mangement_s.Text.{truthy}
use supply_chain_mangement_s.Types.{
  OrderStatus, OrderLine, Detail, OrderEvent, Order, ReservationResult, accepted, rejected,
}
use supply_chain_mangement_s.Dict.{contains}
use supply_chain_mangement_s.Orders
use supply_chain_mangement_s.Orders.{OrderStore}
use supply_chain_mangement_s.Postgres.{fits_integer}
use supply_chain_mangement_s.PgOrders.Creation.{valid_lines}
use supply_chain_mangement_s.World.{World, now, random_uuid, on_store}
use supply_chain_mangement_s.Inventory.{reserve}

-- How the process ends: by its `catch` or `process.exit(code)`, or killed after it printed the order's id.
pub data Exit : Type 0 where
  exited : (code : ℕ) → Exit
  killed : (order_id : String) → Exit

abbrev pub chaos_order : String → String → String → ℤ → ℕ → Order
chaos_order id sku warehouse_id qty at = record {
  id = id;
  customer_id = "cust-chaos";
  lines = record { sku = sku; qty = qty; warehouse_id = warehouse_id } ∷ [];
  amount_cents = pos 4999;
  status = OrderStatus.created;
  history = [];
  created_at = at;
  updated_at = at;
  business_id = none;
}

abbrev pub reserved_event : String → String → String → ℕ → OrderEvent
reserved_event sku warehouse_id reservation_id at = record {
  type = "order.inventory_reserved";
  at = at;
  detail = some (
      Detail.reservations
        (record { warehouse_id = warehouse_id; sku = sku; reservation_id = reservation_id } ∷ []));
}

-- Whether Postgres takes a new order: the constraints of its tables (PgOrders.Creation).
unfoldable pub can_create : Order → OrderStore → Bool
unfolding contains
can_create o store =
    fits_integer o.amount_cents
    && not (leb_ℤ o.amount_cents (pos 0))
    && not (contains o.id store)
    && valid_lines [] o.lines

-- `store.create(order)`; false is a throw, after which nothing is stored.
unfoldable pub create_stored : Order → Exec World Bool
unfolding can_create
create_stored o w =
    if can_create o w.store
    then (ok true, record w { store = Orders.create o w.store })
    else (ok false, w)

-- After the reservation.
unfoldable pub record_reservation : String → String → String → ReservationResult → Exec World Exit
unfolding now
record_reservation order_id sku warehouse_id (rejected reason remaining) = pure (exited 3)
record_reservation order_id sku warehouse_id (accepted reservation_id remaining) = do
  at ← now
  on_store (
      Orders.update_status order_id OrderStatus.inventory_reserved
        (reserved_event sku warehouse_id reservation_id at) at)
  pure (killed order_id)

-- After the creation; a throw ends in the `catch` of `main`.
unfoldable pub after_create : String → String → String → ℤ → Bool → Exec World Exit
unfolding record_reservation
after_create id sku warehouse_id qty false = pure (exited 1)
after_create id sku warehouse_id qty true = do
  reservation ← reserve warehouse_id sku qty
  record_reservation id sku warehouse_id reservation

-- From the creation on.
unfoldable pub reserve_and_crash : String → String → ℤ → Exec World Exit
unfolding now random_uuid create_stored after_create
reserve_and_crash sku warehouse_id qty = do
  at ← now
  id ← random_uuid
  stored ← create_stored (chaos_order id sku warehouse_id qty at)
  after_create id sku warehouse_id qty stored

-- `main` on its arguments, the quantity an integer.
unfoldable pub crash_mid_saga : Option String → Option String → ℤ → Exec World Exit
unfolding reserve_and_crash
crash_mid_saga none warehouse_id qty = pure (exited 2)
crash_mid_saga (some sku) none qty = pure (exited 2)
crash_mid_saga (some sku) (some warehouse_id) qty =
    if truthy (some sku)
    then if truthy (some warehouse_id)
      then reserve_and_crash sku warehouse_id qty
      else pure (exited 2)
    else pure (exited 2)
