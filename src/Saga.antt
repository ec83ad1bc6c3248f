-- ===== src/Saga.antt =====
-- src/orders/sagaOrchestrator.ts: the order saga and its compensation. The steps run in sequence;
-- the event bus is seen through its log of published events.
pub mod Loops
pub mod Frame
pub mod Steps
pub mod Unwind
pub mod Outcome
pub mod Run
pub mod Confirms
mod Tests
use supply_chain_mangement_s.Common.{
  ℤ, String, Bool, true, false, Option, none, some, List, [], ◌∷◌, ◌++◌,
}
use supply_chain_mangement_s.Exec.{Exec, ok, err, unknown_order, pure, modify, ◌>>=◌, ◌>>◌}
use supply_chain_mangement_s.Types.{
  OrderStatus, OrderLine, Reservation, Detail, Order, accepted, rejected,
}
use supply_chain_mangement_s.Metrics.{inc}
use supply_chain_mangement_s.Payments
use supply_chain_mangement_s.Payments.{PaymentResult, paid, declined}
use supply_chain_mangement_s.Shipping
use supply_chain_mangement_s.Shipping.{ShippingResult, scheduled, unavailable}
use supply_chain_mangement_s.Orders
use supply_chain_mangement_s.Orders.{unscoped}
use supply_chain_mangement_s.EventBus.{append_event}
use supply_chain_mangement_s.World.{World, now, random_uuid, on_store, on_payments, on_shipping}
use supply_chain_mangement_s.Inventory

abbrev pub orders_topic : String
orders_topic = "orders"

-- The private method `publish`
unfoldable pub publish : String → String → Detail → Exec World (Unit {0})
unfolding now append_event
publish order_id type detail = do
  t ← now
  modify λ w. record w {
    topics =
        append_event orders_topic
          (record {
            type = type;
            payload = record { order_id = order_id; detail = detail };
            at = t;
            key = some order_id;
          })
          w.topics;
  }

-- The label `status` of the outcome counter.
abbrev outcome_label : OrderStatus → Option String
outcome_label OrderStatus.confirmed = some "CONFIRMED"
outcome_label OrderStatus.cancelled = some "CANCELLED"
outcome_label _ = none

unfoldable pub count_outcome : OrderStatus → World → World
count_outcome status w = elim (outcome_label status) [
  | none ↦ w
  | some label ↦ record w {
    metrics = record w.metrics {
      saga_outcomes = inc (("status", label) ∷ []) w.metrics.saga_outcomes;
    };
  }
]

unfoldable pub transition : String → OrderStatus → String → Detail → Exec World (Unit {0})
unfolding now publish count_outcome
transition order_id status event_type detail = do
  at ← now
  t ← now
  on_store (
      Orders.update_status order_id status
        (record { type = event_type; at = at; detail = some detail }) t)
  publish order_id event_type detail
  modify (count_outcome status)

-- The argument `detail` of `fail`: `{ reason }`, `{ sku, warehouseId }` or `{ previousStatus }`.
pub data FailDetail : Type 0 where
  because : (reason : String) → FailDetail
  at_line : (sku warehouse_id : String) → FailDetail
  was : (previous_status : OrderStatus) → FailDetail

-- `{ reason, ...detail }`: a `reason` in `detail` takes the place of the first one.
unfoldable pub merge : String → FailDetail → Detail
merge reason (because cause) = Detail.refused cause
merge reason (at_line sku warehouse_id) = Detail.unavailable reason sku warehouse_id
merge reason (was status) = Detail.recovered reason status

unfoldable pub fail : String → String → FailDetail → Exec World (Unit {0})
unfolding merge
fail order_id reason detail =
    transition order_id OrderStatus.cancelled "order.cancelled" (merge reason detail)

unfoldable pub must_get : String → Exec World Order
must_get id w = elim (Orders.get id unscoped w.store) [
  | none ↦ (err (unknown_order id), w)
  | some o ↦ (ok o, w)
]

-- `completed`
pub record Completed : Type 0 where
  pub paid : Bool
  pub shipped : Bool

unfoldable pub release_all : List Reservation → Exec World (Unit {0})
release_all [] = pure tt
release_all (r ∷ rs) = do Inventory.release r.warehouse_id r.sku r.reservation_id; release_all rs

unfoldable pub cancel_shipment : Bool → String → Exec World (Unit {0})
cancel_shipment true id = on_shipping (λ p. (tt, Shipping.cancel id p))
cancel_shipment false id = pure tt

unfoldable pub refund_payment : Bool → String → Exec World (Unit {0})
refund_payment true id = on_payments (λ g. (tt, (Payments.refund id g).1))
refund_payment false id = pure tt

unfoldable pub compensate : String → List Reservation → Completed → Exec World (Unit {0})
compensate order_id reservations completed = do
  transition order_id OrderStatus.compensating "order.compensating" Detail.empty
  cancel_shipment completed.shipped order_id
  refund_payment completed.paid order_id
  release_all reservations

-- How the loop of step 1 ends: with all reservations, or at the line that was refused.
pub data Reserved : Type 0 where
  all_reserved : List Reservation → Reserved
  refused_at : OrderLine → List Reservation → Reserved

abbrev reservation_of : OrderLine → String → Reservation
reservation_of line id = record {
  warehouse_id = line.warehouse_id;
  sku = line.sku;
  reservation_id = id;
}

unfoldable pub reserve_lines : List OrderLine → List Reservation → Exec World Reserved
reserve_lines [] held w = (ok (all_reserved held), w)
reserve_lines (line ∷ lines) held w =
    let (r, w') = Inventory.reserve line.warehouse_id line.sku line.qty w in
    elim r [
      | err e ↦ (err e, w')
      | ok result ↦ elim result [
        | rejected why left ↦ (ok (refused_at line held), w')
        | accepted id left ↦ reserve_lines lines (held ++ reservation_of line id ∷ []) w'
      ]
    ]

-- The end of every failing branch of `run`.
unfoldable pub abort : Order → List Reservation → Completed → String → FailDetail → Exec World Order
abort order reservations completed reason detail = do
  compensate order.id reservations completed
  fail order.id reason detail
  must_get order.id

-- `for (const r of reservations) await this.inventory.commit(…)`
unfoldable pub commit_all : List Reservation → Exec World (Unit {0})
commit_all [] = pure tt
commit_all (r ∷ rs) = do Inventory.commit r.warehouse_id r.sku r.reservation_id; commit_all rs

-- Step 4
unfoldable pub confirm : Order → List Reservation → Exec World Order
confirm order reservations = do
  commit_all reservations
  transition order.id OrderStatus.confirmed "order.confirmed" Detail.empty
  must_get order.id

-- `order.lines[0]?.warehouseId ?? "unknown"`
unfoldable pub primary_warehouse : List OrderLine → String
primary_warehouse [] = "unknown"
primary_warehouse (line ∷ _) = line.warehouse_id

-- Step 3, on the result of `schedule`
unfoldable pub after_schedule : Order → List Reservation → ShippingResult → Exec World Order
after_schedule order reservations (unavailable why) =
    abort order reservations (record { paid = true; shipped = false }) "SHIPPING_FAILED"
      (because why)
after_schedule order reservations (scheduled shipment_id) = do
  transition order.id OrderStatus.shipping_scheduled "order.shipping_scheduled"
      (Detail.shipment shipment_id)
  confirm order reservations

-- Step 2, on the result of `charge`
unfoldable pub after_charge : Order → List Reservation → PaymentResult → Exec World Order
after_charge order reservations (declined why) =
    abort order reservations (record { paid = false; shipped = false }) "PAYMENT_FAILED"
      (because why)
after_charge order reservations (paid payment_id) = do
  transition order.id OrderStatus.payment_charged "order.payment_charged"
      (Detail.payment payment_id)
  shipment ← on_shipping (Shipping.schedule order.id (primary_warehouse order.lines))
  after_schedule order reservations shipment

-- The rest of `run` after the loop of step 1
unfoldable pub after_reserve : Order → Reserved → Exec World Order
after_reserve order (refused_at line held) =
    abort order held (record { paid = false; shipped = false }) "INVENTORY_UNAVAILABLE"
      (at_line line.sku line.warehouse_id)
after_reserve order (all_reserved held) = do
  transition order.id OrderStatus.inventory_reserved "order.inventory_reserved"
      (Detail.reservations held)
  payment ← on_payments (Payments.charge order.id order.amount_cents)
  after_charge order held payment

unfoldable pub run : String → Exec World Order
run order_id = do
  order ← must_get order_id
  reserved ← reserve_lines order.lines []
  after_reserve order reserved

unfoldable pub create_order : String → List OrderLine → ℤ → Option String → Exec World String
unfolding now random_uuid publish
create_order customer_id lines amount_cents business_id = do
  id ← random_uuid
  created_at ← now
  updated_at ← now
  modify λ w. record w {
    store =
        Orders.create
          (record {
            id = id;
            customer_id = customer_id;
            lines = lines;
            amount_cents = amount_cents;
            status = OrderStatus.created;
            history = [];
            created_at = created_at;
            updated_at = updated_at;
            business_id = business_id;
          })
          w.store;
  }
  publish id "order.created" (Detail.created customer_id lines amount_cents business_id)
  pure id
