-- ===== src/Saga/Run.antt =====
-- `run` step by step, and its total correctness.
use supply_chain_mangement_s.Common.{
  ℕ, ◌≤◌, ℤ, String, ◌≡◌, ◌∙◌, refl, true, false, none, some, List, [], ◌∷◌, ◌++◌, arith,
  append_assoc, int_laws, zero-+ℤ,
}
use supply_chain_mangement_s.Dict.{lookup}
use supply_chain_mangement_s.Exec.Returns.{Returns, Returns-map, Returns-bind}
use supply_chain_mangement_s.Types.{OrderStatus, Order, Detail}
use supply_chain_mangement_s.Keys.{stock_key, reservation_key}
use supply_chain_mangement_s.Payments.{PaymentResult, paid, declined, payment_id_of, charge}
use supply_chain_mangement_s.Shipping.{
  ShippingResult, scheduled, unavailable, shipment_id_of, schedule,
}
use supply_chain_mangement_s.Orders.{get, visible, in_scope}
use supply_chain_mangement_s.Redis.Laws.{IsPersistent, level}
use supply_chain_mangement_s.World.{World, on_payments, on_shipping}
use supply_chain_mangement_s.Inventory.Books.{Hold, IsWindow, Books, held_qty}
use supply_chain_mangement_s.Saga.{
  Reserved, all_reserved, refused_at, transition, must_get, commit_all, because, at_line, abort,
  confirm, primary_warehouse, after_schedule, after_charge, after_reserve, reserve_lines, run,
}
use supply_chain_mangement_s.Saga.Frame.{SameOthers-refl, event_types}
use supply_chain_mangement_s.Saga.Loops.{reservations_of, demand, AfterLoop, reserve_lines-Books}
use supply_chain_mangement_s.Saga.Steps.{
  At, transition-At, At-of_outside, commit_all-At, must_get-At, AfterCharge, charge-At,
  AfterSchedule, schedule-At,
}
use supply_chain_mangement_s.Saga.Unwind.{abort-At}
use supply_chain_mangement_s.Saga.Outcome.{
  fulfilled, out_of_stock, payment_declined, no_courier, Outcome, cancelled-Outcome,
  confirmed-Outcome,
}

-- What `run` relies on: the readings, stock keys that do not expire, and ids not yet in use.
pub record IsReady (start : ℕ) (w : World) : Type 0 where
  pub window : IsWindow start w.env
  pub persistent : (a b : String) → IsPersistent (stock_key a b) w.redis
  pub fresh : (n : ℕ) → w.drawn ≤ n → lookup (reservation_key (w.env.uuids n)) w.redis.store ≡ none

module _ (start : ℕ) (base : Order) (first : World) where
  abbrev Ends : Order → World → Type 0
  Ends = Outcome base first

  abbrev pre : List String
  pre = event_types base.history

  abbrev total : String → ℤ
  total k = level k first.redis

  module _ (hs : List Hold) (sums : (k : String) → held_qty k hs ≡ demand k base.lines) where
    confirm-Outcome :
        (w : World)
        → At start base first OrderStatus.shipping_scheduled
            (((pre ++ "order.inventory_reserved" ∷ []) ++ "order.payment_charged" ∷ [])
              ++ "order.shipping_scheduled" ∷ [])
            total
            hs
            (some (payment_id_of base.id))
            (some (shipment_id_of base.id))
            w
        → Returns (confirm base (reservations_of hs)) Ends w
    unfolding confirm
    confirm-Outcome w at =
        Returns-bind (commit_all (reservations_of hs)) _ w (commit_all-At start base first w at)
          (λ _ w1 p1.
            Returns-bind (transition base.id OrderStatus.confirmed "order.confirmed" Detail.empty) _
              w1
              (transition-At start base first w1 p1 OrderStatus.confirmed "order.confirmed"
                Detail.empty)
              (λ _ w2 p2.
                Returns-map (must_get base.id) w2 (must_get-At start base first w2 p2) (λ o w3 p3.
                  confirmed-Outcome start base first hs o w3 p3.0 sums p3.1 p3.2
                    (fulfilled refl (simp append_assoc)))))

    after_schedule-Outcome :
        (r : ShippingResult) (w : World)
        → AfterSchedule start base first OrderStatus.payment_charged
            ((pre ++ "order.inventory_reserved" ∷ []) ++ "order.payment_charged" ∷ [])
            total
            hs
            (some (payment_id_of base.id))
            none
            r
            w
        → Returns (after_schedule base (reservations_of hs) r) Ends w
    unfolding after_schedule
    after_schedule-Outcome (scheduled id) w at =
        Returns-bind (transition base.id OrderStatus.shipping_scheduled _ (Detail.shipment id)) _ w
          (transition-At start base first w at OrderStatus.shipping_scheduled
            "order.shipping_scheduled" (Detail.shipment id))
          (λ _ w1 p1. confirm-Outcome w1 p1)
    after_schedule-Outcome (unavailable why) w (at, fails) =
        Returns-map (abort base (reservations_of hs) _ _ _) w
          (abort-At start base first w at (record { paid = true; shipped = false })
            "SHIPPING_FAILED" (because why))
          (λ o w1 p1.
            cancelled-Outcome start base first o w1 p1.0 p1.1 p1.2
              (no_courier fails refl (simp append_assoc)))

    after_charge-Outcome :
        (r : PaymentResult) (w : World)
        → AfterCharge start base first OrderStatus.inventory_reserved
            (pre ++ "order.inventory_reserved" ∷ [])
            total
            hs
            none
            none
            r
            w
        → Returns (after_charge base (reservations_of hs) r) Ends w
    unfolding after_charge
    after_charge-Outcome (paid id) w at =
        Returns-bind (transition base.id OrderStatus.payment_charged _ (Detail.payment id)) _ w
          (transition-At start base first w at OrderStatus.payment_charged "order.payment_charged"
            (Detail.payment id))
          (λ _ w1 p1.
            Returns-bind (on_shipping (schedule base.id (primary_warehouse base.lines))) _ w1
              (schedule-At start base first w1 p1 (primary_warehouse base.lines))
              after_schedule-Outcome)
    after_charge-Outcome (declined why) w (at, fails) =
        Returns-map (abort base (reservations_of hs) _ _ _) w
          (abort-At start base first w at (record { paid = false; shipped = false })
            "PAYMENT_FAILED" (because why))
          (λ o w1 p1.
            cancelled-Outcome start base first o w1 p1.0 p1.1 p1.2
              (payment_declined fails refl (simp append_assoc)))

  after_reserve-Outcome :
      (r : Reserved) (w w1 : World)
      → At start base first base.status pre total [] none none w
      → AfterLoop start total [] base.lines w r w1
      → Returns (after_reserve base r) Ends w1
  unfolding after_reserve held_qty
  after_reserve-Outcome (all_reserved rs) w w1 at (hs, same_rs, books, outside, sums) =
      let at1 = At-of_outside start base first w at w1 books outside in
      let all = λ (k : String). sums k ∙ zero-+ℤ (demand k base.lines) in
      rw same_rs (
        Returns-bind
          (transition base.id OrderStatus.inventory_reserved _
            (Detail.reservations (reservations_of hs)))
          _ w1
          (transition-At start base first w1 at1 OrderStatus.inventory_reserved
            "order.inventory_reserved" (Detail.reservations (reservations_of hs)))
          (λ _ w2 p2.
            Returns-bind (on_payments (charge base.id base.amount_cents)) _ w2
              (charge-At start base first w2 p2 base.amount_cents) (after_charge-Outcome hs all)))
  after_reserve-Outcome (refused_at line rs) w w1 at (hs, same_rs, books, outside, stop) =
      let at1 = At-of_outside start base first w at w1 books outside in
      rw same_rs (
        Returns-map (abort base (reservations_of hs) _ _ _) w1
          (abort-At start base first w1 at1 (record { paid = false; shipped = false })
            "INVENTORY_UNAVAILABLE" (at_line line.sku line.warehouse_id))
          (λ o w2 p2.
            cancelled-Outcome start base first o w2 p2.0 p2.1 p2.2
              (out_of_stock (line, stop) refl (simp append_assoc))))

ready-Books : (start : ℕ) (w : World) → IsReady start w → Books start (λ k. level k w.redis) [] w
unfolding held_qty
ready-Books start w ready = record {
  persistent = ready.persistent;
  fresh = ready.fresh;
  held = tt;
  distinct = tt;
  balance = λ a b. omega int_laws;
}

-- A run of a stored order that is neither charged nor shipped returns without an error, if the
-- clock stays within the life of a reservation, no stock key expires and no id that will be drawn
-- names a reservation yet (IsReady). The order ends CONFIRMED, its lines taken from stock for
-- good, charged and shipped; or it ends CANCELLED with every stock count as before, no charge and
-- no shipment. A cancellation has its reason: a line that is not positive or asks for more than
-- the lines before it leave of the stock, or a payment or a shipment that was set to fail. The
-- history grows by the events of the way taken through the saga, and no other order, its charge or
-- its shipment is touched.
pub run-Outcome :
    (start : ℕ) (order : Order) (w : World)
    → IsReady start w
    → lookup order.id w.store ≡ some order
    → lookup order.id w.payments.charges ≡ none
    → lookup order.id w.shipping.shipments ≡ none
    → Returns (run order.id) (Outcome order w) w
unfolding run must_get get visible in_scope
run-Outcome start order w ready stored uncharged unshipped =
    let at : At start order w order.status (event_types order.history) (λ k. level k w.redis) []
        none none w =
      record {
        window = ready.window;
        books = ready-Books start w ready;
        stands = record {
          order = order;
          found = stored;
          status = refl;
          types = refl;
          lines = refl;
          id = refl;
        };
        charge = uncharged;
        shipment = unshipped;
        others = SameOthers-refl order.id w;
        pay_fails = refl;
        ship_fails = refl;
      } in
    Returns-bind (must_get order.id) _ {P = λ o w'. (o ≡ order) × (w' ≡ w)} w
      (order, w, ground (arith, stored), (refl, refl))
      (λ o w1 p1.
        rw (p1.0, p1.1)
          (Returns-bind (reserve_lines order.lines []) _ w
            (reserve_lines-Books start (λ k. level k w.redis) order.lines [] w at.window at.books)
            (λ r w2 p2. after_reserve-Outcome start order w r w w2 at p2)))
