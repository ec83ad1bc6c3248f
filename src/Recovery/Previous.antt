-- ===== src/Recovery/Previous.antt =====
-- What the rollback records as the previous status.
use supply_chain_mangement_s.Common.{
  ℤ, ℕ, String, ◌≡◌, refl, ap, Bool, true, false, some, List, [], ◌∷◌, ◌++◌, arith, eq_refl,
  if◌then◌else◌,
}
use supply_chain_mangement_s.Dict.{lookup, lookup-insert}
use supply_chain_mangement_s.Exec.Returns.{Returns, Returns-bind}
use supply_chain_mangement_s.Types.{OrderStatus, Order, OrderEvent, Detail}
use supply_chain_mangement_s.Orders.{updated, get, visible, in_scope}
use supply_chain_mangement_s.World.{World}
use supply_chain_mangement_s.Inventory.Books.{Hold}
use supply_chain_mangement_s.Saga.{was, merge, transition, fail, compensate, must_get}
use supply_chain_mangement_s.Saga.Frame.{noted, moved, transition-ok, transition-store}
use supply_chain_mangement_s.Recovery.{
  reservations_from_history, completed_steps, current_status, roll_back, recover_stuck,
}
use supply_chain_mangement_s.Recovery.Rollback.{IsStuck, Compensated, compensate-stuck}

-- The last event of a history.
abbrev pub EndsWith : String → Detail → List OrderEvent → Type 0
EndsWith type detail history =
    (front : List OrderEvent) × (e : OrderEvent) × (history ≡ front ++ e ∷ [])
    × (e.type ≡ type)
    × (e.detail ≡ some detail)

transition-EndsWith :
    (base : Order) (status : OrderStatus) (type : String) (detail : Detail) (o : Order) (w : World)
    → lookup base.id w.store ≡ some o
    → Returns
        (transition base.id status type detail)
        (λ _ w'.
          (o' : Order) × (lookup base.id w'.store ≡ some o') × EndsWith type detail o'.history)
        w
unfolding updated
transition-EndsWith base status type detail o w found = (
  tt,
  noted base status type detail w,
  ap (λ r. (r, noted base status type detail w)) (transition-ok base status type detail w o found),
  (
    moved base status type detail w o,
    rw (transition-store base status type detail w o found) (rw (lookup-insert, eq_refl) refl),
    (
      o.history,
      record { type = type; at = w.env.clock w.reads; detail = some detail },
      refl,
      refl,
      refl,
    ),
  ),
)

must_get-EndsWith :
    (id : String) (type : String) (detail : Detail) (o : Order) (w : World)
    → lookup id w.store ≡ some o
    → EndsWith type detail o.history
    → Returns (must_get id) (λ o' _. EndsWith type detail o'.history) w
unfolding must_get get visible in_scope
must_get-EndsWith id type detail o w found ends = (o, w, ground (arith, found), ends)

module _ (start : ℕ) (total : String → ℤ) (hs : List Hold) (order : Order) (w : World)
    (stuck : IsStuck start total hs order w) where
  recorded :
      (aliased : Bool) (w1 : World)
      → Compensated start total hs order w stuck w1
      → current_status aliased order w1
        ≡ (if aliased then OrderStatus.compensating else order.status)
  unfolding current_status
  recorded false w1 at = refl
  recorded true w1 at = ground (arith, at.stands.found, at.stands.status)

  -- For an order that a stopped process left unfinished, under the conditions of its recovery
  -- (IsStuck), recovery returns the order with a last event order.cancelled for the reason
  -- RECOVERED_AFTER_RESTART. The previous status in it is the one that the order had before recovery
  -- if the store gives out copies, as the one in Postgres does; it is COMPENSATING, whatever the status
  -- was before, if the store gives out its own objects, as the one in process does.
  pub recover_stuck_records :
      (aliased : Bool)
      → Returns
          (recover_stuck aliased order)
          (λ o _.
            EndsWith "order.cancelled"
              (Detail.recovered "RECOVERED_AFTER_RESTART"
                (if aliased then OrderStatus.compensating else order.status))
              o.history)
          w
  unfolding recover_stuck roll_back fail merge
  recover_stuck_records aliased = rw stuck.unfinished (
      Returns-bind (compensate order.id (reservations_from_history order) (completed_steps order)) _
        w (compensate-stuck start total hs order w stuck)
        (λ _ w1 at. rw (recorded aliased w1 at) (
          Returns-bind
            (fail order.id "RECOVERED_AFTER_RESTART"
              (was (if aliased then OrderStatus.compensating else order.status)))
            _ w1
            (transition-EndsWith order OrderStatus.cancelled "order.cancelled"
              (Detail.recovered "RECOVERED_AFTER_RESTART"
                (if aliased then OrderStatus.compensating else order.status))
              at.stands.order w1 at.stands.found)
            (λ _ w2 p. must_get-EndsWith order.id "order.cancelled" _ p.0 w2 p.1 p.2))))
