-- ===== src/Saga/Unwind.antt =====
-- The failing branches of `run`: compensation and the transition to CANCELLED.
use supply_chain_mangement_s.Common.{
  ℕ, ℤ, String, ◌≡◌, Option, none, some, List, [], ◌∷◌, ◌++◌, if◌then◌else◌,
}
use supply_chain_mangement_s.Dict.{lookup}
use supply_chain_mangement_s.Exec.Returns.{Returns, Returns-bind}
use supply_chain_mangement_s.Types.{OrderStatus, Order, Detail}
use supply_chain_mangement_s.World.{World}
use supply_chain_mangement_s.Inventory.Books.{Hold}
use supply_chain_mangement_s.Saga.{
  Completed, transition, cancel_shipment, refund_payment, compensate, FailDetail, merge, fail,
  abort,
}
use supply_chain_mangement_s.Saga.Loops.{reservations_of}
use supply_chain_mangement_s.Saga.Steps.{
  At, transition-At, release_all-At, must_get-At, refund_payment-At, cancel_shipment-At,
}

module _ (start : ℕ) (base : Order) (first : World) where
  module _ {st : OrderStatus} {ts : List String} {total : String → ℤ} {hs : List Hold}
      {charged shipped : Option String} (w : World)
      (at : At start base first st ts total hs charged shipped w) (done : Completed) where
    -- Compensation releases every hold, refunds and cancels what was completed.
    pub compensate-At :
        Returns
          (compensate base.id (reservations_of hs) done)
          (λ _.
            At start base first OrderStatus.compensating
              (ts ++ "order.compensating" ∷ [])
              total
              []
              (if done.paid then none else charged)
              (if done.shipped then none else shipped))
          w
    unfolding compensate
    compensate-At =
        Returns-bind (transition base.id OrderStatus.compensating "order.compensating" Detail.empty)
          _ w
          (transition-At start base first w at OrderStatus.compensating "order.compensating"
            Detail.empty)
          (λ _ w1 p1.
            Returns-bind (cancel_shipment done.shipped base.id) _ w1
              (cancel_shipment-At start base first w1 p1 done.shipped)
              (λ _ w2 p2.
                Returns-bind (refund_payment done.paid base.id) _ w2
                  (refund_payment-At start base first w2 p2 done.paid)
                  (λ _ w3 p3. release_all-At start base first w3 p3)))

    -- The state in which every failing branch ends.
    abbrev pub Aborted : Order → World → Type 0
    Aborted o w' =
        At start base first OrderStatus.cancelled
          ((ts ++ "order.compensating" ∷ []) ++ "order.cancelled" ∷ []) total []
          (if done.paid then none else charged) (if done.shipped then none else shipped) w'
        × (lookup base.id w'.store ≡ some o)
        × (o.status ≡ OrderStatus.cancelled)

    pub abort-At :
        (reason : String) (detail : FailDetail)
        → Returns (abort base (reservations_of hs) done reason detail) Aborted w
    unfolding abort fail
    abort-At reason detail =
        Returns-bind (compensate base.id (reservations_of hs) done) _ w compensate-At (λ _ w1 p1.
          Returns-bind (fail base.id reason detail) _ w1
            (transition-At start base first w1 p1 OrderStatus.cancelled "order.cancelled"
              (merge reason detail))
            (λ _ w2 p2. must_get-At start base first w2 p2))
