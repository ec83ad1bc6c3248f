-- ===== src/Saga/Tests.antt =====
-- The saga at concrete states.
use supply_chain_mangement_s.Common.{
  pos, ◌≤ℤ◌, ◌+ℤ◌, ◌-ℤ◌, String, ◌≡◌, refl, none, some, arith, eq_iff,
}
use supply_chain_mangement_s.Dict.{lookup, insert, erase, contains}
use supply_chain_mangement_s.EventBus.{append_event, history}
use supply_chain_mangement_s.Inventory.{reserve, commit}
use supply_chain_mangement_s.Keys.{stock_key, reservation_key}
use supply_chain_mangement_s.Metrics.{inc, observe, same_labels}
use supply_chain_mangement_s.Orders.{get, visible, in_scope, update_status, updated}
use supply_chain_mangement_s.Payments.{charge, payment_id_of}
use supply_chain_mangement_s.Redis.{eval_reserve, eval_release, is_expired, drop_key}
use supply_chain_mangement_s.Shipping.{schedule, shipment_id_of}
use supply_chain_mangement_s.World.{now}
use supply_chain_mangement_s.Exec.Returns.{Returns}
use supply_chain_mangement_s.Types.{OrderStatus}
use supply_chain_mangement_s.Redis.Laws.{level}
use supply_chain_mangement_s.Saga.{
  run, must_get, reserve_lines, after_reserve, after_charge, after_schedule, confirm, commit_all,
  transition, publish, count_outcome, primary_warehouse,
}
use supply_chain_mangement_s.Saga.Loops.{demand}
use supply_chain_mangement_s.Saga.Outcome.{Outcome}
use supply_chain_mangement_s.Saga.Run.{run-Outcome}
use supply_chain_mangement_s.Saga.Confirms.{run-confirms}
use supply_chain_mangement_s.Sample.{order, world, world-IsReady, laptops}

world-stored : lookup "o1" world.store ≡ some order
unfolding lookup
world-stored = refl

world-uncharged : lookup "o1" world.payments.charges ≡ none
unfolding lookup
world-uncharged = refl

world-unshipped : lookup "o1" world.shipping.shipments ≡ none
unfolding lookup
world-unshipped = refl

run-Outcome_example : Returns (run "o1") (λ o w'. Outcome order world o w') world
run-Outcome_example =
    run-Outcome 43200000 order world world-IsReady world-stored world-uncharged world-unshipped

enough : (k : String) → demand k order.lines ≤ℤ level k world.redis
unfolding demand lookup ◌+ℤ◌
enough k = ground (arith, eq_iff laptops k)

run-confirms_example :
    Returns (run "o1") (λ o w'. (o.status ≡ OrderStatus.confirmed) × Outcome order world o w') world
run-confirms_example =
    run-confirms 43200000 order world world-IsReady world-stored world-uncharged world-unshipped
      (omega arith, tt) enough refl refl

-- The saga of the sample order, evaluated: five laptops become three.
run_sample : level laptops (run "o1" world).1.redis ≡ pos 3
unfolding run must_get get visible in_scope reserve_lines reserve after_reserve after_charge
    after_schedule confirm commit_all commit transition update_status publish charge schedule
    payment_id_of shipment_id_of stock_key reservation_key lookup insert erase contains eval_reserve
    eval_release is_expired drop_key inc observe now append_event history count_outcome same_labels
    updated primary_warehouse ◌+ℤ◌ ◌-ℤ◌
run_sample = refl
