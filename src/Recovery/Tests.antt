-- ===== src/Recovery/Tests.antt =====
-- Recovery at a concrete state: an order that was stopped after its payment.
use supply_chain_mangement_s.Common.{refl, false, arith}
use supply_chain_mangement_s.Dict.{lookup}
use supply_chain_mangement_s.Exec.Returns.{Returns}
use supply_chain_mangement_s.Types.{OrderStatus, Detail}
use supply_chain_mangement_s.Orders.{is_terminal_status}
use supply_chain_mangement_s.Sample.{env-IsWindow}
use supply_chain_mangement_s.Recovery.{
  recover_stuck, reservations_from_history, completed_steps, has_event, find_event,
}
use supply_chain_mangement_s.Recovery.Rollback.{IsStuck, RolledBack, recover_stuck-RolledBack}
use supply_chain_mangement_s.Recovery.Previous.{EndsWith, recover_stuck_records}
use supply_chain_mangement_s.Sample.Stopped.{holds, charged_order, charged_world, five, books}

stuck : IsStuck 43200000 five holds charged_order charged_world
unfolding lookup reservations_from_history find_event completed_steps has_event is_terminal_status
stuck = record {
  window = env-IsWindow;
  books = books;
  stored = refl;
  unfinished = refl;
  reserved = refl;
  paid = λ h. ground (arith, h);
  shipped = λ h. refl;
}

recover_stuck-RolledBack_example :
    Returns
      (recover_stuck false charged_order)
      (RolledBack five charged_order charged_world)
      charged_world
recover_stuck-RolledBack_example =
    recover_stuck-RolledBack 43200000 five holds charged_order charged_world stuck false

-- The order was stopped after its payment.
recover_stuck_records_example :
    Returns
      (recover_stuck false charged_order)
      (λ o _.
        EndsWith "order.cancelled"
          (Detail.recovered "RECOVERED_AFTER_RESTART" OrderStatus.payment_charged)
          o.history)
      charged_world
recover_stuck_records_example =
    recover_stuck_records 43200000 five holds charged_order charged_world stuck false
