-- ===== src/Runner/Tests.antt =====
-- The runner on a new bus.
use supply_chain_mangement_s.Common.{
  String, ◌≡◌, refl, false, some, List, [], ◌∷◌, ◌++◌, ◌==◌, inl, inr, Bool-cases,
}
use supply_chain_mangement_s.Dict.{lookup, insert, contains}
use supply_chain_mangement_s.Types.{Detail}
use supply_chain_mangement_s.EventBus.{DomainEvent, EventBus, history, subscribe, group_key}
use supply_chain_mangement_s.EventBus.Delivery.{IsQuiet}
use supply_chain_mangement_s.EventBus.Publication.{AllQuiet}
use supply_chain_mangement_s.World.{OrderPayload}
use supply_chain_mangement_s.Runner.{Started, on_event, wire_async_saga_execution, publish_each}
use supply_chain_mangement_s.Runner.Starts.{IsWired, created_orders, publish_each-runs}

abbrev new_bus : EventBus OrderPayload Started
new_bus = record { topics = []; group_cursors = []; group_handlers = []; draining = false }

abbrev bus : EventBus OrderPayload Started
bus = wire_async_saga_execution new_bus

abbrev event : String → String → DomainEvent OrderPayload
event type id = record {
  type = type;
  payload = record { order_id = id; detail = Detail.empty };
  at = 0;
  key = some id;
}

abbrev events : List (DomainEvent OrderPayload)
events = event "order.created" "o1" ∷ event "order.confirmed" "o1" ∷ event "order.created" "o2" ∷ []

on_event-IsQuiet : IsQuiet on_event
unfolding on_event
on_event-IsQuiet e s = (refl, refl)

bus-AllQuiet : AllQuiet bus
unfolding wire_async_saga_execution subscribe group_key lookup insert contains
bus-AllQuiet key = elim (Bool-cases ("orders:saga-runner" == key)) [
  | inl e ↦ rw e (on_event-IsQuiet, tt)
  | inr n ↦ rw n tt
]

bus-IsWired : IsWired bus
unfolding wire_async_saga_execution subscribe group_key history lookup insert contains
bus-IsWired = record {
  synced = record { idle = refl; read = (λ r. refl, tt); distinct = (tt, tt) };
  quiet = bus-AllQuiet;
  cursor = 0;
  groups = refl;
  handlers = refl;
}

publish_each-runs_example :
    (bus' : EventBus OrderPayload Started) × (publish_each 2 events bus []
      ≡ some (bus', [] ++ created_orders events))
    × IsWired bus'
publish_each-runs_example = publish_each-runs 0 events bus [] bus-IsWired

-- Two orders are created and one is confirmed in between.
runs_sample : created_orders events ≡ "o1" ∷ "o2" ∷ []
runs_sample = refl
