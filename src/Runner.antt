-- ===== src/Runner.antt =====
-- src/orders/asyncSagaRunner.ts: the subscriber that starts the saga for each created order. It does
-- not wait for the run, so what a delivery leaves behind is the id of the run that it has started.
pub mod Starts
mod Tests
use supply_chain_mangement_s.Common.{
  ℕ, String, Bool, true, false, Option, none, some, List, [], ◌∷◌, ◌++◌, ◌==◌, if◌then◌else◌,
}
use supply_chain_mangement_s.EventBus.{
  DomainEvent, EventBus, EventHandler, Pass, publish, subscribe,
}
use supply_chain_mangement_s.World.{OrderPayload}
use supply_chain_mangement_s.Saga.{orders_topic}

abbrev pub consumer_group : String
consumer_group = "saga-runner"

-- The runs started so far, in order.
abbrev pub Started : Type 0
Started = List String

-- `if (event.type !== "order.created") return; … void saga.run(orderId)`
unfoldable pub started_by : DomainEvent OrderPayload → Started
started_by event = if event.type == "order.created" then event.payload.order_id ∷ [] else []

unfoldable pub on_event : EventHandler OrderPayload Started
unfolding started_by
on_event event started = record {
  state = started ++ started_by event;
  published = [];
  threw = false;
}

-- `wireAsyncSagaExecution`
unfoldable pub wire_async_saga_execution :
    EventBus OrderPayload Started → EventBus OrderPayload Started
unfolding on_event
wire_async_saga_execution bus = subscribe orders_topic consumer_group on_event bus

-- Events published one after the other, each drain on the same fuel.
unfoldable pub publish_each :
    ℕ
    → List (DomainEvent OrderPayload)
    → EventBus OrderPayload Started
    → Started
    → Option (EventBus OrderPayload Started × Started)
publish_each fuel [] bus started = some (bus, started)
publish_each fuel (event ∷ events) bus started =
    elim (publish fuel orders_topic event bus started) [
      | none ↦ none
      | some p ↦ publish_each fuel events p.bus p.state
    ]
