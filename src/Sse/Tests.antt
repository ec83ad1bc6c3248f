-- ===== src/Sse/Tests.antt =====
-- src/api/sseHub.ts: a hub on a new bus, with two dashboards of which one leaves.
use supply_chain_mangement_s.Common.{
  ℕ, ◌≡◌, refl, false, none, some, List, [], ◌∷◌, ◌++◌, ◌==◌, inl, inr, Bool-cases,
}
use supply_chain_mangement_s.Dict.{lookup, insert, contains}
use supply_chain_mangement_s.EventBus.{DomainEvent, EventBus, history, subscribe, group_key}
use supply_chain_mangement_s.EventBus.Publication.{AllQuiet}
use supply_chain_mangement_s.Sse.{
  SseHub, stream_head, connected, data_event, on_event, build_sse_hub, Step, connects, closes,
  publishes, run_steps,
}
use supply_chain_mangement_s.Sse.Clients.{has, given_to}
use supply_chain_mangement_s.Sse.Streams.{IsWired, stream, run_steps-stream}

abbrev new_bus : EventBus ℕ (SseHub ℕ)
new_bus = record { topics = []; group_cursors = []; group_handlers = []; draining = false }

abbrev bus : EventBus ℕ (SseHub ℕ)
bus = build_sse_hub new_bus

abbrev hub : SseHub ℕ
hub = record { clients = []; written = [] }

abbrev event : ℕ → DomainEvent ℕ
event n = record { type = "order.created"; payload = n; at = n; key = none }

abbrev steps : List (Step ℕ)
steps =
    publishes (event 0)
    ∷ connects 7
    ∷ publishes (event 1)
    ∷ connects 8
    ∷ closes 7
    ∷ publishes (event 2)
    ∷ []

bus-AllQuiet : AllQuiet bus
unfolding build_sse_hub subscribe group_key lookup insert contains on_event
bus-AllQuiet key = elim (Bool-cases ("orders:sse-hub" == key)) [
  | inl e ↦ rw e ((λ v s. (refl, refl)), tt)
  | inr n ↦ rw n tt
]

bus-IsWired : IsWired bus
unfolding build_sse_hub subscribe group_key history lookup insert contains
bus-IsWired = record {
  synced = record { idle = refl; read = (λ r. refl, tt); distinct = (tt, tt) };
  quiet = bus-AllQuiet;
  cursor = 0;
  groups = refl;
  handlers = refl;
}

run_steps-stream_example :
    (bus' : EventBus ℕ (SseHub ℕ)) × (hub' : SseHub ℕ) × (run_steps 2 steps bus hub
      ≡ some (bus', hub'))
    × ((client : ℕ)
        → given_to client hub'.written
          ≡ given_to client hub.written ++ stream client (has client hub.clients) steps)
run_steps-stream_example = run_steps-stream 0 steps bus hub bus-IsWired tt

first_dashboard : stream 7 false steps ≡ stream_head ∷ connected ∷ data_event (event 1) ∷ []
first_dashboard = refl

second_dashboard : stream 8 false steps ≡ stream_head ∷ connected ∷ data_event (event 2) ∷ []
second_dashboard = refl
