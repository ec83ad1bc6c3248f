-- ===== src/Sse.antt =====
-- src/api/sseHub.ts: the dashboard clients, and the events of the topic "orders" that reach them. A
-- response has a number; `written` records what the responses were given, in that order.
pub mod Clients
pub mod Streams
mod Tests
use supply_chain_mangement_s.Common.{
  ℕ, Bool, not, false, Option, none, some, List, [], ◌∷◌, ◌++◌, map, keep, if◌then◌else◌,
}
use supply_chain_mangement_s.Bytes.{◌===◌}
use supply_chain_mangement_s.EventBus
use supply_chain_mangement_s.EventBus.{DomainEvent, EventBus, EventHandler, subscribe}
use supply_chain_mangement_s.Saga.{orders_topic}

-- What a response is given: the head of the stream, the comment `: connected`, and an event as its
-- JSON text behind `data: `.
pub data Written (P : Type 0) : Type 0 where
  stream_head : Written P
  connected : Written P
  data_event : DomainEvent P → Written P

pub record SseHub (P : Type 0) : Type 0 where
  pub clients : List ℕ
  pub written : List (ℕ × Written P)

-- `Set.add` and `Set.delete`
unfoldable pub add : ℕ → List ℕ → List ℕ
add client [] = client ∷ []
add client (c ∷ clients) =
    let rest = add client clients in if c === client then c ∷ clients else c ∷ rest

unfoldable pub delete : ℕ → List ℕ → List ℕ
delete client [] = []
delete client (c ∷ clients) =
    let rest = delete client clients in if c === client then rest else c ∷ rest

module _ {P : Type 0} where
  unfoldable pub add_client : ℕ → SseHub P → SseHub P
  unfolding add
  add_client res hub = record {
    clients = add res hub.clients;
    written = hub.written ++ (res, stream_head) ∷ (res, connected) ∷ [];
  }

  -- The listener of the response's "close".
  unfoldable pub on_close : ℕ → SseHub P → SseHub P
  unfolding delete
  on_close res hub = record hub { clients = delete res hub.clients }

  unfoldable pub broadcast : DomainEvent P → SseHub P → SseHub P
  broadcast event hub = record hub {
    written = hub.written ++ map (λ client. (client, data_event event)) hub.clients;
  }

  unfoldable pub on_event : EventHandler P (SseHub P)
  unfolding broadcast
  on_event event hub = record { state = broadcast event hub; published = []; threw = false }

  -- The constructor.
  unfoldable pub build_sse_hub : EventBus P (SseHub P) → EventBus P (SseHub P)
  unfolding on_event
  build_sse_hub bus = subscribe orders_topic "sse-hub" on_event bus

-- What happens to a hub: a request, the end of one, or a publication on the topic "orders".
pub data Step (P : Type 0) : Type 0 where
  connects : ℕ → Step P
  closes : ℕ → Step P
  publishes : DomainEvent P → Step P

module _ {P : Type 0} where
  -- Steps one after the other, each drain on the same fuel.
  unfoldable pub run_steps :
      ℕ
      → List (Step P)
      → EventBus P (SseHub P)
      → SseHub P
      → Option (EventBus P (SseHub P) × SseHub P)
  unfolding add_client on_close
  run_steps fuel [] bus hub = some (bus, hub)
  run_steps fuel (connects res ∷ steps) bus hub = run_steps fuel steps bus (add_client res hub)
  run_steps fuel (closes res ∷ steps) bus hub = run_steps fuel steps bus (on_close res hub)
  run_steps fuel (publishes event ∷ steps) bus hub =
      elim (EventBus.publish fuel orders_topic event bus hub) [
        | none ↦ none
        | some p ↦ run_steps fuel steps p.bus p.state
      ]
