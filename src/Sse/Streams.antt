-- ===== src/Sse/Streams.antt =====
-- What each dashboard client is sent, whatever the order of requests, closed connections and events.
use supply_chain_mangement_s.Common.{
  ℕ, suc, ◌≡◌, ◌∙◌, refl, sym, ap, Bool, true, false, Option, none, some, List, [], ◌∷◌, ◌++◌,
  append_assoc, append-nil, Bool-cases, inl, inr, if◌then◌else◌,
}
use supply_chain_mangement_s.Bytes.{◌===◌}
use supply_chain_mangement_s.EventBus.{DomainEvent, EventBus, Pass}
use supply_chain_mangement_s.EventBus.Keys.{split_key-group_key}
use supply_chain_mangement_s.EventBus.Delivery.{reads}
use supply_chain_mangement_s.EventBus.Publication.{published, publish-delivers}
use supply_chain_mangement_s.EventBus.Sole.{IsSole, deliver-sole, published-IsSole}
use supply_chain_mangement_s.EventBus.{group_key}
use supply_chain_mangement_s.Saga.{orders_topic}
use supply_chain_mangement_s.Sse.{
  Written, stream_head, connected, data_event, SseHub, add_client, on_close, broadcast, on_event,
  Step, connects, closes, publishes, run_steps,
}
use supply_chain_mangement_s.Sse.Clients.{
  has, IsDistinct, has-add, has-delete, add-IsDistinct, delete-IsDistinct, given_to,
  given_to-append, given_to-all,
}

reads-hub : reads orders_topic (group_key orders_topic "sse-hub") ≡ true
reads-hub = rw (split_key-group_key orders_topic "sse-hub" refl) refl

module _ {P : Type 0} where
  -- The hub is the one consumer of the bus, and it has read every event.
  abbrev pub IsWired : EventBus P (SseHub P) → Type 0
  IsWired bus = IsSole orders_topic "sse-hub" on_event bus

  -- What a client is sent: the two lines of each request, and each event while it is connected.
  abbrev pub stream : ℕ → (joined : Bool) → List (Step P) → List (Written P)
  stream client joined [] = []
  stream client joined (connects res ∷ steps) =
      if res === client
      then stream_head ∷ connected ∷ stream client true steps
      else stream client joined steps
  stream client joined (closes res ∷ steps) =
      stream client (if res === client then false else joined) steps
  stream client joined (publishes event ∷ steps) =
      if joined then data_event event ∷ stream client true steps else stream client false steps

  given : ℕ → SseHub P → List (Written P)
  given client hub = given_to client hub.written

  given-add_client :
      (client res : ℕ) (hub : SseHub P) (steps : List (Step P))
      → given_to client (add_client res hub).written
          ++ stream client (has client (add_client res hub).clients) steps
        ≡ given_to client hub.written
          ++ stream client (has client hub.clients) (connects res ∷ steps)
  unfolding add_client
  given-add_client client res hub steps = elim (Bool-cases (res === client)) [
    | inl e ↦
        rw (given_to-append client hub.written, has-add client res hub.clients, e)
          (append_assoc (given_to client hub.written) (stream_head ∷ connected ∷ [])
            (stream client true steps))
    | inr e ↦
        rw (given_to-append client hub.written, has-add client res hub.clients, e)
          (ap (λ w. w ++ stream client (has client hub.clients) steps)
            (append-nil (given_to client hub.written)))
  ]

  given-on_close :
      (client res : ℕ) (hub : SseHub P) (steps : List (Step P))
      → given_to client (on_close res hub).written
          ++ stream client (has client (on_close res hub).clients) steps
        ≡ given_to client hub.written ++ stream client (has client hub.clients) (closes res ∷ steps)
  unfolding on_close
  given-on_close client res hub steps = elim (Bool-cases (res === client)) [
    | inl e ↦ rw (has-delete client res hub.clients, e) refl
    | inr e ↦ rw (has-delete client res hub.clients, e) refl
  ]

  given-broadcast :
      (client : ℕ) (event : DomainEvent P) (hub : SseHub P) (steps : List (Step P))
      → IsDistinct hub.clients
      → given_to client (broadcast event hub).written
          ++ stream client (has client (broadcast event hub).clients) steps
        ≡ given_to client hub.written
          ++ stream client (has client hub.clients) (publishes event ∷ steps)
  unfolding broadcast
  given-broadcast client event hub steps h = elim (Bool-cases (has client hub.clients)) [
    | inl e ↦
        rw
          (
            given_to-append client hub.written,
            given_to-all client (data_event event) hub.clients h,
            e,
          )
          (append_assoc (given_to client hub.written) (data_event event ∷ [])
            (stream client true steps))
    | inr e ↦
        rw
          (
            given_to-append client hub.written,
            given_to-all client (data_event event) hub.clients h,
            e,
          )
          (ap (λ w. w ++ stream client false steps) (append-nil (given_to client hub.written)))
  ]

  -- Requests, closed connections and publications in any order, on a bus where the hub is the one
  -- consumer and has read every event, with no client listed twice: if each drain has two rounds or
  -- more, they return, and each response has been given, behind what it had, the head of the stream
  -- and the first comment at each of its requests and every event that was published while it was
  -- connected, once, in the order of publication, and nothing else.
  pub run_steps-stream :
      (fuel : ℕ) (steps : List (Step P)) (bus : EventBus P (SseHub P)) (hub : SseHub P)
      → IsWired bus
      → IsDistinct hub.clients
      → (bus' : EventBus P (SseHub P)) × (hub' : SseHub P) × (run_steps
            (suc (suc fuel))
            steps
            bus
            hub
          ≡ some (bus', hub'))
        × ((client : ℕ)
            → given_to client hub'.written
              ≡ given_to client hub.written ++ stream client (has client hub.clients) steps)
  unfolding run_steps on_event
  run_steps-stream fuel [] bus hub w h =
      (bus, hub, refl, λ client. sym (append-nil (given_to client hub.written)))
  run_steps-stream fuel (connects res ∷ steps) bus hub w h =
      let (bus', hub', e, s) =
        run_steps-stream fuel steps bus (add_client res hub) w
          (unfold add_client in add-IsDistinct res hub.clients h) in
      (bus', hub', e, λ client. s client ∙ given-add_client client res hub steps)
  run_steps-stream fuel (closes res ∷ steps) bus hub w h =
      let (bus', hub', e, s) =
        run_steps-stream fuel steps bus (on_close res hub) w
          (unfold on_close in delete-IsDistinct res hub.clients h) in
      (bus', hub', e, λ client. s client ∙ given-on_close client res hub steps)
  run_steps-stream fuel (publishes event ∷ steps) bus hub w h =
      let (bus', hub', e, s) =
        run_steps-stream fuel steps (published orders_topic event bus) (broadcast event hub)
          (published-IsSole orders_topic "sse-hub" on_event reads-hub event bus w)
          (unfold broadcast in h) in
      (
        bus',
        hub',
        ap
              (λ (o : Option (Pass P (SseHub P))). elim o [
                | none ↦ none
                | some p ↦ run_steps (suc (suc fuel)) steps p.bus p.state
              ])
              (publish-delivers orders_topic event bus fuel hub w.synced w.quiet)
            ∙ ap (run_steps (suc (suc fuel)) steps (published orders_topic event bus))
                (deliver-sole orders_topic "sse-hub" on_event reads-hub event bus w hub)
            ∙ e,
        λ client. s client ∙ given-broadcast client event hub steps h,
      )
