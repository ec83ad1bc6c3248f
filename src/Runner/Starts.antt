-- ===== src/Runner/Starts.antt =====
-- Each created order is run once, in the order of creation.
use supply_chain_mangement_s.Common.{
  ℕ, suc, ◌≡◌, ◌∙◌, refl, sym, ap, true, Option, none, some, List, [], ◌∷◌, ◌++◌, append_assoc,
  append-nil, map, keep, String, ◌==◌, Bool-cases, inl, inr,
}
use supply_chain_mangement_s.EventBus.{DomainEvent, EventBus, Pass, group_key}
use supply_chain_mangement_s.EventBus.Keys.{split_key-group_key}
use supply_chain_mangement_s.EventBus.Sole.{IsSole, deliver-sole, published-IsSole}
use supply_chain_mangement_s.EventBus.Delivery.{reads}
use supply_chain_mangement_s.EventBus.Publication.{published, publish-delivers}
use supply_chain_mangement_s.World.{OrderPayload}
use supply_chain_mangement_s.Saga.{orders_topic}
use supply_chain_mangement_s.Runner.{Started, consumer_group, started_by, on_event, publish_each}

-- The runner is the one group of the bus, and it has read every event.
abbrev pub IsWired : EventBus OrderPayload Started → Type 0
IsWired bus = IsSole orders_topic consumer_group on_event bus

-- The orders that the `order.created` events of a list name.
abbrev pub created_orders : List (DomainEvent OrderPayload) → List String
created_orders events =
    map (λ event. event.payload.order_id) (keep (λ event. event.type == "order.created") events)

created_orders-cons :
    (event : DomainEvent OrderPayload) (events : List (DomainEvent OrderPayload))
    → started_by event ++ created_orders events ≡ created_orders (event ∷ events)
unfolding started_by
created_orders-cons event events = elim (Bool-cases (event.type == "order.created")) [
  | inl e ↦ rw e refl
  | inr e ↦ rw e refl
]

reads-runner : reads orders_topic (group_key orders_topic consumer_group) ≡ true
reads-runner = rw (split_key-group_key orders_topic consumer_group refl) refl

-- On a bus where the runner is the one group and has read every event, any sequence of events
-- published on the topic "orders" returns, if each drain has two rounds or more, and starts one run
-- for each `order.created` event, for the order that it names, in the order of publication, and no
-- other run.
pub publish_each-runs :
    (fuel : ℕ) (events : List (DomainEvent OrderPayload)) (bus : EventBus OrderPayload Started)
    (started : Started)
    → IsWired bus
    → (bus' : EventBus OrderPayload Started) × (publish_each (suc (suc fuel)) events bus started
        ≡ some (bus', started ++ created_orders events))
      × IsWired bus'
unfolding publish_each on_event
publish_each-runs fuel [] bus started w =
    (bus, ap (λ s. some (bus, s)) (sym (append-nil started)), w)
publish_each-runs fuel (e ∷ events) bus started w =
    let (bus', e2, w') =
      publish_each-runs fuel events (published orders_topic e bus) (started ++ started_by e)
        (published-IsSole orders_topic consumer_group on_event reads-runner e bus w) in
    (
      bus',
      ap
            (λ (o : Option (Pass OrderPayload Started)). elim o [
              | none ↦ none
              | some p ↦ publish_each (suc (suc fuel)) events p.bus p.state
            ])
            (publish-delivers orders_topic e bus fuel started w.synced w.quiet)
          ∙ ap (publish_each (suc (suc fuel)) events (published orders_topic e bus))
              (deliver-sole orders_topic consumer_group on_event reads-runner e bus w started)
          ∙ e2
          ∙ ap (λ s. some (bus', s))
              (append_assoc started (started_by e) (created_orders events)
                ∙ ap (λ runs. started ++ runs) (created_orders-cons e events)),
      w',
    )
