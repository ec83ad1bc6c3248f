-- ===== src/EventBus/Sole.antt =====
-- src/lib/eventBus.ts: a bus with one consumer group that has one handler, as after one `subscribe` on
-- a new bus.
use supply_chain_mangement_s.Common.{
  ℕ, ◌+◌, String, ◌≡◌, ◌∙◌, ap, true, [], ◌∷◌, length, if◌then◌else◌,
}
use supply_chain_mangement_s.Dict.{lookup}
use supply_chain_mangement_s.EventBus.{
  DomainEvent, EventBus, EventHandler, handlers_of, history, group_key,
}
use supply_chain_mangement_s.EventBus.Delivery.{reads, moved, deliver, run_handlers}
use supply_chain_mangement_s.EventBus.Publication.{
  IsSynced, AllQuiet, published, published-IsSynced,
}

module _ {P H : Type 0} (topic group_id : String) (f : EventHandler P H) where
  -- The group is the one of the bus, `f` its one handler, and it has read every event of the topic.
  pub record IsSole (bus : EventBus P H) : Type 0 where
    pub synced : IsSynced topic bus
    pub quiet : AllQuiet bus
    pub cursor : ℕ
    pub groups : bus.group_cursors ≡ (group_key topic group_id, cursor) ∷ []
    pub handlers : handlers_of (lookup (group_key topic group_id) bus.group_handlers) ≡ f ∷ []

  module _ (reads_group : reads topic (group_key topic group_id) ≡ true) (e : DomainEvent P)
      (bus : EventBus P H) (sole : IsSole bus) where
    pub deliver-sole :
        (h : H) → deliver topic bus.group_handlers e bus.group_cursors h ≡ (f e h).state
    unfolding deliver run_handlers
    deliver-sole h =
        ap (λ m. deliver topic bus.group_handlers e m h) sole.groups
        ∙ ap
            (λ b.
              if b
              then run_handlers (handlers_of (lookup (group_key topic group_id) bus.group_handlers))
                  e h
              else h)
            reads_group
        ∙ ap (λ fs. run_handlers fs e h) sole.handlers

    pub published-IsSole : IsSole (published topic e bus)
    published-IsSole =
        let n = length (history topic bus.topics) + 1 in
        record {
          synced = published-IsSynced topic e bus sole.synced;
          quiet = sole.quiet;
          cursor = n;
          groups =
              ap (moved topic n) sole.groups
              ∙ ap (λ b. (group_key topic group_id, if b then n else sole.cursor) ∷ []) reads_group;
          handlers = sole.handlers;
        }
