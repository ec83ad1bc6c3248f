-- ===== src/EventBus/Rejection.antt =====
-- A publication whose first handler rejects.
use supply_chain_mangement_s.Common.{
  ℕ, suc, String, ◌≡◌, ◌∙◌, ap, true, false, Option, none, some, List, ◌∷◌, length, if◌then◌else◌,
}
use supply_chain_mangement_s.Dict.{Dict, lookup}
use supply_chain_mangement_s.EventBus.{
  DomainEvent, EventHandler, EventBus, Pass, handlers_of, history, append_event, append_all,
  event_at, handle, handle_all, advance, visit, visit_all, drain_rounds, drain, publish, finish,
}
use supply_chain_mangement_s.EventBus.Delivery.{reads, event_at-last}
use supply_chain_mangement_s.EventBus.Publication.{history-append_event}

module _ {P H : Type 0} (topic : String) (e : DomainEvent P) (bus : EventBus P H) (key : String)
    (rest : Dict ℕ) (f : EventHandler P H) (fs : List (EventHandler P H)) (h : H) where
  -- The pass after the handler has rejected.
  abbrev stopped : Pass P H
  stopped = record {
    bus = record bus {
      topics = append_all (f e h).published (append_event topic e bus.topics);
      draining = true;
    };
    state = (f e h).state;
    progress = false;
    threw = true;
  }

  abbrev started : Pass P H
  started = record {
    bus = record bus { topics = append_event topic e bus.topics; draining = true };
    state = h;
    progress = false;
    threw = false;
  }

  handle_all-rejects : (f e h).threw ≡ true → handle_all (f ∷ fs) e started ≡ stopped
  unfolding handle_all handle
  handle_all-rejects threw =
      ap
        (λ b.
          if b
          then record stopped { threw = b }
          else handle_all fs e (record stopped { threw = b }))
        threw

  visit-rejects :
      (n : ℕ)
      → event_at (history topic (append_event topic e bus.topics)) n ≡ some e
      → reads topic key ≡ true
      → handlers_of (lookup key bus.group_handlers) ≡ f ∷ fs
      → (f e h).threw ≡ true
      → visit topic key n started ≡ stopped
  unfolding visit advance
  visit-rejects n found r handlers threw =
      rw (r, found)
        (ap (λ hs. advance key n (handle_all hs e started)) handlers
          ∙ ap (advance key n) (handle_all-rejects threw))

  visit_all-rejects :
      (n : ℕ)
      → visit topic key n started ≡ stopped
      → visit_all topic ((key, n) ∷ rest) started ≡ stopped
  unfolding visit_all
  visit_all-rejects n step =
      ap (λ (v : Pass P H). if v.threw then v else visit_all topic rest v) step

  -- When the first group of the bus reads the topic, has read everything, and its first handler
  -- rejects the event, the publication ends with the rejection: no other handler is called, what the
  -- handler published before it is in the logs after the event, no cursor moves, and the bus is ready
  -- to drain again, so that the group gets the event again.
  pub publish-rejects :
      (fuel : ℕ)
      → bus.draining ≡ false
      → bus.group_cursors ≡ (key, length (history topic bus.topics)) ∷ rest
      → reads topic key ≡ true
      → handlers_of (lookup key bus.group_handlers) ≡ f ∷ fs
      → (f e h).threw ≡ true
      → publish (suc fuel) topic e bus h
        ≡ some (record {
          bus = record bus {
            topics = append_all (f e h).published (append_event topic e bus.topics);
            draining = false;
          };
          state = (f e h).state;
          progress = false;
          threw = true;
        })
  unfolding publish drain drain_rounds
  publish-rejects fuel idle cursors r handlers threw =
      let n = length (history topic bus.topics) in
      let found : event_at (history topic (append_event topic e bus.topics)) n ≡ some e =
        ap (λ l. event_at l n) (history-append_event topic e bus.topics)
        ∙ event_at-last (history topic bus.topics) e in
      let pass : visit_all topic bus.group_cursors started ≡ stopped =
        ap (λ m. visit_all topic m started) cursors
        ∙ visit_all-rejects n (visit-rejects n found r handlers threw) in
      ap
        (λ b.
          if b
          then some (record started { bus = record started.bus { draining = b } })
          else after_round (visit_all topic bus.group_cursors started))
        idle
      ∙ ap after_round pass
    where
      after_round : Pass P H → Option (Pass P H)
      after_round v =
          elim (if v.threw
            then some v
            else if v.progress
            then drain_rounds fuel topic v
            else some v) [ none ↦ none | some p ↦ some (finish p) ]
