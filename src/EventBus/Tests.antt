-- ===== src/EventBus/Tests.antt =====
-- The bus with two concrete groups of one topic and one of another.
use supply_chain_mangement_s.Common.{
  true, ℕ, ◌+◌, ◌≡◌, refl, false, none, some, [], ◌∷◌, arith, eq_iff, ◌==◌, inl, inr, Bool-cases,
}
use supply_chain_mangement_s.Dict.{lookup}
use supply_chain_mangement_s.EventBus.{
  append_all, append_event, DomainEvent, EventBus, EventHandler, group_key, split_key, history,
  publish,
}
use supply_chain_mangement_s.EventBus.Delivery.{deliver}
use supply_chain_mangement_s.EventBus.Rejection.{publish-rejects}
use supply_chain_mangement_s.EventBus.Publication.{IsSynced, AllQuiet, published, publish-delivers}

split_node_key :
    split_key (group_key "stock-events" "warehouse-node:w1") ≡ ("stock-events", "warehouse-node:w1")
unfolding split_key group_key
split_node_key = refl

-- Each group adds to a sum: the first one its event once, the second one twice over.
abbrev add : ℕ → EventHandler ℕ ℕ
add factor e sum = record { state = sum + factor; published = []; threw = false }

abbrev bus : EventBus ℕ ℕ
bus = record {
  topics = [];
  group_cursors = ("sums:a", 0) ∷ ("other:b", 7) ∷ ("sums:c", 0) ∷ [];
  group_handlers = ("sums:a", add 1 ∷ []) ∷ ("sums:c", add 2 ∷ []) ∷ [];
  draining = false;
}

bus-IsSynced : IsSynced "sums" bus
unfolding history lookup split_key
bus-IsSynced = record {
  idle = refl;
  read = (λ r. refl, (λ r. ground (arith, r), (λ r. refl, tt)));
  distinct = (
    (
      λ e. ground (arith, (eq_iff "other:b" "sums:a").1 e),
      (λ e. ground (arith, (eq_iff "sums:c" "sums:a").1 e), tt),
    ),
    ((λ e. ground (arith, (eq_iff "sums:c" "other:b").1 e), tt), (tt, tt)),
  );
}

bus-AllQuiet : AllQuiet bus
unfolding lookup
bus-AllQuiet key = elim (Bool-cases ("sums:a" == key)) [
  | inl e ↦ rw e ((λ v s. (refl, refl)), tt)
  | inr n ↦ elim (Bool-cases ("sums:c" == key)) [
    | inl e ↦ rw (n, e) ((λ v s. (refl, refl)), tt)
    | inr m ↦ rw (n, m) tt
  ]
]

abbrev event : DomainEvent ℕ
event = record { type = "tick"; payload = 1; at = 0; key = none }

publish-delivers_example :
    publish 2 "sums" event bus 0
    ≡ some (record {
      bus = published "sums" event bus;
      state = deliver "sums" bus.group_handlers event bus.group_cursors 0;
      progress = false;
      threw = false;
    })
publish-delivers_example = publish-delivers "sums" event bus 0 0 bus-IsSynced bus-AllQuiet

abbrev reject : EventHandler ℕ ℕ
reject e sum = record { state = sum + 5; published = []; threw = true }

abbrev failing : EventBus ℕ ℕ
failing = record bus { group_handlers = ("sums:a", reject ∷ add 1 ∷ []) ∷ [] }

publish-rejects_example :
    publish 1 "sums" event failing 0
    ≡ some (record {
      bus = record failing {
        topics = append_all [] (append_event "sums" event failing.topics);
        draining = false;
      };
      state = 0 + 5;
      progress = false;
      threw = true;
    })
unfolding lookup split_key history
publish-rejects_example =
    publish-rejects "sums" event failing "sums:a" (("other:b", 7) ∷ ("sums:c", 0) ∷ []) reject
      (add 1 ∷ []) 0 0 refl refl refl refl refl
