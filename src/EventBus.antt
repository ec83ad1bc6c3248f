-- ===== src/EventBus.antt =====
-- src/lib/eventBus.ts: the events, and `InMemoryEventBus` with a log for each topic and a cursor
-- for each consumer group. A handler acts on the state `H` of the consumers; what it publishes is
-- a list of topics with events, since `publish` during a delivery pass only appends to the log. The payload
-- type `P` is the client's.
pub mod Keys
pub mod Delivery
pub mod Publication
pub mod Sole
pub mod Rejection
mod Tests
use Prim.Native.Char.{code}
use Prim.Native.String.{◌++◌ as join}
use supply_chain_mangement_s.Common.{
  ℕ, zero, suc, ◌+◌, String, Bool, true, false, Option, none, some, List, [], ◌∷◌, ◌++◌, ◌==◌,
  if◌then◌else◌,
}
use supply_chain_mangement_s.Dict.{Dict, lookup, contains, insert}

pub record DomainEvent (P : Type 0) : Type 0 where
  pub type : String
  pub payload : P
  pub at : ℕ
  pub key : Option String

-- What an `await handler(event)` leaves behind.
pub record Handled (P H : Type 0) : Type 0 where
  pub state : H
  pub published : List (String × DomainEvent P)
  pub threw : Bool

abbrev pub EventHandler : Type 0 → Type 0 → Type 0
EventHandler P H = DomainEvent P → H → Handled P H

module _ {A : Type 0} where
  -- `this.topics.get(topic) ?? []`
  unfoldable pub history : String → Dict (List A) → List A
  history topic topics = elim (lookup topic topics) [ none ↦ [] | some log ↦ log ]

  -- `log.push(event); this.topics.set(topic, log)`
  unfoldable pub append_event : String → A → Dict (List A) → Dict (List A)
  unfolding history
  append_event topic event topics = insert topic (history topic topics ++ event ∷ []) topics

  -- `log[i]`
  unfoldable pub event_at : List A → ℕ → Option A
  event_at [] i = none
  event_at (e ∷ log) zero = some e
  event_at (e ∷ log) (suc i) = event_at log i

-- `${topic}:${groupId}`
unfoldable pub group_key : String → String → String
group_key topic group_id = join topic (join ":" group_id)

-- The parts before and after the first colon; every key has one.
unfoldable pub split_key : String → String × String
split_key String.[] = (String.[], String.[])
split_key (String.◌∷◌ c s) =
    let (topic, group_id) = split_key s in
    if String.◌∷◌ c String.[] == ":" then (String.[], s) else (String.◌∷◌ c topic, group_id)

pub record EventBus (P H : Type 0) : Type 0 where
  pub topics : Dict (List (DomainEvent P))
  pub group_cursors : Dict ℕ
  pub group_handlers : Dict (List (EventHandler P H))
  pub draining : Bool

-- The bus, the state of the consumers, and whether a handler's rejection has ended the pass.
pub record Pass (P H : Type 0) : Type 0 where
  pub bus : EventBus P H
  pub state : H
  pub progress : Bool
  pub threw : Bool

module _ {P : Type 0} where
  unfoldable pub append_all :
      List (String × DomainEvent P) → Dict (List (DomainEvent P)) → Dict (List (DomainEvent P))
  unfolding append_event
  append_all [] topics = topics
  append_all ((topic, event) ∷ rest) topics = append_all rest (append_event topic event topics)

module _ {P H : Type 0} where
  unfoldable pub handle : EventHandler P H → DomainEvent P → Pass P H → Pass P H
  unfolding append_all
  handle h event p =
      let done = h event p.state in
      record p {
        bus = record p.bus { topics = append_all done.published p.bus.topics };
        state = done.state;
        threw = done.threw;
      }

  -- `for (const h of handlers) await h(event)`; a rejection ends the loop.
  unfoldable pub handle_all : List (EventHandler P H) → DomainEvent P → Pass P H → Pass P H
  unfolding handle
  handle_all [] event p = p
  handle_all (h ∷ hs) event p =
      let p' = handle h event p in
      let rest = handle_all hs event p' in if p'.threw then p' else rest

  abbrev pub handlers_of : Option (List (EventHandler P H)) → List (EventHandler P H)
  handlers_of none = []
  handlers_of (some hs) = hs

  -- After its handlers have returned, the group's cursor moves past the event.
  unfoldable pub advance : String → ℕ → Pass P H → Pass P H
  advance key cursor p = if p.threw then p else record p {
    bus = record p.bus { group_cursors = insert key (cursor + 1) p.bus.group_cursors };
    progress = true;
  }

  -- The body of the loop over `groupCursors`.
  unfoldable pub visit : String → String → ℕ → Pass P H → Pass P H
  unfolding handle_all advance history event_at split_key
  visit topic key cursor p =
      if (split_key key).0 == topic
      then elim (event_at (history topic p.bus.topics) cursor) [
        | none ↦ p
        | some event ↦
            advance key cursor (handle_all (handlers_of (lookup key p.bus.group_handlers)) event p)
      ]
      else p

  -- One round: the entries of `groupCursors` in order, until a handler rejects.
  unfoldable pub visit_all : String → Dict ℕ → Pass P H → Pass P H
  unfolding visit
  visit_all topic [] p = p
  visit_all topic ((key, cursor) ∷ groups) p =
      let p' = visit topic key cursor p in
      let rest = visit_all topic groups p' in if p'.threw then p' else rest

  -- `while (madeProgress)`, on fuel.
  unfoldable pub drain_rounds : ℕ → String → Pass P H → Option (Pass P H)
  unfolding visit_all
  drain_rounds zero topic p = none
  drain_rounds (suc fuel) topic p =
      let p' = visit_all topic p.bus.group_cursors (record p { progress = false }) in
      let rest = drain_rounds fuel topic p' in
      if p'.threw then some p' else if p'.progress then rest else some p'

  -- `finally { this.draining = false }`
  abbrev pub finish : Pass P H → Pass P H
  finish p = record p { bus = record p.bus { draining = false } }

  abbrev pub start_pass : EventBus P H → H → Pass P H
  start_pass bus h = record {
    bus = record bus { draining = true };
    state = h;
    progress = true;
    threw = false;
  }

  unfoldable pub drain : ℕ → String → EventBus P H → H → Option (Pass P H)
  unfolding drain_rounds
  drain fuel topic bus h =
      if bus.draining
      then some (record { bus = bus; state = h; progress = false; threw = false })
      else elim (drain_rounds fuel topic (start_pass bus h)) [
        | none ↦ none
        | some p ↦ some (finish p)
      ]

  unfoldable pub publish : ℕ → String → DomainEvent P → EventBus P H → H → Option (Pass P H)
  unfolding drain append_event
  publish fuel topic event bus h =
      drain fuel topic (record bus { topics = append_event topic event bus.topics }) h

  unfoldable pub subscribe : String → String → EventHandler P H → EventBus P H → EventBus P H
  unfolding group_key
  subscribe topic group_id handler bus =
      let key = group_key topic group_id in
      record bus {
        group_handlers =
            insert key (handlers_of (lookup key bus.group_handlers) ++ handler ∷ [])
              bus.group_handlers;
        group_cursors =
            if contains key bus.group_cursors
            then bus.group_cursors
            else insert key 0 bus.group_cursors;
      }

  unfoldable pub close : EventBus P H → EventBus P H
  close bus = record bus { topics = []; group_cursors = []; group_handlers = [] }
