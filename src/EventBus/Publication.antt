-- ===== src/EventBus/Publication.antt =====
-- One publication on a bus whose groups have read everything, and any number of them.
use supply_chain_mangement_s.Common.{
  ℕ, suc, ◌+◌, String, ◌≡◌, ◌∙◌, refl, sym, ap, Bool, true, false, none, some, List, [], ◌∷◌, ◌++◌,
  eq_refl, arith, inl, inr, Bool-cases, length, length-append, All, if◌then◌else◌,
}
use supply_chain_mangement_s.Dict.{Dict, lookup, lookup-insert}
use supply_chain_mangement_s.EventBus.{
  DomainEvent, EventBus, Pass, handlers_of, history, append_event, event_at, visit, visit_all,
  drain_rounds, drain, publish, start_pass,
}
use supply_chain_mangement_s.EventBus.Delivery.{
  reads, AllAt, AbsentIn, DistinctKeys, moved, any_reads, IsQuiet, deliver, round, visit_all-round,
  event_at-last, event_at-end,
}

-- No drain is running, and each group of the topic has read the whole log.
pub record IsSynced {P H : Type 0} (topic : String) (bus : EventBus P H) : Type 0 where
  pub idle : bus.draining ≡ false
  pub read : AllAt topic (length (history topic bus.topics)) bus.group_cursors
  pub distinct : DistinctKeys bus.group_cursors

AllAt-moved : (topic : String) (n : ℕ) (groups : Dict ℕ) → AllAt topic n (moved topic n groups)
AllAt-moved topic n [] = tt
AllAt-moved topic n ((key, c) ∷ groups) = (λ r. rw r refl, AllAt-moved topic n groups)

AbsentIn-moved :
    (topic : String) (n : ℕ) (key : String) (groups : Dict ℕ)
    → AbsentIn key groups
    → AbsentIn key (moved topic n groups)
AbsentIn-moved topic n key [] a = tt
AbsentIn-moved topic n key ((j, c) ∷ groups) a = (a.0, AbsentIn-moved topic n key groups a.1)

DistinctKeys-moved :
    (topic : String) (n : ℕ) (groups : Dict ℕ)
    → DistinctKeys groups
    → DistinctKeys (moved topic n groups)
DistinctKeys-moved topic n [] d = tt
DistinctKeys-moved topic n ((key, c) ∷ groups) d =
    (AbsentIn-moved topic n key groups d.0, DistinctKeys-moved topic n groups d.1)

Apart-nothing : (groups : Dict ℕ) → All (λ g. AbsentIn g.0 []) groups
Apart-nothing [] = tt
Apart-nothing (g ∷ groups) = (tt, Apart-nothing groups)

pub history-append_event :
    {A : Type 0} (topic : String) (e : A) (topics : Dict (List A))
    → history topic (append_event topic e topics) ≡ history topic topics ++ e ∷ []
unfolding history append_event
history-append_event topic e topics =
    let added = lookup-insert topic topic (history topic topics ++ e ∷ []) topics in
    ground (arith, added, eq_refl topic)

event_at-past :
    {A : Type 0} (log : List A) (e : A) → event_at (log ++ e ∷ []) (length log + 1) ≡ none
event_at-past log e =
    ap (λ m. event_at (log ++ e ∷ []) m) (sym (length-append log (e ∷ [])))
    ∙ event_at-end (log ++ e ∷ [])

module _ {P H : Type 0} (topic : String) where
  -- A group that has read everything is passed over.
  visit-idle :
      (n : ℕ) (key : String) (c : ℕ) (p : Pass P H)
      → event_at (history topic p.bus.topics) n ≡ none
      → (reads topic key ≡ true → c ≡ n)
      → visit topic key c p ≡ p
  unfolding visit
  visit-idle n key c p found at = elim (Bool-cases (reads topic key)) [
    | inl r ↦ rw (r, at r, found) refl
    | inr r ↦ rw r refl
  ]

  visit_all-idle :
      (n : ℕ) (groups : Dict ℕ) (p : Pass P H)
      → p.threw ≡ false
      → event_at (history topic p.bus.topics) n ≡ none
      → AllAt topic n groups
      → visit_all topic groups p ≡ p
  unfolding visit_all
  visit_all-idle n [] p t found at = refl
  visit_all-idle n ((key, c) ∷ groups) p t found at =
      ap (λ (v : Pass P H). if v.threw then v else visit_all topic groups v)
        (visit-idle n key c p found at.0)
      ∙ ap (λ b. if b then p else visit_all topic groups p) t
      ∙ visit_all-idle n groups p t found at.1

  -- The rest of the drain when a round has found everything read.
  drain_rounds-idle :
      (fuel n : ℕ) (p : Pass P H)
      → p.threw ≡ false
      → event_at (history topic p.bus.topics) n ≡ none
      → AllAt topic n p.bus.group_cursors
      → drain_rounds (suc fuel) topic p ≡ some (record p { progress = false })
  unfolding drain_rounds
  drain_rounds-idle fuel n p t found at =
      let p0 = record p { progress = false } in
      ap
        (λ (v : Pass P H).
          if v.threw then some v else if v.progress then drain_rounds fuel topic v else some v)
        (visit_all-idle n p.bus.group_cursors p0 t found at)
      ∙ ap (λ b. if b then some p0 else some p0) t

  -- One round that delivers `e`, and one that finds nothing more.
  drain_rounds-deliver :
      (fuel n : ℕ) (e : DomainEvent P) (p : Pass P H)
      → p.threw ≡ false
      → event_at (history topic p.bus.topics) n ≡ some e
      → event_at (history topic p.bus.topics) (n + 1) ≡ none
      → AllAt topic n p.bus.group_cursors
      → DistinctKeys p.bus.group_cursors
      → ((key : String) → All IsQuiet (handlers_of (lookup key p.bus.group_handlers)))
      → drain_rounds (suc (suc fuel)) topic p
        ≡ some (record p {
          bus = record p.bus { group_cursors = moved topic (n + 1) p.bus.group_cursors };
          state = deliver topic p.bus.group_handlers e p.bus.group_cursors p.state;
          progress = false;
        })
  unfolding drain_rounds
  drain_rounds-deliver fuel n e p t found last at d quiet =
      let p0 = record p { progress = false } in
      let p1 = round topic n e [] p.bus.group_cursors p0 in
      ap
        (λ (v : Pass P H).
          if v.threw
          then some v
          else if v.progress
          then drain_rounds (suc fuel) topic v
          else some v)
        (visit_all-round topic n e [] p.bus.group_cursors p0 t refl found at d
          (Apart-nothing p.bus.group_cursors) quiet)
      ∙ ap
          (λ b.
            if b
            then some p1
            else if p1.progress
            then drain_rounds (suc fuel) topic p1
            else some p1)
          t
      ∙ last_round (any_reads topic p.bus.group_cursors) refl
    where
      last_round :
          (b : Bool)
          → any_reads topic p.bus.group_cursors ≡ b
          → (if b
              then drain_rounds
                  (suc fuel)
                  topic
                  (round topic n e [] p.bus.group_cursors (record p { progress = false }))
              else some (round topic n e [] p.bus.group_cursors (record p { progress = false })))
            ≡ some (record p {
              bus = record p.bus { group_cursors = moved topic (n + 1) p.bus.group_cursors };
              state = deliver topic p.bus.group_handlers e p.bus.group_cursors p.state;
              progress = false;
            })
      last_round true some_read =
          drain_rounds-idle fuel (n + 1)
            (round topic n e [] p.bus.group_cursors (record p { progress = false })) t last
            (AllAt-moved topic (n + 1) p.bus.group_cursors)
      last_round false none_read = rw none_read refl

-- The bus after a publication that every group of the topic has read.
abbrev pub published : {P H : Type 0} → String → DomainEvent P → EventBus P H → EventBus P H
published topic e bus = record bus {
  topics = append_event topic e bus.topics;
  group_cursors = moved topic (length (history topic bus.topics) + 1) bus.group_cursors;
  draining = false;
}

-- Handlers that neither reject nor publish, in every group.
abbrev pub AllQuiet : {P H : Type 0} → EventBus P H → Type 0
AllQuiet bus = (key : String) → All IsQuiet (handlers_of (lookup key bus.group_handlers))

module _ {P H : Type 0} (topic : String) (e : DomainEvent P) (bus : EventBus P H) where
  -- A publication on a bus with no drain running and no unread event of the topic, whose groups
  -- have distinct keys and whose handlers neither reject nor publish, returns when the drain has two
  -- rounds or more. The event is at the end of the topic's log, each handler of each group of the
  -- topic has handled it once, in the order of the groups and of their handlers, the cursors of
  -- those groups are at the end of the log and the other cursors are as before.
  pub publish-delivers :
      (fuel : ℕ) (h : H)
      → IsSynced topic bus
      → AllQuiet bus
      → publish (suc (suc fuel)) topic e bus h
        ≡ some (record {
          bus = published topic e bus;
          state = deliver topic bus.group_handlers e bus.group_cursors h;
          progress = false;
          threw = false;
        })
  unfolding publish drain
  publish-delivers fuel h synced quiet =
      let log = history topic bus.topics in
      let appended = history-append_event topic e bus.topics in
      let found : event_at (history topic (append_event topic e bus.topics)) (length log) ≡ some e =
        ap (λ l. event_at l (length log)) appended ∙ event_at-last log e in
      let last : event_at (history topic (append_event topic e bus.topics)) (length log + 1)
          ≡ none =
        ap (λ l. event_at l (length log + 1)) appended ∙ event_at-past log e in
      let started = start_pass (record bus { topics = append_event topic e bus.topics }) h in
      rw
        (
          synced.idle,
          drain_rounds-deliver topic fuel (length log) e started refl found last synced.read
              synced.distinct quiet,
        )
        refl

  pub published-IsSynced : IsSynced topic bus → IsSynced topic (published topic e bus)
  published-IsSynced synced = record {
    idle = refl;
    read =
        rw (history-append_event topic e bus.topics, length-append)
          (AllAt-moved topic _ bus.group_cursors);
    distinct = DistinctKeys-moved topic _ bus.group_cursors synced.distinct;
  }
