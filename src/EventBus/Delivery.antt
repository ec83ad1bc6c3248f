-- ===== src/EventBus/Delivery.antt =====
-- What a publication delivers: the drain from a bus whose groups have read everything.
use supply_chain_mangement_s.Common.{
  ℕ, ◌+◌, String, ◌≡◌, ◌≢◌, ◌∙◌, refl, sym, ap, Bool, true, false, none, some, List, [], ◌∷◌, ◌++◌,
  append_assoc, ◌==◌, eq_iff, eq_refl, arith, inl, inr, Bool-cases, length, All, All-append, ◌||◌,
  if◌then◌else◌,
}
use supply_chain_mangement_s.Dict.{Dict, lookup, insert}
use supply_chain_mangement_s.EventBus.{
  DomainEvent, EventHandler, Pass, handlers_of, history, append_all, event_at, split_key, handle,
  handle_all, advance, visit, visit_all,
}

-- Whether the group of a cursor entry reads the topic.
abbrev pub reads : String → String → Bool
reads topic key = (split_key key).0 == topic

-- The cursors of the topic's groups are all at `n`.
abbrev pub AllAt : String → ℕ → Dict ℕ → Type 0
AllAt topic n = All (λ g. reads topic g.0 ≡ true → g.1 ≡ n)

abbrev pub AbsentIn : String → Dict ℕ → Type 0
AbsentIn key = All (λ g. g.0 ≢ key)

abbrev pub DistinctKeys : Dict ℕ → Type 0
DistinctKeys [] = Unit
DistinctKeys ((key, cursor) ∷ groups) = AbsentIn key groups × DistinctKeys groups

-- The entries after every group of the topic has read one more event.
abbrev pub moved : String → ℕ → Dict ℕ → Dict ℕ
moved topic n [] = []
moved topic n ((key, cursor) ∷ groups) =
    (key, if reads topic key then n else cursor) ∷ moved topic n groups

pub event_at-last :
    {A : Type 0} (log : List A) (e : A) → event_at (log ++ e ∷ []) (length log) ≡ some e
unfolding event_at
event_at-last [] e = refl
event_at-last (x ∷ log) e = event_at-last log e

pub event_at-end : {A : Type 0} (log : List A) → event_at log (length log) ≡ none
unfolding event_at
event_at-end [] = refl
event_at-end (x ∷ log) = event_at-end log

module _ {P H : Type 0} where
  -- A handler that neither rejects nor publishes.
  abbrev pub IsQuiet : EventHandler P H → Type 0
  IsQuiet f = (e : DomainEvent P) (s : H) → ((f e s).published ≡ []) × ((f e s).threw ≡ false)

  -- The handlers of one group, each once, in order.
  unfoldable pub run_handlers : List (EventHandler P H) → DomainEvent P → H → H
  run_handlers [] e s = s
  run_handlers (f ∷ fs) e s = run_handlers fs e (f e s).state

  -- Every group of the topic handles the event once, in the order of subscription.
  unfoldable pub deliver : String → Dict (List (EventHandler P H)) → DomainEvent P → Dict ℕ → H → H
  unfolding run_handlers
  deliver topic handlers e [] s = s
  deliver topic handlers e ((key, cursor) ∷ groups) s =
      deliver topic handlers e groups
        (if reads topic key then run_handlers (handlers_of (lookup key handlers)) e s else s)

  handle-quiet :
      (f : EventHandler P H) (e : DomainEvent P) (p : Pass P H)
      → IsQuiet f
      → p.threw ≡ false
      → handle f e p ≡ record p { state = (f e p.state).state }
  unfolding handle append_all
  handle-quiet f e p quiet t = let q = quiet e p.state in rw (q.0, q.1, t) refl

  handle_all-quiet :
      (fs : List (EventHandler P H)) (e : DomainEvent P) (p : Pass P H)
      → All IsQuiet fs
      → p.threw ≡ false
      → handle_all fs e p ≡ record p { state = run_handlers fs e p.state }
  unfolding handle_all run_handlers
  handle_all-quiet [] e p quiet t = refl
  handle_all-quiet (f ∷ fs) e p quiet t =
      let p' = record p { state = (f e p.state).state } in
      ap (λ (q : Pass P H). if q.threw then q else handle_all fs e q) (handle-quiet f e p quiet.0 t)
      ∙ ap (λ b. if b then p' else handle_all fs e p') t
      ∙ handle_all-quiet fs e p' quiet.1 t

insert-middle :
    (key : String) (c c' : ℕ) (seen rest : Dict ℕ)
    → AbsentIn key seen
    → insert key c' (seen ++ (key, c) ∷ rest) ≡ seen ++ (key, c') ∷ rest
unfolding insert
insert-middle key c c' [] rest a = rw eq_refl refl
insert-middle key c c' ((j, d) ∷ seen) rest a =
    ground (arith, eq_iff j key, a.0, insert-middle key c c' seen rest a.1)

-- No key of the entries to come is among the entries seen.
abbrev Apart : Dict ℕ → Dict ℕ → Type 0
Apart seen = All (λ g. AbsentIn g.0 seen)

Apart-next :
    (key : String) (c : ℕ) (seen rest : Dict ℕ)
    → Apart seen rest
    → AbsentIn key rest
    → Apart (seen ++ (key, c) ∷ []) rest
Apart-next key c seen [] a d = tt
Apart-next key c seen ((j, k) ∷ rest) a d = (
  All-append (λ g. g.0 ≢ j) seen ((key, c) ∷ []) a.0 ((λ e. d.0 (sym e)), tt),
  Apart-next key c seen rest a.1 d.1,
)

-- Whether some entry is of the topic.
abbrev pub any_reads : String → Dict ℕ → Bool
any_reads topic [] = false
any_reads topic ((key, cursor) ∷ groups) = reads topic key || any_reads topic groups

module _ {P H : Type 0} where
  -- The pass after a round over `groups`, with the entries `seen` before them.
  abbrev pub round : String → ℕ → DomainEvent P → Dict ℕ → Dict ℕ → Pass P H → Pass P H
  round topic n e seen groups p = record p {
    bus = record p.bus { group_cursors = seen ++ moved topic (n + 1) groups };
    state = deliver topic p.bus.group_handlers e groups p.state;
    progress = p.progress || any_reads topic groups;
  }

  module _ (topic : String) (n : ℕ) (e : DomainEvent P) where
    visit-reads :
        (key : String) (p : Pass P H)
        → reads topic key ≡ true
        → event_at (history topic p.bus.topics) n ≡ some e
        → All IsQuiet (handlers_of (lookup key p.bus.group_handlers))
        → p.threw ≡ false
        → visit topic key n p ≡ record p {
          bus = record p.bus { group_cursors = insert key (n + 1) p.bus.group_cursors };
          state = run_handlers (handlers_of (lookup key p.bus.group_handlers)) e p.state;
          progress = true;
        }
    unfolding visit advance
    visit-reads key p r found quiet t = rw (r, found, handle_all-quiet _ e p quiet t, t) refl

    visit-other :
        (key : String) (c : ℕ) (p : Pass P H) → reads topic key ≡ false → visit topic key c p ≡ p
    unfolding visit
    visit-other key c p r = rw r refl

    next_group :
        (key : String) (c : ℕ) (groups : Dict ℕ) (p p' q : Pass P H)
        → visit topic key c p ≡ p'
        → p'.threw ≡ false
        → visit_all topic groups p' ≡ q
        → visit_all topic ((key, c) ∷ groups) p ≡ q
    unfolding visit_all
    next_group key c groups p p' q step t rest =
        ap (λ (v : Pass P H). if v.threw then v else visit_all topic groups v) step
        ∙ ap (λ b. if b then p' else visit_all topic groups p') t
        ∙ rest

    pub visit_all-round :
        (seen groups : Dict ℕ) (p : Pass P H)
        → p.threw ≡ false
        → p.bus.group_cursors ≡ seen ++ groups
        → event_at (history topic p.bus.topics) n ≡ some e
        → AllAt topic n groups
        → DistinctKeys groups
        → Apart seen groups
        → ((key : String) → All IsQuiet (handlers_of (lookup key p.bus.group_handlers)))
        → visit_all topic groups p ≡ round topic n e seen groups p
    unfolding visit_all deliver
    visit_all-round seen [] p t cursors found at d a quiet = rw (sym cursors) (ground arith)
    visit_all-round seen ((key, c) ∷ groups) p t cursors found at d a quiet =
        elim (Bool-cases (reads topic key)) [
          | inl r ↦
              let p' = record p {
                bus = record p.bus { group_cursors = insert key (n + 1) p.bus.group_cursors };
                state = run_handlers (handlers_of (lookup key p.bus.group_handlers)) e p.state;
                progress = true;
              } in
              let here = append_assoc seen ((key, n + 1) ∷ []) groups in
              let there = append_assoc seen ((key, n + 1) ∷ []) (moved topic (n + 1) groups) in
              let inserted = insert-middle key c (n + 1) seen groups a.0 in
              let step : visit topic key c p ≡ p' =
                ap (λ m. visit topic key m p) (at.0 r) ∙ visit-reads key p r found (quiet key) t in
              let ih =
                visit_all-round (seen ++ (key, n + 1) ∷ []) groups p' t
                  (ap (λ m. insert key (n + 1) m) cursors ∙ inserted ∙ sym here) found at.1 d.1
                  (Apart-next key (n + 1) seen groups a.1 d.0) quiet in
              next_group key c groups p p' _ step t (ih ∙ rw (r, there) (ground arith))
          | inr r ↦
              let here = append_assoc seen ((key, c) ∷ []) groups in
              let there = append_assoc seen ((key, c) ∷ []) (moved topic (n + 1) groups) in
              let ih =
                visit_all-round (seen ++ (key, c) ∷ []) groups p t (cursors ∙ sym here) found at.1
                  d.1 (Apart-next key c seen groups a.1 d.0) quiet in
              next_group key c groups p p _ (visit-other key c p r) t (ih ∙ rw (r, there) refl)
        ]
