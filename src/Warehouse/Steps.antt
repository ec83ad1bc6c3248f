-- ===== src/Warehouse/Steps.antt =====
-- Any sequence of operations on the system of bus and nodes.
use mathlib.Core.Path.{subst}
use supply_chain_mangement_s.Common.{
  ℕ, suc, String, ◌≡◌, ◌∙◌, refl, sym, ap, true, Option, none, some, List, [], ◌∷◌, ◌++◌,
  append_assoc, append-nil, length, All,
}
use supply_chain_mangement_s.Dict.{lookup}
use supply_chain_mangement_s.Warehouse.{
  System, Nodes, WarehouseNode, get, Op, emit, lose, rejoin, steps,
}
use supply_chain_mangement_s.Warehouse.Convergence.{Log, tally, Tracks, Follows}
use supply_chain_mangement_s.Warehouse.Consistent.{
  IsConsistent, stock_log, events_of, Converged, step-IsConsistent,
}

events_of-append :
    (op : Op) (ops : List Op) → events_of (op ∷ []) ++ events_of ops ≡ events_of (op ∷ ops)
events_of-append (emit now change) ops = refl
events_of-append (lose id) ops = refl
events_of-append (rejoin id) ops = refl

steps-IsConsistent :
    (fuel : ℕ) (ids : List String) (ops : List Op) (s : System)
    → IsConsistent ids s
    → (s' : System) × (steps (suc (suc fuel)) ops s ≡ some s')
      × IsConsistent ids s'
      × (stock_log s' ≡ stock_log s ++ events_of ops)
unfolding steps
steps-IsConsistent fuel ids [] s c = (s, refl, c, sym (append-nil (stock_log s)))
steps-IsConsistent fuel ids (op ∷ ops) s c =
    let (s1, e1, c1, log1) = step-IsConsistent fuel ids op s c in
    let (s2, e2, c2, log2) = steps-IsConsistent fuel ids ops s1 c1 in
    (
      s2,
      ap after e1 ∙ e2,
      c2,
      log2
          ∙ ap (λ l. l ++ events_of ops) log1
          ∙ append_assoc (stock_log s) (events_of (op ∷ [])) (events_of ops)
          ∙ ap (λ l. stock_log s ++ l) (events_of-append op ops),
    )
  where
    after : Option System → Option System
    after o = elim o [ none ↦ none | some s' ↦ steps (suc (suc fuel)) ops s' ]

-- A connected node that tracks the log has applied all of it.
Tracks-whole :
    (log : Log) (node : WarehouseNode)
    → Tracks log node
    → node.connected ≡ true
    → (node.applied_count ≡ length log) × ((sku : String) → get sku node ≡ tally sku log)
Tracks-whole log node t on =
    let whole : log ≡ t.past = t.split ∙ ap (λ m. t.past ++ m) (t.current on) ∙ append-nil t.past in
    (t.count ∙ ap length (sym whole), λ sku. t.stock sku ∙ ap (tally sku) (sym whole))

-- The node of an id has applied the whole log, if it is connected.
abbrev AtEnd : Log → Nodes → String → Type 0
AtEnd log nodes id =
    (node : WarehouseNode) × (lookup id nodes ≡ some node)
    × (node.connected ≡ true
        → (node.applied_count ≡ length log) × ((sku : String) → get sku node ≡ tally sku log))

All-AtEnd :
    (log : Log) (nodes : Nodes) (ids : List String)
    → All (Follows log nodes) ids
    → All (AtEnd log nodes) ids
All-AtEnd log nodes [] all = tt
All-AtEnd log nodes (id ∷ ids) all =
    let (node, found, t) = all.0 in
    ((node, found, Tracks-whole log node t), All-AtEnd log nodes ids all.1)

-- From a consistent system of bus and nodes, any sequence of emitted changes, lost connections and
-- regained connections runs to its end, if each drain has two rounds or more. The log has grown by
-- the emitted changes in their order, and each node that is connected at the end has applied every
-- event of the log exactly once: its count of applied events is the log's length, and its stock of
-- each SKU is the sum of the changes of that SKU in the log.
pub steps-Converged :
    (fuel : ℕ) (ids : List String) (ops : List Op) (s : System)
    → IsConsistent ids s
    → (s' : System) × (steps (suc (suc fuel)) ops s ≡ some s')
      × Converged ids (stock_log s ++ events_of ops) s'
steps-Converged fuel ids ops s c =
    let (s', e, c', log) = steps-IsConsistent fuel ids ops s c in
    (
      s',
      e,
      (
        log,
        subst (λ l. All (AtEnd l s'.nodes) ids) log
            (All-AtEnd (stock_log s') s'.nodes ids c'.follows),
      ),
    )
