-- ===== src/Warehouse/Groups.antt =====
-- The consumer groups of the nodes: their keys, and what one delivery does to the nodes.
use Prim.Native.String.{◌++◌ as join}
use supply_chain_mangement_s.Common.{
  ℕ, String, ◌≡◌, ◌≢◌, ◌∙◌, refl, ap, true, List, [], ◌∷◌, ◌==◌, eq_iff, arith, All, inl, inr,
  Option-cases, if◌then◌else◌,
}
use supply_chain_mangement_s.Dict.{Dict, lookup, lookup-insert}
use supply_chain_mangement_s.EventBus.{DomainEvent, EventHandler, handlers_of, group_key}
use supply_chain_mangement_s.EventBus.Keys.{split_key-group_key}
use mathlib.Core.Option
use supply_chain_mangement_s.EventBus.Delivery.{reads, moved, deliver, run_handlers}
use supply_chain_mangement_s.Warehouse.{
  StockChange, WarehouseNode, Nodes, stock_events_topic, on_event, on_node, node_handler,
}

-- `stock-events:warehouse-node:${nodeId}`
abbrev pub node_key : String → String
node_key id = group_key stock_events_topic (join "warehouse-node:" id)

pub reads-node_key : (id : String) → reads stock_events_topic (node_key id) ≡ true
reads-node_key id =
    rw (split_key-group_key stock_events_topic (join "warehouse-node:" id) refl) refl

-- The cursor entries of the nodes, all at `n`.
abbrev pub cursors_at : ℕ → List String → Dict ℕ
cursors_at n [] = []
cursors_at n (id ∷ ids) = (node_key id, n) ∷ cursors_at n ids

pub moved-cursors_at :
    (m n : ℕ) (ids : List String) → moved stock_events_topic m (cursors_at n ids) ≡ cursors_at m ids
moved-cursors_at m n [] = refl
moved-cursors_at m n (id ∷ ids) = rw (reads-node_key id, moved-cursors_at m n ids) refl

-- The ids are distinct.
abbrev pub IsOther : String → List String → Type 0
IsOther id = All (λ j. id ≢ j)

abbrev pub AreDistinct : List String → Type 0
AreDistinct [] = Unit
AreDistinct (id ∷ ids) = IsOther id ids × AreDistinct ids

-- Each node's group has the node's handler and no other.
abbrev pub HasHandlers : Dict (List (EventHandler StockChange Nodes)) → List String → Type 0
HasHandlers handlers =
    All (λ id. handlers_of (lookup (node_key id) handlers) ≡ node_handler id ∷ [])

-- Every node in turn handles an event.
abbrev pub on_all : DomainEvent StockChange → List String → Nodes → Nodes
on_all e [] nodes = nodes
on_all e (id ∷ ids) nodes = on_all e ids (on_node id (on_event e) nodes)

pub deliver-on_all :
    (e : DomainEvent StockChange) (n : ℕ) (handlers : Dict (List (EventHandler StockChange Nodes)))
    (ids : List String) (nodes : Nodes)
    → HasHandlers handlers ids
    → deliver stock_events_topic handlers e (cursors_at n ids) nodes ≡ on_all e ids nodes
unfolding deliver run_handlers node_handler
deliver-on_all e n handlers [] nodes has = refl
deliver-on_all e n handlers (id ∷ ids) nodes has =
    let later : Nodes → Nodes = deliver stock_events_topic handlers e (cursors_at n ids) in
    ap
      (λ b.
        later
          (if b then run_handlers (handlers_of (lookup (node_key id) handlers)) e nodes else nodes))
      (reads-node_key id)
    ∙ ap (λ fs. later (run_handlers fs e nodes)) has.0
    ∙ deliver-on_all e n handlers ids (on_node id (on_event e) nodes) has.1

pub lookup-on_node :
    (id j : String) (f : WarehouseNode → WarehouseNode) (nodes : Nodes)
    → lookup j (on_node id f nodes)
      ≡ (if id == j then Option.map f (lookup j nodes) else lookup j nodes)
unfolding on_node
lookup-on_node id j f nodes = elim (Option-cases (lookup id nodes)) [
  | inl e ↦ ground (arith, e, eq_iff id j)
  | inr (x, e) ↦ ground (arith, e, eq_iff id j, lookup-insert id j (f x) nodes)
]

pub lookup-on_all-other :
    (e : DomainEvent StockChange) (ids : List String) (j : String) (nodes : Nodes)
    → IsOther j ids
    → lookup j (on_all e ids nodes) ≡ lookup j nodes
lookup-on_all-other e [] j nodes other = refl
lookup-on_all-other e (id ∷ ids) j nodes other =
    lookup-on_all-other e ids j _ other.1
    ∙ ground (arith, lookup-on_node id j (on_event e) nodes, eq_iff id j, other.0)
