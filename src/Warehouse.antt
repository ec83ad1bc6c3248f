-- ===== src/Warehouse.antt =====
-- src/warehouse/warehouseSync.ts: warehouse nodes that follow the stock log over the in-memory
-- event bus. The nodes of a process are kept by their ids; the handler of a node reads and writes
-- the node that it was made for.
pub mod Groups
pub mod Convergence
pub mod Consistent
pub mod Steps
mod Tests
use Prim.Native.String.{◌++◌ as join}
use supply_chain_mangement_s.Common.{
  ℕ, ◌+◌, ℤ, pos, ◌+ℤ◌, String, Bool, true, false, Option, none, some, List, [], ◌∷◌, drop,
  if◌then◌else◌,
}
use supply_chain_mangement_s.Dict.{Dict, lookup, insert}
use supply_chain_mangement_s.EventBus.{
  DomainEvent, EventBus, EventHandler, history, subscribe, publish,
}

abbrev pub stock_events_topic : String
stock_events_topic = "stock-events"

-- The payload `{ sku, delta, reason }`.
pub record StockChange : Type 0 where
  pub sku : String
  pub delta : ℤ
  pub reason : String

pub record WarehouseNode : Type 0 where
  pub local_stock : Dict ℤ
  pub connected : Bool
  pub applied_count : ℕ

-- `this.localStock.get(sku) ?? 0`
unfoldable pub get : String → WarehouseNode → ℤ
get sku node = elim (lookup sku node.local_stock) [ none ↦ pos 0 | some qty ↦ qty ]

unfoldable pub apply : DomainEvent StockChange → WarehouseNode → WarehouseNode
unfolding get
apply event node = record node {
  local_stock =
      insert event.payload.sku (get event.payload.sku node +ℤ event.payload.delta) node.local_stock;
  applied_count = node.applied_count + 1;
}

unfoldable pub apply_all : List (DomainEvent StockChange) → WarehouseNode → WarehouseNode
unfolding apply
apply_all [] node = node
apply_all (event ∷ events) node = apply_all events (apply event node)

-- The callback that the constructor subscribes.
unfoldable pub on_event : DomainEvent StockChange → WarehouseNode → WarehouseNode
unfolding apply
on_event event node = if node.connected then apply event node else node

unfoldable pub disconnect : WarehouseNode → WarehouseNode
disconnect node = record node { connected = false }

unfoldable pub reconnect : List (DomainEvent StockChange) → WarehouseNode → WarehouseNode
unfolding apply_all
reconnect log node = apply_all (drop node.applied_count log) (record node { connected = true })

abbrev pub Nodes : Type 0
Nodes = Dict WarehouseNode

abbrev pub Bus : Type 0
Bus = EventBus StockChange Nodes

-- A change of one node in place.
unfoldable pub on_node : String → (WarehouseNode → WarehouseNode) → Nodes → Nodes
on_node id f nodes = elim (lookup id nodes) [ none ↦ nodes | some node ↦ insert id (f node) nodes ]

unfoldable pub node_handler : String → EventHandler StockChange Nodes
unfolding on_node on_event
node_handler id event nodes = record {
  state = on_node id (on_event event) nodes;
  published = [];
  threw = false;
}

-- The process's bus and its nodes.
pub record System : Type 0 where
  pub bus : Bus
  pub nodes : Nodes

-- `new WarehouseNode(nodeId, eventBus)`
unfoldable pub add_node : String → System → System
unfolding node_handler
add_node id s = record {
  bus = subscribe stock_events_topic (join "warehouse-node:" id) (node_handler id) s.bus;
  nodes = insert id (record { local_stock = []; connected = true; applied_count = 0 }) s.nodes;
}

-- `emitStockChange`; the drain runs on fuel.
unfoldable pub emit_stock_change : ℕ → ℕ → StockChange → System → Option System
emit_stock_change fuel now change s =
    elim (publish fuel stock_events_topic
      (record { type = "stock.changed"; payload = change; at = now; key = none }) s.bus s.nodes) [
        | none ↦ none
        | some p ↦ some (record { bus = p.bus; nodes = p.state })
      ]

-- What happens to the system: a change is emitted, a node loses its connection, a node gets it back.
pub data Op : Type 0 where
  emit : (now : ℕ) → StockChange → Op
  lose : (id : String) → Op
  rejoin : (id : String) → Op

unfoldable pub step : ℕ → Op → System → Option System
unfolding emit_stock_change on_node disconnect reconnect history
step fuel (emit now change) s = emit_stock_change fuel now change s
step fuel (lose id) s = some (record s { nodes = on_node id disconnect s.nodes })
step fuel (rejoin id) s =
    some (record s {
      nodes = on_node id (reconnect (history stock_events_topic s.bus.topics)) s.nodes;
    })

unfoldable pub steps : ℕ → List Op → System → Option System
unfolding step
steps fuel [] s = some s
steps fuel (op ∷ ops) s = elim (step fuel op s) [ none ↦ none | some s' ↦ steps fuel ops s' ]
