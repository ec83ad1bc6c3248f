-- ===== src/Warehouse/Tests.antt =====
-- Two warehouse nodes on one bus.
use supply_chain_mangement_s.Common.{
  ℤ, pos, true, Bool-cases, ◌==◌, negsuc, String, ◌≡◌, refl, false, some, List, [], ◌∷◌, ◌++◌,
  arith, inl, inr, eq_iff,
}
use supply_chain_mangement_s.Dict.{lookup, insert, contains}
use supply_chain_mangement_s.EventBus.{subscribe, group_key, history}
use supply_chain_mangement_s.Warehouse.{
  System, Op, emit, lose, rejoin, steps, add_node, node_handler, get, WarehouseNode,
}
use supply_chain_mangement_s.Warehouse.Consistent.{IsConsistent, stock_log, events_of, Converged}
use supply_chain_mangement_s.EventBus.Delivery.{IsQuiet}
use supply_chain_mangement_s.EventBus.Publication.{AllQuiet}
use supply_chain_mangement_s.Warehouse.Convergence.{Tracks, tally}
use supply_chain_mangement_s.Warehouse.Steps.{steps-Converged}

abbrev nothing : System
nothing = record {
  bus = record { topics = []; group_cursors = []; group_handlers = []; draining = false };
  nodes = [];
}

abbrev two_nodes : System
two_nodes = add_node "w2" (add_node "w1" nothing)

abbrev change : ℤ → Op
change delta = emit 1000 (record { sku = "SKU-A"; delta = delta; reason = "commit" })

abbrev partition : List Op
partition = change (pos 5) ∷ lose "w2" ∷ change (negsuc 1) ∷ rejoin "w2" ∷ change (pos 1) ∷ []

abbrev fresh_node : WarehouseNode
fresh_node = record { local_stock = []; connected = true; applied_count = 0 }

fresh_node-Tracks : Tracks [] fresh_node
unfolding get lookup tally
fresh_node-Tracks = record {
  past = [];
  missed = [];
  split = refl;
  count = refl;
  stock = λ sku. refl;
  current = λ on. refl;
}

handler-IsQuiet : (id : String) → IsQuiet (node_handler id)
unfolding node_handler
handler-IsQuiet id e s = (refl, refl)

two_nodes-AllQuiet : AllQuiet two_nodes.bus
unfolding add_node subscribe group_key history lookup insert contains
two_nodes-AllQuiet key = elim (Bool-cases ("stock-events:warehouse-node:w1" == key)) [
  | inl e ↦ rw e (handler-IsQuiet "w1", tt)
  | inr n ↦ elim (Bool-cases ("stock-events:warehouse-node:w2" == key)) [
    | inl e ↦ rw (n, e) (handler-IsQuiet "w2", tt)
    | inr m ↦ rw (n, m) tt
  ]
]

two_nodes-IsConsistent : IsConsistent ("w1" ∷ "w2" ∷ []) two_nodes
unfolding add_node subscribe group_key history lookup insert contains
two_nodes-IsConsistent = record {
  idle = refl;
  cursors = refl;
  handlers = (refl, (refl, tt));
  quiet = two_nodes-AllQuiet;
  distinct = (((λ e. ground (arith, (eq_iff "w1" "w2").1 e)), tt), (tt, tt));
  follows = ((fresh_node, refl, fresh_node-Tracks), ((fresh_node, refl, fresh_node-Tracks), tt));
}

steps-Converged_example :
    (s' : System) × (steps 2 partition two_nodes ≡ some s')
    × Converged ("w1" ∷ "w2" ∷ []) (stock_log two_nodes ++ events_of partition) s'
steps-Converged_example =
    steps-Converged 0 ("w1" ∷ "w2" ∷ []) partition two_nodes two_nodes-IsConsistent
