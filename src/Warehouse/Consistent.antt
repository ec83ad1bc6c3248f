-- ===== src/Warehouse/Consistent.antt =====
-- The system of bus and nodes: every operation keeps the bus drained and the nodes on the log.
use text.Mathlib.TextLemmas.{append_cancel_left}
use supply_chain_mangement_s.Common.{
  ℕ, suc, ◌+◌, String, ◌≡◌, ◌∙◌, refl, sym, ap, true, false, Option, none, some, List, [], ◌∷◌,
  ◌++◌, append-nil, length, length-append, All,
}
use supply_chain_mangement_s.Dict.{lookup}
use supply_chain_mangement_s.EventBus.{DomainEvent, Pass, history, group_key}
use supply_chain_mangement_s.EventBus.Delivery.{AllAt, AbsentIn, DistinctKeys, moved, deliver}
use supply_chain_mangement_s.EventBus.Publication.{
  IsSynced, AllQuiet, published, publish-delivers, history-append_event,
}
use supply_chain_mangement_s.Warehouse.{
  StockChange, WarehouseNode, Nodes, System, Op, emit, lose, rejoin, stock_events_topic, get,
  emit_stock_change, step, disconnect, reconnect, on_node,
}
use supply_chain_mangement_s.Warehouse.Groups.{
  node_key, cursors_at, moved-cursors_at, IsOther, AreDistinct, HasHandlers, on_all, deliver-on_all,
}
use supply_chain_mangement_s.Warehouse.Convergence.{
  Log, tally, Tracks, Follows, on_all-Follows, on_node-Follows, disconnect-Tracks, reconnect-Tracks,
}

abbrev pub stock_log : System → Log
stock_log s = history stock_events_topic s.bus.topics

-- The bus has the groups of the nodes `ids` and no other, all at the end of the log, and each node
-- agrees with the log.
pub record IsConsistent (ids : List String) (s : System) : Type 0 where
  pub idle : s.bus.draining ≡ false
  pub cursors : s.bus.group_cursors ≡ cursors_at (length (stock_log s)) ids
  pub handlers : HasHandlers s.bus.group_handlers ids
  pub quiet : AllQuiet s.bus
  pub distinct : AreDistinct ids
  pub follows : All (Follows (stock_log s) s.nodes) ids

node_key-injective : (a b : String) → node_key a ≡ node_key b → a ≡ b
unfolding group_key
node_key-injective a b e =
    append_cancel_left "warehouse-node:" a b
      (append_cancel_left ":" _ _ (append_cancel_left stock_events_topic _ _ e))

AllAt-cursors_at : (topic : String) (n : ℕ) (ids : List String) → AllAt topic n (cursors_at n ids)
AllAt-cursors_at topic n [] = tt
AllAt-cursors_at topic n (id ∷ ids) = (λ r. refl, AllAt-cursors_at topic n ids)

AbsentIn-cursors_at :
    (n : ℕ) (id : String) (ids : List String)
    → IsOther id ids
    → AbsentIn (node_key id) (cursors_at n ids)
AbsentIn-cursors_at n id [] other = tt
AbsentIn-cursors_at n id (j ∷ ids) other =
    (λ e. other.0 (sym (node_key-injective j id e)), AbsentIn-cursors_at n id ids other.1)

DistinctKeys-cursors_at :
    (n : ℕ) (ids : List String) → AreDistinct ids → DistinctKeys (cursors_at n ids)
DistinctKeys-cursors_at n [] d = tt
DistinctKeys-cursors_at n (id ∷ ids) d =
    (AbsentIn-cursors_at n id ids d.0, DistinctKeys-cursors_at n ids d.1)

module _ (ids : List String) (s : System) (c : IsConsistent ids s) where
  consistent-IsSynced : IsSynced stock_events_topic s.bus
  consistent-IsSynced = record {
    idle = c.idle;
    read = rw c.cursors (AllAt-cursors_at stock_events_topic _ ids);
    distinct = rw c.cursors (DistinctKeys-cursors_at _ ids c.distinct);
  }

  abbrev event_of : ℕ → StockChange → DomainEvent StockChange
  event_of now change = record { type = "stock.changed"; payload = change; at = now; key = none }

  -- The system after a change is emitted.
  abbrev emitted_to : ℕ → StockChange → System
  emitted_to now change = record {
    bus = published stock_events_topic (event_of now change) s.bus;
    nodes = on_all (event_of now change) ids s.nodes;
  }

  abbrev result_of : Option (Pass StockChange Nodes) → Option System
  result_of none = none
  result_of (some p) = some (record { bus = p.bus; nodes = p.state })

  emit-returns :
      (fuel now : ℕ) (change : StockChange)
      → emit_stock_change (suc (suc fuel)) now change s ≡ some (emitted_to now change)
  unfolding emit_stock_change
  emit-returns fuel now change =
      let e = event_of now change in
      ap result_of
        (publish-delivers stock_events_topic e s.bus fuel s.nodes consistent-IsSynced c.quiet)
      ∙ ap (λ nodes. some (record { bus = published stock_events_topic e s.bus; nodes = nodes }))
          (ap (λ m. deliver stock_events_topic s.bus.group_handlers e m s.nodes) c.cursors
            ∙ deliver-on_all e _ s.bus.group_handlers ids s.nodes c.handlers)

  emitted-IsConsistent : (now : ℕ) (change : StockChange) → IsConsistent ids (emitted_to now change)
  emitted-IsConsistent now change =
      let appended = history-append_event stock_events_topic (event_of now change) s.bus.topics in
      record {
        idle = refl;
        cursors =
            ap (moved stock_events_topic (length (stock_log s) + 1)) c.cursors
            ∙ moved-cursors_at (length (stock_log s) + 1) (length (stock_log s)) ids
            ∙ ap (λ m. cursors_at m ids)
                (sym (ap length appended ∙ length-append (stock_log s) (event_of now change ∷ [])));
        handlers = c.handlers;
        quiet = c.quiet;
        distinct = c.distinct;
        follows =
            rw appended
              (on_all-Follows (stock_log s) (event_of now change) ids s.nodes c.distinct c.follows);
      }

  node-IsConsistent :
      (id : String) (f : WarehouseNode → WarehouseNode)
      → ((node : WarehouseNode) → Tracks (stock_log s) node → Tracks (stock_log s) (f node))
      → IsConsistent ids (record s { nodes = on_node id f s.nodes })
  node-IsConsistent id f keeps = record {
    idle = c.idle;
    cursors = c.cursors;
    handlers = c.handlers;
    quiet = c.quiet;
    distinct = c.distinct;
    follows = on_node-Follows (stock_log s) id f s.nodes keeps ids c.follows;
  }

-- The events that the operations emit, in order.
abbrev pub events_of : List Op → Log
events_of [] = []
events_of (emit now change ∷ ops) =
    record { type = "stock.changed"; payload = change; at = now; key = none } ∷ events_of ops
events_of (lose id ∷ ops) = events_of ops
events_of (rejoin id ∷ ops) = events_of ops

-- The log is as given, and each node with a connection has applied every event of it once: it has
-- for every SKU the sum of the changes in the log.
abbrev pub Converged : List String → Log → System → Type 0
Converged ids log s =
    (stock_log s ≡ log)
    × All
        (λ id.
          (node : WarehouseNode) × (lookup id s.nodes ≡ some node)
          × (node.connected ≡ true
              → (node.applied_count ≡ length log)
                × ((sku : String) → get sku node ≡ tally sku log)))
        ids

-- One operation.
pub step-IsConsistent :
    (fuel : ℕ) (ids : List String) (op : Op) (s : System)
    → IsConsistent ids s
    → (s' : System) × (step (suc (suc fuel)) op s ≡ some s')
      × IsConsistent ids s'
      × (stock_log s' ≡ stock_log s ++ events_of (op ∷ []))
unfolding step
step-IsConsistent fuel ids (emit now change) s c = (
  emitted_to ids s c now change,
  emit-returns ids s c fuel now change,
  emitted-IsConsistent ids s c now change,
  history-append_event stock_events_topic (event_of ids s c now change) s.bus.topics,
)
step-IsConsistent fuel ids (lose id) s c = (
  record s { nodes = on_node id disconnect s.nodes },
  refl,
  node-IsConsistent ids s c id disconnect (disconnect-Tracks (stock_log s)),
  sym (append-nil (stock_log s)),
)
step-IsConsistent fuel ids (rejoin id) s c = (
  record s { nodes = on_node id (reconnect (stock_log s)) s.nodes },
  refl,
  node-IsConsistent ids s c id (reconnect (stock_log s)) (reconnect-Tracks (stock_log s)),
  sym (append-nil (stock_log s)),
)
