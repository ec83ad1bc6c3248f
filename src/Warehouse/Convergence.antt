-- ===== src/Warehouse/Convergence.antt =====
-- The nodes agree with the stock log, whatever is emitted and whichever nodes lose and regain
-- their connection in between.
use supply_chain_mangement_s.Common.{
  ◌+◌, ℤ, pos, ◌+ℤ◌, String, ◌≡◌, ◌∙◌, refl, sym, ap, true, some, List, [], ◌∷◌, ◌++◌, append_assoc,
  append-nil, ◌==◌, eq_iff, eq_refl, arith, int_laws, +ℤ-zero, inl, inr, Bool-cases, text-cases,
  drop, length, length-append, All, if◌then◌else◌,
}
use supply_chain_mangement_s.Dict.{lookup, lookup-insert}
use supply_chain_mangement_s.EventBus.{DomainEvent}
use supply_chain_mangement_s.Warehouse.{
  StockChange, WarehouseNode, Nodes, get, apply, apply_all, on_event, disconnect, reconnect,
  on_node,
}
use supply_chain_mangement_s.Warehouse.Groups.{
  on_all, IsOther, AreDistinct, lookup-on_node, lookup-on_all-other,
}

abbrev pub Log : Type 0
Log = List (DomainEvent StockChange)

-- The sum of the changes of one SKU in a log.
unfoldable pub tally : String → Log → ℤ
tally sku [] = pos 0
tally sku (e ∷ log) = (if e.payload.sku == sku then e.payload.delta else pos 0) +ℤ tally sku log

tally-append : (sku : String) (a b : Log) → tally sku (a ++ b) ≡ tally sku a +ℤ tally sku b
unfolding tally
tally-append sku [] b = omega int_laws
tally-append sku (e ∷ a) b = rw (tally-append sku a b) (omega int_laws)

get-apply :
    (sku : String) (e : DomainEvent StockChange) (node : WarehouseNode)
    → get sku (apply e node)
      ≡ get sku node +ℤ (if e.payload.sku == sku then e.payload.delta else pos 0)
unfolding get apply
get-apply sku e node =
    let k = e.payload.sku in
    ground (
      arith,
      eq_iff k sku,
      lookup-insert k sku (get k node +ℤ e.payload.delta) node.local_stock,
      +ℤ-zero (get sku node),
    )

apply-count :
    (e : DomainEvent StockChange) (node : WarehouseNode)
    → (apply e node).applied_count ≡ node.applied_count + 1
unfolding apply
apply-count e node = refl

-- What applying a log does: the sums are added, the events counted, the connection left.
apply_all_lem :
    (log : Log) (node : WarehouseNode)
    → ((sku : String) → get sku (apply_all log node) ≡ get sku node +ℤ tally sku log)
      × ((apply_all log node).applied_count ≡ node.applied_count + length log)
unfolding apply_all tally
apply_all_lem [] node = (λ sku. omega int_laws, omega arith)
apply_all_lem (e ∷ log) node =
    let ih = apply_all_lem log (apply e node) in
    (
      λ sku. rw (ih.0 sku, get-apply sku e node) (omega int_laws),
      omega (arith, ih.1, apply-count e node),
    )

drop-length-append : (past missed : Log) → drop (length past) (past ++ missed) ≡ missed
drop-length-append [] missed = refl
drop-length-append (e ∷ past) missed = drop-length-append past missed

-- The node has applied a first part of the log, each event once; with a connection, all of it.
pub record Tracks (log : Log) (node : WarehouseNode) : Type 0 where
  pub past : Log
  pub missed : Log
  pub split : log ≡ past ++ missed
  pub count : node.applied_count ≡ length past
  pub stock : (sku : String) → get sku node ≡ tally sku past
  pub current : node.connected ≡ true → missed ≡ []

-- One more event reaches a node: applied with a connection, missed without.
on_event-Tracks :
    (log : Log) (e : DomainEvent StockChange) (node : WarehouseNode)
    → Tracks log node
    → Tracks (log ++ e ∷ []) (on_event e node)
unfolding on_event
on_event-Tracks log e node t = elim (Bool-cases node.connected) [
  | inl on ↦
      let whole : log ≡ t.past =
        t.split ∙ ap (λ m. t.past ++ m) (t.current on) ∙ append-nil t.past in
      rw on record {
        past = t.past ++ e ∷ [];
        missed = [];
        split = ap (λ l. l ++ e ∷ []) whole ∙ sym (append-nil (t.past ++ e ∷ []));
        count = omega (arith, apply-count e node, t.count, length-append t.past (e ∷ []));
        stock = λ sku.
            rw (get-apply sku e node, t.stock sku, tally-append sku t.past (e ∷ []))
              (unfold tally in omega int_laws);
        current = λ on'. refl;
      }
  | inr off ↦ rw off record {
    past = t.past;
    missed = t.missed ++ e ∷ [];
    split = ap (λ l. l ++ e ∷ []) t.split ∙ append_assoc t.past t.missed (e ∷ []);
    count = t.count;
    stock = t.stock;
    current = λ on. cc on;
  }
]

pub disconnect-Tracks :
    (log : Log) (node : WarehouseNode) → Tracks log node → Tracks log (disconnect node)
unfolding disconnect get
disconnect-Tracks log node t = record {
  past = t.past;
  missed = t.missed;
  split = t.split;
  count = t.count;
  stock = t.stock;
  current = λ on. ground (arith, on);
}

-- A reconnected node applies exactly what it has missed.
pub reconnect-Tracks :
    (log : Log) (node : WarehouseNode) → Tracks log node → Tracks log (reconnect log node)
unfolding reconnect get
reconnect-Tracks log node t =
    let back = record node { connected = true } in
    let replayed = apply_all_lem t.missed back in
    let missing : drop node.applied_count log ≡ t.missed =
      ap (λ n. drop n log) t.count
      ∙ ap (drop (length t.past)) t.split
      ∙ drop-length-append t.past t.missed in
    rw missing record {
      past = t.past ++ t.missed;
      missed = [];
      split = t.split ∙ sym (append-nil (t.past ++ t.missed));
      count = omega (arith, replayed.1, t.count, length-append t.past t.missed);
      stock = λ sku.
          replayed.0 sku
          ∙ ap (λ n. n +ℤ tally sku t.missed) (t.stock sku)
          ∙ sym (tally-append sku t.past t.missed);
      current = λ on. refl;
    }

-- The node of an id, which agrees with the log.
abbrev pub Follows : Log → Nodes → String → Type 0
Follows log nodes id = (node : WarehouseNode) × (lookup id nodes ≡ some node) × Tracks log node

pub on_node-Follows :
    (log : Log) (id : String) (f : WarehouseNode → WarehouseNode) (nodes : Nodes)
    → ((node : WarehouseNode) → Tracks log node → Tracks log (f node))
    → (ids : List String) → All (Follows log nodes) ids
    → All (Follows log (on_node id f nodes)) ids
on_node-Follows log id f nodes keeps [] all = tt
on_node-Follows log id f nodes keeps (j ∷ ids) all =
    let (node, found, t) = all.0 in
    (
      elim (text-cases id j) [
        | inl same ↦ (
          f node,
          ground (arith, lookup-on_node id j f nodes, eq_iff id j, found, same),
          keeps node t,
        )
        | inr other ↦ (node, ground (arith, lookup-on_node id j f nodes, other.1, found), t)
      ],
      on_node-Follows log id f nodes keeps ids all.1,
    )

-- Another node's turn leaves the nodes that wait as they are.
on_node-other :
    (log : Log) (id : String) (f : WarehouseNode → WarehouseNode) (nodes : Nodes)
    (ids : List String)
    → IsOther id ids
    → All (Follows log nodes) ids
    → All (Follows log (on_node id f nodes)) ids
on_node-other log id f nodes [] other all = tt
on_node-other log id f nodes (j ∷ ids) other all =
    let (node, found, t) = all.0 in
    (
      (node, ground (arith, lookup-on_node id j f nodes, eq_iff id j, other.0, found), t),
      on_node-other log id f nodes ids other.1 all.1,
    )

pub on_all-Follows :
    (log : Log) (e : DomainEvent StockChange) (ids : List String) (nodes : Nodes)
    → AreDistinct ids
    → All (Follows log nodes) ids
    → All (Follows (log ++ e ∷ []) (on_all e ids nodes)) ids
on_all-Follows log e [] nodes distinct all = tt
on_all-Follows log e (id ∷ ids) nodes distinct all =
    let (node, found, t) = all.0 in
    let nodes' = on_node id (on_event e) nodes in
    (
      (
        on_event e node,
        lookup-on_all-other e ids id nodes' distinct.0
            ∙ ground (arith, lookup-on_node id id (on_event e) nodes, eq_refl id, found),
        on_event-Tracks log e node t,
      ),
      on_all-Follows log e ids nodes' distinct.1
          (on_node-other log id (on_event e) nodes ids distinct.0 all.1),
    )
