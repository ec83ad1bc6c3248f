-- ===== src/PgOrders/Represents.antt =====
-- The tables stand for the in-memory store: an invariant that the writes of both keep in step.
use mathlib.Core.Path.{subst}
use supply_chain_mangement_s.Common.{
  keep-append, ℕ, String, ◌≡◌, ◌∙◌, refl, sym, ap, true, false, ◌==◌, Option, none, some, List, [],
  ◌∷◌, ◌++◌, map, append-nil, arith, eq_iff, text-cases, inl, inr,
}
use supply_chain_mangement_s.Dict.{lookup, lookup-insert}
use supply_chain_mangement_s.Types.{Order}
use supply_chain_mangement_s.Orders
use supply_chain_mangement_s.Orders.{OrderStore, updated}
use supply_chain_mangement_s.Postgres.{Outcome, committed, threw, ◌>>=◌, transaction}
use supply_chain_mangement_s.PgOrders.{
  OrderRow, OrderLineRow, OrderEventRow, Tables, row_of, line_row_of, to_line, to_event, has_order,
  insert_order, insert_lines, create,
}
use supply_chain_mangement_s.PgOrders.Rows.{
  orders_at, lines_at, events_at, orders_at-new, to_line-line_row_of, lines_at-own, lines_at-other,
  insert_order-committed, insert_lines-committed, >>=-committed, Ordered, Past,
}

-- A row and an order agree on all columns but the time of the last change.
abbrev pub SameRow : OrderRow → Order → Type 0
SameRow row o = row ≡ record (row_of o) { updated_at = row.updated_at }

-- What the tables hold at an id, and what the store holds there.
abbrev pub Match :
    String → List OrderRow → List OrderLineRow → List OrderEventRow → Option Order → Type 0
Match id [] lines events none = (lines ≡ []) × (events ≡ [])
Match id [] lines events (some o) = ⊥
Match id (row ∷ []) lines events none = ⊥
Match id (row ∷ []) lines events (some o) =
    (o.id ≡ id) × SameRow row o × (map to_line lines ≡ o.lines) × (map to_event events ≡ o.history)
Match id (row ∷ other ∷ rows) lines events stored = ⊥

abbrev pub MatchAt : Tables → OrderStore → String → Type 0
MatchAt t store id =
    Match id (orders_at id t.orders) (lines_at id t.order_lines) (events_at id t.order_events)
      (lookup id store)

pub record Represents (now : ℕ) (t : Tables) (store : OrderStore) : Type 0 where
  pub matches : (id : String) → MatchAt t store id
  pub ordered : Ordered t.order_events
  pub past : Past now t.next_serial t.order_events

abbrev pub no_rows : Tables
no_rows = record { orders = []; order_lines = []; order_events = []; next_serial = 1 }

pub Represents-none : (now : ℕ) → Represents now no_rows []
unfolding lookup
Represents-none now = record { matches = λ id. (refl, refl); ordered = tt; past = tt }

committed-tables :
    (out : Outcome Tables) (t : Tables)
    → (transaction out t).0 ≡ committed tt
    → (t' : Tables) × (out ≡ committed t') × ((transaction out t).1 ≡ t')
committed-tables (committed t') t h = (t', refl, refl)
committed-tables (threw err) t h = absurd (ground (arith, h))

Match-new :
    (o : Order) (id : String) (rows : List OrderRow) (lines : List OrderLineRow)
    (events : List OrderEventRow) (stored : Option Order)
    → id ≡ o.id
    → rows ≡ []
    → o.history ≡ []
    → Match id rows lines events stored
    → Match id (rows ++ row_of o ∷ []) (lines ++ map (line_row_of o.id) o.lines) events (some o)
Match-new o id [] lines events none e r h m = (
  sym e,
  refl,
  ap (λ l. map to_line (l ++ map (line_row_of o.id) o.lines)) m.0
      ∙ to_line-line_row_of o.id o.lines,
  ap (map to_event) m.1 ∙ sym h,
)
Match-new o id [] lines events (some p) e r h m = absurd m
Match-new o id (row ∷ rows) lines events stored e r h m = absurd (ground (arith, r))

pub Match-cong :
    (id : String) {rows rows' : List OrderRow} {lines lines' : List OrderLineRow}
    {events events' : List OrderEventRow} {stored stored' : Option Order}
    → rows ≡ rows'
    → lines ≡ lines'
    → events ≡ events'
    → stored ≡ stored'
    → Match id rows lines events stored
    → Match id rows' lines' events' stored'
Match-cong id {rows} {rows'} {lines} {lines'} {events} {events'} {stored} {stored'} r l e s m =
    subst (Match id rows' lines' events') s (
      subst (λ x. Match id rows' lines' x stored) e
        (subst (λ x. Match id rows' x events stored) l
          (subst (λ x. Match id x lines events stored) r m)))

module _ (o : Order) (t : Tables) (store : OrderStore) where
  abbrev created : Tables
  created = record t {
    orders = t.orders ++ row_of o ∷ [];
    order_lines = t.order_lines ++ map (line_row_of o.id) o.lines;
  }

  created-matches :
      has_order o.id t.orders ≡ false
      → o.history ≡ []
      → ((id : String) → MatchAt t store id)
      → (id : String) → MatchAt created (Orders.create o store) id
  unfolding Orders.create
  created-matches free h matches id = elim (text-cases o.id id) [
    | inl same ↦
        let here : (o.id == id) ≡ true = (eq_iff o.id id).1 same in
        let m =
          Match-new o id (orders_at id t.orders) (lines_at id t.order_lines)
            (events_at id t.order_events) (lookup id store) (sym same)
            (ap (λ k. orders_at k t.orders) (sym same) ∙ orders_at-new o.id t.orders free) h
            (matches id) in
        Match-cong id
          (ap (λ x. orders_at id t.orders ++ x) (rw here refl) ∙ sym (keep-append _ t.orders _))
          (ap (λ x. lines_at id t.order_lines ++ x)
              (sym (
                ap (λ k. lines_at k (map (line_row_of o.id) o.lines)) (sym same)
                ∙ lines_at-own o.id o.lines))
            ∙ sym (keep-append _ t.order_lines _))
          refl (rw (lookup-insert, here) refl) m
    | inr other ↦
        Match-cong id
          (sym (append-nil (orders_at id t.orders))
            ∙ ap (λ x. orders_at id t.orders ++ x) (rw other.1 refl)
            ∙ sym (keep-append _ t.orders _))
          (sym (append-nil (lines_at id t.order_lines))
            ∙ ap (λ x. lines_at id t.order_lines ++ x)
                (sym (lines_at-other o.id id o.lines other.1))
            ∙ sym (keep-append _ t.order_lines _))
          refl (rw (lookup-insert, other.1) refl) (matches id)
  ]

-- A creation that commits keeps the tables in step with the store, in which the order is created too.
pub create-Represents :
    (now : ℕ) (o : Order) (t : Tables) (store : OrderStore)
    → Represents now t store
    → o.history ≡ []
    → (create o t).0 ≡ committed tt
    → Represents now (create o t).1 (Orders.create o store)
unfolding create
create-Represents now o t store r h done =
    let (t2, all, e) = committed-tables (insert_order o t >>= insert_lines o.id o.lines) t done in
    let (t1, first, rest) = >>=-committed (insert_order o t) (insert_lines o.id o.lines) t2 all in
    let (free, one) = insert_order-committed o t t1 first in
    let both : (create o t).1 ≡ created o t store =
      e
      ∙ insert_lines-committed o.id o.lines t1 t2 rest
      ∙ ap
          (λ (x : Tables). record x {
            order_lines = x.order_lines ++ map (line_row_of o.id) o.lines;
          })
          one in
    subst (λ x. Represents now x (Orders.create o store)) (sym both)
      (record {
        matches = created-matches o t store free h r.matches;
        ordered = r.ordered;
        past = r.past;
      })
