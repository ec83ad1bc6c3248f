-- ===== src/PgOrders/Updates.antt =====
-- An update of a status keeps the tables in step with the in-memory store, and fails when that does.
use mathlib.Core.Path.{subst}
use supply_chain_mangement_s.Common.{
  keep-append, ℕ, suc, ◌≤◌, String, ◌≡◌, ◌∙◌, refl, sym, ap, Bool, true, ◌==◌, Option, none, some,
  List, [], ◌∷◌, ◌++◌, map-append, append-nil, All-append, arith, eq_iff, eq_refl, text-cases,
  Option-cases, inl, inr, if◌then◌else◌,
}
use supply_chain_mangement_s.Dict.{lookup, insert, lookup-insert}
use supply_chain_mangement_s.Exec.{Result, ok, err}
use supply_chain_mangement_s.Exec
use supply_chain_mangement_s.Types.{OrderStatus, OrderEvent, Order}
use supply_chain_mangement_s.Orders
use supply_chain_mangement_s.Orders.{OrderStore, updated}
use supply_chain_mangement_s.Postgres.{unknown_order, Outcome, committed, threw, ◌>>=◌, transaction}
use supply_chain_mangement_s.PgOrders.{
  OrderRow, OrderLineRow, OrderEventRow, Tables, event_row_of, to_event, has_order, update_orders,
  update_order, insert_event, update_status,
}
use supply_chain_mangement_s.PgOrders.Rows.{
  orders_at, lines_at, events_at, has_order-at, orders_at-updated, orders_at-other, Past-later,
  Ordered-snoc,
}
use supply_chain_mangement_s.PgOrders.Represents.{Match, MatchAt, Match-cong, Represents}

Match-absent :
    (id : String) (rows : List OrderRow) (lines : List OrderLineRow) (events : List OrderEventRow)
    (stored : Option Order)
    → stored ≡ none
    → Match id rows lines events stored
    → rows ≡ []
Match-absent id [] lines events stored e m = refl
Match-absent id (row ∷ []) lines events none e m = absurd m
Match-absent id (row ∷ []) lines events (some o) e m = absurd (ground (arith, e))
Match-absent id (row ∷ other ∷ rows) lines events stored e m = absurd m

Match-present :
    (id : String) (rows : List OrderRow) (lines : List OrderLineRow) (events : List OrderEventRow)
    (stored : Option Order) (o : Order)
    → stored ≡ some o
    → Match id rows lines events stored
    → (row : OrderRow) × (rows ≡ row ∷ [])
Match-present id [] lines events none o e m = absurd (ground (arith, e))
Match-present id [] lines events (some p) o e m = absurd m
Match-present id (row ∷ []) lines events stored o e m = (row, refl)
Match-present id (row ∷ other ∷ rows) lines events stored o e m = absurd m

has_order-updated :
    (id asked : String) (status : OrderStatus) (at : ℕ) (rows : List OrderRow)
    → has_order asked (update_orders id status at rows) ≡ has_order asked rows
unfolding update_orders
has_order-updated id asked status at [] = refl
has_order-updated id asked status at (row ∷ rows) =
    ground (arith, has_order-updated id asked status at rows)

-- The same end: both go through, or both fail for the same unknown order.
abbrev pub SameOutcome : Outcome (Unit {0}) → Result (Unit {0}) → Type 0
SameOutcome (committed _) (ok _) = Unit
SameOutcome (threw (unknown_order a)) (err (Exec.unknown_order b)) = a ≡ b
SameOutcome _ _ = ⊥

update_order-none :
    (id : String) (status : OrderStatus) (at : ℕ) (t : Tables)
    → orders_at id t.orders ≡ []
    → update_order id status at t ≡ threw (unknown_order id)
unfolding update_order
update_order-none id status at t e = rw (update_order, e) refl

update_order-one :
    (id : String) (status : OrderStatus) (at : ℕ) (t : Tables) (row : OrderRow)
    → orders_at id t.orders ≡ row ∷ []
    → update_order id status at t
      ≡ committed (record t { orders = update_orders id status at t.orders })
unfolding update_order
update_order-one id status at t row e = rw (update_order, e) refl

-- The tables after an update of an order that is there.
abbrev changed : String → OrderStatus → OrderEvent → Tables → Tables
changed id status event t = record t {
  orders = update_orders id status event.at t.orders;
  order_events = t.order_events ++ event_row_of t.next_serial id event ∷ [];
  next_serial = suc t.next_serial;
}

module _ (id : String) (status : OrderStatus) (event : OrderEvent) (t : Tables) where
  update_status-none :
      orders_at id t.orders ≡ [] → update_status id status event t ≡ (threw (unknown_order id), t)
  unfolding update_status
  update_status-none e =
      ap (λ x. transaction (x >>= insert_event id event) t)
        (update_order-none id status event.at t e)

  update_status-one :
      (row : OrderRow)
      → orders_at id t.orders ≡ row ∷ []
      → update_status id status event t ≡ (committed tt, changed id status event t)
  unfolding update_status insert_event
  update_status-one row e =
      let there =
        has_order-updated id id status event.at t.orders ∙ has_order-at id row t.orders [] e in
      ap (λ x. transaction (x >>= insert_event id event) t)
        (update_order-one id status event.at t row e)
      ∙ rw there refl

  Match-changed :
      (now : ℕ) (rows : List OrderRow) (lines : List OrderLineRow) (events : List OrderEventRow)
      (o : Order)
      → Match id rows lines events (some o)
      → Match id
          (update_orders id status event.at rows)
          lines
          (events ++ event_row_of t.next_serial id event ∷ [])
          (some (updated status event now o))
  unfolding update_orders updated
  Match-changed now [] lines events o m = absurd m
  Match-changed now (row ∷ []) lines events o (here, same, its_lines, its_events) =
      let known : (row.id == id) ≡ true =
        ap (λ (r : OrderRow). r.id == id) same ∙ (eq_iff o.id id).1 here in
      let row' = record row { status = status; updated_at = event.at } in
      let at_row : row' ∷ [] ≡ update_orders id status event.at (row ∷ []) =
        ap (λ (b : Bool). (if b then row' else row) ∷ []) (sym known) in
      subst
        (λ rows.
          Match id rows lines (events ++ event_row_of t.next_serial id event ∷ [])
            (some (updated status event now o)))
        at_row
        (
          here,
          ap (λ (r : OrderRow). record r { status = status; updated_at = event.at }) same,
          its_lines,
          map-append to_event events (event_row_of t.next_serial id event ∷ [])
              ∙ ap (λ h. h ++ event ∷ []) its_events,
        )
  Match-changed now (row ∷ other ∷ rows) lines events o m = absurd m

  changed-matches :
      (now : ℕ) (store : OrderStore) (o : Order)
      → lookup id store ≡ some o
      → ((asked : String) → MatchAt t store asked)
      → (asked : String)
      → MatchAt (changed id status event t) (insert id (updated status event now o) store) asked
  changed-matches now store o found matches asked = elim (text-cases id asked) [
    | inl same ↦
        let known : (id == asked) ≡ true = (eq_iff id asked).1 same in
        subst
          (λ k.
            MatchAt (changed id status event t) (insert id (updated status event now o) store) k)
          same
          (Match-cong id (sym (orders_at-updated id status event.at t.orders)) refl
            (ap (λ x. events_at id t.order_events ++ x) (rw (eq_refl id) refl)
              ∙ sym (keep-append _ t.order_events _))
            (rw (lookup-insert, eq_refl id) refl)
            (Match-changed now (orders_at id t.orders) (lines_at id t.order_lines)
              (events_at id t.order_events) o (Match-cong id refl refl refl found (matches id))))
    | inr other ↦
        Match-cong asked (sym (orders_at-other id asked status event.at t.orders other.1)) refl
          (sym (append-nil (events_at asked t.order_events))
            ∙ ap (λ x. events_at asked t.order_events ++ x) (rw other.1 refl)
            ∙ sym (keep-append _ t.order_events _))
          (rw (lookup-insert, other.1) refl) (matches asked)
  ]

-- The end of an update in the tables and of one in the store, and what they leave.
abbrev pub InStep : ℕ → Outcome (Unit {0}) × Tables → Result (Unit {0}) × OrderStore → Type 0
InStep now pg mem = SameOutcome pg.0 mem.0 × Represents now pg.1 mem.1

-- Whether the id is known or not, an update of a status in the tables and one in the store end the
-- same way and leave them in step, if the event is not older than the ones before it.
pub update_status-Represents :
    (now mem_now : ℕ) (id : String) (status : OrderStatus) (event : OrderEvent) (t : Tables)
    (store : OrderStore)
    → Represents now t store
    → now ≤ event.at
    → InStep event.at
        (update_status id status event t)
        (Orders.update_status id status event mem_now store)
unfolding Orders.update_status
update_status-Represents now mem_now id status event t store r late =
    elim (Option-cases (lookup id store)) [
      | inl e ↦
          let gone = Match-absent id _ _ _ (lookup id store) e (r.matches id) in
          rw (update_status-none id status event t gone, Orders.update_status, e)
            (
              refl,
              record {
                matches = r.matches;
                ordered = r.ordered;
                past =
                    Past-later now event.at t.next_serial t.next_serial t.order_events late
                      (omega arith) r.past;
              },
            )
      | inr (o, e) ↦
          let earlier =
            Past-later now event.at t.next_serial (suc t.next_serial) t.order_events late
              (omega arith) r.past in
          let (row, one) = Match-present id _ _ _ (lookup id store) o e (r.matches id) in
          rw (update_status-one id status event t row one, Orders.update_status, e)
            (
              tt,
              record {
                matches = changed-matches id status event t mem_now store o e r.matches;
                ordered =
                    Ordered-snoc t.order_events (event_row_of t.next_serial id event)
                      (Past-later now event.at t.next_serial t.next_serial t.order_events late
                        (omega arith) r.past)
                      r.ordered;
                past = All-append _ t.order_events _ earlier ((omega arith, omega arith), tt);
              },
            )
    ]
