-- ===== src/PgOrders/Refines.antt =====
-- Reads from Postgres give what reads from the in-memory store give after the same writes.
use mathlib.Core.Path.{subst}
use mathlib.Core.List.Permᴰ
use mathlib.Core.List.{Permᴰ}
use supply_chain_mangement_s.Common.{
  keep-keep, ℕ, ◌≤◌, String, ◌≡◌, ◌∙◌, refl, ap, true, ◌&&◌, ◌==◌, Option, none, some, List, [],
  ◌∷◌, map, keep, length, arith, eq_iff, Bool-cases, inl, inr,
}
use supply_chain_mangement_s.Dict.{lookup}
use supply_chain_mangement_s.Types.{OrderStatus, OrderEvent, Order}
use supply_chain_mangement_s.Orders
use supply_chain_mangement_s.Orders.{OrderStore, Scope, unscoped, owned_by, in_scope}
use supply_chain_mangement_s.Postgres.{Outcome, committed, listed, any_of}
use supply_chain_mangement_s.Postgres.Grouping.{grouped_lem, Perm-keep, Perm-single}
use supply_chain_mangement_s.PgOrders.{
  OrderRow, OrderLineRow, OrderEventRow, Tables, Scans, to_line, to_event, create, update_status,
  lines_for, order_by_at, events_for, to_order, row_in_scope, first_row, order_at, found_order,
  scope_as_uuid, get,
}
use supply_chain_mangement_s.PgOrders.Rows.{
  orders_at, lines_at, events_at, Ordered, order_by_at-Ordered, Ordered-keep,
}
use supply_chain_mangement_s.PgOrders.Represents.{
  SameRow, Match, Represents, no_rows, Represents-none, create-Represents,
}
use supply_chain_mangement_s.PgOrders.Updates.{update_status-Represents}

-- A scan gives the rows of the table, each once, in some order.
pub record Complete (scans : Scans) : Type 0 where
  pub all_orders : (rows : List OrderRow) → Permᴰ (scans.scan_orders rows) rows
  pub all_lines : (rows : List OrderLineRow) → Permᴰ (scans.scan_lines rows) rows

module _ (id : String) (t : Tables) where
  own : (column : String) → (column == id) ≡ true → any_of (id ∷ []) column ≡ true
  own column h = ground (arith, eq_iff column id, eq_iff id column)

  lines_for-lem :
      (scans : Scans)
      → Complete scans
      → Permᴰ
          (listed (lookup id (lines_for scans (id ∷ []) t)))
          (map to_line (lines_at id t.order_lines))
  unfolding lines_for lookup
  lines_for-lem scans complete =
      let kept = keep (λ (row : OrderLineRow). any_of (id ∷ []) row.order_id) t.order_lines in
      rw (grouped_lem (λ (row : OrderLineRow). row.order_id) to_line id (scans.scan_lines kept) [])
        (rw
          (← keep-keep (λ (row : OrderLineRow). row.order_id == id)
            (λ row. any_of (id ∷ []) row.order_id) t.order_lines (λ row h. own row.order_id h))
          (Permᴰ.map to_line (Perm-keep (λ row. row.order_id == id) (complete.all_lines kept))))

  events_for-lem :
      Ordered t.order_events
      → listed (lookup id (events_for (id ∷ []) t)) ≡ map to_event (events_at id t.order_events)
  unfolding events_for lookup
  events_for-lem ordered =
      let asked = λ (row : OrderEventRow). any_of (id ∷ []) row.order_id in
      grouped_lem (λ (row : OrderEventRow). row.order_id) to_event id
        (order_by_at (keep asked t.order_events)) []
      ∙ ap (λ rows. map to_event (events_at id rows))
          (order_by_at-Ordered (keep asked t.order_events)
            (Ordered-keep asked t.order_events ordered))
      ∙ ap (map to_event) (
          keep-keep (λ (row : OrderEventRow). row.order_id == id) asked t.order_events
            (λ row h. own row.order_id h))

-- The two orders agree, up to the order of the lines and the time of the last change.
pub record SameOrder (pg mem : Order) : Type 0 where
  pub same_id : pg.id ≡ mem.id
  pub same_customer : pg.customer_id ≡ mem.customer_id
  pub same_business : pg.business_id ≡ mem.business_id
  pub same_amount : pg.amount_cents ≡ mem.amount_cents
  pub same_status : pg.status ≡ mem.status
  pub same_history : pg.history ≡ mem.history
  pub same_created_at : pg.created_at ≡ mem.created_at
  pub same_lines : Permᴰ pg.lines mem.lines

abbrev pub SameView : Option Order → Option Order → Type 0
SameView none none = Unit
SameView (some pg) (some mem) = SameOrder pg mem
SameView _ _ = ⊥

-- A read that succeeds, and what it gives.
abbrev pub Views : Outcome (Option Order) → Option Order → Type 0
Views out mem = (pg : Option Order) × (out ≡ committed pg) × SameView pg mem

-- A uuid in standard form, and a scope that is not one of another text.
abbrev pub IsUuid : Scans → String → Type 0
IsUuid scans id = scans.uuid_of id ≡ some id

abbrev pub IsUuidScope : Scans → Scope → Type 0
IsUuidScope scans scope = scope_as_uuid scans scope ≡ committed scope

module _ (scans : Scans) (complete : Complete scans) (id : String) (scope : Scope) (t : Tables)
    (standard : IsUuid scans id) (standard_scope : IsUuidScope scans scope) where
  keep-and :
      (rows : List OrderRow)
      → keep (λ row. row.id == id && row_in_scope scope row) rows
        ≡ keep (row_in_scope scope) (orders_at id rows)
  keep-and [] = refl
  keep-and (row ∷ rows) = ground (arith, keep-and rows)

  -- What is read when these are the rows at the id.
  abbrev read : List OrderRow → Option Order
  read found = found_order scans id id t (first_row found)

  get-kept :
      (found : List OrderRow)
      → keep (row_in_scope scope) (orders_at id t.orders) ≡ found
      → length found ≤ 1
      → get scans id scope t ≡ committed (read found)
  unfolding get
  get-kept found e small =
      let kept = keep (λ (row : OrderRow). row.id == id && row_in_scope scope row) t.orders in
      rw (get, standard, standard_scope)
        (ap (λ x. committed (read (scans.scan_orders x))) (keep-and t.orders ∙ e)
          ∙ ap (λ x. committed (read x)) (Perm-single (complete.all_orders found) small))

  in_scope-SameRow :
      (row : OrderRow) (o : Order) → SameRow row o → row_in_scope scope row ≡ in_scope scope o
  in_scope-SameRow row o same = go scope
    where
      go : (s : Scope) → row_in_scope s row ≡ in_scope s o
      go unscoped = unfold row_in_scope in_scope in refl
      go (owned_by b) =
          unfold row_in_scope in_scope in
          ap (λ (r : OrderRow). Orders.same_business r.business_id b) same

  order_at-SameOrder :
      (row : OrderRow) (o : Order)
      → Ordered t.order_events
      → SameRow row o
      → map to_line (lines_at id t.order_lines) ≡ o.lines
      → map to_event (events_at id t.order_events) ≡ o.history
      → SameOrder (order_at scans id id t row) o
  unfolding order_at to_order
  order_at-SameOrder row o ordered same lines events = record {
    same_id = ap (λ (r : OrderRow). r.id) same;
    same_customer = ap (λ (r : OrderRow). r.customer_id) same;
    same_business = ap (λ (r : OrderRow). r.business_id) same;
    same_amount = ap (λ (r : OrderRow). r.amount_cents) same;
    same_status = ap (λ (r : OrderRow). r.status) same;
    same_history = events_for-lem id t ordered ∙ events;
    same_created_at = ap (λ (r : OrderRow). r.created_at) same;
    same_lines =
        subst (Permᴰ (listed (lookup id (lines_for scans (id ∷ []) t)))) lines
          (lines_for-lem id t scans complete);
  }

  view :
      (rows : List OrderRow) (stored : Option Order)
      → orders_at id t.orders ≡ rows
      → Ordered t.order_events
      → Match id rows (lines_at id t.order_lines) (events_at id t.order_events) stored
      → Views (get scans id scope t) (Orders.visible scope stored)
  unfolding Orders.visible
  view [] none e ordered m =
      (none, get-kept [] (ap (keep (row_in_scope scope)) e) (omega arith), tt)
  view [] (some o) e ordered m = absurd m
  view (row ∷ []) none e ordered m = absurd m
  view (row ∷ []) (some o) e ordered (here, same, lines, events) =
      let scoped = in_scope-SameRow row o same in
      let kept = ap (keep (row_in_scope scope)) e in
      elim (Bool-cases (in_scope scope o)) [
        | inl yours ↦
            rw (Orders.visible, yours)
              (
                some (order_at scans id id t row),
                get-kept (row ∷ []) (kept ∙ rw (scoped, yours) refl) (omega arith),
                order_at-SameOrder row o ordered same lines events,
              )
        | inr hidden ↦
            rw (Orders.visible, hidden)
              (none, get-kept [] (kept ∙ rw (scoped, hidden) refl) (omega arith), tt)
      ]
  view (row ∷ other ∷ rows) stored e ordered m = absurd m

-- The writes of an order store: a creation, or an update with the reading of the clock that the
-- in-memory store makes.
pub data Write : Type 0 where
  creates : Order → Write
  updates : (id : String) → OrderStatus → OrderEvent → (now : ℕ) → Write

unfoldable pub write_tables : Write → Tables → Outcome (Unit {0}) × Tables
unfolding create update_status
write_tables (creates o) t = create o t
write_tables (updates id status event now) t = update_status id status event t

unfoldable pub write_store : Write → OrderStore → OrderStore
unfolding Orders.create Orders.update_status
write_store (creates o) store = Orders.create o store
write_store (updates id status event now) store = (Orders.update_status id status event now store).1

unfoldable pub tables_after : List Write → Tables → Tables
unfolding write_tables
tables_after [] t = t
tables_after (w ∷ writes) t = tables_after writes (write_tables w t).1

unfoldable pub store_after : List Write → OrderStore → OrderStore
unfolding write_store
store_after [] store = store
store_after (w ∷ writes) store = store_after writes (write_store w store)

-- Every creation is of an order without events, and commits; the events of the updates, known order
-- or not, carry times that do not decrease. All ids are uuids in standard form.
unfoldable pub Regular : Scans → ℕ → List Write → Tables → Type 0
unfolding create update_status
Regular scans now [] t = Unit
Regular scans now (creates o ∷ writes) t =
    (IsUuid scans o.id × IsUuidScope scans (owned_by o.business_id))
    × (o.history ≡ [])
    × ((create o t).0 ≡ committed tt)
    × Regular scans now writes (create o t).1
Regular scans now (updates id status event clock ∷ writes) t =
    IsUuid scans id
    × (now ≤ event.at)
    × Regular scans event.at writes (update_status id status event t).1

after-Represents :
    (scans : Scans) (writes : List Write) (now : ℕ) (t : Tables) (store : OrderStore)
    → Represents now t store
    → Regular scans now writes t
    → (later : ℕ) × Represents later (tables_after writes t) (store_after writes store)
unfolding Regular tables_after store_after write_tables write_store
after-Represents scans [] now t store r h = (now, r)
after-Represents scans (creates o ∷ writes) now t store r (ids, fresh, done, rest) =
    after-Represents scans writes now (create o t).1 (Orders.create o store)
      (create-Represents now o t store r fresh done) rest
after-Represents scans (updates id status event clock ∷ writes) now t store r
      (standard, late, rest) =
    after-Represents scans writes event.at (update_status id status event t).1
      (Orders.update_status id status event clock store).1
      (update_status-Represents now clock id status event t store r late).1 rest

-- After the same creations and updates from nothing, where each creation commits in Postgres and is
-- of an order without events, the events' times do not decrease, and all ids, the one that is read
-- and the business of the scope included, are uuids in standard form, a read by id succeeds in
-- Postgres and gives what it gives from the in-memory store: no order from either, or one order from
-- each, which agree in all fields, history and its order included, but the order of the lines and the
-- time of the last change. A scan of a table may give its rows in any order.
pub get-refines :
    (scans : Scans) (writes : List Write) (start : ℕ) (id : String) (scope : Scope)
    → Complete scans
    → Regular scans start writes no_rows
    → IsUuid scans id
    → IsUuidScope scans scope
    → Views
        (get scans id scope (tables_after writes no_rows))
        (Orders.get id scope (store_after writes []))
unfolding Orders.get
get-refines scans writes start id scope complete regular standard standard_scope =
    let (later, r) =
      after-Represents scans writes start no_rows [] (Represents-none start) regular in
    view scans complete id scope (tables_after writes no_rows) standard standard_scope
      (orders_at id (tables_after writes no_rows).orders) (lookup id (store_after writes [])) refl
      r.ordered (r.matches id)
