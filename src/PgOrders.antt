-- ===== src/PgOrders.antt =====
-- src/orders/pgOrderStore.ts over the tables of docs/schema.sql: each SQL statement of the store as a
-- function of the tables. A column of a timestamp is its milliseconds, and a uuid its text in standard
-- form. The ids that are written are those that randomUUID drew, in this form; a text that is asked for
-- is first read as a uuid, by `uuid_of`. The
-- order in which the server returns rows without ORDER BY (or with equal keys) is open: `scan_orders`
-- and `scan_lines` stand for it.
pub mod Rows
pub mod Represents
pub mod Updates
pub mod Refines
pub mod Creation
mod Tests
use supply_chain_mangement_s.Common.{
  ℕ, zero, suc, ◌+◌, ℤ, pos, leb_ℤ, ltb, leb, String, Bool, true, false, not, ◌&&◌, ◌||◌, ◌==◌,
  Option, none, some, List, [], ◌∷◌, ◌++◌, map, length, keep, if◌then◌else◌,
}
use supply_chain_mangement_s.Dict.{Dict, lookup}
use supply_chain_mangement_s.Types.{OrderStatus, OrderLine, Detail, OrderEvent, Order}
use supply_chain_mangement_s.Orders.{Scope, unscoped, owned_by, same_business, is_terminal_status}
use supply_chain_mangement_s.Postgres.{
  PgError, out_of_range, check_violation, unique_violation, foreign_key_violation, unknown_order,
  invalid_text, Outcome, committed, threw, ◌>>=◌, transaction, fits_integer, listed, grouped,
  any_of,
}

pub record OrderRow : Type 0 where
  pub id : String
  pub customer_id : String
  pub business_id : Option String
  pub amount_cents : ℤ
  pub status : OrderStatus
  pub created_at : ℕ
  pub updated_at : ℕ

pub record OrderLineRow : Type 0 where
  pub order_id : String
  pub sku : String
  pub warehouse_id : String
  pub qty : ℤ

-- A row of `order_events`, with its serial number.
pub record OrderEventRow : Type 0 where
  pub serial : ℕ
  pub order_id : String
  pub type : String
  pub detail : Option Detail
  pub at : ℕ

pub record Tables : Type 0 where
  pub orders : List OrderRow
  pub order_lines : List OrderLineRow
  pub order_events : List OrderEventRow
  pub next_serial : ℕ

-- The order in which a scan of a table gives its rows, and the standard form of the uuid that a text
-- spells.
pub record Scans : Type 0 where
  pub scan_orders : List OrderRow → List OrderRow
  pub scan_lines : List OrderLineRow → List OrderLineRow
  pub uuid_of : String → Option String

abbrev pub has_order : String → List OrderRow → Bool
has_order id [] = false
has_order id (row ∷ rows) = row.id == id || has_order id rows

-- The key of `order_lines`: order, SKU and warehouse.
abbrev pub same_line : String → OrderLine → OrderLineRow → Bool
same_line id line row =
    row.order_id == id && row.sku == line.sku && row.warehouse_id == line.warehouse_id

abbrev pub has_line : String → OrderLine → List OrderLineRow → Bool
has_line id line [] = false
has_line id line (row ∷ rows) = same_line id line row || has_line id line rows

abbrev pub row_of : Order → OrderRow
row_of o = record {
  id = o.id;
  customer_id = o.customer_id;
  business_id = o.business_id;
  amount_cents = o.amount_cents;
  status = o.status;
  created_at = o.created_at;
  updated_at = o.updated_at;
}

abbrev pub line_row_of : String → OrderLine → OrderLineRow
line_row_of id line = record {
  order_id = id;
  sku = line.sku;
  warehouse_id = line.warehouse_id;
  qty = line.qty;
}

-- `INSERT INTO orders …`
unfoldable pub insert_order : Order → Tables → Outcome Tables
insert_order o t =
    if not (fits_integer o.amount_cents)
    then threw out_of_range
    else if leb_ℤ o.amount_cents (pos 0)
    then threw check_violation
    else if has_order o.id t.orders
    then threw unique_violation
    else committed (record t { orders = t.orders ++ row_of o ∷ [] })

-- `INSERT INTO order_lines …`
unfoldable pub insert_line : String → OrderLine → Tables → Outcome Tables
insert_line id line t =
    if not (fits_integer line.qty)
    then threw out_of_range
    else if leb_ℤ line.qty (pos 0)
    then threw check_violation
    else if has_line id line t.order_lines
    then threw unique_violation
    else if has_order id t.orders
    then committed (record t { order_lines = t.order_lines ++ line_row_of id line ∷ [] })
    else threw foreign_key_violation

-- `for (const line of order.lines) …`
unfoldable pub insert_lines : String → List OrderLine → Tables → Outcome Tables
unfolding insert_line
insert_lines id [] t = committed t
insert_lines id (line ∷ lines) t = insert_line id line t >>= insert_lines id lines

unfoldable pub create : Order → Tables → Outcome (Unit {0}) × Tables
unfolding insert_order insert_lines
create o t = transaction (insert_order o t >>= insert_lines o.id o.lines) t

-- `UPDATE orders SET status = $2, updated_at = … WHERE id = $1`
unfoldable pub update_orders : String → OrderStatus → ℕ → List OrderRow → List OrderRow
update_orders id status at [] = []
update_orders id status at (row ∷ rows) =
    (if row.id == id then record row { status = status; updated_at = at } else row)
    ∷ update_orders id status at rows

-- The `rowCount` of that statement.
abbrev pub row_count : String → List OrderRow → ℕ
row_count id rows = length (keep (λ row. row.id == id) rows)

abbrev pub event_row_of : ℕ → String → OrderEvent → OrderEventRow
event_row_of serial id event = record {
  serial = serial;
  order_id = id;
  type = event.type;
  detail = event.detail;
  at = event.at;
}

-- `INSERT INTO order_events …`
unfoldable pub insert_event : String → OrderEvent → Tables → Outcome Tables
insert_event id event t =
    if has_order id t.orders
    then committed (record t {
      order_events = t.order_events ++ event_row_of t.next_serial id event ∷ [];
      next_serial = suc t.next_serial;
    })
    else threw foreign_key_violation

-- The UPDATE, and the throw where it finds no row.
unfoldable pub update_order : String → OrderStatus → ℕ → Tables → Outcome Tables
unfolding update_orders
update_order id status at t = elim (row_count id t.orders) [
  | zero ↦ threw (unknown_order id)
  | suc _ ↦ committed (record t { orders = update_orders id status at t.orders })
]

unfoldable pub update_status :
    String → OrderStatus → OrderEvent → Tables → Outcome (Unit {0}) × Tables
unfolding update_order insert_event
update_status id status event t =
    transaction (update_order id status event.at t >>= insert_event id event) t

abbrev pub to_line : OrderLineRow → OrderLine
to_line row = record { sku = row.sku; qty = row.qty; warehouse_id = row.warehouse_id }

abbrev pub to_event : OrderEventRow → OrderEvent
to_event row = record { type = row.type; at = row.at; detail = row.detail }

-- `linesFor`
unfoldable pub lines_for : Scans → List String → Tables → Dict (List OrderLine)
unfolding grouped
lines_for scans ids t =
    grouped (λ (row : OrderLineRow). row.order_id) to_line
      (scans.scan_lines (keep (λ row. any_of ids row.order_id) t.order_lines)) []

-- ORDER BY at ASC, id ASC
abbrev pub event_before : OrderEventRow → OrderEventRow → Bool
event_before a b = ltb a.at b.at || (leb a.at b.at && leb a.serial b.serial)

unfoldable pub place_event : OrderEventRow → List OrderEventRow → List OrderEventRow
place_event row [] = row ∷ []
place_event row (other ∷ rows) =
    if event_before row other then row ∷ other ∷ rows else other ∷ place_event row rows

unfoldable pub order_by_at : List OrderEventRow → List OrderEventRow
unfolding place_event
order_by_at [] = []
order_by_at (row ∷ rows) = place_event row (order_by_at rows)

-- `eventsFor`
unfoldable pub events_for : List String → Tables → Dict (List OrderEvent)
unfolding grouped order_by_at
events_for ids t =
    grouped (λ (row : OrderEventRow). row.order_id) to_event
      (order_by_at (keep (λ row. any_of ids row.order_id) t.order_events)) []

unfoldable pub to_order : OrderRow → List OrderLine → List OrderEvent → Order
to_order row lines history = record {
  id = row.id;
  customer_id = row.customer_id;
  lines = lines;
  amount_cents = row.amount_cents;
  status = row.status;
  history = history;
  created_at = row.created_at;
  updated_at = row.updated_at;
  business_id = row.business_id;
}

-- `business_id IS NOT DISTINCT FROM …`, or no such clause.
unfoldable pub row_in_scope : Scope → OrderRow → Bool
unfolding same_business
row_in_scope unscoped row = true
row_in_scope (owned_by b) row = same_business row.business_id b

-- `rows[0]`
abbrev pub first_row : List OrderRow → Option OrderRow
first_row [] = none
first_row (row ∷ rows) = some row

-- A parameter of type uuid.
abbrev pub as_uuid : Option String → Outcome String
as_uuid none = threw invalid_text
as_uuid (some uuid) = committed uuid

abbrev pub scope_as_uuid : Scans → Scope → Outcome Scope
scope_as_uuid scans unscoped = committed unscoped
scope_as_uuid scans (owned_by none) = committed (owned_by none)
scope_as_uuid scans (owned_by (some business_id)) =
    as_uuid (scans.uuid_of business_id) >>= λ uuid. committed (owned_by (some uuid))

-- `lines.get(id)` and `history.get(id)` ask for the text `id`, under keys in standard form.
unfoldable pub order_at : Scans → (id uuid : String) → Tables → OrderRow → Order
unfolding to_order lines_for events_for
order_at scans id uuid t row =
    to_order row (listed (lookup id (lines_for scans (uuid ∷ []) t)))
      (listed (lookup id (events_for (uuid ∷ []) t)))

abbrev pub found_order : Scans → (id uuid : String) → Tables → Option OrderRow → Option Order
found_order scans id uuid t none = none
found_order scans id uuid t (some row) = some (order_at scans id uuid t row)

unfoldable pub get : Scans → String → Scope → Tables → Outcome (Option Order)
unfolding row_in_scope order_at
get scans id scope t = as_uuid (scans.uuid_of id) >>= λ uuid. scope_as_uuid scans scope >>= λ asked.
    committed (
      found_order scans id uuid t (
        first_row
          (scans.scan_orders (keep (λ row. row.id == uuid && row_in_scope asked row) t.orders))))

-- ORDER BY created_at ASC; rows of the same time stay as the scan gives them.
unfoldable pub place_order : OrderRow → List OrderRow → List OrderRow
place_order row [] = row ∷ []
place_order row (other ∷ rows) =
    if leb row.created_at other.created_at then row ∷ other ∷ rows else other ∷ place_order row rows

unfoldable pub order_by_created_at : List OrderRow → List OrderRow
unfolding place_order
order_by_created_at [] = []
order_by_created_at (row ∷ rows) = place_order row (order_by_created_at rows)

-- `hydrateAll`; with no rows it makes no query, and the result is empty all the same.
unfoldable pub hydrate_all : Scans → Tables → List OrderRow → List Order
unfolding to_order lines_for events_for
hydrate_all scans t [] = []
hydrate_all scans t (first ∷ others) =
    let rows = first ∷ others in
    let ids = map (λ (row : OrderRow). row.id) rows in
    let lines = lines_for scans ids t in
    let history = events_for ids t in
    map (λ row. to_order row (listed (lookup row.id lines)) (listed (lookup row.id history))) rows

unfoldable pub all : Scans → Scope → Tables → Outcome (List Order)
unfolding hydrate_all order_by_created_at row_in_scope
all scans scope t = scope_as_uuid scans scope >>= λ asked. committed (
    hydrate_all scans t
      (order_by_created_at (scans.scan_orders (keep (row_in_scope asked) t.orders))))

-- `status <> ALL(…)` on the list of terminal statuses.
unfoldable pub non_terminal : Scans → Tables → List Order
unfolding hydrate_all order_by_created_at is_terminal_status
non_terminal scans t = hydrate_all scans t (
    order_by_created_at
      (scans.scan_orders (keep (λ row. not (is_terminal_status row.status)) t.orders)))
