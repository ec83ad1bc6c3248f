-- ===== src/PgOrders/Rows.antt =====
-- Which rows the statements of the store add or change, seen at one order id.
use supply_chain_mangement_s.Common.{
  ℕ, ◌≤◌, ◌<◌, String, ◌≡◌, ◌∙◌, refl, ap, Bool, true, false, ◌==◌, List, [], ◌∷◌, ◌++◌, map,
  append_assoc, append-nil, keep, All, arith, eq_iff, eq_refl, Bool-cases, inl, inr,
}
use supply_chain_mangement_s.Types.{OrderStatus, OrderLine, Order}
use supply_chain_mangement_s.Postgres.{Outcome, committed, threw, ◌>>=◌}
use supply_chain_mangement_s.PgOrders.{
  OrderRow, OrderLineRow, OrderEventRow, Tables, has_order, row_of, line_row_of, insert_order,
  insert_line, insert_lines, update_orders, to_line, event_before, place_event, order_by_at,
}

abbrev pub orders_at : String → List OrderRow → List OrderRow
orders_at id = keep (λ row. row.id == id)

abbrev pub lines_at : String → List OrderLineRow → List OrderLineRow
lines_at id = keep (λ row. row.order_id == id)

abbrev pub events_at : String → List OrderEventRow → List OrderEventRow
events_at id = keep (λ row. row.order_id == id)

pub orders_at-new :
    (id : String) (rows : List OrderRow) → has_order id rows ≡ false → orders_at id rows ≡ []
orders_at-new id [] h = refl
orders_at-new id (row ∷ rows) h = ground (arith, orders_at-new id rows)

pub has_order-at :
    (id : String) (row : OrderRow) (rows found : List OrderRow)
    → orders_at id rows ≡ row ∷ found
    → has_order id rows ≡ true
has_order-at id row [] found h = absurd (ground (arith, h))
has_order-at id row (other ∷ rows) found h = ground (arith, has_order-at id row rows found)

pub to_line-line_row_of :
    (id : String) (lines : List OrderLine) → map to_line (map (line_row_of id) lines) ≡ lines
to_line-line_row_of id [] = refl
to_line-line_row_of id (line ∷ lines) = ap (◌∷◌ line) (to_line-line_row_of id lines)

pub lines_at-own :
    (id : String) (lines : List OrderLine)
    → lines_at id (map (line_row_of id) lines) ≡ map (line_row_of id) lines
lines_at-own id [] = refl
lines_at-own id (line ∷ lines) = ground (arith, lines_at-own id lines, eq_refl id)

pub lines_at-other :
    (id asked : String) (lines : List OrderLine)
    → (id == asked) ≡ false
    → lines_at asked (map (line_row_of id) lines) ≡ []
lines_at-other id asked [] e = refl
lines_at-other id asked (line ∷ lines) e = ground (arith, lines_at-other id asked lines e)

-- A statement that commits: the tables before it meet its constraints, and those after it have one
-- row more.
pub insert_order-committed :
    (o : Order) (t t' : Tables)
    → insert_order o t ≡ committed t'
    → (has_order o.id t.orders ≡ false) × (t' ≡ record t { orders = t.orders ++ row_of o ∷ [] })
unfolding insert_order
insert_order-committed o t t' h = ground (arith, h)

pub insert_line-committed :
    (id : String) (line : OrderLine) (t t' : Tables)
    → insert_line id line t ≡ committed t'
    → t' ≡ record t { order_lines = t.order_lines ++ line_row_of id line ∷ [] }
unfolding insert_line
insert_line-committed id line t t' h = ground (arith, h)

pub >>=-committed {ℓ κ} :
    {A : Type ℓ} {B : Type κ} (first : Outcome A) (next : A → Outcome B) (b : B)
    → (first >>= next) ≡ committed b
    → (a : A) × (first ≡ committed a) × (next a ≡ committed b)
>>=-committed (committed a) next b h = (a, refl, h)
>>=-committed (threw err) next b h = absurd (ground (arith, h))

pub insert_lines-committed :
    (id : String) (lines : List OrderLine) (t t' : Tables)
    → insert_lines id lines t ≡ committed t'
    → t' ≡ record t { order_lines = t.order_lines ++ map (line_row_of id) lines }
unfolding insert_lines
insert_lines-committed id [] t t' h = ground (arith, h, append-nil t.order_lines)
insert_lines-committed id (line ∷ lines) t t' h =
    let (t1, first, rest) = >>=-committed (insert_line id line t) (insert_lines id lines) t' h in
    ground (
      arith,
      insert_line-committed id line t t1 first,
      insert_lines-committed id lines t1 t' rest,
      append_assoc t.order_lines (line_row_of id line ∷ []) (map (line_row_of id) lines),
    )

pub orders_at-updated :
    (id : String) (status : OrderStatus) (at : ℕ) (rows : List OrderRow)
    → orders_at id (update_orders id status at rows)
      ≡ update_orders id status at (orders_at id rows)
unfolding update_orders
orders_at-updated id status at [] = refl
orders_at-updated id status at (row ∷ rows) = ground (arith, orders_at-updated id status at rows)

pub orders_at-other :
    (id asked : String) (status : OrderStatus) (at : ℕ) (rows : List OrderRow)
    → (id == asked) ≡ false
    → orders_at asked (update_orders id status at rows) ≡ orders_at asked rows
unfolding update_orders
orders_at-other id asked status at [] e = refl
orders_at-other id asked status at (row ∷ rows) e = ground (
  arith,
  orders_at-other id asked status at rows e,
  eq_iff row.id asked,
  eq_iff row.id id,
  eq_iff id asked,
)

-- The table of events in the order of ORDER BY.
abbrev pub Ordered : List OrderEventRow → Type 0
Ordered [] = Unit
Ordered (row ∷ rows) = All (λ other. event_before row other ≡ true) rows × Ordered rows

pub order_by_at-Ordered : (rows : List OrderEventRow) → Ordered rows → order_by_at rows ≡ rows
unfolding order_by_at place_event
order_by_at-Ordered [] h = refl
order_by_at-Ordered (row ∷ []) h = refl
order_by_at-Ordered (row ∷ other ∷ rows) h =
    ap (place_event row) (order_by_at-Ordered (other ∷ rows) h.1) ∙ rw h.0.0 refl

module _ {ℓ κ} {A : Type ℓ} (P : A → Type κ) (p : A → Bool) where
  All-keep : (xs : List A) → All P xs → All P (keep p xs)
  All-keep [] h = h
  All-keep (x ∷ xs) h = elim (Bool-cases (p x)) [
    | inl e ↦ rw e (h.0, All-keep xs h.1)
    | inr e ↦ rw e (All-keep xs h.1)
  ]

pub Ordered-keep :
    (p : OrderEventRow → Bool) (rows : List OrderEventRow) → Ordered rows → Ordered (keep p rows)
Ordered-keep p [] h = tt
Ordered-keep p (row ∷ rows) h = elim (Bool-cases (p row)) [
  | inl e ↦ rw e (All-keep _ p rows h.0, Ordered-keep p rows h.1)
  | inr e ↦ rw e (Ordered-keep p rows h.1)
]

-- Events up to a time, with serial numbers below the next one.
abbrev pub Past : ℕ → ℕ → List OrderEventRow → Type 0
Past now serial = All (λ row. (row.at ≤ now) × (row.serial < serial))

pub Past-later :
    (now later serial serial' : ℕ) (rows : List OrderEventRow)
    → now ≤ later
    → serial ≤ serial'
    → Past now serial rows
    → Past later serial' rows
Past-later now later serial serial' [] h k past = tt
Past-later now later serial serial' (row ∷ rows) h k past =
    ((omega arith, omega arith), Past-later now later serial serial' rows h k past.1)

before_last :
    (row new : OrderEventRow) (others : List OrderEventRow)
    → event_before row new ≡ true
    → All (λ other. event_before row other ≡ true) others
    → All (λ other. event_before row other ≡ true) (others ++ new ∷ [])
before_last row new [] h before = (h, tt)
before_last row new (other ∷ others) h before = (before.0, before_last row new others h before.1)

pub Ordered-snoc :
    (rows : List OrderEventRow) (new : OrderEventRow)
    → Past new.at new.serial rows
    → Ordered rows
    → Ordered (rows ++ new ∷ [])
Ordered-snoc [] new past h = (tt, tt)
Ordered-snoc (row ∷ rows) new past h =
    (before_last row new rows (ground arith) h.0, Ordered-snoc rows new past.1 h.1)
