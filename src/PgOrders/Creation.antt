-- ===== src/PgOrders/Creation.antt =====
-- When the creation of an order commits, and that it changes nothing when it does not.
use mathlib.Core.Path.{subst}
use supply_chain_mangement_s.Common.{
  String, pos, leb_ℤ, ◌≡◌, ◌∙◌, refl, sym, ap, Bool, true, false, not, ◌&&◌, ◌||◌, ◌==◌, List, [],
  ◌∷◌, ◌++◌, map, append_assoc, append-nil, map-append, arith, eq_refl, Bool-cases, inl, inr,
  if◌then◌else◌,
}
use supply_chain_mangement_s.Types.{OrderLine, Order}
use supply_chain_mangement_s.Postgres.{
  PgError, out_of_range, check_violation, unique_violation, Outcome, committed, threw, ◌>>=◌,
  transaction, fits_integer,
}
use supply_chain_mangement_s.PgOrders.{
  OrderRow, OrderLineRow, Tables, has_order, has_line, row_of, line_row_of, insert_order,
  insert_line, insert_lines, create,
}
use supply_chain_mangement_s.PgOrders.Rows.{
  lines_at, >>=-committed, insert_order-committed, insert_line-committed, insert_lines-committed,
}

-- An earlier line has the SKU and the warehouse of this one.
abbrev pub takes_key : OrderLine → List OrderLine → Bool
takes_key line [] = false
takes_key line (earlier ∷ lines) =
    (earlier.sku == line.sku && earlier.warehouse_id == line.warehouse_id) || takes_key line lines

-- A quantity that is positive and fits its column, and a key that no earlier line has.
abbrev pub valid_line : List OrderLine → OrderLine → Bool
valid_line earlier line =
    fits_integer line.qty && not (leb_ℤ line.qty (pos 0)) && not (takes_key line earlier)

abbrev pub valid_lines : List OrderLine → List OrderLine → Bool
valid_lines earlier [] = true
valid_lines earlier (line ∷ lines) =
    valid_line earlier line && valid_lines (earlier ++ line ∷ []) lines

-- An amount that is positive and fits its column, an id that is not in use, and valid lines.
abbrev pub acceptable : Order → Tables → Bool
acceptable o t =
    fits_integer o.amount_cents
    && not (leb_ℤ o.amount_cents (pos 0))
    && not (has_order o.id t.orders)
    && valid_lines [] o.lines

-- The tables with the order's row and its lines' rows.
abbrev pub with_order : Order → Tables → Tables
with_order o t = record t {
  orders = t.orders ++ row_of o ∷ [];
  order_lines = t.order_lines ++ map (line_row_of o.id) o.lines;
}

has_line-append :
    (id : String) (line : OrderLine) (xs ys : List OrderLineRow)
    → has_line id line (xs ++ ys) ≡ (has_line id line xs || has_line id line ys)
has_line-append id line [] ys = refl
has_line-append id line (x ∷ xs) ys = ground (arith, has_line-append id line xs ys)

has_line-none :
    (id : String) (line : OrderLine) (rows : List OrderLineRow)
    → lines_at id rows ≡ []
    → has_line id line rows ≡ false
has_line-none id line [] h = refl
has_line-none id line (row ∷ rows) h = ground (arith, has_line-none id line rows)

has_line-own :
    (id : String) (line : OrderLine) (lines : List OrderLine)
    → has_line id line (map (line_row_of id) lines) ≡ takes_key line lines
has_line-own id line [] = refl
has_line-own id line (earlier ∷ lines) = ground (arith, has_line-own id line lines, eq_refl id)

-- Either both go through, or there is an error.
abbrev Ends : Bool → Outcome Tables → Type 0
Ends true out = (t : Tables) × (out ≡ committed t)
Ends false out = (e : PgError) × (out ≡ threw e)

Ends-true :
    {b : Bool} {out : Outcome Tables} → b ≡ true → Ends b out → (t : Tables) × (out ≡ committed t)
Ends-true {b} {out} e h = subst (λ x. Ends x out) e h

Ends-false :
    {b : Bool} {out : Outcome Tables} → b ≡ false → Ends b out → (e : PgError) × (out ≡ threw e)
Ends-false {b} {out} e h = subst (λ x. Ends x out) e h

after-create :
    (o : Order) (t t' : Tables)
    → (insert_order o t >>= insert_lines o.id o.lines) ≡ committed t'
    → t' ≡ with_order o t
after-create o t t' all =
    let (t1, first, rest) = >>=-committed (insert_order o t) (insert_lines o.id o.lines) t' all in
    insert_lines-committed o.id o.lines t1 t' rest
    ∙ ap
        (λ (x : Tables). record x { order_lines = x.order_lines ++ map (line_row_of o.id) o.lines })
        (insert_order-committed o t t1 first).1

-- The tests of an INSERT, one after the other.
abbrev tested : Bool → Bool → Bool → Outcome Tables → Outcome Tables
tested fits bad taken rest =
    if not fits
    then threw out_of_range
    else if bad
    then threw check_violation
    else if taken
    then threw unique_violation
    else rest

tested-Ends :
    (fits bad taken : Bool) (t : Tables)
    → Ends (fits && not bad && not taken) (tested fits bad taken (committed t))
tested-Ends false bad taken t = (out_of_range, refl)
tested-Ends true true taken t = (check_violation, refl)
tested-Ends true false true t = (unique_violation, refl)
tested-Ends true false false t = (t, refl)

module _ (id : String) (base : List OrderLineRow) (none_yet : lines_at id base ≡ []) where
  insert_line-Ends :
      (earlier : List OrderLine) (line : OrderLine) (t : Tables)
      → has_order id t.orders ≡ true
      → t.order_lines ≡ base ++ map (line_row_of id) earlier
      → Ends (valid_line earlier line) (insert_line id line t)
  unfolding insert_line
  insert_line-Ends earlier line t there rows =
      let dup : has_line id line t.order_lines ≡ takes_key line earlier =
        ap (has_line id line) rows
        ∙ has_line-append id line base (map (line_row_of id) earlier)
        ∙ ap (λ b. b || has_line id line (map (line_row_of id) earlier))
            (has_line-none id line base none_yet)
        ∙ has_line-own id line earlier in
      rw (dup, there)
        (tested-Ends (fits_integer line.qty) (leb_ℤ line.qty (pos 0)) (takes_key line earlier) _)

  insert_lines-Ends :
      (earlier lines : List OrderLine) (t : Tables)
      → has_order id t.orders ≡ true
      → t.order_lines ≡ base ++ map (line_row_of id) earlier
      → Ends (valid_lines earlier lines) (insert_lines id lines t)
  unfolding insert_lines
  insert_lines-Ends earlier [] t there rows = (t, refl)
  insert_lines-Ends earlier (line ∷ lines) t there rows =
      elim (Bool-cases (valid_line earlier line)) [
        | inl valid ↦
            let (t', done) = Ends-true valid (insert_line-Ends earlier line t there rows) in
            let after = insert_line-committed id line t t' done in
            rw (valid, done)
              (insert_lines-Ends (earlier ++ line ∷ []) lines t'
                (ap (λ (x : Tables). has_order id x.orders) after ∙ there)
                (ap (λ (x : Tables). x.order_lines) after
                  ∙ ap (λ x. x ++ line_row_of id line ∷ []) rows
                  ∙ append_assoc base (map (line_row_of id) earlier) (line_row_of id line ∷ [])
                  ∙ ap (λ x. base ++ x) (sym (map-append (line_row_of id) earlier (line ∷ [])))))
        | inr invalid ↦
            let (e, failed) = Ends-false invalid (insert_line-Ends earlier line t there rows) in
            rw (invalid, failed) (e, refl)
      ]

has_order-snoc :
    (row : OrderRow) (rows : List OrderRow) → has_order row.id (rows ++ row ∷ []) ≡ true
has_order-snoc row [] = ground (arith, eq_refl row.id)
has_order-snoc row (other ∷ rows) = ground (arith, has_order-snoc row rows)

create_body-Ends :
    (o : Order) (t : Tables)
    → (has_order o.id t.orders ≡ false → lines_at o.id t.order_lines ≡ [])
    → Ends (acceptable o t) (insert_order o t >>= insert_lines o.id o.lines)
unfolding insert_order
create_body-Ends o t none_yet =
    go (fits_integer o.amount_cents) (leb_ℤ o.amount_cents (pos 0)) (has_order o.id t.orders)
      none_yet
  where
    t' : Tables
    t' = record t { orders = t.orders ++ row_of o ∷ [] }

    go :
        (fits bad taken : Bool)
        → (taken ≡ false → lines_at o.id t.order_lines ≡ [])
        → Ends
            (fits && not bad && not taken && valid_lines [] o.lines)
            (tested fits bad taken (committed t') >>= insert_lines o.id o.lines)
    go false bad taken h = (out_of_range, refl)
    go true true taken h = (check_violation, refl)
    go true false true h = (unique_violation, refl)
    go true false false h =
        insert_lines-Ends o.id t.order_lines (h refl) [] o.lines t'
          (has_order-snoc (row_of o) t.orders) (sym (append-nil t.order_lines))

-- How a creation ends: it commits and the tables have the order's row and lines, or there is an
-- error and the tables are as they were.
abbrev pub Creates : Bool → Order → Tables → Type 0
Creates true o t = create o t ≡ (committed tt, with_order o t)
Creates false o t = (e : PgError) × (create o t ≡ (threw e, t))

create-Ends :
    (o : Order) (t : Tables) (fine : Bool)
    → Ends fine (insert_order o t >>= insert_lines o.id o.lines)
    → Creates fine o t
unfolding create
create-Ends o t true (t', e) =
    ap (λ x. transaction x t) e ∙ ap (λ x. (committed tt, x)) (after-create o t t' e)
create-Ends o t false (err, e) = (err, ap (λ x. transaction x t) e)

-- In tables that keep the foreign key of the lines, where an id without an order row has no line rows,
-- the creation of an order commits, with its row and the rows of its lines, exactly when its amount is
-- positive and fits the column, its id is not in use, and each line has a positive quantity that fits
-- and a SKU and warehouse that no earlier line of the order has; otherwise it throws and the tables
-- are as they were, also where earlier statements of the transaction succeeded.
pub create-Creates :
    (o : Order) (t : Tables)
    → (has_order o.id t.orders ≡ false → lines_at o.id t.order_lines ≡ [])
    → Creates (acceptable o t) o t
create-Creates o t none_yet = create-Ends o t (acceptable o t) (create_body-Ends o t none_yet)
