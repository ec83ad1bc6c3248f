-- ===== src/PgOrders/Tests.antt =====
-- Runs of the Postgres order store, and its theorems at them.
use mathlib.Core.List.Permᴰ
use mathlib.Core.List.{reverse}
use supply_chain_mangement_s.Common.{
  ℕ, String, pos, ◌≡◌, refl, none, some, List, [], ◌∷◌, map, arith, ◌==◌, if◌then◌else◌,
}
use supply_chain_mangement_s.Types.{OrderStatus, OrderLine, OrderEvent, Order}
use supply_chain_mangement_s.Dict.{lookup, insert}
use supply_chain_mangement_s.Orders
use supply_chain_mangement_s.Orders.{unscoped, owned_by}
use supply_chain_mangement_s.Postgres.{
  Outcome, committed, threw, unique_violation, unknown_order, invalid_text,
}
use supply_chain_mangement_s.PgOrders.{Tables, Scans, create, update_status, get, all, non_terminal}
use supply_chain_mangement_s.PgOrders.Represents.{no_rows}
use supply_chain_mangement_s.PgOrders.Refines.{
  Complete, Write, creates, updates, tables_after, store_after, Regular, Views, get-refines,
}
use supply_chain_mangement_s.PgOrders.Creation.{acceptable, Creates, create-Creates}

abbrev line : String → String → OrderLine
line sku warehouse = record { sku = sku; qty = pos 2; warehouse_id = warehouse }

abbrev order : String → ℕ → List OrderLine → Order
order id at lines = record {
  id = id;
  customer_id = "c";
  lines = lines;
  amount_cents = pos 500;
  status = OrderStatus.created;
  history = [];
  created_at = at;
  updated_at = at;
  business_id = some "b1";
}

abbrev two_lines : Order
two_lines = order "o1" 7 (line "s1" "A" ∷ line "s2" "B" ∷ [])

abbrev event : ℕ → OrderEvent
event at = record { type = "order.cancelled"; at = at; detail = none }

-- Rows come back last first; one text is no uuid, and one is a uuid in another spelling.
abbrev backwards : Scans
backwards = record {
  scan_orders = reverse;
  scan_lines = reverse;
  uuid_of = λ id. if id == "no uuid" then none else if id == "O1" then some "o1" else some id;
}

backwards-Complete : Complete backwards
backwards-Complete = record {
  all_orders = λ rows. Permᴰ.reverse rows;
  all_lines = λ rows. Permᴰ.reverse rows;
}

abbrev writes : List Write
writes =
    creates two_lines
    ∷ creates (order "o0" 3 [])
    ∷ updates "o1" OrderStatus.cancelled (event 9) 10
    ∷ updates "o9" OrderStatus.failed (event 9) 10
    ∷ []

abbrev filled : Tables
filled = (create (order "o0" 3 []) (create two_lines no_rows).1).1

-- The older order first, and the one that is not finished.
abbrev ids_of : Outcome (List Order) → List String
ids_of (committed orders) = map (λ (o : Order). o.id) orders
ids_of (threw err) = []

listed_by_time : ids_of (all backwards unscoped filled) ≡ "o0" ∷ "o1" ∷ []
unfolding create all
listed_by_time = refl

unfinished :
    map
      (λ (o : Order). o.id)
      (non_terminal backwards (update_status "o1" OrderStatus.cancelled (event 9) filled).1)
    ≡ "o0" ∷ []
unfolding create update_status non_terminal
unfinished = refl

-- Two lines of one SKU in one warehouse: the second row's key is taken, and the order is not stored.
repeated_line :
    create (order "o1" 7 (line "s1" "A" ∷ line "s1" "A" ∷ [])) no_rows
    ≡ (threw unique_violation, no_rows)
unfolding create
repeated_line = refl

unknown : (update_status "o9" OrderStatus.failed (event 1) no_rows).0 ≡ threw (unknown_order "o9")
unfolding update_status
unknown = refl

get-refines_example :
    Views
      (get backwards "o1" (owned_by (some "b1")) (tables_after writes no_rows))
      (Orders.get "o1" (owned_by (some "b1")) (store_after writes []))
unfolding Regular
get-refines_example =
    get-refines backwards writes 0 "o1" (owned_by (some "b1")) backwards-Complete
      (
        (refl, refl),
        refl,
        refl,
        ((refl, refl), refl, refl, (refl, omega arith, (refl, omega arith, tt))),
      )
      refl refl

-- A text that is no uuid throws, where the store in process finds nothing.
no_uuid : get backwards "no uuid" unscoped filled ≡ threw invalid_text
unfolding get
no_uuid = refl

-- Another spelling of the id finds the order, but not its two lines.
other_spelling :
    get backwards "O1" unscoped filled ≡ committed (some (record two_lines { lines = [] }))
unfolding create get lookup insert
other_spelling = refl

-- The id of an order with two lines is in use.
create-Creates_example : Creates (acceptable two_lines filled) two_lines filled
unfolding create
create-Creates_example = create-Creates two_lines filled (λ free. ground (arith, free))
