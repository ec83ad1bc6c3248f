-- ===== src/Orders/Tests.antt =====
-- The order store at a concrete state with two businesses.
use supply_chain_mangement_s.Common.{
  pos, String, ◌≡◌, ◌↔◌, ◌≢◌, refl, eq_iff, none, some, [], ◌∷◌, arith,
}
use supply_chain_mangement_s.Dict.{lookup}
use supply_chain_mangement_s.Types.{OrderStatus, OrderEvent, Order}
use supply_chain_mangement_s.Orders.{OrderStore, owned_by, create, get, update_status, all}
use supply_chain_mangement_s.Orders.Tenancy.{get-owned, all-create, all-update_status}

abbrev order_of : String → String → Order
order_of id business = record {
  id = id;
  customer_id = "cust-1";
  lines = [];
  amount_cents = pos 100;
  status = OrderStatus.created;
  history = [];
  created_at = 0;
  updated_at = 0;
  business_id = some business;
}

abbrev store : OrderStore
store = ("o1", order_of "o1" "b1") ∷ ("o2", order_of "o2" "b2") ∷ []

abbrev event : OrderEvent
event = record { type = "order.confirmed"; at = 5; detail = none }

get-owned_example : (get "o1" (owned_by (some "b1")) store ≡ some (order_of "o1" "b1")) ↔ (
    (lookup "o1" store ≡ some (order_of "o1" "b1"))
    × ((order_of "o1" "b1").business_id ≡ some "b1"))
get-owned_example = get-owned "o1" (some "b1") store (order_of "o1" "b1")

apart : (order_of "o2" "b2").business_id ≢ some "b1"
apart e = ground (arith, e, eq_iff "b2" "b1")

all-create_example :
    all (owned_by (some "b1")) (create (order_of "o3" "b2") store)
    ≡ all (owned_by (some "b1")) store
all-create_example = all-create (some "b1") (order_of "o3" "b2") store apart (unfold lookup in refl)

all-update_status_example :
    all (owned_by (some "b1")) (update_status "o2" OrderStatus.confirmed event 5 store).1
    ≡ all (owned_by (some "b1")) store
all-update_status_example =
    all-update_status (some "b1") "o2" (order_of "o2" "b2") OrderStatus.confirmed event 5 store
      (unfold lookup in refl) apart
