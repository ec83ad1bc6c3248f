-- ===== src/Orders.antt =====
-- src/orders/orderStore.ts: the in-memory order store. The store hands out its own objects, so a
-- later `updateStatus` is seen through every reference; a reader of the model looks them up again.
pub mod Tenancy
mod Tests
use supply_chain_mangement_s.Common.{
  ℕ, String, Bool, true, false, not, Option, none, some, List, [], ◌∷◌, ◌++◌, ◌==◌, keep,
  if◌then◌else◌,
}
use supply_chain_mangement_s.Dict.{Dict, lookup, insert, values}
use supply_chain_mangement_s.Exec.{Result, ok, err, unknown_order, Exec}
use supply_chain_mangement_s.Types.{OrderStatus, confirmed, cancelled, failed, OrderEvent, Order}

abbrev pub OrderStore : Type 0
OrderStore = Dict Order

-- `TERMINAL_ORDER_STATUSES.has(status)`
unfoldable pub is_terminal_status : OrderStatus → Bool
is_terminal_status confirmed = true
is_terminal_status cancelled = true
is_terminal_status failed = true
is_terminal_status _ = false

-- The optional argument `businessId`: left out, or a business's id, or `null`.
pub data Scope : Type 0 where
  unscoped : Scope
  owned_by : Option String → Scope

-- `a === b` on `string | null`
unfoldable pub same_business : Option String → Option String → Bool
same_business none none = true
same_business (some a) (some b) = a == b
same_business _ _ = false

-- `businessId === undefined || order.businessId === businessId`
unfoldable pub in_scope : Scope → Order → Bool
unfolding same_business
in_scope unscoped o = true
in_scope (owned_by b) o = same_business o.business_id b

unfoldable pub create : Order → OrderStore → OrderStore
create o store = insert o.id o store

unfoldable pub visible : Scope → Option Order → Option Order
unfolding in_scope
visible scope none = none
visible scope (some o) = if in_scope scope o then some o else none

unfoldable pub get : String → Scope → OrderStore → Option Order
unfolding visible
get id scope store = visible scope (lookup id store)

-- The order with a new status and one more event; `now` is the reading of `Date.now()`.
unfoldable pub updated : OrderStatus → OrderEvent → ℕ → Order → Order
updated status event now o = record o {
  status = status;
  history = o.history ++ event ∷ [];
  updated_at = now;
}

unfoldable pub update_status : String → OrderStatus → OrderEvent → ℕ → Exec OrderStore (Unit {0})
unfolding updated
update_status id status event now store = elim (lookup id store) [
  | none ↦ (err (unknown_order id), store)
  | some o ↦ (ok tt, insert id (updated status event now o) store)
]

unfoldable pub all : Scope → OrderStore → List Order
unfolding in_scope
all unscoped store = values store
all (owned_by b) store = keep (in_scope (owned_by b)) (values store)

unfoldable pub non_terminal : OrderStore → List Order
unfolding is_terminal_status
non_terminal store = keep (λ o. not (is_terminal_status o.status)) (values store)
