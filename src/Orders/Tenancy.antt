-- ===== src/Orders/Tenancy.antt =====
-- Who sees which order: the reads of the in-memory store under a business's scope.
use supply_chain_mangement_s.Common.{
  ℕ, String, ◌≡◌, ◌≢◌, ◌↔◌, refl, Bool, true, false, Option, none, some, [], ◌∷◌, arith, ◌==◌,
  eq_iff, keep, Option-cases, Bool-cases, inl, inr,
}
use supply_chain_mangement_s.Dict.{lookup, insert, values}
use supply_chain_mangement_s.Types.{OrderStatus, OrderEvent, Order}
use supply_chain_mangement_s.Orders.{
  OrderStore, owned_by, same_business, in_scope, create, visible, get, updated, update_status, all,
}

pub same_business_iff : (a b : Option String) → (same_business a b ≡ true) ↔ (a ≡ b)
unfolding same_business
same_business_iff none none = (λ h. refl, λ h. refl)
same_business_iff none (some b) = (λ h. ground (arith, h), λ h. ground (arith, h))
same_business_iff (some a) none = (λ h. ground (arith, h), λ h. ground (arith, h))
same_business_iff (some a) (some b) =
    (λ h. ground (arith, h, eq_iff a b), λ h. ground (arith, h, eq_iff a b))

-- A scoped read by id gives an order exactly when that order is stored under the id and belongs to
-- the business; `null` is the business of the orders without one.
pub get-owned :
    (id : String) (b : Option String) (store : OrderStore) (o : Order)
    → (get id (owned_by b) store ≡ some o) ↔ ((lookup id store ≡ some o) × (o.business_id ≡ b))
unfolding get visible in_scope
get-owned id b store o = (
  λ h. elim (Option-cases (lookup id store)) [
    | inl e ↦ ground (arith, e, h)
    | inr (x, e) ↦ ground (arith, e, h, same_business_iff x.business_id b)
  ],
  λ h. ground (arith, h.0, h.1, same_business_iff o.business_id b),
)

module _ (p : Order → Bool) (id : String) (o : Order) (hidden : p o ≡ false) where
  keep-insert :
      (store : OrderStore)
      → ((old : Order) → lookup id store ≡ some old → p old ≡ false)
      → keep p (values (insert id o store)) ≡ keep p (values store)
  unfolding insert values lookup
  keep-insert [] before = ground (arith, hidden)
  keep-insert ((j, old) ∷ store) before = elim (Bool-cases (j == id)) [
    | inl e ↦ ground (arith, e, hidden, before old (rw e refl))
    | inr e ↦
        let ih = keep-insert store (λ old' found. before old' (rw e found)) in ground (arith, e, ih)
  ]

hidden_of : (b : Option String) (o : Order) → o.business_id ≢ b → in_scope (owned_by b) o ≡ false
unfolding in_scope
hidden_of b o other = ground (arith, same_business_iff o.business_id b)

-- Creating an order of another business, under an id that is not in use, does not change what a
-- business lists.
pub all-create :
    (b : Option String) (o : Order) (store : OrderStore)
    → o.business_id ≢ b
    → lookup o.id store ≡ none
    → all (owned_by b) (create o store) ≡ all (owned_by b) store
unfolding all create
all-create b o store other absent =
    keep-insert (in_scope (owned_by b)) o.id o (hidden_of b o other) store
      (λ old found. ground (arith, absent, found))

-- Updating the status of a stored order of another business does not change what a business lists.
pub all-update_status :
    (b : Option String) (id : String) (o : Order) (status : OrderStatus) (event : OrderEvent)
    (now : ℕ) (store : OrderStore)
    → lookup id store ≡ some o
    → o.business_id ≢ b
    → all (owned_by b) (update_status id status event now store).1 ≡ all (owned_by b) store
unfolding all update_status updated
all-update_status b id o status event now store found other =
    let hidden = hidden_of b o other in
    rw (update_status, found)
      (keep-insert (in_scope (owned_by b)) id (updated status event now o)
        (hidden_of b (updated status event now o) other) store
        (λ old found'. ground (arith, found, found', hidden)))
