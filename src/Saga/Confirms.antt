-- ===== src/Saga/Confirms.antt =====
-- When a run confirms: enough stock for all lines together, and no payment or shipment that fails.
use supply_chain_mangement_s.Common.{
  ℕ, pos, ◌+ℤ◌, ◌<ℤ◌, ◌≤ℤ◌, String, ◌≡◌, refl, inl, inr, false, none, some, List, [], ◌∷◌, ◌++◌,
  arith, All, eq_iff, int_laws,
}
use supply_chain_mangement_s.Dict.{lookup}
use supply_chain_mangement_s.Exec.Returns.{Returns, Returns-map}
use supply_chain_mangement_s.Types.{OrderStatus, Order, OrderLine}
use supply_chain_mangement_s.Keys.{stock_key}
use supply_chain_mangement_s.Redis.Laws.{level}
use supply_chain_mangement_s.World.{World}
use supply_chain_mangement_s.Inventory.Books.{held_qty}
use supply_chain_mangement_s.Saga.{run}
use supply_chain_mangement_s.Saga.Frame.{event_types}
use supply_chain_mangement_s.Saga.Loops.{demand}
use supply_chain_mangement_s.Saga.Outcome.{
  SagaPath, fulfilled, out_of_stock, payment_declined, no_courier, Outcome, IsShort,
}
use supply_chain_mangement_s.Saga.Run.{IsReady, run-Outcome}

abbrev pub IsPositive : OrderLine → Type 0
IsPositive l = pos 0 <ℤ l.qty

demand_nonneg : (k : String) (ls : List OrderLine) → All IsPositive ls → pos 0 ≤ℤ demand k ls
unfolding demand
demand_nonneg k [] h = omega arith
demand_nonneg k (l ∷ ls) h = grind (int_laws, demand_nonneg k ls h.1, h.0)

demand-append :
    (k : String) (xs ys : List OrderLine) → demand k (xs ++ ys) ≡ demand k xs +ℤ demand k ys
unfolding demand
demand-append k [] ys = omega int_laws
demand-append k (x ∷ xs) ys = rw (demand-append k xs ys) (omega int_laws)

All-tail : (xs ys : List OrderLine) → All IsPositive (xs ++ ys) → All IsPositive ys
All-tail [] ys h = h
All-tail (x ∷ xs) ys h = All-tail xs ys h.1

demand_head :
    (k : String) (l : OrderLine) (ls : List OrderLine)
    → stock_key l.warehouse_id l.sku ≡ k
    → demand k (l ∷ ls) ≡ l.qty +ℤ demand k ls
unfolding demand
demand_head k l ls e = ground (arith, eq_iff (stock_key l.warehouse_id l.sku) k)

-- Positive lines whose sum fits in the stock of each key stop the loop nowhere.
not-IsShort :
    (w : World) (order : Order)
    → All IsPositive order.lines
    → ((k : String) → demand k order.lines ≤ℤ level k w.redis)
    → ¬ IsShort w order
unfolding held_qty
not-IsShort w order positive enough (line, (taken, rest, split, inl none_asked)) =
    let tail = All-tail taken (line ∷ rest) (rw split at positive) in
    absurd (omega (arith, tail.0, none_asked))
not-IsShort w order positive enough (line, (taken, rest, split, inr short)) =
    let k = stock_key line.warehouse_id line.sku in
    let tail = All-tail taken (line ∷ rest) (rw split at positive) in
    let whole : demand k (taken ++ line ∷ rest) ≤ℤ level k w.redis = rw split at (enough k) in
    let sum = demand-append k taken (line ∷ rest) in
    let here = demand_head k line rest refl in
    let later = demand_nonneg k rest tail.1 in
    absurd (grind (int_laws, sum, here, later, short, whole))

-- A run of a stored order that is neither charged nor shipped, from a ready state (IsReady),
-- returns the order CONFIRMED with the whole outcome of that way, if its lines are positive and
-- for each stock key ask together for no more than the stock, and neither payment nor shipping is
-- set to fail for it.
pub run-confirms :
    (start : ℕ) (order : Order) (w : World)
    → IsReady start w
    → lookup order.id w.store ≡ some order
    → lookup order.id w.payments.charges ≡ none
    → lookup order.id w.shipping.shipments ≡ none
    → All IsPositive order.lines
    → ((k : String) → demand k order.lines ≤ℤ level k w.redis)
    → w.payments.fail_for order.id ≡ false
    → w.shipping.fail_for order.id ≡ false
    → Returns (run order.id) (λ o w'. (o.status ≡ OrderStatus.confirmed) × Outcome order w o w') w
run-confirms start order w ready stored uncharged unshipped positive enough pays ships =
    Returns-map (run order.id) w (run-Outcome start order w ready stored uncharged unshipped)
      (λ o w' out. (confirmed o w' out out.path, out))
  where
    confirmed :
        (o : Order) (w' : World)
        → Outcome order w o w'
        → SagaPath w order (event_types order.history) o.status (event_types o.history)
        → o.status ≡ OrderStatus.confirmed
    confirmed o w' out (fulfilled st ts) = st
    confirmed o w' out (out_of_stock short st ts) =
        absurd (not-IsShort w order positive enough short)
    confirmed o w' out (payment_declined fails st ts) = cc (fails, pays)
    confirmed o w' out (no_courier fails st ts) = cc (fails, ships)
