-- ===== src/Saga/Outcome.antt =====
-- `run` from a stored order: it returns, and the order is confirmed with its stock taken, its
-- payment and shipment made, or cancelled with stock, payment and shipment as if it had never been.
use supply_chain_mangement_s.Common.{
  ℕ, ℤ, pos, ◌-ℤ◌, String, ◌≡◌, ◌∙◌, sym, ap, Bool, true, false, none, some, List, [], ◌∷◌, ◌++◌,
  if◌then◌else◌, int_laws,
}
use mathlib.Core.Path.{subst₂}
use supply_chain_mangement_s.Dict.{lookup}
use supply_chain_mangement_s.Types.{OrderStatus, Order, OrderLine}
use supply_chain_mangement_s.Keys.{stock_key}
use supply_chain_mangement_s.Payments.{payment_id_of}
use supply_chain_mangement_s.Shipping.{shipment_id_of}
use supply_chain_mangement_s.Redis.Laws.{level}
use supply_chain_mangement_s.World.{World}
use supply_chain_mangement_s.Inventory.Books.{Hold, held_qty}
use supply_chain_mangement_s.Saga.Frame.{SameOthers, event_types}
use supply_chain_mangement_s.Saga.Loops.{demand, StopsAt, all_spent, all_spent-held_qty}
use supply_chain_mangement_s.Saga.Steps.{At}

abbrev pub is_confirmed : OrderStatus → Bool
is_confirmed OrderStatus.confirmed = true
is_confirmed _ = false

-- Some line asks for nothing, or for more than the lines before it leave of the stock.
abbrev pub IsShort : World → Order → Type 0
IsShort first base = (line : OrderLine) × StopsAt (λ k. level k first.redis) [] line base.lines

-- The four ways through the saga: why it is taken, the final status, and the events appended to
-- the history.
pub data SagaPath (first : World) (base : Order) (before : List String) (st : OrderStatus)
    (ts : List String) : Type 0 where
  fulfilled :
      st ≡ OrderStatus.confirmed
      → ts
        ≡ before
          ++ "order.inventory_reserved" ∷ "order.payment_charged" ∷ "order.shipping_scheduled"
            ∷ "order.confirmed" ∷ []
      → SagaPath first base before st ts
  out_of_stock :
      IsShort first base
      → st ≡ OrderStatus.cancelled
      → ts ≡ before ++ "order.compensating" ∷ "order.cancelled" ∷ []
      → SagaPath first base before st ts
  payment_declined :
      first.payments.fail_for base.id ≡ true
      → st ≡ OrderStatus.cancelled
      → ts ≡ before ++ "order.inventory_reserved" ∷ "order.compensating" ∷ "order.cancelled" ∷ []
      → SagaPath first base before st ts
  no_courier :
      first.shipping.fail_for base.id ≡ true
      → st ≡ OrderStatus.cancelled
      → ts
        ≡ before
          ++ "order.inventory_reserved" ∷ "order.payment_charged" ∷ "order.compensating"
            ∷ "order.cancelled" ∷ []
      → SagaPath first base before st ts

-- The end of a run of `base` from `first`.
pub record Outcome (base : Order) (first : World) (o : Order) (w' : World) : Type 0 where
  pub stored : lookup base.id w'.store ≡ some o
  pub path : SagaPath first base (event_types base.history) o.status (event_types o.history)
  pub stock :
      (a b : String)
      → level (stock_key a b) w'.redis
        ≡ level (stock_key a b) first.redis
          -ℤ (if is_confirmed o.status then demand (stock_key a b) base.lines else pos 0)
  pub charge :
      lookup base.id w'.payments.charges
      ≡ (if is_confirmed o.status then some (payment_id_of base.id) else none)
  pub shipment :
      lookup base.id w'.shipping.shipments
      ≡ (if is_confirmed o.status then some (shipment_id_of base.id) else none)
  pub others : SameOthers base.id first w'

module _ (start : ℕ) (base : Order) (first : World) where
  abbrev pub before : List String
  before = event_types base.history

  abbrev pub initial : String → ℤ
  initial k = level k first.redis

  -- A cancelled end, from the state in which a failing branch leaves the process.
  pub cancelled-Outcome :
      {ts : List String} (o : Order) (w' : World)
      → At start base first OrderStatus.cancelled ts initial [] none none w'
      → lookup base.id w'.store ≡ some o
      → o.status ≡ OrderStatus.cancelled
      → SagaPath first base before OrderStatus.cancelled ts
      → Outcome base first o w'
  unfolding held_qty
  cancelled-Outcome {ts} o w' at found status path =
      let same : at.stands.order ≡ o = cc (at.stands.found, found) in
      record {
        stored = found;
        path =
            subst₂ (SagaPath first base before) (sym status)
              (sym at.stands.types ∙ ap (λ (x : Order). event_types x.history) same) path;
        stock = λ a b. rw status (grind (int_laws, at.books.balance a b));
        charge = rw status at.charge;
        shipment = rw status at.shipment;
        others = at.others;
      }

  pub confirmed-Outcome :
      {ts : List String} (hs : List Hold) (o : Order) (w' : World)
      → At start base first OrderStatus.confirmed ts
          (all_spent hs initial)
          []
          (some (payment_id_of base.id))
          (some (shipment_id_of base.id))
          w'
      → ((k : String) → held_qty k hs ≡ demand k base.lines)
      → lookup base.id w'.store ≡ some o
      → o.status ≡ OrderStatus.confirmed
      → SagaPath first base before OrderStatus.confirmed ts
      → Outcome base first o w'
  unfolding held_qty
  confirmed-Outcome {ts} hs o w' at sums found status path =
      let same : at.stands.order ≡ o = cc (at.stands.found, found) in
      record {
        stored = found;
        path =
            subst₂ (SagaPath first base before) (sym status)
              (sym at.stands.types ∙ ap (λ (x : Order). event_types x.history) same) path;
        stock = λ a b. rw status (
            grind (
              int_laws,
              at.books.balance a b,
              all_spent-held_qty hs initial (stock_key a b),
              sums (stock_key a b),
            ));
        charge = rw status at.charge;
        shipment = rw status at.shipment;
        others = at.others;
      }
