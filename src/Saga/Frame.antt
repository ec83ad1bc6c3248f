-- ===== src/Saga/Frame.antt =====
-- What a step of the saga leaves alone, and what a transition does to the order's record.
use supply_chain_mangement_s.Common.{
  ℕ, ◌+◌, ℤ, String, ◌≡◌, ◌≢◌, ◌∙◌, refl, ap, some, List, [], ◌∷◌, ◌++◌, map, map-append, arith,
  eq_iff, eq_refl,
}
use supply_chain_mangement_s.Dict.{lookup, insert, lookup-insert}
use supply_chain_mangement_s.Exec.{ok}
use supply_chain_mangement_s.Exec.Returns.{Returns}
use supply_chain_mangement_s.Types.{OrderStatus, OrderEvent, Order, Detail}
use supply_chain_mangement_s.Payments
use supply_chain_mangement_s.Shipping
use supply_chain_mangement_s.Orders.{updated, update_status}
use supply_chain_mangement_s.World.{World}
use supply_chain_mangement_s.Inventory.Outcome.{SameOutside}
use supply_chain_mangement_s.Inventory.Books.{Hold, Books}
use supply_chain_mangement_s.Saga.{transition}

-- The other orders and their charges and shipments are as they were.
pub record SameOthers (id : String) (w w' : World) : Type 0 where
  pub orders : (j : String) → id ≢ j → lookup j w'.store ≡ lookup j w.store
  pub charges : (j : String) → id ≢ j → lookup j w'.payments.charges ≡ lookup j w.payments.charges
  pub shipments :
      (j : String) → id ≢ j → lookup j w'.shipping.shipments ≡ lookup j w.shipping.shipments

pub SameOthers-refl : (id : String) (w : World) → SameOthers id w w
SameOthers-refl id w = record {
  orders = λ j h. refl;
  charges = λ j h. refl;
  shipments = λ j h. refl;
}

pub SameOthers-trans :
    {id : String} {u v w : World} → SameOthers id u v → SameOthers id v w → SameOthers id u w
SameOthers-trans f g = record {
  orders = λ j h. g.orders j h ∙ f.orders j h;
  charges = λ j h. g.charges j h ∙ f.charges j h;
  shipments = λ j h. g.shipments j h ∙ f.shipments j h;
}

pub SameOthers-of_outside : (id : String) (w w' : World) → SameOutside w w' → SameOthers id w w'
SameOthers-of_outside id w w' same = record {
  orders = λ j h. ap (lookup j) same.store;
  charges = λ j h. ap (λ (g : Payments.PaymentGateway). lookup j g.charges) same.payments;
  shipments = λ j h. ap (λ (p : Shipping.ShippingProvider). lookup j p.shipments) same.shipping;
}

-- The books depend on the Redis store and the ids drawn only.
pub Books-same :
    {start : ℕ} {total : String → ℤ} {hs : List Hold} (w w' : World)
    → Books start total hs w
    → w'.redis ≡ w.redis
    → w'.env ≡ w.env
    → w'.drawn ≡ w.drawn
    → Books start total hs w'
Books-same w w' books r e d = record {
  persistent = λ a b. rw r (books.persistent a b);
  fresh = λ n h. rw (r, e) (books.fresh n (rw d at h));
  held = rw r books.held;
  distinct = books.distinct;
  balance = λ a b. rw r (books.balance a b);
}

abbrev pub event_types : List OrderEvent → List String
event_types = map (λ e. e.type)

-- The stored order: what it was created with, its status, and the types of its history.
pub record Stands (base : Order) (st : OrderStatus) (ts : List String) (w : World) : Type 0 where
  pub order : Order
  pub found : lookup base.id w.store ≡ some order
  pub status : order.status ≡ st
  pub types : event_types order.history ≡ ts
  pub lines : order.lines ≡ base.lines
  pub id : order.id ≡ base.id

-- The participants of the saga, and what the process draws ids from.
pub record SameParticipants (w w' : World) : Type 0 where
  pub redis : w'.redis ≡ w.redis
  pub payments : w'.payments ≡ w.payments
  pub shipping : w'.shipping ≡ w.shipping
  pub env : w'.env ≡ w.env
  pub drawn : w'.drawn ≡ w.drawn

pub Stands-of_outside :
    {base : Order} {status : OrderStatus} {types : List String} (w w' : World)
    → w'.store ≡ w.store
    → Stands base status types w
    → Stands base status types w'
Stands-of_outside w w' same at = record {
  order = at.order;
  found = rw same at.found;
  status = at.status;
  types = at.types;
  lines = at.lines;
  id = at.id;
}

module _ (base : Order) (status : OrderStatus) (type : String) (detail : Detail) (w : World) where
  abbrev pub noted : World
  noted = (transition base.id status type detail w).1

  -- The stored order after the transition.
  abbrev pub moved : Order → Order
  moved =
      updated status (record { type = type; at = w.env.clock w.reads; detail = some detail })
        (w.env.clock (w.reads + 1))

  pub transition-ok :
      (o : Order)
      → lookup base.id w.store ≡ some o
      → (transition base.id status type detail w).0 ≡ ok tt
  unfolding transition update_status
  transition-ok o e = ground (arith, e)

  pub transition-store :
      (o : Order) → lookup base.id w.store ≡ some o → noted.store ≡ insert base.id (moved o) w.store
  unfolding transition update_status
  transition-store o e = ground (arith, e)

  transition-SameParticipants :
      (o : Order) → lookup base.id w.store ≡ some o → SameParticipants w noted
  unfolding transition update_status
  transition-SameParticipants o e = ground (arith, e)

  transition-SameOthers : (o : Order) → lookup base.id w.store ≡ some o → SameOthers base.id w noted
  transition-SameOthers o e =
      let same = transition-SameParticipants o e in
      record {
        orders = λ j h.
            rw (transition-store o e)
              (ground (arith, eq_iff base.id j, lookup-insert base.id j (moved o) w.store));
        charges = λ j h. ap (λ (g : Payments.PaymentGateway). lookup j g.charges) same.payments;
        shipments =
            λ j h. ap (λ (p : Shipping.ShippingProvider). lookup j p.shipments) same.shipping;
      }

  -- A transition of a stored order sets its status, appends one event and touches nothing else.
  pub transition-Stands :
      {st : OrderStatus} {ts : List String}
      → Stands base st ts w
      → Returns
          (transition base.id status type detail)
          (λ _ w'.
            Stands base status (ts ++ type ∷ []) w'
            × SameParticipants w w'
            × SameOthers base.id w w')
          w
  unfolding updated
  transition-Stands at = (
    tt,
    noted,
    ap (λ r. (r, noted)) (transition-ok at.order at.found),
    (
      record {
        order = moved at.order;
        found = rw (transition-store at.order at.found) (rw (lookup-insert, eq_refl));
        status = refl;
        types =
            map-append (λ (e : OrderEvent). e.type) at.order.history (_ ∷ [])
            ∙ ap (λ ts'. ts' ++ type ∷ []) at.types;
        lines = at.lines;
        id = at.id;
      },
      transition-SameParticipants at.order at.found,
      transition-SameOthers at.order at.found,
    ),
  )
