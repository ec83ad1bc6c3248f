-- ===== src/Saga/Steps.antt =====
-- Each action of the saga takes one complete description of the state to the next.
use supply_chain_mangement_s.Common.{
  ℕ, ℤ, String, ◌≡◌, ◌≢◌, ◌∙◌, refl, sym, ap, Bool, true, false, Option, none, some, List, [], ◌∷◌,
  ◌++◌, arith, eq_iff, eq_refl, Bool-cases, if◌then◌else◌, inl, inr,
}
use supply_chain_mangement_s.Dict.{lookup}
use supply_chain_mangement_s.Exec.Returns.{Returns, Returns-map}
use supply_chain_mangement_s.Types.{OrderStatus, Order, Detail}
use supply_chain_mangement_s.Payments
use supply_chain_mangement_s.Payments.{PaymentResult, paid, declined, payment_id_of, charge}
use supply_chain_mangement_s.Payments.Idempotent.{lookup-refund, lookup-charge, fail_for-refund}
use supply_chain_mangement_s.Shipping
use supply_chain_mangement_s.Shipping.{
  ShippingResult, scheduled, unavailable, shipment_id_of, schedule,
}
use supply_chain_mangement_s.Shipping.Cancel.{lookup-cancel, lookup-schedule}
use supply_chain_mangement_s.Orders.{get, visible, in_scope}
use supply_chain_mangement_s.World.{World, on_payments, on_shipping}
use supply_chain_mangement_s.Inventory.Outcome.{SameOutside}
use supply_chain_mangement_s.Inventory.Books.{Hold, IsWindow, Books}
use supply_chain_mangement_s.Saga.{
  transition, must_get, release_all, commit_all, cancel_shipment, refund_payment,
}
use supply_chain_mangement_s.Saga.Frame.{
  SameOthers, SameOthers-trans, SameOthers-of_outside, Books-same, Stands, Stands-of_outside,
  transition-Stands,
}
use supply_chain_mangement_s.Saga.Loops.{
  reservations_of, release_all-Books, commit_all-Books, all_spent,
}

module _ (start : ℕ) (base : Order) (first : World) where
  -- The order has the status and history, the books are open with these holds, and the order is
  -- charged and shipped as said; of the other orders nothing has changed since `first`.
  pub record At (st : OrderStatus) (ts : List String) (total : String → ℤ) (hs : List Hold)
      (charged shipped : Option String) (w : World) : Type 0 where
    pub window : IsWindow start w.env
    pub books : Books start total hs w
    pub stands : Stands base st ts w
    pub charge : lookup base.id w.payments.charges ≡ charged
    pub shipment : lookup base.id w.shipping.shipments ≡ shipped
    pub others : SameOthers base.id first w
    pub pay_fails : w.payments.fail_for ≡ first.payments.fail_for
    pub ship_fails : w.shipping.fail_for ≡ first.shipping.fail_for

  -- After `charge` and after `schedule`, by their results
  module _ (st : OrderStatus) (ts : List String) (total : String → ℤ) (hs : List Hold) where
    abbrev pub AfterCharge : Option String → Option String → PaymentResult → World → Type 0
    AfterCharge charged shipped (paid id) w' =
        At st ts total hs (some (payment_id_of base.id)) shipped w'
    AfterCharge charged shipped (declined why) w' =
        At st ts total hs charged shipped w' × (first.payments.fail_for base.id ≡ true)

    abbrev pub AfterSchedule : Option String → Option String → ShippingResult → World → Type 0
    AfterSchedule charged shipped (scheduled id) w' =
        At st ts total hs charged (some (shipment_id_of base.id)) w'
    AfterSchedule charged shipped (unavailable why) w' =
        At st ts total hs charged shipped w' × (first.shipping.fail_for base.id ≡ true)

  module _ {st : OrderStatus} {ts : List String} {total : String → ℤ} {hs : List Hold}
      {charged shipped : Option String} (w : World) (at : At st ts total hs charged shipped w) where
    pub transition-At :
        (status : OrderStatus) (type : String) (detail : Detail)
        → Returns
            (transition base.id status type detail)
            (λ _. At status (ts ++ type ∷ []) total hs charged shipped)
            w
    transition-At status type detail =
        Returns-map (transition base.id status type detail) w
          (transition-Stands base status type detail w at.stands)
          (λ _ w' p. record {
            window = rw p.1.env at.window;
            books = Books-same w w' at.books p.1.redis p.1.env p.1.drawn;
            stands = p.0;
            charge = rw p.1.payments at.charge;
            shipment = rw p.1.shipping at.shipment;
            others = SameOthers-trans at.others p.2;
            pay_fails = rw p.1.payments at.pay_fails;
            ship_fails = rw p.1.shipping at.ship_fails;
          })

    -- After a call of the inventory service, with its effect on the books.
    pub At-of_outside :
        {total' : String → ℤ} {hs' : List Hold} (w' : World)
        → Books start total' hs' w'
        → SameOutside w w'
        → At st ts total' hs' charged shipped w'
    At-of_outside w' books same = record {
      window = rw same.env at.window;
      books = books;
      stands = Stands-of_outside w w' same.store at.stands;
      charge = rw same.payments at.charge;
      shipment = rw same.shipping at.shipment;
      others = SameOthers-trans at.others (SameOthers-of_outside base.id w w' same);
      pay_fails = rw same.payments at.pay_fails;
      ship_fails = rw same.shipping at.ship_fails;
    }

    pub release_all-At :
        Returns (release_all (reservations_of hs)) (λ _. At st ts total [] charged shipped) w
    release_all-At =
        Returns-map (release_all (reservations_of hs)) w
          (release_all-Books start total hs w at.window at.books)
          (λ _ w' p. At-of_outside w' p.0 p.1)

    pub commit_all-At :
        Returns
          (commit_all (reservations_of hs))
          (λ _. At st ts (all_spent hs total) [] charged shipped)
          w
    commit_all-At =
        Returns-map (commit_all (reservations_of hs)) w
          (commit_all-Books start total hs w at.window at.books)
          (λ _ w' p. At-of_outside w' p.0 p.1)

    -- The order as the store has it.
    pub must_get-At :
        Returns
          (must_get base.id)
          (λ o w'.
            At st ts total hs charged shipped w'
            × (lookup base.id w'.store ≡ some o)
            × (o.status ≡ st))
          w
    unfolding must_get get visible in_scope
    must_get-At = (
      at.stands.order,
      w,
      ground (arith, at.stands.found),
      (at, at.stands.found, at.stands.status),
    )

    -- A new state of the payment gateway that differs at the order only.
    At-payments :
        {charged' : Option String} (g : Payments.PaymentGateway)
        → lookup base.id g.charges ≡ charged'
        → ((j : String) → base.id ≢ j → lookup j g.charges ≡ lookup j w.payments.charges)
        → g.fail_for ≡ w.payments.fail_for
        → At st ts total hs charged' shipped (record w { payments = g })
    At-payments g here there fails = record {
      window = at.window;
      books = Books-same w _ at.books refl refl refl;
      stands = Stands-of_outside w _ refl at.stands;
      charge = here;
      shipment = at.shipment;
      others =
          SameOthers-trans at.others
            (record { orders = λ j h. refl; charges = there; shipments = λ j h. refl });
      pay_fails = fails ∙ at.pay_fails;
      ship_fails = at.ship_fails;
    }

    At-shipping :
        {shipped' : Option String} (p : Shipping.ShippingProvider)
        → lookup base.id p.shipments ≡ shipped'
        → ((j : String) → base.id ≢ j → lookup j p.shipments ≡ lookup j w.shipping.shipments)
        → p.fail_for ≡ w.shipping.fail_for
        → At st ts total hs charged shipped' (record w { shipping = p })
    At-shipping p here there fails = record {
      window = at.window;
      books = Books-same w _ at.books refl refl refl;
      stands = Stands-of_outside w _ refl at.stands;
      charge = at.charge;
      shipment = here;
      others =
          SameOthers-trans at.others
            (record { orders = λ j h. refl; charges = λ j h. refl; shipments = there });
      pay_fails = at.pay_fails;
      ship_fails = fails ∙ at.ship_fails;
    }

    pub refund_payment-At :
        (flag : Bool)
        → Returns
            (refund_payment flag base.id)
            (λ _. At st ts total hs (if flag then none else charged) shipped)
            w
    unfolding refund_payment
    refund_payment-At false = (tt, w, refl, at)
    refund_payment-At true = (
      tt,
      record w { payments = (Payments.refund base.id w.payments).1 },
      refl,
      At-payments (Payments.refund base.id w.payments).1 (rw (lookup-refund, eq_refl))
          (λ j h. ground (arith, lookup-refund base.id j w.payments, eq_iff base.id j))
          (fail_for-refund base.id w.payments),
    )

    pub cancel_shipment-At :
        (flag : Bool)
        → Returns
            (cancel_shipment flag base.id)
            (λ _. At st ts total hs charged (if flag then none else shipped))
            w
    unfolding cancel_shipment
    cancel_shipment-At false = (tt, w, refl, at)
    cancel_shipment-At true = (
      tt,
      record w { shipping = Shipping.cancel base.id w.shipping },
      refl,
      At-shipping (Shipping.cancel base.id w.shipping) (rw (lookup-cancel, eq_refl))
          (λ j h. ground (arith, lookup-cancel base.id j w.shipping, eq_iff base.id j))
          (unfold Shipping.cancel in refl),
    )

    pub charge-At :
        (amount : ℤ)
        → Returns
            (on_payments (charge base.id amount))
            (AfterCharge st ts total hs charged shipped)
            w
    unfolding charge
    charge-At amount = elim (Bool-cases (w.payments.fail_for base.id)) [
      | inl fails ↦ (
        declined "CARD_DECLINED",
        w,
        rw fails,
        (at, ap (λ (f : String → Bool). f base.id) (sym at.pay_fails) ∙ fails),
      )
      | inr works ↦ (
        paid (payment_id_of base.id),
        record w { payments = (charge base.id amount w.payments).1 },
        rw works,
        At-payments (charge base.id amount w.payments).1
            (ground (
              arith,
              works,
              eq_iff base.id base.id,
              lookup-charge base.id base.id amount w.payments,
            ))
            (λ j h.
              ground (arith, works, eq_iff base.id j, lookup-charge base.id j amount w.payments))
            (ground (arith, works)),
      )
    ]

    pub schedule-At :
        (warehouse : String)
        → Returns
            (on_shipping (schedule base.id warehouse))
            (AfterSchedule st ts total hs charged shipped)
            w
    unfolding schedule
    schedule-At warehouse = elim (Bool-cases (w.shipping.fail_for base.id)) [
      | inl fails ↦ (
        unavailable "NO_COURIER_AVAILABLE",
        w,
        rw fails,
        (at, ap (λ (f : String → Bool). f base.id) (sym at.ship_fails) ∙ fails),
      )
      | inr works ↦ (
        scheduled (shipment_id_of base.id),
        record w { shipping = (schedule base.id warehouse w.shipping).1 },
        rw works,
        At-shipping (schedule base.id warehouse w.shipping).1
            (ground (
              arith,
              works,
              eq_iff base.id base.id,
              lookup-schedule base.id warehouse base.id w.shipping,
            ))
            (λ j h.
              ground
                (arith, works, eq_iff base.id j, lookup-schedule base.id warehouse j w.shipping))
            (ground (arith, works)),
      )
    ]
