-- ===== src/Payments/Idempotent.antt =====
-- A refund undoes a charge, and a second refund changes nothing.
use supply_chain_mangement_s.Common.{
  ℤ, String, ◌≡◌, true, none, some, arith, inl, inr, ◌==◌, eq_iff, eq_refl, Option-cases,
  if◌then◌else◌,
}
use supply_chain_mangement_s.Dict.{lookup, contains_lem, lookup-erase, lookup-insert}
use supply_chain_mangement_s.Payments.{PaymentGateway, payment_id_of, charge, refund}

-- What is charged after a refund: nothing for the order, and the same for every other.
pub lookup-refund :
    (id j : String) (g : PaymentGateway)
    → lookup j (refund id g).1.charges ≡ (if id == j then none else lookup j g.charges)
unfolding refund
lookup-refund id j g = elim (Option-cases (lookup id g.charges)) [
  | inl e ↦ rw (contains_lem, e) (ground (arith, eq_iff id j))
  | inr (p, e) ↦ rw (contains_lem, e) (lookup-erase id j g.charges)
]

-- A second refund finds nothing to refund and leaves the gateway as it is.
pub refund-refund :
    (id : String) (g : PaymentGateway)
    → ((refund id (refund id g).1).1 ≡ (refund id g).1)
      × ((refund id (refund id g).1).0.already_refunded ≡ true)
refund-refund id g =
    let gone : lookup id (refund id g).1.charges ≡ none = rw (lookup-refund, eq_refl) in
    (second (refund id g).1 gone, second_flag (refund id g).1 gone)
  where
    second : (h : PaymentGateway) → lookup id h.charges ≡ none → (refund id h).1 ≡ h
    second h e = unfold refund in rw (contains_lem, e)

    second_flag :
        (h : PaymentGateway) → lookup id h.charges ≡ none → (refund id h).0.already_refunded ≡ true
    second_flag h e = unfold refund in rw (contains_lem, e)

-- What is charged after a call of `charge`: a declined order changes nothing.
pub lookup-charge :
    (id j : String) (amount : ℤ) (g : PaymentGateway)
    → lookup j (charge id amount g).1.charges ≡ (
        if g.fail_for id
        then lookup j g.charges
        else if id == j
        then some (payment_id_of id)
        else lookup j g.charges)
unfolding charge
lookup-charge id j amount g = ground (arith, lookup-insert id j (payment_id_of id) g.charges)

pub fail_for-refund : (id : String) (g : PaymentGateway) → (refund id g).1.fail_for ≡ g.fail_for
unfolding refund
fail_for-refund id g = ground arith
