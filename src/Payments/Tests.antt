-- ===== src/Payments/Tests.antt =====
-- The payment gateway at a concrete state.
use supply_chain_mangement_s.Common.{◌≡◌, refl, true, false, [], ◌∷◌}
use supply_chain_mangement_s.Dict.{contains, lookup, erase}
use supply_chain_mangement_s.Payments.{PaymentGateway, refund}

abbrev charged : PaymentGateway
charged = record { charges = ("o1", "pay_o1") ∷ ("o2", "pay_o2") ∷ []; fail_for = λ id. false }

refunded_twice :
    refund "o1" (refund "o1" charged).1
    ≡ (record { already_refunded = true }, record charged { charges = ("o2", "pay_o2") ∷ [] })
unfolding refund contains lookup erase
refunded_twice = refl
