-- ===== src/Payments.antt =====
-- src/payments/paymentGateway.ts: the mock payment processor, with its map from order ids to
-- payment ids.
pub mod Idempotent
mod Tests
use Prim.Native.String.{◌++◌}
use supply_chain_mangement_s.Common.{ℤ, String, Bool, true, false, if◌then◌else◌}
use supply_chain_mangement_s.Dict.{Dict, contains, insert, erase}

pub record PaymentGateway : Type 0 where
  pub charges : Dict String
  pub fail_for : String → Bool

pub data PaymentResult : Type 0 where
  paid : (payment_id : String) → PaymentResult
  declined : (reason : String) → PaymentResult

unfoldable pub payment_id_of : String → String
payment_id_of order_id = "pay_" ++ order_id

unfoldable pub charge : String → ℤ → PaymentGateway → PaymentResult × PaymentGateway
charge order_id amount_cents g = if g.fail_for order_id then (declined "CARD_DECLINED", g) else (
  paid (payment_id_of order_id),
  record g { charges = insert order_id (payment_id_of order_id) g.charges },
)

-- `{ ok: true, alreadyRefunded }`
pub record RefundResult : Type 0 where
  pub already_refunded : Bool

unfoldable pub refund : String → PaymentGateway → RefundResult × PaymentGateway
refund order_id g =
    if contains order_id g.charges
    then (record { already_refunded = false }, record g { charges = erase order_id g.charges })
    else (record { already_refunded = true }, g)
