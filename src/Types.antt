-- ===== src/Types.antt =====
-- The domain types of src/types.ts. A text that the program only compares stays a `String`;
-- quantities and amounts are integers, times are milliseconds.
use supply_chain_mangement_s.Common.{ℕ, ℤ, String, Bool, Option, List}

pub data OrderStatus : Type 0 where
  created inventory_reserved payment_charged shipping_scheduled : OrderStatus
  confirmed compensating cancelled failed : OrderStatus

pub record OrderLine : Type 0 where
  pub sku : String
  pub qty : ℤ
  pub warehouse_id : String

-- The objects in the array `reservations` of the saga.
pub record Reservation : Type 0 where
  pub warehouse_id : String
  pub sku : String
  pub reservation_id : String

-- The `detail` objects that the program builds, one constructor for each shape.
pub data Detail : Type 0 where
  empty : Detail
  created : (customer_id : String) → List OrderLine → ℤ → Option String → Detail
  reservations : List Reservation → Detail
  payment : (payment_id : String) → Detail
  shipment : (shipment_id : String) → Detail
  unavailable : (reason sku warehouse_id : String) → Detail
  refused : (reason : String) → Detail
  recovered : (reason : String) → (previous_status : OrderStatus) → Detail

pub record OrderEvent : Type 0 where
  pub type : String
  pub at : ℕ
  pub detail : Option Detail

pub record Order : Type 0 where
  pub id : String
  pub customer_id : String
  pub lines : List OrderLine
  pub amount_cents : ℤ
  pub status : OrderStatus
  pub history : List OrderEvent
  pub created_at : ℕ
  pub updated_at : ℕ
  pub business_id : Option String

-- `ReservationResult`: `ok: true` with the id and what remains, or `ok: false` with a reason.
pub data Reason : Type 0 where
  insufficient_stock invalid_qty unknown_sku : Reason

pub data ReservationResult : Type 0 where
  accepted : (reservation_id : String) → (remaining : ℤ) → ReservationResult
  rejected : Reason → (remaining : Option ℤ) → ReservationResult

-- `has` on the optional sets of `FailureInjection`.
pub record FailureInjection : Type 0 where
  pub fail_payment_for : String → Bool
  pub fail_shipping_for : String → Bool
