-- ===== src/Shipping.antt =====
-- src/shipping/shippingProvider.ts: the mock courier, with its map from order ids to shipment ids.
pub mod Cancel
use Prim.Native.String.{◌++◌}
use supply_chain_mangement_s.Common.{String, Bool, if◌then◌else◌}
use supply_chain_mangement_s.Dict.{Dict, insert, erase}

pub record ShippingProvider : Type 0 where
  pub shipments : Dict String
  pub fail_for : String → Bool

pub data ShippingResult : Type 0 where
  scheduled : (shipment_id : String) → ShippingResult
  unavailable : (reason : String) → ShippingResult

unfoldable pub shipment_id_of : String → String
shipment_id_of order_id = "ship_" ++ order_id

unfoldable pub schedule : String → String → ShippingProvider → ShippingResult × ShippingProvider
schedule order_id warehouse_id p =
    if p.fail_for order_id then (unavailable "NO_COURIER_AVAILABLE", p) else (
      scheduled (shipment_id_of order_id),
      record p { shipments = insert order_id (shipment_id_of order_id) p.shipments },
    )

unfoldable pub cancel : String → ShippingProvider → ShippingProvider
cancel order_id p = record p { shipments = erase order_id p.shipments }
