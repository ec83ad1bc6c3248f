-- ===== src/Shipping/Cancel.antt =====
-- Cancelling undoes a schedule.
use supply_chain_mangement_s.Common.{String, ◌≡◌, none, some, arith, ◌==◌, if◌then◌else◌}
use supply_chain_mangement_s.Dict.{lookup, lookup-erase, lookup-insert}
use supply_chain_mangement_s.Shipping.{ShippingProvider, shipment_id_of, schedule, cancel}

pub lookup-cancel :
    (id j : String) (p : ShippingProvider)
    → lookup j (cancel id p).shipments ≡ (if id == j then none else lookup j p.shipments)
unfolding cancel
lookup-cancel id j p = lookup-erase id j p.shipments

pub lookup-schedule :
    (id w j : String) (p : ShippingProvider)
    → lookup j (schedule id w p).1.shipments ≡ (
        if p.fail_for id
        then lookup j p.shipments
        else if id == j
        then some (shipment_id_of id)
        else lookup j p.shipments)
unfolding schedule
lookup-schedule id w j p = ground (arith, lookup-insert id j (shipment_id_of id) p.shipments)
