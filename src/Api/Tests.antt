-- ===== src/Api/Tests.antt =====
-- Requests at a concrete state of the process.
use supply_chain_mangement_s.Common.{pos, String, ◌≡◌, Option, none, some, [], ◌∷◌, if◌then◌else◌}
use supply_chain_mangement_s.Exec.{ok}
use supply_chain_mangement_s.Types.{Order}
use supply_chain_mangement_s.Auth.Session.{create_session_token}
use supply_chain_mangement_s.Orders.{same_business}
use supply_chain_mangement_s.Sample.{world, two_laptops}
use supply_chain_mangement_s.Sample.Toys.{toy_crypto}
use supply_chain_mangement_s.Api.{NewOrder, respond, failure, one, post_order, get_order}
use supply_chain_mangement_s.Api.Scoping.{asker, post-get}

abbrev laptop_order : NewOrder
laptop_order = record { customer_id = "cust-1"; amount_cents = pos 4999; lines = two_laptops ∷ [] }

abbrev token : Option String
token = some (create_session_token toy_crypto "key" 1000 "b1")

post-get_example :
    let (r, w1) = post_order toy_crypto "key" token (some laptop_order) world in
    (o : Order) × (r ≡ ok (record { status = 202; body = one (some o); location = some o.id }))
    × ((get_order toy_crypto "key" none o.id w1).0
        ≡ ok (
            if same_business (asker toy_crypto "key" token world) (asker toy_crypto "key" none w1)
            then respond 200 (one (some o))
            else respond 404 (failure "NOT_FOUND")))
post-get_example = post-get toy_crypto "key" token none laptop_order world
