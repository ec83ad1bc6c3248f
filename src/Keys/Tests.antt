-- ===== src/Keys/Tests.antt =====
-- The keys at concrete ids.
use supply_chain_mangement_s.Common.{String, ◌≡◌, refl}
use supply_chain_mangement_s.Keys.{stock_key}
use supply_chain_mangement_s.Keys.Injective.{stock_key-injective}

-- Two pairs of a warehouse and a SKU with one stock key: the ids are not escaped.
one_key : stock_key "eu:1" "SKU-A" ≡ stock_key "eu" "1:SKU-A"
unfolding stock_key
one_key = refl

abbrev warehouse : String
warehouse = "wh-1"

-- The SKU may have a colon.
abbrev sku : String
sku = "A:1"

stock_key-injective_example : (warehouse ≡ warehouse) × (sku ≡ sku)
stock_key-injective_example = stock_key-injective warehouse warehouse sku sku refl refl refl
