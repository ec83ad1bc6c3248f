-- ===== src/Keys.antt =====
-- The Redis keys of src/inventory/inventoryService.ts: one for the stock of a SKU at a warehouse,
-- one for each reservation.
pub mod Injective
mod Tests
use Prim.Native.Char.{code}
use Prim.Native.String.append
use Prim.Native.String.{◌++◌}
use text.Mathlib.TextLemmas.{append_cancel_left, append_assoc}
use supply_chain_mangement_s.Common.{ℕ, String, ◌≡◌, ◌≢◌, ◌∙◌, ap, Option, none, some, arith}

-- `stock:${warehouseId}:${sku}`
unfoldable pub stock_key : String → String → String
stock_key warehouse_id sku = "stock:" ++ (warehouse_id ++ (":" ++ sku))

-- `resv:${reservationId}`
unfoldable pub reservation_key : String → String
reservation_key reservation_id = "resv:" ++ reservation_id

abbrev first_code : String → Option ℕ
first_code String.[] = none
first_code (String.◌∷◌ c s) = some (code c)

first-stock_key : (w s : String) → first_code (stock_key w s) ≡ some 115
unfolding stock_key
first-stock_key w s = ap first_code (append.cons "s" "tock:" (w ++ (":" ++ s)))

first-reservation_key : (id : String) → first_code (reservation_key id) ≡ some 114
unfolding reservation_key
first-reservation_key id = ap first_code (append.cons "r" "esv:" id)

-- No stock key is a reservation key.
pub stock_key-ne : (w s id : String) → stock_key w s ≢ reservation_key id
stock_key-ne w s id e =
    ground (arith, first-stock_key w s, first-reservation_key id, ap first_code e)

-- Different reservations have different keys.
pub reservation_key-injective : (a b : String) → reservation_key a ≡ reservation_key b → a ≡ b
unfolding reservation_key
reservation_key-injective a b e = append_cancel_left "resv:" a b e
