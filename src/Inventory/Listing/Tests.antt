-- ===== src/Inventory/Listing/Tests.antt =====
-- The stock table of a process that knows two pairs, one of them without stock; texts are compared by
-- their lengths.
use mathlib.Core.List.{Perm}
use supply_chain_mangement_s.Common.{
  ℕ, suc, pos, ◌+◌, leb, ◌≡◌, refl, String, Bool, List, [], ◌∷◌, map, length, arith,
}
use supply_chain_mangement_s.Dict.{values, lookup, contains}
use supply_chain_mangement_s.Exec.{ok}
use supply_chain_mangement_s.Keys.{stock_key}
use supply_chain_mangement_s.Redis.{get, is_expired}
use supply_chain_mangement_s.World.{World}
use supply_chain_mangement_s.Sample.{world, laptops, stocked}
use supply_chain_mangement_s.Inventory.Listing.{KnownStockRecord, list_all}
use supply_chain_mangement_s.Inventory.Listing.Complete.{
  shown, IsCollation, IsSorted, list_all-lists,
}

abbrev letters : String → ℕ
letters String.[] = 0
letters (String.◌∷◌ c s) = suc (letters s)

abbrev no_longer : String → String → Bool
no_longer a b = leb (letters a) (letters b)

no_longer-IsCollation : IsCollation no_longer
no_longer-IsCollation = record {
  total = λ a b h. ground (arith, h);
  transitive = λ a b c h k. ground (arith, h, k);
}

abbrev two_known : World
two_known = record world {
  redis = stocked;
  known =
      (laptops, ("wh-1", "SKU-LAPTOP")) ∷ (stock_key "wh-2" "SKU-PEN", ("wh-2", "SKU-PEN")) ∷ [];
}

list_all-lists_example :
    (records : List KnownStockRecord) × (list_all no_longer two_known ≡ (
      ok records,
      record two_known { reads = two_known.reads + length (values two_known.known) },
    ))
    × Perm records (map (shown two_known.redis) (values two_known.known))
    × IsSorted no_longer records
unfolding values lookup
list_all-lists_example = list_all-lists no_longer no_longer-IsCollation two_known (refl, (refl, tt))

-- The shorter text comes first, and a pair without stock shows 0.
pens_first :
    (list_all no_longer two_known).0
    ≡ ok (
        record { warehouse_id = "wh-2"; sku = "SKU-PEN"; available = pos 0 }
        ∷ record { warehouse_id = "wh-1"; sku = "SKU-LAPTOP"; available = pos 5 }
        ∷ [])
unfolding list_all values lookup contains stock_key get is_expired
pens_first = refl
