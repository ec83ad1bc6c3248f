-- ===== src/Inventory/Listing.antt =====
-- src/inventory/inventoryService.ts: `listAll`, and the two reads of src/api/routes/inventory.ts. Whether
-- `a.localeCompare(b) <= 0` is a parameter, since the order of texts is the platform's.
pub mod Complete
mod Tests
use Prim.Native.String.{◌++◌ as join}
use supply_chain_mangement_s.Common.{ℤ, String, Bool, List, [], ◌∷◌, if◌then◌else◌}
use supply_chain_mangement_s.Dict.{values}
use supply_chain_mangement_s.Exec.{Exec, pure, gets, ◌>>=◌}
use supply_chain_mangement_s.World.{World}
use supply_chain_mangement_s.Inventory.{get_available}

pub record KnownStockRecord : Type 0 where
  pub warehouse_id : String
  pub sku : String
  pub available : ℤ

-- `Promise.all(entries.map(…))`: each entry's count, in the order of the entries.
unfoldable pub get_each : List (String × String) → Exec World (List KnownStockRecord)
unfolding get_available
get_each [] = pure []
get_each ((warehouse_id, sku) ∷ entries) = do
  available ← get_available warehouse_id sku
  records ← get_each entries
  pure (record { warehouse_id = warehouse_id; sku = sku; available = available } ∷ records)

-- `r.warehouseId + r.sku`
abbrev pub sort_key : KnownStockRecord → String
sort_key r = join r.warehouse_id r.sku

module _ (at_most : String → String → Bool) where
  unfoldable pub place : KnownStockRecord → List KnownStockRecord → List KnownStockRecord
  place r [] = r ∷ []
  place r (next ∷ rest) =
      let later = place r rest in
      if at_most (sort_key r) (sort_key next) then r ∷ next ∷ rest else next ∷ later

  -- `records.sort(…)`, which is stable.
  unfoldable pub sort_records : List KnownStockRecord → List KnownStockRecord
  unfolding place
  sort_records [] = []
  sort_records (r ∷ rest) = place r (sort_records rest)

  -- `listAll`, which `GET /inventory` answers with.
  unfoldable pub list_all : Exec World (List KnownStockRecord)
  unfolding get_each sort_records
  list_all = do
    entries ← gets (λ w. values w.known)
    records ← get_each entries
    pure (sort_records records)

-- `GET /inventory/:warehouseId/:sku`
unfoldable pub get_inventory : String → String → Exec World KnownStockRecord
unfolding get_available
get_inventory warehouse_id sku = do
  available ← get_available warehouse_id sku
  pure (record { warehouse_id = warehouse_id; sku = sku; available = available })
