-- ===== src/Inventory.antt =====
-- src/inventory/inventoryService.ts: reservations over the two Redis scripts. `setStock` writes
-- and `getAvailable` reads the stock key directly.
pub mod Outcome
pub mod Books
pub mod Writes
pub mod Steps
pub mod Listing
mod Tests
use supply_chain_mangement_s.Common.{
  ℕ, ◌-◌, ℤ, pos, leb_ℤ, String, Option, none, some, [], ◌∷◌, if◌then◌else◌,
}
use supply_chain_mangement_s.Dict.{insert}
use supply_chain_mangement_s.Exec.{Exec, ok, pure, modify, ◌>>=◌, ◌>>◌}
use supply_chain_mangement_s.Types.{ReservationResult, accepted, rejected, Reason, invalid_qty}
use supply_chain_mangement_s.Keys.{stock_key, reservation_key}
use supply_chain_mangement_s.Metrics.{Labels, inc, observe}
use supply_chain_mangement_s.Redis
use supply_chain_mangement_s.Redis.{
  Redis, ReserveStatus, ok_reserved, unknown_sku, insufficient_stock, ReleaseStatus, Mode,
  eval_reserve, eval_release,
}
use supply_chain_mangement_s.World.{World, now, random_uuid, on_redis}

-- `DEFAULT_RESERVATION_TTL_SECONDS`
abbrev pub default_reservation_ttl_seconds : ℕ
default_reservation_ttl_seconds = 900

unfoldable pub note_known : String → String → World → World
note_known warehouse_id sku w = record w {
  known = insert (stock_key warehouse_id sku) (warehouse_id, sku) w.known;
}

unfoldable pub set_stock : String → String → ℤ → World → World
unfolding note_known
set_stock warehouse_id sku qty w =
    note_known warehouse_id sku
      (record w { redis = Redis.set (stock_key warehouse_id sku) qty w.redis })

abbrev or_zero : Option ℤ → ℤ
or_zero none = pos 0
or_zero (some v) = v

unfoldable pub get_available : String → String → Exec World ℤ
unfolding now
get_available warehouse_id sku = do
  t ← now
  v ← on_redis (λ r. let (v, r') = Redis.get t (stock_key warehouse_id sku) r in (ok v, r'))
  pure (or_zero v)

abbrev labels_of : String → String → Labels
labels_of sku warehouse_id = ("sku", sku) ∷ ("warehouseId", warehouse_id) ∷ []

unfoldable pub count_rejected : String → String → World → World
count_rejected sku warehouse_id w = record w {
  metrics = record w.metrics {
    reservations_rejected = inc (labels_of sku warehouse_id) w.metrics.reservations_rejected;
  };
}

unfoldable pub count_accepted : String → String → World → World
count_accepted sku warehouse_id w = record w {
  metrics = record w.metrics {
    reservations_accepted = inc (labels_of sku warehouse_id) w.metrics.reservations_accepted;
  };
}

unfoldable pub observe_latency : ℕ → World → World
observe_latency ms w = record w {
  metrics = record w.metrics { reservation_latency = observe ms w.metrics.reservation_latency };
}

-- The two `return`s on the script's status.
unfoldable pub settle : String → String → String → ReserveStatus × ℤ → Exec World ReservationResult
unfolding count_rejected count_accepted
settle warehouse_id sku id (ok_reserved, value) = do
  modify (count_accepted sku warehouse_id)
  pure (accepted id value)
settle warehouse_id sku id (unknown_sku, value) = do
  modify (count_rejected sku warehouse_id)
  pure (rejected Reason.unknown_sku (some value))
settle warehouse_id sku id (insufficient_stock, value) = do
  modify (count_rejected sku warehouse_id)
  pure (rejected Reason.insufficient_stock (some value))

-- `reserve`, from the id on; `performance.now()` is read before and after the script.
unfoldable pub reserve_checked : String → String → ℤ → ℕ → Exec World ReservationResult
unfolding note_known now random_uuid observe_latency settle
reserve_checked warehouse_id sku qty ttl_seconds = do
  modify (note_known warehouse_id sku)
  id ← random_uuid
  start ← now
  t ← now
  outcome ←
      on_redis (eval_reserve t (stock_key warehouse_id sku) (reservation_key id) qty ttl_seconds)
  end ← now
  modify (observe_latency (end - start))
  settle warehouse_id sku id outcome

unfoldable pub reserve_for : ℕ → String → String → ℤ → Exec World ReservationResult
unfolding reserve_checked
reserve_for ttl_seconds warehouse_id sku qty =
    if leb_ℤ qty (pos 0)
    then pure (rejected invalid_qty none)
    else reserve_checked warehouse_id sku qty ttl_seconds

-- `reserve` with its default time to live
unfoldable pub reserve : String → String → ℤ → Exec World ReservationResult
unfolding reserve_for
reserve = reserve_for default_reservation_ttl_seconds

unfoldable pub resolve : String → String → String → Mode → Exec World ReleaseStatus
unfolding now
resolve warehouse_id sku reservation_id mode = do
  t ← now
  outcome ←
      on_redis (eval_release t (stock_key warehouse_id sku) (reservation_key reservation_id) mode)
  pure outcome.0

unfoldable pub release : String → String → String → Exec World ReleaseStatus
unfolding resolve
release warehouse_id sku reservation_id = resolve warehouse_id sku reservation_id Mode.release

unfoldable pub commit : String → String → String → Exec World ReleaseStatus
unfolding resolve
commit warehouse_id sku reservation_id = resolve warehouse_id sku reservation_id Mode.commit
