-- ===== src/Inventory/Outcome.antt =====
-- What one call of the inventory service does to the Redis store, with the stock key persistent.
use supply_chain_mangement_s.Common.{
  suc, ◌+◌, ◌≤◌, ℤ, pos, ◌-ℤ◌, ◌≤ℤ◌, ◌<ℤ◌, leb_ℤ, ltb_ℤ, String, ◌≡◌, ◌⊎◌, inl, inr, Option, none,
  some, arith, Option-cases, Bool-cases,
}
use supply_chain_mangement_s.Dict.{lookup}
use supply_chain_mangement_s.Exec.{ok}
use supply_chain_mangement_s.Types.{accepted, rejected, Reason}
use supply_chain_mangement_s.Keys.{stock_key, reservation_key}
use supply_chain_mangement_s.Redis.Laws.{
  IsPersistent, level, hold, reserve_outcome, eval_reserve-persistent,
}
use supply_chain_mangement_s.World.{World}
use supply_chain_mangement_s.Inventory.{reserve, default_reservation_ttl_seconds}

-- The parts of the process that the inventory service does not touch.
pub record SameOutside (w w' : World) : Type 0 where
  pub payments : w'.payments ≡ w.payments
  pub shipping : w'.shipping ≡ w.shipping
  pub topics : w'.topics ≡ w.topics
  pub store : w'.store ≡ w.store
  pub env : w'.env ≡ w.env

pub SameOutside-trans : {u v w : World} → SameOutside u v → SameOutside v w → SameOutside u w
SameOutside-trans f g = ground arith

module _ (a b : String) (q : ℤ) (w : World) where
  -- The refusals: nothing is written to Redis.
  abbrev pub Refused : Type 0
  Refused =
      (why : Reason) × (left : Option ℤ) × ((reserve a b q w).0 ≡ ok (rejected why left))
      × ((reserve a b q w).1.redis ≡ w.redis)
      × (w.drawn ≤ (reserve a b q w).1.drawn)
      × ((q ≤ℤ pos 0) ⊎ (level (stock_key a b) w.redis <ℤ q))

  -- The acceptance: the next fresh id, and exactly the writes of `hold`.
  abbrev pub Accepted : Type 0
  Accepted =
      ((reserve a b q w).0
        ≡ ok (accepted (w.env.uuids w.drawn) (level (stock_key a b) w.redis -ℤ q)))
      × ((reserve a b q w).1.redis
          ≡ hold (w.env.clock (w.reads + 1)) (stock_key a b) (reservation_key (w.env.uuids w.drawn))
              q default_reservation_ttl_seconds w.redis)
      × ((reserve a b q w).1.drawn ≡ suc w.drawn)
      × (pos 0 <ℤ q)
      × (q ≤ℤ level (stock_key a b) w.redis)

  pub reserve-SameOutside : IsPersistent (stock_key a b) w.redis → SameOutside w (reserve a b q w).1
  unfolding reserve
  reserve-SameOutside h = ground (
    arith,
    eval_reserve-persistent (w.env.clock (w.reads + 1)) (stock_key a b)
        (reservation_key (w.env.uuids w.drawn)) q default_reservation_ttl_seconds w.redis h,
  )

  pub reserve-cases : IsPersistent (stock_key a b) w.redis → Refused ⊎ Accepted
  unfolding reserve reserve_outcome
  reserve-cases h =
      let e =
        eval_reserve-persistent (w.env.clock (w.reads + 1)) (stock_key a b)
          (reservation_key (w.env.uuids w.drawn)) q default_reservation_ttl_seconds w.redis h in
      elim (Bool-cases (leb_ℤ q (pos 0))) [
        | inl le ↦
            inl (
              Reason.invalid_qty,
              none,
              ground arith,
              ground arith,
              ground arith,
              inl (ground arith),
            )
        | inr gt ↦ elim (Option-cases (lookup (stock_key a b) w.redis.store)) [
          | inl missing ↦ inl (
            Reason.unknown_sku,
            some (pos 0),
            ground arith,
            ground arith,
            ground arith,
            inr (ground arith),
          )
          | inr (n, found) ↦ elim (Bool-cases (ltb_ℤ n q)) [
            | inl short ↦ inl (
              Reason.insufficient_stock,
              some n,
              ground arith,
              ground arith,
              ground arith,
              inr (ground arith),
            )
            | inr enough ↦
                inr (ground arith, ground arith, ground arith, ground arith, ground arith)
          ]
        ]
      ]
