-- ===== src/World.antt =====
-- The objects that one process of the service holds, wired as `main` of src/api/server.ts does,
-- and the readings that it takes from outside.
use supply_chain_mangement_s.Common.{ℕ, ◌+◌, String, List}
use supply_chain_mangement_s.Dict.{Dict}
use supply_chain_mangement_s.Exec.{Exec, ok}
use supply_chain_mangement_s.Types.{Detail}
use supply_chain_mangement_s.Metrics.{Metrics}
use supply_chain_mangement_s.Redis.{Redis}
use supply_chain_mangement_s.Payments.{PaymentGateway}
use supply_chain_mangement_s.Shipping.{ShippingProvider}
use supply_chain_mangement_s.Orders.{OrderStore}
use supply_chain_mangement_s.EventBus.{DomainEvent}

-- The payload of an event on the topic "orders".
pub record OrderPayload : Type 0 where
  pub order_id : String
  pub detail : Detail

-- What the process is given: `clock n` is the n-th reading of the clock, `uuids n` the n-th value
-- of `randomUUID()`.
pub record Env : Type 0 where
  pub clock : ℕ → ℕ
  pub uuids : ℕ → String

pub record World : Type 0 where
  pub redis : Redis
  pub known : Dict (String × String)
  pub metrics : Metrics
  pub payments : PaymentGateway
  pub shipping : ShippingProvider
  pub topics : Dict (List (DomainEvent OrderPayload))
  pub store : OrderStore
  pub env : Env
  pub reads : ℕ
  pub drawn : ℕ

-- `Date.now()`, and `performance.now()` in whole milliseconds
unfoldable pub now : Exec World ℕ
now w = (ok (w.env.clock w.reads), record w { reads = w.reads + 1 })

unfoldable pub random_uuid : Exec World String
random_uuid w = (ok (w.env.uuids w.drawn), record w { drawn = w.drawn + 1 })

-- A method of one object, as an action on the whole.
module _ {A : Type 0} where
  abbrev pub on_redis : Exec Redis A → Exec World A
  on_redis m w = let (r, s) = m w.redis in (r, record w { redis = s })

  abbrev pub on_store : Exec OrderStore A → Exec World A
  on_store m w = let (r, s) = m w.store in (r, record w { store = s })

  abbrev pub on_payments : (PaymentGateway → A × PaymentGateway) → Exec World A
  on_payments m w = let (a, s) = m w.payments in (ok a, record w { payments = s })

  abbrev pub on_shipping : (ShippingProvider → A × ShippingProvider) → Exec World A
  on_shipping m w = let (a, s) = m w.shipping in (ok a, record w { shipping = s })
