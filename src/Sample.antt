-- ===== src/Sample.antt =====
-- Concrete states of the process, at which the theorems are applied.
pub mod Stopped
pub mod Toys
use supply_chain_mangement_s.Common.{
  ℕ, zero, suc, pos, String, ◌≡◌, refl, ap, false, none, [], ◌∷◌, arith, eq_iff,
}
use supply_chain_mangement_s.Dict.{lookup}
use supply_chain_mangement_s.Types.{OrderStatus, OrderLine, Order}
use supply_chain_mangement_s.Keys.{stock_key, reservation_key, stock_key-ne}
use supply_chain_mangement_s.Redis.{Redis}
use supply_chain_mangement_s.World.{Env, World}
use supply_chain_mangement_s.Inventory.Books.{IsWindow}
use supply_chain_mangement_s.Saga.Run.{IsReady}

-- Ids in unary notation: no two are equal.
abbrev pub unary : ℕ → String
unary zero = String.[]
unary (suc n) = String.◌∷◌ "i" (unary n)

abbrev tail : String → String
tail String.[] = String.[]
tail (String.◌∷◌ c s) = s

abbrev size : String → ℕ
size String.[] = 0
size (String.◌∷◌ c s) = suc (size s)

size-unary : (n : ℕ) → size (unary n) ≡ n
size-unary zero = refl
size-unary (suc n) = ap suc (size-unary n)

pub unary-injective : (m n : ℕ) → unary m ≡ unary n → m ≡ n
unary-injective m n e = ground (arith, size-unary m, size-unary n, ap size e)

-- A clock that stands at noon.
abbrev pub env : Env
env = record { clock = λ n. 43200000; uuids = unary }

pub env-IsWindow : IsWindow 43200000 env
env-IsWindow = record {
  after = λ n. omega arith;
  before = λ n. omega arith;
  unique = unary-injective;
}

abbrev pub laptops : String
laptops = stock_key "wh-1" "SKU-LAPTOP"

-- Five laptops in stock.
abbrev pub stocked : Redis
stocked = record { store = (laptops, pos 5) ∷ []; expires_at = [] }

abbrev pub two_laptops : OrderLine
two_laptops = record { sku = "SKU-LAPTOP"; qty = pos 2; warehouse_id = "wh-1" }

abbrev pub order : Order
order = record {
  id = "o1";
  customer_id = "cust-1";
  lines = two_laptops ∷ [];
  amount_cents = pos 4999;
  status = OrderStatus.created;
  history = [];
  created_at = 0;
  updated_at = 0;
  business_id = none;
}

abbrev pub world : World
world = record {
  redis = stocked;
  known = [];
  metrics = record {
    reservations_accepted = [];
    reservations_rejected = [];
    saga_outcomes = [];
    reservation_latency = [];
  };
  payments = record { charges = []; fail_for = λ id. false };
  shipping = record { shipments = []; fail_for = λ id. false };
  topics = [];
  store = ("o1", order) ∷ [];
  env = env;
  reads = 0;
  drawn = 0;
}

pub world-IsReady : IsReady 43200000 world
unfolding lookup
world-IsReady = record {
  window = env-IsWindow;
  persistent = λ a b. refl;
  fresh = λ n h.
      let apart = stock_key-ne "wh-1" "SKU-LAPTOP" (unary n) in
      ground (arith, eq_iff laptops (reservation_key (unary n)));
}
