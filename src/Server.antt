-- ===== src/Server.antt =====
-- src/api/server.ts: the objects that `main` builds, the sweep that it awaits before it listens, and
-- the probes. src/inventory/connectRedis.ts and src/lib/pgClient.ts: which client and which pool the
-- environment selects. Sockets, routers and static files are express's.
mod Tests
use supply_chain_mangement_s.Common.{
  ℕ, ℤ, pos, String, Bool, true, false, Option, none, some, List, [], ◌∷◌, ◌==◌, if◌then◌else◌,
}
use supply_chain_mangement_s.Exec.{Exec, modify, ◌>>◌}
use supply_chain_mangement_s.Text.{truthy, split}
use supply_chain_mangement_s.Bytes.{codes, number}
use supply_chain_mangement_s.World.{World}
use supply_chain_mangement_s.Recovery.{recover_stuck_orders}

-- What a failing provider fails for, in a process that is being built.
abbrev pub none_fail : String → Bool
none_fail id = false

-- `new InMemoryEventBus()`, `new PaymentGateway()`, `new ShippingProvider()` and the objects with
-- nothing in them yet. Redis and the order store are outside the process and stay as they are.
unfoldable pub build_services : World → World
build_services w = record w {
  known = [];
  metrics = record {
    reservations_accepted = [];
    reservations_rejected = [];
    saga_outcomes = [];
    reservation_latency = [];
  };
  payments = record { charges = []; fail_for = none_fail };
  shipping = record { shipments = []; fail_for = none_fail };
  topics = [];
}

-- `main`, up to the routes: build the objects, and roll back what a previous process left behind.
-- `aliased` holds of the store in process, and not of the one in Postgres.
unfoldable pub start : (aliased : Bool) → Exec World ℕ
unfolding build_services
start aliased = modify build_services >> recover_stuck_orders aliased

-- The environment variables that the wiring reads.
pub record Environment : Type 0 where
  pub redis_driver : Option String
  pub redis_url : Option String
  pub redis_host : Option String
  pub redis_port : Option String
  pub kafka_brokers : Option String
  pub order_store : Option String
  pub database_url : Option String
  pub pg_pool_max : Option String

-- `value ?? fallback`
abbrev pub or_default : Option String → String → String
or_default none fallback = fallback
or_default (some value) fallback = value

-- `Number(value ?? n)`; `none` is `NaN`.
abbrev pub number_or : Option String → ℤ → Option ℤ
number_or none n = some n
number_or (some value) n = number (codes value)

abbrev pub is_text : Option String → String → Bool
is_text none text = false
is_text (some value) text = value == text

pub data RedisClient : Type 0 where
  io_redis : (url : String) → RedisClient
  in_memory : RedisClient
  raw_resp : (host : String) → (port : Option ℤ) → RedisClient

-- What the probe of a raw client meets: a reply, or an error with its code.
pub data Probe : Type 0 where
  replied : Probe
  failed : (code : Option String) → Probe

pub data Connected : Type 0 where
  connected : RedisClient → Connected
  unreachable : (host : String) → (port : Option ℤ) → Connected
  thrown : (code : Option String) → Connected

-- `isConnectionRefused`
abbrev pub is_connection_refused : Option String → Bool
is_connection_refused code = is_text code "ECONNREFUSED"

-- The try block: the client, or the error that names the fallback, or the error as it came.
unfoldable pub probed : String → Option ℤ → Probe → Connected
probed host port replied = connected (raw_resp host port)
probed host port (failed code) =
    if is_connection_refused code then unreachable host port else thrown code

-- `connectRedis`
unfoldable pub connect_redis : Environment → Probe → Connected
unfolding probed number
connect_redis env probe =
    if is_text env.redis_driver "ioredis"
    then connected (io_redis (or_default env.redis_url "redis://127.0.0.1:6379"))
    else if is_text env.redis_driver "memory"
    then connected in_memory
    else probed (or_default env.redis_host "127.0.0.1") (number_or env.redis_port (pos 6379)) probe

pub data Bus : Type 0 where
  kafka : (brokers : List String) → Bus
  in_memory_bus : Bus

abbrev brokers_of : Option String → List String
unfolding split
brokers_of none = []
brokers_of (some brokers) = split "," brokers

-- `buildEventBus`: an empty text selects the bus in memory.
unfoldable pub build_event_bus : Environment → Bus
unfolding brokers_of split
build_event_bus env =
    if truthy env.kafka_brokers then kafka (brokers_of env.kafka_brokers) else in_memory_bus

-- The options of a pool: the size, and the two timeouts in milliseconds.
pub record PoolConfig : Type 0 where
  pub connection_string : String
  pub max : Option ℤ
  pub idle_timeout_millis : ℕ
  pub connection_timeout_millis : ℕ

abbrev pool_of : Environment → PoolConfig
unfolding number
pool_of env = record {
  connection_string = or_default env.database_url "";
  max = number_or env.pg_pool_max (pos 10);
  idle_timeout_millis = 30_000;
  connection_timeout_millis = 5_000;
}

-- `getPgPool()`: the pool of the process, built at the first call, or the throw without a URL; beside
-- it the module's variable `pool`.
unfoldable pub get_pg_pool : Environment → Option PoolConfig → Option PoolConfig × Option PoolConfig
unfolding pool_of number
get_pg_pool env (some pool) = (some pool, some pool)
get_pg_pool env none =
    if truthy env.database_url then (some (pool_of env), some (pool_of env)) else (none, none)

-- `closePgPool`
unfoldable pub close_pg_pool : Option PoolConfig → Option PoolConfig
close_pg_pool pool = none

pub data Store : Type 0 where
  on_postgres : PoolConfig → Store
  in_process : Store

-- `buildOrderStore`, and `buildBusinessStore`, which has the same text; `none` is a throw.
unfoldable pub build_store : Environment → Option PoolConfig → Option Store × Option PoolConfig
unfolding get_pg_pool
build_store env pool =
    let (opened, pool') = get_pg_pool env pool in
    if is_text env.order_store "pg"
    then (elim opened [ none ↦ none | some config ↦ some (on_postgres config) ], pool')
    else (some in_process, pool)

pub data Health : Type 0 where
  healthy : Health
  unready : (message : String) → Health

pub record HealthResponse : Type 0 where
  pub status : ℕ
  pub body : Health

-- `/healthz`
unfoldable pub healthz : HealthResponse
healthz = record { status = 200; body = healthy }

-- What the race of `/readyz` ends with: the reply of Redis, its error, or the timeout.
pub data Race : Type 0 where
  redis_replied : Race
  redis_failed : (message : String) → Race
  timed_out : Race

-- `/readyz`
unfoldable pub readyz : Race → HealthResponse
readyz redis_replied = record { status = 200; body = healthy }
readyz (redis_failed message) = record { status = 503; body = unready message }
readyz timed_out = record { status = 503; body = unready "timeout" }

-- The last error handler: nothing once the headers are sent, else a 500 with the error's message.
pub record ErrorResponse : Type 0 where
  pub status : ℕ
  pub error : String
  pub message : String

unfoldable pub on_unhandled_error : Option String → (headers_sent : Bool) → Option ErrorResponse
on_unhandled_error message true = none
on_unhandled_error message false = some (record {
  status = 500;
  error = "INTERNAL_ERROR";
  message = or_default message "Unknown error";
})
