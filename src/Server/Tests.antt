-- ===== src/Server/Tests.antt =====
-- Runs of the wiring.
use supply_chain_mangement_s.Common.{◌≡◌, refl, pos, true, none, some, [], ◌∷◌}
use supply_chain_mangement_s.Server.{
  Environment, connect_redis, connected, in_memory, raw_resp, unreachable, replied, failed,
  build_event_bus, kafka, in_memory_bus, build_store, in_process, readyz, timed_out, unready,
  on_unhandled_error,
}

abbrev defaults : Environment
defaults = record {
  redis_driver = none;
  redis_url = none;
  redis_host = none;
  redis_port = none;
  kafka_brokers = none;
  order_store = none;
  database_url = none;
  pg_pool_max = none;
}

raw_by_default : connect_redis defaults replied ≡ connected (raw_resp "127.0.0.1" (some (pos 6379)))
unfolding connect_redis
raw_by_default = refl

nothing_listens :
    connect_redis (record defaults { redis_port = some "6380" }) (failed (some "ECONNREFUSED"))
    ≡ unreachable "127.0.0.1" (some (pos 6380))
unfolding connect_redis
nothing_listens = refl

memory_driver :
    connect_redis (record defaults { redis_driver = some "memory" }) (failed none)
    ≡ connected in_memory
unfolding connect_redis
memory_driver = refl

two_brokers :
    build_event_bus (record defaults { kafka_brokers = some "a:9092,b:9092" })
    ≡ kafka ("a:9092" ∷ "b:9092" ∷ [])
unfolding build_event_bus
two_brokers = refl

no_brokers : build_event_bus (record defaults { kafka_brokers = some "" }) ≡ in_memory_bus
unfolding build_event_bus
no_brokers = refl

store_in_process : build_store defaults none ≡ (some in_process, none)
unfolding build_store
store_in_process = refl

no_database_url : build_store (record defaults { order_store = some "pg" }) none ≡ (none, none)
unfolding build_store
no_database_url = refl

slow_redis : readyz timed_out ≡ record { status = 503; body = unready "timeout" }
unfolding readyz
slow_redis = refl

too_late : on_unhandled_error (some "boom") true ≡ none
unfolding on_unhandled_error
too_late = refl
