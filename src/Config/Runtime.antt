-- ===== src/Config/Runtime.antt =====
-- src/infrastructure/runtime.py: which adapters the settings choose.
use Prim.Native.String.{String}
use service_order_os_service.Prelude.{Bool, Option, none, some, List, ◌==◌, if◌then◌else◌}
use service_order_os_service.Exec.{Result, ok, and_then}
use service_order_os_service.Config.Urls.{
  UrlReader, normalize_sync_database_url, validate_runtime_database_url,
}
use service_order_os_service.Config.Settings.{Settings}
use service_order_os_service.Config.Readiness.{Probe, new_probe}

-- A repository in memory, or one over SQL with the address that its engine connects to.
pub data Backend : Type 0 where
  in_memory : Backend
  sql : String → Backend

-- The publisher in memory, or the one over RabbitMQ with what it is constructed from.
pub data EventBackend : Type 0 where
  memory_events : EventBackend
  rabbit : (url exchange routing_key queue : String) → EventBackend

-- `RabbitMqBlockingEventWorker` with what it is constructed from
pub record WorkerConfig : Type 0 where
  pub url : String
  pub exchange : String
  pub queue : String
  pub routing_keys : List String

-- `settings.APP_RUNTIME_MODE == "real"`
abbrev pub is_real : Settings → Bool
is_real s = s.app_runtime_mode == "real"

-- `SqlAlchemy...Repository(settings.DATABASE_URL)` or the repository in memory
unfoldable pub choose : Settings → Backend
choose s = if is_real s then sql (normalize_sync_database_url s.database_url) else in_memory

unfoldable pub build_service_order_repository : Settings → Backend
build_service_order_repository s = choose s

unfoldable pub build_customer_repository : Settings → Backend
build_customer_repository s = choose s

unfoldable pub build_admin_user_repository : Settings → Backend
build_admin_user_repository s = choose s

unfoldable pub build_vehicle_repository : Settings → Backend
build_vehicle_repository s = choose s

unfoldable pub build_processed_event_repository : Settings → Backend
build_processed_event_repository s = choose s

unfoldable pub build_database_readiness_probe : UrlReader → Settings → Result (Option Probe)
build_database_readiness_probe py s =
    if is_real s
    then (and_then
        (validate_runtime_database_url py s.database_url (some s.expected_database_name)
          (some s.expected_database_username))
        λ t. ok (
          some (
            new_probe s.database_url s.expected_database_name s.expected_database_username
              s.healthcheck_timeout_seconds)))
    else ok none

unfoldable pub build_event_publisher : Settings → EventBackend
build_event_publisher s =
    if is_real s
    then rabbit s.rabbitmq_url s.rabbitmq_exchange s.rabbitmq_routing_key s.rabbitmq_queue
    else memory_events

unfoldable pub build_event_worker : Settings → WorkerConfig
build_event_worker s = record {
  url = s.rabbitmq_url;
  exchange = s.rabbitmq_exchange;
  queue = s.rabbitmq_queue;
  routing_keys = s.rabbitmq_consume_routing_keys;
}
