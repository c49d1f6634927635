-- ===== src/Messaging/Process.antt =====
-- The set-up, start and end of src/infrastructure/messaging/rabbitmq_blocking_worker.py, and src/worker.py.
-- The broker's client (pika) is a parameter.
pub mod Laws
use service_order_os_service.Prelude.{ℕ, Bool, true, false, String, List, [], ◌∷◌, if◌then◌else◌}
use service_order_os_service.Prelude.Dict.{Dict}
use service_order_os_service.Exec.{Exec, Result, ok, err, pure, finally, ◌>>=◌, ◌>>◌}
use service_order_os_service.Json.{Json}
use service_order_os_service.Domain.Order.Base.{Draw}
use service_order_os_service.Config.Runtime.{WorkerConfig}
use service_order_os_service.Messaging.Worker.{Channel, Site, on_channel, handle_delivery}

-- What the worker calls of its connection and channel. `stopped` is the end of `start_consuming`, which
-- returns or raises.
pub record Client (C : Type 0) : Type 0 where
  pub channel : Channel C
  pub connect : String → Exec C (Unit {0})
  pub exchange_declare : String → Exec C (Unit {0})
  pub queue_declare : String → Exec C (Unit {0})
  pub queue_bind : String → String → String → Exec C (Unit {0})
  pub basic_qos : ℕ → Exec C (Unit {0})
  pub basic_consume : String → Exec C (Unit {0})
  pub stopped : Exec C (Unit {0})
  pub is_open : C → Bool
  pub close : Exec C (Unit {0})

-- A delivery, with what its handling draws.
pub record Delivery : Type 0 where
  pub tag : String
  pub body : String
  pub first : Draw
  pub second : Draw

module _ (show : Json → String) (loads : String → Result Json) {C H : Type 0} (client : Client C)
    (handler : Draw → Draw → Dict Json → Exec H String) where
  -- `for routing_key in routing_keys: queue_bind(...)`
  unfoldable pub bind_all : String → String → List String → Exec C (Unit {0})
  bind_all exchange queue [] = pure tt
  bind_all exchange queue (k ∷ ks) = do
    client.queue_bind exchange queue k
    bind_all exchange queue ks

  -- `RabbitMqBlockingEventWorker.__init__`
  unfoldable pub build_worker : WorkerConfig → Exec C (Unit {0})
  unfolding bind_all
  build_worker cfg = do
    client.connect cfg.url
    client.exchange_declare cfg.exchange
    client.queue_declare cfg.queue
    bind_all cfg.exchange cfg.queue cfg.routing_keys

  -- One call of the callback.
  abbrev pub deliver : Delivery → Exec (Site C H) (Unit {0})
  deliver d = handle_delivery show loads client.channel (handler d.first d.second) d.tag d.body

  -- `start_consuming` as the calls of the callback that it makes, up to one that raises.
  unfoldable pub consume : List Delivery → Exec (Site C H) (Unit {0})
  consume [] = on_channel client.stopped
  consume (d ∷ ds) = do deliver d; consume ds

  -- `RabbitMqBlockingEventWorker.start`
  unfoldable pub start : String → List Delivery → Exec (Site C H) (Unit {0})
  unfolding consume
  start queue ds = do
    on_channel (client.basic_qos 1)
    on_channel (client.basic_consume queue)
    consume ds

  -- `RabbitMqBlockingEventWorker.close`
  unfoldable pub close : Exec (Site C H) (Unit {0})
  close w = if client.is_open w.channel then on_channel client.close w else (ok tt, w)

  -- `main`, from `build_event_worker` on
  unfoldable pub main : WorkerConfig → List Delivery → Exec (Site C H) (Unit {0})
  unfolding build_worker start close
  main cfg ds = do on_channel (build_worker cfg); finally (start cfg.queue ds) close
