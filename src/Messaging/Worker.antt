-- ===== src/Messaging/Worker.antt =====
-- src/infrastructure/messaging/rabbitmq_blocking_worker.py and rabbitmq_event_consumer.py. The
-- channel (pika) and `json.loads(body.decode("utf-8"))` are parameters.
pub mod Laws
use service_order_os_service.Prelude.{Bool, true, false, String, Option, none, some, List, [], ◌∷◌}
use service_order_os_service.Prelude.Dict.{Dict}
use service_order_os_service.Exec.{
  Exec, Result, ok, err, value_error, pure, raise, lift, gets, modify, rescue, ◌>>=◌, ◌>>◌,
}
use service_order_os_service.Json.{Json, obj, entries}
use service_order_os_service.Messaging.Contracts.{validate_event_message}

-- What a delivery's callback calls of its channel.
pub record Channel (C : Type 0) : Type 0 where
  pub basic_ack : String → Exec C (Unit {0})
  -- the second argument is `requeue`
  pub basic_nack : String → Bool → Exec C (Unit {0})

-- The channel's state, and that of the handler.
pub record Site (C H : Type 0) : Type 0 where
  pub channel : C
  pub handler : H

module _ {C H A : Type 0} where
  abbrev pub on_channel : Exec C A → Exec (Site C H) A
  on_channel m w = let (r, c) = m w.channel in (r, record w { channel = c })

  abbrev pub on_handler : Exec H A → Exec (Site C H) A
  on_handler m w = let (r, h) = m w.handler in (r, record w { handler = h })

module _ (show : Json → String) (loads : String → Result Json) where
  -- The message of a body: `json.loads`, the test on `dict`, and the contract.
  unfoldable pub as_message : Json → Result (Dict Json)
  as_message (obj fs) = ok (entries fs)
  as_message v = err (value_error "RabbitMQ message body must be an object")

  unfoldable pub read_message : {S : Type 0} → String → Exec S (Dict Json)
  unfolding as_message
  read_message body = do
    value ← lift (loads body)
    message ← lift (as_message value)
    lift (validate_event_message show message)
    pure message

  -- `RabbitMqBlockingEventWorker._handle_delivery`
  unfoldable pub handle_delivery :
      {C H : Type 0}
      → Channel C
      → (Dict Json → Exec H String)
      → String
      → String
      → Exec (Site C H) (Unit {0})
  unfolding read_message
  handle_delivery channel handler tag body =
      rescue
        (do
          message ← read_message body
          on_handler (handler message)
          on_channel (channel.basic_ack tag))
        (on_channel (channel.basic_nack tag false))

  -- `RabbitMqEventConsumer.handle_message`
  unfoldable pub handle_message :
      {H : Type 0} → Option (Dict Json → Exec H (Unit {0})) → String → Exec H (Dict Json)
  unfolding read_message
  handle_message none body = read_message body
  handle_message (some handler) body = do message ← read_message body; handler message; pure message
