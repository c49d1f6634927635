-- ===== src/Messaging/Worker/Laws.antt =====
-- `_handle_delivery` of src/infrastructure/messaging/rabbitmq_blocking_worker.py.
use service_order_os_service.Prelude.{true, false, String, ◌≡◌, arith, if◌then◌else◌}
use service_order_os_service.Prelude.Dict.{Dict}
use service_order_os_service.Exec.{Exec, Result, is_ok, ◌>>=◌}
use service_order_os_service.Json.{Json}
use service_order_os_service.Messaging.Worker.{Channel, Site, read_message, handle_delivery}

module _ (show : Json → String) (loads : String → Result Json) where
  -- Reading a body changes nothing: its outcome is the same at every state.
  pub read_outcome :
      {S : Type 0} (body : String) (s : S)
      → read_message show loads body s ≡ ((read_message show loads {S = Unit {0}} body tt).0, s)
  unfolding read_message
  read_outcome body s = ground arith

  module _ {C H : Type 0} (channel : Channel C) (handler : Dict Json → Exec H String)
      (tag body : String) where
    -- Where the channel's acks return, a delivery whose message is read and handled is acknowledged
    -- once, and any other is rejected once, without a requeue. The handler's state is what reading and
    -- handling the message leaves, also where they raise.
    pub delivery_settled :
        (w : Site C H)
        → ((c : C) → is_ok (channel.basic_ack tag c).0 ≡ true)
        → (handle_delivery show loads channel handler tag body w).1 ≡ (record {
          channel =
              (if is_ok ((read_message show loads body >>= handler) w.handler).0
                then (channel.basic_ack tag w.channel).1
                else (channel.basic_nack tag false w.channel).1);
          handler = ((read_message show loads body >>= handler) w.handler).1;
        })
    unfolding handle_delivery
    delivery_settled w acks =
        rw (read_outcome body w, read_outcome body w.handler) (ground (arith, acks w.channel))
