-- ===== src/Messaging/Process/Laws.antt =====
-- Deliveries at the worker of src/worker.py, whose handler is `ServiceOrderSagaEventHandler.handle`.
use service_order_os_service.Prelude.{
  true, false, String, List, [], ◌∷◌, arith, ◌≡◌, sym, subst, ap, ◌∙◌, if◌then◌else◌,
}
use service_order_os_service.Prelude.Dict.{Dict}
use service_order_os_service.Exec.{Exec, Result, ok, err, is_ok, after, ◌>>=◌, bind_returned}
use service_order_os_service.Json.{Json}
use service_order_os_service.Domain.Order.Base.{Draw}
use service_order_os_service.App.Ports.{OrderPort, PublisherPort}
use service_order_os_service.App.EventHandler.{ProcessedPort, HandlerState, Readers, handle}
use service_order_os_service.App.EventHandler.Ledger.{
  IsMarked, handle_keeps, handled-IsMarked, marked_skips,
}
use service_order_os_service.Config.Runtime.{WorkerConfig}
use service_order_os_service.Messaging.Worker.{Site, read_message, handle_delivery}
use service_order_os_service.Messaging.Worker.Laws.{read_outcome, delivery_settled}
use service_order_os_service.Messaging.Process.{
  Client, Delivery, deliver, consume, start, close, build_worker, main,
}

module _ (loads : String → Result Json) {S P R C : Type 0} (client : Client C) (py : Readers)
    (port : OrderPort S) (publisher : PublisherPort P) (ledger : ProcessedPort R) where
  abbrev handler : Draw → Draw → Dict Json → Exec (HandlerState S P R) String
  handler d d' m = handle py port publisher ledger m d d'

  -- What reading and handling a delivery's message does to the handler's state.
  abbrev pub handled : Delivery → Exec (HandlerState S P R) String
  handled a = read_message py.show loads a.body >>= handler a.first a.second

  delivery_handler :
      (a : Delivery) (w : Site C (HandlerState S P R))
      → (deliver py.show loads client handler a w).1.handler ≡ (handled a w.handler).1
  unfolding handle_delivery
  delivery_handler a w =
      rw (read_outcome py.show loads a.body w, read_outcome py.show loads a.body w.handler)
        (ground arith)

  delivery_keeps :
      (j : String) (a : Delivery) (w : Site C (HandlerState S P R))
      → ledger.is_processed j w.handler.processed ≡ ok true
      → ledger.is_processed j (deliver py.show loads client handler a w).1.handler.processed
        ≡ ok true
  delivery_keeps j a w h = rw (delivery_handler a w) (
      rw (read_outcome py.show loads a.body w.handler)
        (go (read_message py.show loads {S = Unit {0}} a.body tt).0))
    where
      go :
          (r : Result (Dict Json))
          → ledger.is_processed j (after r (handler a.first a.second) w.handler).1.processed
            ≡ ok true
      go (ok m) = handle_keeps py port publisher ledger j m a.first a.second w.handler h
      go (err x) = h

  consume_keeps :
      (j : String) (ds : List Delivery) (w : Site C (HandlerState S P R))
      → ledger.is_processed j w.handler.processed ≡ ok true
      → ledger.is_processed j (consume py.show loads client handler ds w).1.handler.processed
        ≡ ok true
  unfolding consume
  consume_keeps j [] w h = ground (arith, h)
  consume_keeps j (a ∷ ds) w h = ground (
    arith,
    delivery_keeps j a w h,
    consume_keeps j ds (deliver py.show loads client handler a w).1,
  )

  module _ (a : Delivery) (ds : List Delivery) (w : Site C (HandlerState S P R)) where
    -- The worker after a delivery and those that follow it.
    abbrev pub later : Site C (HandlerState S P R)
    later = (consume py.show loads client handler ds (deliver py.show loads client handler a w).1).1

    read_again :
        (h : HandlerState S P R) (r : String)
        → handled a w.handler ≡ (ok r, h)
        → (m : Dict Json) × ((read_message py.show loads {S = Unit {0}} a.body tt).0 ≡ ok m)
          × IsMarked py port publisher ledger m later.handler.processed
    read_again h r e =
        let (m, k, read, handles) =
          bind_returned (read_message py.show loads a.body) (handler a.first a.second) r w.handler h
            e in
        let first = handled-IsMarked py port publisher ledger m a.first a.second k h r handles in
        let left : (deliver py.show loads client handler a w).1.handler ≡ h =
          delivery_handler a w ∙ ap (λ (x : Result String × HandlerState S P R). x.1) e in
        (
          m,
          ap (λ (x : Result (Dict Json) × HandlerState S P R). x.0)
              (sym (read_outcome py.show loads a.body w.handler) ∙ read),
          record {
            id = first.id;
            event_type = first.event_type;
            correlation_id = first.correlation_id;
            has_id = first.has_id;
            has_type = first.has_type;
            has_correlation = first.has_correlation;
            processed =
                consume_keeps (py.show first.id) ds (deliver py.show loads client handler a w).1 (
                  subst (λ z. ledger.is_processed (py.show first.id) z.processed ≡ ok true)
                    (sym left) first.processed);
          },
        )

    skipped :
        (b : Delivery) (h : HandlerState S P R) (r : String)
        → b.body ≡ a.body
        → handled a w.handler ≡ (ok r, h)
        → handled b later.handler ≡ (ok "skipped", later.handler)
    skipped b h r same e =
        let (m, read, marked) = read_again h r e in
        rw (same, read_outcome py.show loads a.body later.handler, read)
          (marked_skips py port publisher ledger m b.first b.second later.handler marked)

    -- A message that was handled changes nothing when it is delivered again, whatever was delivered in
    -- between, and under whatever tag: the delivery is acknowledged, where acks return, and orders,
    -- publisher and ledger stay.
    pub redelivered :
        (b : Delivery) (h : HandlerState S P R) (r : String)
        → ((c : C) → is_ok (client.channel.basic_ack b.tag c).0 ≡ true)
        → b.body ≡ a.body
        → handled a w.handler ≡ (ok r, h)
        → (deliver py.show loads client handler b later).1 ≡ record {
          channel = (client.channel.basic_ack b.tag later.channel).1;
          handler = later.handler;
        }
    redelivered b h r acks same e =
        delivery_settled py.show loads client.channel (handler b.first b.second) b.tag b.body later
          acks
        ∙ ap
            (λ (x : Result String × HandlerState S P R). record {
              channel =
                  (if is_ok x.0
                    then (client.channel.basic_ack b.tag later.channel).1
                    else (client.channel.basic_nack b.tag false later.channel).1);
              handler = x.1;
            })
            (skipped b h r same e)

-- A worker that was set up leaves no open connection behind, whether it returns or raises, also where a
-- delivery does: where closing a connection, also when that raises, leaves it closed.
pub main_closes :
    (show : Json → String) (loads : String → Result Json) {C H : Type 0} (client : Client C)
    (handler : Draw → Draw → Dict Json → Exec H String) (cfg : WorkerConfig) (ds : List Delivery)
    (w : Site C H)
    → is_ok (build_worker show loads client handler cfg w.channel).0 ≡ true
    → ((c : C) → client.is_open (client.close c).1 ≡ false)
    → client.is_open (main show loads client handler cfg ds w).1.channel ≡ false
unfolding main close
main_closes show loads client handler cfg ds w built closes =
    let c = (build_worker show loads client handler cfg w.channel).1 in
    ground (
      arith,
      built,
      closes (start show loads client handler cfg.queue ds (record w { channel = c })).1.channel,
    )
