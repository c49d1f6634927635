-- ===== src/App/EventHandler/Once.antt =====
-- `ServiceOrderSagaEventHandler.handle` of src/application/event_handlers.py and its ledger.
use service_order_os_service.Prelude.{
  true, String, arith, ◌≡◌, ◌∙◌, eq_refl, Option-cases, inl, inr,
}
use service_order_os_service.Prelude.Dict.{Dict, lookup}
use service_order_os_service.Exec.{ok, err, Exn}
use service_order_os_service.Json.{Json}
use service_order_os_service.Domain.Order.Base.{Draw}
use service_order_os_service.App.Ports.{OrderPort, PublisherPort}
use service_order_os_service.App.EventHandler.{
  ProcessedPort, HandlerState, Readers, handle_new, handle,
}

module _ {S P R : Type 0} (py : Readers) (port : OrderPort S) (publisher : PublisherPort P)
    (ledger : ProcessedPort R) where
  -- `mark_processed` returned, so the event is marked.
  marked :
      (i t c : String) (r : R)
      → (ledger.mark_processed i t c r).0 ≡ ok tt
      → ledger.is_processed i (ledger.mark_processed i t c r).1 ≡ ok true
  marked i t c r h =
      ledger.processed-mark i t c i r (ledger.mark_processed i t c r).1 (ground arith)
      ∙ rw (eq_refl i)

  pub handle_new-marks :
      (m : Dict Json) (i t c : String) (d d' : Draw) (h : HandlerState S P R) (r : String)
      → (handle_new py port publisher ledger m i t c d d' h).0 ≡ ok r
      → ledger.is_processed i (handle_new py port publisher ledger m i t c d d' h).1.processed
        ≡ ok true
  unfolding handle_new
  handle_new-marks m i t c d d' h r e = ground (arith, marked i t c h.processed)

  unmarked :
      (i t c : String) (r : R) (x : Exn)
      → (ledger.mark_processed i t c r).0 ≡ err x
      → (ledger.mark_processed i t c r).1 ≡ r
  unmarked i t c r x h =
      ledger.mark_atomic i t c x r (ledger.mark_processed i t c r).1 (ground arith)

  handle_new-leaves :
      (m : Dict Json) (i t c : String) (d d' : Draw) (h : HandlerState S P R) (x : Exn)
      → (handle_new py port publisher ledger m i t c d d' h).0 ≡ err x
      → (handle_new py port publisher ledger m i t c d d' h).1.processed ≡ h.processed
  unfolding handle_new
  handle_new-leaves m i t c d d' h x e = ground (arith, unmarked i t c h.processed x)

  -- A message that was handled, now or before, is skipped when it comes again, whatever is drawn then:
  -- the second call returns "skipped" and changes neither orders, publisher nor ledger.
  pub handle_once :
      (m : Dict Json) (d d' f f' : Draw) (h h' : HandlerState S P R) (r : String)
      → handle py port publisher ledger m d d' h ≡ (ok r, h')
      → handle py port publisher ledger m f f' h' ≡ (ok "skipped", h')
  unfolding handle
  handle_once m d d' f f' h h' r e = elim (Option-cases (lookup "event_id" m)) [
    | inl absent ↦ ground arith
    | inr (v, there) ↦ elim (Option-cases (lookup "event_type" m)) [
      | inl absent ↦ ground arith
      | inr (t, has_type) ↦ elim (Option-cases (lookup "correlation_id" m)) [
        | inl absent ↦ ground arith
        | inr (c, has_id) ↦
            ground (arith, handle_new-marks m (py.show v) (py.show t) (py.show c) d d' h r)
      ]
    ]
  ]

  -- A message that raises marks nothing: the ledger is as it was.
  pub handle_failed :
      (m : Dict Json) (d d' : Draw) (h : HandlerState S P R) (x : Exn)
      → (handle py port publisher ledger m d d' h).0 ≡ err x
      → (handle py port publisher ledger m d d' h).1.processed ≡ h.processed
  unfolding handle
  handle_failed m d d' h x e = elim (Option-cases (lookup "event_id" m)) [
    | inl absent ↦ ground arith
    | inr (v, there) ↦ elim (Option-cases (lookup "event_type" m)) [
      | inl absent ↦ ground arith
      | inr (t, has_type) ↦ elim (Option-cases (lookup "correlation_id" m)) [
        | inl absent ↦ ground arith
        | inr (c, has_id) ↦
            ground (arith, handle_new-leaves m (py.show v) (py.show t) (py.show c) d d' h x)
      ]
    ]
  ]
