-- ===== src/App/EventHandler/Ledger.antt =====
-- The ledger of processed events along calls of `ServiceOrderSagaEventHandler.handle` of
-- src/application/event_handlers.py.
use service_order_os_service.Prelude.{true, String, some, arith, ◌≡◌, refl, Option-cases, inl, inr}
use service_order_os_service.Prelude.Dict.{Dict, lookup}
use service_order_os_service.Exec.{ok, err, Result}
use service_order_os_service.Json.{Json}
use service_order_os_service.Domain.Order.Base.{Draw}
use service_order_os_service.App.Ports.{OrderPort, PublisherPort}
use service_order_os_service.App.EventHandler.Once.{handle_new-marks}
use service_order_os_service.App.EventHandler.{
  ProcessedPort, HandlerState, Readers, handle_new, handle,
}

module _ {S P R : Type 0} (py : Readers) (port : OrderPort S) (publisher : PublisherPort P)
    (ledger : ProcessedPort R) (j : String) where
  -- Marking an event keeps the others marked.
  mark_keeps :
      (i t c : String) (r : R)
      → ledger.is_processed j r ≡ ok true
      → ledger.is_processed j (ledger.mark_processed i t c r).1 ≡ ok true
  mark_keeps i t c r h = go (ledger.mark_processed i t c r) refl
    where
      go :
          (x : Result (Unit {0}) × R)
          → ledger.mark_processed i t c r ≡ x
          → ledger.is_processed j (ledger.mark_processed i t c r).1 ≡ ok true
      go (ok u, r') e = ground (arith, e, ledger.processed-mark i t c j r r', h)
      go (err x, r') e = ground (arith, e, ledger.mark_atomic i t c x r r', h)

  handle_new-keeps :
      (m : Dict Json) (i t c : String) (d d' : Draw) (h : HandlerState S P R)
      → ledger.is_processed j h.processed ≡ ok true
      → ledger.is_processed j (handle_new py port publisher ledger m i t c d d' h).1.processed
        ≡ ok true
  unfolding handle_new
  handle_new-keeps m i t c d d' h e = ground (arith, mark_keeps i t c h.processed e)

  -- An event that is marked stays so, whatever message is handled, and whether that returns or raises.
  pub handle_keeps :
      (m : Dict Json) (d d' : Draw) (h : HandlerState S P R)
      → ledger.is_processed j h.processed ≡ ok true
      → ledger.is_processed j (handle py port publisher ledger m d d' h).1.processed ≡ ok true
  unfolding handle
  handle_keeps m d d' h e = elim (Option-cases (lookup "event_id" m)) [
    | inl absent ↦ ground arith
    | inr (v, there) ↦ elim (Option-cases (lookup "event_type" m)) [
      | inl absent ↦ ground arith
      | inr (t, has_type) ↦ elim (Option-cases (lookup "correlation_id" m)) [
        | inl absent ↦ ground arith
        | inr (c, has_id) ↦
            ground (arith, handle_new-keeps m (py.show v) (py.show t) (py.show c) d d' h e)
      ]
    ]
  ]

module _ {S P R : Type 0} (py : Readers) (port : OrderPort S) (publisher : PublisherPort P)
    (ledger : ProcessedPort R) where
  -- The message has the three fields that the handler reads first, and its event is marked.
  pub record IsMarked (m : Dict Json) (r : R) : Type 0 where
    pub id : Json
    pub event_type : Json
    pub correlation_id : Json
    pub has_id : lookup "event_id" m ≡ some id
    pub has_type : lookup "event_type" m ≡ some event_type
    pub has_correlation : lookup "correlation_id" m ≡ some correlation_id
    pub processed : ledger.is_processed (py.show id) r ≡ ok true

  pub handled-IsMarked :
      (m : Dict Json) (d d' : Draw) (h h' : HandlerState S P R) (r : String)
      → handle py port publisher ledger m d d' h ≡ (ok r, h')
      → IsMarked m h'.processed
  unfolding handle
  handled-IsMarked m d d' h h' r e = elim (Option-cases (lookup "event_id" m)) [
    | inl absent ↦ absurd (ground (arith, absent, e))
    | inr (v, there) ↦ elim (Option-cases (lookup "event_type" m)) [
      | inl absent ↦ absurd (ground (arith, there, absent, e))
      | inr (t, has_type) ↦ elim (Option-cases (lookup "correlation_id" m)) [
        | inl absent ↦ absurd (ground (arith, there, has_type, absent, e))
        | inr (c, has_id) ↦ record {
          id = v;
          event_type = t;
          correlation_id = c;
          has_id = there;
          has_type = has_type;
          has_correlation = has_id;
          processed = ground (
            arith,
            handle_new-marks py port publisher ledger m (py.show v) (py.show t) (py.show c) d d' h
                r,
          );
        }
      ]
    ]
  ]

  -- A message whose event is marked is skipped.
  pub marked_skips :
      (m : Dict Json) (d d' : Draw) (h : HandlerState S P R)
      → IsMarked m h.processed
      → handle py port publisher ledger m d d' h ≡ (ok "skipped", h)
  unfolding handle
  marked_skips m d d' h k = ground (arith, k.has_id, k.has_type, k.has_correlation, k.processed)
