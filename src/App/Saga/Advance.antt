-- ===== src/App/Saga/Advance.antt =====
-- `HandleSagaEventUseCase.execute` of src/application/use_cases.py against the description of the saga.
use service_order_os_service.Prelude.{
  ap, true, Option, none, some, String, arith, ◌≡◌, refl, ◌∙◌, subst, eq_refl,
}
use service_order_os_service.Exec.{Result, ok, err, is_ok, is_value_error}
use service_order_os_service.Json.{Json}
use service_order_os_service.Domain.Event.{DomainEvent}
use service_order_os_service.Domain.Order.Base.{Status, ServiceOrder, Draw}
use service_order_os_service.App.Ports.{OrderPort, PublisherPort, World}
use service_order_os_service.App.Saga.Base.{apply, order_id_of, conclude, execute}
use service_order_os_service.App.Saga.Spec.{Kind, kind_text, needed_key, carries, saga_next, Lands}
use service_order_os_service.App.Saga.Effect.{apply-Lands}
use service_order_os_service.App.Saga.Laws.{apply_emits, is_outgoing}
use service_order_os_service.App.Saga.Execute.{execute_found, execute_atomic}

module _ {S P : Type 0} (port : OrderPort S) (publisher : PublisherPort P) where
  -- The adapters return: every save does, and so does publishing an event that the saga publishes.
  pub record Responds : Type 0 where
    pub saves : (o : ServiceOrder) (s : S) → is_ok (port.save o s).0 ≡ true
    pub publishes :
        (ev : DomainEvent) (p : P)
        → is_outgoing ev.event_type ≡ true
        → is_ok (publisher.publish ev p).0 ≡ true

  -- The call returned the order, and the repository gives it.
  abbrev pub SavedAs : ServiceOrder → Result ServiceOrder × World S P → Type 0
  SavedAs o (r, w) = (r ≡ ok o) × (port.get o.service_order_id w.orders ≡ ok o)

  save_returns :
      (o : ServiceOrder) (s : S) (r : Result (Unit {0})) (t : S)
      → port.save o s ≡ (r, t)
      → is_ok r ≡ true
      → port.get o.service_order_id t ≡ ok o
  save_returns o s (ok u) t e h =
      port.get-save o o.service_order_id s t e ∙ rw (eq_refl o.service_order_id)
  save_returns o s (err x) t e h = cc

  conclude_returns :
      (o : ServiceOrder) (following : Option DomainEvent) (w : World S P)
      → Responds
      → ((ev : DomainEvent) → following ≡ some ev → is_outgoing ev.event_type ≡ true)
      → SavedAs o (conclude port publisher o (ok following) w)
  unfolding conclude
  conclude_returns o none w a h = ground (
    arith,
    a.saves o w.orders,
    save_returns o w.orders (port.save o w.orders).0 (port.save o w.orders).1 refl,
  )
  conclude_returns o (some ev) w a h = ground (
    arith,
    a.saves o w.orders,
    a.publishes ev w.events (h ev refl),
    save_returns o w.orders (port.save o w.orders).0 (port.save o w.orders).1 refl,
  )

  module _ (show : Json → String) (e : DomainEvent) (d d' : Draw) (w : World S P)
      (o : ServiceOrder) where
    finish_execute :
        (r : Result (Option DomainEvent))
        → (apply show e d d' o).0 ≡ r
        → is_ok r ≡ true
        → port.get (order_id_of show e) w.orders ≡ ok o
        → Responds
        → SavedAs (apply show e d d' o).1 (execute port publisher show e d d' w)
    finish_execute (ok following) h good g a = rw (execute_found port publisher show e d d' w o g) (
        rw h (
          conclude_returns (apply show e d d' o).1 following _ a
            (λ ev p. (apply_emits show e d d' o (h ∙ ap (λ (f : Option DomainEvent). ok f) p)).0)))
    finish_execute (err x) h good g a = cc

    pub execute_moves :
        (k : Kind) (target : Status)
        → e.event_type ≡ kind_text k
        → carries (needed_key k) e ≡ true
        → port.get (order_id_of show e) w.orders ≡ ok o
        → saga_next k o.status ≡ some target
        → Responds
        → ((apply show e d d' o).1.status ≡ target)
          × SavedAs (apply show e d d' o).1 (execute port publisher show e d d' w)
    execute_moves k target kind has g fits a =
        let lands =
          subst (λ n. Lands n o (apply show e d d' o)) fits
            (apply-Lands show k e d d' o kind has) in
        (lands.1, finish_execute (apply show e d d' o).0 refl lands.0 g a)

    -- An event of a handled kind, with the key that it needs, at an order whose status has a next one
    -- for it: `execute` returns the order with exactly that next status, and the repository then gives
    -- this order under its identifier.
    pub execute_advances :
        (k : Kind) (target : Status)
        → e.event_type ≡ kind_text k
        → carries (needed_key k) e ≡ true
        → port.get (order_id_of show e) w.orders ≡ ok o
        → saga_next k o.status ≡ some target
        → Responds
        → (o' : ServiceOrder) × ((execute port publisher show e d d' w).0 ≡ ok o')
          × (o'.status ≡ target)
          × (port.get o'.service_order_id (execute port publisher show e d d' w).1.orders ≡ ok o')
    execute_advances k target kind has g fits a =
        let (landed, saved) = execute_moves k target kind has g fits a in
        ((apply show e d d' o).1, saved.0, landed, saved.1)

    -- An event of a handled kind that does not fit the order's status: `execute` raises `ValueError`,
    -- and neither the repository nor the publisher changes.
    pub execute_refuses :
        (k : Kind)
        → e.event_type ≡ kind_text k
        → carries (needed_key k) e ≡ true
        → port.get (order_id_of show e) w.orders ≡ ok o
        → saga_next k o.status ≡ none
        → (is_value_error (execute port publisher show e d d' w).0 ≡ true)
          × ((execute port publisher show e d d' w).1 ≡ w)
    execute_refuses k kind has g fits =
        let lands =
          subst (λ n. Lands n o (apply show e d d' o)) fits
            (apply-Lands show k e d d' o kind has) in
        refused (apply show e d d' o).0 refl lands.0
      where
        refused :
            (r : Result (Option DomainEvent))
            → (apply show e d d' o).0 ≡ r
            → is_value_error r ≡ true
            → (is_value_error (execute port publisher show e d d' w).0 ≡ true)
              × ((execute port publisher show e d d' w).1 ≡ w)
        refused (ok f) h bad = cc
        refused (err x) h bad =
            rw (execute_atomic port publisher show e d d' w o x g h) (ground arith, refl)
