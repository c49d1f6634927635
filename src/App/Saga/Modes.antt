-- ===== src/App/Saga/Modes.antt =====
-- `HandleSagaEventUseCase.execute` of src/application/use_cases.py over two repositories that hold the
-- same orders.
use service_order_os_service.Prelude.{
  true, Option, none, some, String, arith, ◌≡◌, refl, ap, sym, ◌∙◌, ◌==◌, if◌then◌else◌,
}
use service_order_os_service.Exec.{Result, ok, err, is_ok}
use service_order_os_service.Json.{Json}
use service_order_os_service.Domain.Event.{DomainEvent}
use service_order_os_service.Domain.Order.Base.{ServiceOrder, Draw}
use service_order_os_service.App.Ports.{OrderPort, PublisherPort, World}
use service_order_os_service.App.Saga.Base.{apply, order_id_of, conclude, execute}
use service_order_os_service.App.Saga.Laws.{apply-Safe}
use service_order_os_service.App.Saga.Execute.{
  IsSound, execute_found, execute_missing, execute_atomic,
}

module _ {S P : Type 0} (port : OrderPort S) (publisher : PublisherPort P) where
  -- Every save returns.
  abbrev pub Saves : Type 0
  Saves = (o : ServiceOrder) (s : S) → is_ok (port.save o s).0 ≡ true

  -- What publishing makes of an order that was saved.
  abbrev published : ServiceOrder → Option DomainEvent → P → Result ServiceOrder × P
  published o none p = (ok o, p)
  published o (some ev) p =
      let (r, p') = publisher.publish ev p in (elim r [ ok u ↦ ok o | err x ↦ err x ], p')

  abbrev Concluded : ServiceOrder → Option DomainEvent → World S P → Type 0
  Concluded o f w =
      let (r, u) = conclude port publisher o (ok f) w in
      (r ≡ (published o f w.events).0)
      × (u.events ≡ (published o f w.events).1)
      × (u.orders ≡ (port.save o w.orders).1)

  concluded : (o : ServiceOrder) (f : Option DomainEvent) (w : World S P) → Saves → Concluded o f w
  unfolding conclude
  concluded o none w saves = ground (arith, saves o w.orders)
  concluded o (some ev) w saves = ground (arith, saves o w.orders)

  pub get_saved :
      (o : ServiceOrder) (j : String) (s : S)
      → Saves
      → port.get j (port.save o s).1 ≡ (if o.service_order_id == j then ok o else port.get j s)
  get_saved o j s saves = go (port.save o s) refl (saves o s)
    where
      go :
          (x : Result (Unit {0}) × S)
          → port.save o s ≡ x
          → is_ok (port.save o s).0 ≡ true
          → port.get j (port.save o s).1 ≡ (if o.service_order_id == j then ok o else port.get j s)
      go (ok u, t) e h = rw e (port.get-save o j s t e)
      go (err x, t) e h = absurd (ground (arith, e, h))

  -- What `get` gives once the object that it returned was changed and saved.
  settled :
      (k j : String) (o o' : ServiceOrder) (s : S)
      → Saves
      → port.get k s ≡ ok o
      → o'.service_order_id ≡ k
      → port.get j (port.save o' (port.written k o' s)).1 ≡ (if k == j then ok o' else port.get j s)
  settled k j o o' s saves g same =
      ground
        (arith, get_saved o' j (port.written k o' s) saves, same, port.get-written k j o' o s g)

  module _ (show : Json → String) (e : DomainEvent) (d d' : Draw) (w : World S P) (o : ServiceOrder)
      (f : Option DomainEvent) where
    -- The call returned or raised as publishing does, and saved the changed order only.
    pub record Settled (r : Result ServiceOrder) (u : World S P) : Type 0 where
      pub answer : r ≡ (published (apply show e d d' o).1 f w.events).0
      pub events : u.events ≡ (published (apply show e d d' o).1 f w.events).1
      pub orders :
          (j : String)
          → port.get j u.orders
            ≡ (if order_id_of show e == j then ok (apply show e d d' o).1 else port.get j w.orders)

    execute-Settled :
        Saves
        → IsSound port w.orders
        → port.get (order_id_of show e) w.orders ≡ ok o
        → (apply show e d d' o).0 ≡ ok f
        → Settled (execute port publisher show e d d' w).0 (execute port publisher show e d d' w).1
    execute-Settled saves sound g r =
        let o' = (apply show e d d' o).1 in
        let u = record w { orders = port.written (order_id_of show e) o' w.orders } in
        let same_id = ((apply-Safe show e d d').keeps o).0 ∙ sound.keyed (order_id_of show e) o g in
        let (answer, events, saved) = concluded o' f u saves in
        rw (execute_found port publisher show e d d' w o g, r)
          record {
            answer = answer;
            events = events;
            orders = λ j.
                ap (λ s. port.get j s) saved
                ∙ settled (order_id_of show e) j o o' w.orders saves g same_id;
          }

module _ {S T P : Type 0} (p : OrderPort S) (q : OrderPort T) (publisher : PublisherPort P)
    (show : Json → String) where
  -- The two worlds hold the same orders, and have published the same.
  pub record Alike (w : World S P) (v : World T P) : Type 0 where
    pub orders : (j : String) → p.get j w.orders ≡ q.get j v.orders
    pub events : w.events ≡ v.events

  -- The two calls returned or raised the same, and left worlds that are alike.
  abbrev pub AgreeOn : Result ServiceOrder × World S P → Result ServiceOrder × World T P → Type 0
  AgreeOn (r, w) (r', v) = (r ≡ r') × Alike w v

  Alike-IsSound :
      (w : World S P) (v : World T P) → IsSound p w.orders → Alike w v → IsSound q v.orders
  Alike-IsSound w v sound alike = record {
    traced = λ j o g. sound.traced j o (alike.orders j ∙ g);
    keyed = λ j o g. sound.keyed j o (alike.orders j ∙ g);
  }

  module _ (e : DomainEvent) (d d' : Draw) (w : World S P) (v : World T P) where
    pub execute_agrees :
        Saves p publisher
        → Saves q publisher
        → IsSound p w.orders
        → Alike w v
        → AgreeOn (execute p publisher show e d d' w) (execute q publisher show e d d' v)
    execute_agrees ps qs sound alike = go (p.get (order_id_of show e) w.orders) refl
      where
        found :
            (o : ServiceOrder) (r : Result (Option DomainEvent))
            → p.get (order_id_of show e) w.orders ≡ ok o
            → q.get (order_id_of show e) v.orders ≡ ok o
            → (apply show e d d' o).0 ≡ r
            → AgreeOn (execute p publisher show e d d' w) (execute q publisher show e d d' v)
        found o (err x) g h r =
            rw
              (
                execute_atomic p publisher show e d d' w o x g r,
                execute_atomic q publisher show e d d' v o x h r,
              )
              (refl, alike)
        found o (ok f) g h r =
            let a = execute-Settled p publisher show e d d' w o f ps sound g r in
            let b =
              execute-Settled q publisher show e d d' v o f qs (Alike-IsSound w v sound alike) h
                r in
            (
              cc (a.answer, b.answer, alike.events),
              record {
                orders = λ j.
                    a.orders j
                    ∙ ap
                        (λ (x : Result ServiceOrder).
                          if order_id_of show e == j then ok (apply show e d d' o).1 else x)
                        (alike.orders j)
                    ∙ sym (b.orders j);
                events = cc (a.events, b.events, alike.events);
              },
            )

        go :
            (r : Result ServiceOrder)
            → p.get (order_id_of show e) w.orders ≡ r
            → AgreeOn (execute p publisher show e d d' w) (execute q publisher show e d d' v)
        go (err x) g =
            rw
              (
                execute_missing p publisher show e d d' w x g,
                execute_missing q publisher show e d d' v x
                    (sym (alike.orders (order_id_of show e)) ∙ g),
              )
              (refl, alike)
        go (ok o) g =
            found o (apply show e d d' o).0 g (sym (alike.orders (order_id_of show e)) ∙ g) refl
