-- ===== src/App/Saga/Execute.antt =====
-- `HandleSagaEventUseCase.execute` over any repository and any publisher.
use service_order_os_service.Prelude.{
  ap, false, Option, none, some, String, arith, ◌≡◌, refl, ◌∙◌, sym, subst, ◌==◌, eq_iff,
}
use service_order_os_service.Exec.{Result, ok, err, Exn}
use service_order_os_service.Json.{Json}
use service_order_os_service.Domain.Event.{DomainEvent}
use service_order_os_service.Domain.Order.Base.{ServiceOrder, Draw}
use service_order_os_service.Domain.Order.Safe.{SameOrder, IsTraced}
use service_order_os_service.App.Ports.{OrderPort, PublisherPort, World}
use service_order_os_service.App.Saga.Base.{apply, order_id_of, conclude, execute}
use service_order_os_service.App.Saga.Laws.{apply_atomic, apply-Safe}

-- Each order that the repository gives has a trace and is stored under its own identifier.
pub record IsSound {S : Type 0} (port : OrderPort S) (s : S) : Type 0 where
  pub traced : (j : String) (o : ServiceOrder) → port.get j s ≡ ok o → IsTraced o
  pub keyed : (j : String) (o : ServiceOrder) → port.get j s ≡ ok o → o.service_order_id ≡ j

module _ {S : Type 0} (port : OrderPort S) where
  -- Saving keeps a repository sound, whether it returns or raises.
  pub save-IsSound :
      (o : ServiceOrder) (s : S)
      → IsTraced o
      → IsSound port s
      → (r : Result (Unit {0})) (t : S) → port.save o s ≡ (r, t)
      → IsSound port t
  save-IsSound o s h v (ok u) t e = record {
    traced = λ j p g. ground (arith, port.get-save o j s t e, v.traced j p);
    keyed =
        λ j p g. ground (arith, port.get-save o j s t e, v.keyed j p, eq_iff o.service_order_id j);
  }
  save-IsSound o s h v (err x) t e =
      subst (λ q. IsSound port q) (sym (port.save_atomic o x s t e)) v

  pub written-IsSound :
      (k : String) (o o' : ServiceOrder) (s : S)
      → port.get k s ≡ ok o
      → SameOrder o o'
      → IsTraced o'
      → IsSound port s
      → IsSound port (port.written k o' s)
  written-IsSound k o o' s g same h v = record {
    traced = λ j p q. ground (
      arith,
      port.get-written k j o' o s,
      port.get-written_self k o' o s,
      v.traced j p,
      eq_iff k j,
    );
    keyed = λ j p q. ground (
      arith,
      port.get-written k j o' o s,
      port.get-written_self k o' o s,
      v.keyed j p,
      v.keyed k o,
      eq_iff k j,
    );
  }

module _ {S P : Type 0} (port : OrderPort S) (publisher : PublisherPort P) where
  -- Publishing leaves the repository alone.
  conclude-orders :
      (o : ServiceOrder) (following : Option DomainEvent) (w : World S P)
      → (conclude port publisher o (ok following) w).1.orders ≡ (port.save o w.orders).1
  unfolding conclude
  conclude-orders o none w = ground arith
  conclude-orders o (some e) w = ground arith

  conclude-IsSound :
      (o : ServiceOrder) (r : Result (Option DomainEvent)) (w : World S P)
      → IsTraced o
      → IsSound port w.orders
      → IsSound port (conclude port publisher o r w).1.orders
  conclude-IsSound o (ok following) w h v =
      let (r, t) = port.save o w.orders in
      subst (λ q. IsSound port q) (sym (conclude-orders o following w))
        (save-IsSound port o w.orders h v r t refl)
  conclude-IsSound o (err x) w h v = unfold conclude in v

  conclude-err :
      (o : ServiceOrder) (x : Exn) (w : World S P)
      → conclude port publisher o (err x) w ≡ (err x, w)
  unfolding conclude
  conclude-err o x w = refl

  module _ (show : Json → String) (e : DomainEvent) (d d' : Draw) where
    pub execute_missing :
        (w : World S P) (x : Exn)
        → port.get (order_id_of show e) w.orders ≡ err x
        → execute port publisher show e d d' w ≡ (err x, w)
    unfolding execute
    execute_missing w x g = rw (g, execute)

    pub execute_found :
        (w : World S P) (o : ServiceOrder)
        → port.get (order_id_of show e) w.orders ≡ ok o
        → execute port publisher show e d d' w
          ≡ conclude port publisher (apply show e d d' o).1 (apply show e d d' o).0 (record w {
            orders = port.written (order_id_of show e) (apply show e d d' o).1 w.orders;
          })
    unfolding execute
    execute_found w o g = rw (g, execute)

    pub execute-IsSound :
        (w : World S P)
        → IsSound port w.orders
        → IsSound port (execute port publisher show e d d' w).1.orders
    execute-IsSound w v = go (port.get (order_id_of show e) w.orders) refl
      where
        go :
            (r : Result ServiceOrder)
            → port.get (order_id_of show e) w.orders ≡ r
            → IsSound port (execute port publisher show e d d' w).1.orders
        go (err x) g = rw (execute_missing w x g) v
        go (ok o) g =
            let sf = apply-Safe show e d d' in
            rw (execute_found w o g) (
              conclude-IsSound (apply show e d d' o).1 (apply show e d d' o).0 _
                (sf.traces o (v.traced _ o g))
                (written-IsSound port _ o (apply show e d d' o).1 w.orders g (sf.keeps o)
                  (sf.traces o (v.traced _ o g)) v))

    pub execute_atomic :
        (w : World S P) (o : ServiceOrder) (x : Exn)
        → port.get (order_id_of show e) w.orders ≡ ok o
        → (apply show e d d' o).0 ≡ err x
        → execute port publisher show e d d' w ≡ (err x, w)
    execute_atomic w o x g h = simp (
      execute_found w o g,
      h,
      conclude-err,
      apply_atomic show e d d' o h,
      port.written_same _ o w.orders g,
    )

  -- Saving an order changes no other one, whether it returns or raises.
  save_others :
      (o : ServiceOrder) (j : String) (s : S)
      → (o.service_order_id == j) ≡ false
      → (r : Result (Unit {0})) (t : S) → port.save o s ≡ (r, t)
      → port.get j t ≡ port.get j s
  save_others o j s ne (ok u) t e = ground (arith, port.get-save o j s t e)
  save_others o j s ne (err x) t e = ap (λ q. port.get j q) (port.save_atomic o x s t e)

  conclude_others :
      (o : ServiceOrder) (r : Result (Option DomainEvent)) (w : World S P) (j : String)
      → (o.service_order_id == j) ≡ false
      → port.get j (conclude port publisher o r w).1.orders ≡ port.get j w.orders
  conclude_others o (ok following) w j ne =
      let (r, t) = port.save o w.orders in
      rw (conclude-orders o following w) (save_others o j w.orders ne r t refl)
  conclude_others o (err x) w j ne = rw (conclude-err o x w)

  module _ (show : Json → String) (e : DomainEvent) (d d' : Draw) where
    -- An event changes no order but the one that it names, however it ends.
    pub execute_others :
        (w : World S P) (j : String)
        → IsSound port w.orders
        → (order_id_of show e == j) ≡ false
        → port.get j (execute port publisher show e d d' w).1.orders ≡ port.get j w.orders
    execute_others w j v ne = go (port.get (order_id_of show e) w.orders) refl
      where
        go :
            (r : Result ServiceOrder)
            → port.get (order_id_of show e) w.orders ≡ r
            → port.get j (execute port publisher show e d d' w).1.orders ≡ port.get j w.orders
        go (err x) g = rw (execute_missing show e d d' w x g)
        go (ok o) g =
            let same_id = ((apply-Safe show e d d').keeps o).0 ∙ v.keyed _ o g in
            rw (execute_found show e d d' w o g) (
              conclude_others (apply show e d d' o).1 (apply show e d d' o).0 _ j (rw same_id ne)
              ∙ port.get-written _ j (apply show e d d' o).1 o w.orders g ne)
