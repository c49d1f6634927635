-- ===== src/App/System.antt =====
-- The life of the repository of service orders: orders are opened and saga events arrive, in any order
-- and with any outcome.
pub mod Modes
use service_order_os_service.Prelude.{◌≤◌, ◌≡◌, String, length}
use service_order_os_service.Exec.{ok}
use service_order_os_service.Json.{Json}
use service_order_os_service.Domain.Event.{DomainEvent}
use service_order_os_service.Domain.Order.Base.{ServiceOrder, Draw}
use service_order_os_service.Domain.Order.History.{length-HasTrace}
use service_order_os_service.Domain.Order.Safe.{IsTraced}
use service_order_os_service.App.Ports.{OrderPort, PublisherPort, World}
use service_order_os_service.App.Saga.Base
use service_order_os_service.App.Saga.Execute.{IsSound, execute-IsSound}
use service_order_os_service.App.Opening
use service_order_os_service.App.Opening.{OpenServiceOrderCommand, OpenDraw, Registry}
use service_order_os_service.App.Opening.Laws

module _ {S P : Type 0} (port : OrderPort S) (publisher : PublisherPort P)
    (show : Json → String) where
  -- One request or message, whether it succeeds or fails.
  pub data Step (w u : World S P) : Type 0 where
    opens :
        (registry : Registry) (cmd : OpenServiceOrderCommand) (d : OpenDraw)
        → u ≡ (Opening.execute port publisher registry cmd d w).1
        → Step w u
    handles :
        (e : DomainEvent) (d d' : Draw)
        → u ≡ (Base.execute port publisher show e d d' w).1
        → Step w u

  pub data Reach (w : World S P) : World S P → Type 0 where
    here : Reach w w
    next : {u v : World S P} → Reach w u → Step u v → Reach w v

  Step-IsSound : (w u : World S P) → Step w u → IsSound port w.orders → IsSound port u.orders
  Step-IsSound w u (opens registry cmd d e) v =
      rw e (Laws.execute-IsSound port publisher registry cmd d w v)
  Step-IsSound w u (handles ev d d' e) v = rw e (execute-IsSound port publisher show ev d d' w v)

  pub Reach-IsSound : (w u : World S P) → Reach w u → IsSound port w.orders → IsSound port u.orders
  Reach-IsSound w u here v = v
  Reach-IsSound w u (next r st) v = Step-IsSound _ u st (Reach-IsSound w _ r v)

  -- Whatever is opened and whatever events arrive, in any order, failing or not: every order that the
  -- repository then gives is stored under its own identifier, and its history starts with the opening,
  -- goes only along the edges of the state machine, ends in the order's status, and has at most eight
  -- entries.
  pub Reach-history :
      (w u : World S P) (j : String) (o : ServiceOrder)
      → Reach w u
      → IsSound port w.orders
      → port.get j u.orders ≡ ok o
      → IsTraced o × (o.service_order_id ≡ j) × (length o.history ≤ 8)
  Reach-history w u j o r v g =
      let sound = Reach-IsSound w u r v in
      (
        sound.traced j o g,
        sound.keyed j o g,
        length-HasTrace o.history o.status (sound.traced j o g),
      )
