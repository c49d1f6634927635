-- ===== src/App/System/Modes.antt =====
-- Requests that open orders and saga events, over two repositories that hold the same orders.
use service_order_os_service.Prelude.{Option, none, some, String, List, [], ◌∷◌, arith, ◌≡◌, refl}
use service_order_os_service.Exec.{Result}
use service_order_os_service.Json.{Json}
use service_order_os_service.Domain.Event.{DomainEvent}
use service_order_os_service.Domain.Order.Base.{ServiceOrder, Draw, open_order, request_quote}
use service_order_os_service.Domain.Party.{Customer, Vehicle}
use service_order_os_service.App.Ports.{OrderPort, PublisherPort, World}
use service_order_os_service.App.Saga.Base
use service_order_os_service.App.Saga.Execute
use service_order_os_service.App.Saga.Execute.{IsSound}
use service_order_os_service.App.Saga.Modes.{Saves, Alike, AgreeOn, get_saved, execute_agrees}
use service_order_os_service.App.Opening
use service_order_os_service.App.Opening.{
  OpenServiceOrderCommand, OpenDraw, Registry, ensure_valid, quoted,
}
use service_order_os_service.App.Opening.Laws
use service_order_os_service.App.Opening.Laws.{opened_order, has_blank, execute_orders}

module _ {S : Type 0} (cmd : OpenServiceOrderCommand) (s : S) where
  -- Whether the customer and the vehicle are valid does not depend on the state.
  ensured :
      (cs : Option (String → Result Customer)) (vs : Option (String → Result Vehicle))
      → ensure_valid cs vs cmd.customer_id cmd.vehicle_id s
        ≡ ((ensure_valid {S = Unit {0}} cs vs cmd.customer_id cmd.vehicle_id tt).0, s)
  unfolding ensure_valid
  ensured none vs = refl
  ensured (some f) none = refl
  ensured (some f) (some g) = ground arith

module _ {S T P : Type 0} (p : OrderPort S) (q : OrderPort T) (publisher : PublisherPort P)
    (show : Json → String) (registry : Registry) (cmd : OpenServiceOrderCommand) (d : OpenDraw)
    (w : World S P) (v : World T P) where
  opening_answers :
      Saves p publisher
      → Saves q publisher
      → w.events ≡ v.events
      → ((Opening.execute p publisher registry cmd d w).0
          ≡ (Opening.execute q publisher registry cmd d v).0)
        × ((Opening.execute p publisher registry cmd d w).1.events
            ≡ (Opening.execute q publisher registry cmd d v).1.events)
  unfolding Opening.execute open_order request_quote quoted
  opening_answers ps qs same =
      rw
        (
          ensured cmd w registry.customers registry.vehicles,
          ensured cmd v registry.customers registry.vehicles,
        )
        (ground (arith, ps (opened_order cmd d) w.orders, qs (opened_order cmd d) v.orders, same))

  opening_orders :
      Saves p publisher
      → Saves q publisher
      → ((j : String) → p.get j w.orders ≡ q.get j v.orders)
      → (j : String)
      → p.get j (Opening.execute p publisher registry cmd d w).1.orders
        ≡ q.get j (Opening.execute q publisher registry cmd d v).1.orders
  opening_orders ps qs same j =
      rw
        (
          execute_orders p publisher registry cmd d w,
          execute_orders q publisher registry cmd d v,
          ensured cmd w registry.customers registry.vehicles,
          ensured cmd v registry.customers registry.vehicles,
        )
        (ground (
          arith,
          get_saved p publisher (opened_order cmd d) j w.orders ps,
          get_saved q publisher (opened_order cmd d) j v.orders qs,
          same j,
        ))

-- What a client or another service asks for, with what its handling draws.
pub data Request : Type 0 where
  opens : Registry → OpenServiceOrderCommand → OpenDraw → Request
  handles : DomainEvent → Draw → Draw → Request

module _ {S P : Type 0} (port : OrderPort S) (publisher : PublisherPort P)
    (show : Json → String) where
  unfoldable pub run : Request → World S P → Result ServiceOrder × World S P
  run (opens registry cmd d) w = Opening.execute port publisher registry cmd d w
  run (handles e d d') w = Base.execute port publisher show e d d' w

  -- The answers to some requests, and the world after them.
  unfoldable pub answers : List Request → World S P → List (Result ServiceOrder) × World S P
  unfolding run
  answers [] w = ([], w)
  answers (a ∷ rs) w = let (r, u) = run a w in let (rest, z) = answers rs u in (r ∷ rest, z)

  run-IsSound :
      (a : Request) (w : World S P) → IsSound port w.orders → IsSound port (run a w).1.orders
  unfolding run
  run-IsSound (opens registry cmd d) w sound =
      Laws.execute-IsSound port publisher registry cmd d w sound
  run-IsSound (handles e d d') w sound = Execute.execute-IsSound port publisher show e d d' w sound

module _ {S T P : Type 0} (p : OrderPort S) (q : OrderPort T) (publisher : PublisherPort P)
    (show : Json → String) where
  run_agrees :
      (a : Request) (w : World S P) (v : World T P)
      → Saves p publisher
      → Saves q publisher
      → IsSound p w.orders
      → Alike p q publisher show w v
      → AgreeOn p q publisher show (run p publisher show a w) (run q publisher show a v)
  unfolding run
  run_agrees (opens registry cmd d) w v ps qs sound alike =
      let (answer, events) =
        opening_answers p q publisher show registry cmd d w v ps qs alike.events in
      (
        answer,
        record {
          orders = opening_orders p q publisher show registry cmd d w v ps qs alike.orders;
          events = events;
        },
      )
  run_agrees (handles e d d') w v ps qs sound alike =
      execute_agrees p q publisher show e d d' w v ps qs sound alike

  -- Two repositories that hold the same orders, and whose saves return, are told apart by no sequence
  -- of requests and saga events, where the first is sound, that is, gives every order under its own
  -- identifier and with a traced history: each request and event is answered the same, refusals and
  -- failing publishing included, and the orders and the published events are the same after them.
  pub answers_agree :
      (rs : List Request) (w : World S P) (v : World T P)
      → Saves p publisher
      → Saves q publisher
      → IsSound p w.orders
      → Alike p q publisher show w v
      → ((answers p publisher show rs w).0 ≡ (answers q publisher show rs v).0)
        × Alike p q publisher show
            (answers p publisher show rs w).1
            (answers q publisher show rs v).1
  unfolding answers
  answers_agree [] w v ps qs sound alike = (refl, alike)
  answers_agree (a ∷ rs) w v ps qs sound alike =
      let (same, alike') = run_agrees a w v ps qs sound alike in
      let (rest, end) =
        answers_agree rs _ _ ps qs (run-IsSound p publisher show a w sound) alike' in
      (cc (same, rest), end)
