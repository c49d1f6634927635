-- ===== src/Tests/Modes.antt =====
-- Two repositories side by side: one hands out the objects that it holds, the other copies of them.
use service_order_os_service.Prelude.{none, List, [], ◌∷◌, ◌≡◌, refl, inr}
use service_order_os_service.Prelude.Dict.{Dict, lookup}
use service_order_os_service.Domain.Order.Base.{ServiceOrder}
use service_order_os_service.App.Ports.{OrderPort}
use service_order_os_service.App.Saga.Execute.{IsSound}
use service_order_os_service.App.Saga.Modes.{Saves, Alike}
use service_order_os_service.App.System.Modes.{Request, opens, handles, answers, answers_agree}
use service_order_os_service.Memory.Items.{get_item}
use service_order_os_service.Memory.Orders
use service_order_os_service.Memory.Orders.{memory_orders, get-save_lem, save_atomic_lem}
use service_order_os_service.Messaging.Memory.{memory_publisher}
use service_order_os_service.Tests.Data.{
  plain, iso, draw, command, opening, approval, completion, empty_world,
}

abbrev copied_orders : OrderPort (Dict ServiceOrder)
copied_orders = record {
  save = Orders.save;
  get = Orders.get;
  written = λ k o s. s;
  get-save = get-save_lem;
  save_atomic = save_atomic_lem;
  get-written = λ k j o o' s g ne. refl;
  get-written_self = λ k o o' s g. inr g;
  written_same = λ k o s g. refl;
}

memory_saves : Saves memory_orders (memory_publisher plain iso)
unfolding Orders.save
memory_saves o s = refl

empty-IsSound : IsSound memory_orders []
unfolding Orders.get get_item lookup
empty-IsSound = record { traced = λ j o g. absurd (cc); keyed = λ j o g. absurd (cc) }

-- An order is opened, its quote is approved, and an event comes too early.
abbrev requests : List Request
requests =
    opens (record { customers = none; vehicles = none }) command opening
    ∷ handles approval (draw 6 "e-2") (draw 7 "e-3")
    ∷ handles completion (draw 8 "e-4") (draw 9 "e-5")
    ∷ []

answers_agree_example :
    ((answers memory_orders (memory_publisher plain iso) plain requests empty_world).0
      ≡ (answers copied_orders (memory_publisher plain iso) plain requests empty_world).0)
    × Alike memory_orders copied_orders
        (memory_publisher plain iso)
        plain
        (answers memory_orders (memory_publisher plain iso) plain requests empty_world).1
        (answers copied_orders (memory_publisher plain iso) plain requests empty_world).1
answers_agree_example =
    answers_agree memory_orders copied_orders (memory_publisher plain iso) plain requests
      empty_world empty_world memory_saves memory_saves empty-IsSound
      (record { orders = λ j. refl; events = refl })
