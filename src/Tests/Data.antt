-- ===== src/Tests/Data.antt =====
-- The values that the tests share.
use service_order_os_service.Prelude.{ℕ, true, String, some, List, [], ◌∷◌}
use service_order_os_service.Prelude.Dict.{Dict}
use service_order_os_service.Exec.{ok}
use service_order_os_service.Json.{Json, str, obj, of_entries}
use service_order_os_service.Domain.Event.{DomainEvent, Instant}
use service_order_os_service.Domain.Order.Base.{Status, ServiceOrder, Draw}
use service_order_os_service.Domain.Party.{Customer, Vehicle}
use service_order_os_service.App.Ports.{World}
use service_order_os_service.App.EventHandler.{Readers, HandlerState}
use service_order_os_service.App.Opening.{OpenServiceOrderCommand, OpenDraw}
use service_order_os_service.Messaging.Memory.{MemoryPublisher}

-- `str` on texts, the only values that the tests use it on
abbrev pub plain : Json → String
plain (str t) = t
plain _ = "?"

abbrev pub iso : Instant → String
iso at = "2026-01-01T00:00:00+00:00"

abbrev pub same_case : String → String
same_case t = t

abbrev pub draw : ℕ → String → Draw
draw at id = record { recorded_at = at; stamp = record { event_id = id; occurred_at = at } }

abbrev pub ana : Customer
ana = record {
  name = "Ana";
  email = "ana@example.com";
  phone = "11";
  cpf_cnpj = some "52998224725";
  is_active = true;
  customer_id = "c-1";
  created_at = 1;
  updated_at = 1;
}

abbrev pub car : Vehicle
car = record {
  customer_id = "c-1";
  brand = "Fiat";
  model = "Uno";
  year = 2010;
  plate = "ABC1D23";
  vehicle_id = "v-1";
  created_at = 2;
  updated_at = 2;
}

abbrev pub command : OpenServiceOrderCommand
command = record { customer_id = "c-1"; vehicle_id = "v-1"; description = "Brakes" }

abbrev pub opening : OpenDraw
opening = record { id = "os-1"; opened_at = 3; quote = draw 4 "e-1" }

-- An order that waits for its quote, and one at its end.
abbrev pub quoting : ServiceOrder
quoting = record {
  customer_id = "c-1";
  vehicle_id = "v-1";
  description = "Brakes";
  service_order_id = "os-1";
  status = Status.quote_requested;
  history =
      record { status = Status.opened; reason = "Service order opened"; created_at = 3 }
      ∷ record { status = Status.quote_requested; reason = "Quote requested"; created_at = 4 }
      ∷ [];
}

abbrev pub done : ServiceOrder
done = record quoting { status = Status.completed }

abbrev pub no_events : MemoryPublisher
no_events = record { events = []; messages = [] }

abbrev pub empty_world : World (Dict ServiceOrder) MemoryPublisher
empty_world = record { orders = []; events = no_events }

abbrev pub quoting_world : World (Dict ServiceOrder) MemoryPublisher
quoting_world = record { orders = ("os-1", quoting) ∷ []; events = no_events }

abbrev pub approval : DomainEvent
approval = record {
  event_type = "QUOTE_APPROVED";
  correlation_id = "os-1";
  payload = ("quote_id", str "q-1") ∷ [];
  event_id = "m-1";
  occurred_at = 5;
}

-- An event that comes too early.
abbrev pub completion : DomainEvent
completion = record approval { event_type = "EXECUTION_COMPLETED"; event_id = "m-2" }

abbrev pub approval_message : Dict Json
approval_message =
    ("event_id", str "m-1")
    ∷ ("event_type", str "QUOTE_APPROVED")
    ∷ ("correlation_id", str "os-1")
    ∷ ("occurred_at", str "2026-01-01T00:00:00+00:00")
    ∷ ("payload", obj (of_entries (("quote_id", str "q-1") ∷ [])))
    ∷ []

abbrev pub readers : Readers
readers = record { show = plain; fromisoformat = λ t. ok 5; dict_of_other = λ v. ok [] }

abbrev pub handler_state : HandlerState (Dict ServiceOrder) MemoryPublisher (List String)
handler_state = record { world = quoting_world; processed = [] }
