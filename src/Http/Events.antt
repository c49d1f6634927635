-- ===== src/Http/Events.antt =====
-- src/presentation/api/routes/event_routes.py, over either publisher.
use service_order_os_service.Prelude.{List}
use service_order_os_service.Prelude.Dict.{Dict}
use service_order_os_service.Exec.{Exec}
use service_order_os_service.Json.{Json}
use service_order_os_service.Domain.Party.{AuthenticatedPrincipal}
use service_order_os_service.Messaging.Memory
use service_order_os_service.Messaging.Memory.{MemoryPublisher}
use service_order_os_service.Messaging.Rabbit
use service_order_os_service.Messaging.Rabbit.{BlockingPublisher}
use service_order_os_service.Http.Reply.{Reply, uncaught}
use service_order_os_service.Http.Auth.{for_admin, answer}

-- What the routes call of the publisher.
pub record EventLog (P : Type 0) : Type 0 where
  pub published_messages : Exec P (List (Dict Json))
  pub drain : Exec P (List (Dict Json))

abbrev pub memory_log : EventLog MemoryPublisher
memory_log = record { published_messages = Memory.published_messages; drain = Memory.drain }

abbrev pub rabbit_log : {C : Type 0} → EventLog (BlockingPublisher C)
rabbit_log = record { published_messages = Rabbit.published_messages; drain = Rabbit.drain }

-- `{"events": messages}`
pub record Published : Type 0 where
  pub events : List (Dict Json)

abbrev published : List (Dict Json) → Published
published messages = record { events = messages }

module _ {P : Type 0} (log : EventLog P) where
  unfoldable pub list_published_events : AuthenticatedPrincipal → P → Reply Published × P
  list_published_events principal =
      for_admin principal (answer (λ r. uncaught r) published log.published_messages)

  unfoldable pub drain_published_events : AuthenticatedPrincipal → P → Reply Published × P
  drain_published_events principal =
      for_admin principal (answer (λ r. uncaught r) published log.drain)
