-- ===== src/App/Ports.antt =====
-- src/application/ports.py: what the use cases ask of a repository of service orders and of a
-- publisher, over the state that the adapter keeps.
use service_order_os_service.Prelude.{String, false, ◌≡◌, ◌⊎◌, ◌==◌, if◌then◌else◌}
use service_order_os_service.Exec.{Exec, Result, ok, err, Exn}
use service_order_os_service.Domain.Event.{DomainEvent}
use service_order_os_service.Domain.Order.Base.{ServiceOrder}

-- `ServiceOrderRepositoryPort`. `written k o` is the state after the object that `get k` returned has
-- been changed into `o`: a repository in memory hands out the object that it holds, and one over a
-- database a copy.
pub record OrderPort (S : Type 0) : Type 0 where
  pub save : ServiceOrder → Exec S (Unit {0})
  pub get : String → S → Result ServiceOrder
  pub written : String → ServiceOrder → S → S
  pub get-save :
      (o : ServiceOrder) (j : String) (s t : S)
      → save o s ≡ (ok tt, t)
      → get j t ≡ (if o.service_order_id == j then ok o else get j s)
  pub save_atomic : (o : ServiceOrder) (x : Exn) (s t : S) → save o s ≡ (err x, t) → t ≡ s
  pub get-written :
      (k j : String) (o o' : ServiceOrder) (s : S)
      → get k s ≡ ok o'
      → (k == j) ≡ false
      → get j (written k o s) ≡ get j s
  pub get-written_self :
      (k : String) (o o' : ServiceOrder) (s : S)
      → get k s ≡ ok o'
      → (get k (written k o s) ≡ ok o) ⊎ (get k (written k o s) ≡ ok o')
  pub written_same : (k : String) (o : ServiceOrder) (s : S) → get k s ≡ ok o → written k o s ≡ s

-- `EventPublisherPort`
pub record PublisherPort (P : Type 0) : Type 0 where
  pub publish : DomainEvent → Exec P (Unit {0})

-- What a use case changes.
pub record World (S P : Type 0) : Type 0 where
  pub orders : S
  pub events : P

module _ {S P A : Type 0} where
  -- A call on the repository, and one on the publisher.
  abbrev pub on_orders : Exec S A → Exec (World S P) A
  on_orders m w = let (r, s) = m w.orders in (r, record w { orders = s })

  abbrev pub on_events : Exec P A → Exec (World S P) A
  on_events m w = let (r, p) = m w.events in (r, record w { events = p })
