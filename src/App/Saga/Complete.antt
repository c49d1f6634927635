-- ===== src/App/Saga/Complete.antt =====
-- Sequences of saga events at `HandleSagaEventUseCase.execute` of src/application/use_cases.py.
use service_order_os_service.Prelude.{
  ℕ, suc, ◌+◌, ◌≤◌, ◌<◌, Bool, true, false, Option, some, String, List, [], ◌∷◌, arith, ◌≡◌, refl,
  ◌⊎◌, inl, subst, sym, ◌∙◌, if◌then◌else◌,
}
use service_order_os_service.Exec.{Result, ok}
use service_order_os_service.Json.{Json}
use service_order_os_service.Domain.Event.{DomainEvent}
use service_order_os_service.Domain.Order.Base.{
  Status, same, ServiceOrder, Draw, request_quote, mark_quote_approved, mark_payment_pending,
  mark_payment_confirmed, request_execution, mark_execution_started, complete, fail,
}
use service_order_os_service.Domain.Order.Spec.{rank}
use service_order_os_service.App.Ports.{OrderPort, PublisherPort, World}
use service_order_os_service.App.Saga.Base.{apply, dispatch, order_id_of, execute}
use service_order_os_service.App.Saga.Spec.{Kind, kind_text, needed_key, carries, saga_next}
use service_order_os_service.App.Saga.Laws.{apply-Safe, apply_cases}
use service_order_os_service.App.Saga.Execute.{IsSound, execute-IsSound}
use service_order_os_service.App.Saga.Advance.{Responds, execute_moves}

-- An event as it arrives, with what its handling draws.
pub record Arrival : Type 0 where
  pub event : DomainEvent
  pub first : Draw
  pub second : Draw

-- The kinds of event that remain until completion.
abbrev pub remaining : Status → List Kind
remaining Status.quote_requested =
    Kind.quote_approved ∷ Kind.payment_preference_created ∷ Kind.payment_confirmed
    ∷ Kind.execution_started ∷ Kind.execution_completed ∷ []
remaining Status.quote_approved =
    Kind.payment_preference_created ∷ Kind.payment_confirmed ∷ Kind.execution_started
    ∷ Kind.execution_completed ∷ []
remaining Status.payment_pending =
    Kind.payment_confirmed ∷ Kind.execution_started ∷ Kind.execution_completed ∷ []
remaining Status.execution_requested = Kind.execution_started ∷ Kind.execution_completed ∷ []
remaining Status.execution_in_progress = Kind.execution_completed ∷ []
remaining _ = []

-- An order that waits for an event of another service.
abbrev pub waits : Status → Bool
waits Status.quote_requested = true
waits Status.quote_approved = true
waits Status.payment_pending = true
waits Status.execution_requested = true
waits Status.execution_in_progress = true
waits _ = false

-- The saga's description leads from one status to another by these kinds.
abbrev Leads : Status → List Kind → Status → Type 0
Leads a [] b = a ≡ b
Leads a (k ∷ ks) b = (s : Status) × (saga_next k a ≡ some s) × Leads s ks b

remaining-Leads : (s : Status) → waits s ≡ true → Leads s (remaining s) Status.completed
remaining-Leads Status.quote_requested h =
    (_, refl, (_, refl, (_, refl, (_, refl, (_, refl, refl)))))
remaining-Leads Status.quote_approved h = (_, refl, (_, refl, (_, refl, (_, refl, refl))))
remaining-Leads Status.payment_pending h = (_, refl, (_, refl, (_, refl, refl)))
remaining-Leads Status.execution_requested h = (_, refl, (_, refl, refl))
remaining-Leads Status.execution_in_progress h = (_, refl, refl)
remaining-Leads _ h = absurd (ground arith)

module _ (show : Json → String) where
  -- The arrivals are of these kinds, with their keys, and name one order.
  abbrev pub Announces : String → List Kind → List Arrival → Type 0
  Announces j [] [] = Unit
  Announces j (k ∷ ks) (a ∷ es) =
      (a.event.event_type ≡ kind_text k)
      × (carries (needed_key k) a.event ≡ true)
      × (order_id_of show a.event ≡ j)
      × Announces j ks es
  Announces j _ _ = ⊥

  module _ {S P : Type 0} (port : OrderPort S) (publisher : PublisherPort P) where
    -- One call of `execute` for each arrival.
    unfoldable pub execute_all : List Arrival → World S P → World S P
    execute_all [] w = w
    execute_all (a ∷ es) w =
        execute_all es (execute port publisher show a.event a.first a.second w).1

    execute_all-Ends :
        (j : String) (b : Status) (ks : List Kind) (es : List Arrival) (w : World S P)
        (o : ServiceOrder)
        → IsSound port w.orders
        → Responds port publisher
        → port.get j w.orders ≡ ok o
        → Leads o.status ks b
        → Announces j ks es
        → (o' : ServiceOrder) × (port.get j (execute_all es w).orders ≡ ok o') × (o'.status ≡ b)
    unfolding execute_all
    execute_all-Ends j b [] [] w o v r g l n = (o, g, l)
    execute_all-Ends j b [] (a ∷ es) w o v r g l n = absurd n
    execute_all-Ends j b (k ∷ ks) [] w o v r g l n = absurd n
    execute_all-Ends j b (k ∷ ks) (a ∷ es) w o v r g (s, fits, l) (kind, has, names, n) =
        let o' = (apply show a.event a.first a.second o).1 in
        let moves =
          execute_moves port publisher show a.event a.first a.second w o k s kind has (rw names g)
            fits r in
        let same_id = ((apply-Safe show a.event a.first a.second).keeps o).0 ∙ v.keyed j o g in
        execute_all-Ends j b ks es _ o'
          (execute-IsSound port publisher show a.event a.first a.second w v) r
          (subst
            (λ i.
              port.get i (execute port publisher show a.event a.first a.second w).1.orders ≡ ok o')
            same_id moves.1.1)
          (subst (λ t. Leads t ks b) (sym moves.0) l) n

    -- Every order of a sound repository that waits for an event gets to its completion: where the
    -- adapters return, and the events that remain for its status arrive in their order, each with its key.
    pub saga_completes :
        (j : String) (es : List Arrival) (w : World S P) (o : ServiceOrder)
        → IsSound port w.orders
        → Responds port publisher
        → port.get j w.orders ≡ ok o
        → waits o.status ≡ true
        → Announces j (remaining o.status) es
        → (o' : ServiceOrder) × (port.get j (execute_all es w).orders ≡ ok o')
          × (o'.status ≡ Status.completed)
    saga_completes j es w o v r g live n =
        execute_all-Ends j Status.completed (remaining o.status) es w o v r g
          (remaining-Leads o.status live) n

module _ (show : Json → String) where
  -- How many of the arrivals change the order's status.
  unfoldable pub changes : List Arrival → ServiceOrder → ℕ
  changes [] o = 0
  changes (a ∷ es) o =
      let o' = (apply show a.event a.first a.second o).1 in
      let rest = changes es o' in if same o.status o'.status then rest else suc rest

  unfoldable Advances : ServiceOrder → Result (Option DomainEvent) × ServiceOrder → Type 0
  Advances o (r, o') = (o' ≡ o) ⊎ (rank o.status < rank o'.status)

  kind-Advances :
      (e : DomainEvent) (d d' : Draw) (o : ServiceOrder) (k : Kind)
      → Advances o (dispatch show (kind_text k) e d d' o)
  unfolding Advances dispatch request_quote mark_quote_approved mark_payment_pending
      mark_payment_confirmed request_execution mark_execution_started complete fail
  kind-Advances e d d' o Kind.quote_created = ground arith
  kind-Advances e d d' o _ = ground arith

  apply-Advances :
      (e : DomainEvent) (d d' : Draw) (o : ServiceOrder) → Advances o (apply show e d d' o)
  unfolding Advances
  apply-Advances e d d' o =
      apply_cases show e d d' o (Advances o) (kind-Advances e d d' o) (inl refl)

  -- Whatever events arrive at an order, and however many, at most seven less the rank of its status
  -- change its status: the saga cannot go in circles.
  pub changes_bounded : (es : List Arrival) (o : ServiceOrder) → changes es o + rank o.status ≤ 7
  unfolding changes Advances
  changes_bounded [] o = ground arith
  changes_bounded (a ∷ es) o = ground (
    arith,
    apply-Advances a.event a.first a.second o,
    changes_bounded es (apply show a.event a.first a.second o).1,
  )
