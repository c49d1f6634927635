-- ===== src/Domain/Order/History.antt =====
-- The history of a service order under the state machine.
use service_order_os_service.Prelude.{
  ◌+◌, ◌≤◌, ◌<◌, arith, ◌≡◌, refl, List, [], ◌∷◌, ◌++◌, length, String,
}
use service_order_os_service.Exec.{ok}
use service_order_os_service.Domain.Event.{Instant}
use service_order_os_service.Domain.Order.Base.{
  Status, opened, HistoryEntry, ServiceOrder, open_order,
}
use service_order_os_service.Domain.Order.Spec.{Edge, ahead, failed, rank, Trace, HasTrace}

-- An edge always gains rank.
pub rank-Edge : (a b : Status) → Edge a b → rank a < rank b
rank-Edge a b (ahead h) = ground arith
rank-Edge a b (failed h k) = ground arith

Trace-snoc :
    (a b : Status) (h : List HistoryEntry) (e : HistoryEntry)
    → Trace a h b
    → Edge b e.status
    → Trace a (h ++ e ∷ []) e.status
Trace-snoc a b [] e t edge = (rw t edge, refl)
Trace-snoc a b (x ∷ h) e t edge = (t.0, Trace-snoc x.status b h e t.1 edge)

-- A history with a trace is still one after an entry whose status is an edge away.
pub HasTrace-snoc :
    (b : Status) (h : List HistoryEntry) (e : HistoryEntry)
    → HasTrace h b
    → Edge b e.status
    → HasTrace (h ++ e ∷ []) e.status
HasTrace-snoc b [] e t edge = absurd t
HasTrace-snoc b (x ∷ h) e t edge = (t.0, Trace-snoc opened b h e t.1 edge)

length-Trace : (a b : Status) (h : List HistoryEntry) → Trace a h b → length h + rank a ≤ rank b
length-Trace a b [] t = ground arith
length-Trace a b (x ∷ h) t = omega (arith, rank-Edge a x.status t.0, length-Trace x.status b h t.1)

rank_le : (s : Status) → rank s ≤ 7
rank_le opened = omega arith
rank_le _ = omega arith

-- A history with a trace has at most eight entries.
pub length-HasTrace : (h : List HistoryEntry) (s : Status) → HasTrace h s → length h ≤ 8
length-HasTrace [] s t = absurd t
length-HasTrace (x ∷ h) s t = omega (arith, length-Trace opened s h t.1, rank_le s)

-- A new order has one.
pub open_order-HasTrace :
    (c v t i : String) (at : Instant) (o : ServiceOrder)
    → open_order c v t i at ≡ ok o
    → (HasTrace o.history o.status)
      × (o.status ≡ opened)
      × (o.service_order_id ≡ i)
      × (o.customer_id ≡ c)
      × (o.vehicle_id ≡ v)
      × (o.description ≡ t)
unfolding open_order
open_order-HasTrace c v t i at o h = ground arith
