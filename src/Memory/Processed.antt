-- ===== src/Memory/Processed.antt =====
-- `InMemoryProcessedEventRepository` of
-- src/infrastructure/repositories/processed_event_repositories.py: a set of identifiers.
use service_order_os_service.Prelude.{
  Bool, true, String, List, ◌∷◌, ◌≡◌, arith, ◌==◌, eq_iff, any, if◌then◌else◌,
}
use service_order_os_service.Exec.{Exec, Result, Exn, ok, err, modify}
use service_order_os_service.App.EventHandler.{ProcessedPort}

unfoldable pub is_processed : String → List String → Result Bool
is_processed i events = ok (any (λ j. j == i) events)

-- `set.add`
unfoldable pub mark_processed : String → String → String → Exec (List String) (Unit {0})
mark_processed i t c = modify (λ events. if any (λ j. j == i) events then events else i ∷ events)

pub processed-mark_lem :
    (i t c j : String) (r r' : List String)
    → mark_processed i t c r ≡ (ok tt, r')
    → is_processed j r' ≡ (if i == j then ok true else is_processed j r)
unfolding mark_processed is_processed
processed-mark_lem i t c j r r' e = ground (arith, eq_iff i j)

pub mark_atomic_lem :
    (i t c : String) (x : Exn) (r r' : List String) → mark_processed i t c r ≡ (err x, r') → r' ≡ r
unfolding mark_processed
mark_atomic_lem i t c x r r' e = cc

abbrev pub memory_processed : ProcessedPort (List String)
memory_processed = record {
  is_processed = is_processed;
  mark_processed = mark_processed;
  processed-mark = processed-mark_lem;
  mark_atomic = mark_atomic_lem;
}
