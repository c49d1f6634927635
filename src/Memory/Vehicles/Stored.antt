-- ===== src/Memory/Vehicles/Stored.antt =====
-- src/infrastructure/repositories/in_memory_vehicle_repository.py as a repository for its use cases.
use service_order_os_service.Prelude.{
  String, some, arith, ◌≡◌, ap, subst, ◌==◌, eq_iff, Option-cases, inl, inr, if◌then◌else◌,
}
use service_order_os_service.Prelude.Dict.{Dict, lookup, insert, lookup-insert}
use service_order_os_service.Exec.{Result, ok}
use service_order_os_service.Domain.Party.{Vehicle}
use service_order_os_service.App.Vehicles.Stored.{IsStore}
use service_order_os_service.Memory.Items.{get_item}
use service_order_os_service.Memory.Vehicles.{memory_vehicles, get, save, update}

-- Every vehicle is kept under its identifier.
abbrev pub IsKeyed : Dict Vehicle → Type 0
IsKeyed d = (k : String) (c : Vehicle) → lookup k d ≡ some c → c.vehicle_id ≡ k

get_lookup : (k : String) (c : Vehicle) (d : Dict Vehicle) → get k d ≡ ok c → lookup k d ≡ some c
unfolding get get_item
get_lookup k c d h = elim (Option-cases (lookup k d)) [
  | inl missing ↦ absurd (ground (arith, missing, h))
  | inr (x, there) ↦ ground (arith, there, h)
]

get-insert :
    (c : Vehicle) (j : String) (d : Dict Vehicle)
    → get j (insert c.vehicle_id c d) ≡ (if c.vehicle_id == j then ok c else get j d)
unfolding get get_item
get-insert c j d = ground (arith, lookup-insert c.vehicle_id j c d)

insert-IsKeyed : (c : Vehicle) (d : Dict Vehicle) → IsKeyed d → IsKeyed (insert c.vehicle_id c d)
insert-IsKeyed c d h k x e =
    ground (arith, lookup-insert c.vehicle_id k c d, eq_iff c.vehicle_id k, h k x, e)

module _ (c : Vehicle) (s t : Dict Vehicle) where
  saved_state : save c s ≡ (ok tt, t) → insert c.vehicle_id c s ≡ t
  unfolding save
  saved_state h = ap (λ (x : Result (Unit {0}) × Dict Vehicle). x.1) h

  updated_state : update c s ≡ (ok tt, t) → insert c.vehicle_id c s ≡ t
  unfolding update
  updated_state h = ap (λ (x : Result (Unit {0}) × Dict Vehicle). x.1) h

pub memory_vehicles-IsStore : IsStore (memory_vehicles) IsKeyed
memory_vehicles-IsStore = record {
  named = λ k c s sound h. sound k c (get_lookup k c s h);
  get-save = λ c j s t h.
      subst (λ x. get j x ≡ (if c.vehicle_id == j then ok c else get j s)) (saved_state c s t h)
        (get-insert c j s);
  get-update = λ c old j s t there made h.
      subst (λ x. get j x ≡ (if c.vehicle_id == j then ok c else get j s)) (updated_state c s t h)
        (get-insert c j s);
  save-Sound = λ c s t sound h. subst IsKeyed (saved_state c s t h) (insert-IsKeyed c s sound);
  update-Sound = λ c s t sound h. subst IsKeyed (updated_state c s t h) (insert-IsKeyed c s sound);
}
