-- ===== src/App/Vehicles/Unique.antt =====
-- Validity of the repository of vehicles in
-- src/infrastructure/repositories/in_memory_vehicle_repository.py under the use cases for vehicles.
use service_order_os_service.Prelude.{
  Bool, false, not, ◌&&◌, String, Option, none, some, is_some, arith, ◌≡◌, sym, ◌∙◌, ap, inl, inr,
  ◌==◌, eq_iff, Option-cases, Bool-cases, if◌then◌else◌,
}
use service_order_os_service.Prelude.Dict.{Dict, lookup, insert, lookup-insert, lookup-erase}
use service_order_os_service.Prelude.Unique.{
  Distinct, insert-Distinct, erase-Distinct, find_misses, find_passes, find_stored, IsUnique,
  insert-IsUnique, erase-IsUnique,
}
use service_order_os_service.Exec.{is_ok}
use service_order_os_service.Domain.Event.{Instant}
use service_order_os_service.Domain.Party.{Vehicle, Birth}
use service_order_os_service.Memory.Vehicles
use service_order_os_service.Memory.Vehicles.{memory_vehicles, has_plate, find_by_plate}
use service_order_os_service.App.PartyPorts.{CustomerPort}
use service_order_os_service.App.Vehicles.{
  CreateVehicleCommand, UpdateVehicleCommand, new_vehicle, revised, is_other, create, check_plate,
  update, delete,
}

abbrev pub plate_tag : Vehicle → Option String
plate_tag v = some v.plate

-- Every vehicle is stored once, under its own identifier, and plates differ.
pub record IsValid (d : Dict Vehicle) : Type 0 where
  pub distinct : Distinct d
  pub keyed : (j : String) (v : Vehicle) → lookup j d ≡ some v → v.vehicle_id ≡ j
  pub plates : IsUnique plate_tag d

-- Storing a vehicle whose plate no other one has.
store :
    (v : Vehicle) (d : Dict Vehicle)
    → IsValid d
    → ((j : String) (o : Vehicle) → lookup j d ≡ some o → v.plate ≡ o.plate → j ≡ v.vehicle_id)
    → IsValid (insert v.vehicle_id v d)
store v d h free = record {
  distinct = insert-Distinct v.vehicle_id v d h.distinct;
  keyed =
      λ j o e. ground (arith, lookup-insert v.vehicle_id j v d, h.keyed j o, eq_iff v.vehicle_id j);
  plates =
      insert-IsUnique plate_tag v.vehicle_id v d h.plates
        (λ j o t e p q. free j o e (ground arith));
}

plate_absent :
    (plate : String) (d : Dict Vehicle)
    → find_by_plate plate d ≡ none
    → (j : String) (o : Vehicle) → lookup j d ≡ some o
    → plate ≡ o.plate
    → ⊥
unfolding find_by_plate
plate_absent plate d h j o e p =
    ground (arith, find_misses (has_plate plate) d j o h e, eq_iff o.plate plate)

plate_holder :
    (plate : String) (d : Dict Vehicle) (v : Vehicle)
    → IsValid d
    → find_by_plate plate d ≡ some v
    → (lookup v.vehicle_id d ≡ some v) × (v.plate ≡ plate)
unfolding find_by_plate
plate_holder plate d v h e =
    let at = find_stored (has_plate plate) d v h.distinct e in
    (
      ap (λ k. lookup k d) (h.keyed at.0 v at.1) ∙ at.1,
      (eq_iff v.plate plate).0 (find_passes (has_plate plate) d v e),
    )

module _ {C : Type 0} (customer_port : CustomerPort C) (customers : C) where
  module _ (cmd : CreateVehicleCommand) (b : Birth) (d : Dict Vehicle) where
    create_outcome : (create memory_vehicles customer_port customers cmd b d).1 ≡ (
        if is_ok (customer_port.get cmd.customer_id customers)
          && not (is_some (find_by_plate cmd.plate d))
        then insert b.id (new_vehicle cmd b) d
        else d)
    unfolding create Vehicles.save
    create_outcome = ground arith

    -- A valid repository of vehicles in memory stays valid when one is created under a fresh
    -- identifier, whether the call returns or raises: plates stay unique.
    pub create_vehicle-IsValid :
        IsValid d
        → lookup b.id d ≡ none
        → IsValid (create memory_vehicles customer_port customers cmd b d).1
    create_vehicle-IsValid h fresh =
        rw create_outcome (elim (Bool-cases (is_ok (customer_port.get cmd.customer_id customers))) [
          | inr refused ↦ rw refused h
          | inl known ↦ elim (Option-cases (find_by_plate cmd.plate d)) [
            | inr (v, e) ↦ rw (known, e) h
            | inl absent ↦
                rw (known, absent)
                  (store (new_vehicle cmd b) d h
                    (λ j o e p. absurd (plate_absent cmd.plate d absent j o e p)))
          ]
        ])

  module _ (cmd : UpdateVehicleCommand) (now : Instant) (d : Dict Vehicle) where
    abbrev taken_plate : Vehicle → Bool
    taken_plate v =
        not (cmd.plate == v.plate) && is_other cmd.vehicle_id (find_by_plate cmd.plate d)

    update_missing :
        lookup cmd.vehicle_id d ≡ none
        → (update memory_vehicles customer_port customers cmd now d).1 ≡ d
    unfolding update Vehicles.get
    update_missing e = ground arith

    update_outcome :
        (v : Vehicle)
        → lookup cmd.vehicle_id d ≡ some v
        → (update memory_vehicles customer_port customers cmd now d).1 ≡ (
            if is_ok (customer_port.get cmd.customer_id customers) && not (taken_plate v)
            then insert v.vehicle_id (revised cmd now v) d
            else d)
    unfolding update check_plate Vehicles.get Vehicles.update
    update_outcome v e = ground arith

    plate_free :
        (v : Vehicle)
        → IsValid d
        → lookup cmd.vehicle_id d ≡ some v
        → taken_plate v ≡ false
        → (j : String) (o : Vehicle) → lookup j d ≡ some o
        → cmd.plate ≡ o.plate
        → j ≡ cmd.vehicle_id
    plate_free v h e free j o p q = elim (Bool-cases (cmd.plate == v.plate)) [
      | inl same ↦
          h.plates.unique j cmd.vehicle_id o v cmd.plate p e (ground arith)
            (ground (arith, eq_iff cmd.plate v.plate))
      | inr new ↦ elim (Option-cases (find_by_plate cmd.plate d)) [
        | inl absent ↦ absurd (plate_absent cmd.plate d absent j o p q)
        | inr (x, found) ↦
            let at = plate_holder cmd.plate d x h found in
            h.plates.unique j x.vehicle_id o x cmd.plate p at.0 (ground arith) (ground arith)
            ∙ (eq_iff x.vehicle_id cmd.vehicle_id).0 (ground arith)
      ]
    ]

    -- A valid repository of vehicles in memory stays valid under an update, whether the call returns or
    -- raises: plates stay unique.
    pub update_vehicle-IsValid :
        IsValid d → IsValid (update memory_vehicles customer_port customers cmd now d).1
    update_vehicle-IsValid h = elim (Option-cases (lookup cmd.vehicle_id d)) [
      | inl absent ↦ rw (update_missing absent) h
      | inr (v, e) ↦
          rw (update_outcome v e)
            (elim (Bool-cases (is_ok (customer_port.get cmd.customer_id customers))) [
              | inr refused ↦ rw refused h
              | inl known ↦ elim (Bool-cases (taken_plate v)) [
                | inl taken ↦ rw (known, taken) h
                | inr free ↦
                    rw (known, free)
                      (store (revised cmd now v) d h
                        (λ j o p q. plate_free v h e free j o p q ∙ sym (h.keyed _ v e)))
              ]
            ])
    ]

pub delete_vehicle-IsValid :
    (k : String) (d : Dict Vehicle) → IsValid d → IsValid (delete memory_vehicles k d).1
unfolding delete Vehicles.delete
delete_vehicle-IsValid k d h = record {
  distinct = erase-Distinct k d h.distinct;
  keyed = λ j o e. ground (arith, lookup-erase k j d, h.keyed j o);
  plates = erase-IsUnique plate_tag k d h.plates;
}
