-- ===== src/Sql/Vehicles/Stored.antt =====
-- src/infrastructure/repositories/sqlalchemy_vehicle_repository.py as a repository for the use cases.
use service_order_os_service.Prelude.{
  String, Option, none, some, [], arith, ◌≡◌, ◌∙◌, ◌==◌, Option-cases, inl, inr, if◌then◌else◌,
}
use service_order_os_service.Exec.{Result, ok}
use service_order_os_service.Domain.Party.{Vehicle}
use service_order_os_service.App.Vehicles.Stored.{IsStore}
use service_order_os_service.Sql.Table.{Table}
use service_order_os_service.Sql.Vehicles.{
  VehicleRow, VehicleCodec, sql_vehicles, found_row, to_row, updated_row, from_row, get, save,
  update,
}
use service_order_os_service.Sql.Vehicles.Laws.{IsCodec, from_row-to_row}

module _ (py : VehicleCodec) (lawful : IsCodec py) {T : Type 0}
    (table : Table T VehicleRow (λ r. r.vehicle_id)) where
  -- The vehicle of a row, where there is one.
  abbrev found : String → Option VehicleRow → Result Vehicle
  found k none = found_row py table k []
  found k (some r) = from_row py r

  get_found : (k : String) (s : T) → get py table k s ≡ found k (table.at k s)
  unfolding get found_row
  get_found k s = rw (table.select_key k s) (ground arith)

  read_key : (r : VehicleRow) (v : Vehicle) → from_row py r ≡ ok v → v.vehicle_id ≡ r.vehicle_id
  unfolding from_row
  read_key r v h = ground arith

  get_named : (k : String) (v : Vehicle) (s : T) → get py table k s ≡ ok v → v.vehicle_id ≡ k
  unfolding found_row
  get_named k v s h = elim (Option-cases (table.at k s)) [
    | inl absent ↦ absurd (ground (arith, absent, h, get_found k s))
    | inr (r, there) ↦
        read_key r v (ground (arith, there, h, get_found k s)) ∙ table.at-key k s r there
  ]

  get-save :
      (v : Vehicle) (j : String) (s t : T)
      → save py table v s ≡ (ok tt, t)
      → get py table j t ≡ (if v.vehicle_id == j then ok v else get py table j s)
  unfolding save
  get-save v j s t e =
      rw (get_found j t, get_found j s, table.at-insert (to_row py v) j s t e)
        (unfold to_row in ground (arith, from_row-to_row py lawful table v))

  updated_from_row :
      (v old : Vehicle) (r : VehicleRow)
      → from_row py r ≡ ok old
      → from_row py (updated_row py v r)
        ≡ ok (record v { vehicle_id = old.vehicle_id; created_at = old.created_at })
  unfolding from_row updated_row
  updated_from_row v old r h = ground (arith, lawful.years v.year, lawful.times v.updated_at)

  updated_key :
      (v : Vehicle) (r : VehicleRow)
      → r.vehicle_id ≡ v.vehicle_id
      → (updated_row py v r).vehicle_id ≡ v.vehicle_id
  unfolding updated_row
  updated_key v r h = h

  get-update :
      (v old : Vehicle) (j : String) (s t : T)
      → get py table v.vehicle_id s ≡ ok old
      → v.created_at ≡ old.created_at
      → update py table v s ≡ (ok tt, t)
      → get py table j t ≡ (if v.vehicle_id == j then ok v else get py table j s)
  unfolding update found_row
  get-update v old j s t g made e = elim (Option-cases (table.at v.vehicle_id s)) [
    | inl absent ↦ absurd (ground (arith, absent, g, get_found v.vehicle_id s))
    | inr (r, there) ↦
        let after = table.at-update v.vehicle_id j (updated_row py v) s t (updated_key v) e in
        let same_id = read_key r old (ground (arith, there, g, get_found v.vehicle_id s)) in
        rw (get_found j t, get_found j s, after)
          (ground (
            arith,
            g,
            made,
            there,
            get_found v.vehicle_id s,
            same_id,
            table.at-key v.vehicle_id s r there,
            updated_from_row v old r,
          ))
  ]

  pub sql_vehicles-IsStore : IsStore (sql_vehicles py table) (λ _. Unit)
  sql_vehicles-IsStore = record {
    named = λ k v s sound h. get_named k v s h;
    get-save = get-save;
    get-update = get-update;
    save-Sound = λ v s t sound h. tt;
    update-Sound = λ v s t sound h. tt;
  }
