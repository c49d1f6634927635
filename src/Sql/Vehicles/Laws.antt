-- ===== src/Sql/Vehicles/Laws.antt =====
-- What `SqlAlchemyVehicleRepository` finds by plate.
use service_order_os_service.Prelude.{
  ℕ, String, some, List, [], ◌∷◌, arith, ◌≡◌, refl, ◌==◌, eq_iff, eq_refl,
}
use service_order_os_service.Exec.{ok}
use service_order_os_service.Domain.Event.{Instant}
use service_order_os_service.Domain.Party.{Vehicle}
use service_order_os_service.Sql.Table.{Table}
use service_order_os_service.Sql.Vehicles.{
  VehicleRow, VehicleCodec, to_row, from_row, save, first_row, find_by_plate,
}

-- `int` reads what `str` writes, and `fromisoformat` what `isoformat` writes.
pub record IsCodec (py : VehicleCodec) : Type 0 where
  pub years : (y : ℕ) → py.year_of (py.year_text y) ≡ ok y
  pub times : (at : Instant) → py.fromisoformat (py.isoformat at) ≡ ok at

module _ (py : VehicleCodec) (lawful : IsCodec py) {T : Type 0}
    (table : Table T VehicleRow (λ r. r.vehicle_id)) where
  pub from_row-to_row : (v : Vehicle) → from_row py (to_row py v) ≡ ok v
  unfolding from_row to_row
  from_row-to_row v =
      rw (lawful.years v.year, lawful.times v.created_at, lawful.times v.updated_at) refl

  -- After a vehicle was saved, the search for its plate gives it, with every field: where the plates of
  -- the table's rows are unique, as its constraint says.
  pub sql_plate_found :
      (v : Vehicle) (s t : T)
      → save py table v s ≡ (ok tt, t)
      → ((i j : String) (a b : VehicleRow)
          → table.at i t ≡ some a
          → table.at j t ≡ some b
          → a.plate ≡ b.plate
          → i ≡ j)
      → find_by_plate py table v.plate t ≡ ok (some v)
  unfolding save find_by_plate first_row to_row
  sql_plate_found v s t e unique = go (table.select (λ r. r.plate == v.plate) t) refl
    where
      stored : table.at v.vehicle_id t ≡ some (to_row py v)
      stored = ground (arith, table.at-insert (to_row py v) v.vehicle_id s t, eq_refl v.vehicle_id)

      go :
          (rs : List VehicleRow)
          → table.select (λ r. r.plate == v.plate) t ≡ rs
          → find_by_plate py table v.plate t ≡ ok (some v)
      go [] h = absurd (
          ground (
            arith,
            table.select_none (λ r. r.plate == v.plate) t v.vehicle_id (to_row py v) h stored,
            eq_refl v.plate,
          ))
      go (r ∷ rs) h =
          let (there, passes) = table.select_first (λ r. r.plate == v.plate) t r rs h in
          let same_key : r.vehicle_id ≡ v.vehicle_id =
            unique r.vehicle_id v.vehicle_id r (to_row py v) there stored
              ((eq_iff r.plate v.plate).0 passes) in
          let same_row : r ≡ to_row py v = ground (arith, there, stored, same_key) in
          rw (h, same_row, from_row-to_row v) refl
