-- ===== src/Sql/Vehicles.antt =====
-- src/infrastructure/repositories/sqlalchemy_vehicle_repository.py
pub mod Laws
pub mod Stored
use Prim.Native.String.{◌++◌}
use service_order_os_service.Prelude.{
  ℕ, Bool, true, false, not, String, Option, none, some, List, [], ◌∷◌, ◌==◌, eqb, if◌then◌else◌,
}
use service_order_os_service.Exec.{Exec, Result, ok, err, key_error, and_then, pure, ◌>>=◌}
use service_order_os_service.Domain.Event.{Instant}
use service_order_os_service.Domain.Party.{Vehicle}
use service_order_os_service.App.PartyPorts.{VehiclePort}
use service_order_os_service.Sql.Table.{Table}

-- The table `vehicles`, whose year is a text.
pub record VehicleRow : Type 0 where
  pub vehicle_id : String
  pub customer_id : String
  pub brand : String
  pub model : String
  pub year : String
  pub plate : String
  pub created_at : String
  pub updated_at : String

-- What the repository uses of Python: `str` and `int` of a year, and the texts of a `datetime`.
pub record VehicleCodec : Type 0 where
  pub year_text : ℕ → String
  pub year_of : String → Result ℕ
  pub isoformat : Instant → String
  pub fromisoformat : String → Result Instant

module _ (py : VehicleCodec) where
  -- The values that `save` writes.
  unfoldable pub to_row : Vehicle → VehicleRow
  to_row v = record {
    vehicle_id = v.vehicle_id;
    customer_id = v.customer_id;
    brand = v.brand;
    model = v.model;
    year = py.year_text v.year;
    plate = v.plate;
    created_at = py.isoformat v.created_at;
    updated_at = py.isoformat v.updated_at;
  }

  -- The values that `update` writes: all but the identifier and the time of creation.
  unfoldable pub updated_row : Vehicle → VehicleRow → VehicleRow
  updated_row v r = record r {
    customer_id = v.customer_id;
    brand = v.brand;
    model = v.model;
    year = py.year_text v.year;
    plate = v.plate;
    updated_at = py.isoformat v.updated_at;
  }

  -- `_from_row`
  unfoldable pub from_row : VehicleRow → Result Vehicle
  from_row r = and_then (py.year_of r.year) λ year.
      and_then (py.fromisoformat r.created_at) λ created.
        and_then (py.fromisoformat r.updated_at) λ updated. ok (record {
          customer_id = r.customer_id;
          brand = r.brand;
          model = r.model;
          year = year;
          plate = r.plate;
          vehicle_id = r.vehicle_id;
          created_at = created;
          updated_at = updated;
        })

  unfoldable pub from_rows : List VehicleRow → Result (List Vehicle)
  from_rows [] = ok []
  from_rows (r ∷ rs) = and_then (from_row r) λ v. and_then (from_rows rs) λ vs. ok (v ∷ vs)

  -- `None if row is None else self._from_row(dict(row))`, of the first row
  unfoldable pub first_row : List VehicleRow → Result (Option Vehicle)
  first_row [] = ok none
  first_row (r ∷ rs) = and_then (from_row r) λ v. ok (some v)

  -- The test of `list`'s query.
  abbrev pub listed : Option String → VehicleRow → Bool
  listed none r = true
  listed (some owner) r = r.customer_id == owner

  module _ {T : Type 0} (table : Table T VehicleRow (λ r. r.vehicle_id)) where
    unfoldable pub save : Vehicle → Exec T (Unit {0})
    save v = table.insert (to_row v)

    unfoldable pub update : Vehicle → Exec T (Unit {0})
    update v = table.update v.vehicle_id (updated_row v)

    -- `bool(deleted)`, of the row count
    unfoldable pub delete : String → Exec T Bool
    delete k = do deleted ← table.delete k; pure (not (eqb deleted 0))

    -- What `get` does with the rows that it found.
    unfoldable pub found_row : String → List VehicleRow → Result Vehicle
    found_row k [] = err (key_error ("Vehicle not found: " ++ k))
    found_row k (r ∷ rs) = from_row r

    unfoldable pub get : String → T → Result Vehicle
    unfolding found_row
    get k s = found_row k (table.select (λ r. r.vehicle_id == k) s)

    unfoldable pub list : Option String → T → Result (List Vehicle)
    list customer_id s = from_rows (table.select (listed customer_id) s)

    unfoldable pub find_by_plate : String → T → Result (Option Vehicle)
    find_by_plate plate s = first_row (table.select (λ r. r.plate == plate) s)

    abbrev pub sql_vehicles : VehiclePort T
    sql_vehicles = record {
      save = save;
      update = update;
      delete = delete;
      get = get;
      list = list;
      find_by_plate = find_by_plate;
    }
