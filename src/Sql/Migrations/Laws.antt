-- ===== src/Sql/Migrations/Laws.antt =====
-- The migration of alembic/versions/001_initial_schema.py against the tables that the repositories declare.
use service_order_os_service.Prelude.{
  true, String, Option, none, some, is_some, List, [], ◌∷◌, any, arith, ◌≡◌, refl, ap, ◌∙◌, ◌==◌,
  eq_iff, eq_refl, subst, if◌then◌else◌,
}
use service_order_os_service.Prelude.Dict.{lookup, insert, lookup-insert, lookup-erase}
use service_order_os_service.Sql.Schema.{
  Column, Tables, build_combined_metadata, combine, to_metadata,
}
use service_order_os_service.Sql.Migrations.{
  created_tables, create_all, create_missing, drop_present, upgrade, drop_all, dropped_names,
  downgrade,
}

lookup-create_missing :
    (name k : String) (columns : List Column) (db : Tables)
    → lookup k (create_missing name columns db)
      ≡ (elim (lookup k db) [ none ↦ (if name == k then some columns else none) | some c ↦ some c ])
unfolding create_missing
lookup-create_missing name k columns db =
    ground (arith, lookup-insert name k columns db, eq_iff name k)

lookup-create_all :
    (k : String) (ts db : Tables)
    → lookup k (create_all ts db) ≡ (elim (lookup k db) [ none ↦ lookup k ts | some c ↦ some c ])
unfolding create_all lookup
lookup-create_all k [] db = ground arith
lookup-create_all k ((name, columns) ∷ ts) db = ground (
  arith,
  lookup-create_all k ts (create_missing name columns db),
  lookup-create_missing name k columns db,
  eq_iff name k,
)

-- The migration names the tables of the repositories, with the same columns.
created-eq-declared : created_tables ≡ build_combined_metadata
unfolding build_combined_metadata combine to_metadata insert lookup
created-eq-declared = refl

-- After an upgrade, a table that the database had is as it was, and every table that was missing is there
-- exactly if some repository declares it, with the columns that the repository declares.
pub upgraded :
    (db : Tables) (k : String)
    → lookup k (upgrade db)
      ≡ (elim (lookup k db) [ none ↦ lookup k build_combined_metadata | some c ↦ some c ])
unfolding upgrade
upgraded db k =
    lookup-create_all k created_tables db
    ∙ ap
        (λ (ts : Tables). elim (lookup k db) as (λ _. Option (List Column)) [
          | none ↦ lookup k ts
          | some c ↦ some c
        ])
        created-eq-declared

create_missing_present :
    (name : String) (columns : List Column) (db : Tables)
    → is_some (lookup name db) ≡ true
    → create_missing name columns db ≡ db
unfolding create_missing
create_missing_present name columns db h = rw h refl

create_all_present :
    (ts db : Tables)
    → ((k : String) → is_some (lookup k ts) ≡ true → is_some (lookup k db) ≡ true)
    → create_all ts db ≡ db
unfolding create_all
create_all_present [] db h = refl
create_all_present ((name, columns) ∷ ts) db h =
    rw (create_missing_present name columns db (h name (unfold lookup in rw (eq_refl name) refl)))
      (create_all_present ts db λ k there. h k (unfold lookup in ground (arith, there)))

create_all_there :
    (ts db : Tables) (k : String)
    → is_some (lookup k ts) ≡ true
    → is_some (lookup k (create_all ts db)) ≡ true
create_all_there ts db k h = ground (arith, lookup-create_all k ts db, h)

-- Upgrading again changes nothing.
pub upgrade_idem : (db : Tables) → upgrade (upgrade db) ≡ upgrade db
unfolding upgrade
upgrade_idem db =
    create_all_present created_tables (create_all created_tables db)
      (create_all_there created_tables db)

lookup-drop_all :
    (k : String) (names : List String) (db : Tables)
    → lookup k (drop_all names db) ≡ (if any (λ name. name == k) names then none else lookup k db)
unfolding drop_all drop_present
lookup-drop_all k [] db = refl
lookup-drop_all k (name ∷ names) db =
    ground
      (arith, lookup-drop_all k names (drop_present name db), lookup-erase name k db, eq_iff name k)

dropped-eq-declared :
    (k : String)
    → any (λ name. name == k) dropped_names ≡ is_some (lookup k build_combined_metadata)
dropped-eq-declared k =
    subst (λ ts. any (λ name. name == k) dropped_names ≡ is_some (lookup k ts)) created-eq-declared
      (unfold lookup in ground arith)

-- A downgrade drops exactly the tables that the repositories declare.
pub downgraded :
    (db : Tables) (k : String)
    → lookup k (downgrade db)
      ≡ (if is_some (lookup k build_combined_metadata) then none else lookup k db)
unfolding downgrade
downgraded db k = rw (lookup-drop_all k dropped_names db, dropped-eq-declared k) refl

-- Upgrading a database that has none of the repositories' tables and downgrading it again leaves every
-- table as it was, under every name.
pub downgrade-upgrade :
    (db : Tables)
    → ((k : String) → is_some (lookup k build_combined_metadata) ≡ true → lookup k db ≡ none)
    → (k : String) → lookup k (downgrade (upgrade db)) ≡ lookup k db
downgrade-upgrade db fresh k = ground (arith, downgraded (upgrade db) k, upgraded db k, fresh k)
