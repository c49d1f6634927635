-- ===== src/Tests/Schema.antt =====
-- Databases that are migrated.
use service_order_os_service.Prelude.{
  none, some, is_some, true, String, [], ◌∷◌, ◌≡◌, refl, arith, sym, subst, Bool-cases, inl, inr,
  ◌==◌, eq_iff,
}
use service_order_os_service.Prelude.Dict.{lookup, insert}
use service_order_os_service.Sql.Schema.{
  Tables, string, key_column, build_combined_metadata, combine, to_metadata,
}
use service_order_os_service.Sql.Migrations.{upgrade, downgrade}
use service_order_os_service.Sql.Migrations.Laws.{upgraded, downgrade-upgrade}

-- A database with the table of Alembic's versions.
abbrev versioned : Tables
versioned = ("alembic_version", key_column "version_num" (string 32) ∷ []) ∷ []

-- A database in which an older table of customers is left.
abbrev with_customers : Tables
with_customers = ("customers", key_column "customer_id" (string 32) ∷ []) ∷ versioned

upgraded_example :
    lookup "customers" (upgrade with_customers) ≡ (elim (lookup "customers" with_customers) [
      | none ↦ lookup "customers" build_combined_metadata
      | some c ↦ some c
    ])
upgraded_example = upgraded with_customers "customers"

fresh : (k : String) → is_some (lookup k build_combined_metadata) ≡ true → lookup k versioned ≡ none
unfolding lookup build_combined_metadata combine to_metadata insert
fresh k h = elim (Bool-cases ("alembic_version" == k)) [
  | inl same ↦
      let declared : is_some (lookup "alembic_version" build_combined_metadata) ≡ true =
        subst (λ x. is_some (lookup x build_combined_metadata) ≡ true)
          (sym ((eq_iff "alembic_version" k).0 same)) h in
      absurd (ground (arith, declared))
  | inr other ↦ rw other refl
]

downgrade-upgrade_example :
    lookup "alembic_version" (downgrade (upgrade versioned)) ≡ lookup "alembic_version" versioned
downgrade-upgrade_example = downgrade-upgrade versioned fresh "alembic_version"
