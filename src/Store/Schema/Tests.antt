-- ===== src/Store/Schema/Tests.antt =====
-- The migration of store/sqlite_store.py on a database of the first version.
use athome_japan_agent_harne.Common.{◌≡◌, refl, some, [], ◌∷◌, arith}
use athome_japan_agent_harne.Store.Schema.{Catalog, migrate, execute_schema, read_version, add_all}
use athome_japan_agent_harne.Store.Schema.Migrated.{MigratedPair, migrate-IsMigrated}

abbrev first_version : Catalog
first_version = record {
  tables = "searches" ∷ "schema_version" ∷ [];
  indexes = [];
  listing_columns =
      some ("internal_id" ∷ "athome_key" ∷ "url" ∷ "payload" ∷ "created_at" ∷ "updated_at" ∷ []);
  versions = 1 ∷ [];
}

still_first : (migrate first_version).1.versions ≡ 1 ∷ []
unfolding migrate execute_schema read_version add_all
still_first = refl

migrate-IsMigrated_example : MigratedPair (1 ∷ []) (migrate first_version)
migrate-IsMigrated_example =
    migrate-IsMigrated first_version
      ((refl, (refl, (refl, (refl, (refl, (refl, tt)))))), λ late. absurd (omega arith))
