-- ===== src/Store/Schema.antt =====
-- store/sqlite_store.py: the migration of a database to the current schema. A database is its catalog here: the
-- names of its tables other than listings and of its indexes, the columns of listings, and the rows of
-- schema_version.
pub mod Migrated
mod Tests
use athome_japan_agent_harne.Common.{
  ℕ, String, ◌==◌, Bool, true, false, Option, none, some, List, [], ◌∷◌, ◌++◌, any, map, ltb,
  if◌then◌else◌,
}

pub record Catalog : Type 0 where
  pub tables : List String
  pub indexes : List String
  -- nothing where there is no such table
  pub listing_columns : Option (List String)
  pub versions : List ℕ

abbrev pub schema_version : ℕ
schema_version = 3

abbrev pub member : String → List String → Bool
member name names = any (λ n. n == name) names

-- `IF NOT EXISTS`, and `if … not in columns`
abbrev pub add_missing : String → List String → List String
add_missing name names = if member name names then names else names ++ name ∷ []

unfoldable pub add_all : List String → List String → List String
add_all [] names = names
add_all (n ∷ news) names = add_all news (add_missing n names)

-- The columns of the listings table in `_SCHEMA_SQL`.
abbrev pub listing_columns : List String
listing_columns =
    "internal_id" ∷ "athome_key" ∷ "url" ∷ "payload" ∷ "completeness" ∷ "detail_fetched_at"
    ∷ "detail_fresh_until" ∷ "agency_kaiin_no" ∷ "created_at" ∷ "updated_at" ∷ []

abbrev pub lifecycle_columns : List String
lifecycle_columns =
    "completeness" ∷ "detail_fetched_at" ∷ "detail_fresh_until" ∷ "agency_kaiin_no" ∷ []

abbrev pub schema_tables : List String
schema_tables =
    "agencies" ∷ "searches" ∷ "recommendations" ∷ "feedback" ∷ "cache_meta" ∷ "schema_version"
    ∷ "hydration_jobs" ∷ []

abbrev pub eligible_index : List String
eligible_index = "hydration_jobs_eligible_idx" ∷ []

abbrev pub or_created : Option (List String) → Option (List String)
or_created none = some listing_columns
or_created (some columns) = some columns

-- `executescript(_SCHEMA_SQL)`
unfoldable pub execute_schema : Catalog → Catalog
unfolding add_all
execute_schema c = record c {
  tables = add_all schema_tables c.tables;
  indexes = add_all eligible_index c.indexes;
  listing_columns = or_created c.listing_columns;
}

abbrev pub first : List ℕ → Option ℕ
first [] = none
first (v ∷ vs) = some v

-- `_read_version`, where the table is there
unfoldable pub read_version : Catalog → Option ℕ
read_version c = first c.versions

abbrev pub with_lifecycle : Option (List String) → Option (List String)
with_lifecycle none = none
with_lifecycle (some columns) = some (add_all lifecycle_columns columns)

-- The steps below `if version < 2` and `if version < 3`.
abbrev pub upgrade_listings : Catalog → Catalog
upgrade_listings c = record c {
  listing_columns = with_lifecycle c.listing_columns;
  tables = add_missing "agencies" c.tables;
}

abbrev pub upgrade_jobs : Catalog → Catalog
upgrade_jobs c = record c {
  tables = add_missing "hydration_jobs" c.tables;
  indexes = add_all eligible_index c.indexes;
}

abbrev pub step : ℕ → (Catalog → Catalog) → ℕ × Catalog → ℕ × Catalog
step target upgrade (version, c) = if ltb version target then (target, upgrade c) else (version, c)

abbrev pub update_version : ℕ × Catalog → ℕ × Catalog
update_version (version, c) =
    if ltb version schema_version
    then (schema_version, record c { versions = map (λ _. schema_version) c.versions })
    else (schema_version, c)

abbrev pub upgrade : Option ℕ → Catalog → ℕ × Catalog
upgrade none c = (schema_version, record c { versions = c.versions ++ schema_version ∷ [] })
upgrade (some version) c =
    update_version (step 3 upgrade_jobs (step 2 upgrade_listings (version, c)))

unfoldable pub migrate : Catalog → ℕ × Catalog
unfolding execute_schema read_version
migrate c = upgrade (read_version (execute_schema c)) (execute_schema c)
