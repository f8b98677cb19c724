-- ===== src/Store/Schema/Migrated.antt =====
-- What the migration of store/sqlite_store.py brings a database to.
use athome_japan_agent_harne.Common.{
  ℕ, ◌≤◌, ◌≡◌, refl, String, ◌==◌, Bool, true, false, Option, none, some, List, [], ◌∷◌, ◌++◌, inl,
  inr, any, All, All-imp, Bool-cases, ltb, arith, eq_refl,
}
use athome_japan_agent_harne.Store.Schema.{
  Catalog, listing_columns, member, add_missing, add_all, lifecycle_columns, schema_tables,
  eligible_index, or_created, execute_schema, first, read_version, with_lifecycle, upgrade_listings,
  upgrade_jobs, upgrade, migrate,
}

abbrev pub Has : List String → String → Type 0
Has names n = member n names ≡ true

any_append : (p : String → Bool) (xs ys : List String) → any p xs ≡ true → any p (xs ++ ys) ≡ true
any_append p [] ys h = absurd (cc)
any_append p (x ∷ xs) ys h = elim (Bool-cases (p x)) [
  | inl e ↦ rw e refl
  | inr e ↦ rw e (any_append p xs ys (rw e at h))
]

any_last :
    (p : String → Bool) (xs : List String) (y : String) → p y ≡ true → any p (xs ++ y ∷ []) ≡ true
any_last p [] y h = rw h refl
any_last p (x ∷ xs) y h = elim (Bool-cases (p x)) [
  | inl e ↦ rw e refl
  | inr e ↦ rw e (any_last p xs y h)
]

add_missing-Has : (n : String) (names : List String) → Has (add_missing n names) n
add_missing-Has n names = elim (Bool-cases (member n names)) [
  | inl e ↦ rw e e
  | inr e ↦ rw e (any_last (λ m. m == n) names n (eq_refl n))
]

add_missing-keeps : (n k : String) (names : List String) → Has names k → Has (add_missing n names) k
add_missing-keeps n k names h = elim (Bool-cases (member n names)) [
  | inl e ↦ rw e h
  | inr e ↦ rw e (any_append (λ m. m == k) names (n ∷ []) h)
]

add_all-keeps : (news names : List String) (k : String) → Has names k → Has (add_all news names) k
unfolding add_all
add_all-keeps [] names k h = h
add_all-keeps (n ∷ news) names k h =
    add_all-keeps news (add_missing n names) k (add_missing-keeps n k names h)

add_all-Has : (news names : List String) → All (Has (add_all news names)) news
unfolding add_all
add_all-Has [] names = tt
add_all-Has (n ∷ news) names = (
  add_all-keeps news (add_missing n names) n (add_missing-Has n names),
  add_all-Has news (add_missing n names),
)

-- What is there is not added again.
add_all-same : (news names : List String) → All (Has names) news → add_all news names ≡ names
unfolding add_all
add_all-same [] names all = refl
add_all-same (n ∷ news) names (h, all) = rw h (add_all-same news names all)

-- The columns of listings that every version has.
abbrev pub base_columns : List String
base_columns = "internal_id" ∷ "athome_key" ∷ "url" ∷ "payload" ∷ "created_at" ∷ "updated_at" ∷ []

all_columns :
    (names : List String)
    → All (Has names) base_columns
    → All (Has names) lifecycle_columns
    → All (Has names) listing_columns
all_columns names (a, (b, (c, (d, (e, (f, _)))))) (g, (h, (i, (j, _)))) =
    (a, (b, (c, (d, (g, (h, (i, (j, (e, (f, tt))))))))))

abbrev pub HasColumns : Option (List String) → Type 0
HasColumns none = ⊥
HasColumns (some columns) = All (Has columns) listing_columns

-- The tables and the index of the current schema are there, and the columns of listings.
pub record IsCurrent (c : Catalog) : Type 0 where
  pub tables : All (Has c.tables) schema_tables
  pub indexes : All (Has c.indexes) eligible_index
  pub columns : HasColumns c.listing_columns

-- Where a listings table is there, it has the columns of the first version, and the lifecycle's columns too
-- unless the recorded version is below two.
abbrev pub Recorded : Option ℕ → Option (List String) → Type 0
Recorded none none = Unit
Recorded none (some columns) = All (Has columns) listing_columns
Recorded (some version) none = Unit
Recorded (some version) (some columns) =
    All (Has columns) base_columns × (2 ≤ version → All (Has columns) lifecycle_columns)

-- The rows of schema_version after a migration: those before, or the current version where there are none.
abbrev pub kept_versions : List ℕ → List ℕ
kept_versions [] = 3 ∷ []
kept_versions (v ∷ vs) = v ∷ vs

pub record IsMigrated (versions : List ℕ) (version : ℕ) (d : Catalog) : Type 0 where
  pub version_now : version ≡ 3
  pub current : IsCurrent d
  pub same_versions : d.versions ≡ kept_versions versions

abbrev pub MigratedPair : List ℕ → ℕ × Catalog → Type 0
MigratedPair versions (version, d) = IsMigrated versions version d

created_base : All (Has listing_columns) base_columns
created_base = (refl, (refl, (refl, (refl, (refl, (refl, tt))))))

created_lifecycle : All (Has listing_columns) lifecycle_columns
created_lifecycle = (refl, (refl, (refl, (refl, tt))))

created-HasColumns : (o : Option (List String)) → Recorded none o → HasColumns (or_created o)
created-HasColumns none r = all_columns listing_columns created_base created_lifecycle
created-HasColumns (some columns) r = r

-- The first version's columns stay when the lifecycle's are added.
upgraded_columns :
    (columns : List String)
    → All (Has columns) base_columns
    → All (Has (add_all lifecycle_columns columns)) listing_columns
upgraded_columns columns base =
    all_columns (add_all lifecycle_columns columns)
      (All-imp (λ k h. add_all-keeps lifecycle_columns columns k h) base_columns base)
      (add_all-Has lifecycle_columns columns)

lifecycle-HasColumns :
    (version : ℕ) (o : Option (List String))
    → Recorded (some version) o
    → HasColumns (with_lifecycle (or_created o))
lifecycle-HasColumns version none r = upgraded_columns listing_columns created_base
lifecycle-HasColumns version (some columns) (base, r) = upgraded_columns columns base

late-HasColumns :
    (version : ℕ) (o : Option (List String))
    → Recorded (some version) o
    → ltb version 2 ≡ false
    → HasColumns (or_created o)
late-HasColumns version none r late = all_columns listing_columns created_base created_lifecycle
late-HasColumns version (some columns) (base, r) late = all_columns columns base (r (ground arith))

module _ (o : Option (List String)) (s : Catalog) (there : s.listing_columns ≡ or_created o)
    (tables : All (Has s.tables) schema_tables) (indexes : All (Has s.indexes) eligible_index) where
  more_tables :
      (n : String) (names : List String)
      → All (Has names) schema_tables
      → All (Has (add_missing n names)) schema_tables
  more_tables n names all = All-imp (λ k h. add_missing-keeps n k names h) schema_tables all

  more_indexes : All (Has (add_all eligible_index s.indexes)) eligible_index
  more_indexes = add_all-Has eligible_index s.indexes

  after_listings-IsCurrent :
      (version : ℕ) → Recorded (some version) o → IsCurrent (upgrade_jobs (upgrade_listings s))
  after_listings-IsCurrent version r = record {
    tables =
        more_tables "hydration_jobs" (add_missing "agencies" s.tables)
          (more_tables "agencies" s.tables tables);
    indexes = more_indexes;
    columns = rw there (lifecycle-HasColumns version o r);
  }

  after_jobs-IsCurrent : HasColumns (or_created o) → IsCurrent (upgrade_jobs s)
  after_jobs-IsCurrent columns = record {
    tables = more_tables "hydration_jobs" s.tables tables;
    indexes = more_indexes;
    columns = rw there columns;
  }

  untouched-IsCurrent : HasColumns (or_created o) → IsCurrent s
  untouched-IsCurrent columns = record {
    tables = tables;
    indexes = indexes;
    columns = rw there columns;
  }

  upgrade-IsMigrated :
      (versions : List ℕ)
      → s.versions ≡ versions
      → Recorded (first versions) o
      → MigratedPair versions (upgrade (first versions) s)
  upgrade-IsMigrated [] e r = record {
    version_now = refl;
    current = record {
      tables = tables;
      indexes = indexes;
      columns = rw there (created-HasColumns o r);
    };
    same_versions = rw e refl;
  }
  upgrade-IsMigrated (v ∷ vs) e r = elim (Bool-cases (ltb v 2)) [
    | inl early ↦
        rw early
          (record { version_now = refl; current = after_listings-IsCurrent v r; same_versions = e })
    | inr late ↦
        let columns = late-HasColumns v o r late in
        elim (Bool-cases (ltb v 3)) [
          | inl before ↦
              rw (late, before)
                (record {
                  version_now = refl;
                  current = after_jobs-IsCurrent columns;
                  same_versions = e;
                })
          | inr now ↦
              rw (late, now, now)
                (record {
                  version_now = refl;
                  current = untouched-IsCurrent columns;
                  same_versions = e;
                })
        ]
  ]

-- A migration answers 3 and leaves every table, the index of the jobs and every column of listings in place,
-- whichever of the tables were there; a listings table that was there is to have the columns of the first
-- version, and the lifecycle's too if the recorded version is 2 or more, or all if none is recorded. A recorded
-- version stays as it was: only a database without one records 3.
pub migrate-IsMigrated :
    (c : Catalog)
    → Recorded (first c.versions) c.listing_columns
    → MigratedPair c.versions (migrate c)
unfolding migrate execute_schema read_version
migrate-IsMigrated c r =
    upgrade-IsMigrated c.listing_columns (execute_schema c) refl
      (add_all-Has schema_tables c.tables) (add_all-Has eligible_index c.indexes) c.versions refl r

or_created-same : (o : Option (List String)) → HasColumns o → or_created o ≡ o
or_created-same none h = absurd (h)
or_created-same (some columns) h = refl

-- A second migration changes nothing once the current version is recorded.
pub migrate-same :
    (c : Catalog) (vs : List ℕ) → c.versions ≡ 3 ∷ vs → IsCurrent c → migrate c ≡ (3, c)
unfolding migrate execute_schema read_version
migrate-same c vs e current =
    rw
      (
        add_all-same schema_tables c.tables current.tables,
        add_all-same eligible_index c.indexes current.indexes,
        or_created-same c.listing_columns current.columns,
      )
      (rw e refl)
