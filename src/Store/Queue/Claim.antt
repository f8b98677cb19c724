-- ===== src/Store/Queue/Claim.antt =====
-- `claim_hydration` of store/sqlite_store.py: which job is leased, and until when.
use athome_japan_agent_harne.Common.{
  ℕ, ◌+◌, ◌*◌, ◌≤◌, String, ◌≡◌, ◌≢◌, refl, sym, ◌∙◌, true, false, none, some, inl, inr, arith, ltb,
  ok, update, In, Bool-cases, Option-cases,
}
use athome_japan_agent_harne.Models.{HydrationJob, leased}
use athome_japan_agent_harne.Store.Db.{Db}
use athome_japan_agent_harne.Store.Queue.{
  get_hydration_job, fresh_detail, eligible, oldest, second, lease, skip, claim_hydration, has_id,
}
use athome_japan_agent_harne.Store.Queue.Rows.{
  Distinct, KeepsIdentity, In-find_key, find-update_self, find-update_other,
}
use athome_japan_agent_harne.Store.Queue.Oldest.{IsOldest, oldest-IsOldest}

-- What a claim that returns `job` says of the tables before and after it.
pub record TakesJob (lease_seconds : ℕ) (token : String) (now : ℕ) (db after : Db)
    (job : HydrationJob) : Type 0 where
  pub row : HydrationJob
  pub oldest_eligible : IsOldest (eligible now) db.jobs row
  pub stale : fresh_detail db row.internal_id now ≡ false
  pub leased_row : job ≡ lease token (now + lease_seconds * second) now row
  pub counted : job.attempts ≡ row.attempts + 1
  pub is_leased_now : job.status ≡ leased
  pub token_held : job.lease_token ≡ some token
  pub expires : job.lease_until ≡ some (now + lease_seconds * second)
  pub stored : get_hydration_job after job.athome_key ≡ some job
  pub others :
      (key : String) → job.athome_key ≢ key → get_hydration_job after key ≡ get_hydration_job db key

lease-KeepsIdentity : (token : String) (until now : ℕ) → KeepsIdentity (lease token until now)
lease-KeepsIdentity token until now j = record { key = refl; id = refl }

-- The tables after a claim of `row`.
abbrev lease_row : ℕ → String → ℕ → Db → HydrationJob → Db
lease_row lease_seconds token now db row = record db {
  jobs = update (has_id row.job_id) (lease token (now + lease_seconds * second) now) db.jobs;
}

module _ (lease_seconds : ℕ) (token : String) (now : ℕ) (db : Db) (valid : 1 ≤ lease_seconds) where
  valid_test : ltb lease_seconds 1 ≡ false
  valid_test = ground arith

  pub claim-idle :
      oldest (eligible now) db.jobs ≡ none
      → claim_hydration lease_seconds token now db ≡ (ok none, db)
  unfolding claim_hydration
  claim-idle nothing = rw (valid_test, nothing)

  pub claim-fresh :
      (row : HydrationJob)
      → oldest (eligible now) db.jobs ≡ some row
      → fresh_detail db row.internal_id now ≡ true
      → claim_hydration lease_seconds token now db
        ≡ (ok none, record db { jobs = update (has_id row.job_id) (skip now) db.jobs })
  unfolding claim_hydration
  claim-fresh row found fresh = rw (valid_test, found, fresh)

  pub claim-stale :
      (row : HydrationJob)
      → Distinct db.jobs
      → oldest (eligible now) db.jobs ≡ some row
      → fresh_detail db row.internal_id now ≡ false
      → claim_hydration lease_seconds token now db ≡ (
        ok (some (lease token (now + lease_seconds * second) now row)),
        lease_row lease_seconds token now db row,
      )
  unfolding claim_hydration
  claim-stale row d found stale =
      let self =
        find-update_self (lease token (now + lease_seconds * second) now)
          (lease-KeepsIdentity token (now + lease_seconds * second) now) db.jobs row d
          (oldest-IsOldest (eligible now) db.jobs row found).listed in
      rw (valid_test, found, stale, self)

module _ (lease_seconds : ℕ) (token : String) (now : ℕ) (db after : Db) (job : HydrationJob)
    (d : Distinct db.jobs)
    (h : claim_hydration lease_seconds token now db ≡ (ok (some job), after)) where
  claim_valid : 1 ≤ lease_seconds
  unfolding claim_hydration
  claim_valid = ground arith

  TakesJob-at :
      (row : HydrationJob)
      → oldest (eligible now) db.jobs ≡ some row
      → fresh_detail db row.internal_id now ≡ false
      → TakesJob lease_seconds token now db after job
  unfolding get_hydration_job
  TakesJob-at row found stale =
      let until = now + lease_seconds * second in
      let same = lease-KeepsIdentity token until now in
      let o = oldest-IsOldest (eligible now) db.jobs row found in
      let e = sym (claim-stale lease_seconds token now db claim_valid row d found stale) ∙ h in
      let job_eq : job ≡ lease token until now row = cc in
      let db_eq : after ≡ lease_row lease_seconds token now db row = cc in
      record {
        row = row;
        oldest_eligible = o;
        stale = stale;
        leased_row = job_eq;
        counted = rw job_eq refl;
        is_leased_now = rw job_eq refl;
        token_held = rw job_eq refl;
        expires = rw job_eq refl;
        stored =
            rw (db_eq, job_eq)
              (find-update_self (lease token until now) same db.jobs row d o.listed);
        others = λ key.
            rw (db_eq, job_eq)
              (λ apart.
                find-update_other (lease token until now) same db.jobs row key d o.listed apart);
      }

  -- A claim that returns a job has leased the oldest eligible one, whose detail was not fresh, for
  -- `lease_seconds` from `now`, has counted one more attempt, and has left every other job as it was.
  pub claim_hydration-TakesJob : TakesJob lease_seconds token now db after job
  claim_hydration-TakesJob = elim (Option-cases (oldest (eligible now) db.jobs)) [
    | inl nothing ↦
        let e = sym (claim-idle lease_seconds token now db claim_valid nothing) ∙ h in absurd (cc)
    | inr (row, found) ↦ elim (Bool-cases (fresh_detail db row.internal_id now)) [
      | inl fresh ↦
          let e = sym (claim-fresh lease_seconds token now db claim_valid row found fresh) ∙ h in
          absurd (cc)
      | inr stale ↦ TakesJob-at row found stale
    ]
  ]

-- A row of the table that has the key of a stored job is that job.
pub row-eq-stored :
    (db : Db) (row job : HydrationJob)
    → Distinct db.jobs
    → In row db.jobs
    → row.athome_key ≡ job.athome_key
    → get_hydration_job db job.athome_key ≡ some job
    → row ≡ job
unfolding get_hydration_job
row-eq-stored db row job d m same_key stored =
    let by_key : get_hydration_job db row.athome_key ≡ some job = rw same_key stored in
    let again = sym (In-find_key db.jobs row d m) ∙ by_key in cc
