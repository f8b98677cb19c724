-- ===== src/Store/Queue/Settle.antt =====
-- The guarded transitions of store/sqlite_store.py: what the holder of a lease may do, and that
-- nobody else may.
use athome_japan_agent_harne.Common.{
  ℕ, String, ◌≡◌, ◌≢◌, refl, sym, ap, ◌∙◌, Bool, true, false, ◌&&◌, some, none, inl, inr, arith,
  ltb, if◌then◌else◌, ok, err, find, find-holds, find-In, find-none, update, All-In, Option-cases,
  eq_iff,
}
use athome_japan_agent_harne.Models.{HydrationJob, HydrationStatus, queued, succeeded, failed}
use athome_japan_agent_harne.Store.Db.{Db, value_error}
use athome_japan_agent_harne.Store.Queue.{
  Outcome, has_key, has_id, is_leased, get_hydration_job, held_by, holds_token, settle, with_error,
  retry_status, transition_claimed, acknowledge_hydration_success, record_hydration_failure,
}
use athome_japan_agent_harne.Store.Queue.Rows.{
  Distinct, KeepsIdentity, find-update_self, find-update_other,
}
use athome_japan_agent_harne.Store.Queue.Claim.{row-eq-stored}

-- The stored job of the key is leased to the token.
abbrev pub holds_lease : String → HydrationJob → Bool
holds_lease token j = is_leased j.status && holds_token j.lease_token token

-- A call that returned `job`, now stored under its key, and left all other keys as they were.
pub record IsSettled (db : Db) (key : String) (job : HydrationJob) (outcome : Outcome HydrationJob)
    : Type 0 where
  pub after : Db
  pub returns : outcome ≡ (ok job, after)
  pub stored : get_hydration_job after key ≡ some job
  pub others :
      (other : String) → key ≢ other → get_hydration_job after other ≡ get_hydration_job db other

module _ (db : Db) (key token : String) (j : HydrationJob) (d : Distinct db.jobs)
    (stored : get_hydration_job db key ≡ some j) where
  stored_key : j.athome_key ≡ key
  unfolding get_hydration_job
  stored_key = (eq_iff j.athome_key key).0 (find-holds (has_key key) db.jobs j stored)

  held-eq-stored : (row : HydrationJob) → find (held_by key token) db.jobs ≡ some row → row ≡ j
  held-eq-stored row found =
      let hit : held_by key token row ≡ true = find-holds (held_by key token) db.jobs row found in
      let row_key : row.athome_key ≡ key = ground (arith, eq_iff row.athome_key key) in
      row-eq-stored db row j d (find-In (held_by key token) db.jobs row found)
        (row_key ∙ sym stored_key) (simp stored_key stored)

  not_held : holds_lease token j ≡ false → find (held_by key token) db.jobs ≡ none
  not_held lost = elim (Option-cases (find (held_by key token) db.jobs)) [
    | inl nothing ↦ nothing
    | inr (row, found) ↦
        let hit : held_by key token row ≡ true = find-holds (held_by key token) db.jobs row found in
        let hit_j : held_by key token j ≡ true = rw (held-eq-stored row found) at hit in
        absurd (ground arith)
  ]

  held : holds_lease token j ≡ true → find (held_by key token) db.jobs ≡ some j
  unfolding get_hydration_job
  held mine = elim (Option-cases (find (held_by key token) db.jobs)) [
    | inl nothing ↦
        let miss : held_by key token j ≡ false =
          All-In (λ i. held_by key token i ≡ false) db.jobs j
            (find-none (held_by key token) db.jobs nothing)
            (find-In (has_key key) db.jobs j stored) in
        absurd (ground (arith, eq_iff j.athome_key key, stored_key))
    | inr (row, found) ↦ rw found (ap some (held-eq-stored row found))
  ]

  -- Whoever does not hold the job's present lease, because it ran out and was claimed by another or
  -- because the job is settled, can neither acknowledge the job nor record a failure on it: both
  -- raise `ValueError` and change nothing.
  pub settle-stale_token :
      (category error : String) (now : ℕ)
      → holds_lease token j ≡ false
      → (acknowledge_hydration_success key token now db ≡ (err value_error, db))
        × (record_hydration_failure key token category error now db ≡ (err value_error, db))
  unfolding acknowledge_hydration_success record_hydration_failure get_hydration_job
  settle-stale_token category error now lost = (rw (not_held lost), rw stored (ground arith))

  module _ (values : HydrationJob → HydrationJob) (same : KeepsIdentity values)
      (status : HydrationStatus) (now : ℕ) (mine : holds_lease token j ≡ true) where
    abbrev set : HydrationJob → HydrationJob
    set i = values (settle status now i)

    set-KeepsIdentity : KeepsIdentity set
    set-KeepsIdentity i = record {
      key = (same (settle status now i)).key;
      id = (same (settle status now i)).id;
    }

    read_back :
        get_hydration_job (record db { jobs = update (has_id j.job_id) set db.jobs }) key
        ≡ some (set j)
    unfolding get_hydration_job
    read_back = simp (sym stored_key) (
        find-update_self set set-KeepsIdentity db.jobs j d (find-In (has_key key) db.jobs j stored))

    transition_claimed-held :
        IsSettled db key (set j) (transition_claimed key token status values now db)
    unfolding transition_claimed get_hydration_job
    transition_claimed-held = record {
      after = record db { jobs = update (has_id j.job_id) set db.jobs };
      returns = rw (held mine, read_back);
      stored = read_back;
      others = λ other apart.
          find-update_other set set-KeepsIdentity db.jobs j other d
            (find-In (has_key key) db.jobs j stored) (λ e. apart (sym stored_key ∙ e));
    }

  -- The holder of the lease acknowledges the job: it is succeeded, its lease is gone, its attempts
  -- stay counted, and no other job changes.
  pub acknowledge-held :
      (now : ℕ)
      → holds_lease token j ≡ true
      → IsSettled db key (settle succeeded now j) (acknowledge_hydration_success key token now db)
  unfolding acknowledge_hydration_success
  acknowledge-held now mine =
      transition_claimed-held (λ i. i) (λ i. record { key = refl; id = refl }) succeeded now mine

  -- The holder of the lease records a failure: the job goes back to the queue while it has attempts
  -- left and is failed for good once it has none; the category and the error are kept, the lease is
  -- gone, and no other job changes.
  pub record_failure-held :
      (category error : String) (now : ℕ)
      → holds_lease token j ≡ true
      → IsSettled db key
          (with_error category error
            (settle (if ltb j.attempts j.max_attempts then queued else failed) now j))
          (record_hydration_failure key token category error now db)
  unfolding record_hydration_failure get_hydration_job
  record_failure-held category error now mine =
      let test : (holds_token j.lease_token token && is_leased j.status) ≡ true = ground arith in
      rw (stored, test)
        (transition_claimed-held (with_error category error) (λ i. record { key = refl; id = refl })
          (retry_status j) now mine)
