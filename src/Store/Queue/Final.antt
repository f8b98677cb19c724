-- ===== src/Store/Queue/Final.antt =====
-- A settled job of the queue in store/sqlite_store.py stays settled.
use athome_japan_agent_harne.Common.{
  ℕ, ◌+◌, ◌*◌, String, ◌≡◌, ◌≢◌, refl, sym, ◌∙◌, Bool, true, false, ◌&&◌, ◌||◌, some, none, Option,
  List, [], ◌∷◌, ◌++◌, inl, inr, arith, ltb, find, find-holds, find-In, update, In, All, Bool-cases,
  Option-cases, eq_iff, eq_false-of_ne,
}
use athome_japan_agent_harne.Models.{HydrationJob, HydrationStatus, HydrationIntent, succeeded}
use athome_japan_agent_harne.Store.Db.{Db}
use athome_japan_agent_harne.Store.Queue.{
  has_key, has_id, is_queued, is_leased, second, get_hydration_job, fresh_detail, held_by,
  enqueue_hydration, enqueue_fresh, enqueue_stale, new_job, skip, eligible, oldest, claim_hydration,
  claim_row, lease, transition_claimed, settle, with_error, retry_status, fail_current,
  acknowledge_hydration_success, record_hydration_failure, cancel_hydration, cancel, holds_token,
}
use athome_japan_agent_harne.Store.Queue.Rows.{Distinct, KeepsIdentity, find-update_other}
use athome_japan_agent_harne.Store.Queue.Oldest.{oldest-IsOldest}
use athome_japan_agent_harne.Store.Queue.Claim.{row-eq-stored}
use athome_japan_agent_harne.Store.Queue.Invariant.{
  IsQueue, Call, enqueue, claim, acknowledge, record_failure, cancel_job, run_call, run_calls,
  run_call-IsQueue,
}

-- Neither waiting nor leased.
abbrev pub IsFinal : HydrationJob → Type 0
IsFinal j = (is_queued j.status || is_leased j.status) ≡ false

pub find-append :
    (p : HydrationJob → Bool) (xs ys : List HydrationJob) {a : HydrationJob}
    → find p xs ≡ some a
    → find p (xs ++ ys) ≡ some a
find-append p [] ys h = cc
find-append p (x ∷ xs) ys h = elim (Bool-cases (p x)) [
  | inl e ↦ rw e (rw e at h)
  | inr e ↦ rw e (find-append p xs ys (rw e at h))
]

pub find-update_key :
    (f : HydrationJob → HydrationJob) (same : KeepsIdentity f) (key other : String)
    (jobs : List HydrationJob)
    → other ≢ key
    → find (has_key key) (update (has_key other) f jobs) ≡ find (has_key key) jobs
find-update_key f same key other [] apart = refl
find-update_key f same key other (j ∷ jobs) apart = elim (Bool-cases (has_key other j)) [
  | inl e ↦
      let at_other : j.athome_key ≡ other = (eq_iff j.athome_key other).0 e in
      let miss : j.athome_key ≢ key = λ q. apart (sym at_other ∙ q) in
      rw (e, (same j).key, eq_false-of_ne j.athome_key key miss)
        (find-update_key f same key other jobs apart)
  | inr e ↦ rw (e, find-update_key f same key other jobs apart)
]

module _ (db : Db) (key : String) (j : HydrationJob) (d : Distinct db.jobs)
    (stored : get_hydration_job db key ≡ some j) (final : IsFinal j) where
  stored_key : j.athome_key ≡ key
  unfolding get_hydration_job
  stored_key = (eq_iff j.athome_key key).0 (find-holds (has_key key) db.jobs j stored)

  -- A row that waits or is leased is another one, so its update leaves the job alone.
  update_pending-stored :
      (f : HydrationJob → HydrationJob) (same : KeepsIdentity f) (row : HydrationJob)
      → In row db.jobs
      → (is_queued row.status || is_leased row.status) ≡ true
      → get_hydration_job (record db { jobs = update (has_id row.job_id) f db.jobs }) key ≡ some j
  unfolding get_hydration_job
  update_pending-stored f same row m pending =
      find-update_other f same db.jobs row key d m other_key ∙ stored
    where
      other_key : row.athome_key ≢ key
      other_key e =
          let is_job : row ≡ j =
            row-eq-stored db row j d m (e ∙ sym stored_key) (simp stored_key stored) in
          let waits : (is_queued j.status || is_leased j.status) ≡ true = rw is_job at pending in cc

  enqueue_fresh-stored :
      (other : String) (now : ℕ)
      → get_hydration_job (enqueue_fresh (get_hydration_job db other) other now db).1 key ≡ some j
  unfolding get_hydration_job
  enqueue_fresh-stored other now = elim (Option-cases (find (has_key other) db.jobs)) [
    | inl absent ↦ rw absent stored
    | inr (i, found) ↦ elim (Bool-cases (is_queued i.status || is_leased i.status)) [
      | inr settled ↦ rw (found, settled) stored
      | inl pending ↦
          rw (found, pending)
            (find-update_key (skip now) (λ k. record { key = refl; id = refl }) key other db.jobs
                (λ e.
                  let is_job : j ≡ i =
                    let at_key : find (has_key key) db.jobs ≡ some i = rw e at found in cc in
                  let waits : (is_queued j.status || is_leased j.status) ≡ true =
                    rw (← is_job) at pending in
                  cc)
              ∙ stored)
    ]
  ]

  enqueue_stale-stored :
      (intent : HydrationIntent) (max_attempts now : ℕ)
      → get_hydration_job
          (enqueue_stale (get_hydration_job db intent.athome_key) intent max_attempts now db).1
          key
        ≡ some j
  unfolding get_hydration_job
  enqueue_stale-stored intent max_attempts now =
      elim (Option-cases (find (has_key intent.athome_key) db.jobs)) [
        | inl absent ↦ rw absent (
            find-append (has_key key) db.jobs (new_job intent db.next_job max_attempts now ∷ [])
              stored)
        | inr (i, found) ↦ rw found stored
      ]

  enqueue-stored :
      (intent : HydrationIntent) (max_attempts now : ℕ)
      → get_hydration_job (enqueue_hydration intent max_attempts now db).1 key ≡ some j
  unfolding enqueue_hydration
  enqueue-stored intent max_attempts now = elim (Bool-cases (ltb max_attempts 1)) [
    | inl bad ↦ rw bad stored
    | inr good ↦ elim (Bool-cases (fresh_detail db intent.internal_id now)) [
      | inl fresh ↦ rw (good, fresh) (enqueue_fresh-stored intent.athome_key now)
      | inr stale ↦ rw (good, stale) (enqueue_stale-stored intent max_attempts now)
    ]
  ]

  eligible-pending :
      (now : ℕ) (row : HydrationJob)
      → eligible now row ≡ true
      → (is_queued row.status || is_leased row.status) ≡ true
  unfolding eligible
  eligible-pending now row h = ground arith

  claim-stored :
      (lease_seconds : ℕ) (token : String) (now : ℕ)
      → get_hydration_job
          (claim_row (oldest (eligible now) db.jobs) lease_seconds token now db).1
          key
        ≡ some j
  claim-stored lease_seconds token now = elim (Option-cases (oldest (eligible now) db.jobs)) [
    | inl nothing ↦ rw nothing stored
    | inr (row, found) ↦
        let o = oldest-IsOldest (eligible now) db.jobs row found in
        let pending = eligible-pending now row o.passes in
        elim (Bool-cases (fresh_detail db row.internal_id now)) [
          | inl fresh ↦
              rw (found, fresh)
                (update_pending-stored (skip now) (λ k. record { key = refl; id = refl }) row
                  o.listed pending)
          | inr stale ↦
              rw (found, stale)
                (update_pending-stored (lease token (now + lease_seconds * second) now)
                  (λ k. record { key = refl; id = refl }) row o.listed pending)
        ]
  ]

  transition-stored :
      (other token : String) (status : HydrationStatus) (values : HydrationJob → HydrationJob)
      (now : ℕ)
      → KeepsIdentity values
      → get_hydration_job (transition_claimed other token status values now db).1 key ≡ some j
  unfolding transition_claimed
  transition-stored other token status values now same =
      elim (Option-cases (find (held_by other token) db.jobs)) [
        | inl nothing ↦ rw nothing stored
        | inr (row, found) ↦
            let hit : held_by other token row ≡ true =
              find-holds (held_by other token) db.jobs row found in
            rw found (
              update_pending-stored (λ i. values (settle status now i))
                (λ i. record {
                  key = (same (settle status now i)).key;
                  id = (same (settle status now i)).id;
                })
                row (find-In (held_by other token) db.jobs row found) (ground arith))
      ]

  fail-stored :
      (o : Option HydrationJob) (other token category error : String) (now : ℕ)
      → get_hydration_job (fail_current o other token category error now db).1 key ≡ some j
  fail-stored none other token category error now = stored
  fail-stored (some i) other token category error now =
      elim (Bool-cases (holds_token i.lease_token token && is_leased i.status)) [
        | inl held ↦ rw held (
            transition-stored other token (retry_status i) (with_error category error) now
              (λ k. record { key = refl; id = refl }))
        | inr lost ↦ rw lost stored
      ]

-- The call does not cancel the key.
abbrev pub Spares : String → Call → Type 0
Spares key (cancel_job other reason now) = other ≢ key
Spares key _ = Unit

run_call-stored :
    (c : Call) (db : Db) (key : String) (j : HydrationJob)
    → IsQueue db
    → get_hydration_job db key ≡ some j
    → IsFinal j
    → Spares key c
    → get_hydration_job (run_call c db) key ≡ some j
unfolding run_call claim_hydration acknowledge_hydration_success record_hydration_failure
    cancel_hydration get_hydration_job
run_call-stored (enqueue intent max_attempts now) db key j q stored final s =
    enqueue-stored db key j q.distinct stored final intent max_attempts now
run_call-stored (claim lease_seconds token now) db key j q stored final s =
    elim (Bool-cases (ltb lease_seconds 1)) [
      | inl bad ↦ rw (bad, run_call) stored
      | inr good ↦
          rw (good, run_call)
            (claim-stored db key j q.distinct stored final lease_seconds token now)
    ]
run_call-stored (acknowledge other token now) db key j q stored final s =
    transition-stored db key j q.distinct stored final other token succeeded (λ i. i) now
      (λ i. record { key = refl; id = refl })
run_call-stored (record_failure other token category error now) db key j q stored final s =
    fail-stored db key j q.distinct stored final (get_hydration_job db other) other token category
      error now
run_call-stored (cancel_job other reason now) db key j q stored final s =
    find-update_key (cancel reason now) (λ i. record { key = refl; id = refl }) key other db.jobs s
    ∙ stored

-- A job that succeeded, was skipped, failed or was cancelled stays exactly as it is, whatever calls
-- follow, while none of them cancels it: it is never claimed again, and to enqueue its listing again
-- does nothing, also once the stored detail has gone stale.
pub run_calls-final :
    (calls : List Call) (db : Db) (key : String) (j : HydrationJob)
    → IsQueue db
    → get_hydration_job db key ≡ some j
    → IsFinal j
    → All (Spares key) calls
    → get_hydration_job (run_calls calls db) key ≡ some j
unfolding run_calls
run_calls-final [] db key j q stored final s = stored
run_calls-final (c ∷ calls) db key j q stored final (s, spares) =
    run_calls-final calls (run_call c db) key j (run_call-IsQueue c db q)
      (run_call-stored c db key j q stored final s) final spares
