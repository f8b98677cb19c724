-- ===== src/Store/Queue/Invariant.antt =====
-- The queue of store/sqlite_store.py under any sequence of calls: distinct keys and ids, and a lease
-- exactly while a job is leased.
use athome_japan_agent_harne.Common.{
  ℕ, ◌+◌, ◌*◌, ◌≤◌, ◌<◌, String, ◌≡◌, ◌≢◌, refl, Bool, true, ◌||◌, ◌&&◌, Option, none, some, List,
  [], ◌∷◌, inl, inr, arith, ltb, find, update, All, All-imp, All-append, All-update, Bool-cases,
  Option-cases,
}
use athome_japan_agent_harne.Models.{
  HydrationJob, HydrationIntent, HydrationStatus, leased, succeeded,
}
use athome_japan_agent_harne.Store.Db.{Db}
use athome_japan_agent_harne.Store.Queue.{
  has_key, has_id, is_queued, is_leased, second, get_hydration_job, fresh_detail, enqueue_hydration,
  enqueue_fresh, enqueue_stale, new_job, skip, eligible, oldest, claim_hydration, claim_row, lease,
  transition_claimed, transition_row, settle, held_by, holds_token, with_error, retry_status,
  acknowledge_hydration_success, record_hydration_failure, fail_current, cancel_hydration, cancel,
}
use athome_japan_agent_harne.Store.Queue.Rows.{
  Distinct, Distinct-update, Distinct-snoc, Differs, KeepsIdentity, absent_key,
}

-- A leased job has a token and an expiry, and no other job has either.
abbrev pub LeaseFits : HydrationStatus → Option String → Option ℕ → Type 0
LeaseFits leased (some token) (some until) = Unit
LeaseFits leased _ _ = ⊥
LeaseFits _ none none = Unit
LeaseFits _ _ _ = ⊥

pub record IsJob (next : ℕ) (j : HydrationJob) : Type 0 where
  pub numbered : j.job_id < next
  pub limited : 1 ≤ j.max_attempts
  pub lease_fits : LeaseFits j.status j.lease_token j.lease_until

pub record IsQueue (db : Db) : Type 0 where
  pub distinct : Distinct db.jobs
  pub well_formed : All (IsJob db.next_job) db.jobs

-- An update of some rows keeps the queue well formed if it keeps each of them so.
update-IsQueue :
    (db : Db) (p : HydrationJob → Bool) (f : HydrationJob → HydrationJob)
    → KeepsIdentity f
    → ((j : HydrationJob) → p j ≡ true → IsJob db.next_job j → IsJob db.next_job (f j))
    → IsQueue db
    → IsQueue (record db { jobs = update p f db.jobs })
update-IsQueue db p f same keeps q = record {
  distinct = Distinct-update p f same db.jobs q.distinct;
  well_formed = All-update (IsJob db.next_job) p f keeps db.jobs q.well_formed;
}

skip-same : (now : ℕ) → KeepsIdentity (skip now)
skip-same now j = record { key = refl; id = refl }

skip-IsJob : (now : ℕ) {next : ℕ} (j : HydrationJob) → IsJob next j → IsJob next (skip now j)
skip-IsJob now j w = record { numbered = w.numbered; limited = w.limited; lease_fits = tt }

IsJob-later : {n : ℕ} (j : HydrationJob) → IsJob n j → IsJob (n + 1) j
IsJob-later j w = record {
  numbered = omega (arith, w.numbered);
  limited = w.limited;
  lease_fits = w.lease_fits;
}

enqueue_fresh-IsQueue :
    (o : Option HydrationJob) (key : String) (now : ℕ) (db : Db)
    → IsQueue db
    → IsQueue (enqueue_fresh o key now db).1
enqueue_fresh-IsQueue none key now db q = q
enqueue_fresh-IsQueue (some j) key now db q =
    elim (Bool-cases (is_queued j.status || is_leased j.status)) [
      | inl pending ↦
          rw pending
            (update-IsQueue db (has_key key) (skip now) (skip-same now) (λ j _. skip-IsJob now j) q)
      | inr settled ↦ rw settled q
    ]

new_key-Differs :
    (jobs : List HydrationJob) (j : HydrationJob)
    → All (λ k. k.athome_key ≢ j.athome_key) jobs
    → All (λ k. k.job_id < j.job_id) jobs
    → All (λ k. Differs k j) jobs
new_key-Differs [] j away older = tt
new_key-Differs (k ∷ jobs) j (apart, away) (lt, older) =
    (record { key = apart; id = omega arith }, new_key-Differs jobs j away older)

enqueue_stale-IsQueue :
    (intent : HydrationIntent) (max_attempts now : ℕ) (db : Db)
    → 1 ≤ max_attempts
    → IsQueue db
    → IsQueue (enqueue_stale (get_hydration_job db intent.athome_key) intent max_attempts now db).1
unfolding get_hydration_job
enqueue_stale-IsQueue intent max_attempts now db valid q =
    elim (Option-cases (get_hydration_job db intent.athome_key)) [
      | inl absent ↦
          let apart = absent_key intent.athome_key db.jobs absent in
          let new_row = new_job intent db.next_job max_attempts now in
          rw absent (record {
            distinct = Distinct-snoc db.jobs new_row q.distinct (
                new_key-Differs db.jobs new_row apart
                  (All-imp (λ j w. w.numbered) db.jobs q.well_formed));
            well_formed =
                All-append (IsJob (db.next_job + 1)) db.jobs (new_row ∷ [])
                  (All-imp IsJob-later db.jobs q.well_formed)
                  (record { numbered = omega arith; limited = valid; lease_fits = tt }, tt);
          })
      | inr (j, found) ↦ rw found q
    ]

claim_row-IsQueue :
    (o : Option HydrationJob) (lease_seconds : ℕ) (token : String) (now : ℕ) (db : Db)
    → IsQueue db
    → IsQueue (claim_row o lease_seconds token now db).1
claim_row-IsQueue none lease_seconds token now db q = q
claim_row-IsQueue (some row) lease_seconds token now db q =
    elim (Bool-cases (fresh_detail db row.internal_id now)) [
      | inl fresh ↦ rw fresh (
          update-IsQueue db (has_id row.job_id) (skip now) (skip-same now) (λ j _. skip-IsJob now j)
            q)
      | inr stale ↦ rw stale (
          update-IsQueue db (has_id row.job_id) (lease token (now + lease_seconds * second) now)
            (λ j. record { key = refl; id = refl })
            (λ j _ w. record { numbered = w.numbered; limited = w.limited; lease_fits = tt }) q)
    ]

transition_row-IsQueue :
    (o : Option HydrationJob) (set : HydrationJob → HydrationJob) (key : String) (db : Db)
    → KeepsIdentity set
    → ((j : HydrationJob) → IsJob db.next_job j → IsJob db.next_job (set j))
    → IsQueue db
    → IsQueue (transition_row o set key db).1
transition_row-IsQueue none set key db same keeps q = q
transition_row-IsQueue (some row) set key db same keeps q =
    update-IsQueue db (has_id row.job_id) set same (λ j _. keeps j) q

-- A settled status is one that needs no lease.
abbrev Unleased : HydrationStatus → Type 0
Unleased status = LeaseFits status none none

transition_claimed-IsQueue :
    (athome_key token : String) (status : HydrationStatus) (values : HydrationJob → HydrationJob)
    (now : ℕ) (db : Db)
    → Unleased status
    → KeepsIdentity values
    → ((j : HydrationJob) → IsJob db.next_job j → IsJob db.next_job (values j))
    → IsQueue db
    → IsQueue (transition_claimed athome_key token status values now db).1
unfolding transition_claimed
transition_claimed-IsQueue athome_key token status values now db fits same keeps q =
    transition_row-IsQueue (find (held_by athome_key token) db.jobs)
      (λ j. values (settle status now j)) athome_key db
      (λ j. record { key = (same (settle status now j)).key; id = (same (settle status now j)).id })
      (λ j w.
        keeps (settle status now j)
          (record { numbered = w.numbered; limited = w.limited; lease_fits = fits }))
      q

with_error-IsJob :
    (category error : String) {next : ℕ} (j : HydrationJob)
    → IsJob next j
    → IsJob next (with_error category error j)
with_error-IsJob category error j w = record {
  numbered = w.numbered;
  limited = w.limited;
  lease_fits = w.lease_fits;
}

retry_status-Unleased : (j : HydrationJob) → Unleased (retry_status j)
retry_status-Unleased j = elim (Bool-cases (ltb j.attempts j.max_attempts)) [
  | inl more ↦ rw more tt
  | inr spent ↦ rw spent tt
]

fail_current-IsQueue :
    (o : Option HydrationJob) (key token category error : String) (now : ℕ) (db : Db)
    → IsQueue db
    → IsQueue (fail_current o key token category error now db).1
fail_current-IsQueue none key token category error now db q = q
fail_current-IsQueue (some j) key token category error now db q =
    elim (Bool-cases (holds_token j.lease_token token && is_leased j.status)) [
      | inl held ↦ rw held (
          transition_claimed-IsQueue key token (retry_status j) (with_error category error) now db
            (retry_status-Unleased j) (λ i. record { key = refl; id = refl })
            (with_error-IsJob category error) q)
      | inr lost ↦ rw lost q
    ]

-- One call of the queue's interface, with what it draws from outside: the clock and the token.
pub data Call : Type 0 where
  enqueue : HydrationIntent → (max_attempts now : ℕ) → Call
  claim : (lease_seconds : ℕ) → (token : String) → (now : ℕ) → Call
  acknowledge : (athome_key token : String) → (now : ℕ) → Call
  record_failure : (athome_key token category error : String) → (now : ℕ) → Call
  cancel_job : (athome_key reason : String) → (now : ℕ) → Call

-- The tables after a call, whether it returned or raised.
unfoldable pub run_call : Call → Db → Db
run_call (enqueue intent max_attempts now) db = (enqueue_hydration intent max_attempts now db).1
run_call (claim lease_seconds token now) db = (claim_hydration lease_seconds token now db).1
run_call (acknowledge key token now) db = (acknowledge_hydration_success key token now db).1
run_call (record_failure key token category error now) db =
    (record_hydration_failure key token category error now db).1
run_call (cancel_job key reason now) db = (cancel_hydration key reason now db).1

unfoldable pub run_calls : List Call → Db → Db
run_calls [] db = db
run_calls (c ∷ calls) db = run_calls calls (run_call c db)

pub enqueue_hydration-IsQueue :
    (intent : HydrationIntent) (max_attempts now : ℕ) (db : Db)
    → IsQueue db
    → IsQueue (enqueue_hydration intent max_attempts now db).1
unfolding enqueue_hydration
enqueue_hydration-IsQueue intent max_attempts now db q = elim (Bool-cases (ltb max_attempts 1)) [
  | inl bad ↦ rw bad q
  | inr good ↦ elim (Bool-cases (fresh_detail db intent.internal_id now)) [
    | inl fresh ↦
        rw (good, fresh)
          (enqueue_fresh-IsQueue (get_hydration_job db intent.athome_key) intent.athome_key now db
            q)
    | inr stale ↦
        rw (good, stale) (enqueue_stale-IsQueue intent max_attempts now db (ground arith) q)
  ]
]

pub claim_hydration-IsQueue :
    (lease_seconds : ℕ) (token : String) (now : ℕ) (db : Db)
    → IsQueue db
    → IsQueue (claim_hydration lease_seconds token now db).1
unfolding claim_hydration
claim_hydration-IsQueue lease_seconds token now db q = elim (Bool-cases (ltb lease_seconds 1)) [
  | inl bad ↦ rw bad q
  | inr good ↦
      rw good (claim_row-IsQueue (oldest (eligible now) db.jobs) lease_seconds token now db q)
]

pub run_call-IsQueue : (c : Call) (db : Db) → IsQueue db → IsQueue (run_call c db)
unfolding run_call acknowledge_hydration_success record_hydration_failure cancel_hydration
run_call-IsQueue (enqueue intent max_attempts now) db q =
    enqueue_hydration-IsQueue intent max_attempts now db q
run_call-IsQueue (claim lease_seconds token now) db q =
    claim_hydration-IsQueue lease_seconds token now db q
run_call-IsQueue (acknowledge key token now) db q =
    transition_claimed-IsQueue key token succeeded (λ j. j) now db tt
      (λ j. record { key = refl; id = refl }) (λ j w. w) q
run_call-IsQueue (record_failure key token category error now) db q =
    fail_current-IsQueue (get_hydration_job db key) key token category error now db q
run_call-IsQueue (cancel_job key reason now) db q =
    update-IsQueue db (has_key key) (cancel reason now) (λ j. record { key = refl; id = refl })
      (λ j _ w. record { numbered = w.numbered; limited = w.limited; lease_fits = tt }) q

-- From well-formed tables, whatever calls are made in whatever order, and whichever of them raise,
-- no two jobs share a listing key or an id, each id is below the next one, each limit is positive,
-- and a job has a lease token and an expiry exactly while it is leased.
pub run_calls-IsQueue : (calls : List Call) (db : Db) → IsQueue db → IsQueue (run_calls calls db)
unfolding run_calls
run_calls-IsQueue [] db q = q
run_calls-IsQueue (c ∷ calls) db q =
    run_calls-IsQueue calls (run_call c db) (run_call-IsQueue c db q)
