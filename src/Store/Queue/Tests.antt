-- ===== src/Store/Queue/Tests.antt =====
-- Runs of the queue of store/sqlite_store.py on one and two jobs.
use athome_japan_agent_harne.Common.{
  ℕ, ◌+◌, ◌*◌, String, ◌≡◌, ◌≢◌, refl, sym, none, some, List, [], ◌∷◌, arith, ok, err,
  ne-of-eq_false,
}
use athome_japan_agent_harne.Models.{HydrationJob, queued, succeeded, failed}
use athome_japan_agent_harne.Store.Db.{Db, value_error}
use athome_japan_agent_harne.Store.Queue.{
  second, lease, settle, with_error, claim_hydration, oldest, eligible, fresh_detail,
  get_hydration_job, acknowledge_hydration_success, record_hydration_failure, enqueue_hydration,
  transition_claimed,
}
use athome_japan_agent_harne.Store.Queue.Rows.{Distinct}
use athome_japan_agent_harne.Store.Queue.Claim.{TakesJob, claim_hydration-TakesJob}
use athome_japan_agent_harne.Store.Queue.Invariant.{
  IsQueue, Call, enqueue, claim, acknowledge, record_failure, cancel_job, run_call, run_calls,
  run_calls-IsQueue,
}
use athome_japan_agent_harne.Store.Queue.Settle.{IsSettled, settle-stale_token, record_failure-held}
use athome_japan_agent_harne.Store.Queue.Final.{run_calls-final}
use athome_japan_agent_harne.Store.Queue.Exclusive.{claim_exclusive}

abbrev job : ℕ → String → HydrationJob
job n key = record {
  job_id = n;
  athome_key = key;
  url = key;
  internal_id = key;
  status = queued;
  attempts = 0;
  max_attempts = 1;
  created_at = n;
  updated_at = n;
  lease_token = none;
  lease_until = none;
  last_error = none;
  last_error_category = none;
}

abbrev queue_of : List HydrationJob → Db
queue_of jobs = record { listings = []; agencies = []; feedback = []; jobs = jobs; next_job = 2 }

abbrev leased_a : HydrationJob
leased_a = lease "t1" (10 + 60 * second) 10 (job 0 "a")

abbrev leased_b : HydrationJob
leased_b = lease "t2" (20 + 60 * second) 20 (job 1 "b")

abbrev waiting : Db
waiting = queue_of (job 0 "a" ∷ job 1 "b" ∷ [])

abbrev one_leased : Db
one_leased = queue_of (leased_a ∷ job 1 "b" ∷ [])

abbrev both_leased : Db
both_leased = queue_of (leased_a ∷ leased_b ∷ [])

a≢b : (job 0 "a").athome_key ≢ (job 1 "b").athome_key
a≢b = ne-of-eq_false "a" "b" refl

waiting-Distinct : Distinct waiting.jobs
waiting-Distinct = ((record { key = a≢b; id = omega arith }, tt), (tt, tt))

one_leased-Distinct : Distinct one_leased.jobs
one_leased-Distinct = ((record { key = a≢b; id = omega arith }, tt), (tt, tt))

waiting-IsQueue : IsQueue waiting
waiting-IsQueue = record {
  distinct = waiting-Distinct;
  well_formed = (
    record { numbered = omega arith; limited = omega arith; lease_fits = tt },
    (record { numbered = omega arith; limited = omega arith; lease_fits = tt }, tt),
  );
}

first_claim : claim_hydration 60 "t1" 10 waiting ≡ (ok (some leased_a), one_leased)
unfolding claim_hydration oldest eligible fresh_detail
first_claim = refl

next_claim : claim_hydration 60 "t2" 20 one_leased ≡ (ok (some leased_b), both_leased)
unfolding claim_hydration oldest eligible fresh_detail
next_claim = refl

claim_hydration-TakesJob_example : TakesJob 60 "t1" 10 waiting one_leased leased_a
claim_hydration-TakesJob_example =
    claim_hydration-TakesJob 60 "t1" 10 waiting one_leased leased_a waiting-Distinct first_claim

-- `a` is enqueued again and `b` is enqueued, before the second worker comes.
abbrev between : List Call
between =
    enqueue (record { athome_key = "a"; internal_id = "a"; url = "a" }) 3 15
    ∷ record_failure "a" "t9" "blocked" "403" 16
    ∷ claim 60 "t2" 17
    ∷ record_failure "b" "t2" "blocked" "403" 18
    ∷ enqueue (record { athome_key = "c"; internal_id = "c"; url = "c" }) 3 19
    ∷ []

abbrev new_c : HydrationJob
new_c = record (job 2 "c") { max_attempts = 3; created_at = 19; updated_at = 19 }

abbrev leased_c : HydrationJob
leased_c = lease "t3" (20 + 60 * second) 20 new_c

abbrev last_tables : Db
last_tables =
    record (queue_of (
      leased_a
      ∷ with_error "blocked" "403" (settle failed 18 (lease "t2" (17 + 60 * second) 17 (job 1 "b")))
      ∷ leased_c
      ∷ [])) { next_job = 3 }

last_claim :
    claim_hydration 60 "t3" 20 (run_calls between one_leased) ≡ (ok (some leased_c), last_tables)
unfolding claim_hydration oldest eligible fresh_detail run_calls run_call enqueue_hydration
    record_hydration_failure transition_claimed get_hydration_job
last_claim = refl

claim_exclusive_example : leased_c.athome_key ≢ leased_a.athome_key
claim_exclusive_example =
    claim_exclusive 60 60 "t1" "t3" 10 20 waiting one_leased last_tables leased_a leased_c between
      waiting-IsQueue first_claim
      (
        tt,
        (
          (λ _. ne-of-eq_false "t9" "t1" refl),
          (omega arith, ((λ e. absurd (a≢b (sym e))), (tt, tt))),
        ),
      )
      last_claim (omega arith)

abbrev calls : List Call
calls =
    claim 60 "t1" 10
    ∷ record_failure "a" "t1" "blocked" "403" 12
    ∷ claim 60 "t2" 20
    ∷ acknowledge "b" "t2" 30
    ∷ cancel_job "b" "done" 40
    ∷ []

run_calls-IsQueue_example : IsQueue (run_calls calls waiting)
run_calls-IsQueue_example = run_calls-IsQueue calls waiting waiting-IsQueue

stored_a : get_hydration_job one_leased "a" ≡ some leased_a
unfolding get_hydration_job
stored_a = refl

settle-stale_token_example :
    (acknowledge_hydration_success "a" "t9" 15 one_leased ≡ (err value_error, one_leased))
    × (record_hydration_failure "a" "t9" "blocked" "403" 15 one_leased
        ≡ (err value_error, one_leased))
settle-stale_token_example =
    settle-stale_token one_leased "a" "t9" leased_a one_leased-Distinct stored_a "blocked" "403" 15
      refl

record_failure-held_example :
    IsSettled one_leased "a"
      (with_error "blocked" "403" (settle failed 15 leased_a))
      (record_hydration_failure "a" "t1" "blocked" "403" 15 one_leased)
record_failure-held_example =
    record_failure-held one_leased "a" "t1" leased_a one_leased-Distinct stored_a "blocked" "403" 15
      refl

-- `a` has succeeded.
abbrev done_a : HydrationJob
done_a = settle succeeded 15 leased_a

abbrev one_done : Db
one_done = queue_of (done_a ∷ job 1 "b" ∷ [])

one_done-IsQueue : IsQueue one_done
one_done-IsQueue = record {
  distinct = ((record { key = a≢b; id = omega arith }, tt), (tt, tt));
  well_formed = (
    record { numbered = omega arith; limited = omega arith; lease_fits = tt },
    (record { numbered = omega arith; limited = omega arith; lease_fits = tt }, tt),
  );
}

stored_done : get_hydration_job one_done "a" ≡ some done_a
unfolding get_hydration_job
stored_done = refl

abbrev later_calls : List Call
later_calls =
    enqueue (record { athome_key = "a"; internal_id = "a"; url = "a" }) 3 20
    ∷ claim 60 "t2" 20
    ∷ claim 60 "t3" 30
    ∷ cancel_job "b" "done" 40
    ∷ []

run_calls-final_example : get_hydration_job (run_calls later_calls one_done) "a" ≡ some done_a
run_calls-final_example =
    run_calls-final later_calls one_done "a" done_a one_done-IsQueue stored_done refl
      (tt, (tt, (tt, ((λ e. a≢b (sym e)), tt))))
