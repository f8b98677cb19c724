-- ===== src/Scraping/Worker/Reports.antt =====
-- The loop `_run` of scraping/detail_hydration_worker.py: it ends with a report, whatever its jobs meet.
use athome_japan_agent_harne.Common.{
  ℕ, suc, ◌+◌, ◌≤◌, String, ◌≡◌, ◌≢◌, ◌⊎◌, refl, ap, true, false, Option, none, some, List, [], ◌∷◌,
  inl, inr, arith, ltb, length, ok, err,
}
use athome_japan_agent_harne.Models.{HydrationJob}
use athome_japan_agent_harne.Store.Db.{Db, StoreError}
use athome_japan_agent_harne.Store.Queue.{Outcome, claim_hydration, is_leased}
use athome_japan_agent_harne.Store.Queue.Claim.{claim_hydration-TakesJob}
use athome_japan_agent_harne.Store.Queue.Invariant.{IsQueue, claim_hydration-IsQueue}
use athome_japan_agent_harne.Scraping.Worker.{
  Surroundings, hydration_stop, retryable, block_detected, os_error, other, Processed, failed,
  succeeded, cancelled, WorkerReport, count_result, Continue, Run, after_process, after_claim,
  process, run,
}
use athome_japan_agent_harne.Scraping.Worker.Keeps.{process-IsQueue}
use athome_japan_agent_harne.Scraping.Worker.Settles.{is_counted, process-Settles}

-- The jobs that a report counts by what became of them.
abbrev pub settled : WorkerReport → ℕ
settled r = r.succeeded_jobs + r.cancelled_jobs + r.retried

-- What `n` passes of the loop add to a report.
pub record IsReport (n : ℕ) (before after : WorkerReport) : Type 0 where
  pub few : after.claimed ≤ before.claimed + n
  pub counted : settled after + before.claimed ≤ settled before + after.claimed
  pub through :
      (after.claimed ≡ before.claimed + n)
      ⊎ (after.stopped ≡ true)
      ⊎ (after.skipped ≡ before.skipped + 1)

-- The loop has returned a report, and the queue is well formed.
abbrev pub Reports : ℕ → WorkerReport → Option WorkerReport × Db → Type 0
Reports n before (none, db) = ⊥
Reports n before (some after, db) = IsReport n before after × IsQueue db

-- One pass that claimed a job, before the others.
Reports-later :
    (n : ℕ) (a b : WorkerReport) (out : Option WorkerReport × Db)
    → b.claimed ≡ a.claimed + 1
    → settled b ≤ settled a + 1
    → b.skipped ≡ a.skipped
    → Reports n b out
    → Reports (suc n) a out
Reports-later n a b (none, db) claimed counted skipped w = w
Reports-later n a b (some after, db) claimed counted skipped (w, q) = (
  record {
    few = omega (arith, w.few);
    counted = omega (arith, w.counted);
    through = elim (w.through) [
      | inl e ↦ inl (omega arith)
      | inr (inl e) ↦ inr (inl e)
      | inr (inr e) ↦ inr (inr (omega arith))
    ];
  },
  q,
)

-- A claim for a positive time does not raise.
claim_returns :
    (lease_seconds : ℕ) (token : String) (now : ℕ) (db after : Db) (e : StoreError)
    → 1 ≤ lease_seconds
    → claim_hydration lease_seconds token now db ≢ (err e, after)
unfolding claim_hydration
claim_returns lease_seconds token now db after e valid h =
    let test : ltb lease_seconds 1 ≡ false = ground arith in
    let result : (claim_hydration lease_seconds token now db).0 ≡ err e = ap (λ p. p.0) h in
    absurd (let kind = rw test at result in cc)

module _ (n : ℕ) (continue : Continue)
    (again : (report : WorkerReport) (db : Db)
      → IsQueue db
      → Reports n report (continue report db)) where
  after_process-Reports :
      (report : WorkerReport) (o : Run)
      → is_counted o.0 ≡ true
      → IsQueue o.1
      → Reports
          (suc n)
          report
          (after_process continue (record report { claimed = report.claimed + 1 }) o)
  unfolding after_process
  after_process-Reports report (ok r, db) counts q =
      let claimed : WorkerReport = record report { claimed = report.claimed + 1 } in
      Reports-later n report (count_result r claimed) (continue (count_result r claimed) db)
        (claimed_of r) (settled_of r) (skipped_of r) (again (count_result r claimed) db q)
    where
      claimed_of :
          (r : Processed)
          → (count_result r (record report { claimed = report.claimed + 1 })).claimed
            ≡ report.claimed + 1
      claimed_of succeeded = refl
      claimed_of cancelled = refl
      claimed_of failed = refl

      settled_of :
          (r : Processed)
          → settled (count_result r (record report { claimed = report.claimed + 1 }))
            ≤ settled report + 1
      settled_of succeeded = omega arith
      settled_of cancelled = omega arith
      settled_of failed = omega arith

      skipped_of :
          (r : Processed)
          → (count_result r (record report { claimed = report.claimed + 1 })).skipped
            ≡ report.skipped
      skipped_of succeeded = refl
      skipped_of cancelled = refl
      skipped_of failed = refl
  after_process-Reports report (err hydration_stop, db) counts q =
      (record { few = omega arith; counted = omega arith; through = inr (inl refl) }, q)
  after_process-Reports report (err retryable, db) counts q =
      let next : WorkerReport = record report {
        claimed = report.claimed + 1;
        retried = report.retried + 1;
      } in
      Reports-later n report next (continue next db) refl (omega arith) refl (again next db q)
  after_process-Reports report (err (block_detected x), db) counts q = absurd (cc)
  after_process-Reports report (err (os_error x), db) counts q = absurd (cc)
  after_process-Reports report (err (other x), db) counts q = absurd (cc)

  after_claim-Reports :
      (lease_seconds : ℕ) (s : Surroundings) (report : WorkerReport) (db : Db)
      (o : Outcome (Option HydrationJob))
      → 1 ≤ lease_seconds
      → IsQueue db
      → claim_hydration lease_seconds s.token s.claimed_at db ≡ o
      → Reports (suc n) report (after_claim continue s report o)
  unfolding after_claim
  after_claim-Reports lease_seconds s report db (err e, after) valid q h =
      absurd (claim_returns lease_seconds s.token s.claimed_at db after e valid h)
  after_claim-Reports lease_seconds s report db (ok none, after) valid q h =
      let left : (claim_hydration lease_seconds s.token s.claimed_at db).1 ≡ after =
        ap (λ p. p.1) h in
      (
        record { few = omega arith; counted = omega arith; through = inr (inr refl) },
        rw left at (claim_hydration-IsQueue lease_seconds s.token s.claimed_at db q),
      )
  after_claim-Reports lease_seconds s report db (ok (some job), after) valid q h =
      let left : (claim_hydration lease_seconds s.token s.claimed_at db).1 ≡ after =
        ap (λ p. p.1) h in
      let q' : IsQueue after =
        rw left at (claim_hydration-IsQueue lease_seconds s.token s.claimed_at db q) in
      let c =
        claim_hydration-TakesJob lease_seconds s.token s.claimed_at db after job q.distinct h in
      let leased : is_leased job.status ≡ true = rw c.is_leased_now refl in
      let w = process-Settles job s.token s after c.token_held leased q'.distinct c.stored in
      after_process-Reports report (process job s after) w.kind (process-IsQueue job s after q')

-- From a well-formed queue the worker's loop ends with a report, whatever pages, blocks, exceptions of the
-- parsers and errors of the store its jobs meet: no exception leaves it, and the queue is well formed. It has
-- claimed no more jobs than its range has indexes, and counts no more results than claims; it claimed a job
-- for each index, unless it was stopped or found no job to claim.
pub run-Reports :
    (lease_seconds : ℕ) (jobs : List Surroundings) (report : WorkerReport) (db : Db)
    → 1 ≤ lease_seconds
    → IsQueue db
    → Reports (length jobs) report (run lease_seconds jobs report db)
unfolding run
run-Reports lease_seconds [] report db valid q =
    (record { few = omega arith; counted = omega arith; through = inl (omega arith) }, q)
run-Reports lease_seconds (s ∷ rest) report db valid q =
    after_claim-Reports (length rest) (run lease_seconds rest)
      (λ r d w. run-Reports lease_seconds rest r d valid w) lease_seconds s report db
      (claim_hydration lease_seconds s.token s.claimed_at db) valid q refl
