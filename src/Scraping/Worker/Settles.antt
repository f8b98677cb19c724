-- ===== src/Scraping/Worker/Settles.antt =====
-- A job that the worker of scraping/detail_hydration_worker.py processes is settled, whatever it meets.
use Prim.Native.String.{◌++◌ as ◌+ˢ◌}
use athome_japan_agent_harne.Common.{
  ℕ, String, ◌≡◌, ◌⊎◌, refl, Bool, true, false, not, ◌||◌, ◌==◌, Option, none, some, inl, inr,
  arith, ltb, Result, ok, err, Bool-cases, find, update, if◌then◌else◌, eq_refl, false≢true,
}
use athome_japan_agent_harne.Models.{Agency, HydrationJob, HydrationStatus, Listing}
use athome_japan_agent_harne.Store.Db.{Db}
use athome_japan_agent_harne.Store.Queue.{
  Outcome, has_key, is_leased, get_hydration_job, cancel_hydration, cancel, settle, with_error,
}
use athome_japan_agent_harne.Store.Queue.Rows.{Distinct, find-update_key_self}
use athome_japan_agent_harne.Store.Queue.Settle.{holds_lease, acknowledge-held, record_failure-held}
use athome_japan_agent_harne.Store.Listings.{upsert_listing}
use athome_japan_agent_harne.Store.Listings.Jobs.{SameQueue, upsert_listing-SameQueue}
use athome_japan_agent_harne.Scraping.Challenge.{detect_athome_challenge}
use athome_japan_agent_harne.Scraping.Worker.Keeps.{store_agency-SameQueue}
use athome_japan_agent_harne.Scraping.Worker.{
  Surroundings, Fetch, page, blocked, transient, broken, Raised, hydration_stop, retryable,
  block_detected, os_error, other, Processed, failed, Run, after_upsert, failure_then, store_agency,
  acknowledge_then, with_agency_known, completed, with_agency_of, parsed_detail, cancel_then,
  read_page, read_text, unavailable, attempt, handle, process,
}

-- The `try` block is through with the job, or leaves it to the `except` clauses.
abbrev pub is_done : Result Raised Processed → Bool
is_done (ok r) = true
is_done (err hydration_stop) = true
is_done _ = false

-- What `_run` counts: a result, the stop or the retry.
abbrev pub is_counted : Result Raised Processed → Bool
is_counted (err retryable) = true
is_counted r = is_done r

-- The outcome is of the kind tested, and the job is stored without a lease.
pub record Settles (job : HydrationJob) (test : Result Raised Processed → Bool) (r : Run)
    : Type 0 where
  pub kind : test r.0 ≡ true
  pub job_after : HydrationJob
  pub stored : get_hydration_job r.1 job.athome_key ≡ some job_after
  pub released : is_leased job_after.status ≡ false

module _ (job : HydrationJob) (token : String) (mine : holds_lease token job ≡ true) where
  -- The job is stored, and leased to the token.
  pub record Held (db : Db) : Type 0 where
    pub distinct : Distinct db.jobs
    pub stored : get_hydration_job db job.athome_key ≡ some job

  -- What the `try` block comes to.
  abbrev Attempted : Run → Type 0
  Attempted r = Settles job is_done r ⊎ (Held r.1 × (is_done r.0 ≡ false))

  SameQueue-Held : {a b : Db} → SameQueue a b → Held a → Held b
  unfolding get_hydration_job
  SameQueue-Held s h = record { distinct = rw s.jobs h.distinct; stored = rw s.jobs h.stored }

  failure_then-Settles :
      (test : Result Raised Processed → Bool) (category error : String) (now : ℕ)
      (next : Result Raised Processed) (db : Db)
      → Held db
      → test next ≡ true
      → Settles job test (failure_then job token category error now next db)
  failure_then-Settles test category error now next db h good =
      let w =
        record_failure-held db job.athome_key token job h.distinct h.stored category error now
          mine in
      rw w.returns (record {
        kind = good;
        job_after = with_error category error (
            settle
              (if ltb job.attempts job.max_attempts
                then HydrationStatus.queued
                else HydrationStatus.failed)
              now job);
        stored = w.stored;
        released = ground arith;
      })

  acknowledge_then-Settles :
      (now : ℕ) (db : Db) → Held db → Settles job is_done (acknowledge_then job token now db)
  acknowledge_then-Settles now db h =
      let w = acknowledge-held db job.athome_key token job h.distinct h.stored now mine in
      rw w.returns (record {
        kind = refl;
        job_after = settle HydrationStatus.succeeded now job;
        stored = w.stored;
        released = refl;
      })

  cancel_then-Settles :
      (marker : String) (now : ℕ) (db : Db)
      → Held db
      → Settles job is_done (cancel_then marker job now db)
  unfolding cancel_hydration get_hydration_job
  cancel_then-Settles marker now db h =
      let reason = "selector-marker=" +ˢ marker in
      let there : find (has_key job.athome_key)
            (update (has_key job.athome_key) (cancel reason now) db.jobs)
          ≡ some (cancel reason now job) =
        find-update_key_self (cancel reason now) (λ j. record { key = refl; id = refl })
          job.athome_key db.jobs job h.stored in
      record {
        kind = rw there refl;
        job_after = cancel reason now job;
        stored = there;
        released = refl;
      }

  module _ (s : Surroundings) where
    after_upsert-Attempted :
        (o : Outcome String) → Held o.1 → Attempted (after_upsert o job token s)
    after_upsert-Attempted (ok i, db) h = inl (acknowledge_then-Settles s.settled_at db h)
    after_upsert-Attempted (err e, db) h = inr (h, refl)

    with_agency_known-Attempted :
        (o : Result String (Option Agency)) (detail : Listing) (db : Db)
        → Held db
        → Attempted (with_agency_known o job token s detail db)
    with_agency_known-Attempted (err name) detail db h = inr (h, refl)
    with_agency_known-Attempted (ok agency) detail db h =
        let whole = completed s.fetched_at (with_agency_of agency detail) in
        let db' = store_agency agency db in
        after_upsert-Attempted (upsert_listing whole s.stored_at db') (
          SameQueue-Held (upsert_listing-SameQueue whole s.stored_at db')
            (SameQueue-Held (store_agency-SameQueue agency db) h))

    parsed_detail-Attempted :
        (o : Result String Listing) (text : String) (db : Db)
        → Held db
        → Attempted (parsed_detail o text job token s db)
    parsed_detail-Attempted (err name) text db h = inr (h, refl)
    parsed_detail-Attempted (ok detail) text db h =
        elim (Bool-cases (
          not (detail.athome_key == job.athome_key)
          || not (detail.internal_id == job.internal_id))) [
            | inl differs ↦ rw differs (
                inl (
                  failure_then-Settles is_done "identity"
                    "detail identity did not match claimed job" s.settled_at (ok failed) db h refl))
            | inr same ↦
                rw same (with_agency_known-Attempted (s.extract_server_app_agency text) detail db h)
          ]

    read_page-Attempted :
        (o : Option String) (text : String) (db : Db)
        → Held db
        → Attempted (read_page o text job token s db)
    read_page-Attempted (some marker) text db h = inl (cancel_then-Settles marker s.settled_at db h)
    read_page-Attempted none text db h = parsed_detail-Attempted (s.parser text) text db h

    read_text-Attempted :
        (o : Option String) (text : String) (db : Db)
        → Held db
        → Attempted (read_text o text job token s db)
    read_text-Attempted (some kind) text db h = inl (
        failure_then-Settles is_done "challenge" ("challenge=" +ˢ kind) s.settled_at
          (err hydration_stop) db h refl)
    read_text-Attempted none text db h = read_page-Attempted (unavailable text) text db h

    attempt-Attempted : (f : Fetch) (db : Db) → Held db → Attempted (attempt f job token s db)
    attempt-Attempted (page text) db h =
        read_text-Attempted (detect_athome_challenge text) text db h
    attempt-Attempted (blocked signature) db h = inr (h, refl)
    attempt-Attempted (transient name) db h = inr (h, refl)
    attempt-Attempted (broken name) db h = inr (h, refl)

    done-Settles : (r : Run) → Settles job is_done r → Settles job is_counted (handle r job token s)
    done-Settles (ok r, db) w = record {
      kind = refl;
      job_after = w.job_after;
      stored = w.stored;
      released = w.released;
    }
    done-Settles (err hydration_stop, db) w = record {
      kind = refl;
      job_after = w.job_after;
      stored = w.stored;
      released = w.released;
    }
    done-Settles (err retryable, db) w = absurd (false≢true w.kind)
    done-Settles (err (block_detected x), db) w = absurd (false≢true w.kind)
    done-Settles (err (os_error x), db) w = absurd (false≢true w.kind)
    done-Settles (err (other x), db) w = absurd (false≢true w.kind)

    Held-Settles :
        (r : Run) → Held r.1 → is_done r.0 ≡ false → Settles job is_counted (handle r job token s)
    Held-Settles (ok r, db) h e = absurd (cc)
    Held-Settles (err hydration_stop, db) h e = absurd (cc)
    Held-Settles (err retryable, db) h e =
        failure_then-Settles is_counted "parser" "RetryableHydrationError" s.settled_at (ok failed)
          db h refl
    Held-Settles (err (block_detected signature), db) h e =
        failure_then-Settles is_counted "block" ("signature=" +ˢ signature) s.settled_at
          (err hydration_stop) db h refl
    Held-Settles (err (os_error name), db) h e =
        failure_then-Settles is_counted "transient" name s.settled_at (err retryable) db h refl
    Held-Settles (err (other name), db) h e =
        failure_then-Settles is_counted "parser" name s.settled_at (ok failed) db h refl

    handle-Settles : (r : Run) → Attempted r → Settles job is_counted (handle r job token s)
    handle-Settles r (inl w) = done-Settles r w
    handle-Settles r (inr (h, e)) = Held-Settles r h e

-- A stored job that is leased to its token is processed to the end, whatever the fetch, the parsers and
-- the store do: `_process` returns or raises the stop or the retry, no other exception leaves it, and the
-- job is stored without a lease.
pub process-Settles :
    (job : HydrationJob) (token : String) (s : Surroundings) (db : Db)
    → job.lease_token ≡ some token
    → is_leased job.status ≡ true
    → Distinct db.jobs
    → get_hydration_job db job.athome_key ≡ some job
    → Settles job is_counted (process job s db)
unfolding process
process-Settles job token s db leased_to leased d stored =
    let mine : holds_lease token job ≡ true = rw (leased, leased_to) (eq_refl token) in
    let h : Held job token mine db = record { distinct = d; stored = stored } in
    simp leased_to (
      handle-Settles job token mine s (attempt s.fetch job token s db)
        (attempt-Attempted job token mine s s.fetch db h))
