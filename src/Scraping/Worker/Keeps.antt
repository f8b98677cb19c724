-- ===== src/Scraping/Worker/Keeps.antt =====
-- The worker of scraping/detail_hydration_worker.py keeps the queue well formed.
use Prim.Native.String.{◌++◌ as ◌+ˢ◌}
use athome_japan_agent_harne.Common.{
  ℕ, String, refl, not, ◌||◌, ◌==◌, Option, none, some, inl, inr, Result, ok, err, Bool-cases,
}
use athome_japan_agent_harne.Models.{Agency, HydrationJob, Listing}
use athome_japan_agent_harne.Store.Db.{Db, StoreError}
use athome_japan_agent_harne.Store.Queue.Invariant.{
  IsQueue, acknowledge, record_failure, cancel_job, run_call, run_call-IsQueue,
}
use athome_japan_agent_harne.Store.Listings.{upsert_agency, upsert_listing}
use athome_japan_agent_harne.Store.Listings.Jobs.{
  SameQueue, upsert_listing-SameQueue, SameQueue-IsQueue,
}
use athome_japan_agent_harne.Scraping.Challenge.{detect_athome_challenge}
use athome_japan_agent_harne.Scraping.Worker.{
  Surroundings, Fetch, page, blocked, transient, broken, Raised, hydration_stop, retryable,
  block_detected, os_error, other, Processed, failed, Run, after_upsert, failure_then, store_agency,
  store_detail, with_agency_known, completed, with_agency_of, parsed_detail, read_page, read_text,
  unavailable, attempt, handle, process, process_leased,
}

pub store_agency-SameQueue : (a : Option Agency) (db : Db) → SameQueue db (store_agency a db)
unfolding upsert_agency
store_agency-SameQueue none db = record { jobs = refl; next = refl; feedback = refl }
store_agency-SameQueue (some a) db = record { jobs = refl; next = refl; feedback = refl }

module _ (job : HydrationJob) (token : String) (s : Surroundings) where
  failure_then-IsQueue :
      (category error : String) (now : ℕ) (next : Result Raised Processed) (db : Db)
      → IsQueue db
      → IsQueue (failure_then job token category error now next db).1
  unfolding run_call
  failure_then-IsQueue category error now next db q =
      run_call-IsQueue (record_failure job.athome_key token category error now) db q

  store_detail-IsQueue :
      (detail : Listing) (db : Db) → IsQueue db → IsQueue (store_detail job token s detail db).1
  unfolding run_call
  store_detail-IsQueue detail db q =
      let stored = SameQueue-IsQueue (upsert_listing-SameQueue detail s.stored_at db) q in
      finished (upsert_listing detail s.stored_at db) stored
    where
      finished :
          (o : Result StoreError String × Db) → IsQueue o.1 → IsQueue (after_upsert o job token s).1
      finished (ok i, after) stored =
          run_call-IsQueue (acknowledge job.athome_key token s.settled_at) after stored
      finished (err e, after) stored = stored

  with_agency_known-IsQueue :
      (o : Result String (Option Agency)) (detail : Listing) (db : Db)
      → IsQueue db
      → IsQueue (with_agency_known o job token s detail db).1
  with_agency_known-IsQueue (err name) detail db q = q
  with_agency_known-IsQueue (ok agency) detail db q =
      store_detail-IsQueue (completed s.fetched_at (with_agency_of agency detail))
        (store_agency agency db) (SameQueue-IsQueue (store_agency-SameQueue agency db) q)

  parsed_detail-IsQueue :
      (o : Result String Listing) (text : String) (db : Db)
      → IsQueue db
      → IsQueue (parsed_detail o text job token s db).1
  parsed_detail-IsQueue (err name) text db q = q
  parsed_detail-IsQueue (ok detail) text db q =
      elim (Bool-cases (
        not (detail.athome_key == job.athome_key) || not (detail.internal_id == job.internal_id))) [
          | inl differs ↦ rw differs (
              failure_then-IsQueue "identity" "detail identity did not match claimed job"
                s.settled_at (ok failed) db q)
          | inr same ↦
              rw same (with_agency_known-IsQueue (s.extract_server_app_agency text) detail db q)
        ]

  read_page-IsQueue :
      (o : Option String) (text : String) (db : Db)
      → IsQueue db
      → IsQueue (read_page o text job token s db).1
  unfolding run_call
  read_page-IsQueue (some marker) text db q =
      run_call-IsQueue (cancel_job job.athome_key ("selector-marker=" +ˢ marker) s.settled_at) db q
  read_page-IsQueue none text db q = parsed_detail-IsQueue (s.parser text) text db q

  read_text-IsQueue :
      (o : Option String) (text : String) (db : Db)
      → IsQueue db
      → IsQueue (read_text o text job token s db).1
  read_text-IsQueue (some kind) text db q =
      failure_then-IsQueue "challenge" ("challenge=" +ˢ kind) s.settled_at (err hydration_stop) db q
  read_text-IsQueue none text db q = read_page-IsQueue (unavailable text) text db q

  attempt-IsQueue : (f : Fetch) (db : Db) → IsQueue db → IsQueue (attempt f job token s db).1
  attempt-IsQueue (page text) db q = read_text-IsQueue (detect_athome_challenge text) text db q
  attempt-IsQueue (blocked signature) db q = q
  attempt-IsQueue (transient name) db q = q
  attempt-IsQueue (broken name) db q = q

  handle-IsQueue : (r : Run) → IsQueue r.1 → IsQueue (handle r job token s).1
  handle-IsQueue (ok r, db) q = q
  handle-IsQueue (err hydration_stop, db) q = q
  handle-IsQueue (err retryable, db) q =
      failure_then-IsQueue "parser" "RetryableHydrationError" s.settled_at (ok failed) db q
  handle-IsQueue (err (block_detected signature), db) q =
      failure_then-IsQueue "block" ("signature=" +ˢ signature) s.settled_at (err hydration_stop) db
        q
  handle-IsQueue (err (os_error name), db) q =
      failure_then-IsQueue "transient" name s.settled_at (err retryable) db q
  handle-IsQueue (err (other name), db) q =
      failure_then-IsQueue "parser" name s.settled_at (ok failed) db q

process_leased-IsQueue :
    (token : Option String) (job : HydrationJob) (s : Surroundings) (db : Db)
    → IsQueue db
    → IsQueue (process_leased token job s db).1
process_leased-IsQueue none job s db q = q
process_leased-IsQueue (some token) job s db q =
    handle-IsQueue job token s (attempt s.fetch job token s db)
      (attempt-IsQueue job token s s.fetch db q)

pub process-IsQueue :
    (job : HydrationJob) (s : Surroundings) (db : Db) → IsQueue db → IsQueue (process job s db).1
unfolding process
process-IsQueue job s db q = process_leased-IsQueue job.lease_token job s db q
