-- ===== src/Scraping/Worker/Tests.antt =====
-- A run of the worker on a queue of one job.
use athome_japan_agent_harne.Common.{
  ◌+◌, ◌*◌, ◌≡◌, refl, false, none, some, [], ◌∷◌, ok, err, arith,
}
use athome_japan_agent_harne.Models.{HydrationJob, queued}
use athome_japan_agent_harne.Store.Db.{Db}
use athome_japan_agent_harne.Store.Queue.{second, lease, get_hydration_job}
use athome_japan_agent_harne.Store.Queue.Rows.{Distinct}
use athome_japan_agent_harne.Scraping.Worker.{Surroundings, page, process, WorkerReport, run}
use athome_japan_agent_harne.Scraping.Worker.Settles.{Settles, is_counted, process-Settles}
use athome_japan_agent_harne.Store.Queue.Invariant.{IsQueue}
use athome_japan_agent_harne.Scraping.Worker.Reports.{Reports, run-Reports}

abbrev waiting_job : HydrationJob
waiting_job = record {
  job_id = 0;
  athome_key = "a";
  url = "a";
  internal_id = "a";
  status = queued;
  attempts = 0;
  max_attempts = 3;
  created_at = 1;
  updated_at = 1;
  lease_token = none;
  lease_until = none;
  last_error = none;
  last_error_category = none;
}

abbrev leased_job : HydrationJob
leased_job = lease "t" (10 + 300 * second) 10 waiting_job

abbrev db_of : HydrationJob → Db
db_of j = record { listings = []; agencies = []; feedback = []; jobs = j ∷ []; next_job = 1 }

abbrev challenged : Surroundings
challenged = record {
  token = "t";
  claimed_at = 10;
  fetch = page "Click to verify";
  parser = λ text. err "ValueError";
  extract_server_app_agency = λ text. ok none;
  fetched_at = 11;
  stored_at = 12;
  settled_at = 13;
}

abbrev start : WorkerReport
start = record {
  claimed = 0;
  succeeded_jobs = 0;
  skipped = 0;
  retried = 0;
  cancelled_jobs = 0;
  stopped = false;
}

waiting-IsQueue : IsQueue (db_of waiting_job)
waiting-IsQueue = record {
  distinct = (tt, tt);
  well_formed = (record { numbered = omega arith; limited = omega arith; lease_fits = tt }, tt);
}

run-Reports_example :
    Reports 2 start (run 300 (challenged ∷ challenged ∷ []) start (db_of waiting_job))
run-Reports_example =
    run-Reports 300 (challenged ∷ challenged ∷ []) start (db_of waiting_job) (omega arith)
      waiting-IsQueue

leased-Distinct : Distinct (db_of leased_job).jobs
leased-Distinct = (tt, tt)

stored_job : get_hydration_job (db_of leased_job) "a" ≡ some leased_job
unfolding get_hydration_job
stored_job = refl

process-Settles_example :
    Settles leased_job is_counted (process leased_job challenged (db_of leased_job))
process-Settles_example =
    process-Settles leased_job "t" challenged (db_of leased_job) refl refl leased-Distinct
      stored_job
