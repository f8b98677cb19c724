-- ===== src/Scraping/Worker.antt =====
-- scraping/detail_hydration_worker.py over the store. What a job meets outside is an argument: the clock's
-- readings, the token of its claim, what the fetch does, and what the parsers make of the text.
pub mod Keeps
pub mod Settles
pub mod Reports
mod Tests
use Prim.Native.String.{◌++◌ as ◌+ˢ◌}
use athome_japan_agent_harne.Common.{
  ℕ, ◌+◌, ◌*◌, String, ◌==◌, Bool, true, false, not, ◌&&◌, ◌||◌, Option, none, some, List, [], ◌∷◌,
  if◌then◌else◌, Result, ok, err, find,
}
use athome_japan_agent_harne.Common.Texts.{codes_of, occurs_in}
use athome_japan_agent_harne.Models.{Agency, DetailStatus, HydrationJob, Listing, detail_complete}
use athome_japan_agent_harne.Store.Db.{
  Db, StoreError, value_error, key_error, assertion_error, integrity_error, validation_error,
}
use athome_japan_agent_harne.Store.Queue.{
  Outcome, second, claim_hydration, acknowledge_hydration_success, record_hydration_failure,
  cancel_hydration,
}
use athome_japan_agent_harne.Store.Listings.{upsert_agency, upsert_listing}
use athome_japan_agent_harne.Scraping.Challenge.{detect_athome_challenge}

-- What the limiter and the fetch do: return a text, raise `BlockDetected` with its signature, raise a
-- timeout, a connection or an OS error, or raise anything else; an error by its class.
pub data Fetch : Type 0 where
  page : String → Fetch
  blocked : String → Fetch
  transient : String → Fetch
  broken : String → Fetch

pub record Surroundings : Type 0 where
  pub token : String
  pub claimed_at : ℕ
  pub fetch : Fetch
  -- the value, or the class of the exception
  pub parser : String → Result String Listing
  pub extract_server_app_agency : String → Result String (Option Agency)
  pub fetched_at : ℕ
  pub stored_at : ℕ
  pub settled_at : ℕ

pub data Processed : Type 0 where
  succeeded cancelled failed : Processed

-- What leaves `_process`, or its `try` block: the stop signal, the retry signal, and in the block
-- `BlockDetected`, an OS error, or any other exception.
pub data Raised : Type 0 where
  hydration_stop : Raised
  retryable : Raised
  block_detected : String → Raised
  os_error : String → Raised
  other : String → Raised

-- The exception's class.
abbrev pub error_name : StoreError → String
error_name value_error = "ValueError"
error_name key_error = "KeyError"
error_name assertion_error = "AssertionError"
error_name integrity_error = "IntegrityError"
error_name validation_error = "ValidationError"

-- A call of the store, then what follows it.
abbrev pub either {ℓ} :
    {A : Type ℓ} → Result StoreError A → Result Raised Processed → Result Raised Processed
either (ok a) next = next
either (err e) next = err (other (error_name e))

abbrev pub Run : Type 0
Run = Result Raised Processed × Db

-- `_failure`, followed by what the code does next. A raise of the store is not handled here.
abbrev pub failure_then :
    HydrationJob → String → String → String → ℕ → Result Raised Processed → Db → Run
failure_then job token category error now next db =
    let (r, after) = record_hydration_failure job.athome_key token category error now db in
    (either r next, after)

-- The first of the markers that is in the text.
abbrev pub unavailable : String → Option String
unavailable text =
    find (λ m. occurs_in (codes_of m) (codes_of text)) ("掲載終了" ∷ "募集終了" ∷ "この物件は削除されました" ∷ [])

abbrev listing_detail : Option DetailStatus → DetailStatus
listing_detail none = record { listing_detail = true; failure_reason = none }
listing_detail (some d) = record { listing_detail = true; failure_reason = d.failure_reason }

abbrev pub with_agency_of : Option Agency → Listing → Listing
with_agency_of none l = l
with_agency_of (some a) l = record l { agency = some a }

-- `detail.model_copy(update={…})`, of a detail that has expired in fourteen days
abbrev pub completed : ℕ → Listing → Listing
completed now l = record l {
  completeness = detail_complete;
  detail = some (listing_detail l.detail);
  detail_fetched_at = some now;
  detail_fresh_until = some (now + 14 * 86400 * second);
}

abbrev pub store_agency : Option Agency → Db → Db
store_agency none db = db
store_agency (some a) db = (upsert_agency a db).1

-- `acknowledge_hydration_success`, and what is returned.
abbrev pub acknowledge_then : HydrationJob → String → ℕ → Db → Run
acknowledge_then job token now db =
    let (r, after) = acknowledge_hydration_success job.athome_key token now db in
    (either r (ok succeeded), after)

abbrev pub after_upsert : Outcome String → HydrationJob → String → Surroundings → Run
after_upsert (ok i, db) job token s = acknowledge_then job token s.settled_at db
after_upsert (err e, db) job token s = (err (other (error_name e)), db)

abbrev pub store_detail : HydrationJob → String → Surroundings → Listing → Db → Run
store_detail job token s detail db = after_upsert (upsert_listing detail s.stored_at db) job token s

abbrev pub with_agency_known :
    Result String (Option Agency) → HydrationJob → String → Surroundings → Listing → Db → Run
with_agency_known (err name) job token s detail db = (err (other name), db)
with_agency_known (ok agency) job token s detail db =
    store_detail job token s (completed s.fetched_at (with_agency_of agency detail))
      (store_agency agency db)

abbrev pub parsed_detail :
    Result String Listing → String → HydrationJob → String → Surroundings → Db → Run
parsed_detail (err name) text job token s db = (err (other name), db)
parsed_detail (ok detail) text job token s db =
    if not (detail.athome_key == job.athome_key) || not (detail.internal_id == job.internal_id)
    then failure_then job token "identity" "detail identity did not match claimed job" s.settled_at
        (ok failed) db
    else with_agency_known (s.extract_server_app_agency text) job token s detail db

abbrev pub cancel_then : String → HydrationJob → ℕ → Db → Run
cancel_then marker job now db =
    let (r, after) = cancel_hydration job.athome_key ("selector-marker=" +ˢ marker) now db in
    (either r (ok cancelled), after)

abbrev pub read_page : Option String → String → HydrationJob → String → Surroundings → Db → Run
read_page (some marker) text job token s db = cancel_then marker job s.settled_at db
read_page none text job token s db = parsed_detail (s.parser text) text job token s db

abbrev pub read_text : Option String → String → HydrationJob → String → Surroundings → Db → Run
read_text (some kind) text job token s db =
    failure_then job token "challenge" ("challenge=" +ˢ kind) s.settled_at (err hydration_stop) db
read_text none text job token s db = read_page (unavailable text) text job token s db

-- The `try` block.
abbrev pub attempt : Fetch → HydrationJob → String → Surroundings → Db → Run
attempt (page text) job token s db = read_text (detect_athome_challenge text) text job token s db
attempt (blocked signature) job token s db = (err (block_detected signature), db)
attempt (transient name) job token s db = (err (os_error name), db)
attempt (broken name) job token s db = (err (other name), db)

-- The `except` clauses.
abbrev pub handle : Run → HydrationJob → String → Surroundings → Run
handle (ok r, db) job token s = (ok r, db)
handle (err (block_detected signature), db) job token s =
    failure_then job token "block" ("signature=" +ˢ signature) s.settled_at (err hydration_stop) db
handle (err hydration_stop, db) job token s = (err hydration_stop, db)
handle (err (os_error name), db) job token s =
    failure_then job token "transient" name s.settled_at (err retryable) db
handle (err retryable, db) job token s =
    failure_then job token "parser" "RetryableHydrationError" s.settled_at (ok failed) db
handle (err (other name), db) job token s =
    failure_then job token "parser" name s.settled_at (ok failed) db

abbrev pub process_leased : Option String → HydrationJob → Surroundings → Db → Run
process_leased none job s db = (err (other "AssertionError"), db)
process_leased (some token) job s db = handle (attempt s.fetch job token s db) job token s

-- `_process`
unfoldable pub process : HydrationJob → Surroundings → Db → Run
unfolding upsert_agency
process job s db = process_leased job.lease_token job s db

pub record WorkerReport : Type 0 where
  pub claimed : ℕ
  pub succeeded_jobs : ℕ
  pub skipped : ℕ
  pub retried : ℕ
  pub cancelled_jobs : ℕ
  pub stopped : Bool

abbrev pub count_result : Processed → WorkerReport → WorkerReport
count_result succeeded r = record r { succeeded_jobs = r.succeeded_jobs + 1 }
count_result cancelled r = record r { cancelled_jobs = r.cancelled_jobs + 1 }
count_result failed r = r

-- What is left of the loop, given the report and the tables so far.
abbrev pub Continue : Type 0
Continue = WorkerReport → Db → Option WorkerReport × Db

-- The body of the loop of `_run` after `_process`; an exception that leaves the loop comes back without
-- a report.
unfoldable pub after_process : Continue → WorkerReport → Run → Option WorkerReport × Db
after_process continue report (ok r, db) = continue (count_result r report) db
after_process continue report (err hydration_stop, db) =
    (some (record report { stopped = true }), db)
after_process continue report (err retryable, db) =
    continue (record report { retried = report.retried + 1 }) db
after_process continue report (err (block_detected signature), db) = (none, db)
after_process continue report (err (os_error name), db) = (none, db)
after_process continue report (err (other name), db) = (none, db)

-- The body of the loop after the claim.
unfoldable pub after_claim :
    Continue
    → Surroundings
    → WorkerReport
    → Outcome (Option HydrationJob)
    → Option WorkerReport × Db
after_claim continue s report (err e, db) = (none, db)
after_claim continue s report (ok none, db) =
    (some (record report { skipped = report.skipped + 1 }), db)
after_claim continue s report (ok (some job), db) =
    after_process continue (record report { claimed = report.claimed + 1 }) (process job s db)

-- `_run`, one entry of the list for each index of its range.
unfoldable pub run : ℕ → List Surroundings → WorkerReport → Db → Option WorkerReport × Db
run lease_seconds [] report db = (some report, db)
run lease_seconds (s ∷ rest) report db =
    after_claim (run lease_seconds rest) s report
      (claim_hydration lease_seconds s.token s.claimed_at db)
