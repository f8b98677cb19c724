-- ===== src/Store/Queue.antt =====
-- store/sqlite_store.py, the detail hydration queue. Each operation runs against the tables and the
-- clock's reading; a raised exception comes back beside the tables as they are then.
pub mod Rows
pub mod Oldest
pub mod Claim
pub mod Invariant
pub mod Settle
pub mod Final
pub mod Held
pub mod Exclusive
mod Tests
use athome_japan_agent_harne.Common.{
  ℕ, ◌+◌, ◌*◌, String, ◌==◌, Bool, true, false, ◌&&◌, ◌||◌, Option, none, some, List, [], ◌∷◌, ◌++◌,
  ltb, leb, eqb, if◌then◌else◌, Result, ok, err, find, update,
}
use athome_japan_agent_harne.Models.{
  HydrationStatus, queued, leased, succeeded, skipped, failed, cancelled, HydrationIntent,
  HydrationJob,
}
use athome_japan_agent_harne.Store.Db.{
  Db, ListingRow, StoreError, value_error, key_error, assertion_error,
}

abbrev pub Outcome : Type 0 → Type 0
Outcome A = Result StoreError A × Db

abbrev pub is_queued : HydrationStatus → Bool
is_queued queued = true
is_queued _ = false

abbrev pub is_leased : HydrationStatus → Bool
is_leased leased = true
is_leased _ = false

-- `lease_until <= ?`, which is not true of a NULL
abbrev pub expired : Option ℕ → ℕ → Bool
expired none now = false
expired (some t) now = leb t now

-- `detail_fresh_until` is there and `> now`
abbrev pub still_fresh : Option ℕ → ℕ → Bool
still_fresh none now = false
still_fresh (some t) now = ltb now t

abbrev row_is_fresh : Option ListingRow → ℕ → Bool
row_is_fresh none now = false
row_is_fresh (some row) now = still_fresh row.detail_fresh_until now

-- `_fresh_detail`
unfoldable pub fresh_detail : Db → String → ℕ → Bool
fresh_detail db internal_id now =
    row_is_fresh (find (λ (r : ListingRow). r.internal_id == internal_id) db.listings) now

abbrev pub has_key : String → HydrationJob → Bool
has_key athome_key j = j.athome_key == athome_key

abbrev pub has_id : ℕ → HydrationJob → Bool
has_id i j = eqb j.job_id i

unfoldable pub get_hydration_job : Db → String → Option HydrationJob
get_hydration_job db athome_key = find (has_key athome_key) db.jobs

abbrev skip : ℕ → HydrationJob → HydrationJob
skip now j = record j { status = skipped; lease_token = none; lease_until = none; updated_at = now }

abbrev pub new_job : HydrationIntent → ℕ → ℕ → ℕ → HydrationJob
new_job intent i max_attempts now = record {
  job_id = i;
  athome_key = intent.athome_key;
  url = intent.url;
  internal_id = intent.internal_id;
  status = queued;
  attempts = 0;
  max_attempts = max_attempts;
  created_at = now;
  updated_at = now;
  lease_token = none;
  lease_until = none;
  last_error = none;
  last_error_category = none;
}

-- The branch of `enqueue_hydration` where the stored detail is fresh.
abbrev enqueue_fresh : Option HydrationJob → String → ℕ → Db → Option HydrationJob × Db
enqueue_fresh none key now db = (none, db)
enqueue_fresh (some j) key now db =
    let db' =
      if is_queued j.status || is_leased j.status
      then record db { jobs = update (has_key key) (skip now) db.jobs }
      else db in
    (get_hydration_job db' key, db')

abbrev enqueue_stale : Option HydrationJob → HydrationIntent → ℕ → ℕ → Db → Option HydrationJob × Db
enqueue_stale (some j) intent max_attempts now db = (some j, db)
enqueue_stale none intent max_attempts now db =
    let db' = record db {
      jobs = db.jobs ++ new_job intent db.next_job max_attempts now ∷ [];
      next_job = db.next_job + 1;
    } in
    (get_hydration_job db' intent.athome_key, db')

abbrev returned {ℓ} : {A : Type ℓ} → A × Db → Result StoreError A × Db
returned (a, db) = (ok a, db)

unfoldable pub enqueue_hydration : HydrationIntent → ℕ → ℕ → Db → Outcome (Option HydrationJob)
unfolding get_hydration_job
enqueue_hydration intent max_attempts now db =
    if ltb max_attempts 1
    then (err value_error, db)
    else if fresh_detail db intent.internal_id now
    then returned (enqueue_fresh (get_hydration_job db intent.athome_key) intent.athome_key now db)
    else returned
        (enqueue_stale (get_hydration_job db intent.athome_key) intent max_attempts now db)

-- `status = 'queued' OR (status = 'leased' AND lease_until <= now)`
unfoldable pub eligible : ℕ → HydrationJob → Bool
eligible now j = is_queued j.status || (is_leased j.status && expired j.lease_until now)

-- `ORDER BY created_at, id`
abbrev pub before : HydrationJob → HydrationJob → Bool
before a b =
    ltb a.created_at b.created_at || (eqb a.created_at b.created_at && ltb a.job_id b.job_id)

abbrev earlier : HydrationJob → Option HydrationJob → HydrationJob
earlier j none = j
earlier j (some best) = if before best j then best else j

-- `… WHERE eligible ORDER BY created_at, id LIMIT 1`
unfoldable pub oldest : (HydrationJob → Bool) → List HydrationJob → Option HydrationJob
oldest p [] = none
oldest p (j ∷ jobs) = let rest = oldest p jobs in if p j then some (earlier j rest) else rest

abbrev pub second : ℕ
second = 1000000

abbrev pub lease : String → ℕ → ℕ → HydrationJob → HydrationJob
lease token lease_until now j = record j {
  status = leased;
  attempts = j.attempts + 1;
  lease_token = some token;
  lease_until = some lease_until;
  updated_at = now;
}

abbrev claim_row : Option HydrationJob → ℕ → String → ℕ → Db → Option HydrationJob × Db
claim_row none lease_seconds token now db = (none, db)
claim_row (some row) lease_seconds token now db =
    if fresh_detail db row.internal_id now
    then (none, record db { jobs = update (has_id row.job_id) (skip now) db.jobs })
    else let db' = record db {
      jobs = update (has_id row.job_id) (lease token (now + lease_seconds * second) now) db.jobs;
    } in
      (get_hydration_job db' row.athome_key, db')

-- `token` is the `uuid4` that the call draws. The transaction is `BEGIN IMMEDIATE`, so no other
-- process writes between the SELECT and the UPDATE.
unfoldable pub claim_hydration : ℕ → String → ℕ → Db → Outcome (Option HydrationJob)
unfolding get_hydration_job
claim_hydration lease_seconds token now db =
    if ltb lease_seconds 1
    then (err value_error, db)
    else returned (claim_row (oldest (eligible now) db.jobs) lease_seconds token now db)

abbrev pub holds_token : Option String → String → Bool
holds_token none token = false
holds_token (some t) token = t == token

-- `athome_key = ? AND status = 'leased' AND lease_token = ?`
abbrev pub held_by : String → String → HydrationJob → Bool
held_by athome_key token j =
    j.athome_key == athome_key && (is_leased j.status && holds_token j.lease_token token)

-- `assert result is not None`
abbrev asserted : Option HydrationJob → StoreError → Result StoreError HydrationJob
asserted none e = err e
asserted (some j) e = ok j

abbrev transition_row :
    Option HydrationJob → (HydrationJob → HydrationJob) → String → Db → Outcome HydrationJob
transition_row none set key db = (err value_error, db)
transition_row (some row) set key db =
    let db' = record db { jobs = update (has_id row.job_id) set db.jobs } in
    (asserted (get_hydration_job db' key) assertion_error, db')

abbrev pub settle : HydrationStatus → ℕ → HydrationJob → HydrationJob
settle status now j = record j {
  status = status;
  updated_at = now;
  lease_token = none;
  lease_until = none;
}

abbrev pub with_error : String → String → HydrationJob → HydrationJob
with_error category error j = record j {
  last_error_category = some category;
  last_error = some error;
}

-- `_transition_claimed`; `values` sets the columns of its keyword arguments.
unfoldable pub transition_claimed :
    String
    → String
    → HydrationStatus
    → (HydrationJob → HydrationJob)
    → ℕ
    → Db
    → Outcome HydrationJob
unfolding get_hydration_job
transition_claimed athome_key token status values now db =
    transition_row (find (held_by athome_key token) db.jobs) (λ j. values (settle status now j))
      athome_key db

unfoldable pub acknowledge_hydration_success : String → String → ℕ → Db → Outcome HydrationJob
unfolding transition_claimed
acknowledge_hydration_success athome_key token now db =
    transition_claimed athome_key token succeeded (λ j. j) now db

-- the status after a failure
abbrev pub retry_status : HydrationJob → HydrationStatus
retry_status j = if ltb j.attempts j.max_attempts then queued else failed

abbrev fail_current :
    Option HydrationJob → String → String → String → String → ℕ → Db → Outcome HydrationJob
fail_current none key token category error now db = (err value_error, db)
fail_current (some j) key token category error now db =
    if holds_token j.lease_token token && is_leased j.status
    then transition_claimed key token (retry_status j) (with_error category error) now db
    else (err value_error, db)

unfoldable pub record_hydration_failure :
    String → String → String → String → ℕ → Db → Outcome HydrationJob
unfolding transition_claimed get_hydration_job
record_hydration_failure athome_key token category error now db =
    fail_current (get_hydration_job db athome_key) athome_key token category error now db

abbrev pub cancel : String → ℕ → HydrationJob → HydrationJob
cancel reason now j = record j {
  status = cancelled;
  last_error_category = some "unavailable";
  last_error = some reason;
  lease_token = none;
  lease_until = none;
  updated_at = now;
}

unfoldable pub cancel_hydration : String → String → ℕ → Db → Outcome HydrationJob
unfolding get_hydration_job
cancel_hydration athome_key reason now db =
    let db' = record db { jobs = update (has_key athome_key) (cancel reason now) db.jobs } in
    (asserted (get_hydration_job db' athome_key) key_error, db')
