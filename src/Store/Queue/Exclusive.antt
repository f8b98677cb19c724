-- ===== src/Store/Queue/Exclusive.antt =====
-- `claim_hydration` of store/sqlite_store.py: a lease keeps its job from every other worker.
use athome_japan_agent_harne.Common.{
  ℕ, ◌+◌, ◌*◌, ◌<◌, String, ◌≡◌, ◌≢◌, refl, ap, true, some, List, [], ◌∷◌, inl, inr, ltb, All,
  Bool-cases, ok,
}
use athome_japan_agent_harne.Models.{HydrationJob}
use athome_japan_agent_harne.Store.Db.{Db}
use athome_japan_agent_harne.Store.Queue.{
  second, get_hydration_job, eligible, claim_hydration, acknowledge_hydration_success,
  record_hydration_failure, cancel_hydration, cancel,
}
use athome_japan_agent_harne.Store.Queue.Claim.{claim_hydration-TakesJob}
use athome_japan_agent_harne.Store.Queue.Invariant.{
  IsQueue, Call, enqueue, claim, acknowledge, record_failure, cancel_job, run_call, run_calls,
  run_call-IsQueue, claim_hydration-IsQueue,
}
use athome_japan_agent_harne.Store.Queue.Held.{
  IsHeld, IsOut, not_eligible, row-is_job, update_key-IsOut, enqueue-IsOut, claim-IsOut,
  acknowledge-IsOut, fail-IsOut,
}

-- The call is no failure that the holder of the lease records, and no claim once the lease has run out.
abbrev pub Respects : String → String → ℕ → Call → Type 0
Respects key token until (claim lease_seconds other now) = now < until
Respects key token until (record_failure other t category error now) = other ≡ key → t ≢ token
Respects key token until _ = Unit

run_call-IsOut :
    (c : Call) (db : Db) (key token : String) (until : ℕ)
    → IsQueue db
    → IsOut db key token until
    → Respects key token until c
    → IsOut (run_call c db) key token until
unfolding run_call claim_hydration acknowledge_hydration_success record_hydration_failure
    cancel_hydration
run_call-IsOut (enqueue intent max_attempts now) db key token until q (j, stored, kept) r =
    enqueue-IsOut db key token until q.distinct j stored kept intent max_attempts now
run_call-IsOut (claim lease_seconds other now) db key token until q (j, stored, kept) soon =
    elim (Bool-cases (ltb lease_seconds 1)) [
      | inl bad ↦ rw (bad, run_call) (j, stored, kept)
      | inr good ↦
          rw (good, run_call)
            (claim-IsOut db key token until q.distinct j stored kept lease_seconds other now soon)
    ]
run_call-IsOut (acknowledge other t now) db key token until q (j, stored, kept) r =
    acknowledge-IsOut db key token until q.distinct j stored kept other t now
run_call-IsOut (record_failure other t category error now) db key token until q (j, stored, kept)
      r =
    fail-IsOut db key token until q.distinct j stored kept (get_hydration_job db other) other t
      category error now r
run_call-IsOut (cancel_job other reason now) db key token until q (j, stored, kept) r =
    update_key-IsOut db key token until q.distinct j stored kept (cancel reason now)
      (λ k. record { key = refl; id = refl }) other refl

-- What a claim finds is eligible, so it is not a job that is out.
claim-other :
    (lease_seconds : ℕ) (token : String) (now : ℕ) (db after : Db) (job : HydrationJob)
    (key held_token : String) (until : ℕ)
    → IsQueue db
    → IsOut db key held_token until
    → now < until
    → claim_hydration lease_seconds token now db ≡ (ok (some job), after)
    → job.athome_key ≢ key
claim-other lease_seconds token now db after job key held_token until q (j, stored, kept) soon h e =
    let c = claim_hydration-TakesJob lease_seconds token now db after job q.distinct h in
    let row_key : c.row.athome_key ≡ key = cc (c.leased_row, e) in
    let is_job =
      row-is_job db key held_token until q.distinct j stored kept c.row c.oldest_eligible.listed
        row_key in
    let passes : eligible now j ≡ true = rw is_job at c.oldest_eligible.passes in
    let fails = not_eligible held_token until now j kept soon in absurd (cc)

run_calls-other :
    (calls : List Call) (db : Db) (key held_token : String) (until : ℕ) (lease_seconds : ℕ)
    (token : String) (now : ℕ) (after : Db) (job : HydrationJob)
    → IsQueue db
    → IsOut db key held_token until
    → All (Respects key held_token until) calls
    → now < until
    → claim_hydration lease_seconds token now (run_calls calls db) ≡ (ok (some job), after)
    → job.athome_key ≢ key
unfolding run_calls
run_calls-other [] db key held_token until lease_seconds token now after job q out r soon h =
    claim-other lease_seconds token now db after job key held_token until q out soon h
run_calls-other (c ∷ calls) db key held_token until lease_seconds token now after job q out (r, rs)
      soon h =
    run_calls-other calls (run_call c db) key held_token until lease_seconds token now after job
      (run_call-IsQueue c db q) (run_call-IsOut c db key held_token until q out r) rs soon h

-- A job that one worker has claimed is handed to nobody else before its lease runs out, whatever calls of
-- the queue come between the two claims, in whatever order and of whichever worker: the listing may be
-- enqueued again, the job acknowledged or cancelled, and other jobs claimed and settled. The only exceptions
-- are a claim made once the lease has run out, and a failure that is recorded for the job with the token of
-- its lease, which may put it back.
pub claim_exclusive :
    (seconds₁ seconds₂ : ℕ) (token₁ token₂ : String) (now₁ now₂ : ℕ) (db mid after : Db)
    (job₁ job₂ : HydrationJob) (calls : List Call)
    → IsQueue db
    → claim_hydration seconds₁ token₁ now₁ db ≡ (ok (some job₁), mid)
    → All (Respects job₁.athome_key token₁ (now₁ + seconds₁ * second)) calls
    → claim_hydration seconds₂ token₂ now₂ (run_calls calls mid) ≡ (ok (some job₂), after)
    → now₂ < now₁ + seconds₁ * second
    → job₂.athome_key ≢ job₁.athome_key
claim_exclusive seconds₁ seconds₂ token₁ token₂ now₁ now₂ db mid after job₁ job₂ calls q first
      respects next soon =
    let until = now₁ + seconds₁ * second in
    let c = claim_hydration-TakesJob seconds₁ token₁ now₁ db mid job₁ q.distinct first in
    let held : IsHeld token₁ until job₁ = record {
      is_leased_now = c.is_leased_now;
      token_held = c.token_held;
      expires = c.expires;
    } in
    let left : (claim_hydration seconds₁ token₁ now₁ db).1 ≡ mid = ap (λ o. o.1) first in
    let after_first : IsQueue mid =
      rw left at (claim_hydration-IsQueue seconds₁ token₁ now₁ db q) in
    run_calls-other calls mid job₁.athome_key token₁ until seconds₂ token₂ now₂ after job₂
      after_first (job₁, c.stored, inl held) respects soon next
