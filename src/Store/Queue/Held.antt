-- ===== src/Store/Queue/Held.antt =====
-- A job of the queue in store/sqlite_store.py under its lease: what each operation does to it.
use athome_japan_agent_harne.Common.{
  ℕ, ◌+◌, ◌*◌, ◌<◌, String, ◌==◌, ◌≡◌, ◌≢◌, refl, sym, ◌∙◌, true, false, ◌&&◌, ◌||◌, ◌⊎◌, some,
  none, Option, [], ◌∷◌, inl, inr, arith, ltb, find, find-holds, find-In, update, In, Bool-cases,
  Option-cases, eq_iff,
}
use athome_japan_agent_harne.Models.{HydrationJob, HydrationIntent, leased, succeeded}
use athome_japan_agent_harne.Store.Db.{Db}
use athome_japan_agent_harne.Store.Queue.{
  has_key, has_id, is_queued, is_leased, second, get_hydration_job, fresh_detail, held_by,
  enqueue_hydration, enqueue_fresh, enqueue_stale, new_job, skip, eligible, oldest, claim_row,
  lease, transition_claimed, settle, with_error, retry_status, fail_current, holds_token,
}
use athome_japan_agent_harne.Store.Queue.Rows.{
  Distinct, KeepsIdentity, find-update_other, find-update_self, find-update_key_self,
}
use athome_japan_agent_harne.Store.Queue.Oldest.{oldest-IsOldest}
use athome_japan_agent_harne.Store.Queue.Claim.{row-eq-stored}
use athome_japan_agent_harne.Store.Queue.Final.{IsFinal, find-append, find-update_key}

-- Leased under the token until then.
pub record IsHeld (token : String) (until : ℕ) (j : HydrationJob) : Type 0 where
  pub is_leased_now : j.status ≡ leased
  pub token_held : j.lease_token ≡ some token
  pub expires : j.lease_until ≡ some until

-- Under its lease still, or settled.
abbrev pub Kept : String → ℕ → HydrationJob → Type 0
Kept token until j = IsHeld token until j ⊎ IsFinal j

abbrev pub IsOut : Db → String → String → ℕ → Type 0
IsOut db key token until =
    (j : HydrationJob) × (get_hydration_job db key ≡ some j) × Kept token until j

pub not_eligible :
    (token : String) (until now : ℕ) (j : HydrationJob)
    → Kept token until j
    → now < until
    → eligible now j ≡ false
unfolding eligible
not_eligible token until now j (inl h) soon = ground (arith, h.is_leased_now, h.expires)
not_eligible token until now j (inr final) soon = ground (arith, final)

module _ (db : Db) (key token : String) (until : ℕ) (d : Distinct db.jobs) (j : HydrationJob)
    (stored : get_hydration_job db key ≡ some j) (kept : Kept token until j) where
  held_key : j.athome_key ≡ key
  unfolding get_hydration_job
  held_key = (eq_iff j.athome_key key).0 (find-holds (has_key key) db.jobs j stored)

  pub row-is_job : (row : HydrationJob) → In row db.jobs → row.athome_key ≡ key → row ≡ j
  row-is_job row m e = row-eq-stored db row j d m (e ∙ sym held_key) (simp held_key stored)

  -- The update of a row leaves the job out if, when the row is the job, the update does.
  update_row-IsOut :
      (f : HydrationJob → HydrationJob) (same : KeepsIdentity f) (row : HydrationJob)
      → In row db.jobs
      → (row ≡ j → Kept token until (f j))
      → IsOut (record db { jobs = update (has_id row.job_id) f db.jobs }) key token until
  unfolding get_hydration_job
  update_row-IsOut f same row m keeps = elim (Bool-cases (has_key key row)) [
    | inl e ↦
        let at_key = (eq_iff row.athome_key key).0 e in
        let is_job = row-is_job row m at_key in
        (f j, rw (← at_key, ← is_job) (find-update_self f same db.jobs row d m), keeps is_job)
    | inr e ↦ (
      j,
      find-update_other f same db.jobs row key d m
            (λ at_key. let hit = (eq_iff row.athome_key key).1 at_key in absurd (cc))
          ∙ stored,
      kept,
    )
  ]

  pub update_key-IsOut :
      (f : HydrationJob → HydrationJob) (same : KeepsIdentity f) (other : String)
      → IsFinal (f j)
      → IsOut (record db { jobs = update (has_key other) f db.jobs }) key token until
  unfolding get_hydration_job
  update_key-IsOut f same other final = elim (Bool-cases (has_key other j)) [
    | inl e ↦
        let at_key : key ≡ other = sym held_key ∙ (eq_iff j.athome_key other).0 e in
        (f j, rw (← at_key) (find-update_key_self f same key db.jobs j stored), inr final)
    | inr e ↦ (
      j,
      find-update_key f same key other db.jobs (λ at_key.
            let hit = (eq_iff j.athome_key other).1 (held_key ∙ sym at_key) in absurd (cc))
          ∙ stored,
      kept,
    )
  ]

  enqueue_fresh-IsOut :
      (o : Option HydrationJob) (other : String) (now : ℕ)
      → IsOut (enqueue_fresh o other now db).1 key token until
  enqueue_fresh-IsOut none other now = (j, stored, kept)
  enqueue_fresh-IsOut (some i) other now =
      elim (Bool-cases (is_queued i.status || is_leased i.status)) [
        | inl pending ↦
            rw pending
              (update_key-IsOut (skip now) (λ k. record { key = refl; id = refl }) other refl)
        | inr settled ↦ rw settled (j, stored, kept)
      ]

  enqueue_stale-IsOut :
      (o : Option HydrationJob) (intent : HydrationIntent) (max_attempts now : ℕ)
      → IsOut (enqueue_stale o intent max_attempts now db).1 key token until
  unfolding get_hydration_job
  enqueue_stale-IsOut none intent max_attempts now = (
    j,
    find-append (has_key key) db.jobs (new_job intent db.next_job max_attempts now ∷ []) stored,
    kept,
  )
  enqueue_stale-IsOut (some i) intent max_attempts now = (j, stored, kept)

  pub enqueue-IsOut :
      (intent : HydrationIntent) (max_attempts now : ℕ)
      → IsOut (enqueue_hydration intent max_attempts now db).1 key token until
  unfolding enqueue_hydration
  enqueue-IsOut intent max_attempts now = elim (Bool-cases (ltb max_attempts 1)) [
    | inl bad ↦ rw bad (j, stored, kept)
    | inr good ↦ elim (Bool-cases (fresh_detail db intent.internal_id now)) [
      | inl fresh ↦
          rw (good, fresh)
            (enqueue_fresh-IsOut (get_hydration_job db intent.athome_key) intent.athome_key now)
      | inr stale ↦
          rw (good, stale)
            (enqueue_stale-IsOut (get_hydration_job db intent.athome_key) intent max_attempts now)
    ]
  ]

  pub claim-IsOut :
      (lease_seconds : ℕ) (other : String) (now : ℕ)
      → now < until
      → IsOut
          (claim_row (oldest (eligible now) db.jobs) lease_seconds other now db).1
          key
          token
          until
  claim-IsOut lease_seconds other now soon = elim (Option-cases (oldest (eligible now) db.jobs)) [
    | inl nothing ↦ rw nothing (j, stored, kept)
    | inr (row, found) ↦
        let o = oldest-IsOldest (eligible now) db.jobs row found in
        let apart : row ≡ j → Kept token until (lease other (now + lease_seconds * second) now j) =
          λ is_job.
            let passes : eligible now j ≡ true = rw is_job at o.passes in
            let fails = not_eligible token until now j kept soon in absurd (cc) in
        elim (Bool-cases (fresh_detail db row.internal_id now)) [
          | inl fresh ↦
              rw (found, fresh)
                (update_row-IsOut (skip now) (λ k. record { key = refl; id = refl }) row o.listed
                  (λ _. inr refl))
          | inr stale ↦
              rw (found, stale)
                (update_row-IsOut (lease other (now + lease_seconds * second) now)
                  (λ k. record { key = refl; id = refl }) row o.listed apart)
        ]
  ]

  pub acknowledge-IsOut :
      (other t : String) (now : ℕ)
      → IsOut (transition_claimed other t succeeded (λ i. i) now db).1 key token until
  unfolding transition_claimed
  acknowledge-IsOut other t now = elim (Option-cases (find (held_by other t) db.jobs)) [
    | inl nothing ↦ rw nothing (j, stored, kept)
    | inr (row, found) ↦ rw found (
        update_row-IsOut (settle succeeded now) (λ k. record { key = refl; id = refl }) row
          (find-In (held_by other t) db.jobs row found) (λ _. inr refl))
  ]

  -- Whoever holds the job has its key and its token.
  holder : (other t : String) → held_by other t j ≡ true → (other ≡ key) × (t ≡ token)
  holder other t hit = elim kept [
    | inl h ↦
        let at_key : (j.athome_key == other) ≡ true = ground arith in
        let at_token : holds_token j.lease_token t ≡ true = ground arith in
        let same_token : (token == t) ≡ true = rw h.token_held at at_token in
        (sym ((eq_iff j.athome_key other).0 at_key) ∙ held_key, sym ((eq_iff token t).0 same_token))
    | inr final ↦ absurd (let leases : is_leased j.status ≡ true = ground arith in ground arith)
  ]

  pub fail-IsOut :
      (o : Option HydrationJob) (other t category error : String) (now : ℕ)
      → (other ≡ key → t ≢ token)
      → IsOut (fail_current o other t category error now db).1 key token until
  unfolding transition_claimed
  fail-IsOut none other t category error now spared = (j, stored, kept)
  fail-IsOut (some i) other t category error now spared =
      elim (Bool-cases (holds_token i.lease_token t && is_leased i.status)) [
        | inr lost ↦ rw lost (j, stored, kept)
        | inl held ↦ elim (Option-cases (find (held_by other t) db.jobs)) [
          | inl nothing ↦ rw (held, nothing) (j, stored, kept)
          | inr (row, found) ↦
              let hit : held_by other t row ≡ true =
                find-holds (held_by other t) db.jobs row found in
              rw (held, found)
                (update_row-IsOut (λ k. with_error category error (settle (retry_status i) now k))
                  (λ k. record { key = refl; id = refl }) row
                  (find-In (held_by other t) db.jobs row found)
                  (λ is_job.
                    let (at_key, at_token) = holder other t (rw is_job at hit) in
                    absurd (spared at_key at_token)))
        ]
      ]
