-- ===== src/Store/Queue/Rows.antt =====
-- The job table: keys and ids are distinct, so an update by id meets one row.
use athome_japan_agent_harne.Common.{
  ℕ, String, ◌≡◌, ◌≢◌, refl, ap, sym, ◌∙◌, Bool, false≢true, if◌then◌else◌, true, false, none, some,
  List, [], ◌∷◌, ◌++◌, inl, inr, arith, eqb, find, update, All, In, All-In, All-append, Bool-cases,
  eq_iff, eq_false-of_ne, eq_refl, eqb→eq, All-imp,
}
use athome_japan_agent_harne.Models.{HydrationJob}
use athome_japan_agent_harne.Store.Queue.{has_key, has_id}

pub record Differs (j k : HydrationJob) : Type 0 where
  pub key : j.athome_key ≢ k.athome_key
  pub id : j.job_id ≢ k.job_id

-- `UNIQUE (athome_key)` and the primary key.
abbrev pub Distinct : List HydrationJob → Type 0
Distinct [] = Unit
Distinct (j ∷ jobs) = All (Differs j) jobs × Distinct jobs

-- The columns that no update of a job writes.
pub record SameIdentity (j k : HydrationJob) : Type 0 where
  pub key : j.athome_key ≡ k.athome_key
  pub id : j.job_id ≡ k.job_id

abbrev pub KeepsIdentity : (HydrationJob → HydrationJob) → Type 0
KeepsIdentity f = (j : HydrationJob) → SameIdentity (f j) j

Differs-same :
    {j k j' k' : HydrationJob} → SameIdentity j' j → SameIdentity k' k → Differs j k → Differs j' k'
Differs-same a b d = record {
  key = λ e. d.key (sym a.key ∙ e ∙ b.key);
  id = λ e. d.id (omega (arith, a.id, b.id));
}

SameIdentity-refl : (j : HydrationJob) → SameIdentity j j
SameIdentity-refl j = record { key = refl; id = refl }

module _ (p : HydrationJob → Bool) (f : HydrationJob → HydrationJob) (same : KeepsIdentity f) where
  abbrev updated : HydrationJob → HydrationJob
  updated j = if p j then f j else j

  SameIdentity-updated : (j : HydrationJob) → SameIdentity (updated j) j
  SameIdentity-updated j = elim (Bool-cases (p j)) [
    | inl e ↦ rw e (same j)
    | inr e ↦ rw e (SameIdentity-refl j)
  ]

  Differs-update_left :
      (j j' : HydrationJob) (jobs : List HydrationJob)
      → SameIdentity j' j
      → All (Differs j) jobs
      → All (Differs j') (update p f jobs)
  Differs-update_left j j' [] s h = tt
  Differs-update_left j j' (k ∷ jobs) s (d, h) =
      (Differs-same s (SameIdentity-updated k) d, Differs-update_left j j' jobs s h)

  pub Distinct-update : (jobs : List HydrationJob) → Distinct jobs → Distinct (update p f jobs)
  Distinct-update [] d = tt
  Distinct-update (j ∷ jobs) (h, d) =
      (Differs-update_left j (updated j) jobs (SameIdentity-updated j) h, Distinct-update jobs d)

-- A new row whose key and id no row has.
pub Distinct-snoc :
    (jobs : List HydrationJob) (j : HydrationJob)
    → Distinct jobs
    → All (λ k. Differs k j) jobs
    → Distinct (jobs ++ j ∷ [])
Distinct-snoc [] j d h = (tt, tt)
Distinct-snoc (k ∷ jobs) j (away, d) (kj, h) =
    (All-append (Differs k) jobs (j ∷ []) away (kj, tt), Distinct-snoc jobs j d h)

-- A missing key differs from every key of the table.
pub absent_key :
    (key : String) (jobs : List HydrationJob)
    → find (has_key key) jobs ≡ none
    → All (λ j. j.athome_key ≢ key) jobs
absent_key key [] h = tt
absent_key key (j ∷ jobs) h = elim (Bool-cases (has_key key j)) [
  | inl e ↦ absurd_at e
  | inr e ↦
      (λ q. false≢true (sym e ∙ (eq_iff j.athome_key key).1 q), absent_key key jobs (rw e at h))
]
  where
    absurd_at : has_key key j ≡ true → All (λ i. i.athome_key ≢ key) (j ∷ jobs)
    absurd_at e = absurd (let hit : some j ≡ none = rw e at h in cc)

pub In-find_key :
    (jobs : List HydrationJob) (row : HydrationJob)
    → Distinct jobs
    → In row jobs
    → find (has_key row.athome_key) jobs ≡ some row
In-find_key [] row d m = elim m [ ]
In-find_key (j ∷ jobs) row d (inl e) = rw (e, eq_refl)
In-find_key (j ∷ jobs) row (away, d) (inr m) =
    rw (eq_false-of_ne j.athome_key row.athome_key (All-In (Differs j) jobs row away m).key)
      (In-find_key jobs row d m)

Differs-symm : {j k : HydrationJob} → Differs j k → Differs k j
Differs-symm d = record { key = λ e. d.key (sym e); id = λ e. d.id (sym e) }

-- The row that has an id is the only one.
same_id-same_row :
    (jobs : List HydrationJob) (row : HydrationJob)
    → Distinct jobs
    → In row jobs
    → All (λ j. has_id row.job_id j ≡ true → j ≡ row) jobs
same_id-same_row [] row d m = tt
same_id-same_row (j ∷ jobs) row (away, d) (inl e) = (
  λ _. sym e,
  All-imp (λ k apart hit. absurd (apart.id (rw e at (sym (eqb→eq k.job_id row.job_id hit))))) jobs
      away,
)
same_id-same_row (j ∷ jobs) row (away, d) (inr m) = (
  λ hit. absurd ((All-In (Differs j) jobs row away m).id (eqb→eq j.job_id row.job_id hit)),
  same_id-same_row jobs row d m,
)

-- An update by id, read back by key: the row itself, and any other key.
module _ (f : HydrationJob → HydrationJob) (same : KeepsIdentity f) where
  eqb_refl : (n : ℕ) → eqb n n ≡ true
  eqb_refl n = ground arith

  eqb_ne : (n m : ℕ) → n ≢ m → eqb n m ≡ false
  eqb_ne n m h = ground arith

  pub find-update_self :
      (jobs : List HydrationJob) (row : HydrationJob)
      → Distinct jobs
      → In row jobs
      → find (has_key row.athome_key) (update (has_id row.job_id) f jobs) ≡ some (f row)
  find-update_self [] row d m = elim m [ ]
  find-update_self (j ∷ jobs) row d (inl e) = rw (e, eqb_refl, (same j).key, eq_refl)
  find-update_self (j ∷ jobs) row (away, d) (inr m) =
      let apart = All-In (Differs j) jobs row away m in
      rw (eqb_ne j.job_id row.job_id apart.id, eq_false-of_ne j.athome_key row.athome_key apart.key)
        (find-update_self jobs row d m)

  find-update_miss :
      (jobs : List HydrationJob) (i : ℕ) (key : String)
      → All (λ j. has_id i j ≡ true → j.athome_key ≢ key) jobs
      → find (has_key key) (update (has_id i) f jobs) ≡ find (has_key key) jobs
  find-update_miss [] i key h = refl
  find-update_miss (j ∷ jobs) i key (away, h) = elim (Bool-cases (has_id i j)) [
    | inl e ↦
        rw (e, (same j).key, eq_false-of_ne j.athome_key key (away e))
          (find-update_miss jobs i key h)
    | inr e ↦ rw (e, find-update_miss jobs i key h)
  ]

  pub find-update_other :
      (jobs : List HydrationJob) (row : HydrationJob) (key : String)
      → Distinct jobs
      → In row jobs
      → row.athome_key ≢ key
      → find (has_key key) (update (has_id row.job_id) f jobs) ≡ find (has_key key) jobs
  find-update_other jobs row key d m h =
      find-update_miss jobs row.job_id key
        (All-imp (λ j. named j) jobs (same_id-same_row jobs row d m))
    where
      named :
          (j : HydrationJob)
          → (has_id row.job_id j ≡ true → j ≡ row)
          → has_id row.job_id j ≡ true
          → j.athome_key ≢ key
      named j is_row e = rw (is_row e) h

-- An update by key, read back by that key.
pub find-update_key_self :
    (f : HydrationJob → HydrationJob) (same : KeepsIdentity f) (key : String)
    (jobs : List HydrationJob) (j : HydrationJob)
    → find (has_key key) jobs ≡ some j
    → find (has_key key) (update (has_key key) f jobs) ≡ some (f j)
find-update_key_self f same key [] j h = absurd (cc)
find-update_key_self f same key (k ∷ jobs) j h = elim (Bool-cases (has_key key k)) [
  | inl e ↦
      let first : some k ≡ some j = rw e at h in
      let is_job : k ≡ j = cc in
      let at_key = (same k).key ∙ (eq_iff k.athome_key key).0 e in
      let again : has_key key (f k) ≡ true = (eq_iff (f k).athome_key key).1 at_key in
      rw (e, again) (ap (λ i. some (f i)) is_job)
  | inr e ↦ rw (e, e) (find-update_key_self f same key jobs j (rw e at h))
]
