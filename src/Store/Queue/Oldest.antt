-- ===== src/Store/Queue/Oldest.antt =====
-- `ORDER BY created_at, id LIMIT 1` over the eligible rows, in store/sqlite_store.py.
use athome_japan_agent_harne.Common.{
  ◌≡◌, refl, subst, Bool, true, false, none, some, List, [], ◌∷◌, inl, inr, arith, All, In, All-imp,
  Bool-cases, Option-cases,
}
use athome_japan_agent_harne.Models.{HydrationJob}
use athome_japan_agent_harne.Store.Queue.{before, earlier, oldest}

pub record IsOldest (p : HydrationJob → Bool) (jobs : List HydrationJob) (row : HydrationJob)
    : Type 0 where
  pub listed : In row jobs
  pub passes : p row ≡ true
  pub first : All (λ k. p k ≡ true → before k row ≡ false) jobs

before_irrefl : (j : HydrationJob) → before j j ≡ false
before_irrefl j = ground arith

before_asymm : (j k : HydrationJob) → before j k ≡ true → before k j ≡ false
before_asymm j k h = ground arith

before_trans : (i j k : HydrationJob) → before i j ≡ false → before j k ≡ false → before i k ≡ false
before_trans i j k h g = ground arith

oldest-none :
    (p : HydrationJob → Bool) (jobs : List HydrationJob)
    → oldest p jobs ≡ none
    → All (λ k. p k ≡ false) jobs
unfolding oldest
oldest-none p [] h = tt
oldest-none p (j ∷ jobs) h = elim (Bool-cases (p j)) [
  | inl e ↦ absurd (let hit : some (earlier j (oldest p jobs)) ≡ none = rw e at h in cc)
  | inr e ↦ (e, oldest-none p jobs (rw e at h))
]

fails-first :
    (p : HydrationJob → Bool) (row k : HydrationJob)
    → p k ≡ false
    → p k ≡ true
    → before k row ≡ false
fails-first p row k a b = cc

module _ (p : HydrationJob → Bool) (j : HydrationJob) (jobs : List HydrationJob) where
  IsOldest-skip :
      {best : HydrationJob} → p j ≡ false → IsOldest p jobs best → IsOldest p (j ∷ jobs) best
  IsOldest-skip {best} e o = record {
    listed = inr o.listed;
    passes = o.passes;
    first = (fails-first p best j e, o.first);
  }

  IsOldest-keep :
      {best : HydrationJob}
      → before best j ≡ true
      → IsOldest p jobs best
      → IsOldest p (j ∷ jobs) best
  IsOldest-keep {best} sooner o = record {
    listed = inr o.listed;
    passes = o.passes;
    first = ((λ _. before_asymm best j sooner), o.first);
  }

  IsOldest-head :
      p j ≡ true → All (λ k. p k ≡ true → before k j ≡ false) jobs → IsOldest p (j ∷ jobs) j
  IsOldest-head e rest = record {
    listed = inl refl;
    passes = e;
    first = ((λ _. before_irrefl j), rest);
  }

  IsOldest-over :
      {best : HydrationJob}
      → p j ≡ true
      → before best j ≡ false
      → IsOldest p jobs best
      → IsOldest p (j ∷ jobs) j
  IsOldest-over {best} e later o =
      IsOldest-head e
        (All-imp (λ k first_k q. before_trans k best j (first_k q) later) jobs o.first)

  -- The choice that `earlier` makes between the head and the oldest of the rest.
  IsOldest-earlier :
      {best : HydrationJob}
      → p j ≡ true
      → IsOldest p jobs best
      → IsOldest p (j ∷ jobs) (earlier j (some best))
  IsOldest-earlier {best} e o = elim (Bool-cases (before best j)) [
    | inl sooner ↦ rw sooner (IsOldest-keep sooner o)
    | inr later ↦ rw later (IsOldest-over e later o)
  ]

IsOldest-at :
    {p : HydrationJob → Bool} {jobs : List HydrationJob} {j k : HydrationJob}
    → j ≡ k
    → IsOldest p jobs j
    → IsOldest p jobs k
IsOldest-at {p} {jobs} e o = subst (IsOldest p jobs) e o

pub oldest-IsOldest :
    (p : HydrationJob → Bool) (jobs : List HydrationJob) (row : HydrationJob)
    → oldest p jobs ≡ some row
    → IsOldest p jobs row
unfolding oldest
oldest-IsOldest p [] row h = cc
oldest-IsOldest p (j ∷ jobs) row h = elim (Bool-cases (p j)) [
  | inr e ↦ IsOldest-skip p j jobs e (oldest-IsOldest p jobs row (rw e at h))
  | inl e ↦ elim (Option-cases (oldest p jobs)) [
    | inl nothing ↦
        IsOldest-at (ground (arith, nothing))
          (IsOldest-head p j jobs e (All-imp (fails-first p j) jobs (oldest-none p jobs nothing)))
    | inr (best, found) ↦
        IsOldest-at (ground (arith, found))
          (IsOldest-earlier p j jobs e (oldest-IsOldest p jobs best found))
  ]
]
