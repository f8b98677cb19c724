-- ===== src/Cli/Session/Listable.antt =====
-- What the shortlist of a search of cli.py can list.
use athome_japan_agent_harne.Common.{
  ℕ, suc, ◌≤◌, ◌≡◌, refl, sym, ◌∙◌, String, ◌==◌, false, inl, inr, Option, none, some, List, [],
  ◌∷◌, map, arith, if◌then◌else◌, any, length, In, All, All-In, All-imp, Bool-cases, eq_iff,
}
use athome_japan_agent_harne.Common.Dict.{Dict, get, put, get-put}
use athome_japan_agent_harne.Models.{Listing}
use athome_japan_agent_harne.Store.Db.{Db}
use athome_japan_agent_harne.Store.Feedback.{rejected_internal_ids}
use athome_japan_agent_harne.Llm.Shortlist.{Candidate, ShortlistEntry, shortlist}
use athome_japan_agent_harne.Llm.Shortlist.Listed.{IsHarvested, shortlist-IsHarvested}
use athome_japan_agent_harne.Cli.State.{Surroundings}
use athome_japan_agent_harne.Cli.Session.{
  is_one_of, candidates_of, candidate_of, index_listings, found, summaries_of, shortlisted,
}

-- A dictionary that holds listings of the pool under their ids.
abbrev IsIndex : List Listing → Dict Listing → Type 0
IsIndex pool by_id =
    (k : String) (l : Listing) → get k by_id ≡ some l → (l.internal_id ≡ k) × In l pool

index_listings-IsIndex :
    (pool listings : List Listing) (by_id : Dict Listing)
    → All (λ l. In l pool) listings
    → IsIndex pool by_id
    → IsIndex pool (index_listings listings by_id)
unfolding index_listings
index_listings-IsIndex pool [] by_id all index = index
index_listings-IsIndex pool (l ∷ listings) by_id (m, all) index =
    index_listings-IsIndex pool listings (put l.internal_id l by_id) all (λ k x h.
      elim (Bool-cases (l.internal_id == k)) [
        | inl e ↦
            let here : (if l.internal_id == k then some l else get k by_id) ≡ some x =
              sym (get-put k l.internal_id l by_id) ∙ h in
            let hit : some l ≡ some x = rw e at here in
            let same : l ≡ x = cc in
            (rw (← same) (ground (arith, eq_iff l.internal_id k)), rw (← same) m)
        | inr e ↦
            let here : (if l.internal_id == k then some l else get k by_id) ≡ some x =
              sym (get-put k l.internal_id l by_id) ∙ h in
            index k x (rw e at here)
      ])

members_lem : (pool : List Listing) → All (λ l. In l pool) pool
members_lem [] = tt
members_lem (l ∷ pool) = (inl refl, All-imp (λ k m. inr m) pool (members_lem pool))

-- The id is not one of those that the user has rejected.
abbrev IsFree : Db → String → Type 0
IsFree db i = any (λ r. r == i) (rejected_internal_ids db) ≡ false

candidates-IsFree :
    (serialized_length : Listing → ℕ) (db : Db) (pool : List Listing)
    → All
        (λ (c : Candidate). IsFree db c.internal_id)
        (map (candidate_of serialized_length) (candidates_of db pool))
candidates-IsFree serialized_length db [] = tt
candidates-IsFree serialized_length db (l ∷ pool) =
    elim (Bool-cases (is_one_of (rejected_internal_ids db) l)) [
      | inl out ↦ rw out (candidates-IsFree serialized_length db pool)
      | inr free ↦ rw free (free, candidates-IsFree serialized_length db pool)
    ]

IsHarvested-IsFree :
    (serialized_length : Listing → ℕ) (db : Db) (pool : List Listing) (i : String)
    → IsHarvested (map (candidate_of serialized_length) (candidates_of db pool)) i
    → IsFree db i
IsHarvested-IsFree serialized_length db pool i (c, m, e) = rw e (
    All-In (λ (c : Candidate). IsFree db c.internal_id)
      (map (candidate_of serialized_length) (candidates_of db pool)) c
      (candidates-IsFree serialized_length db pool) m)

-- Listed for the user: from the pool, and not rejected.
abbrev pub Listable : List String → List Listing → Listing → Type 0
Listable rejected pool l = In l pool × (is_one_of rejected l ≡ false)

module _ (db : Db) (pool : List Listing) (by_id : Dict Listing) (index : IsIndex pool by_id) where
  found-Listable :
      (o : Option Listing) (i : String) (rest : List Listing)
      → get i by_id ≡ o
      → IsFree db i
      → All (Listable (rejected_internal_ids db) pool) rest
      → All (Listable (rejected_internal_ids db) pool) (found o rest)
  found-Listable none i rest e free all = all
  found-Listable (some l) i rest e free all =
      let (named, m) = index i l e in ((m, rw named free), all)

  summaries_of-Listable :
      (entries : List ShortlistEntry)
      → All (λ (e : ShortlistEntry). IsFree db e.listing_id) entries
      → All (Listable (rejected_internal_ids db) pool) (summaries_of by_id entries)
  unfolding summaries_of
  summaries_of-Listable [] all = tt
  summaries_of-Listable (e ∷ entries) (free, all) =
      found-Listable (get e.listing_id by_id) e.listing_id (summaries_of by_id entries) refl free
        (summaries_of-Listable entries all)

found_few :
    (o : Option Listing) (rest : List Listing) (n : ℕ)
    → length rest ≤ n
    → length (found o rest) ≤ suc n
found_few none rest n h = omega (arith, h)
found_few (some l) rest n h = omega (arith, h)

summaries_of-length :
    (by_id : Dict Listing) (entries : List ShortlistEntry)
    → length (summaries_of by_id entries) ≤ length entries
unfolding summaries_of
summaries_of-length by_id [] = omega arith
summaries_of-length by_id (e ∷ entries) =
    found_few (get e.listing_id by_id) (summaries_of by_id entries) (length entries)
      (summaries_of-length by_id entries)

-- The shortlist is short enough, and what it lists is from the pool and not rejected.
pub shortlisted-Listable :
    (w : Surroundings) (db : Db) (pool : List Listing)
    → (length (shortlisted w db pool) ≤ w.shortlist_size)
      × All (Listable (rejected_internal_ids db) pool) (shortlisted w db pool)
unfolding shortlisted
shortlisted-Listable w db pool =
    let candidates = map (candidate_of w.serialized_length) (candidates_of db pool) in
    let entries = shortlist candidates (some w.shortlist_size) w.answers in
    let (few, from) = shortlist-IsHarvested candidates (some w.shortlist_size) w.answers in
    let by_id = index_listings pool [] in
    let index = index_listings-IsIndex pool pool [] (members_lem pool) (λ k l h. absurd (cc)) in
    (
      omega (arith, few, summaries_of-length by_id entries),
      summaries_of-Listable db pool by_id index entries (
          All-imp
            (λ (e : ShortlistEntry). IsHarvested-IsFree w.serialized_length db pool e.listing_id)
            entries from),
    )
