-- ===== src/Llm/Shortlist/Listed.antt =====
-- What the shortlist of llm/shortlister.py can hold.
use athome_japan_agent_harne.Common.{
  ℕ, zero, suc, ◌≤◌, String, ◌==◌, ◌≡◌, refl, Option, none, some, List, [], ◌∷◌, inl, inr, arith,
  eqb, length, In, All, All-imp, Bool-cases,
}
use athome_japan_agent_harne.Common.Dict.{Dict, get, put, values}
use athome_japan_agent_harne.Llm.Shortlist.{
  Candidate, ShortlistEntry, improves, known_entry, merge_entries, merge_batches, add_keys, add_ids,
  prompt_ids, ranks_before, insert, sorted, take, top_of, shortlist,
}

module _ {ℓ} {V : Type 0} (P : V → Type ℓ) where
  All-put : (k : String) (v : V) (d : Dict V) → P v → All P (values d) → All P (values (put k v d))
  All-put k v [] pv all = (pv, tt)
  All-put k v ((i, w) ∷ d) pv (pw, all) = elim (Bool-cases (i == k)) [
    | inl e ↦ rw e (pv, all)
    | inr e ↦ rw e (pw, All-put k v d pv all)
  ]

  All-get : (k : String) (d : Dict V) (v : V) → All P (values d) → get k d ≡ some v → P v
  All-get k [] v all h = absurd (cc)
  All-get k ((i, w) ∷ d) v (pw, all) h = elim (Bool-cases (i == k)) [
    | inl e ↦ let here : some w ≡ some v = rw e at h in let same : w ≡ v = cc in rw (← same) pw
    | inr e ↦ All-get k d v all (rw e at h)
  ]

module _ {ℓ} (P : ShortlistEntry → Type ℓ) where
  All-insert :
      (e : ShortlistEntry) (xs : List ShortlistEntry) → P e → All P xs → All P (insert e xs)
  All-insert e [] pe all = (pe, tt)
  All-insert e (x ∷ xs) pe (px, all) = elim (Bool-cases (ranks_before e x)) [
    | inl first ↦ rw first (pe, (px, all))
    | inr later ↦ rw later (px, All-insert e xs pe all)
  ]

  All-sorted : (xs : List ShortlistEntry) → All P xs → All P (sorted xs)
  All-sorted [] all = tt
  All-sorted (x ∷ xs) (px, all) = All-insert x (sorted xs) px (All-sorted xs all)

  All-take : (n : ℕ) (xs : List ShortlistEntry) → All P xs → All P (take n xs)
  All-take zero xs all = tt
  All-take (suc n) [] all = tt
  All-take (suc n) (x ∷ xs) (px, all) = (px, All-take n xs all)

length-take : (n : ℕ) (xs : List ShortlistEntry) → length (take n xs) ≤ n
length-take zero xs = omega arith
length-take (suc n) [] = omega arith
length-take (suc n) (x ∷ xs) = omega (arith, length-take n xs)

-- The text is the internal id of a listing.
abbrev pub IsHarvested : List Candidate → String → Type 0
IsHarvested listings i = (l : Candidate) × In l listings × (i ≡ l.internal_id)

IsHarvested-later :
    (l : Candidate) (listings : List Candidate) (i : String)
    → IsHarvested listings i
    → IsHarvested (l ∷ listings) i
IsHarvested-later l listings i (k, m, e) = (k, inr m, e)

module _ (all_listings : List Candidate) where
  add_keys-IsHarvested :
      (listings : List Candidate) (ids : Dict String)
      → All (λ (l : Candidate). IsHarvested all_listings l.internal_id) listings
      → All (IsHarvested all_listings) (values ids)
      → All (IsHarvested all_listings) (values (add_keys listings ids))
  add_keys-IsHarvested [] ids from h = h
  add_keys-IsHarvested (l ∷ listings) ids (pl, from) h =
      add_keys-IsHarvested listings (put l.athome_key l.internal_id ids) from
        (All-put (IsHarvested all_listings) l.athome_key l.internal_id ids pl h)

  add_ids-IsHarvested :
      (listings : List Candidate) (ids : Dict String)
      → All (λ (l : Candidate). IsHarvested all_listings l.internal_id) listings
      → All (IsHarvested all_listings) (values ids)
      → All (IsHarvested all_listings) (values (add_ids listings ids))
  add_ids-IsHarvested [] ids from h = h
  add_ids-IsHarvested (l ∷ listings) ids (pl, from) h =
      add_ids-IsHarvested listings (put l.internal_id l.internal_id ids) from
        (All-put (IsHarvested all_listings) l.internal_id l.internal_id ids pl h)

  abbrev Listed : ShortlistEntry → Type 0
  Listed e = IsHarvested all_listings e.listing_id

  known_entry-Listed :
      (o : Option String) (entry : ShortlistEntry) (best : Dict ShortlistEntry)
      → ((i : String) → o ≡ some i → IsHarvested all_listings i)
      → All Listed (values best)
      → All Listed (values (known_entry o entry best))
  known_entry-Listed none entry best known h = h
  known_entry-Listed (some i) entry best known h =
      let e : ShortlistEntry = record entry { listing_id = i } in
      elim (Bool-cases (improves e (get i best))) [
        | inl better ↦ rw better (All-put Listed i e best (known i refl) h)
        | inr worse ↦ rw worse h
      ]

  module _ (ids : Dict String) (named : All (IsHarvested all_listings) (values ids)) where
    merge_entries-Listed :
        (entries : List ShortlistEntry) (best : Dict ShortlistEntry)
        → All Listed (values best)
        → All Listed (values (merge_entries ids entries best))
    unfolding merge_entries
    merge_entries-Listed [] best h = h
    merge_entries-Listed (e ∷ entries) best h =
        merge_entries-Listed entries (known_entry (get e.listing_id ids) e best) (
          known_entry-Listed (get e.listing_id ids) e best
            (λ i there. All-get (IsHarvested all_listings) e.listing_id ids i named there) h)

    merge_batches-Listed :
        (batches : List (Option (List ShortlistEntry))) (best : Dict ShortlistEntry)
        → All Listed (values best)
        → All Listed (values (merge_batches ids batches best))
    unfolding merge_batches
    merge_batches-Listed [] best h = h
    merge_batches-Listed (none ∷ batches) best h = merge_batches-Listed batches best h
    merge_batches-Listed (some entries ∷ batches) best h =
        merge_batches-Listed batches (merge_entries ids entries best)
          (merge_entries-Listed entries best h)

each-IsHarvested :
    (listings : List Candidate)
    → All (λ (l : Candidate). IsHarvested listings l.internal_id) listings
each-IsHarvested [] = tt
each-IsHarvested (l ∷ listings) = (
  (l, inl refl, refl),
  All-imp (λ (k : Candidate). IsHarvested-later l listings k.internal_id) listings
      (each-IsHarvested listings),
)

-- A shortlist has at most as many entries as asked for, or twenty if nothing is asked, and names only
-- listings that were handed in, by their internal ids, whatever the model answers.
pub shortlist-IsHarvested :
    (listings : List Candidate) (top_x : Option ℕ) (batches : List (Option (List ShortlistEntry)))
    → (length (shortlist listings top_x batches) ≤ top_of top_x)
      × All
          (λ (e : ShortlistEntry). IsHarvested listings e.listing_id)
          (shortlist listings top_x batches)
unfolding shortlist prompt_ids
shortlist-IsHarvested [] top_x batches = (omega arith, tt)
shortlist-IsHarvested (l ∷ listings) top_x batches = elim (Bool-cases (eqb (top_of top_x) 0)) [
  | inl e ↦ rw e (omega arith, tt)
  | inr e ↦
      let each = each-IsHarvested (l ∷ listings) in
      let keys = add_keys-IsHarvested (l ∷ listings) (l ∷ listings) [] each tt in
      let named =
        add_ids-IsHarvested (l ∷ listings) (l ∷ listings) (add_keys (l ∷ listings) []) each keys in
      let best = merge_batches (prompt_ids (l ∷ listings)) batches [] in
      let all_listed =
        merge_batches-Listed (l ∷ listings) (prompt_ids (l ∷ listings)) named batches [] tt in
      rw e (
        length-take (top_of top_x) (sorted (values best)),
        All-take (Listed (l ∷ listings)) (top_of top_x) (sorted (values best))
            (All-sorted (Listed (l ∷ listings)) (values best) all_listed),
      )
]
