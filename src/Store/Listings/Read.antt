-- ===== src/Store/Listings/Read.antt =====
-- Reading back, in store/sqlite_store.py, what `upsert_listing` has stored.
use athome_japan_agent_harne.Common.{
  ℕ, String, ◌==◌, ◌≡◌, ◌≢◌, refl, sym, ap, ◌∙◌, true, false, ◌||◌, Option, none, some, List, [],
  ◌∷◌, ◌++◌, inl, inr, arith, ok, find, find-In, any, update, In, All, All-In, Bool-cases,
  Option-cases, eq_iff, false≢true,
}
use athome_japan_agent_harne.Models.{Agency, Listing}
use athome_japan_agent_harne.Store.Db.{Db, ListingRow}
use athome_japan_agent_harne.Store.Queue.{Outcome}
use athome_japan_agent_harne.Store.Merge.Valid.{IsListing, merge_listing-IsListing}
use athome_japan_agent_harne.Store.Listings.{
  has_internal_id, write_row, write_url, new_row, deserialize_listing, hydrate_agency, row_agency,
  listing_from_row, get_listing, clashes, url_clashes, merge_conflict, update_existing, insert_new,
  store_listing, conflicting_id, has_athome_key, same_property, with_agency, upsert_listing,
}
use athome_japan_agent_harne.Store.Listings.Unique.{
  IsTable, with_agency-listings, with_agency-IsTable,
}
use athome_japan_agent_harne.Store.Listings.Conflict.{
  TakesUpdate, merged-id, merged-key, merged-url,
}

-- The read returns a listing with the three identities of `l`.
pub record Reads (l : Listing) (db : Db) (i : String) : Type 0 where
  pub listing : Listing
  pub returns : get_listing db i ≡ ok (some listing)
  pub same_id : listing.internal_id ≡ l.internal_id
  pub same_key : listing.athome_key ≡ l.athome_key
  pub same_url : listing.url ≡ l.url

-- A call that returns an id has stored the listing under it.
abbrev ReadsBack : Listing → Outcome String → Type 0
ReadsBack l outcome = (i : String) → outcome.0 ≡ ok i → Reads l outcome.1 i

row-Reads :
    (m : Listing) (db : Db) (i : String) (row : ListingRow)
    → IsListing m
    → find (has_internal_id i) db.listings ≡ some row
    → row.payload ≡ m
    → Reads m db i
unfolding get_listing listing_from_row deserialize_listing
row-Reads m db i row valid there holds =
    let a = row_agency db row.agency_kaiin_no in
    record {
      listing = hydrate_agency a m;
      returns = rw (there, holds, valid) refl;
      same_id = ids a;
      same_key = keys a;
      same_url = urls a;
    }
  where
    ids : (a : Option Agency) → (hydrate_agency a m).internal_id ≡ m.internal_id
    ids none = refl
    ids (some a) = refl

    keys : (a : Option Agency) → (hydrate_agency a m).athome_key ≡ m.athome_key
    keys none = refl
    keys (some a) = refl

    urls : (a : Option Agency) → (hydrate_agency a m).url ≡ m.url
    urls none = refl
    urls (some a) = refl

find-update_row :
    (i : String) (set : ListingRow → ListingRow)
    → ((r : ListingRow) → (set r).internal_id ≡ r.internal_id)
    → (rows : List ListingRow) (row : ListingRow) → In row rows
    → row.internal_id ≡ i
    → (r : ListingRow) × (find (has_internal_id i) (update (has_internal_id i) set rows)
        ≡ some (set r))
find-update_row i set same [] row m e = elim m [ ]
find-update_row i set same (q ∷ rows) row m e = elim (Bool-cases (has_internal_id i q)) [
  | inl hit ↦
      let kept : has_internal_id i (set q) ≡ true = rw (same q) hit in (q, rw hit (simp kept refl))
  | inr miss ↦ elim m [
    | inl here ↦
        let hit : has_internal_id i q ≡ true = rw (← here) ((eq_iff row.internal_id i).1 e) in
        absurd (let f : true ≡ false = cc in false≢true (sym f))
    | inr later ↦
        let (r, there) = find-update_row i set same rows row later e in (r, rw (miss, miss) there)
  ]
]

find-snoc :
    (i : String) (rows : List ListingRow) (row : ListingRow)
    → any (has_internal_id i) rows ≡ false
    → row.internal_id ≡ i
    → find (has_internal_id i) (rows ++ row ∷ []) ≡ some row
find-snoc i [] row free e = rw ((eq_iff row.internal_id i).1 e) refl
find-snoc i (r ∷ rows) row free e = elim (Bool-cases (has_internal_id i r)) [
  | inl hit ↦ let f : true ≡ false = rw hit at free in cc
  | inr miss ↦ rw miss (find-snoc i rows row (rw miss at free) e)
]

module _ (m : Listing) (now : ℕ) (db : Db) (valid : IsListing m) where
  rewritten-Reads :
      (i : String) (set : ListingRow → ListingRow) (row : ListingRow)
      → ((r : ListingRow) → (set r).internal_id ≡ r.internal_id)
      → ((r : ListingRow) → (set r).payload ≡ m)
      → In row db.listings
      → row.internal_id ≡ i
      → Reads m (record db { listings = update (has_internal_id i) set db.listings }) i
  rewritten-Reads i set row same holds listed e =
      let (r, there) = find-update_row i set same db.listings row listed e in
      row-Reads m (record db { listings = update (has_internal_id i) set db.listings }) i (set r)
        valid there (holds r)

  -- The row that the second UPDATE writes is there: the owner of the key, or else the canonical one.
  owner_listed :
      (o : Option ListingRow) (row : ListingRow)
      → ((r : ListingRow) → o ≡ some r → In r db.listings)
      → In row db.listings
      → (r : ListingRow) × In r db.listings × (r.internal_id ≡ conflicting_id o row.internal_id)
  owner_listed none row each listed = (row, listed, refl)
  owner_listed (some r) row each listed = (r, each r refl, refl)

  merge_conflict-ReadsBack :
      (row : ListingRow)
      → In row db.listings
      → ReadsBack m (merge_conflict row.internal_id m now db)
  merge_conflict-ReadsBack row listed =
      let o = find (has_athome_key m.athome_key) db.listings in
      let owner = conflicting_id o row.internal_id in
      let (r, m_r, e) =
        owner_listed o row (λ r h. find-In (has_athome_key m.athome_key) db.listings r h) listed in
      elim (Bool-cases (any (url_clashes owner m.url) db.listings)) [
        | inl clash ↦ rw clash (λ i h. absurd (cc))
        | inr free ↦ rw free (λ i h.
            let same : owner ≡ i = cc in
            rw (← same) (rewritten-Reads owner (write_url m now) r (λ q. refl) (λ q. refl) m_r e))
      ]

  update_existing-ReadsBack :
      (row : ListingRow)
      → In row db.listings
      → ReadsBack m (update_existing row.internal_id m now db)
  update_existing-ReadsBack row listed =
      elim (Bool-cases (any (clashes row.internal_id m.athome_key m.url) db.listings)) [
        | inl clash ↦ rw clash (merge_conflict-ReadsBack row listed)
        | inr free ↦ rw free (λ i h.
            let same : row.internal_id ≡ i = cc in
            rw (← same) (
              rewritten-Reads row.internal_id (write_row m now) row (λ q. refl) (λ q. refl) listed
                refl))
      ]

  insert_new-ReadsBack : ReadsBack m (insert_new m now db)
  insert_new-ReadsBack =
      let test =
        λ (r : ListingRow). r.internal_id == m.internal_id || same_property m.athome_key m.url r in
      elim (Bool-cases (any test db.listings)) [
        | inl clash ↦ rw clash (λ i h. absurd (cc))
        | inr free ↦ rw free (λ i h.
            let same : m.internal_id ≡ i = cc in
            rw (← same) (
              row-Reads m (record db { listings = db.listings ++ new_row m now ∷ [] }) m.internal_id
                (new_row m now) valid
                (find-snoc m.internal_id db.listings (new_row m now) (no_id db.listings free) refl)
                refl))
      ]
    where
      no_id :
          (rows : List ListingRow)
          → any
              (λ (r : ListingRow).
                r.internal_id == m.internal_id || same_property m.athome_key m.url r)
              rows
            ≡ false
          → any (has_internal_id m.internal_id) rows ≡ false
      no_id [] h = refl
      no_id (r ∷ rows) h = ground (arith, no_id rows)

-- A listing with the same identities is as good.
Reads-same :
    {l m : Listing} {db : Db} {i : String}
    → m.internal_id ≡ l.internal_id
    → m.athome_key ≡ l.athome_key
    → m.url ≡ l.url
    → Reads m db i
    → Reads l db i
Reads-same same_id same_key same_url w = record {
  listing = w.listing;
  returns = w.returns;
  same_id = w.same_id ∙ same_id;
  same_key = w.same_key ∙ same_key;
  same_url = w.same_url ∙ same_url;
}

module _ (l : Listing) (now : ℕ) (db : Db) (valid : IsListing l) (t : IsTable db)
    (named : l.internal_id ≢ "") (keyed : l.athome_key ≢ "") (addressed : l.url ≢ "")
    (takes : All (λ (r : ListingRow). TakesUpdate r l) db.listings) where
  store_listing-ReadsBack :
      ReadsBack l (store_listing (find (same_property l.athome_key l.url) db.listings) l now db)
  unfolding deserialize_listing
  store_listing-ReadsBack =
      elim (Option-cases (find (same_property l.athome_key l.url) db.listings)) [
        | inl absent ↦ rw absent (insert_new-ReadsBack l now db valid)
        | inr (row, found) ↦
            let listed = find-In (same_property l.athome_key l.url) db.listings row found in
            let old =
              All-In (λ (r : ListingRow). IsListing r.payload) db.listings row t.valid listed in
            let open_row =
              All-In (λ (r : ListingRow). TakesUpdate r l) db.listings row takes listed in
            let (merged, merges, good) = merge_listing-IsListing row.payload l old valid in
            rw (found, old, merges)
              (λ i h.
                Reads-same (merged-id row.payload l merged open_row merges named)
                  (merged-key row.payload l merged open_row merges keyed)
                  (merged-url row.payload l merged open_row merges addressed)
                  (update_existing-ReadsBack merged now db good row listed i h))
      ]

-- A valid listing, its id, key and address not empty and no stored detail shielding a row from it, is
-- read back under the id that storing it returns, whichever branch has stored it, and the listing read
-- has the incoming id, key and address: its own id is the incoming one also where the row keeps an
-- older id and is returned under that.
pub upsert_listing-Reads :
    (l : Listing) (now : ℕ) (db after : Db) (i : String)
    → IsListing l
    → IsTable db
    → l.internal_id ≢ ""
    → l.athome_key ≢ ""
    → l.url ≢ ""
    → All (λ (r : ListingRow). TakesUpdate r l) db.listings
    → upsert_listing l now db ≡ (ok i, after)
    → Reads l after i
unfolding upsert_listing
upsert_listing-Reads l now db after i valid t named keyed addressed takes h =
    let same = with_agency-listings l.agency db in
    let back =
      store_listing-ReadsBack l now (with_agency l.agency db) valid
        (with_agency-IsTable l.agency db t) named keyed addressed (rw same takes) i
        (ap (λ o. o.0) h) in
    let at : (upsert_listing l now db).1 ≡ after = ap (λ o. o.1) h in rw (← at) back
