-- ===== src/Store/Listings/Unique.antt =====
-- The listing table of store/sqlite_store.py: the ids, keys and addresses of its rows are distinct, and
-- every payload is a valid listing.
use athome_japan_agent_harne.Common.{
  ℕ, String, ◌==◌, ◌≡◌, refl, Bool, false, ◌||◌, Option, none, some, List, [], ◌∷◌, inl, inr, arith,
  ok, err, find, any, any-false, find-In, update, All, All-In, All-append, All-update, Bool-cases,
  Option-cases, ne-of-eq_false,
}
use athome_japan_agent_harne.Models.{Agency, Listing}
use athome_japan_agent_harne.Store.Db.{Db, ListingRow, StoreError, integrity_error}
use athome_japan_agent_harne.Store.Queue.{Outcome}
use athome_japan_agent_harne.Store.Merge.Valid.{IsListing, merge_listing-IsListing}
use athome_japan_agent_harne.Store.Listings.{
  has_internal_id, clashes, url_clashes, write_row, write_url, new_row, upsert_listing, with_agency,
  upsert_agency, deserialize_listing, same_property, store_listing, update_existing, merge_conflict,
  insert_new, conflicting_id, has_athome_key,
}
use athome_japan_agent_harne.Store.Listings.Rows.{
  RowDiffers, DistinctRows, DistinctRows-snoc, DistinctRows-update, Apart, write_row-Apart,
  write_url-Apart,
}

pub record IsTable (db : Db) : Type 0 where
  pub distinct : DistinctRows db.listings
  pub valid : All (λ r. IsListing r.payload) db.listings

-- Valid tables, and the only exception is an IntegrityError that has left the tables alone.
pub record IsSound (before : Db) (outcome : Outcome String) : Type 0 where
  pub table : IsTable outcome.1
  pub raises : (e : StoreError) → outcome.0 ≡ err e → (e ≡ integrity_error) × (outcome.1 ≡ before)

returned-IsSound : {before after : Db} {i : String} → IsTable after → IsSound before (ok i, after)
returned-IsSound t = record { table = t; raises = λ e h. cc }

raised-IsSound : {db : Db} → IsTable db → IsSound db (err integrity_error, db)
raised-IsSound t = record { table = t; raises = λ e h. (cc, refl) }

-- A row rewritten to hold the listing.
module _ (l : Listing) (now : ℕ) (db : Db) (valid : IsListing l) (t : IsTable db) where
  rewritten-IsTable :
      (canonical : String) (set : ListingRow → ListingRow) (clash : ListingRow → Bool)
      → Apart canonical set clash
      → ((r : ListingRow) → IsListing (set r).payload)
      → any clash db.listings ≡ false
      → IsTable (record db { listings = update (has_internal_id canonical) set db.listings })
  rewritten-IsTable canonical set clash apart holds free = record {
    distinct =
        DistinctRows-update canonical set clash apart db.listings (any-false clash db.listings free)
          t.distinct;
    valid =
        All-update (λ (r : ListingRow). IsListing r.payload) (has_internal_id canonical) set
          (λ r _ _. holds r) db.listings t.valid;
  }

  merge_conflict-IsSound : (canonical : String) → IsSound db (merge_conflict canonical l now db)
  merge_conflict-IsSound canonical =
      let owner = conflicting_id (find (has_athome_key l.athome_key) db.listings) canonical in
      elim (Bool-cases (any (url_clashes owner l.url) db.listings)) [
        | inl clash ↦ rw clash (raised-IsSound t)
        | inr free ↦ rw free (
            returned-IsSound (
              rewritten-IsTable owner (write_url l now) (url_clashes owner l.url)
                (write_url-Apart owner l now) (λ r. valid) free))
      ]

  update_existing-IsSound : (canonical : String) → IsSound db (update_existing canonical l now db)
  update_existing-IsSound canonical =
      let test = clashes canonical l.athome_key l.url in
      elim (Bool-cases (any test db.listings)) [
        | inl clash ↦ rw clash (merge_conflict-IsSound canonical)
        | inr free ↦ rw free (
            returned-IsSound (
              rewritten-IsTable canonical (write_row l now) test (write_row-Apart canonical l now)
                (λ r. valid) free))
      ]

  new_row-Differs :
      (rows : List ListingRow)
      → All
          (λ (r : ListingRow).
            (r.internal_id == l.internal_id || same_property l.athome_key l.url r) ≡ false)
          rows
      → All (λ r. RowDiffers r (new_row l now)) rows
  new_row-Differs [] frees = tt
  new_row-Differs (r ∷ rows) (free, frees) = (
    record {
      id = ne-of-eq_false r.internal_id l.internal_id (ground arith);
      key = ne-of-eq_false r.athome_key l.athome_key (ground arith);
      url = ne-of-eq_false r.url l.url (ground arith);
    },
    new_row-Differs rows frees,
  )

  insert_new-IsSound : IsSound db (insert_new l now db)
  insert_new-IsSound =
      let test =
        λ (r : ListingRow). r.internal_id == l.internal_id || same_property l.athome_key l.url r in
      elim (Bool-cases (any test db.listings)) [
        | inl clash ↦ rw clash (raised-IsSound t)
        | inr free ↦ rw free (
            returned-IsSound (record {
              distinct =
                  DistinctRows-snoc db.listings (new_row l now) t.distinct
                    (new_row-Differs db.listings (any-false test db.listings free));
              valid =
                  All-append (λ (r : ListingRow). IsListing r.payload) db.listings
                    (new_row l now ∷ []) t.valid (valid, tt);
            }))
      ]

store_listing-IsSound :
    (l : Listing) (now : ℕ) (db : Db)
    → IsListing l
    → IsTable db
    → IsSound db (store_listing (find (same_property l.athome_key l.url) db.listings) l now db)
unfolding deserialize_listing
store_listing-IsSound l now db valid t =
    elim (Option-cases (find (same_property l.athome_key l.url) db.listings)) [
      | inl absent ↦ rw absent (insert_new-IsSound l now db valid t)
      | inr (row, found) ↦
          let old =
            All-In (λ (r : ListingRow). IsListing r.payload) db.listings row t.valid
              (find-In (same_property l.athome_key l.url) db.listings row found) in
          let (merged, merges, good) = merge_listing-IsListing row.payload l old valid in
          rw (found, old, merges) (update_existing-IsSound merged now db good t row.internal_id)
    ]

pub with_agency-listings : (a : Option Agency) (db : Db) → (with_agency a db).listings ≡ db.listings
unfolding upsert_agency
with_agency-listings none db = refl
with_agency-listings (some a) db = refl

pub with_agency-IsTable : (a : Option Agency) (db : Db) → IsTable db → IsTable (with_agency a db)
unfolding upsert_agency
with_agency-IsTable none db t = t
with_agency-IsTable (some a) db t = record { distinct = t.distinct; valid = t.valid }

-- Storing a valid listing keeps the ids, the keys and the addresses of the table distinct and every
-- payload valid, on every branch. Nothing but an IntegrityError is raised, and then the tables are
-- those before the call, but for the listing's agency.
pub upsert_listing-IsSound :
    (l : Listing) (now : ℕ) (db : Db)
    → IsListing l
    → IsTable db
    → IsSound (with_agency l.agency db) (upsert_listing l now db)
unfolding upsert_listing
upsert_listing-IsSound l now db valid t =
    store_listing-IsSound l now (with_agency l.agency db) valid (with_agency-IsTable l.agency db t)
