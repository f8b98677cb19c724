-- ===== src/Store/Listings/Jobs.antt =====
-- What the listing operations of store/sqlite_store.py leave alone: the queue and the feedback.
use athome_japan_agent_harne.Common.{
  ℕ, String, ◌≡◌, refl, ◌∙◌, ◌||◌, ◌==◌, Option, none, some, inl, inr, Result, ok, err, Bool-cases,
  any, find,
}
use athome_japan_agent_harne.Models.{Agency, Listing, ValidationError}
use athome_japan_agent_harne.Store.Db.{Db, ListingRow, StoreError}
use athome_japan_agent_harne.Store.Queue.Invariant.{IsQueue}
use athome_japan_agent_harne.Store.Listings.{
  upsert_agency, upsert_listing, with_agency, store_listing, update_existing, merge_conflict,
  insert_new, clashes, url_clashes, same_property, conflicting_id, has_athome_key, store_update,
  store_merged, deserialize_listing,
}
use athome_japan_agent_harne.Store.Merge.{merge_listing}

-- The tables of the queue and of the feedback are the same in both.
pub record SameQueue (a b : Db) : Type 0 where
  pub jobs : b.jobs ≡ a.jobs
  pub next : b.next_job ≡ a.next_job
  pub feedback : b.feedback ≡ a.feedback

same_queue : {a : Db} → SameQueue a a
same_queue = record { jobs = refl; next = refl; feedback = refl }

merge_conflict-SameQueue :
    (canonical : String) (l : Listing) (now : ℕ) (db : Db)
    → SameQueue db (merge_conflict canonical l now db).1
merge_conflict-SameQueue canonical l now db =
    let owner = conflicting_id (find (has_athome_key l.athome_key) db.listings) canonical in
    elim (Bool-cases (any (url_clashes owner l.url) db.listings)) [
      | inl clash ↦ rw clash same_queue
      | inr free ↦ rw free (record { jobs = refl; next = refl; feedback = refl })
    ]

update_existing-SameQueue :
    (canonical : String) (l : Listing) (now : ℕ) (db : Db)
    → SameQueue db (update_existing canonical l now db).1
update_existing-SameQueue canonical l now db =
    elim (Bool-cases (any (clashes canonical l.athome_key l.url) db.listings)) [
      | inl clash ↦ rw clash (merge_conflict-SameQueue canonical l now db)
      | inr free ↦ rw free (record { jobs = refl; next = refl; feedback = refl })
    ]

insert_new-SameQueue : (l : Listing) (now : ℕ) (db : Db) → SameQueue db (insert_new l now db).1
insert_new-SameQueue l now db =
    elim (Bool-cases (
      any (λ (r : ListingRow). r.internal_id == l.internal_id || same_property l.athome_key l.url r)
        db.listings)) [
          | inl clash ↦ rw clash same_queue
          | inr free ↦ rw free (record { jobs = refl; next = refl; feedback = refl })
        ]

store_merged-SameQueue :
    (canonical : String) (r : Result ValidationError Listing) (now : ℕ) (db : Db)
    → SameQueue db (store_merged canonical r now db).1
store_merged-SameQueue canonical (err e) now db = same_queue
store_merged-SameQueue canonical (ok l) now db = update_existing-SameQueue canonical l now db

store_update-SameQueue :
    (canonical : String) (r : Result StoreError Listing) (l : Listing) (now : ℕ) (db : Db)
    → SameQueue db (store_update canonical r l now db).1
store_update-SameQueue canonical (err e) l now db = same_queue
store_update-SameQueue canonical (ok previous) l now db =
    store_merged-SameQueue canonical (merge_listing previous l) now db

store_listing-SameQueue :
    (o : Option ListingRow) (l : Listing) (now : ℕ) (db : Db)
    → SameQueue db (store_listing o l now db).1
store_listing-SameQueue none l now db = insert_new-SameQueue l now db
store_listing-SameQueue (some row) l now db =
    store_update-SameQueue row.internal_id (deserialize_listing row.payload) l now db

with_agency-SameQueue : (a : Option Agency) (db : Db) → SameQueue db (with_agency a db)
unfolding upsert_agency
with_agency-SameQueue none db = same_queue
with_agency-SameQueue (some a) db = record { jobs = refl; next = refl; feedback = refl }

pub upsert_listing-SameQueue :
    (l : Listing) (now : ℕ) (db : Db) → SameQueue db (upsert_listing l now db).1
unfolding upsert_listing
upsert_listing-SameQueue l now db =
    let before = with_agency-SameQueue l.agency db in
    let mid = with_agency l.agency db in
    let stored =
      store_listing-SameQueue (find (same_property l.athome_key l.url) mid.listings) l now mid in
    record {
      jobs = stored.jobs ∙ before.jobs;
      next = stored.next ∙ before.next;
      feedback = stored.feedback ∙ before.feedback;
    }

pub SameQueue-IsQueue : {a b : Db} → SameQueue a b → IsQueue a → IsQueue b
SameQueue-IsQueue s q = record {
  distinct = rw s.jobs q.distinct;
  well_formed = rw (s.jobs, s.next) q.well_formed;
}
