-- ===== src/Store/Listings.antt =====
-- store/sqlite_store.py, listings and agencies. Each operation runs against the tables and the clock's
-- reading; a raised exception comes back beside the tables as they are then.
pub mod Rows
pub mod Unique
pub mod Conflict
pub mod Jobs
pub mod Read
mod Tests
use athome_japan_agent_harne.Common.{
  ℕ, String, ◌==◌, Bool, true, false, not, ◌&&◌, ◌||◌, Option, none, some, List, [], ◌∷◌, ◌++◌, map,
  leb, if◌then◌else◌, is_some, Result, ok, err, find, any, update,
}
use athome_japan_agent_harne.Common.Dict.{Dict, get, put}
use athome_japan_agent_harne.Models.{
  ListingCompleteness, is_detail_complete, Agency, Listing, ValidationError, model_validate,
}
use athome_japan_agent_harne.Store.Db.{
  Db, ListingRow, StoreError, integrity_error, validation_error,
}
use athome_japan_agent_harne.Store.Queue.{Outcome, still_fresh}
use athome_japan_agent_harne.Store.Merge.{merge_agency, merge_listing}

unfoldable pub get_agency : Db → String → Option Agency
get_agency db kaiin_no = get kaiin_no db.agencies

-- `INSERT … ON CONFLICT (kaiin_no) DO UPDATE`
unfoldable pub upsert_agency : Agency → Db → String × Db
unfolding get_agency
upsert_agency agency db =
    let merged = merge_agency (get_agency db agency.kaiin_no) agency in
    (merged.kaiin_no, record db { agencies = put merged.kaiin_no merged db.agencies })

abbrev validated : Result ValidationError Listing → Result StoreError Listing
validated (ok l) = ok l
validated (err e) = err validation_error

-- `_deserialize_listing`: the payload holds a listing's fields, which are validated again.
unfoldable pub deserialize_listing : Listing → Result StoreError Listing
deserialize_listing payload = validated (model_validate payload)

abbrev kaiin_of : Option Agency → Option String
kaiin_of none = none
kaiin_of (some a) = some a.kaiin_no

-- The columns that both UPDATEs of `upsert_listing` write, beside the identities.
abbrev pub write_columns : Listing → ℕ → ListingRow → ListingRow
write_columns l now r = record r {
  payload = l;
  completeness = l.completeness;
  detail_fetched_at = l.detail_fetched_at;
  detail_fresh_until = l.detail_fresh_until;
  agency_kaiin_no = kaiin_of l.agency;
  updated_at = now;
}

abbrev pub write_row : Listing → ℕ → ListingRow → ListingRow
write_row l now r = record (write_columns l now r) { athome_key = l.athome_key; url = l.url }

-- The second UPDATE leaves `athome_key` alone.
abbrev pub write_url : Listing → ℕ → ListingRow → ListingRow
write_url l now r = record (write_columns l now r) { url = l.url }

abbrev pub new_row : Listing → ℕ → ListingRow
new_row l now = record {
  internal_id = l.internal_id;
  athome_key = l.athome_key;
  url = l.url;
  payload = l;
  completeness = l.completeness;
  detail_fetched_at = l.detail_fetched_at;
  detail_fresh_until = l.detail_fresh_until;
  agency_kaiin_no = kaiin_of l.agency;
  created_at = now;
  updated_at = now;
}

abbrev pub has_internal_id : String → ListingRow → Bool
has_internal_id i r = r.internal_id == i

abbrev pub has_athome_key : String → ListingRow → Bool
has_athome_key k r = r.athome_key == k

abbrev pub has_url : String → ListingRow → Bool
has_url u r = r.url == u

abbrev pub same_property : String → String → ListingRow → Bool
same_property key url r = r.athome_key == key || r.url == url

-- Some other row holds the key or the address that `canonical` is to take.
abbrev pub clashes : String → String → String → ListingRow → Bool
clashes canonical key url r = not (r.internal_id == canonical) && same_property key url r

abbrev pub url_clashes : String → String → ListingRow → Bool
url_clashes canonical url r = not (r.internal_id == canonical) && (r.url == url)

-- `WHERE internal_id = ?`, with the UNIQUE constraints checked.
abbrev update_row : (ListingRow → Bool) → String → (ListingRow → ListingRow) → Db → Outcome String
update_row clash canonical set db =
    if any clash db.listings
    then (err integrity_error, db)
    else (ok canonical, record db { listings = update (has_internal_id canonical) set db.listings })

abbrev conflicting_id : Option ListingRow → String → String
conflicting_id none canonical = canonical
conflicting_id (some r) canonical = r.internal_id

-- The `except sqlite3.IntegrityError` branch of `upsert_listing`.
abbrev merge_conflict : String → Listing → ℕ → Db → Outcome String
merge_conflict canonical l now db =
    let owner = conflicting_id (find (has_athome_key l.athome_key) db.listings) canonical in
    update_row (url_clashes owner l.url) owner (write_url l now) db

abbrev update_existing : String → Listing → ℕ → Db → Outcome String
update_existing canonical l now db =
    if any (clashes canonical l.athome_key l.url) db.listings
    then merge_conflict canonical l now db
    else update_row (clashes canonical l.athome_key l.url) canonical (write_row l now) db

abbrev store_merged : String → Result ValidationError Listing → ℕ → Db → Outcome String
store_merged canonical (err e) now db = (err validation_error, db)
store_merged canonical (ok l) now db = update_existing canonical l now db

abbrev store_update : String → Result StoreError Listing → Listing → ℕ → Db → Outcome String
store_update canonical (err e) l now db = (err e, db)
store_update canonical (ok previous) l now db =
    store_merged canonical (merge_listing previous l) now db

abbrev insert_new : Listing → ℕ → Db → Outcome String
insert_new l now db =
    if any
      (λ (r : ListingRow). r.internal_id == l.internal_id || same_property l.athome_key l.url r)
      db.listings
    then (err integrity_error, db)
    else (ok l.internal_id, record db { listings = db.listings ++ new_row l now ∷ [] })

abbrev store_listing : Option ListingRow → Listing → ℕ → Db → Outcome String
store_listing none l now db = insert_new l now db
store_listing (some row) l now db =
    store_update row.internal_id (deserialize_listing row.payload) l now db

-- `if listing.agency is not None: self.upsert_agency(listing.agency)`
abbrev with_agency : Option Agency → Db → Db
with_agency none db = db
with_agency (some a) db = (upsert_agency a db).1

-- The SELECT names no order: the model takes the first row of the table that fits.
unfoldable pub upsert_listing : Listing → ℕ → Db → Outcome String
unfolding upsert_agency deserialize_listing
upsert_listing l now db =
    let db' = with_agency l.agency db in
    store_listing (find (same_property l.athome_key l.url) db'.listings) l now db'

-- `_listing_from_row`
abbrev pub hydrate_agency : Option Agency → Listing → Listing
hydrate_agency none l = l
hydrate_agency (some a) l = record l { agency = some a }

abbrev pub row_agency : Db → Option String → Option Agency
row_agency db none = none
row_agency db (some kaiin_no) = get_agency db kaiin_no

abbrev with_row_agency : Option Agency → Result StoreError Listing → Result StoreError Listing
with_row_agency a (err e) = err e
with_row_agency a (ok l) = ok (hydrate_agency a l)

unfoldable pub listing_from_row : Db → ListingRow → Result StoreError Listing
unfolding deserialize_listing get_agency
listing_from_row db row =
    with_row_agency (row_agency db row.agency_kaiin_no) (deserialize_listing row.payload)

abbrev found_listing : Result StoreError Listing → Result StoreError (Option Listing)
found_listing (ok l) = ok (some l)
found_listing (err e) = err e

abbrev read_row : Db → Option ListingRow → Result StoreError (Option Listing)
read_row db none = ok none
read_row db (some row) = found_listing (listing_from_row db row)

unfoldable pub get_listing : Db → String → Result StoreError (Option Listing)
unfolding listing_from_row
get_listing db internal_id = read_row db (find (has_internal_id internal_id) db.listings)

-- The two last tests of `get_fresh_detail`.
abbrev complete_detail : Result StoreError Listing → Result StoreError (Option Listing)
complete_detail (err e) = err e
complete_detail (ok l) =
    ok (if is_some l.detail && is_detail_complete l.completeness then some l else none)

abbrev fresh_row : Db → Option ListingRow → ℕ → Result StoreError (Option Listing)
fresh_row db none now = ok none
fresh_row db (some row) now =
    if is_detail_complete row.completeness && still_fresh row.detail_fresh_until now
    then complete_detail (listing_from_row db row)
    else ok none

-- `now` is timezone-aware, so the `ValueError` of a naive one does not arise.
unfoldable pub get_fresh_detail : Db → String → ℕ → Result StoreError (Option Listing)
unfolding listing_from_row
get_fresh_detail db athome_key now = fresh_row db (find (has_athome_key athome_key) db.listings) now

-- `self.get_agency(kaiin_no) if kaiin_no else None`
abbrev linked_agency : Db → Option String → Option Agency
linked_agency db none = none
linked_agency db (some kaiin_no) = if kaiin_no == "" then none else get_agency db kaiin_no

abbrev link_row : Result StoreError Listing → String → Option String → ℕ → Db → Outcome (Unit {0})
link_row (err e) internal_id kaiin_no now db = (err e, db)
link_row (ok l) internal_id kaiin_no now db = (
  ok tt,
  record db {
    listings =
        update (has_internal_id internal_id)
          (λ (r : ListingRow). record r {
            payload = record l { agency = linked_agency db kaiin_no };
            agency_kaiin_no = kaiin_no;
            updated_at = now;
          })
          db.listings;
  },
)

abbrev link_found : Option ListingRow → String → Option String → ℕ → Db → Outcome (Unit {0})
link_found none internal_id kaiin_no now db = (ok tt, db)
link_found (some row) internal_id kaiin_no now db =
    link_row (deserialize_listing row.payload) internal_id kaiin_no now db

unfoldable pub link_listing_agency : String → Option String → ℕ → Db → Outcome (Unit {0})
unfolding deserialize_listing get_agency
link_listing_agency internal_id kaiin_no now db =
    link_found (find (has_internal_id internal_id) db.listings) internal_id kaiin_no now db

unfoldable pub seen_internal_ids : Db → List String
seen_internal_ids db = map (λ (r : ListingRow). r.internal_id) db.listings
