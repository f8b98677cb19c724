-- ===== src/Store/Listings/Tests.antt =====
-- Runs of `_merge_listing` and `upsert_listing` of store/sqlite_store.py on a table of two rows.
use athome_japan_agent_harne.Common.{
  String, ◌≡◌, refl, none, some, [], ◌∷◌, inl, inr, ok, err, ne-of-eq_false,
}
use athome_japan_agent_harne.Models.{
  Listing, ListingCompleteness, summary_partial, summary_complete, text, null, model_validate,
}
use athome_japan_agent_harne.Store.Db.{Db, ListingRow, integrity_error}
use athome_japan_agent_harne.Store.Merge.{merge_listing, merged_values, merge_fields}
use athome_japan_agent_harne.Store.Merge.Valid.{IsListing, merge_listing-IsListing}
use athome_japan_agent_harne.Store.Listings.{
  new_row, upsert_listing, with_agency, deserialize_listing,
}
use athome_japan_agent_harne.Store.Listings.Unique.{IsTable, IsSound, upsert_listing-IsSound}
use athome_japan_agent_harne.Store.Listings.Read.{Reads, upsert_listing-Reads}
use athome_japan_agent_harne.Store.Listings.Conflict.{upsert_listing-conflict}

abbrev listing : String → String → String → ListingCompleteness → Listing
listing id key url completeness = record {
  internal_id = id;
  athome_key = key;
  url = url;
  completeness = completeness;
  detail_fetched_at = none;
  detail_fresh_until = none;
  agency = none;
  price = record {
    rent = 80000;
    management_fee = 5000;
    deposit = none;
    key_money = some 80000;
    deposit_raw = none;
    key_money_raw = none;
  };
  fields = ("title", text "Koenji") ∷ [];
  detail = none;
}

abbrev stored_a : Listing
stored_a = listing "a" "key-a" "url-a" summary_complete

abbrev stored_b : Listing
stored_b = listing "b" "key-b" "url-b" summary_complete

-- The key of the one and the address of the other.
abbrev mixed : Listing
mixed = record (listing "c" "key-a" "url-b" summary_partial) { fields = ("title", null) ∷ [] }

abbrev merged : Listing
merged = record (listing "c" "key-a" "url-b" summary_complete) {
  fields = ("title", text "Koenji") ∷ [];
}

abbrev row_a : ListingRow
row_a = new_row stored_a 5

abbrev row_b : ListingRow
row_b = new_row stored_b 6

abbrev table : Db
table = record {
  listings = row_a ∷ row_b ∷ [];
  agencies = [];
  feedback = [];
  jobs = [];
  next_job = 0;
}

stored_a-IsListing : IsListing stored_a
unfolding model_validate
stored_a-IsListing = refl

stored_b-IsListing : IsListing stored_b
unfolding model_validate
stored_b-IsListing = refl

mixed-IsListing : IsListing mixed
unfolding model_validate
mixed-IsListing = refl

table-IsTable : IsTable table
table-IsTable = record {
  distinct = (
    (
      record {
        id = ne-of-eq_false row_a.internal_id row_b.internal_id refl;
        key = ne-of-eq_false row_a.athome_key row_b.athome_key refl;
        url = ne-of-eq_false row_a.url row_b.url refl;
      },
      tt,
    ),
    (tt, tt),
  );
  valid = (stored_a-IsListing, (stored_b-IsListing, tt));
}

merge_listing-IsListing_example :
    (m : Listing) × (merge_listing stored_a mixed ≡ ok m) × IsListing m
merge_listing-IsListing_example =
    merge_listing-IsListing stored_a mixed stored_a-IsListing mixed-IsListing

upsert_listing-IsSound_example :
    IsSound (with_agency stored_a.agency table) (upsert_listing stored_a 7 table)
upsert_listing-IsSound_example =
    upsert_listing-IsSound stored_a 7 table stored_a-IsListing table-IsTable

upsert_listing-conflict_example :
    upsert_listing mixed 7 table ≡ (err integrity_error, with_agency mixed.agency table)
upsert_listing-conflict_example =
    upsert_listing-conflict mixed 7 table row_a row_b mixed-IsListing table-IsTable (inl refl)
      (inr (inl refl)) refl refl (ne-of-eq_false row_a.internal_id row_b.internal_id refl)
      (ne-of-eq_false mixed.athome_key "" refl) (ne-of-eq_false mixed.url "" refl) refl refl

-- The first row's listing under another id: the row keeps its id, the payload takes the new one.
abbrev renamed : Listing
renamed = listing "c" "key-a" "url-a" summary_complete

renamed-IsListing : IsListing renamed
unfolding model_validate
renamed-IsListing = refl

stores_renamed : upsert_listing renamed 7 table ≡ (ok "a", (upsert_listing renamed 7 table).1)
unfolding upsert_listing deserialize_listing merge_listing merged_values merge_fields model_validate
stores_renamed = refl

upsert_listing-Reads_example : Reads renamed (upsert_listing renamed 7 table).1 "a"
upsert_listing-Reads_example =
    upsert_listing-Reads renamed 7 table (upsert_listing renamed 7 table).1 "a" renamed-IsListing
      table-IsTable (ne-of-eq_false renamed.internal_id "" refl)
      (ne-of-eq_false renamed.athome_key "" refl) (ne-of-eq_false renamed.url "" refl)
      (refl, (refl, tt)) stores_renamed
