-- ===== src/Store/Db.antt =====
-- The tables of store/sqlite_store.py, one field each, and the exceptions of its operations. A table
-- is the list of its rows in the order of their insertion.
use athome_japan_agent_harne.Common.{ℕ, String, Option, List}
use athome_japan_agent_harne.Common.Dict.{Dict}
use athome_japan_agent_harne.Models.{Listing, ListingCompleteness, Agency, HydrationJob}

pub record ListingRow : Type 0 where
  pub internal_id : String
  pub athome_key : String
  pub url : String
  -- The JSON text of a listing is read back as that listing.
  pub payload : Listing
  pub completeness : ListingCompleteness
  pub detail_fetched_at : Option ℕ
  pub detail_fresh_until : Option ℕ
  pub agency_kaiin_no : Option String
  pub created_at : ℕ
  pub updated_at : ℕ

pub data StoreError : Type 0 where
  -- `ValueError`, `KeyError`, `AssertionError`, `sqlite3.IntegrityError`, `pydantic.ValidationError`
  value_error key_error assertion_error integrity_error validation_error : StoreError

pub record Db : Type 0 where
  pub listings : List ListingRow
  pub agencies : Dict Agency
  pub feedback : Dict String
  pub jobs : List HydrationJob
  -- the next value of the table's AUTOINCREMENT column
  pub next_job : ℕ
