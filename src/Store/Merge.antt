-- ===== src/Store/Merge.antt =====
-- store/sqlite_store.py: how a stored agency or listing takes in an update of itself.
pub mod Keeps
pub mod Valid
use athome_japan_agent_harne.Common.{
  ℕ, String, ◌==◌, Bool, true, false, not, ◌&&◌, Option, none, some, List, [], ◌∷◌, ltb,
  if◌then◌else◌, Result, ok, err,
}
use athome_japan_agent_harne.Common.Dict.{Dict, get, put}
use athome_japan_agent_harne.Models.{
  ListingCompleteness, summary_partial, summary_complete, detail_complete, is_detail_complete,
  Value, null, text, items, entries, scalar, Agency, DetailStatus, Listing, ValidationError,
  model_validate,
}

-- `None`, `""`, `[]` or `{}`
abbrev pub is_blank : Value → Bool
is_blank null = true
is_blank (text s) = s == ""
is_blank (items []) = true
is_blank (items (_ ∷ _)) = false
is_blank (entries []) = true
is_blank (entries (_ ∷ _)) = false
is_blank (scalar _) = false

abbrev pub merge_optional : Value → Value → Value
merge_optional existing incoming = if is_blank incoming then existing else incoming

-- `_merge_optional` at a text, and at a text or `None`.
abbrev pub merge_text : String → String → String
merge_text existing incoming = if incoming == "" then existing else incoming

abbrev pub merge_reason : Option String → Option String → Option String
merge_reason existing none = existing
merge_reason existing (some s) = if s == "" then existing else some s

-- `values.get(name)`
abbrev pub or_null : Option Value → Value
or_null none = null
or_null (some v) = v

-- The loop over `incoming.model_dump().items()`.
unfoldable pub merge_fields : Dict Value → Dict Value → Dict Value
merge_fields values [] = values
merge_fields values ((name, v) ∷ incoming) =
    merge_fields (put name (merge_optional (or_null (get name values)) v) values) incoming

unfoldable pub merge_agency : Option Agency → Agency → Agency
merge_agency none incoming = incoming
merge_agency (some existing) incoming = record {
  kaiin_no = merge_text existing.kaiin_no incoming.kaiin_no;
  fields = merge_fields existing.fields incoming.fields;
}

abbrev pub lifecycle_rank : ListingCompleteness → ℕ
lifecycle_rank summary_partial = 0
lifecycle_rank summary_complete = 1
lifecycle_rank detail_complete = 2

-- `max((a, b), key=…)`, which keeps the first of two equals
abbrev pub max_completeness : ListingCompleteness → ListingCompleteness → ListingCompleteness
max_completeness a b = if ltb (lifecycle_rank a) (lifecycle_rank b) then b else a

-- `a or b`
abbrev pub or_else {ℓ} : {A : Type ℓ} → Option A → Option A → Option A
or_else none b = b
or_else (some a) b = some a

-- The fields of `ListingDetail`, which are there if either listing is one.
abbrev pub merge_detail : Option DetailStatus → Option DetailStatus → Option DetailStatus
merge_detail existing none = existing
merge_detail none (some d) = some (record {
  listing_detail = d.listing_detail;
  failure_reason = merge_reason none d.failure_reason;
})
merge_detail (some e) (some d) = some (record {
  listing_detail = d.listing_detail;
  failure_reason = merge_reason e.failure_reason d.failure_reason;
})

-- `values` as `_merge_listing` hands it to `model_validate`.
unfoldable pub merged_values : Listing → Listing → Listing
merged_values existing incoming = record {
  internal_id = merge_text existing.internal_id incoming.internal_id;
  athome_key = merge_text existing.athome_key incoming.athome_key;
  url = merge_text existing.url incoming.url;
  completeness = max_completeness existing.completeness incoming.completeness;
  detail_fetched_at = or_else incoming.detail_fetched_at existing.detail_fetched_at;
  detail_fresh_until = or_else incoming.detail_fresh_until existing.detail_fresh_until;
  agency = or_else incoming.agency existing.agency;
  price = if is_detail_complete existing.completeness then existing.price else incoming.price;
  fields = merge_fields existing.fields incoming.fields;
  detail = merge_detail existing.detail incoming.detail;
}

unfoldable pub merge_listing : Listing → Listing → Result ValidationError Listing
merge_listing existing incoming =
    if is_detail_complete existing.completeness && not (is_detail_complete incoming.completeness)
    then ok existing
    else model_validate (merged_values existing incoming)
