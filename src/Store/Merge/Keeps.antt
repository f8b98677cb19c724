-- ===== src/Store/Merge/Keeps.antt =====
-- What `_merge_listing` of store/sqlite_store.py keeps of the stored listing.
use athome_japan_agent_harne.Common.{
  String, ◌≡◌, Bool, true, false, not, ◌&&◌, Option, none, some, inl, inr, ◌==◌, is_some, arith,
  Result, ok, Bool-cases, bind-eq-ok, ◌⊎◌,
}
use athome_japan_agent_harne.Common.Dict.{Dict, get}
use athome_japan_agent_harne.Models.{
  is_detail_complete, Value, Listing, model_validate, infer_legacy_detail_completeness,
  validate_detail_freshness,
}
use athome_japan_agent_harne.Store.Merge.{is_blank, merged_values, merge_listing}

-- The field is there and holds something.
abbrev pub has_content : Option Value → Bool
has_content none = false
has_content (some v) = not (is_blank v)

-- Validation changes the lifecycle alone.
abbrev pub inferred : Listing → Listing
inferred l = record l { completeness = infer_legacy_detail_completeness l.detail l.completeness }

pub model_validate-eq-ok : (l m : Listing) → model_validate l ≡ ok m → m ≡ inferred l
unfolding model_validate
model_validate-eq-ok l m h =
    let (_, _, e) =
      bind-eq-ok (validate_detail_freshness l.detail_fetched_at l.detail_fresh_until)
        (λ _. ok (inferred l)) h in
    cc

-- A merge either keeps the stored listing or validates the merged values.
pub merge_listing-cases :
    (existing incoming merged : Listing)
    → merge_listing existing incoming ≡ ok merged
    → ((merged ≡ existing)
        × (is_detail_complete existing.completeness ≡ true)
        × (is_detail_complete incoming.completeness ≡ false))
      ⊎ (merged ≡ inferred (merged_values existing incoming))
unfolding merge_listing
merge_listing-cases existing incoming merged h =
    elim (Bool-cases (
      is_detail_complete existing.completeness && not (is_detail_complete incoming.completeness))) [
        | inl kept ↦
            let same : Result.ok existing ≡ ok merged = rw kept at h in
            inl (cc, ground arith, ground arith)
        | inr goes_on ↦
            inr (model_validate-eq-ok (merged_values existing incoming) merged (rw goes_on at h))
      ]

-- What the one listing has, the other has too.
pub record KeepsContent (existing merged : Listing) : Type 0 where
  pub internal_id : (existing.internal_id == "") ≡ false → (merged.internal_id == "") ≡ false
  pub athome_key : (existing.athome_key == "") ≡ false → (merged.athome_key == "") ≡ false
  pub url : (existing.url == "") ≡ false → (merged.url == "") ≡ false
  pub fields :
      (name : String)
      → has_content (get name existing.fields) ≡ true
      → has_content (get name merged.fields) ≡ true
  pub agency : is_some existing.agency ≡ true → is_some merged.agency ≡ true
  pub detail_fetched_at :
      is_some existing.detail_fetched_at ≡ true → is_some merged.detail_fetched_at ≡ true
  pub detail_fresh_until :
      is_some existing.detail_fresh_until ≡ true → is_some merged.detail_fresh_until ≡ true
  pub detail : is_some existing.detail ≡ true → is_some merged.detail ≡ true
