-- ===== src/Store/Merge/Valid.antt =====
-- `_merge_listing` of store/sqlite_store.py on listings that pass their validators.
use athome_japan_agent_harne.Common.{
  ℕ, ◌≡◌, refl, not, ◌&&◌, Option, none, some, inl, inr, arith, ok, Bool-cases, bind-eq-ok,
}
use athome_japan_agent_harne.Models.{
  ListingCompleteness, is_detail_complete, DetailStatus, Listing, model_validate,
  infer_legacy_detail_completeness, validate_detail_freshness,
}
use athome_japan_agent_harne.Store.Merge.{merged_values, merge_listing, or_else}
use athome_japan_agent_harne.Store.Merge.Keeps.{inferred}

-- The listing passes its validators as it is.
abbrev pub IsListing : Listing → Type 0
IsListing l = model_validate l ≡ ok l

-- The timestamps of a valid listing come as a pair, so the merged ones are those of one listing.
fresh_or_else :
    (f u f' u' : Option ℕ)
    → validate_detail_freshness f u ≡ ok tt
    → validate_detail_freshness f' u' ≡ ok tt
    → validate_detail_freshness (or_else f' f) (or_else u' u) ≡ ok tt
fresh_or_else f u none none h g = h
fresh_or_else f u (some a) (some b) h g = g
fresh_or_else f u none (some b) h g = cc
fresh_or_else f u (some a) none h g = cc

pub IsListing-fresh :
    (l : Listing)
    → IsListing l
    → validate_detail_freshness l.detail_fetched_at l.detail_fresh_until ≡ ok tt
unfolding model_validate
IsListing-fresh l h =
    let (_, e, _) =
      bind-eq-ok (validate_detail_freshness l.detail_fetched_at l.detail_fresh_until)
        (λ _.
          ok (record l { completeness = infer_legacy_detail_completeness l.detail l.completeness }))
        h in
    e

infer_idem :
    (d : Option DetailStatus) (c : ListingCompleteness)
    → infer_legacy_detail_completeness d (infer_legacy_detail_completeness d c)
      ≡ infer_legacy_detail_completeness d c
infer_idem d c = ground arith

model_validate-fresh :
    (l : Listing)
    → validate_detail_freshness l.detail_fetched_at l.detail_fresh_until ≡ ok tt
    → (model_validate l ≡ ok (inferred l)) × IsListing (inferred l)
unfolding model_validate
model_validate-fresh l fresh = (rw fresh refl, rw (fresh, infer_idem l.detail l.completeness) refl)

-- Two valid listings merge without a `ValidationError`, and the result is valid again.
pub merge_listing-IsListing :
    (existing incoming : Listing)
    → IsListing existing
    → IsListing incoming
    → (merged : Listing) × (merge_listing existing incoming ≡ ok merged) × IsListing merged
unfolding merge_listing merged_values
merge_listing-IsListing existing incoming ve vi =
    elim (Bool-cases (
      is_detail_complete existing.completeness && not (is_detail_complete incoming.completeness))) [
        | inl kept ↦ (existing, rw kept refl, ve)
        | inr goes_on ↦
            let fresh =
              fresh_or_else existing.detail_fetched_at existing.detail_fresh_until
                incoming.detail_fetched_at incoming.detail_fresh_until (IsListing-fresh existing ve)
                (IsListing-fresh incoming vi) in
            let (validated, again) = model_validate-fresh (merged_values existing incoming) fresh in
            (inferred (merged_values existing incoming), rw goes_on validated, again)
      ]
