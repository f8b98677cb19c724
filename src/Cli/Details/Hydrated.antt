-- ===== src/Cli/Details/Hydrated.antt =====
-- A detail that `_scrape_details` of cli.py hydrates belongs to its summary, and why one is not.
use athome_japan_agent_harne.Common.{
  ◌≡◌, refl, String, ◌==◌, true, false, not, ◌&&◌, inl, inr, Option, none, some, List, [], ◌∷◌, ◌⊎◌,
  arith, any, is_some, if◌then◌else◌, Result, ok, err, Bool-cases, bind-eq-ok, eq_iff,
}
use athome_japan_agent_harne.Common.Dict.{Dict, get, put, get-put}
use athome_japan_agent_harne.Models.{
  DetailStatus, Listing, ValidationError, Value, model_validate, validate_detail_freshness,
  infer_legacy_detail_completeness,
}
use athome_japan_agent_harne.Store.Db.{Db, StoreError}
use athome_japan_agent_harne.Store.Merge.{or_null}
use athome_japan_agent_harne.Store.Listings.{get_fresh_detail}
use athome_japan_agent_harne.Scraping.Challenge.{detect_athome_challenge}
use athome_japan_agent_harne.Scraping.Worker.{error_name}
use athome_japan_agent_harne.Cli.Details.{
  hydrated_names, Visit, is_unobserved, hydrate_fields, hydrate_detail, hydrated_values, validated,
  misidentified,
}

-- The value of a field after hydration: the observed one, if the field is named and was observed.
pub hydrate_fields-get :
    (names : List String) (observed values : Dict Value) (k : String)
    → get k (hydrate_fields names observed values) ≡ (
        if any (λ n. n == k) names && not (is_unobserved (or_null (get k observed)))
        then some (or_null (get k observed))
        else get k values)
unfolding hydrate_fields
hydrate_fields-get [] observed values k = refl
hydrate_fields-get (n ∷ names) observed values k =
    let v = or_null (get n observed) in
    let rest =
      hydrate_fields-get names observed (if is_unobserved v then values else put n v values) k in
    elim (Bool-cases (is_unobserved v)) [
      | inl e ↦ elim (Bool-cases (n == k)) [
        | inl s ↦
            let same : n ≡ k = ground (arith, eq_iff n k) in
            let blank : is_unobserved (or_null (get k observed)) ≡ true = rw same at e in
            ground arith
        | inr s ↦ ground arith
      ]
      | inr e ↦ elim (Bool-cases (n == k)) [
        | inl s ↦
            let same : n ≡ k = ground (arith, eq_iff n k) in
            let kept : is_unobserved (or_null (get k observed)) ≡ false = rw same at e in
            let value : v ≡ or_null (get k observed) = rw same refl in
            let written = get-put k n v values in ground arith
        | inr s ↦ let written = get-put k n v values in ground arith
      ]
    ]

abbrev pub hydrated : DetailStatus
hydrated = record { listing_detail = true; failure_reason = none }

-- The validators change the completeness only.
pub model_validate-same :
    (l d : Listing) → model_validate l ≡ ok d → d ≡ record l { completeness = d.completeness }
unfolding model_validate
model_validate-same l d h =
    let (_, _, e) =
      bind-eq-ok (validate_detail_freshness l.detail_fetched_at l.detail_fresh_until)
        (λ _.
          ok (record l { completeness = infer_legacy_detail_completeness l.detail l.completeness }))
        h in
    let same : record l { completeness = infer_legacy_detail_completeness l.detail l.completeness }
        ≡ d =
      cc in
    rw (← same) refl

-- The value of a field that takes in what was observed: that, if the field is one of a detail's and was
-- observed, and else what the summary has.
abbrev pub taken_in : Dict Value → Dict Value → String → Option Value
taken_in summary observed k =
    if any (λ n. n == k) hydrated_names && not (is_unobserved (or_null (get k observed)))
    then some (or_null (get k observed))
    else get k summary

-- The summary with what a detail observed.
pub record IsMerge (summary source d : Listing) : Type 0 where
  pub same_id : d.internal_id ≡ summary.internal_id
  pub same_key : d.athome_key ≡ summary.athome_key
  pub same_url : d.url ≡ summary.url
  pub status : d.detail ≡ some hydrated
  pub price : d.price ≡ source.price
  pub fields : (k : String) → get k d.fields ≡ taken_in summary.fields source.fields k

-- A page that is refused: a challenge, or the detail of another listing or of none.
abbrev pub IsRefused : Visit → Listing → String → Type 0
IsRefused v summary html =
    (is_some (detect_athome_challenge html) ≡ true)
    ⊎ ((parsed : Listing) × (v.detail_parser html ≡ ok parsed)
        × (misidentified summary parsed ≡ true))

-- What a reason names: the class of what the fetch, a parser or the store raised, or of what is raised at
-- a page that is refused and at values that are not valid.
pub data Cause (v : Visit) (summary : Listing) (reason : String) : Type 0 where
  not_fetched : v.fetch ≡ err reason → Cause v summary reason
  page_refused :
      (html : String)
      → v.fetch ≡ ok html
      → IsRefused v summary html
      → reason ≡ "ValueError"
      → Cause v summary reason
  not_parsed :
      (html : String)
      → v.fetch ≡ ok html
      → v.detail_parser html ≡ err reason
      → Cause v summary reason
  no_agency :
      (html : String)
      → v.fetch ≡ ok html
      → v.extract_agency html ≡ err reason
      → Cause v summary reason
  no_cards :
      (html : String)
      → v.fetch ≡ ok html
      → v.extract_cards html ≡ err reason
      → Cause v summary reason
  not_valid : reason ≡ "ValidationError" → Cause v summary reason
  not_stored : (e : StoreError) → reason ≡ error_name e → Cause v summary reason

-- Where a detail is from: the store's fresh one, or the page that was fetched and parsed.
abbrev pub Origin : Visit → Listing → Db → Listing → Listing → Type 0
Origin v summary db source d =
    (get_fresh_detail db summary.athome_key v.read_at ≡ ok (some source))
    ⊎ ((html : String) × (v.fetch ≡ ok html)
        × (is_some (detect_athome_challenge html) ≡ false)
        × (v.detail_parser html ≡ ok source)
        × (misidentified summary source ≡ false)
        × (v.extract_agency html ≡ ok d.agency)
        × (d.detail_fetched_at ≡ some v.fetched_at))

pub record IsHydrated (v : Visit) (summary : Listing) (db : Db) (d : Listing) : Type 0 where
  pub source : Listing
  pub merged : IsMerge summary source d
  pub origin : Origin v summary db source d

-- How the scraping of one summary ends.
abbrev pub Ends : Visit → Listing → Db → Result String Listing → Type 0
Ends v summary db (ok d) = IsHydrated v summary db d
Ends v summary db (err reason) = Cause v summary reason

abbrev pub Merges : Listing → Listing → Result String Listing → Type 0
Merges summary source (ok l) = IsMerge summary source l
Merges summary source (err reason) = reason ≡ "ValidationError"

validated-Merges :
    (summary source l : Listing) (r : Result ValidationError Listing)
    → model_validate l ≡ r
    → IsMerge summary source l
    → Merges summary source (validated r)
validated-Merges summary source l (err e) h w = refl
validated-Merges summary source l (ok n) h w =
    let same = model_validate-same l n h in
    rw same (record {
      same_id = w.same_id;
      same_key = w.same_key;
      same_url = w.same_url;
      status = w.status;
      price = w.price;
      fields = w.fields;
    })

pub hydrate_detail-Merges :
    (summary source : Listing) → Merges summary source (hydrate_detail summary source)
unfolding hydrate_detail
hydrate_detail-Merges summary source =
    let values = hydrated_values summary source in
    validated-Merges summary source values (model_validate values) refl (record {
      same_id = refl;
      same_key = refl;
      same_url = refl;
      status = refl;
      price = refl;
      fields = hydrate_fields-get hydrated_names source.fields summary.fields;
    })
