-- ===== src/Cli/Details.antt =====
-- cli.py, `_scrape_details`. What a listing meets outside is an argument: the clocks' readings, what the
-- fetch does, and what the parsers make of the text. A reason names the exception; its message is left out.
pub mod Hydrated
pub mod Endings
pub mod Outcomes
mod Tests
use athome_japan_agent_harne.Common.{
  ℕ, suc, ◌+◌, ◌*◌, String, ◌==◌, Bool, true, false, not, ◌||◌, Option, none, some, List, [], ◌∷◌,
  is_some, if◌then◌else◌, Result, ok, err, ◌>>=◌,
}
use athome_japan_agent_harne.Common.Dict.{Dict, get, put}
use athome_japan_agent_harne.Models.{
  Agency, HydrationJob, Listing, ValidationError, Value, null, text, items, entries, scalar,
  detail_complete, summary_partial, model_validate,
}
use athome_japan_agent_harne.Store.Db.{Db, StoreError}
use athome_japan_agent_harne.Store.Queue.{Outcome, second, enqueue_hydration}
use athome_japan_agent_harne.Store.Merge.{or_else, or_null, is_blank}
use athome_japan_agent_harne.Store.Listings.{upsert_listing, get_fresh_detail}
use athome_japan_agent_harne.Scraping.Challenge.{detect_athome_challenge}
use athome_japan_agent_harne.Scraping.Cards.{Card, Intents, ingest_recommendation_cards}
use athome_japan_agent_harne.Scraping.Worker.{error_name}

pub record Visit : Type 0 where
  pub read_at : ℕ
  -- the value, or the class of the exception
  pub fetch : Result String String
  pub detail_parser : String → Result String Listing
  pub extract_agency : String → Result String (Option Agency)
  pub fetched_at : ℕ
  pub stored_at : ℕ
  pub extract_cards : String → Result String (List Card)

-- The field names of `_hydrate_detail` that stand among a listing's plain fields.
abbrev pub hydrated_names : List String
hydrated_names =
    "title" ∷ "address" ∷ "station" ∷ "walk_minutes" ∷ "building_type" ∷ "floors" ∷ "age"
    ∷ "floor_plan" ∷ "area_m2" ∷ "usp_tags" ∷ "probable_negatives" ∷ "photo_urls" ∷ "description"
    ∷ "floor_plan_image_url" ∷ "facility_features" ∷ "building_name" ∷ "building_structure"
    ∷ "total_units" ∷ "contract_period" ∷ "pickup_features" ∷ "remarks" ∷ "structured_detail"
    ∷ "source_data" ∷ "agency_reference" ∷ []

-- `None`, `""` or `[]`
abbrev pub is_unobserved : Value → Bool
is_unobserved null = true
is_unobserved (text s) = s == ""
is_unobserved (items []) = true
is_unobserved (items (_ ∷ _)) = false
is_unobserved (entries _) = false
is_unobserved (scalar _) = false

-- The loop of `_hydrate_detail`.
unfoldable pub hydrate_fields : List String → Dict Value → Dict Value → Dict Value
hydrate_fields [] observed values = values
hydrate_fields (name ∷ names) observed values =
    let v = or_null (get name observed) in
    hydrate_fields names observed (if is_unobserved v then values else put name v values)

abbrev pub validated : Result ValidationError Listing → Result String Listing
validated (ok l) = ok l
validated (err e) = err "ValidationError"

-- What the two calls of the model get.
abbrev pub hydrated_values : Listing → Listing → Listing
hydrated_values summary detail = record {
  internal_id = summary.internal_id;
  athome_key = summary.athome_key;
  url = summary.url;
  completeness = detail.completeness;
  detail_fetched_at = or_else detail.detail_fetched_at summary.detail_fetched_at;
  detail_fresh_until = or_else detail.detail_fresh_until summary.detail_fresh_until;
  agency = or_else detail.agency summary.agency;
  price = detail.price;
  fields = hydrate_fields hydrated_names detail.fields summary.fields;
  detail = some (record { listing_detail = true; failure_reason = none });
}

-- A detail that is fresh for fourteen days.
abbrev pub complete_values : Option Agency → ℕ → Listing → Listing
complete_values agency fetched_at l = record l {
  completeness = detail_complete;
  detail = some (record { listing_detail = true; failure_reason = none });
  detail_fetched_at = some fetched_at;
  detail_fresh_until = some (fetched_at + 14 * 86400 * second);
  agency = agency;
}

unfoldable pub hydrate_detail : Listing → Listing → Result String Listing
unfolding hydrate_fields
hydrate_detail summary detail = validated (model_validate (hydrated_values summary detail))

-- `ListingDetail.model_validate({**…, "completeness": …})`
unfoldable pub complete_detail : Option Agency → ℕ → Listing → Result String Listing
complete_detail agency fetched_at l =
    validated (model_validate (complete_values agency fetched_at l))

abbrev pub Scraped : Type 0
Scraped = Result String Listing × Db

-- `max_attempts` of `enqueue_hydration` by default
abbrev default_attempts : ℕ
default_attempts = 3

abbrev pub after_enqueue : (Db → Scraped) → Outcome (Option HydrationJob) → Scraped
after_enqueue rest (err e, db) = (err (error_name e), db)
after_enqueue rest (ok _, db) = rest db

-- `for intent in ingestion.hydration_intents`, then the hydrated detail
unfoldable pub enqueue_all : Intents → Listing → Db → Scraped
enqueue_all [] hydrated db = (ok hydrated, db)
enqueue_all ((intent, now) ∷ intents) hydrated db =
    after_enqueue (enqueue_all intents hydrated) (enqueue_hydration intent default_attempts now db)

abbrev pub after_ingest : Listing → Result StoreError Intents × Db → Scraped
after_ingest hydrated (err e, db) = (err (error_name e), db)
after_ingest hydrated (ok intents, db) = enqueue_all intents hydrated db

abbrev pub after_cards : Listing → Result String (List Card) → Db → Scraped
after_cards hydrated (err reason) db = (err reason, db)
after_cards hydrated (ok cards) db = after_ingest hydrated (ingest_recommendation_cards cards db)

abbrev pub after_upsert : Listing → Result String (List Card) → Outcome String → Scraped
after_upsert hydrated cards (err e, db) = (err (error_name e), db)
after_upsert hydrated cards (ok _, db) = after_cards hydrated cards db

-- From `upsert_listing` on.
abbrev pub store_hydrated : Visit → String → Result String Listing → Db → Scraped
store_hydrated v html (err reason) db = (err reason, db)
store_hydrated v html (ok hydrated) db =
    after_upsert hydrated (v.extract_cards html) (upsert_listing hydrated v.stored_at db)

abbrev pub after_agency :
    Visit → Listing → Listing → Result String (Option Agency) → Result String Listing
after_agency v summary parsed agency = do
  a ← agency
  hydrated ← hydrate_detail summary parsed
  complete_detail a v.fetched_at hydrated

-- `parsed.internal_id != summary.internal_id or not parsed.title`
abbrev pub misidentified : Listing → Listing → Bool
misidentified summary parsed =
    not (parsed.internal_id == summary.internal_id)
    || is_blank (or_null (get "title" parsed.fields))

abbrev pub after_parse : Visit → Listing → String → Listing → Db → Scraped
after_parse v summary html parsed db =
    if misidentified summary parsed
    then (err "ValueError", db)
    else store_hydrated v html (after_agency v summary parsed (v.extract_agency html)) db

abbrev pub read_parsed : Visit → Listing → String → Result String Listing → Db → Scraped
read_parsed v summary html (err reason) db = (err reason, db)
read_parsed v summary html (ok parsed) db = after_parse v summary html parsed db

abbrev pub read_html : Visit → Listing → Result String String → Db → Scraped
read_html v summary (err reason) db = (err reason, db)
read_html v summary (ok html) db =
    if is_some (detect_athome_challenge html)
    then (err "ValueError", db)
    else read_parsed v summary html (v.detail_parser html) db

-- The `try` block for one summary, given what `get_fresh_detail` answers.
abbrev pub after_cached : Visit → Listing → Result StoreError (Option Listing) → Db → Scraped
after_cached v summary (err e) db = (err (error_name e), db)
after_cached v summary (ok (some cached)) db = (hydrate_detail summary cached, db)
after_cached v summary (ok none) db = read_html v summary v.fetch db

unfoldable pub scrape_detail : Visit → Listing → Db → Scraped
unfolding enqueue_all hydrate_detail complete_detail
scrape_detail v summary db =
    after_cached v summary (get_fresh_detail db summary.athome_key v.read_at) db

-- The detail that stands in for a failed one.
abbrev pub fallback : Listing → String → Listing
fallback summary reason = record summary {
  completeness = summary_partial;
  detail = some (record { listing_detail = false; failure_reason = some reason });
}

abbrev pub Details : Type 0
Details = (List Listing × ℕ) × Db

abbrev pub add_detail : Listing → ℕ → Details → Details
add_detail detail failures ((details, failed), db) = ((detail ∷ details, failures + failed), db)

abbrev pub after_detail : Listing → (Db → Details) → Scraped → Details
after_detail summary rest (ok detail, db) = add_detail detail 0 (rest db)
after_detail summary rest (err reason, db) = add_detail (fallback summary reason) 1 (rest db)

-- `_scrape_details`, of the summaries with what each meets: the details, the number of failures, and
-- the tables afterwards
unfoldable pub scrape_details : List (Listing × Visit) → Db → Details
unfolding scrape_detail
scrape_details [] db = (([], 0), db)
scrape_details ((summary, v) ∷ summaries) db =
    after_detail summary (scrape_details summaries) (scrape_detail v summary db)
