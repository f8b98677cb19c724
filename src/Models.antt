-- ===== src/Models.antt =====
-- models.py: the listing, agency and hydration records that the layers hand to one another.
-- Instants are microseconds since an epoch, in UTC.
use athome_japan_agent_harne.Common.{
  ℕ, ◌+◌, String, Bool, true, false, Option, none, some, List, ltb, if◌then◌else◌, Result, ok, err,
  ◌>>◌,
}
use athome_japan_agent_harne.Common.Dict.{Dict}

pub data ListingCompleteness : Type 0 where
  summary_partial summary_complete detail_complete : ListingCompleteness

abbrev pub is_detail_complete : ListingCompleteness → Bool
is_detail_complete detail_complete = true
is_detail_complete _ = false

abbrev pub is_summary_partial : ListingCompleteness → Bool
is_summary_partial summary_partial = true
is_summary_partial _ = false

pub record PriceBreakdown : Type 0 where
  pub rent : ℕ
  pub management_fee : ℕ
  pub deposit : Option ℕ
  pub key_money : Option ℕ
  pub deposit_raw : Option String
  pub key_money_raw : Option String

-- `amount or 0`
abbrev or_zero : Option ℕ → ℕ
or_zero none = 0
or_zero (some n) = n

unfoldable pub total : PriceBreakdown → ℕ
total p = p.rent + p.management_fee + or_zero p.deposit + or_zero p.key_money

-- A dumped field value, as far as the store looks into it: `None`, a text, a list or a dict by the
-- JSON texts of their parts, and any other scalar by its JSON text.
pub data Value : Type 0 where
  null : Value
  text : String → Value
  items : List String → Value
  entries : List (String × String) → Value
  scalar : String → Value

pub record Agency : Type 0 where
  pub kaiin_no : String
  -- `kaiin_link_no` to `raw`, as `model_dump` names them
  pub fields : Dict Value

-- What a `ListingDetail` has and the store, the worker or the session reads. The other detail fields
-- stand among `fields` of the listing.
pub record DetailStatus : Type 0 where
  pub listing_detail : Bool
  pub failure_reason : Option String

-- A `ListingSummary`, or a `ListingDetail` where `detail` is there.
pub record Listing : Type 0 where
  pub internal_id : String
  pub athome_key : String
  pub url : String
  pub completeness : ListingCompleteness
  pub detail_fetched_at : Option ℕ
  pub detail_fresh_until : Option ℕ
  pub agency : Option Agency
  pub price : PriceBreakdown
  pub fields : Dict Value
  pub detail : Option DetailStatus

pub data ValidationError : Type 0 where
  incomplete_freshness fresh_before_fetched : ValidationError

abbrev pub validate_detail_freshness : Option ℕ → Option ℕ → Result ValidationError (Unit {0})
validate_detail_freshness none none = ok tt
validate_detail_freshness (some fetched_at) (some fresh_until) =
    if ltb fresh_until fetched_at then err fresh_before_fetched else ok tt
validate_detail_freshness _ _ = err incomplete_freshness

abbrev failure_free : Option String → Bool
failure_free none = true
failure_free (some _) = false

abbrev legacy_status : DetailStatus → Bool
legacy_status d = if d.listing_detail then false else failure_free d.failure_reason

abbrev pub infer_legacy_detail_completeness :
    Option DetailStatus → ListingCompleteness → ListingCompleteness
infer_legacy_detail_completeness (some d) summary_partial =
    if legacy_status d then detail_complete else summary_partial
infer_legacy_detail_completeness _ c = c

-- `ListingDetail.model_validate` and `ListingSummary.model_validate`: the two validators.
unfoldable pub model_validate : Listing → Result ValidationError Listing
model_validate l = do
  validate_detail_freshness l.detail_fetched_at l.detail_fresh_until
  ok (record l { completeness = infer_legacy_detail_completeness l.detail l.completeness })

pub data HydrationStatus : Type 0 where
  queued leased succeeded skipped failed cancelled : HydrationStatus

pub record HydrationIntent : Type 0 where
  pub athome_key : String
  pub internal_id : String
  pub url : String

pub record HydrationJob : Type 0 where
  pub job_id : ℕ
  pub athome_key : String
  pub url : String
  pub internal_id : String
  pub status : HydrationStatus
  pub attempts : ℕ
  pub max_attempts : ℕ
  pub created_at : ℕ
  pub updated_at : ℕ
  pub lease_token : Option String
  pub lease_until : Option ℕ
  pub last_error : Option String
  pub last_error_category : Option String
