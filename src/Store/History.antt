-- ===== src/Store/History.antt =====
-- store/sqlite_store.py: the searches, the recommendations and the cache. A text that is written as JSON is
-- read back as the JSON value it was written from; Python's conversions of such a value are an argument.
pub mod Refines
mod Tests
use athome_japan_agent_harne.Common.{
  ℕ, zero, suc, ◌+◌, String, ◌==◌, Bool, true, false, if◌then◌else◌, Result, ok, err, Option, none,
  some, List, [], ◌∷◌, ◌++◌, map,
}
use athome_japan_agent_harne.Common.Dict.{Dict, get, put}
use athome_japan_agent_harne.Filters.Encoder.{SearchPlan}
use athome_japan_agent_harne.Store.Db.{StoreError, key_error}

pub record SearchRecord : Type 0 where
  pub search_id : ℕ
  pub query : String
  pub plan : SearchPlan
  pub created_at : ℕ

-- A `Recommendation` as its row holds it, without the listing.
pub record RecommendationRow : Type 0 where
  pub listing_id : String
  pub rank : ℕ
  pub reasons : List String
  pub satisfied_constraints : List String
  pub violated_constraints : List String
  pub probable_negatives : List String

pub record RecommendationRecord : Type 0 where
  pub search_id : ℕ
  pub recommendation : RecommendationRow
  pub created_at : ℕ

pub data ℤ : Type 0 where
  pos : ℕ → ℤ
  negsuc : ℕ → ℤ

-- A value of the cache, and a scalar of JSON: `str`, `int`, or `float` by its text.
pub data CacheValue : Type 0 where
  str : String → CacheValue
  int : ℤ → CacheValue
  float : String → CacheValue

-- A payload of the cache: an object of JSON, by its members `t` and `v` where it has them.
pub record Payload : Type 0 where
  pub t : Option String
  pub v : Option CacheValue

-- `int(value)`, `float(value)` and `str(value)`, which may raise.
pub record Conversions : Type 0 where
  pub to_int : CacheValue → Result StoreError CacheValue
  pub to_float : CacheValue → Result StoreError CacheValue
  pub to_str : CacheValue → Result StoreError CacheValue

-- `type(value).__name__`
abbrev pub type_name : CacheValue → String
type_name (str s) = "str"
type_name (int n) = "int"
type_name (float x) = "float"

-- `_serialize_cache_value`
unfoldable pub serialize_cache_value : CacheValue → Payload
serialize_cache_value value = record { t = some (type_name value); v = some value }

abbrev pub has_tag : Option String → String → Bool
has_tag none name = false
has_tag (some tag) name = tag == name

abbrev pub tagged : Conversions → Option String → Option CacheValue → Result StoreError CacheValue
tagged c tag none = err key_error
tagged c tag (some value) =
    if has_tag tag "int"
    then c.to_int value
    else if has_tag tag "float"
    then c.to_float value
    else if has_tag tag "str"
    then c.to_str value
    else ok value

-- `_deserialize_cache_value`
unfoldable pub deserialize_cache_value : Conversions → Payload → Result StoreError CacheValue
deserialize_cache_value c payload = tagged c payload.t payload.v

-- The three tables, in the order of insertion, and the next value of the searches' AUTOINCREMENT.
pub record History : Type 0 where
  pub searches : List SearchRecord
  pub next_search : ℕ
  pub recommendations : List RecommendationRecord
  pub cache_meta : Dict Payload

unfoldable pub record_search : String → SearchPlan → ℕ → History → ℕ × History
record_search query plan now h = (
  h.next_search,
  record h {
    searches =
        h.searches
        ++ record { search_id = h.next_search; query = query; plan = plan; created_at = now } ∷ [];
    next_search = h.next_search + 1;
  },
)

-- `ORDER BY id DESC`
abbrev pub reverse {ℓ} : {A : Type ℓ} → List A → List A
reverse [] = []
reverse (x ∷ xs) = reverse xs ++ x ∷ []

-- `LIMIT ?`, of a limit from zero on
abbrev pub take {ℓ} : {A : Type ℓ} → ℕ → List A → List A
take zero xs = []
take (suc n) [] = []
take (suc n) (x ∷ xs) = x ∷ take n xs

unfoldable pub search_history : History → ℕ → List SearchRecord
search_history h limit = take limit (reverse h.searches)

abbrev pub recommendation_of : ℕ → ℕ → RecommendationRow → RecommendationRecord
recommendation_of search_id now r = record {
  search_id = search_id;
  recommendation = r;
  created_at = now;
}

unfoldable pub record_recommendation : ℕ → List RecommendationRow → ℕ → History → History
record_recommendation search_id recommendations now h = record h {
  recommendations = h.recommendations ++ map (recommendation_of search_id now) recommendations;
}

unfoldable pub recommendation_history : History → ℕ → List RecommendationRecord
recommendation_history h limit = take limit (reverse h.recommendations)

unfoldable pub set_cache_meta : String → CacheValue → History → History
unfolding serialize_cache_value
set_cache_meta key value h = record h {
  cache_meta = put key (serialize_cache_value value) h.cache_meta;
}

abbrev pub some_value : Result StoreError CacheValue → Result StoreError (Option CacheValue)
some_value (ok value) = ok (some value)
some_value (err e) = err e

abbrev pub read_payload : Conversions → Option Payload → Result StoreError (Option CacheValue)
read_payload c none = ok none
read_payload c (some payload) = some_value (deserialize_cache_value c payload)

unfoldable pub get_cache_meta :
    Conversions → History → String → Result StoreError (Option CacheValue)
get_cache_meta c h key = read_payload c (get key h.cache_meta)
