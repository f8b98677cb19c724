-- ===== src/Store/History/Tests.antt =====
-- Two searches and a cache entry in the history of store/sqlite_store.py.
use athome_japan_agent_harne.Common.{[], ◌∷◌, List, Result, ok, err, some, ◌≡◌, refl}
use athome_japan_agent_harne.Filters.Encoder.{SearchPlan}
use athome_japan_agent_harne.Store.History.{
  CacheValue, str, int, float, negsuc, Conversions, serialize_cache_value, deserialize_cache_value,
  get_cache_meta, set_cache_meta, record_search,
}
use athome_japan_agent_harne.Store.Db.{StoreError, value_error}
use athome_japan_agent_harne.Store.History.Refines.{
  Write, add_search, set_cache, run_writes, promised_all, no_history, no_promise, Answers,
  run_writes-Answers, run_write, KeepsTypes,
}

abbrev plan : SearchPlan
plan = record {
  flow = "rent";
  prefecture = "osaka";
  cities = [];
  hard_filters = [];
  soft_prefs = [];
}

abbrev only_int : CacheValue → Result StoreError CacheValue
only_int (int n) = ok (int n)
only_int (str s) = err value_error
only_int (float x) = err value_error

abbrev only_float : CacheValue → Result StoreError CacheValue
only_float (float x) = ok (float x)
only_float (str s) = err value_error
only_float (int n) = err value_error

abbrev only_str : CacheValue → Result StoreError CacheValue
only_str (str s) = ok (str s)
only_str (int n) = err value_error
only_str (float x) = err value_error

abbrev writes : List Write
writes =
    add_search "quiet" plan 1
    ∷ set_cache "k" (str "v")
    ∷ set_cache "n" (int (negsuc 4))
    ∷ add_search "sunny" plan 2
    ∷ []

-- Conversions that raise at every other type.
abbrev strict : Conversions
strict = record { to_int = only_int; to_float = only_float; to_str = only_str }

strict-KeepsTypes : KeepsTypes strict
strict-KeepsTypes = record { int_kept = λ n. refl; float_kept = λ x. refl; str_kept = λ s. refl }

read_back : get_cache_meta strict (run_writes writes no_history) "n" ≡ ok (some (int (negsuc 4)))
unfolding get_cache_meta run_writes run_write record_search set_cache_meta serialize_cache_value
    deserialize_cache_value
read_back = refl

run_writes-Answers_example :
    Answers strict (run_writes writes no_history) (promised_all writes no_promise)
run_writes-Answers_example = run_writes-Answers strict writes strict-KeepsTypes
