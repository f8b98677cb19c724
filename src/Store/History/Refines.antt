-- ===== src/Store/History/Refines.antt =====
-- The history of store/sqlite_store.py against what it promises: the latest records first, and a cache that
-- is a function of its keys.
use athome_japan_agent_harne.Common.{
  ℕ, ◌+◌, ◌≡◌, refl, ap, sym, ◌∙◌, String, ◌==◌, Option, none, some, List, [], ◌∷◌, ◌++◌, map,
  arith, if◌then◌else◌, Bool, true, false, ok,
}
use athome_japan_agent_harne.Common.Dict.{get, get-put}
use athome_japan_agent_harne.Filters.Encoder.{SearchPlan}
use athome_japan_agent_harne.Store.History.{
  SearchRecord, RecommendationRow, RecommendationRecord, CacheValue, History, record_search,
  reverse, take, search_history, record_recommendation, recommendation_of, recommendation_history,
  set_cache_meta, get_cache_meta, ℤ, str, int, float, Payload, Conversions, serialize_cache_value,
  deserialize_cache_value, read_payload,
}

-- One call that writes.
pub data Write : Type 0 where
  add_search : String → SearchPlan → ℕ → Write
  add_recommendations : ℕ → List RecommendationRow → ℕ → Write
  set_cache : String → CacheValue → Write

unfoldable pub run_write : Write → History → History
unfolding record_search record_recommendation set_cache_meta
run_write (add_search query plan now) h = (record_search query plan now h).1
run_write (add_recommendations search_id rows now) h = record_recommendation search_id rows now h
run_write (set_cache key value) h = set_cache_meta key value h

unfoldable pub run_writes : List Write → History → History
unfolding run_write
run_writes [] h = h
run_writes (w ∷ writes) h = run_writes writes (run_write w h)

-- What the history promises: two logs, the latest entry on top, and a function.
pub record Promise : Type 0 where
  pub latest_searches : List SearchRecord
  pub searches_made : ℕ
  pub latest_recommendations : List RecommendationRecord
  pub cached : String → Option CacheValue

abbrev pub push_all :
    List RecommendationRecord → List RecommendationRecord → List RecommendationRecord
push_all [] log = log
push_all (r ∷ rs) log = push_all rs (r ∷ log)

abbrev pub promised : Write → Promise → Promise
promised (add_search query plan now) p = record p {
  latest_searches =
      record { search_id = p.searches_made; query = query; plan = plan; created_at = now }
      ∷ p.latest_searches;
  searches_made = p.searches_made + 1;
}
promised (add_recommendations search_id rows now) p = record p {
  latest_recommendations =
      push_all (map (recommendation_of search_id now) rows) p.latest_recommendations;
}
promised (set_cache key value) p = record p {
  cached = λ k. if key == k then some value else p.cached k;
}

abbrev pub promised_all : List Write → Promise → Promise
promised_all [] p = p
promised_all (w ∷ writes) p = promised_all writes (promised w p)

-- The payload of a value.
abbrev written : Option CacheValue → Option Payload
written none = none
written (some value) = some (serialize_cache_value value)

-- Each conversion keeps a value that is of its type.
pub record KeepsTypes (c : Conversions) : Type 0 where
  pub int_kept : (n : ℤ) → c.to_int (int n) ≡ ok (int n)
  pub float_kept : (x : String) → c.to_float (float x) ≡ ok (float x)
  pub str_kept : (s : String) → c.to_str (str s) ≡ ok (str s)

-- A payload reads as the value that was serialized.
deserialize-serialize :
    (c : Conversions) (value : CacheValue)
    → KeepsTypes c
    → deserialize_cache_value c (serialize_cache_value value) ≡ ok value
unfolding deserialize_cache_value serialize_cache_value
deserialize-serialize c (str s) keeps = keeps.str_kept s
deserialize-serialize c (int n) keeps = keeps.int_kept n
deserialize-serialize c (float x) keeps = keeps.float_kept x

read_written :
    (c : Conversions) (o : Option CacheValue) → KeepsTypes c → read_payload c (written o) ≡ ok o
read_written c none keeps = refl
read_written c (some value) keeps = rw (deserialize-serialize c value keeps) refl

-- The tables hold what is promised.
pub record Holds (h : History) (p : Promise) : Type 0 where
  pub searches : reverse h.searches ≡ p.latest_searches
  pub next : h.next_search ≡ p.searches_made
  pub recommendations : reverse h.recommendations ≡ p.latest_recommendations
  pub cache : (k : String) → get k h.cache_meta ≡ written (p.cached k)

-- The reads answer as promised.
pub record Answers (c : Conversions) (h : History) (p : Promise) : Type 0 where
  pub searches : (limit : ℕ) → search_history h limit ≡ take limit p.latest_searches
  pub recommendations :
      (limit : ℕ) → recommendation_history h limit ≡ take limit p.latest_recommendations
  pub cache : (k : String) → get_cache_meta c h k ≡ ok (p.cached k)
  pub next :
      (query : String) (plan : SearchPlan) (now : ℕ)
      → (record_search query plan now h).0 ≡ p.searches_made

module _ {ℓ} {A : Type ℓ} where
  append_assoc : (xs ys zs : List A) → (xs ++ ys) ++ zs ≡ xs ++ (ys ++ zs)
  append_assoc [] ys zs = refl
  append_assoc (x ∷ xs) ys zs = ap (λ l. x ∷ l) (append_assoc xs ys zs)

  append_nil : (xs : List A) → xs ++ [] ≡ xs
  append_nil [] = refl
  append_nil (x ∷ xs) = ap (λ l. x ∷ l) (append_nil xs)

  reverse-append : (xs ys : List A) → reverse (xs ++ ys) ≡ reverse ys ++ reverse xs
  reverse-append [] ys = sym (append_nil (reverse ys))
  reverse-append (x ∷ xs) ys =
      ap (λ l. l ++ x ∷ []) (reverse-append xs ys) ∙ append_assoc (reverse ys) (reverse xs) (x ∷ [])

push_all-reverse : (rs log : List RecommendationRecord) → push_all rs log ≡ reverse rs ++ log
push_all-reverse [] log = refl
push_all-reverse (r ∷ rs) log =
    push_all-reverse rs (r ∷ log) ∙ sym (append_assoc (reverse rs) (r ∷ []) log)

written-if :
    (b : Bool) (value : CacheValue) (o : Option CacheValue)
    → (if b then some (serialize_cache_value value) else written o)
      ≡ written (if b then some value else o)
written-if true value o = refl
written-if false value o = refl

run_write-Holds :
    (w : Write) (h : History) (p : Promise) → Holds h p → Holds (run_write w h) (promised w p)
unfolding run_write record_search record_recommendation set_cache_meta
run_write-Holds (add_search query plan now) h p s =
    let made : ℕ → SearchRecord =
      λ n. record { search_id = n; query = query; plan = plan; created_at = now } in
    record {
      searches =
          reverse-append h.searches (made h.next_search ∷ [])
          ∙ ap (λ l. made h.next_search ∷ l) s.searches
          ∙ ap (λ n. made n ∷ p.latest_searches) s.next;
      next = omega (arith, s.next);
      recommendations = s.recommendations;
      cache = s.cache;
    }
run_write-Holds (add_recommendations search_id rows now) h p s =
    let rs = map (recommendation_of search_id now) rows in
    record {
      searches = s.searches;
      next = s.next;
      recommendations =
          reverse-append h.recommendations rs
          ∙ ap (λ l. reverse rs ++ l) s.recommendations
          ∙ sym (push_all-reverse rs p.latest_recommendations);
      cache = s.cache;
    }
run_write-Holds (set_cache key value) h p s = record {
  searches = s.searches;
  next = s.next;
  recommendations = s.recommendations;
  cache = λ k.
      rw (get-put k key (serialize_cache_value value) h.cache_meta, s.cache k)
        (written-if (key == k) value (p.cached k));
}

run_writes-Holds :
    (writes : List Write) (h : History) (p : Promise)
    → Holds h p
    → Holds (run_writes writes h) (promised_all writes p)
unfolding run_writes
run_writes-Holds [] h p s = s
run_writes-Holds (w ∷ writes) h p s =
    run_writes-Holds writes (run_write w h) (promised w p) (run_write-Holds w h p s)

abbrev pub no_history : History
no_history = record { searches = []; next_search = 1; recommendations = []; cache_meta = [] }

abbrev pub no_promise : Promise
no_promise = record {
  latest_searches = [];
  searches_made = 1;
  latest_recommendations = [];
  cached = λ k. none;
}

-- After any sequence of writes to an empty store, the histories read as logs with the latest entry on top,
-- cut off at the limit, the next search gets the next number, and the cache reads as the function that
-- the writes make, each value with its type, where the conversion to a type keeps the values of that type.
pub run_writes-Answers :
    (c : Conversions) (writes : List Write)
    → KeepsTypes c
    → Answers c (run_writes writes no_history) (promised_all writes no_promise)
unfolding search_history recommendation_history get_cache_meta record_search
run_writes-Answers c writes keeps =
    let s =
      run_writes-Holds writes no_history no_promise
        (record { searches = refl; next = refl; recommendations = refl; cache = λ k. refl }) in
    record {
      searches = λ limit. ap (take limit) s.searches;
      recommendations = λ limit. ap (take limit) s.recommendations;
      cache =
          λ k. rw (s.cache k) (read_written c ((promised_all writes no_promise).cached k) keeps);
      next = λ query plan now. s.next;
    }
