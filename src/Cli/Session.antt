-- ===== src/Cli/Session.antt =====
-- cli.py, `SearchSession`: the funnel of one search and the commands on its results. The parser of the
-- query, the harvest, the answers of the model, the clocks and the writing of the reports are arguments.
pub mod Listable
pub mod Done
pub mod Funnel
use athome_japan_agent_harne.Common.{
  ℕ, zero, suc, ◌+◌, ◌-◌, String, ◌==◌, Bool, true, false, not, ◌&&◌, ◌||◌, Option, none, some,
  List, [], ◌∷◌, ◌++◌, map, leb, ltb, eqb, if◌then◌else◌, Result, ok, err, any, keep, length,
}
use athome_japan_agent_harne.Common.Dict.{Dict, get, put}
use athome_japan_agent_harne.Common.Texts.{codes_of, strip}
use athome_japan_agent_harne.Models.{Listing, Value, items}
use athome_japan_agent_harne.Filters.Encoder.{
  SearchPlan, FilterMap, Pairs, EncodeError, unknown_filter, unknown_filter_value,
  unsupported_schema_version, encode_plan,
}
use athome_japan_agent_harne.Store.Db.{Db, StoreError}
use athome_japan_agent_harne.Store.Queue.{Outcome}
use athome_japan_agent_harne.Store.Listings.{upsert_listing, seen_internal_ids}
use athome_japan_agent_harne.Store.Feedback.{rejected_internal_ids, save_listing, reject_listing}
use athome_japan_agent_harne.Store.History.{
  History, RecommendationRow, record_search, record_recommendation,
}
use athome_japan_agent_harne.Llm.Shortlist.{Candidate, ShortlistEntry, shortlist}
use athome_japan_agent_harne.Llm.Recommend.{Detail, Recommendation, RecommendationEntry, recommend}
use athome_japan_agent_harne.Cli.Details.{Visit, Details, scrape_details}
use athome_japan_agent_harne.Cli.State.{
  Parsed, planned, unclear, raised, parser_raised, Harvest, Surroundings, SearchStatus, aborted,
  partial, complete, RunReport, SearchOutcome, SearchError, unsupported_version, harvest_raised,
  model_raised, report_raised, store_raised, Session, Searched,
}

abbrev pub abort : String → Option String → Session → Searched
abort session_id question s = (
  ok (record {
    status = aborted;
    session_id = session_id;
    report = none;
    shortlist = none;
    recommendations = none;
    clarifying_question = question;
  }),
  s,
)

-- `for listing in harvest.listings: upsert_listing`, and what follows.
abbrev pub after_upsert : (Db → Outcome (Unit {0})) → Outcome String → Outcome (Unit {0})
after_upsert rest (err e, db) = (err e, db)
after_upsert rest (ok _, db) = rest db

unfoldable pub upsert_all : List Listing → (Listing → ℕ) → Db → Outcome (Unit {0})
upsert_all [] now db = (ok tt, db)
upsert_all (l ∷ listings) now db =
    after_upsert (upsert_all listings now) (upsert_listing l (now l) db)

abbrev pub is_one_of : List String → Listing → Bool
is_one_of ids l = any (λ i. i == l.internal_id) ids

-- `candidates`
abbrev pub candidates_of : Db → List Listing → List Listing
candidates_of db listings = keep (λ l. not (is_one_of (rejected_internal_ids db) l)) listings

abbrev pub candidate_of : (Listing → ℕ) → Listing → Candidate
candidate_of serialized_length l = record {
  athome_key = l.athome_key;
  internal_id = l.internal_id;
  serialized_length = serialized_length l;
}

-- `by_id`
unfoldable pub index_listings : List Listing → Dict Listing → Dict Listing
index_listings [] by_id = by_id
index_listings (l ∷ listings) by_id = index_listings listings (put l.internal_id l by_id)

abbrev pub found : Option Listing → List Listing → List Listing
found none rest = rest
found (some l) rest = l ∷ rest

-- `[by_id[e.listing_id] for e in shortlisted if e.listing_id in by_id]`
unfoldable pub summaries_of : Dict Listing → List ShortlistEntry → List Listing
summaries_of by_id [] = []
summaries_of by_id (e ∷ entries) = found (get e.listing_id by_id) (summaries_of by_id entries)

-- The shortlist of the pool, without what is rejected.
unfoldable pub shortlisted : Surroundings → Db → List Listing → List Listing
unfolding index_listings summaries_of
shortlisted w db pool = summaries_of (index_listings pool []) (
    shortlist (map (candidate_of w.serialized_length) (candidates_of db pool))
      (some w.shortlist_size) w.answers)

abbrev negatives : Option Value → List String
negatives (some (items xs)) = xs
negatives _ = []

abbrev pub detail_of : Listing → Detail
detail_of l = record {
  athome_key = l.athome_key;
  internal_id = l.internal_id;
  probable_negatives = negatives (get "probable_negatives" l.fields);
}

abbrev pub row_of : Recommendation → RecommendationRow
row_of r = record {
  listing_id = r.listing_id;
  rank = r.rank;
  reasons = r.reasons;
  satisfied_constraints = r.satisfied_constraints;
  violated_constraints = r.violated_constraints;
  probable_negatives = r.probable_negatives;
}

abbrev pub visits : Surroundings → List Listing → List (Listing × Visit)
visits w summaries = map (λ l. (l, w.visit l)) summaries

-- From the report on.
abbrev pub reported :
    Surroundings
    → SearchPlan
    → Harvest
    → String
    → ℕ
    → List Listing
    → List Recommendation
    → Session
    → Searched
reported w plan h query search_id summaries recommendations s =
    let t : Session = record s {
      last_recommendations = recommendations;
      last_query = some query;
      last_plan = some plan;
      last_session_id = some w.session_id;
    } in
    if w.report_written
    then (
      ok (record {
        status = if h.partial then partial else complete;
        session_id = w.session_id;
        report = some (record {
          query = query;
          plan = plan;
          results_seen = length h.listings;
          pages_scraped = h.pages_scraped;
          shortlist = summaries;
          recommendations = recommendations;
          partial = h.partial;
        });
        shortlist = some summaries;
        recommendations = some recommendations;
        clarifying_question = none;
      }),
      record t {
        history =
            record_recommendation search_id (map row_of recommendations) w.recommended_at t.history;
      },
    )
    else (err report_raised, t)

-- From the recommendations on.
abbrev pub recommended :
    Surroundings
    → SearchPlan
    → Harvest
    → String
    → ℕ
    → List Listing
    → List Listing
    → Option (List RecommendationEntry)
    → Session
    → Searched
recommended w plan h query search_id summaries details none s = (err model_raised, s)
recommended w plan h query search_id summaries details (some ranked) s =
    reported w plan h query search_id summaries
      (recommend (map detail_of details) (some w.recommendations_count) ranked) s

-- From the shortlist on.
abbrev pub after_search_record :
    Surroundings → SearchPlan → Harvest → String → ℕ → Session → Searched
after_search_record w plan h query search_id s =
    let summaries = shortlisted w s.db h.listings in
    let details = scrape_details (visits w summaries) s.db in
    recommended w plan h query search_id summaries details.0.0 w.ranked
      (record s { last_shortlist = summaries; db = details.1 })

-- From the stored harvest on.
abbrev pub after_upserts :
    Surroundings → SearchPlan → Harvest → String → Outcome (Unit {0}) → Session → Searched
after_upserts w plan h query (err e, db) s = (err (store_raised e), record s { db = db })
after_upserts w plan h query (ok _, db) s =
    let (search_id, history) = record_search query plan w.searched_at s.history in
    after_search_record w plan h query search_id (record s { db = db; history = history })

abbrev pub after_harvest : Surroundings → SearchPlan → String → Option Harvest → Session → Searched
after_harvest w plan query none s = (err harvest_raised, s)
after_harvest w plan query (some h) s =
    after_upserts w plan h query (upsert_all h.listings w.upserted_at s.db)
      (record s { last_harvest = h.listings })

abbrev pub after_encode :
    Surroundings → SearchPlan → String → Result EncodeError Pairs → Session → Searched
after_encode w plan query (ok params) s = after_harvest w plan query (w.harvest plan params) s
after_encode w plan query (err unsupported_schema_version) s = (err unsupported_version, s)
after_encode w plan query (err _) s = abort w.session_id none s

abbrev pub after_parse : Surroundings → String → Parsed → Session → Searched
after_parse w query raised s = (err parser_raised, s)
after_parse w query (unclear question) s = abort w.session_id (some question) s
after_parse w query (planned plan) s =
    if w.confirm query plan
    then after_encode w plan query (encode_plan plan w.filter_map) s
    else abort w.session_id none s

abbrev pub is_blank_query : List ℕ → Bool
is_blank_query [] = true
is_blank_query (c ∷ cs) = false

unfoldable pub search : Surroundings → String → Session → Searched
unfolding upsert_all shortlisted record_search record_recommendation
search w query s =
    if is_blank_query (strip (codes_of query))
    then abort w.session_id none s
    else after_parse w query (w.parse query) s
