-- ===== src/Cli/Session/Done.antt =====
-- What is right of a search of cli.py that is aborted, that raises, or that is done.
use athome_japan_agent_harne.Common.{
  ◌≤◌, ◌≡◌, ◌≢◌, String, true, false, if◌then◌else◌, ◌⊎◌, none, some, List, [], ◌∷◌, ◌++◌, map, ok,
  err, length, All,
}
use athome_japan_agent_harne.Common.Texts.{codes_of, strip}
use athome_japan_agent_harne.Models.{Listing}
use athome_japan_agent_harne.Filters.Encoder.{
  SearchPlan, Pairs, EncodeError, unsupported_schema_version, encode_plan,
}
use athome_japan_agent_harne.Store.Queue.{Outcome}
use athome_japan_agent_harne.Store.Feedback.{rejected_internal_ids}
use athome_japan_agent_harne.Store.History.{SearchRecord}
use athome_japan_agent_harne.Llm.Recommend.{RecommendationEntry, recommend}
use athome_japan_agent_harne.Cli.Details.{Details, scrape_details}
use athome_japan_agent_harne.Cli.State.{
  Surroundings, Session, Searched, SearchOutcome, aborted, partial, complete, Harvest, planned,
  unclear, raised, RunReport, SearchError, unsupported_version, harvest_raised, model_raised,
  report_raised, store_raised, parser_raised,
}
use athome_japan_agent_harne.Cli.Session.{upsert_all, is_blank_query, visits, detail_of}
use athome_japan_agent_harne.Cli.Session.Listable.{Listable}

-- The tables once the harvest is stored, and the details of a shortlist then.
abbrev pub stored : Surroundings → Harvest → Session → Outcome (Unit {0})
stored w h s = upsert_all h.listings w.upserted_at s.db

abbrev pub details : Surroundings → Harvest → Session → List Listing → Details
details w h s summaries = scrape_details (visits w summaries) (stored w h s).1

-- A search that went through: the plan of the query was encoded, harvested, stored, shortlisted, scraped and
-- ranked, and what it returns is what the session remembers.
pub record IsDone (w : Surroundings) (query : String) (s : Session) (o : SearchOutcome)
    (t : Session) : Type 0 where
  pub plan : SearchPlan
  pub params : Pairs
  pub harvest : Harvest
  pub ranking : List RecommendationEntry
  pub parsed : w.parse query ≡ planned plan
  pub confirmed : w.confirm query plan ≡ true
  pub encoded : encode_plan plan w.filter_map ≡ ok params
  pub harvested : w.harvest plan params ≡ some harvest
  pub all_stored : (stored w harvest s).0 ≡ ok tt
  pub answered : w.ranked ≡ some ranking
  pub same_harvest : t.last_harvest ≡ harvest.listings
  pub same_plan : t.last_plan ≡ some plan
  pub remembered : t.last_query ≡ some query
  pub listed : o.shortlist ≡ some t.last_shortlist
  pub few : length t.last_shortlist ≤ w.shortlist_size
  pub listable : All (Listable (rejected_internal_ids s.db) t.last_harvest) t.last_shortlist
  pub recommended : o.recommendations ≡ some t.last_recommendations
  pub ranked :
      t.last_recommendations
      ≡ recommend
          (map detail_of (details w harvest s t.last_shortlist).0.0)
          (some w.recommendations_count)
          ranking
  pub tables : t.db ≡ (details w harvest s t.last_shortlist).1
  pub reports :
      (r : RunReport) × (o.report ≡ some r)
      × (r.results_seen ≡ length harvest.listings)
      × (r.pages_scraped ≡ harvest.pages_scraped)
      × (r.shortlist ≡ t.last_shortlist)
  pub status : o.status ≡ (if harvest.partial then partial else complete)
  pub logged :
      (r : SearchRecord) × (r.query ≡ query)
      × (r.plan ≡ plan)
      × (t.history.searches ≡ s.history.searches ++ r ∷ [])

-- Why a search is aborted: no query, no clear one, no consent, or a filter that is not known.
abbrev pub Aborts : Surroundings → String → Type 0
Aborts w query =
    (is_blank_query (strip (codes_of query)) ≡ true)
    ⊎ ((question : String) × (w.parse query ≡ unclear question))
    ⊎ ((plan : SearchPlan) × (w.parse query ≡ planned plan) × (w.confirm query plan ≡ false))
    ⊎ ((plan : SearchPlan) × (e : EncodeError) × (w.parse query ≡ planned plan)
        × (encode_plan plan w.filter_map ≡ err e)
        × (e ≢ unsupported_schema_version))

-- What raised.
abbrev pub Raises : Surroundings → String → Session → SearchError → Type 0
Raises w query s parser_raised = w.parse query ≡ raised
Raises w query s unsupported_version =
    (plan : SearchPlan) × (w.parse query ≡ planned plan)
    × (encode_plan plan w.filter_map ≡ err unsupported_schema_version)
Raises w query s harvest_raised =
    (plan : SearchPlan) × (params : Pairs) × (w.parse query ≡ planned plan)
    × (w.harvest plan params ≡ none)
Raises w query s (store_raised e) =
    (plan : SearchPlan) × (params : Pairs) × (h : Harvest) × (w.harvest plan params ≡ some h)
    × ((stored w h s).0 ≡ err e)
Raises w query s model_raised = w.ranked ≡ none
Raises w query s report_raised = w.report_written ≡ false

-- What is right of a search: it is aborted and touches nothing, or it is done, or it raises.
abbrev pub IsSearch : Surroundings → String → Session → Searched → Type 0
IsSearch w query s (ok o, t) =
    ((o.status ≡ aborted) × (o.shortlist ≡ none) × (t ≡ s) × Aborts w query) ⊎ IsDone w query s o t
IsSearch w query s (err e, t) = Raises w query s e
