-- ===== src/Cli/Session/Funnel.antt =====
-- What a search of cli.py leaves behind, from the blank query to the last result.
use athome_japan_agent_harne.Common.{
  ℕ, ◌≡◌, refl, ◌∙◌, String, Bool, true, false, inl, inr, Option, none, some, List, [], ◌∷◌, ◌++◌,
  Result, ok, err, All, Bool-cases,
}
use athome_japan_agent_harne.Common.Texts.{codes_of, strip}
use athome_japan_agent_harne.Models.{Listing}
use athome_japan_agent_harne.Filters.Encoder.{
  SearchPlan, Pairs, EncodeError, unknown_filter, unknown_filter_value, unsupported_schema_version,
  encode_plan,
}
use athome_japan_agent_harne.Store.Db.{Db, StoreError}
use athome_japan_agent_harne.Store.Queue.{Outcome}
use athome_japan_agent_harne.Store.Feedback.{rejected_internal_ids, feedback_ids}
use athome_japan_agent_harne.Store.History.{
  History, SearchRecord, record_search, record_recommendation,
}
use athome_japan_agent_harne.Store.Listings.{upsert_listing}
use athome_japan_agent_harne.Store.Listings.Jobs.{SameQueue, upsert_listing-SameQueue}
use athome_japan_agent_harne.Llm.Recommend.{RecommendationEntry}
use athome_japan_agent_harne.Cli.State.{
  Surroundings, Session, Harvest, Parsed, planned, unclear, raised,
}
use athome_japan_agent_harne.Cli.Session.{
  upsert_all, after_upsert, shortlisted, after_search_record, after_upserts, after_harvest,
  after_encode, after_parse, is_blank_query, search,
}
use athome_japan_agent_harne.Cli.Session.Listable.{Listable, shortlisted-Listable}
use athome_japan_agent_harne.Cli.Session.Done.{stored, IsSearch}

after_upsert-SameQueue :
    (rest : Db → Outcome (Unit {0})) (o : Outcome String) (db : Db)
    → SameQueue db o.1
    → SameQueue o.1 (rest o.1).1
    → SameQueue db (after_upsert rest o).1
after_upsert-SameQueue rest (ok i, after) db s t = record {
  jobs = t.jobs ∙ s.jobs;
  next = t.next ∙ s.next;
  feedback = t.feedback ∙ s.feedback;
}
after_upsert-SameQueue rest (err e, after) db s t = s

pub upsert_all-SameQueue :
    (listings : List Listing) (now : Listing → ℕ) (db : Db)
    → SameQueue db (upsert_all listings now db).1
unfolding upsert_all
upsert_all-SameQueue [] now db = record { jobs = refl; next = refl; feedback = refl }
upsert_all-SameQueue (l ∷ listings) now db =
    let o = upsert_listing l (now l) db in
    after_upsert-SameQueue (upsert_all listings now) o db (upsert_listing-SameQueue l (now l) db)
      (upsert_all-SameQueue listings now o.1)

rejected-same : (a b : Db) → SameQueue a b → rejected_internal_ids b ≡ rejected_internal_ids a
unfolding rejected_internal_ids feedback_ids
rejected-same a b same = simp same.feedback refl

module _ (w : Surroundings) (query : String) (s : Session) (plan : SearchPlan)
    (parsed : w.parse query ≡ planned plan) (confirmed : w.confirm query plan ≡ true) where
  module _ (params : Pairs) (encoded : encode_plan plan w.filter_map ≡ ok params) (h : Harvest)
      (harvested : w.harvest plan params ≡ some h) where
    stored_shortlist :
        All
          (Listable (rejected_internal_ids s.db) h.listings)
          (shortlisted w (stored w h s).1 h.listings)
    stored_shortlist =
        let all = (shortlisted-Listable w (stored w h s).1 h.listings).1 in
        let same = upsert_all-SameQueue h.listings w.upserted_at s.db in
        rw (rejected-same s.db (stored w h s).1 same) at all

    after_search_record-IsSearch :
        (o : Option (List RecommendationEntry)) (written : Bool) (history : History)
        → (stored w h s).0 ≡ ok tt
        → w.ranked ≡ o
        → w.report_written ≡ written
        → ((r : SearchRecord) × (r.query ≡ query)
            × (r.plan ≡ plan)
            × (history.searches ≡ s.history.searches ++ r ∷ []))
        → IsSearch w query s (
            after_search_record w plan h query s.history.next_search
              (record s { last_harvest = h.listings; db = (stored w h s).1; history = history }))
    unfolding record_recommendation
    after_search_record-IsSearch none written history fine no_answer report logged =
        simp no_answer refl
    after_search_record-IsSearch (some ranking) false history fine answer unwritten logged =
        simp (answer, unwritten) refl
    after_search_record-IsSearch (some ranking) true history fine answer written logged =
        simp (answer, written)
          (inr (record {
            plan = plan;
            params = params;
            harvest = h;
            ranking = ranking;
            parsed = parsed;
            confirmed = confirmed;
            encoded = encoded;
            harvested = harvested;
            all_stored = fine;
            answered = answer;
            same_harvest = refl;
            same_plan = refl;
            remembered = refl;
            listed = refl;
            few = (shortlisted-Listable w (stored w h s).1 h.listings).0;
            listable = stored_shortlist;
            recommended = refl;
            ranked = refl;
            tables = refl;
            reports = (_, refl, refl, refl, refl);
            status = refl;
            logged = logged;
          }))

    after_upserts-IsSearch :
        (o : Result StoreError (Unit {0}))
        → (stored w h s).0 ≡ o
        → IsSearch w query s (
            after_upserts w plan h query
              (o, (stored w h s).1)
              (record s { last_harvest = h.listings }))
    unfolding record_search
    after_upserts-IsSearch (ok _) fine =
        after_search_record-IsSearch w.ranked w.report_written
          (record_search query plan w.searched_at s.history).1 fine refl refl (_, refl, refl, refl)
    after_upserts-IsSearch (err e) failed = (plan, params, h, harvested, failed)

  after_harvest-IsSearch :
      (params : Pairs) (o : Option Harvest)
      → encode_plan plan w.filter_map ≡ ok params
      → w.harvest plan params ≡ o
      → IsSearch w query s (after_harvest w plan query o s)
  after_harvest-IsSearch params none encoded harvested = (plan, params, parsed, harvested)
  after_harvest-IsSearch params (some h) encoded harvested =
      after_upserts-IsSearch params encoded h harvested (stored w h s).0 refl

  after_encode-IsSearch :
      (r : Result EncodeError Pairs)
      → encode_plan plan w.filter_map ≡ r
      → IsSearch w query s (after_encode w plan query r s)
  after_encode-IsSearch (ok params) encoded =
      after_harvest-IsSearch params (w.harvest plan params) encoded refl
  after_encode-IsSearch (err unsupported_schema_version) encoded = (plan, parsed, encoded)
  after_encode-IsSearch (err unknown_filter) encoded =
      inl (refl, refl, refl, inr (inr (inr (plan, _, parsed, encoded, λ e. absurd (cc)))))
  after_encode-IsSearch (err unknown_filter_value) encoded =
      inl (refl, refl, refl, inr (inr (inr (plan, _, parsed, encoded, λ e. absurd (cc)))))

after_parse-IsSearch :
    (w : Surroundings) (query : String) (s : Session) (p : Parsed)
    → w.parse query ≡ p
    → IsSearch w query s (after_parse w query p s)
after_parse-IsSearch w query s raised parsed = parsed
after_parse-IsSearch w query s (unclear question) parsed =
    inl (refl, refl, refl, inr (inl (question, parsed)))
after_parse-IsSearch w query s (planned plan) parsed = elim (Bool-cases (w.confirm query plan)) [
  | inl e ↦
      rw e (after_encode-IsSearch w query s plan parsed e (encode_plan plan w.filter_map) refl)
  | inr e ↦ rw e (inl (refl, refl, refl, inr (inr (inl (plan, parsed, e)))))
]

-- A search is aborted, lists nothing and leaves the store and the session as they were, for want of a
-- query, of a clear one, of the user's consent or of a filter that is known; or it raises what one of its
-- parts raised; or it is done. Then it was parsed, confirmed, encoded, and harvested, and the harvest was
-- stored; it returns the shortlist and the recommendations that the session remembers, with a report that
-- counts this harvest and its pages and a status that tells whether it is partial; the shortlist has at
-- most the budgeted size, each of its listings is from this harvest and was not rejected when the search
-- began; the recommendations are what the model's ranking makes of the scraped details of this shortlist;
-- and the query with its plan is the newest entry of the history.
pub search-IsSearch :
    (w : Surroundings) (query : String) (s : Session) → IsSearch w query s (search w query s)
unfolding search
search-IsSearch w query s = elim (Bool-cases (is_blank_query (strip (codes_of query)))) [
  | inl e ↦ rw e (inl (refl, refl, refl, inl e))
  | inr e ↦ rw e (after_parse-IsSearch w query s (w.parse query) refl)
]
