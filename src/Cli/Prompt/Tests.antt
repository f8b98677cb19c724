-- ===== src/Cli/Prompt/Tests.antt =====
-- A session of cli.py: a search that finds two listings, one of which was rejected at the prompt.
use athome_japan_agent_harne.Common.{
  ◌≡◌, ◌≢◌, refl, String, true, false, none, some, [], ◌∷◌, All, ok, err,
}
use athome_japan_agent_harne.Models.{Listing, text, summary_partial}
use athome_japan_agent_harne.Filters.Encoder.{SearchPlan, encode_plan, encode_fields}
use athome_japan_agent_harne.Store.Listings.{upsert_listing, get_fresh_detail}
use athome_japan_agent_harne.Store.Feedback.{reject_listing, rejected_internal_ids}
use athome_japan_agent_harne.Llm.Shortlist.{ShortlistEntry, shortlist}
use athome_japan_agent_harne.Llm.Recommend.{Recommendation, recommend}
use athome_japan_agent_harne.Cli.Details.{Visit, scrape_details}
use athome_japan_agent_harne.Cli.State.{Surroundings, Session, SearchOutcome, planned, complete}
use athome_japan_agent_harne.Cli.Session.{search, detail_of}
use athome_japan_agent_harne.Cli.Session.Done.{IsSearch}
use athome_japan_agent_harne.Cli.Session.Funnel.{search-IsSearch}
use athome_japan_agent_harne.Cli.Prompt.{listing_at_rank, save, reject}
use athome_japan_agent_harne.Cli.Prompt.Hidden.{reject-hidden}
use athome_japan_agent_harne.Cli.Prompt.Verdicts.{Decides, save-reject-Decides}

abbrev listing : String → Listing
listing id = record {
  internal_id = id;
  athome_key = id;
  url = id;
  completeness = summary_partial;
  detail_fetched_at = none;
  detail_fresh_until = none;
  agency = none;
  price = record {
    rent = 80000;
    management_fee = 0;
    deposit = none;
    key_money = none;
    deposit_raw = none;
    key_money_raw = none;
  };
  fields = ("title", text "Koenji") ∷ [];
  detail = none;
}

abbrev plan : SearchPlan
plan = record {
  flow = "rent";
  prefecture = "tokyo";
  cities = [];
  hard_filters = [];
  soft_prefs = "quiet" ∷ [];
}

abbrev unreachable : Listing → Visit
unreachable l = record {
  read_at = 5;
  fetch = err "TimeoutError";
  detail_parser = λ html. err "ValueError";
  extract_agency = λ html. ok none;
  fetched_at = 6;
  stored_at = 7;
  extract_cards = λ html. ok [];
}

abbrev scored : String → ShortlistEntry
scored id = record { listing_id = id; score = 5; rationale = "near" }

abbrev around : Surroundings
around = record {
  session_id = "s1";
  parse = λ query. planned plan;
  confirm = λ query p. true;
  filter_map = record { version = 1; content_hash = "h"; mappings = [] };
  harvest = λ p params.
      some
        (record { listings = listing "a" ∷ listing "b" ∷ []; pages_scraped = 1; partial = false });
  upserted_at = λ l. 3;
  searched_at = 4;
  serialized_length = λ l. 40;
  shortlist_size = 20;
  answers = some (scored "a" ∷ scored "b" ∷ []) ∷ [];
  visit = unreachable;
  recommendations_count = 5;
  ranked = some [];
  report_written = true;
  recommended_at = 9;
}

abbrev recommended_a : Recommendation
recommended_a = record {
  listing_id = "a";
  rank = 1;
  reasons = [];
  satisfied_constraints = [];
  violated_constraints = [];
  probable_negatives = [];
  listing = detail_of (listing "a");
}

abbrev before : Session
before = record {
  db = record { listings = []; agencies = []; feedback = []; jobs = []; next_job = 1 };
  history = record { searches = []; next_search = 1; recommendations = []; cache_meta = [] };
  last_query = none;
  last_plan = none;
  last_shortlist = [];
  last_recommendations = recommended_a ∷ [];
  last_harvest = [];
  last_session_id = none;
}

abbrev outcome : SearchOutcome
outcome = record {
  status = complete;
  session_id = "s1";
  report = some (record {
    query = "quiet flat";
    plan = plan;
    results_seen = 2;
    pages_scraped = 1;
    shortlist = listing "b" ∷ [];
    recommendations = [];
    partial = false;
  });
  shortlist = some (listing "b" ∷ []);
  recommendations = some [];
  clarifying_question = none;
}

first : listing_at_rank before 1 ≡ some (detail_of (listing "a"))
unfolding listing_at_rank
first = refl

search-IsSearch_example : IsSearch around "quiet flat" before (search around "quiet flat" before)
search-IsSearch_example = search-IsSearch around "quiet flat" before

second : (search around "quiet flat" (reject 1 before).1).0 ≡ ok outcome
unfolding search encode_plan encode_fields upsert_listing reject reject_listing shortlist recommend
    rejected_internal_ids scrape_details get_fresh_detail
second = refl

reject-hidden_example : All (λ (l : Listing). l.internal_id ≢ "a") (listing "b" ∷ [])
reject-hidden_example =
    reject-hidden around "quiet flat" before 1 (detail_of (listing "a")) outcome (listing "b" ∷ [])
      first second refl

save-reject-Decides_example :
    Decides "save" before (some (detail_of (listing "a"))) (save 1 before)
    × Decides "reject" before (some (detail_of (listing "a"))) (reject 1 before)
save-reject-Decides_example = save-reject-Decides 1 before
