-- ===== src/Cli/State.antt =====
-- cli.py: what a search meets outside, what it returns, and what the session keeps.
use athome_japan_agent_harne.Common.{ℕ, String, Bool, Option, List, Result}
use athome_japan_agent_harne.Models.{Listing}
use athome_japan_agent_harne.Filters.Encoder.{SearchPlan, FilterMap, Pairs}
use athome_japan_agent_harne.Store.Db.{Db, StoreError}
use athome_japan_agent_harne.Store.History.{History}
use athome_japan_agent_harne.Llm.Shortlist.{ShortlistEntry}
use athome_japan_agent_harne.Llm.Recommend.{Recommendation, RecommendationEntry}
use athome_japan_agent_harne.Cli.Details.{Visit}

-- What `QueryParser.parse` does: return a plan, or raise `ClarificationNeeded` with its question,
-- or raise what the provider raises.
pub data Parsed : Type 0 where
  planned : SearchPlan → Parsed
  unclear : String → Parsed
  raised : Parsed

-- A `HarvestResult`, of which the session reads this much.
pub record Harvest : Type 0 where
  pub listings : List Listing
  pub pages_scraped : ℕ
  pub partial : Bool

-- What a search meets outside. Nothing stands for what raises.
pub record Surroundings : Type 0 where
  pub session_id : String
  pub parse : String → Parsed
  pub confirm : String → SearchPlan → Bool
  pub filter_map : FilterMap
  pub harvest : SearchPlan → Pairs → Option Harvest
  pub upserted_at : Listing → ℕ
  pub searched_at : ℕ
  pub serialized_length : Listing → ℕ
  pub shortlist_size : ℕ
  pub answers : List (Option (List ShortlistEntry))
  pub visit : Listing → Visit
  pub recommendations_count : ℕ
  pub ranked : Option (List RecommendationEntry)
  pub report_written : Bool
  pub recommended_at : ℕ

pub data SearchStatus : Type 0 where
  aborted partial complete : SearchStatus

-- The budgets, which are settings, are left out.
pub record RunReport : Type 0 where
  pub query : String
  pub plan : SearchPlan
  pub results_seen : ℕ
  pub pages_scraped : ℕ
  pub shortlist : List Listing
  pub recommendations : List Recommendation
  pub partial : Bool

pub record SearchOutcome : Type 0 where
  pub status : SearchStatus
  pub session_id : String
  pub report : Option RunReport
  pub shortlist : Option (List Listing)
  pub recommendations : Option (List Recommendation)
  pub clarifying_question : Option String

-- What leaves `search`: an exception of the parser, the encoder, the harvest, the store, the model or the file system.
pub data SearchError : Type 0 where
  parser_raised unsupported_version harvest_raised model_raised report_raised : SearchError
  store_raised : StoreError → SearchError

-- The session's attributes, and the store behind it.
pub record Session : Type 0 where
  pub db : Db
  pub history : History
  pub last_query : Option String
  pub last_plan : Option SearchPlan
  pub last_shortlist : List Listing
  pub last_recommendations : List Recommendation
  pub last_harvest : List Listing
  pub last_session_id : Option String

abbrev pub Searched : Type 0
Searched = Result SearchError SearchOutcome × Session
