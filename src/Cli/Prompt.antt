-- ===== src/Cli/Prompt.antt =====
-- cli.py, the commands of `SearchSession` on the last results, and the loop of `interactive` over commands
-- that are parsed.
pub mod Hidden
pub mod Verdicts
mod Tests
use Prim.Native.Char.{Char, code}
use Prim.Native.String.{[] as empty, ◌∷◌ as ◌∷ˢ◌, ◌++◌ as ◌+ˢ◌}
use athome_japan_agent_harne.Common.{
  ℕ, zero, suc, ◌-◌, String, Bool, true, false, ◌||◌, Option, none, some, List, [], ◌∷◌, map, ltb,
  length, if◌then◌else◌, Result, ok, err,
}
use athome_japan_agent_harne.Common.Texts.{is_space}
use athome_japan_agent_harne.Filters.Encoder.{SearchPlan}
use athome_japan_agent_harne.Store.Db.{Db}
use athome_japan_agent_harne.Store.Feedback.{save_listing, reject_listing}
use athome_japan_agent_harne.Llm.Recommend.{Detail, Recommendation, RecommendationEntry, recommend}
use athome_japan_agent_harne.Models.{Listing}
use athome_japan_agent_harne.Cli.Details.{Details, scrape_details}
use athome_japan_agent_harne.Cli.State.{
  Surroundings, Session, Searched, SearchOutcome, SearchError, model_raised, report_raised,
}
use athome_japan_agent_harne.Cli.Session.{shortlisted, visits, detail_of, search}

abbrev pub get_elem? {ℓ} : {A : Type ℓ} → List A → ℕ → Option A
get_elem? [] i = none
get_elem? (x ∷ xs) zero = some x
get_elem? (x ∷ xs) (suc i) = get_elem? xs i

abbrev listing_of : Option Recommendation → Option Detail
listing_of none = none
listing_of (some r) = some r.listing

-- `_listing_at_rank`
unfoldable pub listing_at_rank : Session → ℕ → Option Detail
listing_at_rank s rank =
    if ltb rank 1 || ltb (length s.last_recommendations) rank
    then none
    else listing_of (get_elem? s.last_recommendations (rank - 1))

-- `save` and `reject`, by the operation of the store: 1 if there is a listing at the rank, else 0.
abbrev pub decide : (String → Db → Db) → Option Detail → Session → ℕ × Session
decide verdict none s = (0, s)
decide verdict (some d) s = (1, record s { db = verdict d.internal_id s.db })

unfoldable pub save : ℕ → Session → ℕ × Session
unfolding listing_at_rank
save rank s = decide save_listing (listing_at_rank s rank) s

unfoldable pub reject : ℕ → Session → ℕ × Session
unfolding listing_at_rank
reject rank s = decide reject_listing (listing_at_rank s rank) s

abbrev pub Liked : Type 0
Liked = Result SearchError (List Recommendation) × Session

abbrev pub rerank :
    Surroundings → List Listing → Option (List RecommendationEntry) → Session → Liked
rerank w details none s = (err model_raised, s)
rerank w details (some ranked) s =
    let recommendations = recommend (map detail_of details) (some w.recommendations_count) ranked in
    (
      if w.report_written then ok recommendations else err report_raised,
      record s { last_recommendations = recommendations },
    )

abbrev pub like_target : Surroundings → Option Detail → Option SearchPlan → Session → Liked
like_target w none plan s = (ok [], s)
like_target w (some target) none s = (ok [], s)
like_target w (some target) (some plan) s =
    let targets = shortlisted w s.db s.last_harvest in
    let details = scrape_details (visits w targets) s.db in
    rerank w details.0.0 w.ranked (record s { db = details.1 })

unfoldable pub more_like : Surroundings → ℕ → Session → Liked
unfolding listing_at_rank
more_like w rank s = like_target w (listing_at_rank s rank) s.last_plan s

abbrev drop_space : String → String
drop_space empty = empty
drop_space (c ∷ˢ cs) = if is_space (code c) then drop_space cs else c ∷ˢ cs

abbrev before_end : Char → String → String
before_end c empty = if is_space (code c) then empty else c ∷ˢ empty
before_end c (d ∷ˢ ds) = c ∷ˢ d ∷ˢ ds

abbrev drop_end : String → String
drop_end empty = empty
drop_end (c ∷ˢ cs) = before_end c (drop_end cs)

abbrev or_empty : Option String → String
or_empty none = ""
or_empty (some query) = query

unfoldable pub refine : Surroundings → String → Session → Searched
refine w clause s = search w (drop_end (drop_space (or_empty s.last_query +ˢ (" " +ˢ clause)))) s

-- A command, and what it meets outside.
pub data Action : Type 0 where
  search_for refine_by : Surroundings → String → Action
  save_at reject_at : ℕ → Action
  more_like_at : Surroundings → ℕ → Action

abbrev pub finished {ℓ} : {A : Type ℓ} → Result SearchError A → Bool
finished (ok a) = true
finished (err e) = false

-- The body of the loop of `interactive`: whether the loop goes on, and the session.
unfoldable pub run_action : Action → Session → Bool × Session
unfolding save reject more_like refine
run_action (search_for w query) s = let (r, t) = search w query s in (finished r, t)
run_action (refine_by w clause) s = let (r, t) = refine w clause s in (finished r, t)
run_action (save_at rank) s = (true, (save rank s).1)
run_action (reject_at rank) s = (true, (reject rank s).1)
run_action (more_like_at w rank) s = let (r, t) = more_like w rank s in (finished r, t)

abbrev pub go_on : (Session → Session) → Bool × Session → Session
go_on rest (true, s) = rest s
go_on rest (false, s) = s

-- The loop, which an exception ends.
unfoldable pub run_actions : List Action → Session → Session
unfolding run_action
run_actions [] s = s
run_actions (a ∷ actions) s = go_on (run_actions actions) (run_action a s)
