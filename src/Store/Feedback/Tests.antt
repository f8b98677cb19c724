-- ===== src/Store/Feedback/Tests.antt =====
-- A run of decisions on two listings.
use athome_japan_agent_harne.Common.{◌≡◌, true, false, List, [], ◌∷◌}
use athome_japan_agent_harne.Store.Db.{Db}
use athome_japan_agent_harne.Store.Feedback.{feedback_action, is_saved, is_rejected}
use athome_japan_agent_harne.Store.Feedback.Latest.{
  Decision, save, reject, clear, decide_all, last_verdict, decide_all-last_verdict,
}

abbrev undecided : Db
undecided = record { listings = []; agencies = []; feedback = []; jobs = []; next_job = 0 }

abbrev decisions : List Decision
decisions = save "a" ∷ reject "b" ∷ reject "a" ∷ clear "b" ∷ []

decide_all-last_verdict_example :
    (feedback_action (decide_all decisions undecided) "a"
      ≡ last_verdict "a" decisions (feedback_action undecided "a"))
    × (is_saved (decide_all decisions undecided) "a" ≡ true
        → is_rejected (decide_all decisions undecided) "a" ≡ false)
decide_all-last_verdict_example = decide_all-last_verdict decisions undecided "a"
