-- ===== src/Store/Feedback.antt =====
-- store/sqlite_store.py, feedback: one row for each listing with the latest decision.
pub mod Latest
mod Tests
use athome_japan_agent_harne.Common.{
  String, ◌==◌, Bool, true, false, not, Option, none, some, List, [], ◌∷◌, keep, map, if◌then◌else◌,
}
use athome_japan_agent_harne.Common.Dict.{Dict, get, put}
use athome_japan_agent_harne.Store.Db.{Db}

-- `_set_feedback`: `INSERT … ON CONFLICT (internal_id) DO UPDATE`. The time of the decision, which
-- nothing reads, is left out.
unfoldable pub set_feedback : String → String → Db → Db
set_feedback internal_id action db = record db { feedback = put internal_id action db.feedback }

unfoldable pub save_listing : String → Db → Db
unfolding set_feedback
save_listing internal_id db = set_feedback internal_id "save" db

unfoldable pub reject_listing : String → Db → Db
unfolding set_feedback
reject_listing internal_id db = set_feedback internal_id "reject" db

-- `DELETE … WHERE internal_id = ?`
abbrev pub delete : String → Dict String → Dict String
delete internal_id rows = keep (λ (r : String × String). not (r.0 == internal_id)) rows

unfoldable pub clear_feedback : String → Db → Db
clear_feedback internal_id db = record db { feedback = delete internal_id db.feedback }

-- `_feedback_action`
unfoldable pub feedback_action : Db → String → Option String
feedback_action db internal_id = get internal_id db.feedback

abbrev pub is_action : Option String → String → Bool
is_action none action = false
is_action (some a) action = a == action

unfoldable pub is_saved : Db → String → Bool
unfolding feedback_action
is_saved db internal_id = is_action (feedback_action db internal_id) "save"

unfoldable pub is_rejected : Db → String → Bool
unfolding feedback_action
is_rejected db internal_id = is_action (feedback_action db internal_id) "reject"

-- `_feedback_ids`
unfoldable pub feedback_ids : Db → String → List String
feedback_ids db action =
    map (λ (r : String × String). r.0) (keep (λ (r : String × String). r.1 == action) db.feedback)

unfoldable pub rejected_internal_ids : Db → List String
unfolding feedback_ids
rejected_internal_ids db = feedback_ids db "reject"

unfoldable pub saved_internal_ids : Db → List String
unfolding feedback_ids
saved_internal_ids db = feedback_ids db "save"
