-- ===== src/Store/Feedback/Latest.antt =====
-- The decisions on listings in store/sqlite_store.py: the latest one wins.
use athome_japan_agent_harne.Common.{
  String, ◌==◌, ◌≡◌, refl, ap, ◌∙◌, true, false, Option, none, some, List, [], ◌∷◌, inl, inr, arith,
  Bool-cases, eq_iff, if◌then◌else◌,
}
use athome_japan_agent_harne.Common.Dict.{Dict, get, get-put}
use athome_japan_agent_harne.Store.Db.{Db}
use athome_japan_agent_harne.Store.Feedback.{
  set_feedback, save_listing, reject_listing, delete, clear_feedback, feedback_action, is_saved,
  is_rejected, is_action,
}

pub data Decision : Type 0 where
  save reject clear : String → Decision

unfoldable pub decide : Decision → Db → Db
unfolding save_listing reject_listing clear_feedback
decide (save i) db = save_listing i db
decide (reject i) db = reject_listing i db
decide (clear i) db = clear_feedback i db

unfoldable pub decide_all : List Decision → Db → Db
unfolding decide
decide_all [] db = db
decide_all (d ∷ decisions) db = decide_all decisions (decide d db)

-- What a decision says of a listing.
abbrev pub verdict : String → Decision → Option String → Option String
verdict i (save j) before = if j == i then some "save" else before
verdict i (reject j) before = if j == i then some "reject" else before
verdict i (clear j) before = if j == i then none else before

abbrev pub last_verdict : String → List Decision → Option String → Option String
last_verdict i [] before = before
last_verdict i (d ∷ decisions) before = last_verdict i decisions (verdict i d before)

get-delete :
    (i j : String) (rows : Dict String)
    → get i (delete j rows) ≡ (if j == i then none else get i rows)
get-delete i j [] = ground arith
get-delete i j ((k, a) ∷ rows) = elim (Bool-cases (k == j)) [
  | inl e ↦ rw e (ground (arith, get-delete i j rows, eq_iff k j, eq_iff k i, eq_iff j i))
  | inr e ↦ rw e (ground (arith, get-delete i j rows, eq_iff k j, eq_iff k i, eq_iff j i))
]

decide_action :
    (d : Decision) (db : Db) (i : String)
    → feedback_action (decide d db) i ≡ verdict i d (feedback_action db i)
unfolding decide save_listing reject_listing clear_feedback set_feedback feedback_action
decide_action (save j) db i = get-put i j "save" db.feedback
decide_action (reject j) db i = get-put i j "reject" db.feedback
decide_action (clear j) db i = get-delete i j db.feedback

-- After any decisions, what is stored for a listing is the last decision on it, whatever was decided on
-- the others: saved, rejected, or nothing once it has been cleared. No listing is saved and rejected at
-- once.
pub decide_all-last_verdict :
    (decisions : List Decision) (db : Db) (i : String)
    → (feedback_action (decide_all decisions db) i
        ≡ last_verdict i decisions (feedback_action db i))
      × (is_saved (decide_all decisions db) i ≡ true
          → is_rejected (decide_all decisions db) i ≡ false)
unfolding decide_all is_saved is_rejected
decide_all-last_verdict decisions db i =
    (last decisions db, exclusive (feedback_action (decide_all decisions db) i))
  where
    last :
        (ds : List Decision) (db' : Db)
        → feedback_action (decide_all ds db') i ≡ last_verdict i ds (feedback_action db' i)
    last [] db' = refl
    last (d ∷ ds) db' =
        last ds (decide d db') ∙ ap (λ o. last_verdict i ds o) (decide_action d db' i)

    exclusive : (o : Option String) → is_action o "save" ≡ true → is_action o "reject" ≡ false
    exclusive none h = refl
    exclusive (some a) h = let at : a ≡ "save" = (eq_iff a "save").0 h in rw at refl
