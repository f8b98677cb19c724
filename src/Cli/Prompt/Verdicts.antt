-- ===== src/Cli/Prompt/Verdicts.antt =====
-- `save` and `reject` of cli.py: whose verdict is written, and what stays.
use athome_japan_agent_harne.Common.{
  ℕ, zero, suc, ◌-◌, String, ◌==◌, ◌≡◌, refl, false, true, Option, none, some, List, [], ◌∷◌, inl,
  inr, arith, ltb, length, Bool-cases, if◌then◌else◌,
}
use athome_japan_agent_harne.Common.Dict.{get-put}
use athome_japan_agent_harne.Store.Db.{Db}
use athome_japan_agent_harne.Store.Feedback.{
  save_listing, reject_listing, set_feedback, feedback_action,
}
use athome_japan_agent_harne.Llm.Recommend.{Detail, Recommendation}
use athome_japan_agent_harne.Cli.State.{Session}
use athome_japan_agent_harne.Cli.Prompt.{
  get_elem?, listing_of, listing_at_rank, decide, save, reject,
}

-- The listing of the recommendation at a rank, counted from one.
abbrev pub at_rank : ℕ → List Recommendation → Option Detail
at_rank zero rs = none
at_rank (suc n) [] = none
at_rank (suc zero) (r ∷ rs) = some r.listing
at_rank (suc (suc n)) (r ∷ rs) = at_rank (suc n) rs

at_rank-elem : (n : ℕ) (rs : List Recommendation) → listing_of (get_elem? rs n) ≡ at_rank (suc n) rs
at_rank-elem n [] = refl
at_rank-elem zero (r ∷ rs) = refl
at_rank-elem (suc n) (r ∷ rs) = at_rank-elem n rs

at_rank-beyond :
    (n : ℕ) (rs : List Recommendation) → ltb (length rs) (suc n) ≡ true → at_rank (suc n) rs ≡ none
at_rank-beyond n [] h = refl
at_rank-beyond zero (r ∷ rs) h = absurd (ground (arith, h))
at_rank-beyond (suc n) (r ∷ rs) h = at_rank-beyond n rs (ground (arith, h))

listing-at_rank :
    (rank : ℕ) (s : Session) → listing_at_rank s rank ≡ at_rank rank s.last_recommendations
unfolding listing_at_rank
listing-at_rank zero s = refl
listing-at_rank (suc n) s =
    let first : ltb (suc n) 1 ≡ false = ground arith in
    let less : suc n - 1 ≡ n = omega arith in
    elim (Bool-cases (ltb (length s.last_recommendations) (suc n))) [
      | inl e ↦ simp (first, e, at_rank-beyond n s.last_recommendations e) refl
      | inr e ↦ simp (first, e, less) (at_rank-elem n s.last_recommendations)
    ]

-- What a command has decided: nothing without a listing; with one, its verdict is the action, the verdict on
-- every other listing is as before, and nothing else has changed.
abbrev pub Decides : String → Session → Option Detail → ℕ × Session → Type 0
Decides action s none r = r ≡ (0, s)
Decides action s (some d) (n, t) =
    (n ≡ 1)
    × ((i : String)
        → feedback_action t.db i
          ≡ (if d.internal_id == i then some action else feedback_action s.db i))
    × (t ≡ record s { db = record s.db { feedback = t.db.feedback } })

decide-Decides :
    (action : String) (verdict : String → Db → Db) (s : Session) (o : Option Detail)
    → ((i : String) (db : Db) → verdict i db ≡ set_feedback i action db)
    → Decides action s o (decide verdict o s)
unfolding set_feedback feedback_action
decide-Decides action verdict s none same = refl
decide-Decides action verdict s (some d) same =
    rw (same d.internal_id s.db) (refl, (λ i. get-put i d.internal_id action s.db.feedback), refl)

-- `save` at a rank writes that the listing of the recommendation at that rank is saved, `reject` that it is
-- rejected, and both leave every other verdict, the rest of the store and of the session as they were and
-- count one; at rank zero, or beyond the last recommendation, they change nothing and count none.
pub save-reject-Decides :
    (rank : ℕ) (s : Session)
    → Decides "save" s (at_rank rank s.last_recommendations) (save rank s)
      × Decides "reject" s (at_rank rank s.last_recommendations) (reject rank s)
unfolding save reject save_listing reject_listing
save-reject-Decides rank s = rw (← listing-at_rank rank s) (
  decide-Decides "save" save_listing s (listing_at_rank s rank) (λ i db. refl),
  decide-Decides "reject" reject_listing s (listing_at_rank s rank) (λ i db. refl),
)
