-- ===== src/Cli/Prompt/Hidden.antt =====
-- What a rejection at the prompt of cli.py does to the searches after it.
use athome_japan_agent_harne.Common.{
  ℕ, ◌≡◌, refl, String, ◌==◌, true, false, ◌≢◌, inl, inr, none, some, List, [], ◌∷◌, map, keep, any,
  ok, err, All, All-imp, Bool-cases, eq_refl,
}
use athome_japan_agent_harne.Common.Dict.{Dict, put}
use athome_japan_agent_harne.Models.{Listing}
use athome_japan_agent_harne.Store.Feedback.{
  reject_listing, set_feedback, feedback_ids, rejected_internal_ids,
}
use athome_japan_agent_harne.Llm.Recommend.{Detail}
use athome_japan_agent_harne.Cli.State.{Surroundings, Session, Searched, SearchOutcome}
use athome_japan_agent_harne.Cli.Session.{search}
use athome_japan_agent_harne.Cli.Session.Listable.{Listable}
use athome_japan_agent_harne.Cli.Session.Done.{IsSearch}
use athome_japan_agent_harne.Cli.Session.Funnel.{search-IsSearch}
use athome_japan_agent_harne.Cli.Prompt.{listing_at_rank, reject}

-- The ids that are rejected in the table.
abbrev rejected_in : Dict String → List String
rejected_in rows =
    map (λ (r : String × String). r.0) (keep (λ (r : String × String). r.1 == "reject") rows)

put-rejected :
    (i : String) (rows : Dict String) → any (λ j. j == i) (rejected_in (put i "reject" rows)) ≡ true
put-rejected i [] = rw (eq_refl i) refl
put-rejected i ((k, v) ∷ rows) = elim (Bool-cases (k == i)) [
  | inl e ↦ rw e (rw e refl)
  | inr e ↦ elim (Bool-cases (v == "reject")) [
    | inl r ↦ rw (e, r, e) (put-rejected i rows)
    | inr r ↦ rw (e, r) (put-rejected i rows)
  ]
]

-- A listing that may be listed is none of the rejected.
other_id :
    (rejected : List String) (pool : List Listing) (i : String)
    → any (λ j. j == i) rejected ≡ true
    → (l : Listing) → Listable rejected pool l
    → l.internal_id ≢ i
other_id rejected pool i hit l (m, free) e =
    let miss : any (λ j. j == i) rejected ≡ false = rw (← e) free in cc

shortlist_hidden :
    (w : Surroundings) (query : String) (s : Session) (i : String) (o : SearchOutcome)
    (ls : List Listing) (r : Searched)
    → any (λ j. j == i) (rejected_internal_ids s.db) ≡ true
    → IsSearch w query s r
    → r.0 ≡ ok o
    → o.shortlist ≡ some ls
    → All (λ (l : Listing). l.internal_id ≢ i) ls
shortlist_hidden w query s i o ls (err e, t) hit is h listed = absurd (cc)
shortlist_hidden w query s i o ls (ok p, t) hit (inl (a, empty, same, why)) h listed =
    let same_outcome : p ≡ o = cc in
    let none_listed : o.shortlist ≡ none = rw same_outcome at empty in absurd (cc)
shortlist_hidden w query s i o ls (ok p, t) hit (inr done) h listed =
    let same_outcome : p ≡ o = cc in
    let all_listed : o.shortlist ≡ some t.last_shortlist = rw same_outcome at done.listed in
    let same : t.last_shortlist ≡ ls = cc in
    rw same at (
      All-imp (other_id (rejected_internal_ids s.db) t.last_harvest i hit) t.last_shortlist
        done.listable)

-- Once the listing at a rank is rejected, the next search lists nothing with its id, whatever the harvest
-- brings and the model prefers.
pub reject-hidden :
    (w : Surroundings) (query : String) (s : Session) (rank : ℕ) (d : Detail) (o : SearchOutcome)
    (ls : List Listing)
    → listing_at_rank s rank ≡ some d
    → (search w query (reject rank s).1).0 ≡ ok o
    → o.shortlist ≡ some ls
    → All (λ (l : Listing). l.internal_id ≢ d.internal_id) ls
unfolding reject reject_listing set_feedback rejected_internal_ids feedback_ids
reject-hidden w query s rank d o ls there h listed =
    let after = (reject rank s).1 in
    let hit : any (λ j. j == d.internal_id) (rejected_internal_ids after.db) ≡ true =
      rw there (put-rejected d.internal_id s.db.feedback) in
    shortlist_hidden w query after d.internal_id o ls (search w query after) hit
      (search-IsSearch w query after) h listed
