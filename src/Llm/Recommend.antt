-- ===== src/Llm/Recommend.antt =====
-- llm/recommender.py: what becomes of the model's ranking. The provider's answer is an argument; a detail
-- is what the loop reads of it.
pub mod Ranks
use athome_japan_agent_harne.Common.{
  ℕ, ◌+◌, String, ◌==◌, Bool, Option, none, some, List, [], ◌∷◌, leb, eqb, any, if◌then◌else◌,
}
use athome_japan_agent_harne.Common.Dict.{Dict, get, put}

pub record Detail : Type 0 where
  pub athome_key : String
  pub internal_id : String
  pub probable_negatives : List String

pub record RecommendationEntry : Type 0 where
  pub listing_id : String
  pub reasons : List String
  pub satisfied_constraints : List String
  pub violated_constraints : List String

pub record Recommendation : Type 0 where
  pub listing_id : String
  pub rank : ℕ
  pub reasons : List String
  pub satisfied_constraints : List String
  pub violated_constraints : List String
  pub probable_negatives : List String
  pub listing : Detail

abbrev pub add_keys : List Detail → Dict Detail → Dict Detail
add_keys [] by_id = by_id
add_keys (d ∷ details) by_id = add_keys details (put d.athome_key d by_id)

abbrev pub add_ids : List Detail → Dict Detail → Dict Detail
add_ids [] by_id = by_id
add_ids (d ∷ details) by_id = add_ids details (put d.internal_id d by_id)

-- `by_id`
unfoldable pub index_details : List Detail → Dict Detail
index_details details = add_ids details (add_keys details [])

abbrev pub recommendation : Detail → ℕ → RecommendationEntry → Recommendation
recommendation d rank e = record {
  listing_id = d.internal_id;
  rank = rank;
  reasons = e.reasons;
  satisfied_constraints = e.satisfied_constraints;
  violated_constraints = e.violated_constraints;
  probable_negatives = d.probable_negatives;
  listing = d;
}

abbrev pub is_seen : String → List String → Bool
is_seen i seen = any (λ s. s == i) seen

-- The loop, given the ids seen and the number of recommendations so far: those that are still to come.
unfoldable pub rank_from :
    ℕ → Dict Detail → List String → ℕ → List RecommendationEntry → List Recommendation
rank_from limit by_id seen count [] = []
rank_from limit by_id seen count (e ∷ ranked) =
    let passed_over = rank_from limit by_id seen count ranked in
    let rest = rank_from limit by_id (e.listing_id ∷ seen) (count + 1) ranked in
    if leb limit count then [] else elim (get e.listing_id by_id) [
      | none ↦ passed_over
      | some d ↦
          if is_seen e.listing_id seen then passed_over else recommendation d (count + 1) e ∷ rest
    ]

abbrev pub limit_of : Option ℕ → ℕ
limit_of none = 5
limit_of (some top_y) = top_y

unfoldable pub recommend : List Detail → Option ℕ → List RecommendationEntry → List Recommendation
unfolding rank_from index_details
recommend [] top_y ranked = []
recommend (d ∷ details) top_y ranked =
    if eqb (limit_of top_y) 0
    then []
    else rank_from (limit_of top_y) (index_details (d ∷ details)) [] 0 ranked
