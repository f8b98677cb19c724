-- ===== src/Llm/Recommend/Ranks.antt =====
-- The ranks and the number of the recommendations of llm/recommender.py.
use athome_japan_agent_harne.Common.{
  ℕ, zero, suc, ◌+◌, ◌-◌, ◌≤◌, String, ◌==◌, ◌≡◌, ◌≢◌, refl, ap, sym, ◌∙◌, false, Option, some, In,
  All-imp, List, [], ◌∷◌, map, inl, inr, arith, leb, eqb, length, All, Bool-cases, Option-cases,
  eq_refl, eq_false-of_ne,
}
use athome_japan_agent_harne.Common.Dict.{Dict, get, put, get-put}
use athome_japan_agent_harne.Llm.Recommend.{
  Detail, RecommendationEntry, Recommendation, add_keys, add_ids, index_details, is_seen, rank_from,
  limit_of, recommend,
}

-- `start`, `start + 1`, and so on: `n` of them.
abbrev pub count_from : ℕ → ℕ → List ℕ
count_from start zero = []
count_from start (suc n) = start ∷ count_from (start + 1) n

abbrev pub ranks : List Recommendation → List ℕ
ranks recommendations = map (λ (r : Recommendation). r.rank) recommendations

-- The listing is one of the details, and the id and the negatives are its own.
pub record IsOfDetail (details : List Detail) (r : Recommendation) : Type 0 where
  pub listed : In r.listing details
  pub own_id : r.listing_id ≡ r.listing.internal_id
  pub own_negatives : r.probable_negatives ≡ r.listing.probable_negatives

-- Every entry of the index is one of the details.
abbrev IsFrom : List Detail → Dict Detail → Type 0
IsFrom details by_id = (name : String) (d : Detail) → get name by_id ≡ some d → In d details

put-IsFrom :
    (details : List Detail) (key : String) (e : Detail) (by_id : Dict Detail)
    → In e details
    → IsFrom details by_id
    → IsFrom details (put key e by_id)
put-IsFrom details key e by_id listed from name d found = elim (Bool-cases (key == name)) [
  | inl same ↦
      let here : some e ≡ some d = sym (get-put name key e by_id ∙ rw same refl) ∙ found in
      let same_detail : e ≡ d = cc in rw (← same_detail) listed
  | inr differs ↦ from name d (sym (get-put name key e by_id ∙ rw differs refl) ∙ found)
]

add_keys-IsFrom :
    (all details : List Detail) (by_id : Dict Detail)
    → All (λ d. In d all) details
    → IsFrom all by_id
    → IsFrom all (add_keys details by_id)
add_keys-IsFrom all [] by_id listed from = from
add_keys-IsFrom all (d ∷ details) by_id (here, listed) from =
    add_keys-IsFrom all details (put d.athome_key d by_id) listed
      (put-IsFrom all d.athome_key d by_id here from)

add_ids-IsFrom :
    (all details : List Detail) (by_id : Dict Detail)
    → All (λ d. In d all) details
    → IsFrom all by_id
    → IsFrom all (add_ids details by_id)
add_ids-IsFrom all [] by_id listed from = from
add_ids-IsFrom all (d ∷ details) by_id (here, listed) from =
    add_ids-IsFrom all details (put d.internal_id d by_id) listed
      (put-IsFrom all d.internal_id d by_id here from)

-- Every member of a list is in it.
All-In : (details : List Detail) → All (λ d. In d details) details
All-In [] = tt
All-In (d ∷ details) = (inl refl, All-imp (λ e m. inr m) details (All-In details))

index_details-IsFrom : (details : List Detail) → IsFrom details (index_details details)
unfolding index_details
index_details-IsFrom details =
    add_ids-IsFrom details details (add_keys details []) (All-In details)
      (add_keys-IsFrom details details [] (All-In details) (λ name d found. absurd (cc)))

-- Contiguous ranks from the count on, within the limit, each of a known detail.
pub record IsRanking (limit : ℕ) (details : List Detail) (count : ℕ) (rs : List Recommendation)
    : Type 0 where
  pub contiguous : ranks rs ≡ count_from (count + 1) (length rs)
  pub bounded : length rs ≤ limit - count
  pub known : All (IsOfDetail details) rs

module _ (limit : ℕ) (details : List Detail) (by_id : Dict Detail)
    (from : IsFrom details by_id) where
  rank_from-IsRanking :
      (seen : List String) (count : ℕ) (ranked : List RecommendationEntry)
      → IsRanking limit details count (rank_from limit by_id seen count ranked)
  unfolding rank_from
  rank_from-IsRanking seen count [] = record {
    contiguous = refl;
    bounded = omega arith;
    known = tt;
  }
  rank_from-IsRanking seen count (e ∷ ranked) = elim (Bool-cases (leb limit count)) [
    | inl full ↦ rw full (record { contiguous = refl; bounded = omega arith; known = tt })
    | inr room ↦ elim (Option-cases (get e.listing_id by_id)) [
      | inl unknown ↦ rw (room, unknown) (rank_from-IsRanking seen count ranked)
      | inr (d, there) ↦ elim (Bool-cases (is_seen e.listing_id seen)) [
        | inl again ↦ rw (room, there, again) (rank_from-IsRanking seen count ranked)
        | inr new ↦
            let w = rank_from-IsRanking (e.listing_id ∷ seen) (count + 1) ranked in
            rw (room, there, new)
              (record {
                contiguous = ap (λ rest. (count + 1) ∷ rest) w.contiguous;
                bounded = ground (arith, w.bounded);
                known = (
                  record {
                    listed = from e.listing_id d there;
                    own_id = refl;
                    own_negatives = refl;
                  },
                  w.known,
                );
              })
      ]
    ]
  ]

-- Whatever ranking the model returns, the recommendations are numbered 1, 2, 3 without a gap, are at most
-- as many as asked for, or five if nothing is asked, and are each of a detail that was handed in, with its
-- id and its negatives.
pub recommend-IsRanking :
    (details : List Detail) (top_y : Option ℕ) (ranked : List RecommendationEntry)
    → IsRanking (limit_of top_y) details 0 (recommend details top_y ranked)
unfolding recommend
recommend-IsRanking [] top_y ranked = record {
  contiguous = refl;
  bounded = omega arith;
  known = tt;
}
recommend-IsRanking (d ∷ details) top_y ranked = elim (Bool-cases (eqb (limit_of top_y) 0)) [
  | inl e ↦ rw e (record { contiguous = refl; bounded = omega arith; known = tt })
  | inr e ↦ rw e (
      rank_from-IsRanking (limit_of top_y) (d ∷ details) (index_details (d ∷ details))
        (index_details-IsFrom (d ∷ details)) [] 0 ranked)
]

either_id :
    (d : Detail)
    → d.athome_key ≢ d.internal_id
    → (get d.athome_key (index_details (d ∷ [])) ≡ some d)
      × (get d.internal_id (index_details (d ∷ [])) ≡ some d)
unfolding index_details
either_id d apart =
    let differ : (d.athome_key == d.internal_id) ≡ false =
      eq_false-of_ne d.athome_key d.internal_id apart in
    (ground (arith, differ, eq_refl d.athome_key), ground (arith, differ, eq_refl d.internal_id))

-- Duplicates are told by the id that the model wrote, so a detail whose two ids differ, ranked under
-- both, is recommended twice.
pub recommend-twice :
    (d : Detail) (top_y : ℕ) (reasons : List String)
    → d.athome_key ≢ d.internal_id
    → 2 ≤ top_y
    → map
        (λ (r : Recommendation). r.listing_id)
        (recommend (d ∷ []) (some top_y) (
          record {
            listing_id = d.athome_key;
            reasons = reasons;
            satisfied_constraints = [];
            violated_constraints = [];
          }
          ∷ record {
            listing_id = d.internal_id;
            reasons = reasons;
            satisfied_constraints = [];
            violated_constraints = [];
          }
          ∷ []))
      ≡ d.internal_id ∷ d.internal_id ∷ []
unfolding recommend rank_from
recommend-twice d top_y reasons apart many =
    let some_asked : eqb top_y 0 ≡ false = ground arith in
    let first : leb top_y 0 ≡ false = ground arith in
    let second : leb top_y 1 ≡ false = ground arith in
    let differ : (d.athome_key == d.internal_id) ≡ false =
      eq_false-of_ne d.athome_key d.internal_id apart in
    let (by_key, by_id) = either_id d apart in
    rw (some_asked, first, by_key, second, by_id, differ) refl
