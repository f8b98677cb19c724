-- ===== src/Llm/Tests.antt =====
-- Runs of llm/shortlister.py and llm/recommender.py on two listings.
use athome_japan_agent_harne.Common.{
  ℕ, ◌≤◌, String, ◌≡◌, refl, Option, none, some, List, [], ◌∷◌, inl, All, length, map, arith,
  ne-of-eq_false,
}
use athome_japan_agent_harne.Llm.Recommend.{
  Detail, RecommendationEntry, Recommendation, limit_of, recommend,
}
use athome_japan_agent_harne.Llm.Recommend.Ranks.{IsRanking, recommend-IsRanking, recommend-twice}
use athome_japan_agent_harne.Llm.Shortlist.{
  Candidate, ShortlistEntry, estimate_tokens, pack_batches, prompt_ids, merge_batches,
  merge_entries, top_of, shortlist,
}
use athome_japan_agent_harne.Llm.Shortlist.Packing.{concat, IsBatch, pack_batches-IsBatch}
use athome_japan_agent_harne.Llm.Shortlist.Best.{Covers, merge_batches-member}
use athome_japan_agent_harne.Llm.Shortlist.Listed.{IsHarvested, shortlist-IsHarvested}

abbrev candidates : List Candidate
candidates =
    record { athome_key = "k1"; internal_id = "i1"; serialized_length = 30 }
    ∷ record { athome_key = "k2"; internal_id = "i2"; serialized_length = 50 }
    ∷ []

abbrev entry : String → ℕ → ShortlistEntry
entry i s = record { listing_id = i; score = s; rationale = "near" }

-- A batch that failed, and two that name the first listing by either id.
abbrev answers : List (Option (List ShortlistEntry))
answers =
    some (entry "k1" 7 ∷ entry "zz" 9 ∷ []) ∷ none ∷ some (entry "i1" 5 ∷ entry "i2" 6 ∷ []) ∷ []

merge_batches-member_example : Covers (merge_batches (prompt_ids candidates) answers []) "i1" 7
unfolding prompt_ids
merge_batches-member_example =
    merge_batches-member (prompt_ids candidates) answers [] (entry "k1" 7 ∷ entry "zz" 9 ∷ [])
      (entry "k1" 7) "i1" (inl refl) (inl refl) refl

pack_batches-IsBatch_example :
    (concat (pack_batches 4 16 8 candidates) ≡ candidates)
    × All
        (IsBatch (λ l. estimate_tokens 4 l.serialized_length) (estimate_tokens 4 8) 16)
        (pack_batches 4 16 8 candidates)
pack_batches-IsBatch_example = pack_batches-IsBatch 4 16 8 candidates

shortlist-IsHarvested_example :
    (length (shortlist candidates (some 1) answers) ≤ top_of (some 1))
    × All
        (λ (e : ShortlistEntry). IsHarvested candidates e.listing_id)
        (shortlist candidates (some 1) answers)
shortlist-IsHarvested_example = shortlist-IsHarvested candidates (some 1) answers

first_of_two : shortlist candidates (some 1) answers ≡ entry "i1" 7 ∷ []
unfolding shortlist prompt_ids merge_batches merge_entries
first_of_two = refl

abbrev detail_one : Detail
detail_one = record { athome_key = "k1"; internal_id = "i1"; probable_negatives = "old" ∷ [] }

abbrev ranked : String → RecommendationEntry
ranked i = record {
  listing_id = i;
  reasons = "near" ∷ [];
  satisfied_constraints = [];
  violated_constraints = [];
}

recommend-IsRanking_example :
    IsRanking
      (limit_of (some 3))
      (detail_one ∷ [])
      0
      (recommend (detail_one ∷ []) (some 3) (ranked "zz" ∷ ranked "i1" ∷ []))
recommend-IsRanking_example =
    recommend-IsRanking (detail_one ∷ []) (some 3) (ranked "zz" ∷ ranked "i1" ∷ [])

recommend-twice_example :
    map
      (λ (r : Recommendation). r.listing_id)
      (recommend (detail_one ∷ []) (some 2) (
        record {
          listing_id = "k1";
          reasons = [];
          satisfied_constraints = [];
          violated_constraints = [];
        }
        ∷ record {
          listing_id = "i1";
          reasons = [];
          satisfied_constraints = [];
          violated_constraints = [];
        }
        ∷ []))
    ≡ "i1" ∷ "i1" ∷ []
recommend-twice_example =
    recommend-twice detail_one 2 []
      (ne-of-eq_false detail_one.athome_key detail_one.internal_id refl) (omega arith)
