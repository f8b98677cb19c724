-- ===== src/Llm/Shortlist.antt =====
-- llm/shortlister.py. A listing is what the scoring reads of it: its two ids and the length of its line of
-- JSON. A score is a natural number that orders as the float does. The provider's answers come in the
-- order in which the batches complete, nothing where a batch raises.
pub mod Packing
pub mod Best
pub mod Listed
use Prim.Native.String.{compare as compare_text}
use Prim.Native.Nat.{Ordering}
use athome_japan_agent_harne.Common.{
  ℕ, zero, suc, ◌+◌, ◌-◌, ◌/◌, max, String, Bool, true, false, ◌&&◌, ◌||◌, Option, none, some, List,
  [], ◌∷◌, ◌++◌, ltb, eqb, if◌then◌else◌,
}
use athome_japan_agent_harne.Common.Dict.{Dict, get, put, values}

pub record Candidate : Type 0 where
  pub athome_key : String
  pub internal_id : String
  pub serialized_length : ℕ

pub record ShortlistEntry : Type 0 where
  pub listing_id : String
  pub score : ℕ
  pub rationale : String

-- `_estimate_tokens` of a text of that length: `math.ceil` of the quotient, at least 1
unfoldable pub estimate_tokens : ℕ → ℕ → ℕ
estimate_tokens chars_per_token length = max 1 ((length + (chars_per_token - 1)) / chars_per_token)

-- The last test of `_pack_batches`.
abbrev pub flush : List Candidate → List (List Candidate)
flush [] = []
flush (c ∷ current) = (c ∷ current) ∷ []

-- The loop of `_pack_batches`: the batches from here on, given the current one and its cost.
module _ (listing_cost : Candidate → ℕ) (fixed_cost max_batch_tokens : ℕ) where
  unfoldable pub pack_from : List Candidate → ℕ → List Candidate → List (List Candidate)
  pack_from current current_cost [] = flush current
  pack_from [] current_cost (l ∷ listings) =
      pack_from (l ∷ []) (current_cost + listing_cost l) listings
  pack_from (c ∷ current) current_cost (l ∷ listings) =
      let fresh = pack_from (l ∷ []) (fixed_cost + listing_cost l) listings in
      let longer = pack_from (c ∷ current ++ l ∷ []) (current_cost + listing_cost l) listings in
      if ltb max_batch_tokens (current_cost + listing_cost l) then (c ∷ current) ∷ fresh else longer

-- `_pack_batches`, of preferences whose JSON has `prefs_length` characters
unfoldable pub pack_batches : ℕ → ℕ → ℕ → List Candidate → List (List Candidate)
unfolding pack_from estimate_tokens
pack_batches chars_per_token max_batch_tokens prefs_length listings =
    let fixed_cost = estimate_tokens chars_per_token prefs_length in
    pack_from (λ l. estimate_tokens chars_per_token l.serialized_length) fixed_cost max_batch_tokens
      [] fixed_cost listings

abbrev add_keys : List Candidate → Dict String → Dict String
add_keys [] ids = ids
add_keys (l ∷ listings) ids = add_keys listings (put l.athome_key l.internal_id ids)

abbrev add_ids : List Candidate → Dict String → Dict String
add_ids [] ids = ids
add_ids (l ∷ listings) ids = add_ids listings (put l.internal_id l.internal_id ids)

-- `prompt_to_internal_id`
unfoldable pub prompt_ids : List Candidate → Dict String
prompt_ids listings = add_ids listings (add_keys listings [])

-- `previous is None or normalized.score > previous.score`
abbrev pub improves : ShortlistEntry → Option ShortlistEntry → Bool
improves e none = true
improves e (some previous) = ltb previous.score e.score

abbrev pub known_entry : Option String → ShortlistEntry → Dict ShortlistEntry → Dict ShortlistEntry
known_entry none entry best = best
known_entry (some internal_id) entry best =
    let normalized = record entry { listing_id = internal_id } in
    if improves normalized (get internal_id best) then put internal_id normalized best else best

-- `for entry in entries`
unfoldable pub merge_entries :
    Dict String → List ShortlistEntry → Dict ShortlistEntry → Dict ShortlistEntry
merge_entries ids [] best = best
merge_entries ids (e ∷ entries) best =
    merge_entries ids entries (known_entry (get e.listing_id ids) e best)

-- `for future in as_completed(futures)`
unfoldable pub merge_batches :
    Dict String → List (Option (List ShortlistEntry)) → Dict ShortlistEntry → Dict ShortlistEntry
unfolding merge_entries
merge_batches ids [] best = best
merge_batches ids (none ∷ batches) best = merge_batches ids batches best
merge_batches ids (some entries ∷ batches) best =
    merge_batches ids batches (merge_entries ids entries best)

-- `(-e.score, e.listing_id)` of the first is not after that of the second
abbrev pub ranks_before : ShortlistEntry → ShortlistEntry → Bool
ranks_before a b =
    ltb b.score a.score
    || (eqb a.score b.score
        && elim (compare_text a.listing_id b.listing_id) [ Ordering.gt ↦ false | _ ↦ true ])

abbrev pub insert : ShortlistEntry → List ShortlistEntry → List ShortlistEntry
insert e [] = e ∷ []
insert e (x ∷ xs) = if ranks_before e x then e ∷ x ∷ xs else x ∷ insert e xs

-- `sorted`
abbrev pub sorted : List ShortlistEntry → List ShortlistEntry
sorted [] = []
sorted (e ∷ es) = insert e (sorted es)

-- `merged[:top]`
abbrev pub take {ℓ} : {A : Type ℓ} → ℕ → List A → List A
take zero xs = []
take (suc n) [] = []
take (suc n) (x ∷ xs) = x ∷ take n xs

-- `DEFAULT_TOP_X`, and `max(0, top_x)` of a natural number
abbrev pub top_of : Option ℕ → ℕ
top_of none = 20
top_of (some top_x) = top_x

unfoldable pub shortlist :
    List Candidate → Option ℕ → List (Option (List ShortlistEntry)) → List ShortlistEntry
unfolding merge_batches prompt_ids
shortlist [] top_x batches = []
shortlist (l ∷ listings) top_x batches =
    if eqb (top_of top_x) 0
    then []
    else take (top_of top_x)
        (sorted (values (merge_batches (prompt_ids (l ∷ listings)) batches [])))
