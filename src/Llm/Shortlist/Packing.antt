-- ===== src/Llm/Shortlist/Packing.antt =====
-- The batches of llm/shortlister.py.
use athome_japan_agent_harne.Common.{
  ℕ, ◌+◌, ◌≤◌, ◌≡◌, ◌⊎◌, refl, ap, false, List, [], ◌∷◌, ◌++◌, inl, inr, arith, ltb, length, All,
  Bool-cases,
}
use athome_japan_agent_harne.Llm.Shortlist.{Candidate, pack_from, pack_batches, estimate_tokens}

abbrev pub concat {ℓ} : {A : Type ℓ} → List (List A) → List A
concat [] = []
concat (xs ∷ xss) = xs ++ concat xss

append_assoc {ℓ} : {A : Type ℓ} (xs ys zs : List A) → (xs ++ ys) ++ zs ≡ xs ++ (ys ++ zs)
append_assoc [] ys zs = refl
append_assoc (x ∷ xs) ys zs = ap (λ rest. x ∷ rest) (append_assoc xs ys zs)

append_nil {ℓ} : {A : Type ℓ} (xs : List A) → xs ++ [] ≡ xs
append_nil [] = refl
append_nil (x ∷ xs) = ap (λ rest. x ∷ rest) (append_nil xs)

module _ (listing_cost : Candidate → ℕ) (fixed_cost max_batch_tokens : ℕ) where
  -- The estimate of a batch, as `_estimate_batch_tokens` has it.
  abbrev pub listings_cost : List Candidate → ℕ
  listings_cost [] = 0
  listings_cost (l ∷ batch) = listing_cost l + listings_cost batch

  -- Not empty, and within the budget unless it holds one listing alone.
  pub record IsBatch (batch : List Candidate) : Type 0 where
    pub filled : 1 ≤ length batch
    pub fits : (length batch ≡ 1) ⊎ (fixed_cost + listings_cost batch ≤ max_batch_tokens)

  listings_cost-append :
      (xs : List Candidate) (l : Candidate)
      → listings_cost (xs ++ l ∷ []) ≡ listings_cost xs + listing_cost l
  listings_cost-append [] l = omega arith
  listings_cost-append (x ∷ xs) l = omega (arith, listings_cost-append xs l)

  pack_from-concat :
      (current : List Candidate) (cost : ℕ) (listings : List Candidate)
      → concat (pack_from listing_cost fixed_cost max_batch_tokens current cost listings)
        ≡ current ++ listings
  unfolding pack_from
  pack_from-concat [] cost [] = refl
  pack_from-concat (c ∷ current) cost [] = refl
  pack_from-concat [] cost (l ∷ listings) =
      pack_from-concat (l ∷ []) (cost + listing_cost l) listings
  pack_from-concat (c ∷ current) cost (l ∷ listings) =
      elim (Bool-cases (ltb max_batch_tokens (cost + listing_cost l))) [
        | inl full ↦
            rw (full, pack_from-concat (l ∷ []) (fixed_cost + listing_cost l) listings) refl
        | inr room ↦
            rw (room, pack_from-concat (c ∷ current ++ l ∷ []) (cost + listing_cost l) listings)
              (ap (λ rest. c ∷ rest) (append_assoc current (l ∷ []) listings))
      ]

  single-IsBatch : (l : Candidate) → IsBatch (l ∷ [])
  single-IsBatch l = record { filled = omega arith; fits = inl refl }

  grown-IsBatch :
      (c : Candidate) (current : List Candidate) (l : Candidate) (cost : ℕ)
      → cost ≡ fixed_cost + listings_cost (c ∷ current)
      → ltb max_batch_tokens (cost + listing_cost l) ≡ false
      → IsBatch (c ∷ current ++ l ∷ [])
  grown-IsBatch c current l cost e room = record {
    filled = omega arith;
    fits = inr (let grown = listings_cost-append current l in ground arith);
  }

  pack_from-IsBatch :
      (c : Candidate) (current : List Candidate) (cost : ℕ) (listings : List Candidate)
      → IsBatch (c ∷ current)
      → cost ≡ fixed_cost + listings_cost (c ∷ current)
      → All IsBatch (pack_from listing_cost fixed_cost max_batch_tokens (c ∷ current) cost listings)
  unfolding pack_from
  pack_from-IsBatch c current cost [] b e = (b, tt)
  pack_from-IsBatch c current cost (l ∷ listings) b e =
      elim (Bool-cases (ltb max_batch_tokens (cost + listing_cost l))) [
        | inl full ↦ rw full (
          b,
          pack_from-IsBatch l [] (fixed_cost + listing_cost l) listings (single-IsBatch l)
              (omega arith),
        )
        | inr room ↦ rw room (
            pack_from-IsBatch c (current ++ l ∷ []) (cost + listing_cost l) listings
              (grown-IsBatch c current l cost e room)
              (omega (arith, listings_cost-append current l)))
      ]

  All-IsBatch :
      (listings : List Candidate)
      → All IsBatch (pack_from listing_cost fixed_cost max_batch_tokens [] fixed_cost listings)
  unfolding pack_from
  All-IsBatch [] = tt
  All-IsBatch (l ∷ listings) =
      pack_from-IsBatch l [] (fixed_cost + listing_cost l) listings (single-IsBatch l) (omega arith)

-- The batches hold every listing once and in order; none is empty, and each is within the token budget
-- by its own estimate unless it is a single listing.
pub pack_batches-IsBatch :
    (chars_per_token max_batch_tokens prefs_length : ℕ) (listings : List Candidate)
    → (concat (pack_batches chars_per_token max_batch_tokens prefs_length listings) ≡ listings)
      × All
          (IsBatch
            (λ l. estimate_tokens chars_per_token l.serialized_length)
            (estimate_tokens chars_per_token prefs_length)
            max_batch_tokens)
          (pack_batches chars_per_token max_batch_tokens prefs_length listings)
unfolding pack_batches
pack_batches-IsBatch chars_per_token max_batch_tokens prefs_length listings =
    let cost = λ (l : Candidate). estimate_tokens chars_per_token l.serialized_length in
    let fixed = estimate_tokens chars_per_token prefs_length in
    (
      pack_from-concat cost fixed max_batch_tokens [] fixed listings,
      All-IsBatch cost fixed max_batch_tokens listings,
    )
