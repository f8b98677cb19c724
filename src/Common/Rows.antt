-- ===== src/Common/Rows.antt =====
-- Tables of rows as lists: search, update in place, and what an update leaves alone.
use Prim.Native.Nat.{ℕ, suc, ◌+◌}
use mathlib.Core.Path.{◌≡◌, refl, ap}
use mathlib.Core.Logic.{◌⊎◌, inl, inr}
use mathlib.Core.Bool.{Bool, true, false}
use mathlib.Core.Option.{Option, none, some}
use mathlib.Core.List.{List, [], ◌∷◌, ◌++◌}
use native.Mathlib.Omega.{arith}
use athome_japan_agent_harne.Common.Checks.{if◌then◌else◌, Bool-cases}

-- The empty type at each level.
pub data Void {ℓ} : Type ℓ where

module _ {ℓ} {A : Type ℓ} where
  abbrev pub length : List A → ℕ
  length [] = 0
  length (x ∷ xs) = suc (length xs)

  -- `SELECT … WHERE p` with one row fetched
  abbrev pub find : (A → Bool) → List A → Option A
  find p [] = none
  find p (x ∷ xs) = if p x then some x else find p xs

  abbrev pub any : (A → Bool) → List A → Bool
  any p [] = false
  any p (x ∷ xs) = if p x then true else any p xs

  abbrev pub keep : (A → Bool) → List A → List A
  keep p [] = []
  keep p (x ∷ xs) = let rest = keep p xs in if p x then x ∷ rest else rest

  -- `UPDATE … SET f WHERE p`
  abbrev pub update : (A → Bool) → (A → A) → List A → List A
  update p f [] = []
  update p f (x ∷ xs) = (if p x then f x else x) ∷ update p f xs

  -- A predicate of every element, by recursion.
  abbrev pub All {κ} : (A → Type κ) → List A → Type κ
  All P [] = Unit
  All P (x ∷ xs) = P x × All P xs

  -- The element occurs in the list.
  abbrev pub In : A → List A → Type ℓ
  In a [] = Void
  In a (x ∷ xs) = (a ≡ x) ⊎ In a xs

  pub length-append : (xs ys : List A) → length (xs ++ ys) ≡ length xs + length ys
  length-append [] ys = omega arith
  length-append (x ∷ xs) ys = omega (arith, length-append xs ys)

  pub length-update : (p : A → Bool) (f : A → A) (xs : List A) → length (update p f xs) ≡ length xs
  length-update p f [] = refl
  length-update p f (x ∷ xs) = ap suc (length-update p f xs)

  pub find-holds : (p : A → Bool) (xs : List A) (a : A) → find p xs ≡ some a → p a ≡ true
  find-holds p [] a h = cc
  find-holds p (x ∷ xs) a h = ground (arith, find-holds p xs a)

  pub find-none : (p : A → Bool) (xs : List A) → find p xs ≡ none → All (λ a. p a ≡ false) xs
  find-none p [] h = tt
  find-none p (x ∷ xs) h = elim (Bool-cases (p x)) [
    | inl e ↦ absurd (let hit : some x ≡ none = rw e at h in cc)
    | inr e ↦ (e, find-none p xs (rw e at h))
  ]

  pub any-false : (p : A → Bool) (xs : List A) → any p xs ≡ false → All (λ a. p a ≡ false) xs
  any-false p [] h = tt
  any-false p (x ∷ xs) h = elim (Bool-cases (p x)) [
    | inl e ↦ let hit : true ≡ false = rw e at h in cc
    | inr e ↦ (e, any-false p xs (rw e at h))
  ]

  pub any-In : (p : A → Bool) (xs : List A) (a : A) → In a xs → p a ≡ true → any p xs ≡ true
  any-In p [] a m h = elim m [ ]
  any-In p (x ∷ xs) a (inl e) h = let here : p x ≡ true = rw (← e) h in rw here refl
  any-In p (x ∷ xs) a (inr m) h = elim (Bool-cases (p x)) [
    | inl e ↦ rw e refl
    | inr e ↦ rw e (any-In p xs a m h)
  ]

  pub find-In : (p : A → Bool) (xs : List A) (a : A) → find p xs ≡ some a → In a xs
  find-In p [] a h = cc
  find-In p (x ∷ xs) a h = elim (Bool-cases (p x)) [
    | inl e ↦ let hit : some x ≡ some a = rw e at h in inl (cc)
    | inr e ↦ inr (find-In p xs a (rw e at h))
  ]

module _ {ℓ κ} {A : Type ℓ} (P : A → Type κ) where
  pub All-find : (p : A → Bool) (xs : List A) (a : A) → All P xs → find p xs ≡ some a → P a
  All-find p [] a all h = cc
  All-find p (x ∷ xs) a (px, rest) h = elim (Bool-cases (p x)) [
    | inl e ↦ let here : x ≡ a = ground arith in rw (← here) px
    | inr e ↦ All-find p xs a rest (ground arith)
  ]

  pub All-append : (xs ys : List A) → All P xs → All P ys → All P (xs ++ ys)
  All-append [] ys _ h = h
  All-append (x ∷ xs) ys (px, rest) h = (px, All-append xs ys rest h)

  pub All-In : (xs : List A) (a : A) → All P xs → In a xs → P a
  All-In [] a all h = elim h [ ]
  All-In (x ∷ xs) a (px, rest) (inl e) = rw e px
  All-In (x ∷ xs) a (px, rest) (inr h) = All-In xs a rest h

  pub All-update :
      (p : A → Bool) (f : A → A)
      → ((a : A) → p a ≡ true → P a → P (f a))
      → (xs : List A) → All P xs
      → All P (update p f xs)
  All-update p f keeps [] all = tt
  All-update p f keeps (x ∷ xs) (px, rest) = elim (Bool-cases (p x)) [
    | inl e ↦ (rw e (keeps x e px), All-update p f keeps xs rest)
    | inr e ↦ (rw e px, All-update p f keeps xs rest)
  ]

module _ {ℓ κ μ} {A : Type ℓ} {P : A → Type κ} {Q : A → Type μ} where
  pub All-imp : ((a : A) → P a → Q a) → (xs : List A) → All P xs → All Q xs
  All-imp imp [] all = tt
  All-imp imp (x ∷ xs) (px, rest) = (imp x px, All-imp imp xs rest)
