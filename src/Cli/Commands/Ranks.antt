-- ===== src/Cli/Commands/Ranks.antt =====
-- What `parse_command` of cli.py makes of a verb and a number.
use athome_japan_agent_harne.Common.{
  ℕ, ◌+◌, ◌*◌, ◌-◌, ◌≡◌, refl, String, true, false, [], ◌∷◌, ◌++◌, arith, ◌≢◌, Option, none, some,
  inl, inr, Bool-cases, Result, ok, err, All,
}
use athome_japan_agent_harne.Common.Texts.{codes_of, strip, lower, is_space, drop_end}
use athome_japan_agent_harne.Cli.Commands.{
  Text, Command, save, reject, more_like, CommandError, is_ascii_digit, all_digits, int_from,
  with_rank, with_clause, searched, is_number, is_quit, quit, search, tail_after, ranked,
  parse_command,
}

abbrev pub IsDigit : ℕ → Type 0
IsDigit c = is_ascii_digit c ≡ true

-- The value of decimal digits read after those of `n`.
abbrev pub decimal_from : ℕ → Text → ℕ
decimal_from n [] = n
decimal_from n (c ∷ cs) = decimal_from (n * 10 + (c - 48)) cs

digit_is_no_space : (c : ℕ) → IsDigit c → is_space c ≡ false
digit_is_no_space c h = ground arith

all_digits_lem : (ds : Text) → All IsDigit ds → all_digits ds ≡ true
all_digits_lem [] all = refl
all_digits_lem (c ∷ cs) (h, all) = rw (h, all_digits_lem cs all) refl

drop_end-digits : (ds : Text) → All IsDigit ds → drop_end ds ≡ ds
drop_end-digits [] all = refl
drop_end-digits (c ∷ []) (h, all) = rw (digit_is_no_space c h) refl
drop_end-digits (c ∷ d ∷ ds) (h, all) = rw (drop_end-digits (d ∷ ds) all) refl

int_from-digits : (n : ℕ) (ds : Text) → All IsDigit ds → int_from n ds ≡ ok (decimal_from n ds)
unfolding int_from
int_from-digits n [] all = refl
int_from-digits n (c ∷ cs) (h, all) = rw h (int_from-digits (n * 10 + (c - 48)) cs all)

pub data Verb : Type 0 where
  saving rejecting liking : Verb

-- The text of a verb as the prompt shows it, and its command.
abbrev pub prompt : Verb → String
prompt saving = "save "
prompt rejecting = "reject "
prompt liking = "more like "

abbrev pub command : Verb → ℕ → Command
command saving n = save n
command rejecting n = reject n
command liking n = more_like n

module _ (d : ℕ) (ds : Text) (all : All IsDigit (d ∷ ds)) where
  strip-digits : strip (d ∷ ds) ≡ d ∷ ds
  strip-digits = rw (digit_is_no_space d all.0) (drop_end-digits (d ∷ ds) all)

  with_rank-digits :
      (verb : ℕ → Command) (rest : Result CommandError Command)
      → with_rank verb (some (d ∷ ds)) rest ≡ ok (verb (decimal_from 0 (d ∷ ds)))
  with_rank-digits verb rest = rw (all_digits_lem (d ∷ ds) all, int_from-digits 0 (d ∷ ds) all) refl

-- A verb that takes a rank, followed by one or more decimal digits, is parsed as that verb with the number
-- that the digits write.
pub parse_command-rank :
    (v : Verb) (d : ℕ) (ds : Text)
    → All IsDigit (d ∷ ds)
    → parse_command (codes_of (prompt v) ++ d ∷ ds) ≡ ok (command v (decimal_from 0 (d ∷ ds)))
unfolding parse_command
parse_command-rank saving d ds all =
    rw (drop_end-digits (d ∷ ds) all, strip-digits d ds all) (with_rank-digits d ds all save _)
parse_command-rank rejecting d ds all =
    rw (drop_end-digits (d ∷ ds) all, strip-digits d ds all) (with_rank-digits d ds all reject _)
parse_command-rank liking d ds all =
    rw (drop_end-digits (d ∷ ds) all, strip-digits d ds all) (with_rank-digits d ds all more_like _)

-- What is not one of the verbs with a rank falls through to the rest.
with_rank-other :
    (verb : ℕ → Command) (o : Option Text) (rest : Result CommandError Command) (c : Command)
    → ((n : ℕ) → verb n ≢ c)
    → with_rank verb o rest ≡ ok c
    → rest ≡ ok c
with_rank-other verb none rest c other h = h
with_rank-other verb (some tail) rest c other h = elim (Bool-cases (is_number tail)) [
  | inl e ↦ absurd (ranked_other (int_from 0 tail) (rw e at h))
  | inr e ↦ rw e at h
]
  where
    ranked_other : (r : Result CommandError ℕ) → ranked verb r ≡ ok c → ⊥
    ranked_other (ok n) h = other n (cc)
    ranked_other (err e) h = cc

with_clause-search :
    (o : Option Text) (stripped : Text) (q : Option Text)
    → with_clause o (ok (searched stripped)) ≡ ok (search q)
    → searched stripped ≡ search q
with_clause-search none stripped q h = cc
with_clause-search (some []) stripped q h = cc
with_clause-search (some (c ∷ cs)) stripped q h = absurd (cc)

-- A line that is parsed as a search is searched for as a whole, without the space around it, and a search
-- for nothing is parsed from blank lines only.
pub parse_command-search :
    (text : Text) (q : Option Text)
    → parse_command text ≡ ok (search q)
    → searched (strip text) ≡ search q
unfolding parse_command
parse_command-search text q h = elim (Bool-cases (is_quit (lower (strip text)))) [
  | inl e ↦
      let bad : Path (Result CommandError Command) (ok quit) (ok (search q)) = rw e at h in
      absurd (cc)
  | inr e ↦
      let stripped = strip text in
      let clause = with_clause (tail_after 6 "refine" stripped) (ok (searched stripped)) in
      let like = with_rank more_like (tail_after 10 "more like " stripped) clause in
      let rejected = with_rank reject (tail_after 7 "reject " stripped) like in
      with_clause-search (tail_after 6 "refine" stripped) stripped q (
        with_rank-other more_like (tail_after 10 "more like " stripped) clause (search q)
          (λ n b. cc)
          (with_rank-other reject (tail_after 7 "reject " stripped) like (search q) (λ n b. cc)
            (with_rank-other save (tail_after 5 "save " stripped) rejected (search q) (λ n b. cc)
              (rw e at h))))
]
