-- ===== src/Cli/Commands.antt =====
-- cli.py, `parse_command`, on texts as lists of code points.
pub mod Ranks
mod Tests
use athome_japan_agent_harne.Common.{
  ℕ, zero, suc, ◌+◌, ◌*◌, ◌-◌, String, Bool, true, false, ◌&&◌, ◌||◌, Option, none, some, List, [],
  ◌∷◌, leb, eqb, if◌then◌else◌, Result, ok, err, any,
}
use athome_japan_agent_harne.Common.Texts.{codes_of, strip, lower, same_codes, is_prefix}

abbrev pub Text : Type 0
Text = List ℕ

pub data Command : Type 0 where
  quit : Command
  save reject more_like : ℕ → Command
  refine : Text → Command
  search : Option Text → Command

pub data CommandError : Type 0 where
  value_error : CommandError

abbrev pub is_ascii_digit : ℕ → Bool
is_ascii_digit c = leb 48 c && leb c 57

abbrev pub is_wide_digit : ℕ → Bool
is_wide_digit c = leb 65296 c && leb c 65305

-- `str.isdigit` of one character: ASCII and full-width digits, and the superscripts two, three and one.
-- The digits of other scripts are left out.
abbrev pub is_digit : ℕ → Bool
is_digit c = is_ascii_digit c || is_wide_digit c || eqb c 178 || eqb c 179 || eqb c 185

abbrev pub all_digits : Text → Bool
all_digits [] = true
all_digits (c ∷ cs) = is_digit c && all_digits cs

-- `text.isdigit()`
abbrev pub is_number : Text → Bool
is_number [] = false
is_number (c ∷ cs) = all_digits (c ∷ cs)

-- `int(text)` of a text of digits, which refuses superscripts
unfoldable pub int_from : ℕ → Text → Result CommandError ℕ
int_from n [] = ok n
int_from n (c ∷ cs) =
    let ascii = int_from (n * 10 + (c - 48)) cs in
    let wide = int_from (n * 10 + (c - 65296)) cs in
    if is_ascii_digit c then ascii else if is_wide_digit c then wide else err value_error

-- `text[n:]`
abbrev pub drop : ℕ → Text → Text
drop zero cs = cs
drop (suc n) [] = []
drop (suc n) (c ∷ cs) = drop n cs

-- `lower.startswith(prefix)` and then the stripped tail
abbrev pub tail_after : ℕ → String → Text → Option Text
tail_after size prefix stripped =
    if is_prefix (codes_of prefix) (lower stripped) then some (strip (drop size stripped)) else none

abbrev pub ranked : (ℕ → Command) → Result CommandError ℕ → Result CommandError Command
ranked verb (ok n) = ok (verb n)
ranked verb (err e) = err e

-- A verb with a number, or else what follows in the code.
abbrev pub with_rank :
    (ℕ → Command) → Option Text → Result CommandError Command → Result CommandError Command
with_rank verb none rest = rest
with_rank verb (some tail) rest = if is_number tail then ranked verb (int_from 0 tail) else rest

abbrev pub with_clause : Option Text → Result CommandError Command → Result CommandError Command
with_clause none rest = rest
with_clause (some []) rest = rest
with_clause (some (c ∷ cs)) rest = ok (refine (c ∷ cs))

abbrev pub searched : Text → Command
searched [] = search none
searched (c ∷ cs) = search (some (c ∷ cs))

abbrev pub is_quit : Text → Bool
is_quit lowered = any (λ (w : String). same_codes (codes_of w) lowered) ("quit" ∷ "exit" ∷ "q" ∷ [])

unfoldable pub parse_command : Text → Result CommandError Command
unfolding int_from
parse_command text =
    let stripped = strip text in
    if is_quit (lower stripped)
    then ok quit
    else with_rank save (tail_after 5 "save " stripped) (
        with_rank reject (tail_after 7 "reject " stripped) (
          with_rank more_like (tail_after 10 "more like " stripped)
            (with_clause (tail_after 6 "refine" stripped) (ok (searched stripped)))))
