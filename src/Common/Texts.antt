-- ===== src/Common/Texts.antt =====
-- Python's texts as lists of code points.
use Prim.Native.Char.{code}
use Prim.Native.String.{String, [] as empty, ◌∷◌ as ◌∷ˢ◌}
use Prim.Native.Nat.{ℕ, ◌+◌}
use mathlib.Core.Bool.{Bool, true, false, ◌&&◌, ◌||◌}
use mathlib.Core.List.{List, [], ◌∷◌}
use athome_japan_agent_harne.Common.Checks.{leb, eqb, if◌then◌else◌}

abbrev pub codes_of : String → List ℕ
codes_of empty = []
codes_of (ch ∷ˢ rest) = code ch ∷ codes_of rest

-- `str.isspace` of one character
abbrev pub is_space : ℕ → Bool
is_space c =
    (leb 9 c && leb c 13)
    || (leb 28 c && leb c 32)
    || eqb c 133
    || eqb c 160
    || eqb c 5760
    || (leb 8192 c && leb c 8202)
    || eqb c 8232
    || eqb c 8233
    || eqb c 8239
    || eqb c 8287
    || eqb c 12288

abbrev pub drop_space : List ℕ → List ℕ
drop_space [] = []
drop_space (c ∷ cs) = if is_space c then drop_space cs else c ∷ cs

abbrev pub before_end : ℕ → List ℕ → List ℕ
before_end c [] = if is_space c then [] else c ∷ []
before_end c (d ∷ ds) = c ∷ d ∷ ds

abbrev pub drop_end : List ℕ → List ℕ
drop_end [] = []
drop_end (c ∷ cs) = before_end c (drop_end cs)

-- `text.strip()`
abbrev pub strip : List ℕ → List ℕ
strip cs = drop_end (drop_space cs)

-- `text.lower()`, as far as it makes an ASCII letter: A to Z, the Kelvin sign, and the dotted I, which
-- becomes two characters. Other letters stay.
abbrev pub lower : List ℕ → List ℕ
lower [] = []
lower (c ∷ cs) =
    let rest = lower cs in
    if leb 65 c && leb c 90
    then (c + 32) ∷ rest
    else if eqb c 8490
    then 107 ∷ rest
    else if eqb c 304
    then 105 ∷ 775 ∷ rest
    else c ∷ rest

abbrev pub same_codes : List ℕ → List ℕ → Bool
same_codes [] [] = true
same_codes (c ∷ cs) (d ∷ ds) = eqb c d && same_codes cs ds
same_codes _ _ = false

-- `text.startswith(prefix)`, the prefix first
abbrev pub is_prefix : List ℕ → List ℕ → Bool
is_prefix [] cs = true
is_prefix (d ∷ ds) [] = false
is_prefix (d ∷ ds) (c ∷ cs) = eqb c d && is_prefix ds cs

-- `marker in text`
abbrev pub occurs_in : List ℕ → List ℕ → Bool
occurs_in marker [] = is_prefix marker []
occurs_in marker (c ∷ cs) = if is_prefix marker (c ∷ cs) then true else occurs_in marker cs
