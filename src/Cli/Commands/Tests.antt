-- ===== src/Cli/Commands/Tests.antt =====
-- Runs of `parse_command` of cli.py.
use athome_japan_agent_harne.Common.{◌≡◌, refl, some, [], ◌∷◌, ◌++◌, ok, err}
use athome_japan_agent_harne.Common.Texts.{codes_of}
use athome_japan_agent_harne.Cli.Commands.{refine, search, value_error, parse_command, int_from}
use athome_japan_agent_harne.Cli.Commands.Ranks.{
  saving, prompt, command, decimal_from, parse_command-rank,
}

parse_command-rank_example :
    parse_command (codes_of (prompt saving) ++ 49 ∷ 50 ∷ [])
    ≡ ok (command saving (decimal_from 0 (49 ∷ 50 ∷ [])))
parse_command-rank_example = parse_command-rank saving 49 (50 ∷ []) (refl, (refl, tt))

osaka : parse_command (codes_of " Osaka ") ≡ ok (search (some (codes_of "Osaka")))
unfolding parse_command
osaka = refl

-- A superscript is a digit, and no numeral.
superscript : parse_command (codes_of "save ²") ≡ err value_error
unfolding parse_command int_from
superscript = refl

-- A query that begins like the verb is taken for it.
refined : parse_command (codes_of "Refined flat") ≡ ok (refine (codes_of "d flat"))
unfolding parse_command
refined = refl
