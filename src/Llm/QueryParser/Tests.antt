-- ===== src/Llm/QueryParser/Tests.antt =====
-- Runs of llm/base.py and llm/query_parser.py on a map of one filter, with a model that answers badly first.
use athome_japan_agent_harne.Common.{
  zero, suc, String, ◌≡◌, refl, false, Option, none, some, [], ◌∷◌, ok, ◌==◌, if◌then◌else◌,
}
use athome_japan_agent_harne.Common.Dict.{get}
use athome_japan_agent_harne.Filters.Encoder.{FilterMap, SearchPlan}
use athome_japan_agent_harne.Llm.Completion.{LlmUsage, Llm, Transport, complete_json}
use athome_japan_agent_harne.Llm.Completion.Bounded.{CompletionPair, complete_json-IsCompletion}
use athome_japan_agent_harne.Llm.QueryParser.{
  ParserOutput, fields_of, resolve_plan, resolve_fields, resolve_labels, parse,
}
use athome_japan_agent_harne.Llm.QueryParser.Codes.{IsKnown, parse-IsKnown}
use athome_japan_agent_harne.Llm.QueryParser.Lossless.{KeepsAnswer, resolve_plan-Kept}

abbrev used : LlmUsage
used = record { prompt_tokens = 10; completion_tokens = 2 }

abbrev transport : Transport
transport zero system user = some ("oops", used)
transport (suc n) system user = some ("rent", used)

abbrev extract_flow : String → Option String
extract_flow text = if text == "rent" then some "rent" else none

abbrev repair : String → String → String
repair user completion = user

abbrev unused : Llm
unused = record { total_usage = record { prompt_tokens = 0; completion_tokens = 0 }; calls = 0 }

complete_json-IsCompletion_example :
    CompletionPair transport extract_flow repair unused
      (complete_json transport extract_flow repair "s" "u" unused)
complete_json-IsCompletion_example =
    complete_json-IsCompletion transport extract_flow repair "s" "u" unused

abbrev filter_map : FilterMap
filter_map = record {
  version = 1;
  content_hash = "h";
  mappings =
      (
        "rent",
        (
          "layout",
          record { code = "kr001"; label = "1R" } ∷ record { code = "kr002"; label = "1K" } ∷ [],
        )
            ∷ [],
      )
      ∷ [];
}

abbrev answer : ParserOutput
answer = record {
  flow = "rent";
  prefecture = "tokyo";
  cities = [];
  ambiguous = false;
  clarification_question = none;
  hard_filters = ("layout", "1K" ∷ "9LDK" ∷ []) ∷ [];
  soft_prefs = "quiet" ∷ [];
}

abbrev extract_intent : String → Option ParserOutput
extract_intent text = some answer

abbrev plan : SearchPlan
plan = record {
  flow = "rent";
  prefecture = "tokyo";
  cities = [];
  hard_filters = ("layout", "kr002" ∷ []) ∷ [];
  soft_prefs = "quiet" ∷ "layout: 9LDK" ∷ [];
}

parsed :
    (parse transport extract_flow extract_intent repair repair "p" filter_map "q" unused).0
    ≡ ok plan
unfolding parse complete_json resolve_plan resolve_fields resolve_labels
parsed = refl

parse-IsKnown_example : IsKnown filter_map plan
parse-IsKnown_example =
    parse-IsKnown transport extract_flow extract_intent repair repair "p" filter_map "q" unused plan
      parsed

resolve_plan-Kept_example :
    KeepsAnswer
      (fields_of (get "rent" filter_map.mappings))
      "rent"
      answer
      (resolve_plan answer filter_map "rent")
resolve_plan-Kept_example = resolve_plan-Kept answer filter_map "rent" (refl, tt)
