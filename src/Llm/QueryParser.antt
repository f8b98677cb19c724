-- ===== src/Llm/QueryParser.antt =====
-- llm/query_parser.py over the provider and the filter map.
pub mod Codes
pub mod Lossless
mod Tests
use Prim.Native.String.{◌++◌ as ◌+ˢ◌}
use athome_japan_agent_harne.Common.{
  ℕ, String, ◌==◌, Bool, true, false, Option, none, some, List, [], ◌∷◌, ◌++◌, if◌then◌else◌,
  Result, ok, err, find, map,
}
use athome_japan_agent_harne.Common.Dict.{Dict, get, put}
use athome_japan_agent_harne.Filters.Encoder.{SearchPlan, FilterOption, FilterMap}
use athome_japan_agent_harne.Llm.Completion.{LlmUsage, Llm, LlmError, Transport, complete_json}

pub record ParserOutput : Type 0 where
  pub flow : String
  pub prefecture : String
  pub cities : List String
  pub ambiguous : Bool
  pub clarification_question : Option String
  pub hard_filters : Dict (List String)
  pub soft_prefs : List String

-- `mappings.get(flow, {})`
abbrev pub fields_of : Option (Dict (List FilterOption)) → Dict (List FilterOption)
fields_of none = []
fields_of (some fields) = fields

abbrev pub has_label : String → FilterOption → Bool
has_label label o = o.label == label

-- `next((opt.code for opt in options if opt.label == label), None)`, and `None` without options
abbrev pub option_for : Option (List FilterOption) → String → Option FilterOption
option_for none label = none
option_for (some options) label = find (has_label label) options

abbrev pub demoted : (field_name label : String) → String
demoted field_name label = field_name +ˢ (": " +ˢ label)

-- One label: the codes resolved so far, and the soft preferences so far.
abbrev pub place :
    (field_name label : String)
    → Option FilterOption
    → List String × List String
    → List String × List String
place field_name label none (resolved, soft) = (resolved, soft ++ demoted field_name label ∷ [])
place field_name label (some o) (resolved, soft) = (resolved ++ o.code ∷ [], soft)

-- `for label in labels`
unfoldable pub resolve_labels :
    String
    → Option (List FilterOption)
    → List String
    → List String × List String
    → List String × List String
resolve_labels field_name options [] state = state
resolve_labels field_name options (label ∷ labels) state =
    resolve_labels field_name options labels
      (place field_name label (option_for options label) state)

-- `if resolved: hard[field_name] = resolved`
abbrev pub add_resolved : String → List String → Dict (List String) → Dict (List String)
add_resolved field_name [] hard = hard
add_resolved field_name (c ∷ codes) hard = put field_name (c ∷ codes) hard

-- `for field_name, labels in output.hard_filters.items()`
unfoldable pub resolve_fields :
    Dict (List FilterOption)
    → Dict (List String)
    → Dict (List String) × List String
    → Dict (List String) × List String
unfolding resolve_labels
resolve_fields fields [] state = state
resolve_fields fields ((field_name, labels) ∷ hard_filters) (hard, soft) =
    let (resolved, softer) = resolve_labels field_name (get field_name fields) labels ([], soft) in
    resolve_fields fields hard_filters (add_resolved field_name resolved hard, softer)

-- `_resolve_plan`, of a flow that is given
unfoldable pub resolve_plan : ParserOutput → FilterMap → String → SearchPlan
unfolding resolve_fields
resolve_plan output filter_map flow =
    let (hard, soft) =
      resolve_fields (fields_of (get flow filter_map.mappings)) output.hard_filters
        ([], output.soft_prefs) in
    record {
      flow = flow;
      prefecture = output.prefecture;
      cities = output.cities;
      hard_filters = hard;
      soft_prefs = soft;
    }

abbrev option_text : FilterOption → String
option_text o = o.label +ˢ (" (" +ˢ (o.code +ˢ ")"))

-- `separator.join(texts)`
abbrev pub join : String → List String → String
join separator [] = ""
join separator (t ∷ []) = t
join separator (t ∷ u ∷ texts) = t +ˢ (separator +ˢ join separator (u ∷ texts))

abbrev field_text : String × List FilterOption → String
field_text (field_name, options) = field_name +ˢ (": " +ˢ join ", " (map option_text options))

abbrev summary_of : Dict (List FilterOption) → String → String
summary_of [] flow = "(no filters available for flow " +ˢ (flow +ˢ ")")
summary_of (f ∷ fields) flow = join "\n" (map field_text (f ∷ fields))

unfoldable pub build_filter_map_summary : FilterMap → String → String
build_filter_map_summary filter_map flow =
    summary_of (fields_of (get flow filter_map.mappings)) flow

-- What leaves `parse`: `ClarificationNeeded` with its question, or an error of the provider.
pub data ParseError : Type 0 where
  clarification_needed : String → ParseError
  llm_error : LlmError → ParseError

-- `output.clarification_question or "…"`
abbrev pub question_of : Option String → String
question_of none = "Please clarify your search intent."
question_of (some q) = if q == "" then "Please clarify your search intent." else q

abbrev pub Parse : Type 0
Parse = Result ParseError SearchPlan × Llm

-- From the intent on; the detected flow is used whatever the intent's is.
abbrev pub after_intent :
    FilterMap → String → Result LlmError (ParserOutput × LlmUsage) × Llm → Parse
after_intent filter_map flow (err e, p) = (err (llm_error e), p)
after_intent filter_map flow (ok (output, usage), p) =
    if output.ambiguous
    then (err (clarification_needed (question_of output.clarification_question)), p)
    else (ok (resolve_plan output filter_map flow), p)

module _ (complete_text : Transport) (extract_flow : String → Option String)
    (extract_intent : String → Option ParserOutput)
    (repair_flow repair_intent : (user completion : String) → String) (system_prompt : String)
    (filter_map : FilterMap) where
  abbrev pub after_flow : String → Result LlmError (String × LlmUsage) × Llm → Parse
  after_flow query (err e, p) = (err (llm_error e), p)
  after_flow query (ok (flow, usage), p) = after_intent filter_map flow (
      complete_json complete_text extract_intent repair_intent
        (system_prompt +ˢ ("\n\nFilter map summary:\n" +ˢ build_filter_map_summary filter_map flow))
        ("Query: " +ˢ (query +ˢ "\n\nReturn the search intent as JSON.")) p)

  -- `QueryParser.parse`
  unfoldable pub parse : String → Llm → Parse
  unfolding resolve_plan build_filter_map_summary complete_json
  parse query p = after_flow query (
      complete_json complete_text extract_flow repair_flow
        "Return the search flow: rent for rental listings, buy for purchase listings."
        ("Query: " +ˢ (query +ˢ "\n\nReturn JSON with a single field 'flow'.")) p)
