-- ===== src/Llm/QueryParser/Codes.antt =====
-- The codes of a plan that llm/query_parser.py resolves are those of the filter map's options.
use Prim.Native.String.{◌++◌ as ◌+ˢ◌}
use athome_japan_agent_harne.Common.{
  All-imp, String, ◌≡◌, refl, ◌==◌, true, Option, none, some, List, [], ◌∷◌, inl, inr, Result, ok,
  err, any, All, All-append, any-In, find-In, Bool-cases, eq_refl, arith, eq_iff,
}
use athome_japan_agent_harne.Common.Dict.{Dict, get, put}
use athome_japan_agent_harne.Filters.Encoder.{
  SearchPlan, FilterOption, FilterMap, has_code, field_options, require_known_code,
  require_known_codes,
}
use athome_japan_agent_harne.Llm.Completion.{LlmUsage, Llm, LlmError, Transport, complete_json}
use athome_japan_agent_harne.Llm.QueryParser.{
  ParserOutput, fields_of, has_label, option_for, place, resolve_labels, add_resolved,
  resolve_fields, resolve_plan, after_intent, after_flow, parse, ParseError, clarification_needed,
  question_of, build_filter_map_summary,
}

module _ (fields : Dict (List FilterOption)) where
  -- The field has options, and one of them has the code.
  abbrev pub IsOption : String → String → Type 0
  IsOption field_name code =
      (options : List FilterOption) × (get field_name fields ≡ some options)
      × (any (has_code code) options ≡ true)

  place-IsOption :
      (field_name label : String) (o : Option FilterOption) (state : List String × List String)
      → option_for (get field_name fields) label ≡ o
      → All (IsOption field_name) state.0
      → All (IsOption field_name) (place field_name label o state).0
  place-IsOption field_name label none state e all = all
  place-IsOption field_name label (some o) state e all =
      All-append (IsOption field_name) state.0 (o.code ∷ []) all
        (option_of (get field_name fields) refl e, tt)
    where
      option_of :
          (options : Option (List FilterOption))
          → get field_name fields ≡ options
          → option_for options label ≡ some o
          → IsOption field_name o.code
      option_of none there found = absurd (cc)
      option_of (some options) there found = (
        options,
        there,
        any-In (has_code o.code) options o (find-In (has_label label) options o found)
            (eq_refl o.code),
      )

  resolve_labels-IsOption :
      (field_name : String) (labels : List String) (state : List String × List String)
      → All (IsOption field_name) state.0
      → All (IsOption field_name) (resolve_labels field_name (get field_name fields) labels state).0
  unfolding resolve_labels
  resolve_labels-IsOption field_name [] state all = all
  resolve_labels-IsOption field_name (label ∷ labels) state all =
      let o = option_for (get field_name fields) label in
      resolve_labels-IsOption field_name labels (place field_name label o state)
        (place-IsOption field_name label o state refl all)

  -- Every code of the entry is an option of its field.
  abbrev pub IsEntry : String × List String → Type 0
  IsEntry (field_name, codes) = All (IsOption field_name) codes

  put-IsEntry :
      (field_name : String) (codes : List String) (hard : Dict (List String))
      → All (IsOption field_name) codes
      → All IsEntry hard
      → All IsEntry (put field_name codes hard)
  put-IsEntry field_name codes [] known all = (known, tt)
  put-IsEntry field_name codes ((k, old) ∷ hard) known (first, all) =
      elim (Bool-cases (k == field_name)) [
        | inl e ↦
            let same : field_name ≡ k = ground (arith, eq_iff k field_name) in
            rw e (rw same at known, all)
        | inr e ↦ rw e (first, put-IsEntry field_name codes hard known all)
      ]

  add_resolved-IsEntry :
      (field_name : String) (codes : List String) (hard : Dict (List String))
      → All (IsOption field_name) codes
      → All IsEntry hard
      → All IsEntry (add_resolved field_name codes hard)
  add_resolved-IsEntry field_name [] hard known all = all
  add_resolved-IsEntry field_name (c ∷ codes) hard known all =
      put-IsEntry field_name (c ∷ codes) hard known all

  resolve_fields-IsEntry :
      (hard_filters : Dict (List String)) (state : Dict (List String) × List String)
      → All IsEntry state.0
      → All IsEntry (resolve_fields fields hard_filters state).0
  unfolding resolve_fields
  resolve_fields-IsEntry [] state all = all
  resolve_fields-IsEntry ((field_name, labels) ∷ hard_filters) (hard, soft) all =
      let (resolved, softer) =
        resolve_labels field_name (get field_name fields) labels ([], soft) in
      resolve_fields-IsEntry hard_filters (add_resolved field_name resolved hard, softer)
        (add_resolved-IsEntry field_name resolved hard
          (resolve_labels-IsOption field_name labels ([], soft) tt) all)

known_code :
    (flow field_name code : String) (filter_map : FilterMap) (m : Option (Dict (List FilterOption)))
    → get flow filter_map.mappings ≡ m
    → IsOption (fields_of m) field_name code
    → require_known_code flow field_name code filter_map ≡ ok tt
unfolding require_known_code field_options
known_code flow field_name code filter_map none e (options, there, hit) = absurd (cc)
known_code flow field_name code filter_map (some fields) e (options, there, hit) =
    simp (e, there, hit) refl

known_codes :
    (flow field_name : String) (codes : List String) (filter_map : FilterMap)
    → All (IsOption (fields_of (get flow filter_map.mappings)) field_name) codes
    → require_known_codes flow field_name codes filter_map ≡ ok tt
unfolding require_known_codes
known_codes flow field_name [] filter_map all = refl
known_codes flow field_name (c ∷ codes) filter_map (known, all) =
    rw
      (
        known_code flow field_name c filter_map (get flow filter_map.mappings) refl known,
        known_codes flow field_name codes filter_map all,
      )
      refl

-- The encoder knows every code of the plan's hard filters.
abbrev pub IsKnown : FilterMap → SearchPlan → Type 0
IsKnown filter_map plan =
    All (λ (f : String × List String). require_known_codes plan.flow f.0 f.1 filter_map ≡ ok tt)
      plan.hard_filters

resolve_plan-IsKnown :
    (output : ParserOutput) (filter_map : FilterMap) (flow : String)
    → IsKnown filter_map (resolve_plan output filter_map flow)
unfolding resolve_plan
resolve_plan-IsKnown output filter_map flow =
    let fields = fields_of (get flow filter_map.mappings) in
    let hard = (resolve_fields fields output.hard_filters ([], output.soft_prefs)).0 in
    All-imp (λ f all. known_codes flow f.0 f.1 filter_map all) hard
      (resolve_fields-IsEntry fields output.hard_filters ([], output.soft_prefs) tt)

after_intent-IsKnown :
    (filter_map : FilterMap) (flow : String) (r : Result LlmError (ParserOutput × LlmUsage) × Llm)
    (plan : SearchPlan)
    → (after_intent filter_map flow r).0 ≡ ok plan
    → IsKnown filter_map plan × (plan.flow ≡ flow)
unfolding resolve_plan
after_intent-IsKnown filter_map flow (err e, p) plan h = absurd (cc)
after_intent-IsKnown filter_map flow (ok (output, usage), p) plan h =
    elim (Bool-cases output.ambiguous) [
      | inl e ↦
          let bad : Path (Result ParseError SearchPlan)
              (err (clarification_needed (question_of output.clarification_question))) (ok plan) =
            simp e at h in
          absurd (cc)
      | inr e ↦
          let good : ok (resolve_plan output filter_map flow) ≡ ok plan = simp e at h in
          let same : resolve_plan output filter_map flow ≡ plan = cc in
          rw (← same) (resolve_plan-IsKnown output filter_map flow, refl)
    ]

-- Every code in the hard filters of a plan that `parse` returns is one that the encoder finds in the filter
-- map under the filter's name and the plan's flow, whatever labels the model answered with.
pub parse-IsKnown :
    (complete_text : Transport) (extract_flow : String → Option String)
    (extract_intent : String → Option ParserOutput)
    (repair_flow repair_intent : (user completion : String) → String) (system_prompt : String)
    (filter_map : FilterMap) (query : String) (p : Llm) (plan : SearchPlan)
    → (parse complete_text extract_flow extract_intent repair_flow repair_intent system_prompt
        filter_map query p).0
      ≡ ok plan
    → IsKnown filter_map plan
unfolding parse
parse-IsKnown complete_text extract_flow extract_intent repair_flow repair_intent system_prompt
      filter_map query p plan h =
    from_flow
      (complete_json complete_text extract_flow repair_flow
        "Return the search flow: rent for rental listings, buy for purchase listings."
        ("Query: " +ˢ (query +ˢ "\n\nReturn JSON with a single field 'flow'.")) p)
      h
  where
    from_flow :
        (r : Result LlmError (String × LlmUsage) × Llm)
        → (after_flow complete_text extract_flow extract_intent repair_flow repair_intent
            system_prompt filter_map query r).0
          ≡ ok plan
        → IsKnown filter_map plan
    from_flow (err e, q) h = absurd (cc)
    from_flow (ok (flow, usage), q) h =
        (after_intent-IsKnown filter_map flow
          (complete_json complete_text extract_intent repair_intent
            (system_prompt
              +ˢ ("\n\nFilter map summary:\n" +ˢ build_filter_map_summary filter_map flow))
            ("Query: " +ˢ (query +ˢ "\n\nReturn the search intent as JSON.")) q)
          plan h).0
