-- ===== src/Filters/Encoder/Plan.antt =====
-- `encode_plan` of filters/encoder.py: no guessed code, no dropped filter.
use athome_japan_agent_harne.Common.{
  String, ◌≡◌, List, [], ◌∷◌, ◌++◌, inl, inr, Result, ok, In, All-append, Bool-cases, ◌>>=◌,
  bind-eq-ok, eqb,
}
use athome_japan_agent_harne.Common.Dict.{Dict}
use athome_japan_agent_harne.Filters.Encoder.{
  SearchPlan, FilterMap, Pairs, unsupported_schema_version, encode_field, encode_fields,
  encode_plan,
}
use athome_japan_agent_harne.Filters.Encoder.Known.{IsOption, AreOptions, encode_field-AreOptions}

encode_fields-step :
    (flow name : String) (values : List String) (fields : Dict (List String))
    (filter_map : FilterMap) (params : Pairs)
    → encode_fields flow ((name, values) ∷ fields) filter_map ≡ ok params
    → (pairs : Pairs) × (rest : Pairs) × (encode_field flow name values filter_map ≡ ok pairs)
      × (encode_fields flow fields filter_map ≡ ok rest)
      × (params ≡ pairs ++ rest)
unfolding encode_fields
encode_fields-step flow name values fields filter_map params h =
    let (pairs, first, rest) =
      bind-eq-ok (encode_field flow name values filter_map)
        (λ pairs. encode_fields flow fields filter_map >>= λ rest. ok (pairs ++ rest)) h in
    let (others, second, done) =
      bind-eq-ok (encode_fields flow fields filter_map) (λ rest. ok (pairs ++ rest)) rest in
    (pairs, others, first, second, cc)

encode_fields-AreOptions :
    (flow : String) (fields : Dict (List String)) (filter_map : FilterMap) (params : Pairs)
    → encode_fields flow fields filter_map ≡ ok params
    → AreOptions flow filter_map params
unfolding encode_fields
encode_fields-AreOptions flow [] filter_map params h = let e : params ≡ [] = cc in rw e tt
encode_fields-AreOptions flow ((name, values) ∷ fields) filter_map params h =
    let (pairs, rest, first, second, e) =
      encode_fields-step flow name values fields filter_map params h in
    rw e (
      All-append (λ (p : String × String). IsOption flow filter_map p.1) pairs rest
        (encode_field-AreOptions flow name values filter_map pairs first)
        (encode_fields-AreOptions flow fields filter_map rest second))

-- Each pair of an encoded plan carries the code of an option that the filter map lists for some field
-- of the plan's flow.
pub encode_plan-AreOptions :
    (plan : SearchPlan) (filter_map : FilterMap) (params : Pairs)
    → encode_plan plan filter_map ≡ ok params
    → AreOptions plan.flow filter_map params
unfolding encode_plan
encode_plan-AreOptions plan filter_map params h = elim (Bool-cases (eqb filter_map.version 1)) [
  | inl e ↦ encode_fields-AreOptions plan.flow plan.hard_filters filter_map params (rw e at h)
  | inr e ↦ let miss : Result.err unsupported_schema_version ≡ ok params = rw e at h in absurd (cc)
]

In-append_left : (p : String × String) (xs ys : Pairs) → In p xs → In p (xs ++ ys)
In-append_left p [] ys h = elim h [ ]
In-append_left p (x ∷ xs) ys (inl e) = inl e
In-append_left p (x ∷ xs) ys (inr h) = inr (In-append_left p xs ys h)

In-append_right : (p : String × String) (xs ys : Pairs) → In p ys → In p (xs ++ ys)
In-append_right p [] ys h = h
In-append_right p (x ∷ xs) ys h = inr (In-append_right p xs ys h)

-- The field encodes, and its pairs are among the parameters.
abbrev pub IsEncoded : String → String → List String → FilterMap → Pairs → Type 0
IsEncoded flow name values filter_map params =
    (pairs : Pairs) × (encode_field flow name values filter_map ≡ ok pairs)
    × ((p : String × String) → In p pairs → In p params)

encode_fields-IsEncoded :
    (flow name : String) (values : List String) (fields : Dict (List String))
    (filter_map : FilterMap) (params : Pairs)
    → encode_fields flow fields filter_map ≡ ok params
    → In (name, values) fields
    → IsEncoded flow name values filter_map params
unfolding encode_fields
encode_fields-IsEncoded flow name values [] filter_map params h m = elim m [ ]
encode_fields-IsEncoded flow name values ((name', values') ∷ fields) filter_map params h m =
    let (pairs, rest, first, second, e) =
      encode_fields-step flow name' values' fields filter_map params h in
    elim m [
      | inl same ↦
          let here : encode_field flow name values filter_map ≡ ok pairs = cc in
          (pairs, here, λ p n. rw e (In-append_left p pairs rest n))
      | inr later ↦
          let (others, encoded, among) =
            encode_fields-IsEncoded flow name values fields filter_map rest second later in
          (others, encoded, λ p n. rw e (In-append_right p pairs rest (among p n)))
    ]

-- Each hard filter of a plan that encodes has encoded by itself, and all its pairs are among the
-- parameters: none is dropped in silence.
pub encode_plan-IsEncoded :
    (plan : SearchPlan) (filter_map : FilterMap) (params : Pairs) (name : String)
    (values : List String)
    → encode_plan plan filter_map ≡ ok params
    → In (name, values) plan.hard_filters
    → IsEncoded plan.flow name values filter_map params
unfolding encode_plan
encode_plan-IsEncoded plan filter_map params name values h m =
    elim (Bool-cases (eqb filter_map.version 1)) [
      | inl e ↦
          encode_fields-IsEncoded plan.flow name values plan.hard_filters filter_map params
            (rw e at h) m
      | inr e ↦
          let miss : Result.err unsupported_schema_version ≡ ok params = rw e at h in absurd (cc)
    ]
