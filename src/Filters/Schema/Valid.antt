-- ===== src/Filters/Schema/Valid.antt =====
-- What the validation of filters/map_schema.py says of a map that passes.
use athome_japan_agent_harne.Common.{
  ℕ, ◌<◌, ◌≡◌, refl, String, ◌==◌, Bool, true, false, not, Option, none, some, List, [], ◌∷◌, inl,
  inr, Option-cases, ltb→lt, eqb, eqb→eq, Result, ok, bind, bind-eq-ok, any, All,
}
use athome_japan_agent_harne.Common.Dict.{Dict, get}
use athome_japan_agent_harne.Filters.Conditions.{FieldCondition, conditions_map}
use athome_japan_agent_harne.Filters.Encoder.{FilterOption, FilterMap}
use athome_japan_agent_harne.Filters.Schema.{
  SchemaError, is_blank, has_keys, guard, required_of, found, known_flow, code_fits,
  validate_option, validate_options, next_magnitude, in_order, check_monotonic, check_if,
  validate_fields, validate_flow, validate_flows, validate, empty_code, unmatched_code, empty_label,
  duplicate_code, non_monotonic, missing_filters, missing_flows, unsupported_schema_version,
}

-- A guard that was passed, and what follows it.
passed :
    {A : Type 0} (b : Bool) (e : SchemaError) (rest : Result SchemaError A) (a : A)
    → bind (guard b e) (λ _. rest) ≡ ok a
    → (b ≡ true) × (rest ≡ ok a)
passed true e rest a h = (refl, h)
passed false e rest a h = absurd (cc)

module _ (matches : (pattern code : String) → Bool) (label_magnitude : String → Option ℕ) where
  -- An option that may stand after codes that are seen.
  pub record IsOption (condition : FieldCondition) (seen : List String) (o : FilterOption)
      : Type 0 where
    pub has_code : is_blank o.code ≡ false
    pub fits : code_fits matches label_magnitude condition.code_regex o.code ≡ true
    pub has_label : is_blank o.label ≡ false
    pub new : any (λ c. c == o.code) seen ≡ false

  abbrev pub AreOptions : FieldCondition → List FilterOption → List String → Type 0
  AreOptions condition [] seen = Unit
  AreOptions condition (o ∷ options) seen =
      IsOption condition seen o × AreOptions condition options (o.code ∷ seen)

  is_false : (b : Bool) → not b ≡ true → b ≡ false
  is_false true h = absurd (cc)
  is_false false h = refl

  validate_options-AreOptions :
      (condition : FieldCondition) (options : List FilterOption) (seen : List String)
      → validate_options matches label_magnitude condition options seen ≡ ok tt
      → AreOptions condition options seen
  unfolding validate_options validate_option
  validate_options-AreOptions condition [] seen h = tt
  validate_options-AreOptions condition (o ∷ options) seen h =
      let (now_seen, e, rest) =
        bind-eq-ok (validate_option matches label_magnitude condition o seen)
          (validate_options matches label_magnitude condition options) h in
      let (coded, e1) = passed (not (is_blank o.code)) empty_code _ now_seen e in
      let (fits, e2) =
        passed (code_fits matches label_magnitude condition.code_regex o.code) unmatched_code _
          now_seen e1 in
      let (labelled, e3) = passed (not (is_blank o.label)) empty_label _ now_seen e2 in
      let (new, e4) =
        passed (not (any (λ c. c == o.code) seen)) duplicate_code (ok (o.code ∷ seen)) now_seen
          e3 in
      let same : o.code ∷ seen ≡ now_seen = cc in
      (
        record {
          has_code = is_false (is_blank o.code) coded;
          fits = fits;
          has_label = is_false (is_blank o.label) labelled;
          new = is_false (any (λ c. c == o.code) seen) new;
        },
        validate_options-AreOptions condition options (o.code ∷ seen) (rw (← same) at rest),
      )

  -- The magnitudes that can be read, in order.
  abbrev add_magnitude : Option ℕ → List ℕ → List ℕ
  add_magnitude none ms = ms
  add_magnitude (some m) ms = m ∷ ms

  abbrev pub magnitudes : List FilterOption → List ℕ
  magnitudes [] = []
  magnitudes (o ∷ options) = add_magnitude (label_magnitude o.label) (magnitudes options)

  -- Each above the one before it.
  abbrev pub Ascending : Option ℕ → List ℕ → Type 0
  Ascending previous [] = Unit
  Ascending none (m ∷ ms) = Ascending (some m) ms
  Ascending (some p) (m ∷ ms) = (p < m) × Ascending (some m) ms

  add_magnitude-Ascending :
      (o previous : Option ℕ) (ms : List ℕ)
      → in_order matches label_magnitude o previous ≡ true
      → Ascending (next_magnitude matches label_magnitude o previous) ms
      → Ascending previous (add_magnitude o ms)
  add_magnitude-Ascending none previous ms h up = up
  add_magnitude-Ascending (some m) none ms h up = up
  add_magnitude-Ascending (some m) (some p) ms h up = (ltb→lt p m h, up)

  check_monotonic-Ascending :
      (options : List FilterOption) (previous : Option ℕ)
      → check_monotonic matches label_magnitude options previous ≡ ok tt
      → Ascending previous (magnitudes options)
  unfolding check_monotonic
  check_monotonic-Ascending [] previous h = tt
  check_monotonic-Ascending (o ∷ options) previous h =
      let m = label_magnitude o.label in
      let (up, rest) =
        passed (in_order matches label_magnitude m previous) non_monotonic
          (check_monotonic matches label_magnitude options
            (next_magnitude matches label_magnitude m previous))
          tt h in
      add_magnitude-Ascending m previous (magnitudes options) up
        (check_monotonic-Ascending options (next_magnitude matches label_magnitude m previous) rest)

  check_if-Ascending :
      (b : Bool) (options : List FilterOption)
      → check_if matches label_magnitude b options ≡ ok tt
      → b ≡ true
      → Ascending none (magnitudes options)
  check_if-Ascending true options h e = check_monotonic-Ascending options none h
  check_if-Ascending false options h e = absurd (cc)

  -- A field that the flow knows, with options that fit it.
  pub record IsField (known : Dict FieldCondition) (f : String × List FilterOption) : Type 0 where
    pub condition : FieldCondition
    pub is_known : get f.0 known ≡ some condition
    pub options : AreOptions condition f.1 []
    pub ascending : condition.monotonic ≡ true → Ascending none (magnitudes f.1)

  found_lem : (o : Option FieldCondition) (c : FieldCondition) → found o ≡ ok c → o ≡ some c
  found_lem none c h = absurd (cc)
  found_lem (some d) c h = cc

  validate_fields-IsField :
      (known : Dict FieldCondition) (fields : Dict (List FilterOption))
      → validate_fields matches label_magnitude known fields ≡ ok tt
      → All (IsField known) fields
  unfolding validate_fields
  validate_fields-IsField known [] h = tt
  validate_fields-IsField known ((field_name, options) ∷ fields) h =
      let (c, there, e) = bind-eq-ok (found (get field_name known)) _ h in
      let (_, fit, e1) = bind-eq-ok (validate_options matches label_magnitude c options []) _ e in
      let (_, up, e2) = bind-eq-ok (check_if matches label_magnitude c.monotonic options) _ e1 in
      (
        record {
          condition = c;
          is_known = found_lem (get field_name known) c there;
          options = validate_options-AreOptions c options [] fit;
          ascending = check_if-Ascending c.monotonic options up;
        },
        validate_fields-IsField known fields e2,
      )

  abbrev pub HasKey : {V : Type 0} → Dict V → String → Type 0
  HasKey {V} d k = (v : V) × (get k d ≡ some v)

  pub record IsFlow (f : String × Dict (List FilterOption)) : Type 0 where
    pub known : Dict FieldCondition
    pub is_known : get f.0 conditions_map ≡ some known
    pub required : All (HasKey f.1) (required_of f.0)
    pub fields : All (IsField known) f.1

  has_keys-HasKey :
      {V : Type 0} (names : List String) (d : Dict V)
      → has_keys names d ≡ true
      → All (HasKey d) names
  has_keys-HasKey [] d h = tt
  has_keys-HasKey (k ∷ names) d h = elim (Option-cases (get k d)) [
    | inl e ↦ let miss : false ≡ true = rw e at h in absurd (cc)
    | inr (v, e) ↦ ((v, e), has_keys-HasKey names d (rw e at h))
  ]

  known_flow_lem :
      (o : Option (Dict FieldCondition)) (known : Dict FieldCondition)
      → known_flow o ≡ ok known
      → o ≡ some known
  known_flow_lem none known h = absurd (cc)
  known_flow_lem (some d) known h = cc

  validate_flow-IsFlow :
      (flow : String) (fields : Dict (List FilterOption))
      → validate_flow matches label_magnitude flow fields ≡ ok tt
      → IsFlow (flow, fields)
  unfolding validate_flow
  validate_flow-IsFlow flow fields h =
      let (known, there, e) = bind-eq-ok (known_flow (get flow conditions_map)) _ h in
      let (keys, rest) =
        passed (has_keys (required_of flow) fields) missing_filters
          (validate_fields matches label_magnitude known fields) tt e in
      record {
        known = known;
        is_known = known_flow_lem (get flow conditions_map) known there;
        required = has_keys-HasKey (required_of flow) fields keys;
        fields = validate_fields-IsField known fields rest;
      }

  validate_flows-IsFlow :
      (mappings : Dict (Dict (List FilterOption)))
      → validate_flows matches label_magnitude mappings ≡ ok tt
      → All IsFlow mappings
  unfolding validate_flows
  validate_flows-IsFlow [] h = tt
  validate_flows-IsFlow ((flow, fields) ∷ mappings) h =
      let (_, good, rest) = bind-eq-ok (validate_flow matches label_magnitude flow fields) _ h in
      (validate_flow-IsFlow flow fields good, validate_flows-IsFlow mappings rest)

  pub record IsValid (m : FilterMap) : Type 0 where
    pub version : m.version ≡ 1
    pub both_flows : All (HasKey m.mappings) ("rent" ∷ "buy" ∷ [])
    pub flows : All IsFlow m.mappings

-- A filter map that passes the validation is returned as it is, has the one version and both flows, and each
-- of its flows is known and has the filters that are required of it. Each filter is one that the conditions
-- of the flow know; its options have codes and labels that are not blank, the codes match the filter's
-- expression and differ, and where the filter is ordered, the magnitudes of its labels ascend.
pub validate-IsValid :
    (matches : (pattern code : String) → Bool) (label_magnitude : String → Option ℕ)
    (m n : FilterMap)
    → validate matches label_magnitude m ≡ ok n
    → (n ≡ m) × IsValid matches label_magnitude m
unfolding validate
validate-IsValid matches label_magnitude m n h =
    let (versioned, e) = passed (eqb m.version 1) unsupported_schema_version _ n h in
    let (keys, e1) = passed (has_keys ("rent" ∷ "buy" ∷ []) m.mappings) missing_flows _ n e in
    let (_, good, e2) = bind-eq-ok (validate_flows matches label_magnitude m.mappings) _ e1 in
    (
      cc,
      record {
        version = eqb→eq m.version 1 versioned;
        both_flows = has_keys-HasKey matches label_magnitude ("rent" ∷ "buy" ∷ []) m.mappings keys;
        flows = validate_flows-IsFlow matches label_magnitude m.mappings good;
      },
    )
