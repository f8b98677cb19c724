-- ===== src/Filters/Encoder/Known.antt =====
-- The codes that `_encode_field` of filters/encoder.py hands out.
use Prim.Native.String.{◌++◌ as ◌+ˢ◌}
use athome_japan_agent_harne.Common.{
  String, ◌≡◌, refl, sym, ap, Bool, true, false, List, [], ◌∷◌, map, inl, inr, arith, Result, ok,
  err, any, All, Option-cases, bind-eq-ok, if◌then◌else◌, ◌>>◌, eq_iff,
}
use athome_japan_agent_harne.Filters.Conditions.{
  FieldCondition, Cardinality, single, multi, range, bool,
}
use athome_japan_agent_harne.Filters.Encoder.{
  FilterMap, FilterOption, Pairs, only_code, bool_pairs, bool_name, bool_value, unknown_filter,
  exactly_one, range_pair, unknown_filter_value, lookup_condition, has_code, field_options,
  require_known_code, require_known_codes, encode_single, encode_multi, encode_range, encode_bool,
  encode_as, encode_field, single_bool_code,
}

-- The code is that of an option of some field of the flow.
pub record IsOption (flow : String) (filter_map : FilterMap) (code : String) : Type 0 where
  pub field : String
  pub options : List FilterOption
  pub listed : field_options flow field filter_map ≡ ok options
  pub present : any (has_code code) options ≡ true

require_known_code-IsOption :
    (flow field code : String) (filter_map : FilterMap)
    → require_known_code flow field code filter_map ≡ ok tt
    → IsOption flow filter_map code
unfolding require_known_code
require_known_code-IsOption flow field code filter_map h =
    let (options, listed, rest) =
      bind-eq-ok (field_options flow field filter_map)
        (λ options. if any (has_code code) options then ok tt else err unknown_filter_value) h in
    record { field = field; options = options; listed = listed; present = ground (arith, rest) }

require_known_codes-IsOption :
    (flow field : String) (codes : List String) (filter_map : FilterMap)
    → require_known_codes flow field codes filter_map ≡ ok tt
    → All (IsOption flow filter_map) codes
unfolding require_known_codes
require_known_codes-IsOption flow field [] filter_map h = tt
require_known_codes-IsOption flow field (c ∷ codes) filter_map h =
    let (_, known, rest) =
      bind-eq-ok (require_known_code flow field c filter_map)
        (λ _. require_known_codes flow field codes filter_map) h in
    (
      require_known_code-IsOption flow field c filter_map known,
      require_known_codes-IsOption flow field codes filter_map rest,
    )

single_bool_code-IsOption :
    (flow field code : String) (filter_map : FilterMap)
    → single_bool_code flow field filter_map ≡ ok code
    → IsOption flow filter_map code
unfolding single_bool_code
single_bool_code-IsOption flow field code filter_map h =
    let (options, listed, rest) = bind-eq-ok (field_options flow field filter_map) only_code h in
    record { field = field; options = options; listed = listed; present = only options rest }
  where
    only :
        (options : List FilterOption)
        → only_code options ≡ ok code
        → any (has_code code) options ≡ true
    only [] e = cc
    only (o ∷ []) e = let same : o.code ≡ code = cc in rw ((eq_iff o.code code).1 same) refl
    only (o ∷ q ∷ rest) e = cc

-- Each pair carries the code of an option.
abbrev pub AreOptions : String → FilterMap → Pairs → Type 0
AreOptions flow filter_map pairs = All (λ (p : String × String). IsOption flow filter_map p.1) pairs

under_name-AreOptions :
    (flow name : String) (filter_map : FilterMap) (codes : List String)
    → All (IsOption flow filter_map) codes
    → AreOptions flow filter_map (map (λ code. (name, code)) codes)
under_name-AreOptions flow name filter_map [] h = tt
under_name-AreOptions flow name filter_map (c ∷ codes) (known, h) =
    (known, under_name-AreOptions flow name filter_map codes h)

exactly_one-eq-ok :
    (values : List String) (v : String) → exactly_one values ≡ ok v → values ≡ v ∷ []
exactly_one-eq-ok [] v h = cc
exactly_one-eq-ok (x ∷ []) v h = cc
exactly_one-eq-ok (x ∷ y ∷ rest) v h = cc

range_pair-eq-ok :
    (values : List String) (v : String × String)
    → range_pair values ≡ ok v
    → values ≡ v.0 ∷ v.1 ∷ []
range_pair-eq-ok [] v h = cc
range_pair-eq-ok (x ∷ []) v h = cc
range_pair-eq-ok (x ∷ y ∷ []) v h = let e : (x, y) ≡ v = cc in rw (← e) refl
range_pair-eq-ok (x ∷ y ∷ z ∷ rest) v h = cc

codes_under :
    (name : String) (codes : List String)
    → map (λ (p : String × String). p.1) (map (λ code. (name, code)) codes) ≡ codes
codes_under name [] = refl
codes_under name (c ∷ codes) = ap (λ rest. c ∷ rest) (codes_under name codes)

module _ (flow name : String) (values : List String) (filter_map : FilterMap) (pairs : Pairs) where
  encode_single-AreOptions :
      (condition : FieldCondition)
      → encode_single flow name values filter_map condition ≡ ok pairs
      → AreOptions flow filter_map pairs × (map (λ p. p.1) pairs ≡ values)
  unfolding encode_single
  encode_single-AreOptions condition h =
      let (code, one, rest) =
        bind-eq-ok (exactly_one values)
          (λ code.
            require_known_code flow name code filter_map >> ok ((condition.html_base, code) ∷ []))
          h in
      let (_, known, done) =
        bind-eq-ok (require_known_code flow name code filter_map)
          (λ _. ok ((condition.html_base, code) ∷ [])) rest in
      let e : pairs ≡ (condition.html_base, code) ∷ [] = cc in
      rw e (
        (require_known_code-IsOption flow name code filter_map known, tt),
        sym (exactly_one-eq-ok values code one),
      )

  encode_multi-AreOptions :
      (condition : FieldCondition)
      → encode_multi flow name values filter_map condition ≡ ok pairs
      → AreOptions flow filter_map pairs × (map (λ p. p.1) pairs ≡ values)
  unfolding encode_multi
  encode_multi-AreOptions condition h =
      let (_, known, done) =
        bind-eq-ok (require_known_codes flow name values filter_map)
          (λ _. ok (map (λ code. (condition.html_base +ˢ "[]", code)) values)) h in
      let e : pairs ≡ map (λ code. (condition.html_base +ˢ "[]", code)) values = cc in
      rw e (
        under_name-AreOptions flow (condition.html_base +ˢ "[]") filter_map values
            (require_known_codes-IsOption flow name values filter_map known),
        codes_under (condition.html_base +ˢ "[]") values,
      )

  encode_range-AreOptions :
      (pair : String × String)
      → encode_range flow pair values filter_map ≡ ok pairs
      → AreOptions flow filter_map pairs × (map (λ p. p.1) pairs ≡ values)
  unfolding encode_range
  encode_range-AreOptions (from_field, to_field) h =
      let (codes, two, rest) =
        bind-eq-ok (range_pair values)
          (λ codes.
            require_known_code flow from_field codes.0 filter_map
            >> (require_known_code flow to_field codes.1 filter_map
                >> ok ((from_field, codes.0) ∷ (to_field, codes.1) ∷ [])))
          h in
      let (_, known, rest') =
        bind-eq-ok (require_known_code flow from_field codes.0 filter_map)
          (λ _.
            require_known_code flow to_field codes.1 filter_map
            >> ok ((from_field, codes.0) ∷ (to_field, codes.1) ∷ []))
          rest in
      let (_, known', done) =
        bind-eq-ok (require_known_code flow to_field codes.1 filter_map)
          (λ _. ok ((from_field, codes.0) ∷ (to_field, codes.1) ∷ [])) rest' in
      let e : pairs ≡ (from_field, codes.0) ∷ (to_field, codes.1) ∷ [] = cc in
      rw e (
        (
          require_known_code-IsOption flow from_field codes.0 filter_map known,
          (require_known_code-IsOption flow to_field codes.1 filter_map known', tt),
        ),
        sym (range_pair-eq-ok values codes two),
      )

  bool_pairs-AreOptions :
      (enabled : Bool) (condition : FieldCondition)
      → bool_pairs enabled flow name filter_map condition ≡ ok pairs
      → AreOptions flow filter_map pairs
  bool_pairs-AreOptions false condition h = let e : pairs ≡ [] = cc in rw e tt
  bool_pairs-AreOptions true condition h =
      let (code, known, done) =
        bind-eq-ok (single_bool_code flow name filter_map)
          (λ code. ok ((bool_name condition.control condition.html_base, code) ∷ [])) h in
      let e : pairs ≡ (bool_name condition.control condition.html_base, code) ∷ [] = cc in
      rw e (single_bool_code-IsOption flow name code filter_map known, tt)

  encode_bool-AreOptions :
      (condition : FieldCondition)
      → encode_bool flow name values filter_map condition ≡ ok pairs
      → AreOptions flow filter_map pairs
  unfolding encode_bool
  encode_bool-AreOptions condition h =
      let (enabled, _, rest) =
        bind-eq-ok (bool_value values)
          (λ enabled. bool_pairs enabled flow name filter_map condition) h in
      bool_pairs-AreOptions enabled condition rest

abbrev pub is_bool : Cardinality → Bool
is_bool bool = true
is_bool _ = false

-- What the codes of a field's pairs are: those selected, but for a toggle.
abbrev pub Selects : Cardinality → List String → Pairs → Type 0
Selects cardinality values pairs =
    is_bool cardinality ≡ false → map (λ (p : String × String). p.1) pairs ≡ values

encode_as-AreOptions :
    (cardinality : Cardinality) (flow name : String) (values : List String) (filter_map : FilterMap)
    (condition : FieldCondition) (pairs : Pairs)
    → encode_as cardinality flow name values filter_map condition ≡ ok pairs
    → AreOptions flow filter_map pairs × Selects cardinality values pairs
encode_as-AreOptions single flow name values filter_map condition pairs h =
    let (known, same) = encode_single-AreOptions flow name values filter_map pairs condition h in
    (known, λ _. same)
encode_as-AreOptions multi flow name values filter_map condition pairs h =
    let (known, same) = encode_multi-AreOptions flow name values filter_map pairs condition h in
    (known, λ _. same)
encode_as-AreOptions range flow name values filter_map condition pairs h =
    elim (Option-cases condition.pair) [
      | inl absent ↦ let miss : Result.err unknown_filter ≡ ok pairs = rw absent at h in absurd (cc)
      | inr (pair, there) ↦
          let (known, same) =
            encode_range-AreOptions flow name values filter_map pairs pair (rw there at h) in
          (known, λ _. same)
    ]
encode_as-AreOptions bool flow name values filter_map condition pairs h =
    (encode_bool-AreOptions flow name values filter_map pairs condition h, λ e. cc)

pub encode_field-AreOptions :
    (flow name : String) (values : List String) (filter_map : FilterMap) (pairs : Pairs)
    → encode_field flow name values filter_map ≡ ok pairs
    → AreOptions flow filter_map pairs
unfolding encode_field
encode_field-AreOptions flow name values filter_map pairs h =
    let (c, _, rest) =
      bind-eq-ok (lookup_condition flow name)
        (λ c. encode_as c.1.cardinality flow c.0 values filter_map c.1) h in
    (encode_as-AreOptions c.1.cardinality flow c.0 values filter_map c.1 pairs rest).0

-- A field that encodes, and is not a toggle, encodes to pairs that carry the selected codes, all of
-- them and in their order.
pub encode_field-values :
    (flow name : String) (c : String × FieldCondition) (values : List String)
    (filter_map : FilterMap) (pairs : Pairs)
    → lookup_condition flow name ≡ ok c
    → is_bool c.1.cardinality ≡ false
    → encode_field flow name values filter_map ≡ ok pairs
    → map (λ (p : String × String). p.1) pairs ≡ values
unfolding encode_field
encode_field-values flow name c values filter_map pairs found plain h =
    (encode_as-AreOptions c.1.cardinality flow c.0 values filter_map c.1 pairs (rw found at h)).1
      plain
