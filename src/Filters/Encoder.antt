-- ===== src/Filters/Encoder.antt =====
-- filters/encoder.py: a plan's hard filters as the ordered pairs of a form body. The messages of the
-- exceptions are left out.

pub mod Lookup
pub mod Known
pub mod Plan
use Prim.Native.Char.{code}
use Prim.Native.String.{◌++◌ as ◌+ˢ◌, [] as empty, ◌∷◌ as ◌∷ˢ◌}
use athome_japan_agent_harne.Common.{
  ℕ, ◌+◌, String, ◌==◌, Bool, true, false, not, ◌&&◌, ◌||◌, Option, none, some, List, [], ◌∷◌, ◌++◌,
  map, leb, eqb, if◌then◌else◌, Result, ok, err, ◌>>=◌, ◌>>◌, any,
}
use athome_japan_agent_harne.Common.Dict.{Dict, get}
use athome_japan_agent_harne.Common.Texts.{codes_of, strip, lower, same_codes}
use athome_japan_agent_harne.Filters.Conditions.{
  Cardinality, ControlKind, FieldCondition, single, multi, range, bool, select, checkbox,
  conditions_map,
}

-- models.py
pub record SearchPlan : Type 0 where
  pub flow : String
  pub prefecture : String
  pub cities : List String
  pub hard_filters : Dict (List String)
  pub soft_prefs : List String

pub record FilterOption : Type 0 where
  pub code : String
  pub label : String

pub record FilterMap : Type 0 where
  pub version : ℕ
  pub content_hash : String
  pub mappings : Dict (Dict (List FilterOption))

pub data EncodeError : Type 0 where
  unsupported_schema_version unknown_filter unknown_filter_value : EncodeError

abbrev pub Pairs : Type 0
Pairs = List (String × String)

abbrev pub names_field : String → String × FieldCondition → Bool
names_field filter_name (canonical, condition) =
    filter_name == canonical || any (λ a. filter_name == a) condition.aliases

unfoldable pub lookup_in :
    Dict FieldCondition → String → Result EncodeError (String × FieldCondition)
lookup_in [] filter_name = err unknown_filter
lookup_in (c ∷ conditions) filter_name =
    if names_field filter_name c then ok c else lookup_in conditions filter_name

abbrev pub lookup_flow :
    Option (Dict FieldCondition) → String → Result EncodeError (String × FieldCondition)
lookup_flow none filter_name = err unknown_filter
lookup_flow (some conditions) filter_name = lookup_in conditions filter_name

unfoldable pub lookup_condition : String → String → Result EncodeError (String × FieldCondition)
lookup_condition flow filter_name = lookup_flow (get flow conditions_map) filter_name

abbrev pub found {ℓ} : {A : Type ℓ} → Option A → Result EncodeError A
found none = err unknown_filter
found (some a) = ok a

unfoldable pub field_options : String → String → FilterMap → Result EncodeError (List FilterOption)
field_options flow field_name filter_map = do
  flow_map ← found (get flow filter_map.mappings)
  found (get field_name flow_map)

abbrev pub has_code : String → FilterOption → Bool
has_code c o = o.code == c

unfoldable pub require_known_code :
    String → String → String → FilterMap → Result EncodeError (Unit {0})
require_known_code flow field_name code filter_map = do
  options ← field_options flow field_name filter_map
  if any (has_code code) options then ok tt else err unknown_filter_value

abbrev pub exactly_one : List String → Result EncodeError String
exactly_one (v ∷ []) = ok v
exactly_one _ = err unknown_filter_value

abbrev pub range_pair : List String → Result EncodeError (String × String)
range_pair (a ∷ b ∷ []) = ok (a, b)
range_pair _ = err unknown_filter_value

unfoldable pub encode_single :
    String → String → List String → FilterMap → FieldCondition → Result EncodeError Pairs
encode_single flow field_name values filter_map condition = do
  code ← exactly_one values
  require_known_code flow field_name code filter_map
  ok ((condition.html_base, code) ∷ [])

-- The loop of `_encode_multi`.
unfoldable pub require_known_codes :
    String → String → List String → FilterMap → Result EncodeError (Unit {0})
require_known_codes flow field_name [] filter_map = ok tt
require_known_codes flow field_name (c ∷ codes) filter_map = do
  require_known_code flow field_name c filter_map
  require_known_codes flow field_name codes filter_map

unfoldable pub encode_multi :
    String → String → List String → FilterMap → FieldCondition → Result EncodeError Pairs
encode_multi flow field_name values filter_map condition = do
  require_known_codes flow field_name values filter_map
  ok (map (λ code. (condition.html_base +ˢ "[]", code)) values)

unfoldable pub encode_range :
    String → String × String → List String → FilterMap → Result EncodeError Pairs
encode_range flow (from_field, to_field) values filter_map = do
  codes ← range_pair values
  require_known_code flow from_field codes.0 filter_map
  require_known_code flow to_field codes.1 filter_map
  ok ((from_field, codes.0) ∷ (to_field, codes.1) ∷ [])

-- `raw.strip().lower()`, as code points
abbrev normalized : String → List ℕ
normalized raw = lower (strip (codes_of raw))

abbrev is_word : List String → List ℕ → Bool
is_word words raw = any (λ w. same_codes raw (codes_of w)) words

unfoldable pub toggle : String → Result EncodeError Bool
toggle value =
    let raw = normalized value in
    if is_word ("true" ∷ "1" ∷ "yes" ∷ "on" ∷ []) raw
    then ok true
    else if is_word ("false" ∷ "0" ∷ "no" ∷ "off" ∷ []) raw
    then ok false
    else err unknown_filter_value

unfoldable pub bool_value : List String → Result EncodeError Bool
bool_value values = do v ← exactly_one values; toggle v

abbrev pub only_code : List FilterOption → Result EncodeError String
only_code (o ∷ []) = ok o.code
only_code _ = err unknown_filter

unfoldable pub single_bool_code : String → String → FilterMap → Result EncodeError String
single_bool_code flow field_name filter_map = do
  options ← field_options flow field_name filter_map
  only_code options

abbrev pub bool_name : ControlKind → String → String
bool_name checkbox base = base +ˢ "[]"
bool_name select base = base

abbrev pub bool_pairs :
    Bool → String → String → FilterMap → FieldCondition → Result EncodeError Pairs
bool_pairs false flow field_name filter_map condition = ok []
bool_pairs true flow field_name filter_map condition = do
  code ← single_bool_code flow field_name filter_map
  ok ((bool_name condition.control condition.html_base, code) ∷ [])

unfoldable pub encode_bool :
    String → String → List String → FilterMap → FieldCondition → Result EncodeError Pairs
encode_bool flow field_name values filter_map condition = do
  enabled ← bool_value values
  bool_pairs enabled flow field_name filter_map condition

abbrev pub encode_pair :
    Option (String × String) → String → List String → FilterMap → Result EncodeError Pairs
encode_pair none flow values filter_map = err unknown_filter
encode_pair (some pair) flow values filter_map = encode_range flow pair values filter_map

abbrev pub encode_as :
    Cardinality
    → String
    → String
    → List String
    → FilterMap
    → FieldCondition
    → Result EncodeError Pairs
encode_as single flow name values filter_map condition =
    encode_single flow name values filter_map condition
encode_as multi flow name values filter_map condition =
    encode_multi flow name values filter_map condition
encode_as range flow name values filter_map condition =
    encode_pair condition.pair flow values filter_map
encode_as bool flow name values filter_map condition =
    encode_bool flow name values filter_map condition

-- The last `raise` is for a fifth cardinality, which the type excludes.
unfoldable pub encode_field : String → String → List String → FilterMap → Result EncodeError Pairs
encode_field flow filter_name values filter_map = do
  c ← lookup_condition flow filter_name
  encode_as c.1.cardinality flow c.0 values filter_map c.1

-- The loop of `encode_plan`, in the order of the dict.
unfoldable pub encode_fields : String → Dict (List String) → FilterMap → Result EncodeError Pairs
encode_fields flow [] filter_map = ok []
encode_fields flow ((filter_name, values) ∷ fields) filter_map = do
  pairs ← encode_field flow filter_name values filter_map
  rest ← encode_fields flow fields filter_map
  ok (pairs ++ rest)

unfoldable pub encode_plan : SearchPlan → FilterMap → Result EncodeError Pairs
encode_plan plan filter_map =
    if eqb filter_map.version 1
    then encode_fields plan.flow plan.hard_filters filter_map
    else err unsupported_schema_version
