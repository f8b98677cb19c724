-- ===== src/Filters/Schema.antt =====
-- filters/map_schema.py: the validation of a filter map. Whether a code matches a regular expression, and the
-- magnitude that is read off a label, are arguments.
pub mod Valid
mod Tests
use athome_japan_agent_harne.Common.{
  ℕ, String, ◌==◌, Bool, true, false, not, ◌&&◌, ◌||◌, Option, none, some, List, [], ◌∷◌, ltb, leb,
  eqb, if◌then◌else◌, is_some, Result, ok, err, ◌>>=◌, ◌>>◌, any,
}
use athome_japan_agent_harne.Common.Dict.{Dict, get}
use athome_japan_agent_harne.Common.Texts.{codes_of, strip}
use athome_japan_agent_harne.Filters.Conditions.{FieldCondition, conditions_map}
use athome_japan_agent_harne.Filters.Encoder.{FilterOption, FilterMap}

pub data SchemaError : Type 0 where
  unsupported_schema_version : SchemaError
  missing_flows unknown_flow missing_filters unknown_filter : SchemaError
  empty_code unmatched_code empty_label duplicate_code non_monotonic : SchemaError

-- `REQUIRED_FILTERS`
abbrev pub required_filters : Dict (List String)
required_filters =
    (
      "rent",
      "PRICEFROM" ∷ "PRICETO" ∷ "MADORI" ∷ "MENSEKI" ∷ "EKITOHO" ∷ "CHIKUNENSU" ∷ "KEIYAKU"
          ∷ "SHUMOKU" ∷ "TATEKOUZOU" ∷ "SYUHENKANKYO" ∷ "KODAWARI" ∷ [],
    )
    ∷ ("buy", "PRICEFROM" ∷ "PRICETO" ∷ "MADORI" ∷ "MENSEKI" ∷ "EKITOHO" ∷ "CHIKUNENSU" ∷ [])
    ∷ []

abbrev is_empty : List ℕ → Bool
is_empty [] = true
is_empty (c ∷ cs) = false

-- `not text or not text.strip()`
abbrev pub is_blank : String → Bool
is_blank t = is_empty (strip (codes_of t))

-- The set difference is empty: every name is a key.
abbrev pub has_keys {ℓ} : {V : Type ℓ} → List String → Dict V → Bool
has_keys [] d = true
has_keys (k ∷ keys) d = is_some (get k d) && has_keys keys d

abbrev pub guard : Bool → SchemaError → Result SchemaError (Unit {0})
guard true e = ok tt
guard false e = err e

abbrev or_empty : Option (List String) → List String
or_empty none = []
or_empty (some names) = names

abbrev pub required_of : String → List String
required_of flow = or_empty (get flow required_filters)

abbrev pub found : Option FieldCondition → Result SchemaError FieldCondition
found none = err unknown_filter
found (some c) = ok c

abbrev pub known_flow : Option (Dict FieldCondition) → Result SchemaError (Dict FieldCondition)
known_flow none = err unknown_flow
known_flow (some known) = ok known

module _ (matches : (pattern code : String) → Bool) (label_magnitude : String → Option ℕ) where
  abbrev pub code_fits : Option String → String → Bool
  code_fits none code = true
  code_fits (some pattern) code = matches pattern code

  -- `_validate_option`: the codes seen after it
  unfoldable pub validate_option :
      FieldCondition → FilterOption → List String → Result SchemaError (List String)
  validate_option condition option seen = do
    guard (not (is_blank option.code)) empty_code
    guard (code_fits condition.code_regex option.code) unmatched_code
    guard (not (is_blank option.label)) empty_label
    guard (not (any (λ c. c == option.code) seen)) duplicate_code
    ok (option.code ∷ seen)

  -- `for index, option in enumerate(options)`
  unfoldable pub validate_options :
      FieldCondition → List FilterOption → List String → Result SchemaError (Unit {0})
  unfolding validate_option
  validate_options condition [] seen = ok tt
  validate_options condition (o ∷ options) seen = do
    now_seen ← validate_option condition o seen
    validate_options condition options now_seen

  abbrev pub exceeds : ℕ → Option ℕ → Bool
  exceeds magnitude none = true
  exceeds magnitude (some previous) = ltb previous magnitude

  abbrev pub next_magnitude : Option ℕ → Option ℕ → Option ℕ
  next_magnitude none previous = previous
  next_magnitude (some magnitude) previous = some magnitude

  abbrev pub in_order : Option ℕ → Option ℕ → Bool
  in_order none previous = true
  in_order (some magnitude) previous = exceeds magnitude previous

  -- `_check_monotonic`, given the magnitude before
  unfoldable pub check_monotonic : List FilterOption → Option ℕ → Result SchemaError (Unit {0})
  check_monotonic [] previous = ok tt
  check_monotonic (o ∷ options) previous = do
    guard (in_order (label_magnitude o.label) previous) non_monotonic
    check_monotonic options (next_magnitude (label_magnitude o.label) previous)

  abbrev pub check_if : Bool → List FilterOption → Result SchemaError (Unit {0})
  check_if true options = check_monotonic options none
  check_if false options = ok tt

  -- The loop of `_validate_flow`.
  unfoldable pub validate_fields :
      Dict FieldCondition → Dict (List FilterOption) → Result SchemaError (Unit {0})
  unfolding validate_options check_monotonic
  validate_fields known [] = ok tt
  validate_fields known ((field_name, options) ∷ fields) = do
    condition ← found (get field_name known)
    validate_options condition options []
    check_if condition.monotonic options
    validate_fields known fields

  unfoldable pub validate_flow : String → Dict (List FilterOption) → Result SchemaError (Unit {0})
  unfolding validate_fields
  validate_flow flow fields = do
    known ← known_flow (get flow conditions_map)
    guard (has_keys (required_of flow) fields) missing_filters
    validate_fields known fields

  unfoldable pub validate_flows : Dict (Dict (List FilterOption)) → Result SchemaError (Unit {0})
  unfolding validate_flow
  validate_flows [] = ok tt
  validate_flows ((flow, fields) ∷ mappings) = do validate_flow flow fields; validate_flows mappings

  -- The type of the argument is given here, so its check is left out.
  unfoldable pub validate : FilterMap → Result SchemaError FilterMap
  unfolding validate_flows
  validate filter_map = do
    guard (eqb filter_map.version 1) unsupported_schema_version
    guard (has_keys ("rent" ∷ "buy" ∷ []) filter_map.mappings) missing_flows
    validate_flows filter_map.mappings
    ok filter_map
