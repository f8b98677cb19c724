-- ===== src/Filters/Schema/Tests.antt =====
-- A small filter map that passes the validation of filters/map_schema.py, and one out of order.
use athome_japan_agent_harne.Common.{
  ℕ, String, ◌==◌, ◌≡◌, refl, Bool, true, Option, none, some, List, [], ◌∷◌, map, if◌then◌else◌, ok,
  err,
}
use athome_japan_agent_harne.Common.Dict.{Dict}
use athome_japan_agent_harne.Filters.Encoder.{FilterOption, FilterMap}
use athome_japan_agent_harne.Filters.Conditions.{conditions_map}
use athome_japan_agent_harne.Filters.Schema.{
  required_of, non_monotonic, validate, validate_flows, validate_flow, validate_fields,
  validate_options, validate_option, check_monotonic,
}
use athome_japan_agent_harne.Filters.Schema.Valid.{IsValid, validate-IsValid}

abbrev any_code : String → String → Bool
any_code pattern code = true

abbrev magnitude : String → Option ℕ
magnitude label =
    if label == "50,000 yen" then some 50000 else if label == "80,000 yen" then some 80000 else none

abbrev option : String → String → FilterOption
option code label = record { code = code; label = label }

abbrev fields_with : List FilterOption → String → Dict (List FilterOption)
fields_with options flow =
    ("PRICEFROM", options) ∷ map (λ name. (name, option "x1" "any" ∷ [])) (required_of flow)

abbrev map_with : List FilterOption → FilterMap
map_with options = record {
  version = 1;
  content_hash = "h";
  mappings = ("rent", fields_with options "rent") ∷ ("buy", fields_with options "buy") ∷ [];
}

abbrev rising : List FilterOption
rising = option "kc1" "No lower limit" ∷ option "kc2" "50,000 yen" ∷ option "kc3" "80,000 yen" ∷ []

passes : validate any_code magnitude (map_with rising) ≡ ok (map_with rising)
unfolding validate validate_flows validate_flow validate_fields validate_options validate_option
    check_monotonic conditions_map
passes = refl

validate-IsValid_example :
    (map_with rising ≡ map_with rising) × IsValid any_code magnitude (map_with rising)
validate-IsValid_example =
    validate-IsValid any_code magnitude (map_with rising) (map_with rising) passes

fails :
    validate any_code magnitude
      (map_with (option "kc3" "80,000 yen" ∷ option "kc2" "50,000 yen" ∷ []))
    ≡ err non_monotonic
unfolding validate validate_flows validate_flow validate_fields validate_options validate_option
    check_monotonic conditions_map
fails = refl
