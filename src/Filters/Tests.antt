-- ===== src/Filters/Tests.antt =====
-- Runs of filters/encoder.py on a small filter map.
use athome_japan_agent_harne.Common.{String, ◌≡◌, refl, [], ◌∷◌, inl, inr, ok}
use athome_japan_agent_harne.Filters.Conditions.{FieldCondition, conditions_map, price_condition}
use athome_japan_agent_harne.Filters.Encoder.{
  SearchPlan, FilterMap, Pairs, lookup_in, lookup_condition, field_options, require_known_code,
  require_known_codes, encode_multi, encode_range, encode_bool, encode_field, encode_fields,
  encode_plan, single_bool_code, bool_value, toggle,
}
use athome_japan_agent_harne.Filters.Encoder.Lookup.{encode_field-alias}
use athome_japan_agent_harne.Filters.Encoder.Known.{AreOptions}
use athome_japan_agent_harne.Filters.Encoder.Plan.{
  IsEncoded, encode_plan-AreOptions, encode_plan-IsEncoded,
}

abbrev small_map : FilterMap
small_map = record {
  version = 1;
  content_hash = "0";
  mappings =
      (
        "rent",
        ("PRICEFROM", record { code = "kc101"; label = "3" } ∷ [])
            ∷ ("PRICETO", record { code = "kc109"; label = "9" } ∷ [])
            ∷ (
              "MADORI",
              record { code = "km001"; label = "1R" }
                  ∷ record { code = "km002"; label = "1K" }
                  ∷ [],
            )
            ∷ ("RENOVATION", record { code = "ak001"; label = "Renovated" } ∷ [])
            ∷ [],
      )
      ∷ [];
}

abbrev plan : SearchPlan
plan = record {
  flow = "rent";
  prefecture = "osaka";
  cities = [];
  hard_filters =
      ("rent price", "kc101" ∷ "kc109" ∷ [])
      ∷ ("MADORI", "km002" ∷ "km001" ∷ [])
      ∷ ("RENOVATION", " Yes " ∷ [])
      ∷ [];
  soft_prefs = [];
}

abbrev params : Pairs
params =
    ("PRICEFROM", "kc101")
    ∷ ("PRICETO", "kc109")
    ∷ ("MADORI[]", "km002")
    ∷ ("MADORI[]", "km001")
    ∷ ("REFORM[]", "ak001")
    ∷ []

encodes : encode_plan plan small_map ≡ ok params
unfolding encode_plan encode_fields encode_field lookup_condition lookup_in conditions_map
    encode_range encode_multi encode_bool require_known_code require_known_codes field_options
    single_bool_code bool_value toggle
encodes = refl

encode_plan-AreOptions_example : AreOptions plan.flow small_map params
encode_plan-AreOptions_example = encode_plan-AreOptions plan small_map params encodes

encode_plan-IsEncoded_example : IsEncoded plan.flow "RENOVATION" (" Yes " ∷ []) small_map params
encode_plan-IsEncoded_example =
    encode_plan-IsEncoded plan small_map params "RENOVATION" (" Yes " ∷ []) encodes
      (inr (inr (inl refl)))

abbrev spoken_price : String × FieldCondition
spoken_price = ("PRICE", price_condition "rent price")

finds_price : lookup_condition "rent" "rent price" ≡ ok spoken_price
unfolding lookup_condition lookup_in conditions_map
finds_price = refl

encode_field-alias_example :
    encode_field "rent" "rent price" ("kc101" ∷ "kc109" ∷ []) small_map
    ≡ encode_field "rent" "PRICE" ("kc101" ∷ "kc109" ∷ []) small_map
encode_field-alias_example =
    encode_field-alias "rent" "rent price" spoken_price ("kc101" ∷ "kc109" ∷ []) small_map
      finds_price

encodes_price :
    encode_field "rent" "rent price" ("kc101" ∷ "kc109" ∷ []) small_map
    ≡ ok (("PRICEFROM", "kc101") ∷ ("PRICETO", "kc109") ∷ [])
unfolding encode_field lookup_condition lookup_in conditions_map encode_range require_known_code
    field_options
encodes_price = refl
