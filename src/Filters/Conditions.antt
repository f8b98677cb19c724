-- ===== src/Filters/Conditions.antt =====
-- filters/map_schema.py: the conditions map. A regular expression is kept as its text.
use athome_japan_agent_harne.Common.{String, Bool, true, false, Option, none, some, List, [], ◌∷◌}
use athome_japan_agent_harne.Common.Dict.{Dict}

pub data Cardinality : Type 0 where
  single multi range bool : Cardinality

pub data ControlKind : Type 0 where
  select checkbox : ControlKind

pub record FieldCondition : Type 0 where
  pub cardinality : Cardinality
  pub control : ControlKind
  pub code_regex : Option String
  pub html_base : String
  pub pair : Option (String × String)
  pub aliases : List String
  pub monotonic : Bool

-- `_condition` without a pair and without aliases.
abbrev condition : Cardinality → ControlKind → Option String → String → Bool → FieldCondition
condition cardinality control code_regex html_base monotonic = record {
  cardinality = cardinality;
  control = control;
  code_regex = code_regex;
  html_base = html_base;
  pair = none;
  aliases = [];
  monotonic = monotonic;
}

abbrev pub price_condition : String → FieldCondition
price_condition spoken = record {
  cardinality = range;
  control = select;
  code_regex = none;
  html_base = "PRICE";
  pair = some ("PRICEFROM", "PRICETO");
  aliases = "PRICE_RANGE" ∷ spoken ∷ [];
  monotonic = false;
}

abbrev pub rent_conditions : Dict FieldCondition
rent_conditions =
    ("PRICEFROM", condition single select (some "^kc\\d+$") "PRICEFROM" true)
    ∷ ("PRICETO", condition single select (some "^kc\\d+$") "PRICETO" true)
    ∷ ("MENSEKI", condition single select (some "^kt\\d+$") "MENSEKI" true)
    ∷ ("EKITOHO", condition single select (some "^ke\\d+$") "EKITOHO" true)
    ∷ ("CHIKUNENSU", condition single select (some "^kn\\d+$") "CHIKUNENSU" true)
    ∷ ("KEIYAKU", condition single select (some "^ki\\d+$") "KEIYAKU" false)
    ∷ ("SORT", condition single select none "SORT" false)
    ∷ ("TATEMONONUM", condition single select none "TATEMONONUM" false)
    ∷ ("PRICE", price_condition "rent price")
    ∷ ("MADORI", condition multi checkbox (some "^km\\d+$") "MADORI" false)
    ∷ ("PRICEOPT", condition multi checkbox (some "^kc2\\d\\d$") "PRICEOPT" false)
    ∷ ("SHUMOKU", condition multi checkbox (some "^kb\\d+$") "SHUMOKU" false)
    ∷ ("TATEKOUZOU", condition multi checkbox (some "^kh\\d+$") "TATEKOUZOU" false)
    ∷ ("SYUHENKANKYO", condition multi checkbox (some "^kw\\d+$") "SYUHENKANKYO" false)
    ∷ ("GAZO", condition multi checkbox (some "^kg\\d+$") "GAZO" false)
    ∷ ("KODAWARI", condition multi checkbox (some "^[A-Za-z]{1,3}\\d*$") "KODAWARI" false)
    ∷ ("APPEAL", condition bool checkbox (some "^ka\\d+$") "APPEAL" false)
    ∷ ("RENOVATION", condition bool checkbox (some "^ak\\d+$") "REFORM" false)
    ∷ []

abbrev pub buy_conditions : Dict FieldCondition
buy_conditions =
    ("PRICEFROM", condition single select (some "^kp\\d+$") "PRICEFROM" true)
    ∷ ("PRICETO", condition single select (some "^kp\\d+$") "PRICETO" true)
    ∷ ("MENSEKI", condition single select (some "^kt\\d+$") "MENSEKI" true)
    ∷ ("MENSEKITO", condition single select (some "^kt4\\d+$") "MENSEKITO" true)
    ∷ ("EKITOHO", condition single select (some "^ke\\d+$") "EKITOHO" true)
    ∷ ("CHIKUNENSU", condition single select (some "^kn\\d+$") "CHIKUNENSU" true)
    ∷ ("SORT", condition single select none "SORT" false)
    ∷ ("itemus", condition single select none "itemus" false)
    ∷ ("PRICE", price_condition "buy price")
    ∷ ("MADORI", condition multi checkbox (some "^km\\d+$") "MADORI" false)
    ∷ ("GAZO", condition multi checkbox (some "^kg\\d+$") "GAZO" false)
    ∷ ("KKGROUP", condition multi checkbox (some "^kk\\d+$") "KKGROUP" false)
    ∷ []

unfoldable pub conditions_map : Dict (Dict FieldCondition)
conditions_map = ("rent", rent_conditions) ∷ ("buy", buy_conditions) ∷ []
