-- ===== src/Filters/Encoder/Lookup.antt =====
-- `_lookup_condition` of filters/encoder.py on the conditions map of filters/map_schema.py.
use athome_japan_agent_harne.Common.{
  String, ◌==◌, ◌≡◌, refl, List, [], ◌∷◌, inl, inr, Result, ok, In, All, All-In, Bool-cases,
}
use athome_japan_agent_harne.Common.Dict.{Dict}
use athome_japan_agent_harne.Filters.Conditions.{
  FieldCondition, conditions_map, rent_conditions, buy_conditions,
}
use athome_japan_agent_harne.Filters.Encoder.{
  FilterMap, unknown_filter, names_field, lookup_in, lookup_condition, encode_field,
}

lookup_in-In :
    (conditions : Dict FieldCondition) (name : String) (c : String × FieldCondition)
    → lookup_in conditions name ≡ ok c
    → In c conditions
unfolding lookup_in
lookup_in-In [] name c h = cc
lookup_in-In (d ∷ conditions) name c h = elim (Bool-cases (names_field name d)) [
  | inl e ↦ let hit : Result.ok d ≡ ok c = rw e at h in inl (cc)
  | inr e ↦ inr (lookup_in-In conditions name c (rw e at h))
]

-- Each canonical name of the table finds its own condition.
abbrev FindsItself : Dict FieldCondition → Type 0
FindsItself conditions = All (λ c. lookup_in conditions c.0 ≡ ok c) conditions

rent-FindsItself : FindsItself rent_conditions
unfolding lookup_in
rent-FindsItself = (
  refl,
  (
    refl,
    (
      refl,
      (
        refl,
        (
          refl,
          (
            refl,
            (
              refl,
              (
                refl,
                (refl, (refl, (refl, (refl, (refl, (refl, (refl, (refl, (refl, (refl, tt)))))))))),
              ),
            ),
          ),
        ),
      ),
    ),
  ),
)

buy-FindsItself : FindsItself buy_conditions
unfolding lookup_in
buy-FindsItself = (
  refl,
  (refl, (refl, (refl, (refl, (refl, (refl, (refl, (refl, (refl, (refl, (refl, tt))))))))))),
)

lookup_in-canonical :
    (conditions : Dict FieldCondition)
    → FindsItself conditions
    → (name : String) (c : String × FieldCondition) → lookup_in conditions name ≡ ok c
    → lookup_in conditions c.0 ≡ ok c
lookup_in-canonical conditions finds name c h =
    All-In (λ c. lookup_in conditions c.0 ≡ ok c) conditions c finds
      (lookup_in-In conditions name c h)

lookup_condition-canonical :
    (flow name : String) (c : String × FieldCondition)
    → lookup_condition flow name ≡ ok c
    → lookup_condition flow c.0 ≡ ok c
unfolding lookup_condition conditions_map
lookup_condition-canonical flow name c h = elim (Bool-cases ("rent" == flow)) [
  | inl rent ↦ rw rent (lookup_in-canonical rent_conditions rent-FindsItself name c (rw rent at h))
  | inr other ↦ elim (Bool-cases ("buy" == flow)) [
    | inl buy ↦
        rw (other, buy)
          (lookup_in-canonical buy_conditions buy-FindsItself name c (rw (other, buy) at h))
    | inr neither ↦ let miss : Result.err unknown_filter ≡ ok c = rw (other, neither) at h in cc
  ]
]

-- A name that the conditions map of the flow knows, an alias included, encodes as its canonical name
-- does: no other field shadows that name.
pub encode_field-alias :
    (flow name : String) (c : String × FieldCondition) (values : List String)
    (filter_map : FilterMap)
    → lookup_condition flow name ≡ ok c
    → encode_field flow name values filter_map ≡ encode_field flow c.0 values filter_map
unfolding encode_field
encode_field-alias flow name c values filter_map h =
    rw (h, lookup_condition-canonical flow name c h) refl
