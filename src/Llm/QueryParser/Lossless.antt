-- ===== src/Llm/QueryParser/Lossless.antt =====
-- What llm/query_parser.py keeps of the model's answer.
use athome_japan_agent_harne.Common.{
  String, ◌==◌, ◌≡◌, refl, ap, ◌∙◌, false, inl, inr, Option, none, some, List, [], ◌∷◌, ◌++◌, any,
  In, All, eq_refl, arith,
}
use athome_japan_agent_harne.Common.Dict.{Dict, get, get-put}
use athome_japan_agent_harne.Filters.Encoder.{SearchPlan, FilterOption, FilterMap}
use athome_japan_agent_harne.Llm.QueryParser.{
  ParserOutput, fields_of, option_for, demoted, place, resolve_labels, add_resolved, resolve_fields,
  resolve_plan,
}

module _ {ℓ} {A : Type ℓ} where
  In-left : (a : A) (xs ys : List A) → In a xs → In a (xs ++ ys)
  In-left a [] ys m = elim m [ ]
  In-left a (x ∷ xs) ys (inl e) = inl e
  In-left a (x ∷ xs) ys (inr m) = inr (In-left a xs ys m)

  In-last : (a : A) (xs : List A) → In a (xs ++ a ∷ [])
  In-last a [] = inl refl
  In-last a (x ∷ xs) = inr (In-last a xs)

-- Whatever is in the one state is in the other.
record Grows (before after : List String × List String) : Type 0 where
  codes : (c : String) → In c before.0 → In c after.0
  soft : (t : String) → In t before.1 → In t after.1

place-Grows :
    (field_name label : String) (o : Option FilterOption) (state : List String × List String)
    → Grows state (place field_name label o state)
place-Grows field_name label none (resolved, soft) = record {
  codes = λ c m. m;
  soft = λ t m. In-left t soft (demoted field_name label ∷ []) m;
}
place-Grows field_name label (some o) (resolved, soft) = record {
  codes = λ c m. In-left c resolved (o.code ∷ []) m;
  soft = λ t m. m;
}

-- A label has become a code, or else a soft preference.
abbrev Placed : String → String → Option FilterOption → List String × List String → Type 0
Placed field_name label none state = In (demoted field_name label) state.1
Placed field_name label (some o) state = In o.code state.0

place-Placed :
    (field_name label : String) (o : Option FilterOption) (state : List String × List String)
    → Placed field_name label o (place field_name label o state)
place-Placed field_name label none (resolved, soft) = In-last (demoted field_name label) soft
place-Placed field_name label (some o) (resolved, soft) = In-last o.code resolved

Placed-Grows :
    (field_name label : String) (o : Option FilterOption) (a b : List String × List String)
    → Grows a b
    → Placed field_name label o a
    → Placed field_name label o b
Placed-Grows field_name label none a b g m = g.soft (demoted field_name label) m
Placed-Grows field_name label (some o) a b g m = g.codes o.code m

module _ (field_name : String) (options : Option (List FilterOption)) where
  resolve_labels-Grows :
      (labels : List String) (state : List String × List String)
      → Grows state (resolve_labels field_name options labels state)
  unfolding resolve_labels
  resolve_labels-Grows [] state = record { codes = λ c m. m; soft = λ t m. m }
  resolve_labels-Grows (label ∷ labels) state =
      let placed = place field_name label (option_for options label) state in
      let g = place-Grows field_name label (option_for options label) state in
      let h = resolve_labels-Grows labels placed in
      record { codes = λ c m. h.codes c (g.codes c m); soft = λ t m. h.soft t (g.soft t m) }

  resolve_labels-Placed :
      (label : String) (labels : List String) (state : List String × List String)
      → In label labels
      → Placed field_name label
          (option_for options label)
          (resolve_labels field_name options labels state)
  unfolding resolve_labels
  resolve_labels-Placed label [] state m = elim m [ ]
  resolve_labels-Placed label (first ∷ labels) state (inl e) =
      let o = option_for options label in
      let placed = place field_name label o state in
      rw (← e) (
        Placed-Grows field_name label o placed (resolve_labels field_name options labels placed)
          (resolve_labels-Grows labels placed) (place-Placed field_name label o state))
  resolve_labels-Placed label (first ∷ labels) state (inr m) =
      resolve_labels-Placed label labels (place field_name first (option_for options first) state) m

-- The keys of a dictionary differ.
abbrev pub Keyed : Dict (List String) → Type 0
Keyed [] = Unit
Keyed ((k, v) ∷ d) = (any (λ (f : String × List String). f.0 == k) d ≡ false) × Keyed d

-- Where a label of the answer is in the plan.
abbrev pub Kept : String → String → Option FilterOption → Dict (List String) → List String → Type 0
Kept field_name label none hard soft = In (demoted field_name label) soft
Kept field_name label (some o) hard soft =
    (codes : List String) × (get field_name hard ≡ some codes) × In o.code codes

add_resolved-get :
    (field_name : String) (codes : List String) (c : String) (hard : Dict (List String))
    → In c codes
    → get field_name (add_resolved field_name codes hard) ≡ some codes
add_resolved-get field_name [] c hard m = elim m [ ]
add_resolved-get field_name (d ∷ codes) c hard m =
    get-put field_name field_name (d ∷ codes) hard ∙ rw (eq_refl field_name) refl

add_resolved-other :
    (k field_name : String) (codes : List String) (hard : Dict (List String))
    → (field_name == k) ≡ false
    → get k (add_resolved field_name codes hard) ≡ get k hard
add_resolved-other k field_name [] hard e = refl
add_resolved-other k field_name (d ∷ codes) hard e =
    get-put k field_name (d ∷ codes) hard ∙ rw e refl

module _ (fields : Dict (List FilterOption)) where
  resolve_fields-soft :
      (hard_filters : Dict (List String)) (hard : Dict (List String)) (soft : List String)
      (t : String)
      → In t soft
      → In t (resolve_fields fields hard_filters (hard, soft)).1
  unfolding resolve_fields
  resolve_fields-soft [] hard soft t m = m
  resolve_fields-soft ((field_name, labels) ∷ hard_filters) hard soft t m =
      let options = get field_name fields in
      let after = resolve_labels field_name options labels ([], soft) in
      resolve_fields-soft hard_filters (add_resolved field_name after.0 hard) after.1 t
        ((resolve_labels-Grows field_name options labels ([], soft)).soft t m)

  resolve_fields-hard :
      (k : String) (codes : List String) (hard_filters hard : Dict (List String))
      (soft : List String)
      → any (λ (f : String × List String). f.0 == k) hard_filters ≡ false
      → get k hard ≡ some codes
      → get k (resolve_fields fields hard_filters (hard, soft)).0 ≡ some codes
  unfolding resolve_fields
  resolve_fields-hard k codes [] hard soft fresh there = there
  resolve_fields-hard k codes ((field_name, labels) ∷ hard_filters) hard soft fresh there =
      let after = resolve_labels field_name (get field_name fields) labels ([], soft) in
      let other : (field_name == k) ≡ false = ground arith in
      let later : any (λ (f : String × List String). f.0 == k) hard_filters ≡ false =
        ground arith in
      resolve_fields-hard k codes hard_filters (add_resolved field_name after.0 hard) after.1 later
        (add_resolved-other k field_name after.0 hard other ∙ there)

  -- The field of a label is done: what is left of the loop keeps it.
  label-Kept :
      (field_name label : String) (o : Option FilterOption) (hard_filters hard : Dict (List String))
      (after : List String × List String)
      → any (λ (f : String × List String). f.0 == field_name) hard_filters ≡ false
      → Placed field_name label o after
      → Kept field_name label o
          (resolve_fields fields hard_filters (add_resolved field_name after.0 hard, after.1)).0
          (resolve_fields fields hard_filters (add_resolved field_name after.0 hard, after.1)).1
  label-Kept field_name label none hard_filters hard after fresh m =
      resolve_fields-soft hard_filters (add_resolved field_name after.0 hard) after.1
        (demoted field_name label) m
  label-Kept field_name label (some o) hard_filters hard after fresh m = (
    after.0,
    resolve_fields-hard field_name after.0 hard_filters (add_resolved field_name after.0 hard)
        after.1 fresh (add_resolved-get field_name after.0 o.code hard m),
    m,
  )

  resolve_fields-Kept :
      (field_name label : String) (labels : List String) (hard_filters hard : Dict (List String))
      (soft : List String)
      → Keyed hard_filters
      → In (field_name, labels) hard_filters
      → In label labels
      → Kept field_name label
          (option_for (get field_name fields) label)
          (resolve_fields fields hard_filters (hard, soft)).0
          (resolve_fields fields hard_filters (hard, soft)).1
  unfolding resolve_fields
  resolve_fields-Kept field_name label labels [] hard soft keyed m here = elim m [ ]
  resolve_fields-Kept field_name label labels ((k, v) ∷ hard_filters) hard soft (fresh, keyed)
        (inl e) here =
      let same_key : field_name ≡ k = ap (λ (f : String × List String). f.0) e in
      let same_labels : labels ≡ v = ap (λ (f : String × List String). f.1) e in
      let options = get k fields in
      let after = resolve_labels k options v ([], soft) in
      rw same_key (
        label-Kept k label (option_for options label) hard_filters hard after fresh
          (resolve_labels-Placed k options label v ([], soft) (rw same_labels at here)))
  resolve_fields-Kept field_name label labels ((k, v) ∷ hard_filters) hard soft (fresh, keyed)
        (inr m) here =
      let after = resolve_labels k (get k fields) v ([], soft) in
      resolve_fields-Kept field_name label labels hard_filters (add_resolved k after.0 hard) after.1
        keyed m here

All-of_In {ℓ} : {A : Type ℓ} {P : A → Type 0} (xs : List A) → ((x : A) → In x xs → P x) → All P xs
All-of_In [] h = tt
All-of_In (x ∷ xs) h = (h x (inl refl), All-of_In xs (λ y m. h y (inr m)))

-- What a plan has of an answer.
pub record KeepsAnswer (fields : Dict (List FilterOption)) (flow : String) (output : ParserOutput)
    (plan : SearchPlan) : Type 0 where
  pub flow_kept : plan.flow ≡ flow
  pub prefecture_kept : plan.prefecture ≡ output.prefecture
  pub cities_kept : plan.cities ≡ output.cities
  pub soft : All (λ t. In t plan.soft_prefs) output.soft_prefs
  pub labels :
      All
        (λ (f : String × List String).
          All
            (λ label.
              Kept f.0 label (option_for (get f.0 fields) label) plan.hard_filters plan.soft_prefs)
            f.1)
        output.hard_filters

-- Nothing of the model's answer is lost. The plan is for the flow that is given, and has the answer's
-- prefecture and cities. Each soft preference stays one. Each label of each hard filter either names an
-- option of the filter, and then the code of the first such option is among the plan's codes for the filter;
-- or it names none, and then it is a soft preference with the filter's name before it. The names of the
-- filters differ, as the keys of a dict do.
pub resolve_plan-Kept :
    (output : ParserOutput) (filter_map : FilterMap) (flow : String)
    → Keyed output.hard_filters
    → KeepsAnswer
        (fields_of (get flow filter_map.mappings))
        flow
        output
        (resolve_plan output filter_map flow)
unfolding resolve_plan
resolve_plan-Kept output filter_map flow keyed =
    let fields = fields_of (get flow filter_map.mappings) in
    record {
      flow_kept = refl;
      prefecture_kept = refl;
      cities_kept = refl;
      soft =
          All-of_In output.soft_prefs
            (λ t n. resolve_fields-soft fields output.hard_filters [] output.soft_prefs t n);
      labels = All-of_In output.hard_filters (λ (f : String × List String) m.
          All-of_In f.1 (λ label here.
            resolve_fields-Kept fields f.0 label f.1 output.hard_filters [] output.soft_prefs keyed
              m here));
    }
