-- ===== src/Campaigns/Briefing.antt =====
-- src/crm/campaigns/briefing.py: the choice of a prompt variant, the values of a prompt's inputs, and
-- the contract of a result. The parser of times, and that of a list index, are parameters.
pub mod Variants
pub mod Contracts
mod Tests
use main_sequence_crmapi.Common.{
  str_mem, ℕ, zero, suc, ◌+◌, String, str_eq, Bool, true, false, Option, none, some, List, [], ◌∷◌,
  ◌++◌, is_some, ltb, if◌then◌else◌,
}
use main_sequence_crmapi.Campaigns.Models.{PromptVariant, ValueField}
use main_sequence_crmapi.Campaigns.Graph.StepChecks.{resolve, split_path}

-- a decoded JSON value; a number is its text
mutual
  pub data Json : Type 0 where
    null : Json
    boolean : Bool → Json
    number : String → Json
    text : String → Json
    array : Items → Json
    object : Fields → Json

  pub data Items : Type 0 where
    no_items : Items
    item : Json → Items → Items

  pub data Fields : Type 0 where
    no_fields : Fields
    field : String → Json → Fields → Fields

-- value[key], where it is there
unfoldable pub look : Fields → String → Option Json
look no_fields key = none
look (field k v rest) key = if str_eq k key then some v else look rest key

-- value[i], where it is there
unfoldable pub at_index : Items → ℕ → Option Json
at_index no_items i = none
at_index (item v rest) zero = some v
at_index (item v rest) (suc i) = at_index rest i

abbrev pub contact_fields : List String
contact_fields =
    "uid" ∷ "display_name" ∷ "first_name" ∷ "last_name" ∷ "title" ∷ "company_uid" ∷ "company_name"
    ∷ "status_key" ∷ "emails" ∷ "phones" ∷ "socials" ∷ "background" ∷ "last_seen" ∷ []

-- the loop of choose_variant, from the running sum; `last` is the last variant
unfoldable pub choose_from : ℕ → ℕ → List PromptVariant → PromptVariant → PromptVariant
choose_from point sum [] last = last
choose_from point sum (v ∷ variants) last =
    let later = choose_from point (sum + v.allocation_percent) variants last in
    if ltb point (sum + v.allocation_percent) then v else later

abbrev pub last_of : PromptVariant → List PromptVariant → PromptVariant
last_of v [] = v
last_of v (w ∷ variants) = last_of w variants

-- `point` is the whole part of rng.random() * 100, which is below a whole number when the point is.
-- There is nothing to choose from no variants: the source raises IndexError.
unfoldable pub choose_variant : List PromptVariant → ℕ → Option PromptVariant
unfolding choose_from
choose_variant [] point = none
choose_variant (v ∷ []) point = some v
choose_variant (v ∷ w ∷ variants) point =
    some (choose_from point 0 (v ∷ w ∷ variants) (last_of w variants))

pub record BriefCampaign : Type 0 where
  pub name : String
  pub objective : String
  pub context : Fields

-- previous_results.get(uid)
unfoldable pub result_of : List (String × Fields) → String → Option Fields
result_of [] uid = none
result_of ((u, r) ∷ results) uid = if str_eq u uid then some r else result_of results uid

module _ (index_of : String → Option ℕ) where
  -- _walk
  unfoldable pub walk : Json → List String → Option Json
  unfolding look at_index
  walk value [] = some value
  walk (object fs) (part ∷ parts) = elim (look fs part) [ none ↦ none | some v ↦ walk v parts ]
  walk (array items) (part ∷ parts) = elim (index_of part) [
    | none ↦ none
    | some i ↦ elim (at_index items i) [ none ↦ none | some v ↦ walk v parts ]
  ]
  walk null (part ∷ parts) = none
  walk (boolean b) (part ∷ parts) = none
  walk (number n) (part ∷ parts) = none
  walk (text s) (part ∷ parts) = none

  abbrev pub in_campaign : BriefCampaign → List String → Option Json
  in_campaign c [] = none
  in_campaign c (name ∷ []) =
      if str_eq name "name"
      then some (text c.name)
      else if str_eq name "objective"
      then some (text c.objective)
      else none
  in_campaign c (name ∷ part ∷ parts) =
      if str_eq name "context" then walk (object c.context) (part ∷ parts) else none

  abbrev pub in_contact : Fields → List String → Option Json
  in_contact contact [] = none
  in_contact contact (name ∷ parts) =
      if str_mem name contact_fields then walk (object contact) (name ∷ parts) else none

  abbrev pub in_participant : Fields → List String → Option Json
  in_participant context [] = none
  in_participant context (name ∷ []) = none
  in_participant context (name ∷ part ∷ parts) =
      if str_eq name "context" then walk (object context) (part ∷ parts) else none

  abbrev pub in_previous : List (String × Fields) → List String → Option Json
  in_previous results [] = none
  in_previous results (uid ∷ []) = none
  in_previous results (uid ∷ name ∷ []) = none
  in_previous results (uid ∷ name ∷ part ∷ parts) =
      if str_eq name "result"
      then elim (result_of results uid) [ none ↦ none | some r ↦ walk (object r) (part ∷ parts) ]
      else none

  -- resolve_binding, on the parts of the path
  unfoldable pub resolve_parts :
      BriefCampaign → Fields → Fields → List (String × Fields) → List String → Option Json
  resolve_parts campaign contact participant results [] = none
  resolve_parts campaign contact participant results (root ∷ parts) =
      if str_eq root "campaign"
      then in_campaign campaign parts
      else if str_eq root "contact"
      then in_contact contact parts
      else if str_eq root "participant"
      then in_participant participant parts
      else if str_eq root "previous"
      then in_previous results parts
      else none

  unfoldable pub resolve_binding :
      BriefCampaign → Fields → Fields → List (String × Fields) → String → Option Json
  resolve_binding campaign contact participant results path =
      resolve_parts campaign contact participant results (split_path path)

module _ (is_datetime : String → Bool) where
  -- value_matches
  unfoldable pub value_matches : Json → String → Bool
  value_matches null expected = false
  value_matches (boolean b) expected = str_eq expected "boolean"
  value_matches (number n) expected = str_eq expected "number"
  value_matches (text s) expected =
      if str_eq expected "string"
      then true
      else if str_eq expected "datetime"
      then is_datetime s
      else false
  value_matches (array items) expected = str_eq expected "array"
  value_matches (object fs) expected = str_eq expected "object"

-- the diagnostics of a briefing's inputs, and the problems of a result
pub data InputCode : Type 0 where
  input_unbound input_missing input_type : InputCode

pub data ResultCode : Type 0 where
  unknown_field missing wrong_type : ResultCode

pub record Inputs : Type 0 where
  pub values : List (String × Json)
  pub diagnostics : List (InputCode × String)

-- d.get(key), on texts
unfoldable pub value_of {ℓ} : {V : Type ℓ} → List (String × V) → String → Option V
value_of [] key = none
value_of ((k, v) ∷ d) key = if str_eq k key then some v else value_of d key

-- d[key] = v, on texts
unfoldable pub set_value {ℓ} : {V : Type ℓ} → List (String × V) → String → V → List (String × V)
set_value [] key v = (key, v) ∷ []
set_value ((k, w) ∷ d) key v = if str_eq k key then (k, v) ∷ d else (k, w) ∷ set_value d key v

-- None in the source is a value that is not there
abbrev pub present : Option Json → Option Json
present none = none
present (some null) = none
present (some (boolean b)) = some (boolean b)
present (some (number n)) = some (number n)
present (some (text s)) = some (text s)
present (some (array items)) = some (array items)
present (some (object fs)) = some (object fs)

abbrev pub complain : ValueField → InputCode → Inputs → Inputs
complain f code acc =
    if f.required then record acc { diagnostics = acc.diagnostics ++ (code, f.key) ∷ [] } else acc

-- {field["key"]: field for field in declared}, onto `acc`
unfoldable pub fields_of : List ValueField → List (String × ValueField) → List (String × ValueField)
unfolding set_value
fields_of [] acc = acc
fields_of (f ∷ declared) acc = fields_of declared (set_value acc f.key f)

-- the first loop of validate_result
unfoldable pub unknown_fields :
    List (String × ValueField) → List (String × Json) → List (ResultCode × String)
unfolding value_of
unknown_fields fs [] = []
unknown_fields fs ((key, v) ∷ result) =
    let rest = unknown_fields fs result in
    if is_some (value_of fs key) then rest else (unknown_field, key) ∷ rest

module _ (resolve : String → Option Json) (is_datetime : String → Bool) where
  -- the body of the loop of resolve_inputs, for a bound input
  unfoldable pub resolve_bound : ValueField → String → Inputs → Inputs
  resolve_bound f path acc = elim (present (resolve path)) [
    | none ↦ complain f input_missing acc
    | some v ↦
        if value_matches is_datetime v f.type
        then record acc { values = set_value acc.values f.key v }
        else record acc { diagnostics = acc.diagnostics ++ (input_type, f.key) ∷ [] }
  ]

  unfoldable pub resolve_input : List (String × String) → ValueField → Inputs → Inputs
  resolve_input bindings f acc = elim (value_of bindings f.key) [
    | none ↦ complain f input_unbound acc
    | some path ↦ resolve_bound f path acc
  ]

  unfoldable pub resolve_all_inputs : List (String × String) → List ValueField → Inputs → Inputs
  resolve_all_inputs bindings [] acc = acc
  resolve_all_inputs bindings (f ∷ declared) acc =
      resolve_all_inputs bindings declared (resolve_input bindings f acc)

  unfoldable pub resolve_inputs : List (String × String) → List ValueField → Inputs
  resolve_inputs bindings declared =
      resolve_all_inputs bindings declared (record { values = []; diagnostics = [] })

module _ (is_datetime : String → Bool) where
  -- the second loop of validate_result
  unfoldable pub field_problems :
      List (String × Json) → List (String × ValueField) → List (ResultCode × String)
  unfolding value_of value_matches
  field_problems result [] = []
  field_problems result ((key, f) ∷ fs) =
      let rest = field_problems result fs in
      elim (value_of result key) [
        | none ↦ if f.required then (missing, key) ∷ rest else rest
        | some v ↦ if value_matches is_datetime v f.type then rest else (wrong_type, key) ∷ rest
      ]

  unfoldable pub validate_result :
      List (String × Json) → List ValueField → List (ResultCode × String)
  validate_result result declared =
      unknown_fields (fields_of declared []) result ++ field_problems result (fields_of declared [])
