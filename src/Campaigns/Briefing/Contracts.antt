-- ===== src/Campaigns/Briefing/Contracts.antt =====
-- validate_result of src/crm/campaigns/briefing.py.
use main_sequence_crmapi.Common.{
  String, eq_iff, ◌≡◌, refl, inl, inr, Bool, true, some, List, [], ◌∷◌, ◌++◌, arith, is_some,
  Option-cases,
}
use main_sequence_crmapi.Campaigns.Models.{ValueField}
use main_sequence_crmapi.Campaigns.Briefing.{
  value_matches, value_of, fields_of, unknown_fields, field_problems, validate_result, Json,
}

module _ (is_datetime : String → Bool) where
  required_there :
      (result : List (String × Json)) (fs : List (String × ValueField)) (key : String)
      (f : ValueField)
      → field_problems is_datetime result fs ≡ []
      → value_of fs key ≡ some f
      → f.required ≡ true
      → is_some (value_of result key) ≡ true
  unfolding main_sequence_crmapi.Campaigns.Briefing.field_problems
      main_sequence_crmapi.Campaigns.Briefing.value_of
  required_there result [] key f quiet found need = ground (arith, found)
  required_there result ((k, g) ∷ fs) key f quiet found need =
      ground (arith, quiet, found, need, (eq_iff k key).0, required_there result fs key f)

  types_match :
      (result : List (String × Json)) (fs : List (String × ValueField)) (key : String)
      (f : ValueField) (v : Json)
      → field_problems is_datetime result fs ≡ []
      → value_of fs key ≡ some f
      → value_of result key ≡ some v
      → value_matches is_datetime v f.type ≡ true
  unfolding main_sequence_crmapi.Campaigns.Briefing.field_problems
      main_sequence_crmapi.Campaigns.Briefing.value_of
  types_match result [] key f v quiet found there = ground (arith, found)
  types_match result ((k, g) ∷ fs) key f v quiet found there =
      ground (arith, quiet, found, there, (eq_iff k key).0, types_match result fs key f v)

  known_field :
      (fs : List (String × ValueField)) (result : List (String × Json)) (key : String) (v : Json)
      → unknown_fields fs result ≡ []
      → value_of result key ≡ some v
      → is_some (value_of fs key) ≡ true
  unfolding main_sequence_crmapi.Campaigns.Briefing.unknown_fields
      main_sequence_crmapi.Campaigns.Briefing.value_of
  known_field fs [] key v quiet found = ground (arith, found)
  known_field fs ((k, w) ∷ result) key v quiet found =
      ground (arith, quiet, found, (eq_iff k key).0, known_field fs result key v)

append_nil {ℓ} : {A : Type ℓ} (xs ys : List A) → xs ++ ys ≡ [] → (xs ≡ []) × (ys ≡ [])
append_nil [] ys h = (refl, h)
append_nil (x ∷ xs) ys h = ground (arith, h)

-- A result with no problems has declared keys only, every required field, and a value of the declared
-- type for each field that it has.
pub valid_result_conforms :
    (is_datetime : String → Bool) (result : List (String × Json)) (declared : List ValueField)
    → validate_result is_datetime result declared ≡ []
    → ((key : String) (v : Json)
        → value_of result key ≡ some v
        → (f : ValueField) × (value_of (fields_of declared []) key ≡ some f)
          × (value_matches is_datetime v f.type ≡ true))
      × ((key : String) (f : ValueField)
          → value_of (fields_of declared []) key ≡ some f
          → f.required ≡ true
          → is_some (value_of result key) ≡ true)
unfolding main_sequence_crmapi.Campaigns.Briefing.validate_result
valid_result_conforms is_datetime result declared h =
    let fs : List (String × ValueField) = fields_of declared [] in
    let (known, quiet) =
      append_nil (unknown_fields fs result) (field_problems is_datetime result fs) h in
    (
      λ key v there. elim (Option-cases (value_of fs key)) [
        | inl e ↦ ground (arith, e, known_field is_datetime fs result key v known there)
        | inr (f, e) ↦ (f, e, types_match is_datetime result fs key f v quiet e there)
      ],
      λ key f found need. required_there is_datetime result fs key f quiet found need,
    )
