-- ===== src/Campaigns/Briefing/Tests.antt =====
-- Runs of src/crm/campaigns/briefing.py, and the theorems at these.
use main_sequence_crmapi.Common.{
  str_mem, ℕ, String, str_eq, eq_iff, ◌≡◌, refl, inl, inr, Bool, true, false, Option, none, some,
  List, [], ◌∷◌, arith, is_some, Bool-cases,
}
use main_sequence_crmapi.Campaigns.Models.{PromptVariant, ValueField}
use main_sequence_crmapi.Campaigns.Briefing.{
  contact_fields, choose_variant, resolve_binding, value_matches, value_of, fields_of,
  validate_result, Json, Fields, BriefCampaign, text, no_fields, field,
}
use main_sequence_crmapi.Campaigns.Briefing.Variants.{
  choose_variant_share, Agree, resolve_binding_private,
}
use main_sequence_crmapi.Campaigns.Briefing.Contracts.{valid_result_conforms}

abbrev variant_a : PromptVariant
variant_a = record { key = "a"; label = "A"; prompt_uid = 1; allocation_percent = 30 }

abbrev variant_b : PromptVariant
variant_b = record { key = "b"; label = "B"; prompt_uid = 2; allocation_percent = 70 }

choose_variant_share_example : choose_variant (variant_a ∷ variant_b ∷ []) 99 ≡ some variant_b
unfolding main_sequence_crmapi.Campaigns.Models.allocation_sum
choose_variant_share_example =
    choose_variant_share (variant_a ∷ []) variant_b [] 99 (ground arith) (ground arith)

abbrev note_field : ValueField
note_field = record { key = "note"; type = "string"; required = true }

abbrev noted : List (String × Json)
noted = ("note", text "done") ∷ []

abbrev no_times : String → Bool
no_times s = false

abbrev no_index : String → Option ℕ
no_index s = none

noted-valid : validate_result no_times noted (note_field ∷ []) ≡ []
unfolding main_sequence_crmapi.Campaigns.Briefing.validate_result
    main_sequence_crmapi.Campaigns.Briefing.fields_of
    main_sequence_crmapi.Campaigns.Briefing.unknown_fields
    main_sequence_crmapi.Campaigns.Briefing.field_problems
noted-valid = refl

valid_result_conforms_example :
    ((key : String) (v : Json)
      → value_of noted key ≡ some v
      → (f : ValueField) × (value_of (fields_of (note_field ∷ []) []) key ≡ some f)
        × (value_matches no_times v f.type ≡ true))
    × ((key : String) (f : ValueField)
        → value_of (fields_of (note_field ∷ []) []) key ≡ some f
        → f.required ≡ true
        → is_some (value_of noted key) ≡ true)
valid_result_conforms_example = valid_result_conforms no_times noted (note_field ∷ []) noted-valid

abbrev mail : BriefCampaign
mail = record { name = "Letters"; objective = "Write"; context = no_fields }

abbrev lina_public : Fields
lina_public = field "title" (text "Dr") no_fields

abbrev lina_full : Fields
lina_full = field "title" (text "Dr") (field "secret" (text "x") no_fields)

secret-hidden : str_mem "secret" contact_fields ≡ false
unfolding main_sequence_crmapi.Common.str_mem
secret-hidden = refl

lina-Agree : Agree lina_public lina_full
unfolding main_sequence_crmapi.Campaigns.Briefing.look
lina-Agree name listed = elim (Bool-cases (str_eq "secret" name)) [
  | inl e ↦
      let same : "secret" ≡ name = (eq_iff "secret" name).0 e in
      let out : str_mem "secret" contact_fields ≡ true = rw (same) listed in
      ground (arith, out, secret-hidden)
  | inr e ↦ rw (e) refl
]

resolve_binding_private_example :
    resolve_binding no_index mail lina_public no_fields [] "contact.title"
    ≡ resolve_binding no_index mail lina_full no_fields [] "contact.title"
resolve_binding_private_example =
    resolve_binding_private no_index mail lina_public lina_full no_fields [] "contact.title"
      lina-Agree
