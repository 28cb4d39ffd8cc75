-- ===== src/Campaigns/Service/Graphs/Same.antt =====
-- The comparisons of src/crm/campaigns/graph.py hold between a value and itself.
use main_sequence_crmapi.Common.{
  ℕ, String, str_eq, eq_iff, ◌≡◌, refl, Bool, true, Option, none, some, List, [], ◌∷◌, arith,
}
use main_sequence_crmapi.Campaigns.Models.{
  Outcome, PromptVariant, PromptComparison, CompletionMode, StepFields, human, agent,
}
use main_sequence_crmapi.Campaigns.Briefing.{value_of}
use main_sequence_crmapi.Campaigns.Graph.Changes.{
  same_list, same_option, same_uid, same_variant, same_comparison, same_mode, same_outcome, within,
  same_exposure, same_fields,
}

same_list_refl {ℓ} :
    {A : Type ℓ} (same : A → A → Bool)
    → ((a : A) → same a a ≡ true)
    → (xs : List A) → same_list same xs xs ≡ true
unfolding main_sequence_crmapi.Campaigns.Graph.Changes.same_list
same_list_refl same h [] = refl
same_list_refl same h (x ∷ xs) = rw (h x) (same_list_refl same h xs)

pub same_option_refl {ℓ} :
    {A : Type ℓ} (same : A → A → Bool)
    → ((a : A) → same a a ≡ true)
    → (o : Option A) → same_option same o o ≡ true
same_option_refl same h none = refl
same_option_refl same h (some a) = h a

pub str_refl : (s : String) → str_eq s s ≡ true
str_refl s = (eq_iff s s).1 refl

pub uid_refl : (a : ℕ) → same_uid a a ≡ true
uid_refl a = ground arith

variant_refl : (v : PromptVariant) → same_variant v v ≡ true
variant_refl v = ground (arith, str_refl v.key, str_refl v.label)

comparison_refl : (c : PromptComparison) → same_comparison c c ≡ true
comparison_refl c = ground (
  arith,
  str_refl c.key,
  str_refl c.control_variant_key,
  same_list_refl str_eq str_refl c.success_outcome_keys,
)

mode_refl : (m : CompletionMode) → same_mode m m ≡ true
mode_refl human = refl
mode_refl agent = refl

outcome_refl : (o : Outcome) → same_outcome o o ≡ true
outcome_refl o =
    ground (arith, str_refl o.key, str_refl o.label, same_option_refl str_eq str_refl o.description)

within_refl : (keys xs : List (String × String)) → within keys xs xs ≡ true
unfolding main_sequence_crmapi.Campaigns.Graph.Changes.within
within_refl [] xs = refl
within_refl ((key, v) ∷ keys) xs =
    ground (arith, same_option_refl str_eq str_refl (value_of xs key), within_refl keys xs)

exposure_refl : (a : StepFields) → same_exposure a a ≡ true
unfolding main_sequence_crmapi.Campaigns.Graph.Changes.same_exposure
exposure_refl a = ground (
  arith,
  same_list_refl same_variant variant_refl a.prompt_variants,
  same_option_refl same_comparison comparison_refl a.prompt_comparison,
  str_refl a.task_text,
  str_refl a.completion_criteria,
  same_list_refl same_outcome outcome_refl a.outcomes,
  within_refl a.input_bindings a.input_bindings,
  mode_refl a.completion_mode,
  same_option_refl same_uid uid_refl a.due_after_seconds,
)

pub fields_refl : (a : StepFields) → same_fields a a ≡ true
unfolding main_sequence_crmapi.Campaigns.Graph.Changes.same_fields
    main_sequence_crmapi.Campaigns.Graph.Changes.layout_only_change
fields_refl a = ground (
  arith,
  exposure_refl a,
  str_refl a.title,
  same_option_refl same_uid uid_refl a.owner_uid,
  same_option_refl str_eq str_refl a.task_type_key,
  same_option_refl str_eq str_refl a.position,
)
