-- ===== src/Campaigns/Graph/Changes.antt =====
-- layout_only_change and comparison_changed of src/crm/campaigns/graph.py: the comparison of the fields of a step
-- before and after an edit. Two JSON objects are equal when they have the same keys with the same values.
use main_sequence_crmapi.Common.{
  ℕ, String, str_eq, Bool, true, false, not, ◌&&◌, Option, none, some, List, [], ◌∷◌, ◌==◌,
}
use main_sequence_crmapi.Campaigns.Models.{
  Outcome, PromptVariant, PromptComparison, CompletionMode, StepFields, human, agent,
}
use main_sequence_crmapi.Campaigns.Briefing.{value_of}

module _ {ℓ} {A : Type ℓ} (same : A → A → Bool) where
  unfoldable pub same_list : List A → List A → Bool
  same_list [] [] = true
  same_list [] (y ∷ ys) = false
  same_list (x ∷ xs) [] = false
  same_list (x ∷ xs) (y ∷ ys) = same x y && same_list xs ys

  abbrev pub same_option : Option A → Option A → Bool
  same_option none none = true
  same_option none (some b) = false
  same_option (some a) none = false
  same_option (some a) (some b) = same a b

abbrev pub same_uid : ℕ → ℕ → Bool
same_uid a b = a == b

abbrev pub same_variant : PromptVariant → PromptVariant → Bool
same_variant v w =
    str_eq v.key w.key
    && str_eq v.label w.label
    && v.prompt_uid == w.prompt_uid
    && v.allocation_percent == w.allocation_percent

abbrev pub same_comparison : PromptComparison → PromptComparison → Bool
same_comparison c d =
    str_eq c.key d.key
    && str_eq c.control_variant_key d.control_variant_key
    && c.metric_step_uid == d.metric_step_uid
    && same_list str_eq c.success_outcome_keys d.success_outcome_keys
    && c.observation_window_seconds == d.observation_window_seconds

abbrev pub same_mode : CompletionMode → CompletionMode → Bool
same_mode human human = true
same_mode human agent = false
same_mode agent human = false
same_mode agent agent = true

abbrev pub same_outcome : Outcome → Outcome → Bool
same_outcome o p =
    str_eq o.key p.key && str_eq o.label p.label && same_option str_eq o.description p.description

-- the values of the keys of the first are those in the second
unfoldable pub within :
    List (String × String) → List (String × String) → List (String × String) → Bool
unfolding main_sequence_crmapi.Campaigns.Briefing.value_of
within [] xs ys = true
within ((key, v) ∷ keys) xs ys =
    same_option str_eq (value_of xs key) (value_of ys key) && within keys xs ys

abbrev pub same_bindings : List (String × String) → List (String × String) → Bool
same_bindings xs ys = within xs xs ys && within ys xs ys

-- the fields that a change of the comparison reads
unfoldable pub same_exposure : StepFields → StepFields → Bool
unfolding same_list within
same_exposure a b =
    same_list same_variant a.prompt_variants b.prompt_variants
    && same_option same_comparison a.prompt_comparison b.prompt_comparison
    && str_eq a.task_text b.task_text
    && str_eq a.completion_criteria b.completion_criteria
    && same_list same_outcome a.outcomes b.outcomes
    && same_bindings a.input_bindings b.input_bindings
    && same_mode a.completion_mode b.completion_mode
    && same_option same_uid a.due_after_seconds b.due_after_seconds

abbrev pub comparison_changed : StepFields → StepFields → Bool
comparison_changed before later = not (same_exposure before later)

unfoldable pub layout_only_change : StepFields → StepFields → Bool
unfolding same_exposure
layout_only_change before later =
    same_exposure before later
    && str_eq before.title later.title
    && same_option same_uid before.owner_uid later.owner_uid
    && same_option str_eq before.task_type_key later.task_type_key

-- before == after
unfoldable pub same_fields : StepFields → StepFields → Bool
unfolding layout_only_change
same_fields before later =
    layout_only_change before later && same_option str_eq before.position later.position
