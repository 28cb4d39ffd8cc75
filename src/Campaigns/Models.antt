-- ===== src/Campaigns/Models.antt =====
-- src/crm/campaigns/models.py: the values of a campaign graph and their validators. A UUID is its
-- 128-bit integer. The position of a step is kept as its JSON text, since it is only compared.
use main_sequence_crmapi.Common.{
  str_mem, all_different, uids_different, ℕ, ◌+◌, String, Bool, true, not, ◌&&◌, ◌||◌, Option, none,
  some, List, [], ◌∷◌, map, is_some, leb, ◌==◌, length,
}

-- the documented finite bounds
abbrev pub steps_max : ℕ
steps_max = 50

abbrev pub transitions_max : ℕ
transitions_max = 200

abbrev pub outcomes_max : ℕ
outcomes_max = 20

abbrev pub variants_max : ℕ
variants_max = 2

abbrev pub fields_max : ℕ
fields_max = 30

abbrev pub evidence_max : ℕ
evidence_max = 50

abbrev pub seconds_max : ℕ
seconds_max = 31622400

pub record Outcome : Type 0 where
  pub key : String
  pub label : String
  pub description : Option String

pub record PromptVariant : Type 0 where
  pub key : String
  pub label : String
  pub prompt_uid : ℕ
  pub allocation_percent : ℕ

pub record PromptComparison : Type 0 where
  pub key : String
  pub control_variant_key : String
  pub metric_step_uid : ℕ
  pub success_outcome_keys : List String
  pub observation_window_seconds : ℕ

pub data CompletionMode : Type 0 where
  human agent : CompletionMode

pub record StepFields : Type 0 where
  pub title : String
  pub task_text : String
  pub prompt_variants : List PromptVariant
  pub prompt_comparison : Option PromptComparison
  pub completion_mode : CompletionMode
  pub owner_uid : Option ℕ
  pub task_type_key : Option String
  pub due_after_seconds : Option ℕ
  pub input_bindings : List (String × String)
  pub completion_criteria : String
  pub outcomes : List Outcome
  pub position : Option String

abbrev pub variant_keys : StepFields → List String
variant_keys s = map (λ v. v.key) s.prompt_variants

abbrev pub outcome_keys : StepFields → List String
outcome_keys s = map (λ o. o.key) s.outcomes

unfoldable pub allocation_sum : List PromptVariant → ℕ
allocation_sum [] = 0
allocation_sum (v ∷ vs) = v.allocation_percent + allocation_sum vs

-- ge=1 and le=100 of each allocation
unfoldable pub allocations_bounded : List PromptVariant → Bool
allocations_bounded [] = true
allocations_bounded (v ∷ vs) =
    leb 1 v.allocation_percent && leb v.allocation_percent 100 && allocations_bounded vs

-- StepFields.consistent_definition
unfoldable pub consistent_definition : StepFields → Bool
unfolding allocation_sum all_different str_mem
consistent_definition s =
    all_different (variant_keys s)
    && (allocation_sum s.prompt_variants == 100)
    && not (length s.prompt_variants == 2 && not (is_some s.prompt_comparison))
    && not (length s.prompt_variants == 1 && is_some s.prompt_comparison)
    && elim s.prompt_comparison [
      | none ↦ true
      | some c ↦ str_mem c.control_variant_key (variant_keys s)
    ]
    && all_different (outcome_keys s)

-- the bounds on the lengths of a step's lists
unfoldable pub bounded_lists : StepFields → Bool
bounded_lists s =
    leb 1 (length s.prompt_variants)
    && leb (length s.prompt_variants) variants_max
    && leb 1 (length s.outcomes)
    && leb (length s.outcomes) outcomes_max
    && leb (length s.input_bindings) fields_max

pub record GraphStep : Type 0 where
  pub uid : ℕ
  pub archived : Bool
  pub fields : StepFields
  pub open fields use *

pub record GraphTransition : Type 0 where
  pub uid : ℕ
  pub from_step_uid : ℕ
  pub outcome_key : String
  pub to_step_uid : Option ℕ
  pub delay_seconds : ℕ

-- GraphTransition.finish_has_no_delay
unfoldable pub finish_has_no_delay : GraphTransition → Bool
finish_has_no_delay t = is_some t.to_step_uid || (t.delay_seconds == 0)

pub record CampaignGraph : Type 0 where
  pub entry_step_uid : Option ℕ
  pub steps : List GraphStep
  pub transitions : List GraphTransition

-- CampaignGraph.unique_identities, with the bounds on the two lists
unfoldable pub unique_identities : CampaignGraph → Bool
unfolding uids_different
unique_identities g =
    uids_different (map (λ (s : GraphStep). s.uid) g.steps)
    && uids_different (map (λ (t : GraphTransition). t.uid) g.transitions)
    && leb (length g.steps) steps_max
    && leb (length g.transitions) transitions_max

-- a declared prompt input or result field
pub record ValueField : Type 0 where
  pub key : String
  pub type : String
  pub required : Bool
