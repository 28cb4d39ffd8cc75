-- ===== src/Campaigns/Graph/Diagnostics.antt =====
-- `Diagnostic` and `GraphValidation` of src/crm/campaigns/models.py, and the codes of `validate_graph`
-- in src/crm/campaigns/graph.py. A diagnostic carries its code and the step or connection that it
-- names; its message, a text made from these, is left out.
use main_sequence_crmapi.Common.{ℕ, Bool, Option, none, some, List, [], ◌∷◌, if◌then◌else◌}
use main_sequence_crmapi.Campaigns.Models.{GraphTransition}

pub data Code : Type 0 where
  entry_missing entry_invalid transition_source_invalid transition_outcome_unknown : Code
  transition_target_retired transition_target_invalid route_duplicate route_missing : Code
  prompt_missing prompt_archived variant_contract_mismatch comparison_metric_invalid : Code
  comparison_outcome_unknown comparison_metric_unreachable binding_undeclared : Code
  binding_invalid binding_predecessor_unreachable step_unreachable cycle graph_empty : Code

pub record Diagnostic : Type 0 where
  pub code : Code
  pub step_uid : Option ℕ
  pub transition_uid : Option ℕ

pub record GraphValidation : Type 0 where
  pub runnable : Bool
  pub diagnostics : List Diagnostic

abbrev pub diag : Code → Diagnostic
diag c = record { code = c; step_uid = none; transition_uid = none }

abbrev pub step_diag : Code → ℕ → Diagnostic
step_diag c uid = record { code = c; step_uid = some uid; transition_uid = none }

abbrev pub transition_diag : Code → GraphTransition → ℕ → Diagnostic
transition_diag c t uid = record { code = c; step_uid = some uid; transition_uid = some t.uid }

abbrev pub when : Bool → Diagnostic → List Diagnostic
when b d = if b then d ∷ [] else []
