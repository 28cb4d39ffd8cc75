-- ===== src/Campaigns/Graph/Validate.antt =====
-- `validate_graph` of src/crm/campaigns/graph.py.
pub mod Spec
mod Quiet
pub mod Runnable
use main_sequence_crmapi.Common.{
  mem, ℕ, String, true, false, not, Option, none, some, List, [], ◌∷◌, ◌++◌, Dict, has,
  if◌then◌else◌,
}
use main_sequence_crmapi.Campaigns.Models.{GraphStep, CampaignGraph}
use main_sequence_crmapi.Campaigns.Graph.Closure.{Adjacency, closure}
use main_sequence_crmapi.Campaigns.Graph.Cycles.{cycle_members}
use main_sequence_crmapi.Campaigns.Graph.Diagnostics.{
  diag, step_diag, when, Diagnostic, GraphValidation, entry_missing, entry_invalid,
  step_unreachable, cycle, graph_empty,
}
use main_sequence_crmapi.Campaigns.Graph.Transitions.{
  active_steps, archived_uids, scan_all, no_edges, duplicate_diagnostics, Scanned,
}
use main_sequence_crmapi.Campaigns.Graph.StepChecks.{Prompts, steps_diagnostics}

unfoldable pub entry_diagnostics : CampaignGraph → Dict GraphStep → List Diagnostic
entry_diagnostics graph steps = elim graph.entry_step_uid [
  | none ↦ diag entry_missing ∷ []
  | some uid ↦ when (not (has steps uid)) (step_diag entry_invalid uid)
]

unfoldable pub missing_from : List ℕ → Dict GraphStep → List Diagnostic
missing_from reachable [] = []
missing_from reachable ((uid, s) ∷ steps) =
    when (not (mem uid reachable)) (step_diag step_unreachable uid) ++ missing_from reachable steps

-- if graph.entry_step_uid in steps
unfoldable pub reach_diagnostics : Option ℕ → Dict GraphStep → Adjacency → List Diagnostic
reach_diagnostics none steps adj = []
reach_diagnostics (some entry) steps adj =
    if has steps entry then missing_from (closure adj entry) steps else []

unfoldable pub cycle_diagnostics : List ℕ → List Diagnostic
cycle_diagnostics [] = []
cycle_diagnostics (uid ∷ uids) = step_diag cycle uid ∷ cycle_diagnostics uids

abbrev pub empty_diagnostics : Dict GraphStep → List Diagnostic
empty_diagnostics [] = diag graph_empty ∷ []
empty_diagnostics (e ∷ steps) = []

-- runnable=not diagnostics
abbrev pub verdict : List Diagnostic → GraphValidation
verdict [] = record { runnable = true; diagnostics = [] }
verdict (d ∷ ds) = record { runnable = false; diagnostics = d ∷ ds }

abbrev pub scan_graph : CampaignGraph → Scanned
scan_graph graph =
    let steps = active_steps graph in
    scan_all steps (archived_uids graph.steps)
      (record { diagnostics = []; adjacency = no_edges steps; routes = [] }) graph.transitions

module _ (parse_uuid : String → Option ℕ) where
  -- all diagnostics but those of the cycle test, in two parts: before it and after it
  unfoldable pub acyclic_diagnostics : CampaignGraph → Prompts → List Diagnostic
  acyclic_diagnostics graph prompts =
      let steps = active_steps graph in
      let scanned = scan_graph graph in
      entry_diagnostics graph steps
      ++ (scanned.diagnostics
          ++ (duplicate_diagnostics scanned.routes
              ++ (steps_diagnostics parse_uuid prompts steps scanned.adjacency scanned.routes steps
                  ++ reach_diagnostics graph.entry_step_uid steps scanned.adjacency)))

  -- `none` is a KeyError in `_cycle_members`
  unfoldable pub validate_graph : CampaignGraph → Prompts → Option GraphValidation
  validate_graph graph prompts = elim (cycle_members (scan_graph graph).adjacency) [
    | none ↦ none
    | some members ↦ some (
        verdict (
          acyclic_diagnostics graph prompts
          ++ (cycle_diagnostics members ++ empty_diagnostics (active_steps graph))))
  ]
