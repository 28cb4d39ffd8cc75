-- ===== src/Campaigns/Graph/Tests.antt =====
-- Runs of src/crm/campaigns/graph.py on small graphs, and the theorems at these.
use main_sequence_crmapi.Common.{
  get, put, dict_keys, str_mem, any, mem, set_add, ℕ, ◌<◌, String, str_eq, ◌≡◌, refl, ◌↔◌, true,
  false, Option, none, some, List, [], ◌∷◌, arith, if◌then◌else◌,
}
use main_sequence_crmapi.Campaigns.Models.{
  StepFields, GraphStep, GraphTransition, CampaignGraph, human,
}
use main_sequence_crmapi.Campaigns.Graph.Closure.{
  Adjacency, targets, Edge, closure, reaches, closure_correct, Reach, here, step,
}
use main_sequence_crmapi.Campaigns.Graph.Cycles.{keys, cycle_members, looped}
use main_sequence_crmapi.Campaigns.Graph.Cycles.Degrees.{IsGraph}
use main_sequence_crmapi.Campaigns.Graph.Cycles.Members.{
  cycle_members_correct, OnCycle, cycle_members_behind, cycle_members_ranked, Trapped,
}
use main_sequence_crmapi.Campaigns.Graph.Diagnostics.{GraphValidation}
use main_sequence_crmapi.Campaigns.Graph.Transitions.{
  active_steps, archived_uids, add_route, has_route, add_edge, scan_target, scan_from,
  scan_transition, scan_all, no_edges, duplicate_diagnostics,
}
use main_sequence_crmapi.Campaigns.Graph.StepChecks.{
  route_diagnostics, Prompts, variant_diagnostics, contract_diagnostics, comparison_diagnostics,
  declared_inputs, binding_diagnostics, step_diagnostics, steps_diagnostics,
}
use main_sequence_crmapi.Campaigns.Graph.Validate.{
  entry_diagnostics, missing_from, reach_diagnostics, cycle_diagnostics, acyclic_diagnostics,
  validate_graph,
}
use main_sequence_crmapi.Campaigns.Graph.Validate.Spec.{IsRunnable}
use main_sequence_crmapi.Campaigns.Graph.Validate.Runnable.{runnable_sound, validate_graph_total}

-- UUIDs are written as small numbers here
abbrev parse_sample : String → Option ℕ
parse_sample s = if str_eq s "1" then some 1 else none

abbrev fields : List (String × String) → StepFields
fields bindings = record {
  title = "Call";
  task_text = "Call the contact";
  prompt_variants =
      (record { key = "A"; label = "A"; prompt_uid = 9; allocation_percent = 100 }) ∷ [];
  prompt_comparison = none;
  completion_mode = human;
  owner_uid = none;
  task_type_key = none;
  due_after_seconds = none;
  input_bindings = bindings;
  completion_criteria = "Done";
  outcomes = (record { key = "ok"; label = "Ok"; description = none }) ∷ [];
  position = none;
}

abbrev first_step : GraphStep
first_step = record { uid = 1; archived = false; fields = fields [] }

abbrev second_step : GraphStep
second_step = record {
  uid = 2;
  archived = false;
  fields = fields (("note", "previous.1.result.note") ∷ []);
}

abbrev connection : ℕ → ℕ → Option ℕ → GraphTransition
connection uid from to = record {
  uid = uid;
  from_step_uid = from;
  outcome_key = "ok";
  to_step_uid = to;
  delay_seconds = 0;
}

abbrev two_steps : CampaignGraph
two_steps = record {
  entry_step_uid = some 1;
  steps = first_step ∷ second_step ∷ [];
  transitions = connection 11 1 (some 2) ∷ connection 12 2 none ∷ [];
}

abbrev prompts : Prompts
prompts = some (
    (
      9,
      record {
        archived = false;
        inputs = (record { key = "note"; type = "string"; required = true }) ∷ [];
        result_fields = [];
      },
    )
    ∷ [])

program : Unit {0}
unfolding active_steps archived_uids scan_all scan_transition scan_from scan_target add_route
    add_edge has_route no_edges duplicate_diagnostics route_diagnostics variant_diagnostics
    contract_diagnostics comparison_diagnostics declared_inputs binding_diagnostics step_diagnostics
    steps_diagnostics entry_diagnostics missing_from reach_diagnostics cycle_diagnostics
    acyclic_diagnostics validate_graph closure reaches cycle_members any mem get put dict_keys
    str_mem set_add
program = tt

two_steps_run :
    validate_graph parse_sample two_steps prompts
    ≡ some (record { runnable = true; diagnostics = [] })
unfolding program
two_steps_run = refl

runnable_sound_example : IsRunnable two_steps prompts
runnable_sound_example =
    runnable_sound parse_sample two_steps prompts (record { runnable = true; diagnostics = [] })
      two_steps_run refl

validate_graph_total_example :
    (v : GraphValidation) × (validate_graph parse_sample two_steps prompts ≡ some v)
validate_graph_total_example = validate_graph_total parse_sample two_steps prompts

abbrev chain : Adjacency
chain = (1, 2 ∷ 3 ∷ []) ∷ (2, 3 ∷ []) ∷ (3, []) ∷ []

closure_correct_example : (mem 3 (closure chain 1) ≡ true) ↔ Reach chain 1 3
closure_correct_example = closure_correct chain 1 3

looped_closed : (u v : ℕ) → Edge looped u v → mem v (keys looped) ≡ true
unfolding targets keys mem
looped_closed u v e = ground arith

looped-IsGraph : IsGraph looped
unfolding keys mem
looped-IsGraph = record {
  distinct = (refl, (refl, (refl, (refl, tt))));
  sets = ((refl, tt), ((refl, tt), ((refl, (refl, tt)), (tt, tt))));
  closed = looped_closed;
}

cycle_members_correct_example :
    (members : List ℕ) × (cycle_members looped ≡ some members)
    × ((v : ℕ) → (mem v members ≡ true) ↔ Trapped looped v)
cycle_members_correct_example = cycle_members_correct looped looped-IsGraph

looped_cycle : OnCycle looped 2
unfolding targets mem
looped_cycle = (3, step here refl, refl)

looped_exit : Reach looped 2 4
unfolding targets mem
looped_exit = step {u = 3} (step {u = 2} here refl) refl

-- 4 stands behind the cycle and on none
cycle_members_behind_example :
    (members : List ℕ) × (cycle_members looped ≡ some members) × (mem 4 members ≡ true)
cycle_members_behind_example =
    cycle_members_behind looped 2 4 looped-IsGraph looped_cycle looped_exit

chain_closed : (u v : ℕ) → Edge chain u v → mem v (keys chain) ≡ true
unfolding targets keys mem
chain_closed u v e = ground arith

chain_rises : (u v : ℕ) → Edge chain u v → u < v
unfolding targets mem
chain_rises u v e = ground arith

chain-IsGraph : IsGraph chain
unfolding keys mem
chain-IsGraph = record {
  distinct = (refl, (refl, (refl, tt)));
  sets = ((refl, (refl, tt)), ((refl, tt), (tt, tt)));
  closed = chain_closed;
}

cycle_members_ranked_example : cycle_members chain ≡ some []
cycle_members_ranked_example = cycle_members_ranked chain (λ n. n) chain-IsGraph chain_rises
