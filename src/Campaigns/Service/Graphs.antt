-- ===== src/Campaigns/Service/Graphs.antt =====
-- `_graph_change` and `update_graph` of src/crm/campaigns/service.py.
mod Same
pub mod Live
pub mod Stored
use main_sequence_crmapi.Campaigns.Graph.Changes.{
  same_option, same_uid, comparison_changed, layout_only_change, same_fields,
}
use main_sequence_crmapi.Common.{
  get, row_where, any, keep, mem, ℕ, String, str_eq, Bool, true, false, not, ◌&&◌, ◌||◌, Option,
  none, some, List, [], ◌∷◌, map, Dict, ◌==◌, if◌then◌else◌,
}
use main_sequence_crmapi.Campaigns.Models.{GraphStep, GraphTransition, CampaignGraph}
use main_sequence_crmapi.Campaigns.Graph.StepChecks.{Prompts}
use main_sequence_crmapi.Campaigns.Graph.Validate.{validate_graph}
use main_sequence_crmapi.Campaigns.Store.Rows.{
  is_live, CampaignStatus, StepRow, TransitionRow, Db, Caller, campaign_draft, campaign_active,
  campaign_paused, campaign_completed,
}
use main_sequence_crmapi.Campaigns.Store.Saving.{save_graph, SaveGraph}
use main_sequence_crmapi.Campaigns.Service.{
  from_store, owner_ok, is_runnable, Answer, forbidden, not_runnable, lost, unknown_row, invalid,
  raised,
}

-- what becomes of a step of the candidate: it is refused, with a code, or is new, retired, as it was, moved in
-- the layout, or changed, with the exposure of its prompts or not
pub data StepChange : Type 0 where
  step_refused : String → StepChange
  step_new step_retired step_kept step_moved : StepChange
  step_changed : Bool → StepChange

unfoldable pub step_change : Option StepRow → GraphStep → StepChange
step_change none s = if s.archived then step_refused "retire_unknown" else step_new
step_change (some row) s =
    if s.archived
    then (if is_live row.archived_at then step_retired else step_kept)
    else if not (is_live row.archived_at)
    then step_refused "retired_step_restore"
    else if same_fields row.fields s.fields
    then step_kept
    else if layout_only_change row.fields s.fields
    then step_moved
    else step_changed (comparison_changed row.fields s.fields)

-- the write plan
pub record Plan : Type 0 where
  pub steps : List GraphStep
  pub layout_steps : List (ℕ × Option String)
  pub transitions : List GraphTransition
  pub kept_transition_uids : List ℕ
  pub changed_step_uids : List ℕ
  pub retired_step_uids : List ℕ
  pub comparison_changed_step_uids : List ℕ

pub data Planned : Type 0 where
  unplanned : String → Planned
  planned : Plan → Planned

abbrev pub no_changes : Plan
no_changes = record {
  steps = [];
  layout_steps = [];
  transitions = [];
  kept_transition_uids = [];
  changed_step_uids = [];
  retired_step_uids = [];
  comparison_changed_step_uids = [];
}

-- the step's part of the plan, before that of the later steps
abbrev pub plan_step : GraphStep → StepChange → Planned → Planned
plan_step s (step_refused code) rest = unplanned code
plan_step s step_new (unplanned code) = unplanned code
plan_step s step_new (planned p) = planned (record p { steps = s ∷ p.steps })
plan_step s step_retired (unplanned code) = unplanned code
plan_step s step_retired (planned p) =
    planned (record p { steps = s ∷ p.steps; retired_step_uids = s.uid ∷ p.retired_step_uids })
plan_step s step_kept rest = rest
plan_step s step_moved (unplanned code) = unplanned code
plan_step s step_moved (planned p) =
    planned (record p { layout_steps = (s.uid, s.fields.position) ∷ p.layout_steps })
plan_step s (step_changed exposed) (unplanned code) = unplanned code
plan_step s (step_changed exposed) (planned p) = planned (record p {
  steps = s ∷ p.steps;
  changed_step_uids = s.uid ∷ p.changed_step_uids;
  comparison_changed_step_uids =
      if exposed then s.uid ∷ p.comparison_changed_step_uids else p.comparison_changed_step_uids;
})

-- current_steps.get(key)
unfoldable pub row_in : Db → ℕ → ℕ → Option StepRow
row_in db campaign uid = row_where (λ s. s.campaign_uid == campaign) db.steps uid

unfoldable pub plan_steps : Db → ℕ → List GraphStep → Planned
unfolding step_change row_in
plan_steps db campaign [] = planned no_changes
plan_steps db campaign (s ∷ steps) =
    plan_step s (step_change (row_in db campaign s.uid) s) (plan_steps db campaign steps)

-- an active step of the campaign that the candidate leaves out
unfoldable pub step_missing : ℕ → List ℕ → Dict StepRow → Bool
step_missing campaign seen [] = false
step_missing campaign seen ((uid, s) ∷ rows) =
    (s.campaign_uid == campaign && is_live s.archived_at && not (mem uid seen))
    || step_missing campaign seen rows

-- the campaign has the connection as it is; its UID is a primary key
abbrev pub same_connection : ℕ → GraphTransition → TransitionRow → Bool
same_connection campaign t row =
    row.uid == t.uid
    && row.campaign_uid == campaign
    && row.from_step_uid == t.from_step_uid
    && str_eq row.outcome_key t.outcome_key
    && same_option same_uid row.to_step_uid t.to_step_uid
    && row.delay_seconds == t.delay_seconds

abbrev pub changed_connection : Db → ℕ → GraphTransition → Bool
changed_connection db campaign t = not (any (same_connection campaign t) db.transitions)

abbrev pub step_uids : List GraphStep → List ℕ
step_uids steps = map (λ (s : GraphStep). s.uid) steps

abbrev pub transition_uids : List GraphTransition → List ℕ
transition_uids ts = map (λ (t : GraphTransition). t.uid) ts

-- _graph_change
unfoldable pub graph_change : Db → ℕ → CampaignGraph → Planned
unfolding plan_steps step_missing
graph_change db campaign graph = elim (plan_steps db campaign graph.steps) [
  | unplanned code ↦ unplanned code
  | planned p ↦
      if step_missing campaign (step_uids graph.steps) db.steps
      then unplanned "step_missing"
      else planned (record p {
        transitions = keep (changed_connection db campaign) graph.transitions;
        kept_transition_uids = transition_uids graph.transitions;
      })
]

pub record GraphUpdate : Type 0 where
  pub expected_version : ℕ
  pub graph : CampaignGraph
  pub cancel_open_work : Bool

abbrev pub save_command : ℕ → GraphUpdate → Plan → SaveGraph
save_command uid cmd p = record {
  campaign_uid = uid;
  expected_version = cmd.expected_version;
  entry_step_uid = cmd.graph.entry_step_uid;
  steps = p.steps;
  layout_steps = p.layout_steps;
  transitions = p.transitions;
  kept_transition_uids = p.kept_transition_uids;
  changed_step_uids = p.changed_step_uids;
  retired_step_uids = p.retired_step_uids;
  comparison_changed_step_uids = p.comparison_changed_step_uids;
  cancel_retired_work = cmd.cancel_open_work;
}

-- a live campaign, whose graph must stay runnable
abbrev pub must_run : CampaignStatus → Bool
must_run campaign_draft = false
must_run campaign_active = true
must_run campaign_paused = true
must_run campaign_completed = false

module _ (can : String → Bool) (selectable : ℕ → Bool) (parse_uuid : String → Option ℕ)
    (prompts : Prompts) where
  -- from the plan on
  abbrev pub save_plan : Caller → ℕ → GraphUpdate → Db → Planned → Answer
  save_plan who uid cmd db (unplanned code) = raised (invalid "graph.steps" code) db
  save_plan who uid cmd db (planned p) = from_store (save_graph who (save_command uid cmd p) db)

  unfoldable pub update_graph : Caller → ℕ → GraphUpdate → Db → Answer
  unfolding graph_change
  update_graph who uid cmd db =
      if not (can "crm.edit") || (cmd.cancel_open_work && not (can "crm.archive"))
      then raised forbidden db
      else elim (get db.campaigns uid) [
        | none ↦ raised unknown_row db
        | some c ↦
            if not (c.version == cmd.expected_version)
            then raised lost db
            else if any (λ (s : GraphStep). not (owner_ok selectable s.fields.owner_uid))
                cmd.graph.steps
            then raised (invalid "owner_uid" "invalid") db
            else if must_run c.status
                && not (is_runnable (validate_graph parse_uuid cmd.graph prompts))
            then raised not_runnable db
            else save_plan who uid cmd db (graph_change db uid cmd.graph)
      ]
