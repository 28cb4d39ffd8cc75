-- ===== src/Campaigns/Store/GraphTests.antt =====
-- save_graph of src/crm/repositories/campaigns.py on a small database, and the theorems at it.
use main_sequence_crmapi.Campaigns.Store.Laws.Retired.{still_workable, save_graph_stops}
use main_sequence_crmapi.Common.{
  get, any, find, keep, ℕ, ◌≡◌, refl, true, false, none, some, [], ◌∷◌,
}
use main_sequence_crmapi.Campaigns.Store.Rows.{
  at_step, state_blocked, after, is_accepted, CampaignRow, StepRow, ParticipantRow, ProgressRow, Db,
  Caller, campaign_active, active,
}
use main_sequence_crmapi.Campaigns.Store.Progression.{new_progress}
use main_sequence_crmapi.Campaigns.Store.Saving.{save_graph, SaveGraph}
use main_sequence_crmapi.Campaigns.Models.{StepFields, human}
use main_sequence_crmapi.Campaigns.Store.Laws.Isolation.{
  other_connection, other_work, save_graph_isolated,
}

abbrev call_step : StepFields
call_step = record {
  title = "Call";
  task_text = "Call the contact";
  prompt_variants = [];
  prompt_comparison = none;
  completion_mode = human;
  owner_uid = none;
  task_type_key = none;
  due_after_seconds = none;
  input_bindings = [];
  completion_criteria = "called";
  outcomes = [];
  position = none;
}

abbrev calls : CampaignRow
calls = record {
  version = 4;
  archived_at = none;
  name = "Calls";
  objective = "Talk";
  owner_uid = 9;
  context = "{}";
  status = campaign_active;
  entry_step_uid = some 2;
}

abbrev step_in : ℕ → StepRow
step_in campaign = record {
  version = 1;
  archived_at = none;
  campaign_uid = campaign;
  fields = call_step;
}

abbrev omar : ParticipantRow
omar = record {
  version = 2;
  campaign_uid = 1;
  contact_uid = 7;
  status = active;
  context = "{}";
  next_step_uid = some 2;
  eligible_at = none;
  finished_at = none;
}

abbrev calling : ProgressRow
calling =
    new_progress
      (record {
        participant_uid = 5;
        expected_version = 1;
        step_uid = 2;
        step_version = 1;
        prompt_assignment = record {
          variant_key = "a";
          prompt_uid = 40;
          assigned_prompt_version = 1;
          comparison = none;
          comparison_changed = false;
        };
      })
      50

-- two campaigns with a step each, and work at the step of the first
abbrev two_campaigns : Db
two_campaigns = record {
  campaigns = (1, calls) ∷ (8, calls) ∷ [];
  steps = (2, step_in 1) ∷ (12, step_in 8) ∷ [];
  transitions = [];
  participants = (5, omar) ∷ [];
  progress = calling ∷ [];
  tasks = [];
  prompts = [];
  step_prompts = [];
  contacts = [];
  activity = [];
}

abbrev caller : Caller
caller = record { actor_uid = 9; now = 100 }

-- the plan retires the step
abbrev retiring : SaveGraph
retiring = record {
  campaign_uid = 1;
  expected_version = 4;
  entry_step_uid = none;
  steps = record { uid = 2; archived = true; fields = call_step } ∷ [];
  layout_steps = [];
  transitions = [];
  kept_transition_uids = [];
  changed_step_uids = [];
  retired_step_uids = 2 ∷ [];
  comparison_changed_step_uids = [];
  cancel_retired_work = false;
}

retiring-accepted : is_accepted (save_graph caller retiring two_campaigns) ≡ true
unfolding main_sequence_crmapi.Campaigns.Store.Saving.save_graph
    main_sequence_crmapi.Campaigns.Store.Saving.save_gate main_sequence_crmapi.Common.row_where
    main_sequence_crmapi.Common.get main_sequence_crmapi.Common.any
retiring-accepted = refl

other-there : get two_campaigns.steps 12 ≡ some (step_in 8)
unfolding main_sequence_crmapi.Common.get
other-there = refl

calling-there : find (at_step 5 2) two_campaigns.progress ≡ some calling
unfolding main_sequence_crmapi.Common.find
calling-there = refl

calling-workable : still_workable retiring two_campaigns calling ≡ true
unfolding main_sequence_crmapi.Common.get main_sequence_crmapi.Common.mem
calling-workable = refl

save_graph_stops_example :
    (any
        (still_workable retiring two_campaigns)
        (after (save_graph caller retiring two_campaigns)).progress
      ≡ false)
    × (k : ProgressRow) × (find
          (at_step 5 2)
          (after (save_graph caller retiring two_campaigns)).progress
        ≡ some k)
    × (k.state ≡ state_blocked)
    × (k.result ≡ calling.result)
    × (k.evidence ≡ calling.evidence)
save_graph_stops_example =
    save_graph_stops caller retiring two_campaigns 5 2 calling retiring-accepted calling-there
      calling-workable

save_graph_isolated_example :
    (get (after (save_graph caller retiring two_campaigns)).steps 12 ≡ some (step_in 8))
    × (keep (other_connection 1) (after (save_graph caller retiring two_campaigns)).transitions
        ≡ keep (other_connection 1) two_campaigns.transitions)
    × (keep (other_work two_campaigns 1) (after (save_graph caller retiring two_campaigns)).progress
        ≡ keep (other_work two_campaigns 1) two_campaigns.progress)
save_graph_isolated_example =
    save_graph_isolated caller retiring two_campaigns 12 (step_in 8) other-there refl
