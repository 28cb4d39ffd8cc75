-- ===== src/Campaigns/Service/Tests.antt =====
-- Runs of the operations of src/crm/campaigns/service.py, and the theorems at these.
use main_sequence_crmapi.Common.{
  get, ℕ, ◌≤◌, String, ◌≡◌, refl, Bool, true, false, Option, none, some, List, [], ◌∷◌, ◌++◌, ◌==◌,
  length,
}
use main_sequence_crmapi.Campaigns.Models.{PromptVariant, PromptComparison, StepFields, human}
use main_sequence_crmapi.Campaigns.Graph.StepChecks.{Prompts}
use main_sequence_crmapi.Campaigns.Graph.Validate.Spec.{IsRunnable}
use main_sequence_crmapi.Campaigns.Store.Rows.{
  after, is_open, CampaignStatus, CampaignRow, ParticipantRow, ProgressRow, Db, Caller,
  campaign_draft, campaign_active, campaign_completed, active, state_open,
}
use main_sequence_crmapi.Campaigns.Store.Lifecycle.{status_allowed, CampaignChanges}
use main_sequence_crmapi.Campaigns.Service.{is_answered, graph_of, edit_campaign, answered}
use main_sequence_crmapi.Campaigns.Service.Activation.{
  activation-IsRunnable, completed_campaign_final,
}
use main_sequence_crmapi.Campaigns.Service.Advancing.{progress_of, advance_participant}
use main_sequence_crmapi.Campaigns.Service.Advancing.Laws.{is_lost, advance_lost_stale}
use main_sequence_crmapi.Campaigns.Service.Recording.{record_work, record_evidence_bounded}
use main_sequence_crmapi.Campaigns.Store.Records.{record_progress, Record, wait}

abbrev pub call_fields : StepFields
call_fields = record {
  title = "Call";
  task_text = "Call the contact";
  prompt_variants =
      (record { key = "A"; label = "A"; prompt_uid = 9; allocation_percent = 100 }) ∷ [];
  prompt_comparison = none;
  completion_mode = human;
  owner_uid = none;
  task_type_key = none;
  due_after_seconds = none;
  input_bindings = [];
  completion_criteria = "Done";
  outcomes = (record { key = "ok"; label = "Ok"; description = none }) ∷ [];
  position = none;
}

abbrev pub calls : CampaignStatus → CampaignRow
calls state = record {
  version = 1;
  archived_at = none;
  name = "Calls";
  objective = "Call";
  owner_uid = 8;
  context = "{}";
  status = state;
  entry_step_uid = some 2;
}

abbrev pub anna : ParticipantRow
anna = record {
  version = 4;
  campaign_uid = 1;
  contact_uid = 7;
  status = active;
  context = "{}";
  next_step_uid = some 2;
  eligible_at = none;
  finished_at = none;
}

abbrev pub database : CampaignStatus → Db
database state = record {
  campaigns = (1, calls state) ∷ [];
  steps =
      (2, record { version = 1; archived_at = none; campaign_uid = 1; fields = call_fields }) ∷ [];
  transitions =
      (record {
        uid = 30;
        version = 1;
        campaign_uid = 1;
        from_step_uid = 2;
        outcome_key = "ok";
        to_step_uid = none;
        delay_seconds = 0;
      })
      ∷ [];
  participants = (5, anna) ∷ [];
  progress = [];
  tasks = [];
  prompts =
      (
        9,
        record {
          version = 1;
          archived_at = none;
          name = "Letter";
          description = none;
          content_markdown = "Write";
        },
      )
      ∷ [];
  step_prompts = (9, record { inputs = []; result_fields = [] }) ∷ [];
  contacts = (7, none) ∷ [];
  activity = [];
}

abbrev pub resolved : Prompts
resolved = some ((9, record { archived = false; inputs = []; result_fields = [] }) ∷ [])

abbrev pub no_uuid : String → Option ℕ
no_uuid s = none

abbrev pub anyone : ℕ → Bool
anyone user = true

abbrev pub everything : String → Bool
everything capability = true

abbrev pub editor : Caller
editor = record { actor_uid = 8; now = 100 }

abbrev to_status : CampaignStatus → CampaignChanges
to_status state = record {
  name = none;
  objective = none;
  owner_uid = none;
  context = none;
  status = some state;
}

activated :
    is_answered (
      edit_campaign everything anyone no_uuid resolved editor 1 1
        (to_status campaign_active)
        (database campaign_draft))
    ≡ true
unfolding main_sequence_crmapi.Campaigns.Graph.Transitions.active_steps
    main_sequence_crmapi.Campaigns.Graph.Transitions.archived_uids
    main_sequence_crmapi.Campaigns.Graph.Transitions.scan_all
    main_sequence_crmapi.Campaigns.Graph.Transitions.scan_transition
    main_sequence_crmapi.Campaigns.Graph.Transitions.scan_from
    main_sequence_crmapi.Campaigns.Graph.Transitions.scan_target
    main_sequence_crmapi.Campaigns.Graph.Transitions.add_route
    main_sequence_crmapi.Campaigns.Graph.Transitions.add_edge
    main_sequence_crmapi.Campaigns.Graph.Transitions.has_route
    main_sequence_crmapi.Campaigns.Graph.Transitions.no_edges
    main_sequence_crmapi.Campaigns.Graph.Transitions.duplicate_diagnostics
    main_sequence_crmapi.Campaigns.Graph.StepChecks.route_diagnostics
    main_sequence_crmapi.Campaigns.Graph.StepChecks.variant_diagnostics
    main_sequence_crmapi.Campaigns.Graph.StepChecks.contract_diagnostics
    main_sequence_crmapi.Campaigns.Graph.StepChecks.comparison_diagnostics
    main_sequence_crmapi.Campaigns.Graph.StepChecks.declared_inputs
    main_sequence_crmapi.Campaigns.Graph.StepChecks.binding_diagnostics
    main_sequence_crmapi.Campaigns.Graph.StepChecks.step_diagnostics
    main_sequence_crmapi.Campaigns.Graph.StepChecks.steps_diagnostics
    main_sequence_crmapi.Campaigns.Graph.Validate.entry_diagnostics
    main_sequence_crmapi.Campaigns.Graph.Validate.missing_from
    main_sequence_crmapi.Campaigns.Graph.Validate.reach_diagnostics
    main_sequence_crmapi.Campaigns.Graph.Validate.cycle_diagnostics
    main_sequence_crmapi.Campaigns.Graph.Validate.acyclic_diagnostics
    main_sequence_crmapi.Campaigns.Graph.Validate.validate_graph
    main_sequence_crmapi.Campaigns.Graph.Closure.closure
    main_sequence_crmapi.Campaigns.Graph.Closure.reaches
    main_sequence_crmapi.Campaigns.Graph.Cycles.cycle_members main_sequence_crmapi.Common.any
    main_sequence_crmapi.Common.mem main_sequence_crmapi.Common.get main_sequence_crmapi.Common.put
    main_sequence_crmapi.Common.dict_keys main_sequence_crmapi.Common.str_mem
    main_sequence_crmapi.Common.set_add main_sequence_crmapi.Campaigns.Service.edit_campaign
    main_sequence_crmapi.Campaigns.Service.change_campaign
    main_sequence_crmapi.Campaigns.Service.status_refusal
    main_sequence_crmapi.Campaigns.Service.graph_of
    main_sequence_crmapi.Campaigns.Store.Lifecycle.update_campaign
    main_sequence_crmapi.Common.row_where
activated = refl

activation-IsRunnable_example :
    (c : CampaignRow) × (get (database campaign_draft).campaigns 1 ≡ some c)
    × (status_allowed c.status campaign_active ≡ true)
    × IsRunnable (graph_of (database campaign_draft) 1 c) resolved
activation-IsRunnable_example =
    activation-IsRunnable everything anyone no_uuid resolved editor 1 1 (to_status campaign_active)
      (database campaign_draft) refl activated

completed_campaign_final_example :
    is_answered (
      edit_campaign everything anyone no_uuid resolved editor 1 1
        (to_status campaign_active)
        (database campaign_completed))
    ≡ false
unfolding main_sequence_crmapi.Common.get
completed_campaign_final_example =
    completed_campaign_final everything anyone no_uuid resolved editor 1 1
      (to_status campaign_active) (database campaign_completed) (calls campaign_completed)
      campaign_active refl refl refl

abbrev no_comparison : PromptComparison → List PromptVariant → String
no_comparison c variants = "{}"

anna-lost :
    is_lost (
      advance_participant everything no_comparison 0 editor.now editor 50 5 3
        (database campaign_active)
        (database campaign_active))
    ≡ true
unfolding main_sequence_crmapi.Campaigns.Service.Advancing.advance_participant
    main_sequence_crmapi.Common.get
anna-lost = refl

advance_lost_stale_example :
    (p : ParticipantRow) × (get (database campaign_active).participants 5 ≡ some p)
    × ((p.version == 3) ≡ false)
advance_lost_stale_example =
    advance_lost_stale everything no_comparison 0 editor 50 5 3 (database campaign_active) anna-lost

abbrev call_work : ProgressRow
call_work = record {
  participant_uid = 5;
  step_uid = 2;
  task_uid = 50;
  prompt_assignment = record {
    variant_key = "A";
    prompt_uid = 9;
    assigned_prompt_version = 1;
    comparison = none;
    comparison_changed = false;
  };
  state = state_open;
  outcome_key = none;
  result = [];
  evidence = "rang" ∷ [];
  prepared_with = none;
  wake_at = none;
  blocked_reason = none;
  completed_at = none;
}

abbrev working : Db
working = record (database campaign_active) { progress = call_work ∷ [] }

abbrev call_later : Record
call_later = record {
  participant_uid = 5;
  expected_version = 4;
  step_uid = 2;
  kind = wait;
  evidence = "no answer" ∷ [];
  wake_at = some 500;
  blocked_reason = none;
  result = none;
  outcome_key = none;
  prepared_with = none;
}

later-answered : is_answered (record_work everything editor call_later working) ≡ true
unfolding main_sequence_crmapi.Campaigns.Service.Recording.record_work
    main_sequence_crmapi.Campaigns.Service.Recording.context_of
    main_sequence_crmapi.Campaigns.Store.Records.record_progress
    main_sequence_crmapi.Campaigns.Store.Records.enrolled_at main_sequence_crmapi.Common.row_where
    main_sequence_crmapi.Common.get main_sequence_crmapi.Common.find main_sequence_crmapi.Common.any
later-answered = refl

record_evidence_bounded_example :
    (g : ProgressRow) × (h : ProgressRow) × (progress_of working 5 2 ≡ some g)
    × (is_open g.state ≡ true)
    × (record_work everything editor call_later working
        ≡ answered (after (record_progress editor call_later working)))
    × (progress_of (after (record_progress editor call_later working)) 5 2 ≡ some h)
    × (h.evidence ≡ g.evidence ++ "no answer" ∷ [])
    × (length h.evidence ≤ 50)
record_evidence_bounded_example =
    record_evidence_bounded everything editor call_later working later-answered
