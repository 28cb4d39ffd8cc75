-- ===== src/Campaigns/Service/WorkTests.antt =====
-- The work of a participant and the graph of a campaign through src/crm/campaigns/service.py on a small database,
-- and the theorems at these.
use main_sequence_crmapi.Campaigns.Service.Tests.{
  call_fields, calls, anna, database, resolved, no_uuid, anyone, everything, editor,
}
use main_sequence_crmapi.Common.{
  get, dict_keys, str_mem, uids_different, any, ℕ, String, ◌≡◌, refl, Bool, true, false, Option,
  none, some, List, [], ◌∷◌, ◌++◌, ◌==◌,
}
use main_sequence_crmapi.Campaigns.Models.{outcome_keys}
use main_sequence_crmapi.Campaigns.Briefing.{validate_result, Json, text}
use main_sequence_crmapi.Campaigns.Graph.Validate.{validate_graph}
use main_sequence_crmapi.Campaigns.Store.Rows.{
  after, is_open, is_running, is_live, ProgressState, ProgressRow, TaskRow, PromptRow,
  StepPromptRow, Db, campaign_active, state_open, state_blocked, accepted,
}
use main_sequence_crmapi.Campaigns.Store.Progression.{complete}
use main_sequence_crmapi.Campaigns.Store.Records.{merge, record_progress}
use main_sequence_crmapi.Campaigns.Store.Saving.{save_graph}
use main_sequence_crmapi.Campaigns.Service.{graph_of, is_runnable, answered}
use main_sequence_crmapi.Campaigns.Service.Advancing.{progress_of}
use main_sequence_crmapi.Campaigns.Service.Recording.{context_of, Context}
use main_sequence_crmapi.Campaigns.Service.Completing.{
  prompt_of, routes_from, stale_command, store_command, complete_work, PreparedWith,
  CompleteCommand, current_prompt, accepted_work, kept_stale,
}
use main_sequence_crmapi.Campaigns.Service.Completing.Laws.{complete_checked, stale_kept}
use main_sequence_crmapi.Campaigns.Service.Reconciling.{
  is_stuck, reconcile, ReconcileCommand, resume,
}
use main_sequence_crmapi.Campaigns.Service.Reconciling.Laws.{resume_checked}
use main_sequence_crmapi.Campaigns.Service.Graphs.{
  no_changes, save_command, update_graph, GraphUpdate,
}
use main_sequence_crmapi.Campaigns.Service.Graphs.Live.{live_graph_runnable}
use main_sequence_crmapi.Campaigns.Service.Graphs.Stored.{stored_graph_kept}

abbrev calling : ProgressState → Option String → ProgressRow
calling state outcome = record {
  participant_uid = 5;
  step_uid = 2;
  task_uid = 50;
  prompt_assignment = record {
    variant_key = "A";
    prompt_uid = 9;
    assigned_prompt_version = 1;
    comparison = none;
    comparison_changed = false;
  };
  state = state;
  outcome_key = outcome;
  result = [];
  evidence = [];
  prepared_with = none;
  wake_at = none;
  blocked_reason = none;
  completed_at = none;
}

abbrev call_task : TaskRow
call_task = record {
  version = 1;
  archived_at = none;
  contact_uid = 7;
  owner_uid = 8;
  type_key = "call";
  text = "Call the contact";
  due_at = none;
  completed_at = none;
  completed_by_uid = none;
}

abbrev at_work : ProgressState → Option String → Db
at_work state outcome = record (database campaign_active) {
  progress = calling state outcome ∷ [];
  tasks = (50, call_task) ∷ [];
}

abbrev no_datetime : String → Bool
no_datetime s = false

abbrev store_texts : List (String × Json) → List (String × String)
store_texts result = []

abbrev load_texts : List (String × String) → List (String × Json)
load_texts result = []

abbrev versions_text : PreparedWith → String
versions_text v = "{}"

abbrev prepared_at : ℕ → PreparedWith
prepared_at n = record {
  campaign_version = 1;
  step_version = n;
  prompt_uid = 9;
  prompt_version = 1;
}

abbrev called : ℕ → CompleteCommand
called n = record {
  participant_uid = 5;
  step_uid = 2;
  expected_version = 4;
  task_expected_version = 1;
  outcome_key = "ok";
  result = [];
  evidence = "log" ∷ [];
  prepared_with = prepared_at n;
}

abbrev before_call : Db
before_call = at_work state_open none

abbrev call_context : Context
call_context = record {
  participant = anna;
  progress = calling state_open none;
  campaign = calls campaign_active;
  step = record { version = 1; archived_at = none; campaign_uid = 1; fields = call_fields };
}

abbrev after_call : Db
after_call = after (
    complete editor
      (store_command no_datetime store_texts versions_text (called 1) call_context (prepared_at 1))
      before_call)

abbrev after_stale : Db
after_stale = after (
    record_progress editor (stale_command no_datetime store_texts versions_text (called 3))
      before_call)

call-accepted :
    complete_work no_datetime store_texts versions_text everything editor (called 1) before_call
    ≡ accepted_work after_call
unfolding main_sequence_crmapi.Campaigns.Service.Completing.complete_work
    main_sequence_crmapi.Campaigns.Service.Completing.finish_work
    main_sequence_crmapi.Campaigns.Service.Completing.validate_completion
    main_sequence_crmapi.Campaigns.Service.Completing.check_result
    main_sequence_crmapi.Campaigns.Service.Completing.prompt_of
    main_sequence_crmapi.Campaigns.Service.Recording.context_of
    main_sequence_crmapi.Campaigns.Service.Reconciling.reconcile
    main_sequence_crmapi.Campaigns.Service.Reconciling.act
    main_sequence_crmapi.Campaigns.Service.Reconciling.resume_work
    main_sequence_crmapi.Campaigns.Store.Progression.complete
    main_sequence_crmapi.Campaigns.Store.Progression.complete_gate
    main_sequence_crmapi.Campaigns.Store.Progression.route_of
    main_sequence_crmapi.Campaigns.Store.Progression.task_to_settle
    main_sequence_crmapi.Campaigns.Store.Progression.routed
    main_sequence_crmapi.Campaigns.Store.Records.record_progress
    main_sequence_crmapi.Campaigns.Store.Records.enrolled_at
    main_sequence_crmapi.Campaigns.Briefing.validate_result
    main_sequence_crmapi.Campaigns.Briefing.fields_of
    main_sequence_crmapi.Campaigns.Briefing.unknown_fields
    main_sequence_crmapi.Campaigns.Briefing.field_problems main_sequence_crmapi.Common.row_where
    main_sequence_crmapi.Common.get main_sequence_crmapi.Common.find main_sequence_crmapi.Common.any
    main_sequence_crmapi.Common.put main_sequence_crmapi.Common.update_where
    main_sequence_crmapi.Common.str_mem
call-accepted = refl

stale-kept :
    complete_work no_datetime store_texts versions_text everything editor (called 3) before_call
    ≡ kept_stale after_stale
unfolding main_sequence_crmapi.Campaigns.Service.Completing.complete_work
    main_sequence_crmapi.Campaigns.Service.Completing.finish_work
    main_sequence_crmapi.Campaigns.Service.Completing.validate_completion
    main_sequence_crmapi.Campaigns.Service.Completing.check_result
    main_sequence_crmapi.Campaigns.Service.Completing.prompt_of
    main_sequence_crmapi.Campaigns.Service.Recording.context_of
    main_sequence_crmapi.Campaigns.Service.Reconciling.reconcile
    main_sequence_crmapi.Campaigns.Service.Reconciling.act
    main_sequence_crmapi.Campaigns.Service.Reconciling.resume_work
    main_sequence_crmapi.Campaigns.Store.Progression.complete
    main_sequence_crmapi.Campaigns.Store.Progression.complete_gate
    main_sequence_crmapi.Campaigns.Store.Progression.route_of
    main_sequence_crmapi.Campaigns.Store.Progression.task_to_settle
    main_sequence_crmapi.Campaigns.Store.Progression.routed
    main_sequence_crmapi.Campaigns.Store.Records.record_progress
    main_sequence_crmapi.Campaigns.Store.Records.enrolled_at
    main_sequence_crmapi.Campaigns.Briefing.validate_result
    main_sequence_crmapi.Campaigns.Briefing.fields_of
    main_sequence_crmapi.Campaigns.Briefing.unknown_fields
    main_sequence_crmapi.Campaigns.Briefing.field_problems main_sequence_crmapi.Common.row_where
    main_sequence_crmapi.Common.get main_sequence_crmapi.Common.find main_sequence_crmapi.Common.any
    main_sequence_crmapi.Common.put main_sequence_crmapi.Common.update_where
    main_sequence_crmapi.Common.str_mem
stale-kept = refl

complete_checked_example :
    (context : Context) × (uid : ℕ) × (p : PromptRow) × (sp : StepPromptRow) × (context_of
        before_call 5 2
      ≡ some context)
    × (is_running context.campaign.status ≡ true)
    × (is_live context.campaign.archived_at ≡ true)
    × (is_live context.step.archived_at ≡ true)
    × (is_open context.progress.state ≡ true)
    × (str_mem "ok" (outcome_keys context.step.fields) ≡ true)
    × (any (routes_from context.participant.campaign_uid 2 "ok") before_call.transitions ≡ true)
    × (prompt_of before_call context.step context.progress.prompt_assignment
        ≡ current_prompt uid p sp)
    × (validate_result no_datetime [] sp.result_fields ≡ [])
    × (prepared_at 1 ≡ record {
      campaign_version = context.campaign.version;
      step_version = context.step.version;
      prompt_uid = uid;
      prompt_version = p.version;
    })
    × (complete editor
          (store_command no_datetime store_texts versions_text (called 1) context (prepared_at 1))
          before_call
        ≡ accepted after_call)
complete_checked_example =
    complete_checked no_datetime store_texts versions_text everything editor (called 1) before_call
      after_call call-accepted

stale_kept_example :
    (g : ProgressRow) × (k : ProgressRow) × (progress_of before_call 5 2 ≡ some g)
    × (is_open g.state ≡ true)
    × (progress_of after_stale 5 2 ≡ some k)
    × (k.state ≡ state_blocked)
    × (k.blocked_reason ≡ some "stale_briefing")
    × (k.result ≡ merge g.result [])
    × (k.outcome_key ≡ some "ok")
    × (k.evidence ≡ g.evidence ++ "log" ∷ [])
stale_kept_example =
    stale_kept no_datetime store_texts versions_text everything editor (called 3) before_call
      after_stale stale-kept

-- blocked work with an outcome
abbrev blocked_call : Db
blocked_call = at_work state_blocked (some "ok")

abbrev resuming : ReconcileCommand
resuming = record {
  participant_uid = 5;
  step_uid = 2;
  expected_version = 4;
  task_expected_version = none;
  action = resume;
}

abbrev after_resume : Db
after_resume = after (
    complete editor
      (record {
        participant_uid = 5;
        expected_version = 4;
        step_uid = 2;
        task_uid = 50;
        task_expected_version = 1;
        campaign_version = 1;
        step_version = 1;
        outcome_key = "ok";
        result = [];
        evidence = [];
        prepared_with = "{}";
      })
      blocked_call)

call-resumed :
    reconcile no_datetime load_texts versions_text everything editor resuming blocked_call
    ≡ answered after_resume
unfolding main_sequence_crmapi.Campaigns.Service.Completing.complete_work
    main_sequence_crmapi.Campaigns.Service.Completing.finish_work
    main_sequence_crmapi.Campaigns.Service.Completing.validate_completion
    main_sequence_crmapi.Campaigns.Service.Completing.check_result
    main_sequence_crmapi.Campaigns.Service.Completing.prompt_of
    main_sequence_crmapi.Campaigns.Service.Recording.context_of
    main_sequence_crmapi.Campaigns.Service.Reconciling.reconcile
    main_sequence_crmapi.Campaigns.Service.Reconciling.act
    main_sequence_crmapi.Campaigns.Service.Reconciling.resume_work
    main_sequence_crmapi.Campaigns.Store.Progression.complete
    main_sequence_crmapi.Campaigns.Store.Progression.complete_gate
    main_sequence_crmapi.Campaigns.Store.Progression.route_of
    main_sequence_crmapi.Campaigns.Store.Progression.task_to_settle
    main_sequence_crmapi.Campaigns.Store.Progression.routed
    main_sequence_crmapi.Campaigns.Store.Records.record_progress
    main_sequence_crmapi.Campaigns.Store.Records.enrolled_at
    main_sequence_crmapi.Campaigns.Briefing.validate_result
    main_sequence_crmapi.Campaigns.Briefing.fields_of
    main_sequence_crmapi.Campaigns.Briefing.unknown_fields
    main_sequence_crmapi.Campaigns.Briefing.field_problems main_sequence_crmapi.Common.row_where
    main_sequence_crmapi.Common.get main_sequence_crmapi.Common.find main_sequence_crmapi.Common.any
    main_sequence_crmapi.Common.put main_sequence_crmapi.Common.update_where
    main_sequence_crmapi.Common.str_mem
call-resumed = refl

resume_checked_example :
    (context : Context) × (t : TaskRow) × (outcome : String) × (uid : ℕ) × (p : PromptRow)
    × (sp : StepPromptRow) × (context_of blocked_call 5 2 ≡ some context)
    × (get blocked_call.tasks context.progress.task_uid ≡ some t)
    × (context.progress.outcome_key ≡ some outcome)
    × (is_stuck context.progress.state ≡ true)
    × (is_live t.archived_at ≡ true)
    × (is_running context.campaign.status ≡ true)
    × (is_live context.step.archived_at ≡ true)
    × (prompt_of blocked_call context.step context.progress.prompt_assignment
        ≡ current_prompt uid p sp)
    × (validate_result no_datetime (load_texts context.progress.result) sp.result_fields ≡ [])
resume_checked_example =
    resume_checked no_datetime load_texts versions_text everything editor resuming blocked_call
      after_resume refl call-resumed

abbrev same_again : GraphUpdate
same_again = record {
  expected_version = 1;
  graph = record {
    entry_step_uid = some 2;
    steps = record { uid = 2; archived = false; fields = call_fields } ∷ [];
    transitions =
        record {
          uid = 30;
          from_step_uid = 2;
          outcome_key = "ok";
          to_step_uid = none;
          delay_seconds = 0;
        }
        ∷ [];
  };
  cancel_open_work = false;
}

abbrev after_save : Db
after_save = after (
    save_graph editor
      (save_command 1 same_again (record no_changes { kept_transition_uids = 30 ∷ [] }))
      (database campaign_active))

graph-saved :
    update_graph everything anyone no_uuid resolved editor 1 same_again (database campaign_active)
    ≡ answered after_save
unfolding main_sequence_crmapi.Campaigns.Graph.Transitions.active_steps
    main_sequence_crmapi.Campaigns.Graph.Transitions.archived_uids
    main_sequence_crmapi.Campaigns.Graph.Transitions.scan_all
    main_sequence_crmapi.Campaigns.Graph.Transitions.scan_transition
    main_sequence_crmapi.Campaigns.Graph.Transitions.scan_from
    main_sequence_crmapi.Campaigns.Graph.Transitions.scan_target
    main_sequence_crmapi.Campaigns.Graph.Transitions.add_route
    main_sequence_crmapi.Campaigns.Graph.Transitions.add_edge
    main_sequence_crmapi.Campaigns.Graph.Transitions.has_route
    main_sequence_crmapi.Campaigns.Graph.Transitions.no_edges
    main_sequence_crmapi.Campaigns.Graph.Transitions.duplicate_diagnostics
    main_sequence_crmapi.Campaigns.Graph.StepChecks.route_diagnostics
    main_sequence_crmapi.Campaigns.Graph.StepChecks.variant_diagnostics
    main_sequence_crmapi.Campaigns.Graph.StepChecks.contract_diagnostics
    main_sequence_crmapi.Campaigns.Graph.StepChecks.comparison_diagnostics
    main_sequence_crmapi.Campaigns.Graph.StepChecks.declared_inputs
    main_sequence_crmapi.Campaigns.Graph.StepChecks.binding_diagnostics
    main_sequence_crmapi.Campaigns.Graph.StepChecks.step_diagnostics
    main_sequence_crmapi.Campaigns.Graph.StepChecks.steps_diagnostics
    main_sequence_crmapi.Campaigns.Graph.Validate.entry_diagnostics
    main_sequence_crmapi.Campaigns.Graph.Validate.missing_from
    main_sequence_crmapi.Campaigns.Graph.Validate.reach_diagnostics
    main_sequence_crmapi.Campaigns.Graph.Validate.cycle_diagnostics
    main_sequence_crmapi.Campaigns.Graph.Validate.acyclic_diagnostics
    main_sequence_crmapi.Campaigns.Graph.Validate.validate_graph
    main_sequence_crmapi.Campaigns.Graph.Closure.closure
    main_sequence_crmapi.Campaigns.Graph.Closure.reaches
    main_sequence_crmapi.Campaigns.Graph.Cycles.cycle_members main_sequence_crmapi.Common.any
    main_sequence_crmapi.Common.mem main_sequence_crmapi.Common.get main_sequence_crmapi.Common.put
    main_sequence_crmapi.Common.dict_keys main_sequence_crmapi.Common.str_mem
    main_sequence_crmapi.Common.set_add main_sequence_crmapi.Campaigns.Service.edit_campaign
    main_sequence_crmapi.Campaigns.Service.change_campaign
    main_sequence_crmapi.Campaigns.Service.status_refusal
    main_sequence_crmapi.Campaigns.Service.graph_of
    main_sequence_crmapi.Campaigns.Store.Lifecycle.update_campaign
    main_sequence_crmapi.Common.row_where main_sequence_crmapi.Campaigns.Service.Graphs.update_graph
    main_sequence_crmapi.Campaigns.Service.Graphs.graph_change
    main_sequence_crmapi.Campaigns.Service.Graphs.plan_steps
    main_sequence_crmapi.Campaigns.Service.Graphs.step_change
    main_sequence_crmapi.Campaigns.Service.Graphs.row_in
    main_sequence_crmapi.Campaigns.Service.Graphs.step_missing
    main_sequence_crmapi.Campaigns.Graph.Changes.same_list
    main_sequence_crmapi.Campaigns.Graph.Changes.within
    main_sequence_crmapi.Campaigns.Graph.Changes.same_exposure
    main_sequence_crmapi.Campaigns.Graph.Changes.layout_only_change
    main_sequence_crmapi.Campaigns.Graph.Changes.same_fields
    main_sequence_crmapi.Campaigns.Store.Saving.save_graph
    main_sequence_crmapi.Campaigns.Store.Saving.save_gate
    main_sequence_crmapi.Campaigns.Store.Saving.save_steps
    main_sequence_crmapi.Campaigns.Store.Saving.save_layout
    main_sequence_crmapi.Campaigns.Store.Saving.save_transitions main_sequence_crmapi.Common.keep
    main_sequence_crmapi.Common.update_where main_sequence_crmapi.Campaigns.Briefing.value_of
    main_sequence_crmapi.Campaigns.Service.steps_of
    main_sequence_crmapi.Campaigns.Service.transitions_of
graph-saved = refl

graph-stored : same_again.graph ≡ graph_of (database campaign_active) 1 (calls campaign_active)
unfolding main_sequence_crmapi.Campaigns.Graph.Transitions.active_steps
    main_sequence_crmapi.Campaigns.Graph.Transitions.archived_uids
    main_sequence_crmapi.Campaigns.Graph.Transitions.scan_all
    main_sequence_crmapi.Campaigns.Graph.Transitions.scan_transition
    main_sequence_crmapi.Campaigns.Graph.Transitions.scan_from
    main_sequence_crmapi.Campaigns.Graph.Transitions.scan_target
    main_sequence_crmapi.Campaigns.Graph.Transitions.add_route
    main_sequence_crmapi.Campaigns.Graph.Transitions.add_edge
    main_sequence_crmapi.Campaigns.Graph.Transitions.has_route
    main_sequence_crmapi.Campaigns.Graph.Transitions.no_edges
    main_sequence_crmapi.Campaigns.Graph.Transitions.duplicate_diagnostics
    main_sequence_crmapi.Campaigns.Graph.StepChecks.route_diagnostics
    main_sequence_crmapi.Campaigns.Graph.StepChecks.variant_diagnostics
    main_sequence_crmapi.Campaigns.Graph.StepChecks.contract_diagnostics
    main_sequence_crmapi.Campaigns.Graph.StepChecks.comparison_diagnostics
    main_sequence_crmapi.Campaigns.Graph.StepChecks.declared_inputs
    main_sequence_crmapi.Campaigns.Graph.StepChecks.binding_diagnostics
    main_sequence_crmapi.Campaigns.Graph.StepChecks.step_diagnostics
    main_sequence_crmapi.Campaigns.Graph.StepChecks.steps_diagnostics
    main_sequence_crmapi.Campaigns.Graph.Validate.entry_diagnostics
    main_sequence_crmapi.Campaigns.Graph.Validate.missing_from
    main_sequence_crmapi.Campaigns.Graph.Validate.reach_diagnostics
    main_sequence_crmapi.Campaigns.Graph.Validate.cycle_diagnostics
    main_sequence_crmapi.Campaigns.Graph.Validate.acyclic_diagnostics
    main_sequence_crmapi.Campaigns.Graph.Validate.validate_graph
    main_sequence_crmapi.Campaigns.Graph.Closure.closure
    main_sequence_crmapi.Campaigns.Graph.Closure.reaches
    main_sequence_crmapi.Campaigns.Graph.Cycles.cycle_members main_sequence_crmapi.Common.any
    main_sequence_crmapi.Common.mem main_sequence_crmapi.Common.get main_sequence_crmapi.Common.put
    main_sequence_crmapi.Common.dict_keys main_sequence_crmapi.Common.str_mem
    main_sequence_crmapi.Common.set_add main_sequence_crmapi.Campaigns.Service.edit_campaign
    main_sequence_crmapi.Campaigns.Service.change_campaign
    main_sequence_crmapi.Campaigns.Service.status_refusal
    main_sequence_crmapi.Campaigns.Service.graph_of
    main_sequence_crmapi.Campaigns.Store.Lifecycle.update_campaign
    main_sequence_crmapi.Common.row_where main_sequence_crmapi.Campaigns.Service.Graphs.update_graph
    main_sequence_crmapi.Campaigns.Service.Graphs.graph_change
    main_sequence_crmapi.Campaigns.Service.Graphs.plan_steps
    main_sequence_crmapi.Campaigns.Service.Graphs.step_change
    main_sequence_crmapi.Campaigns.Service.Graphs.row_in
    main_sequence_crmapi.Campaigns.Service.Graphs.step_missing
    main_sequence_crmapi.Campaigns.Graph.Changes.same_list
    main_sequence_crmapi.Campaigns.Graph.Changes.within
    main_sequence_crmapi.Campaigns.Graph.Changes.same_exposure
    main_sequence_crmapi.Campaigns.Graph.Changes.layout_only_change
    main_sequence_crmapi.Campaigns.Graph.Changes.same_fields
    main_sequence_crmapi.Campaigns.Store.Saving.save_graph
    main_sequence_crmapi.Campaigns.Store.Saving.save_gate
    main_sequence_crmapi.Campaigns.Store.Saving.save_steps
    main_sequence_crmapi.Campaigns.Store.Saving.save_layout
    main_sequence_crmapi.Campaigns.Store.Saving.save_transitions main_sequence_crmapi.Common.keep
    main_sequence_crmapi.Common.update_where main_sequence_crmapi.Campaigns.Briefing.value_of
    main_sequence_crmapi.Campaigns.Service.steps_of
    main_sequence_crmapi.Campaigns.Service.transitions_of
graph-stored = refl

calls-there : get (database campaign_active).campaigns 1 ≡ some (calls campaign_active)
unfolding main_sequence_crmapi.Common.get
calls-there = refl

keys-different : uids_different (dict_keys (database campaign_active).steps) ≡ true
unfolding main_sequence_crmapi.Common.uids_different main_sequence_crmapi.Common.dict_keys
    main_sequence_crmapi.Common.mem
keys-different = refl

stored_graph_kept_example :
    (after_save.steps ≡ (database campaign_active).steps)
    × (after_save.transitions ≡ (database campaign_active).transitions)
    × (after_save.progress ≡ (database campaign_active).progress)
stored_graph_kept_example =
    stored_graph_kept everything anyone no_uuid resolved editor 1 same_again
      (database campaign_active) after_save (calls campaign_active) keys-different graph-stored
      graph-saved

live_graph_runnable_example :
    (is_runnable (validate_graph no_uuid same_again.graph resolved) ≡ true)
    × (((calls campaign_active).version == 1) ≡ true)
live_graph_runnable_example =
    live_graph_runnable everything anyone no_uuid resolved editor 1 same_again
      (database campaign_active) after_save (calls campaign_active) calls-there refl graph-saved
