-- ===== src/Campaigns/Store/Tests.antt =====
-- Runs of the writes of src/crm/repositories/campaigns.py on a small database, and the theorems at these.
use main_sequence_crmapi.Common.{
  get, any, find, ◌≤◌, ◌≡◌, refl, true, false, none, some, List, [], ◌∷◌, arith, is_some,
}
use main_sequence_crmapi.Campaigns.Models.{StepFields, human}
use main_sequence_crmapi.Campaigns.Store.Rows.{
  after, is_accepted, is_enrolled, CampaignRow, StepRow, TransitionRow, ParticipantRow, Assignment,
  TaskRow, Db, Caller, campaign_active, active, completed,
}
use main_sequence_crmapi.Campaigns.Store.Progression.{
  advance, is_route, complete, Advance, Complete,
}
use main_sequence_crmapi.Campaigns.Store.Commands.{
  perform, run, Command, work_advance, work_complete,
}
use main_sequence_crmapi.Campaigns.Store.Laws.Settled.{AllSettled, run_settled}
use main_sequence_crmapi.Campaigns.Store.Records.{open_at}
use main_sequence_crmapi.Campaigns.Store.Laws.Versions.{run_finished, run_version}
use main_sequence_crmapi.Campaigns.Store.Laws.Stale.{accepted-Bumps, stale_write_refused}
use main_sequence_crmapi.Campaigns.Store.Laws.Unique.{one_each, run-one_each}
use main_sequence_crmapi.Campaigns.Store.Laws.Once.{advance_once}
use main_sequence_crmapi.Campaigns.Store.Laws.Routing.{arrival, complete_routes}
use main_sequence_crmapi.Campaigns.Store.Laws.Refused.{refused_write_keeps}

abbrev send_step : StepFields
send_step = record {
  title = "Send";
  task_text = "Send the letter";
  prompt_variants = [];
  prompt_comparison = none;
  completion_mode = human;
  owner_uid = none;
  task_type_key = none;
  due_after_seconds = some 60;
  input_bindings = [];
  completion_criteria = "sent";
  outcomes = [];
  position = none;
}

abbrev letters : CampaignRow
letters = record {
  version = 3;
  archived_at = none;
  name = "Letters";
  objective = "Write";
  owner_uid = 9;
  context = "{}";
  status = campaign_active;
  entry_step_uid = some 2;
}

abbrev send_row : StepRow
send_row = record { version = 1; archived_at = none; campaign_uid = 1; fields = send_step }

abbrev finish : TransitionRow
finish = record {
  uid = 30;
  version = 1;
  campaign_uid = 1;
  from_step_uid = 2;
  outcome_key = "sent";
  to_step_uid = none;
  delay_seconds = 0;
}

abbrev lina : ParticipantRow
lina = record {
  version = 1;
  campaign_uid = 1;
  contact_uid = 7;
  status = active;
  context = "{}";
  next_step_uid = some 2;
  eligible_at = some 10;
  finished_at = none;
}

abbrev sample : Db
sample = record {
  campaigns = (1, letters) ∷ [];
  steps = (2, send_row) ∷ [];
  transitions = finish ∷ [];
  participants = (5, lina) ∷ [];
  progress = [];
  tasks = [];
  prompts =
      (
        40,
        record {
          version = 1;
          archived_at = none;
          name = "Letter";
          description = none;
          content_markdown = "Write";
        },
      )
      ∷ [];
  step_prompts = (40, record { inputs = []; result_fields = [] }) ∷ [];
  contacts = (7, none) ∷ [];
  activity = [];
}

abbrev caller : Caller
caller = record { actor_uid = 9; now = 100 }

abbrev first_prompt : Assignment
first_prompt = record {
  variant_key = "a";
  prompt_uid = 40;
  assigned_prompt_version = 1;
  comparison = none;
  comparison_changed = false;
}

abbrev to_send : Advance
to_send = record {
  participant_uid = 5;
  expected_version = 1;
  step_uid = 2;
  step_version = 1;
  prompt_assignment = first_prompt;
}

abbrev sent : Complete
sent = record {
  participant_uid = 5;
  expected_version = 2;
  step_uid = 2;
  task_uid = 50;
  task_expected_version = 1;
  campaign_version = 3;
  step_version = 1;
  outcome_key = "sent";
  result = ("note", "done") ∷ [];
  evidence = [];
  prepared_with = "{}";
}

abbrev story : List (Caller × Command)
story = (caller, work_advance 50 to_send) ∷ (caller, work_complete sent) ∷ []

-- lina once she has completed the campaign
abbrev lina_done : ParticipantRow
lina_done = record {
  version = 3;
  campaign_uid = 1;
  contact_uid = 7;
  status = completed;
  context = "{}";
  next_step_uid = none;
  eligible_at = none;
  finished_at = some 100;
}

abbrev opened : Db
opened = run ((caller, work_advance 50 to_send) ∷ []) sample

abbrev finished : Db
finished = run story sample

sample-AllSettled : AllSettled sample.participants
unfolding AllSettled main_sequence_crmapi.Common.get
sample-AllSettled uid p h = ground (arith, h)

run_settled_example : AllSettled finished.participants
run_settled_example = run_settled story sample sample-AllSettled

opened-accepted : is_accepted (perform caller (work_advance 50 to_send) sample) ≡ true
unfolding main_sequence_crmapi.Campaigns.Store.Commands.perform
    main_sequence_crmapi.Campaigns.Store.Commands.run
    main_sequence_crmapi.Campaigns.Store.Progression.advance
    main_sequence_crmapi.Campaigns.Store.Progression.advance_gate
    main_sequence_crmapi.Campaigns.Store.Progression.complete
    main_sequence_crmapi.Campaigns.Store.Progression.complete_gate
    main_sequence_crmapi.Campaigns.Store.Progression.route_of
    main_sequence_crmapi.Campaigns.Store.Progression.task_to_settle
    main_sequence_crmapi.Campaigns.Store.Progression.routed main_sequence_crmapi.Common.row_where
    main_sequence_crmapi.Common.get main_sequence_crmapi.Common.put main_sequence_crmapi.Common.any
    main_sequence_crmapi.Common.find main_sequence_crmapi.Common.update_where
opened-accepted = refl

sent-accepted : is_accepted (complete caller sent opened) ≡ true
unfolding main_sequence_crmapi.Campaigns.Store.Commands.perform
    main_sequence_crmapi.Campaigns.Store.Commands.run
    main_sequence_crmapi.Campaigns.Store.Progression.advance
    main_sequence_crmapi.Campaigns.Store.Progression.advance_gate
    main_sequence_crmapi.Campaigns.Store.Progression.complete
    main_sequence_crmapi.Campaigns.Store.Progression.complete_gate
    main_sequence_crmapi.Campaigns.Store.Progression.route_of
    main_sequence_crmapi.Campaigns.Store.Progression.task_to_settle
    main_sequence_crmapi.Campaigns.Store.Progression.routed main_sequence_crmapi.Common.row_where
    main_sequence_crmapi.Common.get main_sequence_crmapi.Common.put main_sequence_crmapi.Common.any
    main_sequence_crmapi.Common.find main_sequence_crmapi.Common.update_where
sent-accepted = refl

lina-finished : get finished.participants 5 ≡ some lina_done
unfolding main_sequence_crmapi.Campaigns.Store.Commands.perform
    main_sequence_crmapi.Campaigns.Store.Commands.run
    main_sequence_crmapi.Campaigns.Store.Progression.advance
    main_sequence_crmapi.Campaigns.Store.Progression.advance_gate
    main_sequence_crmapi.Campaigns.Store.Progression.complete
    main_sequence_crmapi.Campaigns.Store.Progression.complete_gate
    main_sequence_crmapi.Campaigns.Store.Progression.route_of
    main_sequence_crmapi.Campaigns.Store.Progression.task_to_settle
    main_sequence_crmapi.Campaigns.Store.Progression.routed main_sequence_crmapi.Common.row_where
    main_sequence_crmapi.Common.get main_sequence_crmapi.Common.put main_sequence_crmapi.Common.any
    main_sequence_crmapi.Common.find main_sequence_crmapi.Common.update_where
lina-finished = refl

opened-once : one_each sample.progress ≡ true
unfolding one_each
opened-once = refl

lina-refused : is_accepted (perform caller (work_complete sent) sample) ≡ false
unfolding main_sequence_crmapi.Campaigns.Store.Commands.perform
    main_sequence_crmapi.Campaigns.Store.Commands.run
    main_sequence_crmapi.Campaigns.Store.Progression.advance
    main_sequence_crmapi.Campaigns.Store.Progression.advance_gate
    main_sequence_crmapi.Campaigns.Store.Progression.complete
    main_sequence_crmapi.Campaigns.Store.Progression.complete_gate
    main_sequence_crmapi.Campaigns.Store.Progression.route_of
    main_sequence_crmapi.Campaigns.Store.Progression.task_to_settle
    main_sequence_crmapi.Campaigns.Store.Progression.routed main_sequence_crmapi.Common.row_where
    main_sequence_crmapi.Common.get main_sequence_crmapi.Common.put main_sequence_crmapi.Common.any
    main_sequence_crmapi.Common.find main_sequence_crmapi.Common.update_where
lina-refused = refl

run_finished_example : get (run story finished).participants 5 ≡ some lina_done
run_finished_example = run_finished story finished 5 lina_done lina-finished refl

run_version_example :
    (q : ParticipantRow) × (get finished.participants 5 ≡ some q) × (lina.version ≤ q.version)
unfolding main_sequence_crmapi.Common.get
run_version_example = run_version story sample 5 lina refl

accepted_Bumps_example :
    (p : ParticipantRow) × (q : ParticipantRow) × (get sample.participants 5 ≡ some p)
    × (p.version ≡ 1)
    × (get (after (perform caller (work_advance 50 to_send) sample)).participants 5 ≡ some q)
    × (q.version ≡ 2)
accepted_Bumps_example =
    accepted-Bumps caller (work_advance 50 to_send) sample 5 1 refl opened-accepted

stale_write_refused_example :
    is_accepted (
      perform caller (work_advance 51 to_send) (
        run
          ((caller, work_complete sent) ∷ [])
          (after (perform caller (work_advance 50 to_send) sample))))
    ≡ false
stale_write_refused_example =
    stale_write_refused caller caller (work_advance 50 to_send) (work_advance 51 to_send)
      ((caller, work_complete sent) ∷ []) sample 5 1 refl refl opened-accepted

run-one_each_example : one_each finished.progress ≡ true
run-one_each_example = run-one_each story sample opened-once

advance_once_example :
    is_accepted (
      advance caller 51 to_send
        (run ((caller, work_complete sent) ∷ []) (after (advance caller 50 to_send sample))))
    ≡ false
unfolding main_sequence_crmapi.Campaigns.Store.Commands.perform
advance_once_example =
    advance_once caller caller 50 51 to_send to_send ((caller, work_complete sent) ∷ []) sample
      opened-accepted refl refl

complete_routes_example :
    (r : TransitionRow) × (q : ParticipantRow) × (t : TaskRow) × (find
        (is_route sent)
        opened.transitions
      ≡ some r)
    × (get (after (complete caller sent opened)).participants 5 ≡ some q)
    × (q.next_step_uid ≡ r.to_step_uid)
    × (q.eligible_at ≡ arrival caller r)
    × (is_enrolled q.status ≡ is_some r.to_step_uid)
    × (get (after (complete caller sent opened)).tasks 50 ≡ some t)
    × (is_some t.completed_at ≡ true)
    × (any (open_at 5 2) (after (complete caller sent opened)).progress ≡ false)
complete_routes_example = complete_routes caller sent opened sent-accepted

refused_write_keeps_example :
    ((after (perform caller (work_complete sent) sample)).participants ≡ sample.participants)
    × ((after (perform caller (work_complete sent) sample)).campaigns ≡ sample.campaigns)
    × ((after (perform caller (work_complete sent) sample)).activity ≡ sample.activity)
    × ((after (perform caller (work_complete sent) sample)).steps ≡ sample.steps)
    × ((after (perform caller (work_complete sent) sample)).transitions ≡ sample.transitions)
    × ((after (perform caller (work_complete sent) sample)).prompts ≡ sample.prompts)
refused_write_keeps_example = refused_write_keeps caller (work_complete sent) sample lina-refused
