-- ===== src/Campaigns/Store/Progression.antt =====
-- advance and complete of src/crm/repositories/campaigns.py.
use main_sequence_crmapi.Common.{
  get, put, row_where, any, find, update_where, ℕ, suc, ◌+◌, String, str_eq, Bool, true, false, not,
  ◌&&◌, Option, none, some, List, [], ◌∷◌, ◌++◌, has, leb, ◌==◌, if◌then◌else◌,
}
use Prim.Native.String.{◌++◌ as str_append}
use main_sequence_crmapi.Campaigns.Store.Rows.{
  event, coalesce, is_open, is_active, is_running, is_live, at_step, CampaignRow, StepRow,
  TransitionRow, ParticipantRow, Assignment, ProgressRow, TaskRow, Db, Caller, Written, completed,
  state_open, state_completed, accepted, conflict, refused,
}

pub record Advance : Type 0 where
  pub participant_uid : ℕ
  pub expected_version : ℕ
  pub step_uid : ℕ
  pub step_version : ℕ
  pub prompt_assignment : Assignment

abbrev pub is_eligible : Option ℕ → ℕ → Bool
is_eligible none now = true
is_eligible (some at) now = leb at now

-- next_step_uid = step
abbrev pub is_step : Option ℕ → ℕ → Bool
is_step none step = false
is_step (some next) step = next == step

-- `locked` of advance
abbrev pub advance_locked : Caller → Advance → Db → Option ParticipantRow
advance_locked who cmd db =
    row_where
      (λ p.
        p.version == cmd.expected_version
        && is_active p.status
        && is_step p.next_step_uid cmd.step_uid
        && is_eligible p.eligible_at who.now)
      db.participants cmd.participant_uid

-- the prompt of the assignment is live and has its version
abbrev pub prompt_current : Db → Assignment → Bool
prompt_current db a = elim (get db.prompts a.prompt_uid) [
  | none ↦ false
  | some p ↦ p.version == a.assigned_prompt_version && is_live p.archived_at
]

abbrev pub campaign_live : Db → ℕ → Option CampaignRow
campaign_live db uid =
    row_where (λ c. is_running c.status && is_live c.archived_at) db.campaigns uid

-- the campaign's step
abbrev pub step_current : Db → Advance → ℕ → Option StepRow
step_current db cmd campaign =
    row_where
      (λ s. s.campaign_uid == campaign && is_live s.archived_at && s.version == cmd.step_version)
      db.steps cmd.step_uid

pub record AdvanceGate : Type 0 where
  pub participant : ParticipantRow
  pub campaign : CampaignRow
  pub step : StepRow

-- `gate` of advance
unfoldable pub advance_gate : Caller → Advance → Db → Option AdvanceGate
advance_gate who cmd db = elim (advance_locked who cmd db) [
  | none ↦ none
  | some l ↦ elim (campaign_live db l.campaign_uid) [
    | none ↦ none
    | some c ↦ elim (step_current db cmd l.campaign_uid) [
      | none ↦ none
      | some s ↦
          if prompt_current db cmd.prompt_assignment
            && not (any (at_step cmd.participant_uid cmd.step_uid) db.progress)
          then some (record { participant = l; campaign = c; step = s })
          else none
    ]
  ]
]

abbrev pub due_from : Caller → Option ℕ → Option ℕ
due_from who none = none
due_from who (some seconds) = some (who.now + seconds)

abbrev pub or_else {ℓ} : {A : Type ℓ} → Option A → A → A
or_else none b = b
or_else (some a) b = a

-- task_created
abbrev pub new_task : Caller → AdvanceGate → TaskRow
new_task who gate = record {
  version = 1;
  archived_at = none;
  contact_uid = gate.participant.contact_uid;
  owner_uid = or_else gate.step.fields.owner_uid gate.campaign.owner_uid;
  type_key = or_else gate.step.fields.task_type_key "follow-up";
  text = str_append gate.step.fields.title (str_append "\n\n" gate.step.fields.task_text);
  due_at = due_from who gate.step.fields.due_after_seconds;
  completed_at = none;
  completed_by_uid = none;
}

-- progress_created
abbrev pub new_progress : Advance → ℕ → ProgressRow
new_progress cmd task = record {
  participant_uid = cmd.participant_uid;
  step_uid = cmd.step_uid;
  task_uid = task;
  prompt_assignment = cmd.prompt_assignment;
  state = state_open;
  outcome_key = none;
  result = [];
  evidence = [];
  prepared_with = none;
  wake_at = none;
  blocked_reason = none;
  completed_at = none;
}

abbrev pub bump : ParticipantRow → ParticipantRow
bump p = record p { version = suc p.version }

-- the task's uid is a new uuid4
unfoldable pub advance : Caller → ℕ → Advance → Db → Written
advance who task cmd db = elim (advance_gate who cmd db) [
  | none ↦ conflict db
  | some gate ↦
      if has db.tasks task
      then refused db
      else accepted (record db {
        tasks = put db.tasks task (new_task who gate);
        progress = new_progress cmd task ∷ db.progress;
        participants = put db.participants cmd.participant_uid (bump gate.participant);
        activity =
            event who "task" task "created"
            ∷ event who "campaign_participant" cmd.participant_uid "advanced"
            ∷ db.activity;
      })
]

pub record Complete : Type 0 where
  pub participant_uid : ℕ
  pub expected_version : ℕ
  pub step_uid : ℕ
  pub task_uid : ℕ
  pub task_expected_version : ℕ
  pub campaign_version : ℕ
  pub step_version : ℕ
  pub outcome_key : String
  pub result : List (String × String)
  pub evidence : List String
  pub prepared_with : String

-- `route` of complete
abbrev pub is_route : Complete → TransitionRow → Bool
is_route cmd t = t.from_step_uid == cmd.step_uid && str_eq t.outcome_key cmd.outcome_key

unfoldable pub route_of : Complete → Db → ParticipantRow → Option TransitionRow
route_of cmd db l = elim (row_where (λ s. s.version == cmd.step_version) db.steps cmd.step_uid) [
  | none ↦ none
  | some s ↦
      elim (row_where
        (λ c. c.version == cmd.campaign_version && is_running c.status && is_live c.archived_at)
        db.campaigns s.campaign_uid) [
          | none ↦ none
          | some c ↦
              if s.campaign_uid == l.campaign_uid then find (is_route cmd) db.transitions else none
        ]
]

-- the open progress of the participant at the step, with its task
abbrev pub has_open_work : ℕ → ℕ → ℕ → ProgressRow → Bool
has_open_work participant step task g =
    at_step participant step g && g.task_uid == task && is_open g.state

-- `locked` of complete
abbrev pub complete_locked : Complete → Db → Option ParticipantRow
complete_locked cmd db =
    row_where (λ p. p.version == cmd.expected_version && is_active p.status) db.participants
      cmd.participant_uid

pub record CompleteGate : Type 0 where
  pub participant : ParticipantRow
  pub route : TransitionRow

-- `gate` of complete
unfoldable pub complete_gate : Complete → Db → Option CompleteGate
complete_gate cmd db = elim (complete_locked cmd db) [
  | none ↦ none
  | some l ↦ elim (route_of cmd db l) [
    | none ↦ none
    | some r ↦
        if any (has_open_work cmd.participant_uid cmd.step_uid cmd.task_uid) db.progress
        then some (record { participant = l; route = r })
        else none
  ]
]

-- the task of task_done
unfoldable pub task_to_settle : Complete → Db → Option TaskRow
task_to_settle cmd db =
    row_where (λ t. t.version == cmd.task_expected_version && is_live t.archived_at) db.tasks
      cmd.task_uid

abbrev pub settled_task : Caller → TaskRow → TaskRow
settled_task who t = record t {
  version = suc t.version;
  completed_at = coalesce t.completed_at who.now;
  completed_by_uid = coalesce t.completed_by_uid who.actor_uid;
}

-- progress_done
abbrev pub completed_progress : Caller → Complete → ProgressRow → ProgressRow
completed_progress who cmd g = record g {
  state = state_completed;
  outcome_key = some cmd.outcome_key;
  result = cmd.result;
  evidence = g.evidence ++ cmd.evidence;
  prepared_with = some cmd.prepared_with;
  blocked_reason = none;
  wake_at = none;
  completed_at = some who.now;
}

-- `changed` of complete
unfoldable pub routed : Caller → Option ℕ → ℕ → ParticipantRow → ParticipantRow
routed who none delay p = record p {
  version = suc p.version;
  next_step_uid = none;
  eligible_at = none;
  status = completed;
  finished_at = some who.now;
}
routed who (some step) delay p = record p {
  version = suc p.version;
  next_step_uid = some step;
  eligible_at = some (who.now + delay);
}

unfoldable pub complete : Caller → Complete → Db → Written
complete who cmd db = elim (complete_gate cmd db) [
  | none ↦ conflict db
  | some gate ↦ elim (task_to_settle cmd db) [
    | none ↦ conflict db
    | some t ↦ accepted (record db {
      tasks = put db.tasks cmd.task_uid (settled_task who t);
      progress =
          update_where (at_step cmd.participant_uid cmd.step_uid) (completed_progress who cmd)
            db.progress;
      participants =
          put db.participants cmd.participant_uid
            (routed who gate.route.to_step_uid gate.route.delay_seconds gate.participant);
      activity =
          event who "task" cmd.task_uid "completed"
          ∷ event who "campaign_participant" cmd.participant_uid "step_completed"
          ∷ db.activity;
    })
  ]
]
