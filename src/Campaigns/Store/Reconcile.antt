-- ===== src/Campaigns/Store/Reconcile.antt =====
-- reconcile_reopen and reconcile_cancel of src/crm/repositories/campaigns.py, and task_completion of
-- src/crm/repositories/tasks.py, which blocks the campaign work of a task that others settle.
use main_sequence_crmapi.Common.{
  get, put, row_where, any, update_where, ℕ, suc, Bool, true, false, not, ◌&&◌, ◌||◌, Option, none,
  some, ◌∷◌, ◌==◌, if◌then◌else◌,
}
use main_sequence_crmapi.Campaigns.Store.Rows.{
  event, is_open, is_workable, is_completed, is_live, at_step, ProgressState, ParticipantRow,
  ProgressRow, TaskRow, Db, Caller, Written, completed, state_open, state_waiting, state_blocked,
  state_completed, state_cancelled, accepted, conflict,
}
use main_sequence_crmapi.Campaigns.Store.Participants.{cancel_work, archive_task}
use main_sequence_crmapi.Campaigns.Store.Progression.{bump, complete}
use main_sequence_crmapi.Campaigns.Store.Records.{enrolled_at}

pub record Reopen : Type 0 where
  pub participant_uid : ℕ
  pub expected_version : ℕ
  pub step_uid : ℕ
  pub task_uid : ℕ
  pub task_expected_version : ℕ

-- state IN ('blocked','waiting','completed')
abbrev pub is_reopenable : ProgressState → Bool
is_reopenable state_open = false
is_reopenable state_waiting = true
is_reopenable state_blocked = true
is_reopenable state_completed = true
is_reopenable state_cancelled = false

unfoldable pub task_at : Db → ℕ → ℕ → Option TaskRow
task_at db uid expected = row_where (λ t. t.version == expected) db.tasks uid

-- task_open
abbrev pub reopened_task : TaskRow → TaskRow
reopened_task t = record t {
  version = suc t.version;
  archived_at = none;
  completed_at = none;
  completed_by_uid = none;
}

-- the rows of `reopened`
abbrev pub to_reopen : Reopen → ProgressRow → Bool
to_reopen cmd g =
    at_step cmd.participant_uid cmd.step_uid g
    && g.task_uid == cmd.task_uid
    && is_reopenable g.state

abbrev pub reopened_progress : ProgressRow → ProgressRow
reopened_progress g = record g {
  state = state_open;
  blocked_reason = none;
  wake_at = none;
  completed_at = none;
}

-- The update of the task stands whether or not a progress row is reopened.
unfoldable pub reconcile_reopen : Caller → Reopen → Db → Written
reconcile_reopen who cmd db = elim (enrolled_at db cmd.participant_uid cmd.expected_version) [
  | none ↦ conflict db
  | some p ↦ elim (task_at db cmd.task_uid cmd.task_expected_version) [
    | none ↦ conflict db
    | some t ↦
        let tasks_after = put db.tasks cmd.task_uid (reopened_task t) in
        if any (to_reopen cmd) db.progress
        then accepted (record db {
          tasks = tasks_after;
          progress = update_where (to_reopen cmd) reopened_progress db.progress;
          participants = put db.participants cmd.participant_uid (bump p);
          activity =
              event who "campaign_participant" cmd.participant_uid "progress_reopened"
              ∷ db.activity;
        })
        else conflict (record db { tasks = tasks_after })
  ]
]

pub record Cancel : Type 0 where
  pub participant_uid : ℕ
  pub expected_version : ℕ
  pub step_uid : ℕ
  pub task_uid : ℕ
  pub task_expected_version : ℕ
  pub next_step_uid : Option ℕ
  pub finish : Bool

-- the step that the cancellation names is a live one of the campaign, and not yet visited
abbrev pub next_available : Cancel → Db → ℕ → Bool
next_available cmd db campaign = elim cmd.next_step_uid [
  | none ↦ false
  | some next ↦ elim (get db.steps next) [
    | none ↦ false
    | some s ↦
        s.campaign_uid == campaign
        && is_live s.archived_at
        && not (any (at_step cmd.participant_uid next) db.progress)
  ]
]

-- `gate`
unfoldable pub cancel_gate : Cancel → Db → Option ParticipantRow
cancel_gate cmd db = elim (enrolled_at db cmd.participant_uid cmd.expected_version) [
  | none ↦ none
  | some p ↦ if cmd.finish || next_available cmd db p.campaign_uid then some p else none
]

-- the rows of `cancelled`
abbrev pub to_cancel : Cancel → ProgressRow → Bool
to_cancel cmd g =
    at_step cmd.participant_uid cmd.step_uid g && g.task_uid == cmd.task_uid && is_open g.state

-- `changed` of reconcile_cancel
unfoldable pub cancelled_participant : Caller → Cancel → ParticipantRow → ParticipantRow
cancelled_participant who cmd p =
    if cmd.finish
    then record p {
      version = suc p.version;
      next_step_uid = none;
      eligible_at = none;
      status = completed;
      finished_at = some who.now;
    }
    else record p {
      version = suc p.version;
      next_step_uid = cmd.next_step_uid;
      eligible_at = some who.now;
    }

-- The task is archived whether or not a progress row is cancelled.
unfoldable pub reconcile_cancel : Caller → Cancel → Db → Written
reconcile_cancel who cmd db = elim (cancel_gate cmd db) [
  | none ↦ conflict db
  | some p ↦ elim (task_at db cmd.task_uid cmd.task_expected_version) [
    | none ↦ conflict db
    | some t ↦
        let tasks_after = put db.tasks cmd.task_uid (archive_task who t) in
        if any (to_cancel cmd) db.progress
        then accepted (record db {
          tasks = tasks_after;
          progress = update_where (to_cancel cmd) cancel_work db.progress;
          participants = put db.participants cmd.participant_uid (cancelled_participant who cmd p);
          activity =
              event who "campaign_participant" cmd.participant_uid "progress_cancelled"
              ∷ db.activity;
        })
        else conflict (record db { tasks = tasks_after })
  ]
]

-- campaign_guard: the work of the task that has to be reconciled
abbrev pub to_block : Bool → ℕ → ProgressRow → Bool
to_block complete task g =
    g.task_uid == task && (if complete then is_workable g.state else is_completed g.state)

abbrev pub blocked_progress : Bool → ProgressRow → ProgressRow
blocked_progress complete g = record g {
  state = state_blocked;
  blocked_reason = some (if complete then "outcome_required" else "task_reopened");
}

-- the completion of a task, or its reopening
abbrev pub task_changed : Caller → Bool → TaskRow → TaskRow
task_changed who complete t = record t {
  version = suc t.version;
  completed_at = if complete then some who.now else none;
  completed_by_uid = if complete then some who.actor_uid else none;
}

-- task_completion. The blocking of the campaign work does not depend on the update of the task.
unfoldable pub task_completion : Caller → ℕ → ℕ → Bool → Db → Written
task_completion who uid expected complete db =
    let blocked = update_where (to_block complete uid) (blocked_progress complete) db.progress in
    elim (task_at db uid expected) [
      | none ↦ conflict (record db { progress = blocked })
      | some t ↦ accepted (record db {
        tasks = put db.tasks uid (task_changed who complete t);
        progress = blocked;
        activity = event who "task" uid (if complete then "completed" else "reopend") ∷ db.activity;
      })
    ]
