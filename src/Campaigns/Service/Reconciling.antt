-- ===== src/Campaigns/Service/Reconciling.antt =====
-- `reconcile` of src/crm/campaigns/service.py. The parser of times and the JSON texts that the database keeps are
-- arguments.
use main_sequence_crmapi.Campaigns.Service.Completing.{
  validate_completion, PreparedWith, Verdict, fails, passes,
}
pub mod Laws
use main_sequence_crmapi.Common.{
  get, ℕ, String, str_eq, Bool, true, false, not, ◌&&◌, ◌||◌, Option, none, some, List, [], ◌==◌,
  if◌then◌else◌,
}
use main_sequence_crmapi.Campaigns.Briefing.{Json}
use main_sequence_crmapi.Campaigns.Store.Rows.{
  is_open, is_live, ProgressState, TaskRow, Db, Caller, state_open, state_waiting, state_blocked,
  state_completed, state_cancelled,
}
use main_sequence_crmapi.Campaigns.Store.Progression.{complete}
use main_sequence_crmapi.Campaigns.Store.Reconcile.{reconcile_reopen, reconcile_cancel}
use main_sequence_crmapi.Campaigns.Service.{
  from_store, Answer, forbidden, lost, unknown_row, invalid, raised,
}
use main_sequence_crmapi.Campaigns.Service.Recording.{context_of, Context}

pub data Action : Type 0 where
  resume reopen : Action
  -- the step that the participant goes to, and whether it finishes
  cancel_work_at : Option ℕ → Bool → Action

pub record ReconcileCommand : Type 0 where
  pub participant_uid : ℕ
  pub step_uid : ℕ
  pub expected_version : ℕ
  pub task_expected_version : Option ℕ
  pub action : Action

abbrev pub is_cancel : Action → Bool
is_cancel resume = false
is_cancel reopen = false
is_cancel (cancel_work_at next finish) = true

abbrev pub is_reopen : Action → Bool
is_reopen resume = false
is_reopen reopen = true
is_reopen (cancel_work_at next finish) = false

abbrev pub is_done : ProgressState → Bool
is_done state_open = false
is_done state_waiting = false
is_done state_blocked = false
is_done state_completed = true
is_done state_cancelled = false

abbrev pub is_stuck : ProgressState → Bool
is_stuck state_open = false
is_stuck state_waiting = false
is_stuck state_blocked = true
is_stuck state_completed = false
is_stuck state_cancelled = false

-- the states that the action takes
abbrev pub takes_action : Action → ProgressState → Bool
takes_action action state = is_open state || (is_reopen action && is_done state)

-- command.task_expected_version or int(task["version"])
abbrev pub task_version_for : Option ℕ → TaskRow → ℕ
task_version_for none t = t.version
task_version_for (some v) t = if v == 0 then t.version else v

module _ (is_datetime : String → Bool) (load_result : List (String × String) → List (String × Json))
    (prepared_text : PreparedWith → String) where
  -- complete, with the result that the work has
  abbrev pub resume_with : Caller → ReconcileCommand → Context → String → ℕ → Db → Verdict → Answer
  resume_with who cmd context outcome task_version db (fails why) = raised why db
  resume_with who cmd context outcome task_version db (passes current) = from_store (
      complete who
        (record {
          participant_uid = cmd.participant_uid;
          expected_version = cmd.expected_version;
          step_uid = cmd.step_uid;
          task_uid = context.progress.task_uid;
          task_expected_version = task_version;
          campaign_version = current.campaign_version;
          step_version = current.step_version;
          outcome_key = outcome;
          result = context.progress.result;
          evidence = [];
          prepared_with = prepared_text current;
        })
        db)

  -- the branch of resume
  unfoldable pub resume_work : Caller → ReconcileCommand → Context → TaskRow → Db → Answer
  resume_work who cmd context t db = elim context.progress.outcome_key [
    | none ↦ raised (invalid "action" "nothing_to_resume") db
    | some outcome ↦
        if not (is_stuck context.progress.state) || str_eq outcome ""
        then raised (invalid "action" "nothing_to_resume") db
        else if not (is_live t.archived_at)
        then raised (invalid "action" "task_archived") db
        else resume_with who cmd context outcome (task_version_for cmd.task_expected_version t) db (
            validate_completion is_datetime db context cmd.step_uid outcome
              (load_result context.progress.result))
  ]

  -- the branches on the action
  unfoldable pub act : Caller → ReconcileCommand → Context → TaskRow → Action → Db → Answer
  unfolding resume_work
  act who cmd context t resume db = resume_work who cmd context t db
  act who cmd context t reopen db = from_store (
      reconcile_reopen who
        (record {
          participant_uid = cmd.participant_uid;
          expected_version = cmd.expected_version;
          step_uid = cmd.step_uid;
          task_uid = context.progress.task_uid;
          task_expected_version = task_version_for cmd.task_expected_version t;
        })
        db)
  act who cmd context t (cancel_work_at next finish) db = from_store (
      reconcile_cancel who
        (record {
          participant_uid = cmd.participant_uid;
          expected_version = cmd.expected_version;
          step_uid = cmd.step_uid;
          task_uid = context.progress.task_uid;
          task_expected_version = task_version_for cmd.task_expected_version t;
          next_step_uid = next;
          finish = finish;
        })
        db)

  unfoldable pub reconcile : (String → Bool) → Caller → ReconcileCommand → Db → Answer
  unfolding act
  reconcile can who cmd db =
      if not (can "crm.edit") || (is_cancel cmd.action && not (can "crm.archive"))
      then raised forbidden db
      else elim (context_of db cmd.participant_uid cmd.step_uid) [
        | none ↦ raised unknown_row db
        | some context ↦
            if not (context.participant.version == cmd.expected_version)
            then raised lost db
            else if not (takes_action cmd.action context.progress.state)
            then raised (invalid "step_uid" "not_open") db
            else elim (get db.tasks context.progress.task_uid) [
              | none ↦ raised unknown_row db
              | some t ↦ act who cmd context t cmd.action db
            ]
      ]
