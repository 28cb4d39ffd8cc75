-- ===== src/Campaigns/Service/Completing.antt =====
-- `complete` of src/crm/campaigns/service.py, with `_current_prompt` and `_validate_completion`. The parser of
-- times and the JSON texts that the database keeps are arguments.
pub mod Laws
use main_sequence_crmapi.Common.{
  get, str_mem, any, find, ℕ, String, str_eq, Bool, not, ◌&&◌, none, some, List, [], ◌∷◌, ◌==◌,
  if◌then◌else◌,
}
use main_sequence_crmapi.Campaigns.Models.{outcome_keys}
use main_sequence_crmapi.Campaigns.Briefing.{validate_result, Json}
use main_sequence_crmapi.Campaigns.Graph.Diagnostics.{
  route_missing, prompt_missing, prompt_archived,
}
use main_sequence_crmapi.Campaigns.Store.Rows.{
  is_open, is_running, is_live, StepRow, TransitionRow, Assignment, PromptRow, StepPromptRow, Db,
  Caller, Written, accepted, conflict, refused,
}
use main_sequence_crmapi.Campaigns.Store.Progression.{complete, Complete}
use main_sequence_crmapi.Campaigns.Store.Records.{record_progress, Record, stale_result}
use main_sequence_crmapi.Campaigns.Service.{
  Refusal, forbidden, lost, unknown_row, key_taken, invalid, bad_result,
}
use main_sequence_crmapi.Campaigns.Service.Recording.{context_of, Context}

pub record PreparedWith : Type 0 where
  pub campaign_version : ℕ
  pub step_version : ℕ
  pub prompt_uid : ℕ
  pub prompt_version : ℕ

pub record CompleteCommand : Type 0 where
  pub participant_uid : ℕ
  pub step_uid : ℕ
  pub expected_version : ℕ
  pub task_expected_version : ℕ
  pub outcome_key : String
  pub result : List (String × Json)
  pub evidence : List String
  pub prepared_with : PreparedWith

-- model_dump of both
abbrev pub same_prepared : PreparedWith → PreparedWith → Bool
same_prepared a b =
    a.campaign_version == b.campaign_version
    && a.step_version == b.step_version
    && a.prompt_uid == b.prompt_uid
    && a.prompt_version == b.prompt_version

-- the prompt of the assigned variant, as the step's mapping has it now: none, with the code of the
-- diagnostic, an archived one, or one to work with
pub data CurrentPrompt : Type 0 where
  no_prompt : String → CurrentPrompt
  archived_prompt current_prompt : ℕ → PromptRow → StepPromptRow → CurrentPrompt

-- _current_prompt
unfoldable pub prompt_of : Db → StepRow → Assignment → CurrentPrompt
prompt_of db step assignment =
    elim (find (λ v. str_eq v.key assignment.variant_key) step.fields.prompt_variants) [
      | none ↦ no_prompt "variant_removed"
      | some v ↦ elim (get db.prompts v.prompt_uid) [
        | none ↦ no_prompt "prompt_missing"
        | some p ↦ elim (get db.step_prompts v.prompt_uid) [
          | none ↦ no_prompt "prompt_missing"
          | some sp ↦
              if is_live p.archived_at
              then current_prompt v.prompt_uid p sp
              else archived_prompt v.prompt_uid p sp
        ]
      ]
    ]

-- what `_validate_completion` answers: it raises, or gives the versions to work with
pub data Verdict : Type 0 where
  fails : Refusal → Verdict
  passes : PreparedWith → Verdict

-- a connection of the campaign from the step for the outcome
abbrev pub routes_from : ℕ → ℕ → String → TransitionRow → Bool
routes_from campaign step outcome t =
    t.campaign_uid == campaign && t.from_step_uid == step && str_eq t.outcome_key outcome

module _ (is_datetime : String → Bool) where
  -- from the prompt on
  unfoldable pub check_result : Context → List (String × Json) → CurrentPrompt → Verdict
  check_result context result (no_prompt code) = fails (invalid "prompt" code)
  check_result context result (archived_prompt uid p sp) =
      fails (invalid "prompt" "prompt_archived")
  check_result context result (current_prompt uid p sp) =
      elim (validate_result is_datetime result sp.result_fields) [
        | [] ↦ passes (record {
          campaign_version = context.campaign.version;
          step_version = context.step.version;
          prompt_uid = uid;
          prompt_version = p.version;
        })
        | problem ∷ problems ↦ fails (bad_result (problem ∷ problems))
      ]

  -- _validate_completion
  unfoldable pub validate_completion : Db → Context → ℕ → String → List (String × Json) → Verdict
  unfolding prompt_of check_result
  validate_completion db context step outcome result =
      if not (is_running context.campaign.status && is_live context.campaign.archived_at)
      then fails (invalid "campaign_uid" "lifecycle")
      else if not (is_live context.step.archived_at)
      then fails (invalid "step_uid" "step_retired")
      else if not (is_open context.progress.state)
      then fails (invalid "step_uid" "not_open")
      else if not (str_mem outcome (outcome_keys context.step.fields))
      then fails (invalid "outcome_key" "outcome_unknown")
      else if not (any (routes_from context.participant.campaign_uid step outcome) db.transitions)
      then fails (invalid "outcome_key" "route_missing")
      else check_result context result
          (prompt_of db context.step context.progress.prompt_assignment)

-- the result is accepted, or kept for a reconciliation, or the operation raises
pub data Completed : Type 0 where
  accepted_work kept_stale : Db → Completed
  halted : Refusal → Db → Completed

abbrev pub from_complete : Written → Completed
from_complete (accepted db) = accepted_work db
from_complete (conflict db) = halted lost db
from_complete (refused db) = halted key_taken db

abbrev pub from_record : Written → Completed
from_record (accepted db) = kept_stale db
from_record (conflict db) = halted lost db
from_record (refused db) = halted key_taken db

module _ (is_datetime : String → Bool)
    (store_result : List (String × Json) → List (String × String))
    (prepared_text : PreparedWith → String) where
  abbrev pub stale_command : CompleteCommand → Record
  stale_command cmd = record {
    participant_uid = cmd.participant_uid;
    expected_version = cmd.expected_version;
    step_uid = cmd.step_uid;
    kind = stale_result;
    evidence = cmd.evidence;
    wake_at = none;
    blocked_reason = some "stale_briefing";
    result = some (store_result cmd.result);
    outcome_key = some cmd.outcome_key;
    prepared_with = some (prepared_text cmd.prepared_with);
  }

  abbrev pub store_command : CompleteCommand → Context → PreparedWith → Complete
  store_command cmd context current = record {
    participant_uid = cmd.participant_uid;
    expected_version = cmd.expected_version;
    step_uid = cmd.step_uid;
    task_uid = context.progress.task_uid;
    task_expected_version = cmd.task_expected_version;
    campaign_version = current.campaign_version;
    step_version = current.step_version;
    outcome_key = cmd.outcome_key;
    result = store_result cmd.result;
    evidence = cmd.evidence;
    prepared_with = prepared_text current;
  }

  -- from the verdict on
  unfoldable pub finish_work : Caller → CompleteCommand → Context → Db → Verdict → Completed
  finish_work who cmd context db (fails why) = halted why db
  finish_work who cmd context db (passes current) =
      if same_prepared cmd.prepared_with current
      then from_complete (complete who (store_command cmd context current) db)
      else from_record (record_progress who (stale_command cmd) db)

  -- complete
  unfoldable pub complete_work : (String → Bool) → Caller → CompleteCommand → Db → Completed
  unfolding finish_work validate_completion
  complete_work can who cmd db =
      if not (can "crm.edit")
      then halted forbidden db
      else elim (context_of db cmd.participant_uid cmd.step_uid) [
        | none ↦ halted unknown_row db
        | some context ↦
            if not (context.participant.version == cmd.expected_version)
            then halted lost db
            else finish_work who cmd context db
                (validate_completion is_datetime db context cmd.step_uid cmd.outcome_key cmd.result)
      ]
