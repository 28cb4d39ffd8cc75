-- ===== src/Campaigns/Service/Advancing.antt =====
-- `advance` of src/crm/campaigns/service.py.
pub mod Laws
use main_sequence_crmapi.Common.{
  get, row_where, any, find, ℕ, String, Bool, true, false, not, ◌&&◌, Option, none, some, List, has,
  ◌==◌, if◌then◌else◌,
}
use main_sequence_crmapi.Campaigns.Models.{PromptVariant, PromptComparison, StepFields}
use main_sequence_crmapi.Campaigns.Briefing.{choose_variant}
use main_sequence_crmapi.Campaigns.Store.Rows.{
  is_active, is_live, at_step, ProgressState, StepRow, ParticipantRow, ProgressRow, PromptRow, Db,
  Caller, Written, state_open, state_waiting, state_blocked, state_completed, state_cancelled,
  accepted, conflict, refused,
}
use main_sequence_crmapi.Campaigns.Store.Progression.{is_eligible, campaign_live, advance, Advance}
use main_sequence_crmapi.Campaigns.Service.{
  Refusal, forbidden, lost, unknown_row, key_taken, invalid,
}

-- the work was created, or was found, or the operation raises
pub data Advanced : Type 0 where
  created existing : Db → Advanced
  stopped : Refusal → Db → Advanced
  -- a list with no variants raises IndexError, which the bounds on a step exclude
  crashed : Db → Advanced

-- _progress
abbrev pub progress_of : Db → ℕ → ℕ → Option ProgressRow
progress_of db participant step = find (at_step participant step) db.progress

-- the state in {"completed", "cancelled"}
abbrev pub is_over : ProgressState → Bool
is_over state_open = false
is_over state_waiting = false
is_over state_blocked = false
is_over state_completed = true
is_over state_cancelled = true

-- a second look after a conflict
abbrev pub after_write : ℕ → ℕ → Written → Advanced
after_write participant step (accepted db) = created db
after_write participant step (conflict db) =
    if any (at_step participant step) db.progress then existing db else stopped lost db
after_write participant step (refused db) = stopped key_taken db

-- The reads are of the database `seen` and the test of the time is by the clock of the service; the write is
-- on the database `db`, and by its own clock.
module _ (can : String → Bool) (comparison_text : PromptComparison → List PromptVariant → String)
    (point : ℕ) (clock : ℕ) (who : Caller) (task : ℕ) (uid expected : ℕ) (seen db : Db) where
  abbrev pub comparison_of : StepFields → Option String
  comparison_of fs = elim fs.prompt_comparison [
    | none ↦ none
    | some c ↦ some (comparison_text c fs.prompt_variants)
  ]

  -- the assignment and the write, for a step and the chosen variant
  abbrev pub command_for : ℕ → StepRow → PromptVariant → PromptRow → Advance
  command_for step s v prompt = record {
    participant_uid = uid;
    expected_version = expected;
    step_uid = step;
    step_version = s.version;
    prompt_assignment = record {
      variant_key = v.key;
      prompt_uid = v.prompt_uid;
      assigned_prompt_version = prompt.version;
      comparison = comparison_of s.fields;
      comparison_changed = false;
    };
  }

  unfoldable pub assign : ℕ → StepRow → PromptVariant → Advanced
  assign step s v = elim (row_where (λ p. is_live p.archived_at) seen.prompts v.prompt_uid) [
    | none ↦ stopped (invalid "prompt_uid" "prompt_unavailable") db
    | some prompt ↦
        if has seen.step_prompts v.prompt_uid
        then after_write uid step (advance who task (command_for step s v prompt) db)
        else stopped (invalid "prompt_uid" "prompt_unavailable") db
  ]

  -- from the reading of the campaign on
  unfoldable pub start_step : ParticipantRow → ℕ → Advanced
  start_step p step = elim (campaign_live seen p.campaign_uid) [
    | none ↦ stopped (invalid "campaign_uid" "lifecycle") db
    | some c ↦
        elim (row_where (λ s. s.campaign_uid == p.campaign_uid && is_live s.archived_at) seen.steps
          step) [
            | none ↦ stopped (invalid "next_step_uid" "step_retired") db
            | some s ↦ elim (choose_variant s.fields.prompt_variants point) [
              | none ↦ crashed db
              | some v ↦ assign step s v
            ]
          ]
  ]

  -- from the reading of the progress on
  unfoldable pub advance_to : ParticipantRow → ℕ → Advanced
  advance_to p step = elim (progress_of seen uid step) [
    | some g ↦
        if is_over g.state
        then stopped (invalid "next_step_uid" "step_already_visited") db
        else existing db
    | none ↦
        if is_eligible p.eligible_at clock
        then start_step p step
        else stopped (invalid "participant_uid" "not_yet_eligible") db
  ]

  unfoldable pub advance_participant : Advanced
  advance_participant =
      if not (can "crm.create" && can "crm.edit")
      then stopped forbidden db
      else elim (get seen.participants uid) [
        | none ↦ stopped unknown_row db
        | some p ↦
            if not (p.version == expected)
            then stopped lost db
            else if not (is_active p.status)
            then stopped (invalid "participant_uid" "lifecycle") db
            else elim p.next_step_uid [
              | none ↦ stopped (invalid "participant_uid" "nothing_scheduled") db
              | some step ↦ advance_to p step
            ]
      ]
