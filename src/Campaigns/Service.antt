-- ===== src/Campaigns/Service.antt =====
-- src/crm/campaigns/service.py: the guards of the operations around the writes. The capabilities of
-- the caller, the directory of users and the resolved prompts come from outside, as arguments.
pub mod Advancing
pub mod Recording
pub mod Graphs
pub mod Completing
pub mod Reconciling
pub mod StepPrompts
pub mod Activation
mod Tests
mod WorkTests
use main_sequence_crmapi.Common.{
  get, ℕ, String, Bool, true, false, not, ◌&&◌, Option, none, some, List, [], ◌∷◌, leb, ◌==◌,
  if◌then◌else◌,
}
use main_sequence_crmapi.Campaigns.Models.{GraphStep, GraphTransition, CampaignGraph}
use main_sequence_crmapi.Campaigns.Briefing.{ResultCode}
use main_sequence_crmapi.Campaigns.Graph.Diagnostics.{GraphValidation}
use main_sequence_crmapi.Campaigns.Graph.StepChecks.{Prompts}
use main_sequence_crmapi.Campaigns.Graph.Validate.{validate_graph}
use main_sequence_crmapi.Campaigns.Store.Rows.{
  is_enrolled, is_running, is_ended, is_live, CampaignStatus, CampaignRow, StepRow, TransitionRow,
  Db, Caller, Written, accepted, conflict, refused,
}
use main_sequence_crmapi.Campaigns.Store.Lifecycle.{
  create_campaign, update_campaign, archive_campaign, status_allowed, NewCampaign, CampaignChanges,
}
use main_sequence_crmapi.Campaigns.Store.Participants.{
  create_participant, withdrawing, update_participant, NewParticipant, ParticipantChanges,
}

-- why an operation raises: no capability, an invalid value at a path, a graph that is not runnable, a
-- lost version or precondition, no such row, a key that the database refuses, or a bad result
pub data Refusal : Type 0 where
  forbidden not_runnable lost unknown_row key_taken : Refusal
  invalid : String → String → Refusal
  -- the problems of a result
  bad_result : List (ResultCode × String) → Refusal

-- what an operation does: it raises, or it answers; the database after it is in both
pub data Answer : Type 0 where
  raised : Refusal → Db → Answer
  answered : Db → Answer

abbrev pub is_answered : Answer → Bool
is_answered (raised why db) = false
is_answered (answered db) = true

-- a write's rows, or its exception
abbrev pub from_store : Written → Answer
from_store (accepted db) = answered db
from_store (conflict db) = raised lost db
from_store (refused db) = raised key_taken db

-- _owner
abbrev pub owner_ok : (ℕ → Bool) → Option ℕ → Bool
owner_ok selectable none = true
owner_ok selectable (some owner) = selectable owner

-- the active steps of the campaign
unfoldable pub steps_of : ℕ → List (ℕ × StepRow) → List GraphStep
steps_of campaign [] = []
steps_of campaign ((uid, s) ∷ rows) =
    let rest = steps_of campaign rows in
    if s.campaign_uid == campaign && is_live s.archived_at
    then record { uid = uid; archived = false; fields = s.fields } ∷ rest
    else rest

unfoldable pub transitions_of : ℕ → List TransitionRow → List GraphTransition
transitions_of campaign [] = []
transitions_of campaign (t ∷ rows) =
    let rest = transitions_of campaign rows in
    if t.campaign_uid == campaign
    then record {
      uid = t.uid;
      from_step_uid = t.from_step_uid;
      outcome_key = t.outcome_key;
      to_step_uid = t.to_step_uid;
      delay_seconds = t.delay_seconds;
    }
      ∷ rest
    else rest

-- _graph_of
unfoldable pub graph_of : Db → ℕ → CampaignRow → CampaignGraph
unfolding steps_of transitions_of
graph_of db uid c = record {
  entry_step_uid = c.entry_step_uid;
  steps = steps_of uid db.steps;
  transitions = transitions_of uid db.transitions;
}

abbrev pub is_runnable : Option GraphValidation → Bool
is_runnable none = false
is_runnable (some v) = v.runnable

module _ (can : String → Bool) (selectable : ℕ → Bool) (parse_uuid : String → Option ℕ)
    (prompts : Prompts) where
  -- _validation of the campaign's graph
  abbrev pub runnable_now : Db → ℕ → CampaignRow → Bool
  runnable_now db uid c = is_runnable (validate_graph parse_uuid (graph_of db uid c) prompts)

  -- the tests of update_campaign on a change of status
  unfoldable pub status_refusal : Db → ℕ → CampaignRow → Option CampaignStatus → Option Refusal
  status_refusal db uid c none = none
  status_refusal db uid c (some target) =
      if not (status_allowed c.status target)
      then some (invalid "changes.status" "lifecycle")
      else if is_running target && not (runnable_now db uid c)
      then some not_runnable
      else none

  -- update_campaign from the reading of the campaign on
  unfoldable pub change_campaign :
      Caller → ℕ → ℕ → CampaignChanges → Db → Option CampaignRow → Answer
  change_campaign who uid expected changes db none = raised unknown_row db
  change_campaign who uid expected changes db (some c) =
      if not (c.version == expected)
      then raised lost db
      else elim (status_refusal db uid c changes.status) [
        | none ↦ from_store (update_campaign who uid expected changes db)
        | some why ↦ raised why db
      ]

  unfoldable pub edit_campaign : Caller → ℕ → ℕ → CampaignChanges → Db → Answer
  edit_campaign who uid expected changes db =
      if not (can "crm.edit")
      then raised forbidden db
      else if not (owner_ok selectable changes.owner_uid)
      then raised (invalid "owner_uid" "invalid") db
      else change_campaign who uid expected changes db (get db.campaigns uid)

  unfoldable pub add_campaign : Caller → ℕ → NewCampaign → Db → Answer
  add_campaign who uid new db =
      if not (can "crm.create")
      then raised forbidden db
      else if not (selectable new.owner_uid)
      then raised (invalid "owner_uid" "invalid") db
      else from_store (create_campaign who uid new db)

  -- archive_campaign
  unfoldable pub shelve_campaign : Caller → ℕ → ℕ → Bool → Db → Answer
  shelve_campaign who uid expected archived db =
      if not (can "crm.archive")
      then raised forbidden db
      else if not (leb 1 expected)
      then raised (invalid "expected_version" "invalid") db
      else from_store (archive_campaign who uid expected archived db)

  -- create_participant
  unfoldable pub enrol : Caller → ℕ → NewParticipant → Db → Answer
  enrol who uid new db =
      if not (can "crm.create")
      then raised forbidden db
      else elim (get db.campaigns new.campaign_uid) [
        | none ↦ raised unknown_row db
        | some c ↦
            if is_live c.archived_at && not (is_ended c.status)
            then from_store (create_participant who uid new db)
            else raised (invalid "campaign_uid" "lifecycle") db
      ]

  -- update_participant
  unfoldable pub edit_participant : Caller → ℕ → ℕ → ParticipantChanges → Db → Answer
  edit_participant who uid expected changes db =
      if not (can "crm.edit")
      then raised forbidden db
      else if withdrawing changes.status && not (can "crm.archive")
      then raised forbidden db
      else elim (get db.participants uid) [
        | none ↦ raised unknown_row db
        | some p ↦
            if is_enrolled p.status
            then from_store (update_participant who uid expected changes db)
            else raised (invalid "changes.status" "lifecycle") db
      ]
