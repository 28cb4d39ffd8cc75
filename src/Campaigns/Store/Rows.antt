-- ===== src/Campaigns/Store/Rows.antt =====
-- The rows that src/crm/repositories/campaigns.py reads and writes. A table with a primary key is a
-- Dict from the key to the rest of the row; the progress rows, the connections and the activity
-- events, which statements search by other columns, are lists. JSON that is only stored is its text.
-- The audit columns (created_at, updated_at and the two that name the actor) are left out: no
-- statement reads them. A time is a number of seconds.
use main_sequence_crmapi.Common.{
  ℕ, String, Bool, true, false, ◌&&◌, Option, none, some, List, Dict, ◌==◌,
}
use main_sequence_crmapi.Campaigns.Models.{StepFields, ValueField}

pub data CampaignStatus : Type 0 where
  campaign_draft campaign_active campaign_paused campaign_completed : CampaignStatus

pub data ParticipantStatus : Type 0 where
  active paused completed withdrawn : ParticipantStatus

pub data ProgressState : Type 0 where
  state_open state_waiting state_blocked state_completed state_cancelled : ProgressState

pub record CampaignRow : Type 0 where
  pub version : ℕ
  pub archived_at : Option ℕ
  pub name : String
  pub objective : String
  pub owner_uid : ℕ
  pub context : String
  pub status : CampaignStatus
  pub entry_step_uid : Option ℕ

pub record StepRow : Type 0 where
  pub version : ℕ
  pub archived_at : Option ℕ
  pub campaign_uid : ℕ
  pub fields : StepFields
  pub open fields use *

pub record TransitionRow : Type 0 where
  pub uid : ℕ
  pub version : ℕ
  pub campaign_uid : ℕ
  pub from_step_uid : ℕ
  pub outcome_key : String
  pub to_step_uid : Option ℕ
  pub delay_seconds : ℕ

pub record ParticipantRow : Type 0 where
  pub version : ℕ
  pub campaign_uid : ℕ
  pub contact_uid : ℕ
  pub status : ParticipantStatus
  pub context : String
  pub next_step_uid : Option ℕ
  pub eligible_at : Option ℕ
  pub finished_at : Option ℕ

-- the JSON of a prompt assignment: `comparison` is its text when it is an object
pub record Assignment : Type 0 where
  pub variant_key : String
  pub prompt_uid : ℕ
  pub assigned_prompt_version : ℕ
  pub comparison : Option String
  pub comparison_changed : Bool

pub record ProgressRow : Type 0 where
  pub participant_uid : ℕ
  pub step_uid : ℕ
  pub task_uid : ℕ
  pub prompt_assignment : Assignment
  pub state : ProgressState
  pub outcome_key : Option String
  pub result : List (String × String)
  pub evidence : List String
  pub prepared_with : Option String
  pub wake_at : Option ℕ
  pub blocked_reason : Option String
  pub completed_at : Option ℕ

pub record TaskRow : Type 0 where
  pub version : ℕ
  pub archived_at : Option ℕ
  pub contact_uid : ℕ
  pub owner_uid : ℕ
  pub type_key : String
  pub text : String
  pub due_at : Option ℕ
  pub completed_at : Option ℕ
  pub completed_by_uid : Option ℕ

pub record PromptRow : Type 0 where
  pub version : ℕ
  pub archived_at : Option ℕ
  pub name : String
  pub description : Option String
  pub content_markdown : String

pub record StepPromptRow : Type 0 where
  pub inputs : List ValueField
  pub result_fields : List ValueField

pub record Event : Type 0 where
  pub entity_type : String
  pub entity_uid : ℕ
  pub kind : String
  pub actor_uid : ℕ
  pub occurred_at : ℕ

pub record Db : Type 0 where
  pub campaigns : Dict CampaignRow
  pub steps : Dict StepRow
  pub transitions : List TransitionRow
  pub participants : Dict ParticipantRow
  pub progress : List ProgressRow
  pub tasks : Dict TaskRow
  pub prompts : Dict PromptRow
  pub step_prompts : Dict StepPromptRow
  -- the keys and the archived_at of the contacts
  pub contacts : Dict (Option ℕ)
  pub activity : List Event

-- who asks, and NOW()
pub record Caller : Type 0 where
  pub actor_uid : ℕ
  pub now : ℕ

-- `_write`: the activity rows came back, or none did and ResourceConflict is raised. The database
-- after the statement is in both, since a data-modifying CTE runs whatever the last INSERT returns.
-- The database refuses a statement that inserts a row under a key that is taken.
pub data Written : Type 0 where
  accepted conflict refused : Db → Written

abbrev pub after : Written → Db
after (accepted db) = db
after (conflict db) = db
after (refused db) = db

abbrev pub is_accepted : Written → Bool
is_accepted (accepted db) = true
is_accepted (conflict db) = false
is_accepted (refused db) = false

abbrev pub event : Caller → String → ℕ → String → Event
event who type uid what = record {
  entity_type = type;
  entity_uid = uid;
  kind = what;
  actor_uid = who.actor_uid;
  occurred_at = who.now;
}

-- COALESCE(a, b)
abbrev pub coalesce {ℓ} : {A : Type ℓ} → Option A → A → Option A
coalesce none b = some b
coalesce (some a) b = some a

-- state IN ('open','waiting','blocked')
abbrev pub is_open : ProgressState → Bool
is_open state_open = true
is_open state_waiting = true
is_open state_blocked = true
is_open state_completed = false
is_open state_cancelled = false

-- state IN ('open','waiting')
abbrev pub is_workable : ProgressState → Bool
is_workable state_open = true
is_workable state_waiting = true
is_workable state_blocked = false
is_workable state_completed = false
is_workable state_cancelled = false

abbrev pub is_completed : ProgressState → Bool
is_completed state_open = false
is_completed state_waiting = false
is_completed state_blocked = false
is_completed state_completed = true
is_completed state_cancelled = false

-- status IN ('active','paused')
abbrev pub is_enrolled : ParticipantStatus → Bool
is_enrolled active = true
is_enrolled paused = true
is_enrolled completed = false
is_enrolled withdrawn = false

abbrev pub is_active : ParticipantStatus → Bool
is_active active = true
is_active paused = false
is_active completed = false
is_active withdrawn = false

abbrev pub is_running : CampaignStatus → Bool
is_running campaign_draft = false
is_running campaign_active = true
is_running campaign_paused = false
is_running campaign_completed = false

abbrev pub is_ended : CampaignStatus → Bool
is_ended campaign_draft = false
is_ended campaign_active = false
is_ended campaign_paused = false
is_ended campaign_completed = true

abbrev pub is_live {ℓ} : {A : Type ℓ} → Option A → Bool
is_live none = true
is_live (some at) = false

-- g.participant_uid=p AND g.step_uid=s
abbrev pub at_step : ℕ → ℕ → ProgressRow → Bool
at_step p s g = g.participant_uid == p && g.step_uid == s
