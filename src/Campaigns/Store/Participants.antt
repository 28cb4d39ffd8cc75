-- ===== src/Campaigns/Store/Participants.antt =====
-- create_participant and update_participant of src/crm/repositories/campaigns.py.
use main_sequence_crmapi.Common.{
  get, put, row_where, update_rows, any, update_where, mem, ℕ, suc, String, Bool, true, false, not,
  ◌&&◌, ◌||◌, Option, none, some, List, [], ◌∷◌, is_some, has, ◌==◌, if◌then◌else◌,
}
use main_sequence_crmapi.Campaigns.Store.Rows.{
  event, coalesce, is_open, is_enrolled, is_live, at_step, ParticipantStatus, CampaignRow,
  ParticipantRow, ProgressRow, TaskRow, Db, Caller, Written, active, paused, withdrawn,
  state_cancelled, accepted, conflict, refused,
}

pub record NewParticipant : Type 0 where
  pub campaign_uid : ℕ
  pub contact_uid : ℕ
  pub context : String

-- EXISTS of a contact that is not archived
abbrev pub contact_live : Db → ℕ → Bool
contact_live db contact = elim (get db.contacts contact) [ none ↦ false | some at ↦ is_live at ]

-- a participant of the campaign with the contact
unfoldable pub is_enrolment : ℕ → ℕ → List (ℕ × ParticipantRow) → Bool
is_enrolment campaign contact [] = false
is_enrolment campaign contact ((k, p) ∷ rows) =
    (p.campaign_uid == campaign && p.contact_uid == contact) || is_enrolment campaign contact rows

-- `locked` and `gate`: the campaign, when the contact can be enrolled
unfoldable pub enrol_gate : NewParticipant → Db → Option CampaignRow
enrol_gate new db = elim (row_where (λ c. is_live c.archived_at) db.campaigns new.campaign_uid) [
  | none ↦ none
  | some c ↦
      if contact_live db new.contact_uid
        && not (is_enrolment new.campaign_uid new.contact_uid db.participants)
      then some c
      else none
]

unfoldable pub enrolled : Caller → NewParticipant → CampaignRow → ParticipantRow
enrolled who new c = record {
  version = 1;
  campaign_uid = new.campaign_uid;
  contact_uid = new.contact_uid;
  status = active;
  context = new.context;
  next_step_uid = c.entry_step_uid;
  eligible_at = if is_some c.entry_step_uid then some who.now else none;
  finished_at = none;
}

-- the uid is a new uuid4
unfoldable pub create_participant : Caller → ℕ → NewParticipant → Db → Written
create_participant who uid new db = elim (enrol_gate new db) [
  | none ↦ conflict db
  | some c ↦
      if has db.participants uid
      then refused db
      else accepted (record db {
        participants = put db.participants uid (enrolled who new c);
        activity = event who "campaign_participant" uid "created" ∷ db.activity;
      })
]

-- the values of `status` that ParticipantChanges of models.py takes
pub data PatchStatus : Type 0 where
  to_active to_paused to_withdrawn : PatchStatus

abbrev pub patched : PatchStatus → ParticipantStatus
patched to_active = active
patched to_paused = paused
patched to_withdrawn = withdrawn

-- the fields that the patch sets
pub record ParticipantChanges : Type 0 where
  pub context : Option String
  pub status : Option PatchStatus
  pub next_step_uid : Option ℕ

abbrev pub withdrawing : Option PatchStatus → Bool
withdrawing none = false
withdrawing (some to_active) = false
withdrawing (some to_paused) = false
withdrawing (some to_withdrawn) = true

abbrev pub set_to {ℓ} : {A : Type ℓ} → Option A → A → A
set_to none old = old
set_to (some new) old = new

-- gate_extra: the step that a reroute names is a live one of the campaign, and not yet visited
abbrev pub may_visit : Db → ℕ → ℕ → ℕ → Bool
may_visit db uid campaign step = elim (get db.steps step) [
  | none ↦ false
  | some s ↦
      s.campaign_uid == campaign
      && is_live s.archived_at
      && not (any (at_step uid step) db.progress)
]

unfoldable pub reroute_gate : Db → ℕ → ParticipantChanges → ParticipantRow → Bool
reroute_gate db uid changes p =
    if withdrawing changes.status then true else elim changes.next_step_uid [
      | none ↦ true
      | some step ↦ may_visit db uid p.campaign_uid step
    ]

-- `locked`
unfoldable pub update_locked : Db → ℕ → ℕ → ParticipantChanges → Option ParticipantRow
update_locked db uid expected changes =
    row_where (λ p. p.version == expected && is_enrolled p.status && reroute_gate db uid changes p)
      db.participants uid

-- work_cancelled
abbrev pub is_open_work : ℕ → ProgressRow → Bool
is_open_work uid g = g.participant_uid == uid && is_open g.state

abbrev pub cancel_work : ProgressRow → ProgressRow
cancel_work g = record g { state = state_cancelled }

-- tasks_archived
abbrev pub archive_task : Caller → TaskRow → TaskRow
archive_task who t = record t {
  archived_at = coalesce t.archived_at who.now;
  version = suc t.version;
}

-- the uids of the tasks of the cancelled rows
unfoldable pub tasks_of : (ProgressRow → Bool) → List ProgressRow → List ℕ
tasks_of p [] = []
tasks_of p (g ∷ rows) = let rest = tasks_of p rows in if p g then g.task_uid ∷ rest else rest

-- the assignments of the UPDATE of the participant
unfoldable pub participant_changed : Caller → ParticipantChanges → ParticipantRow → ParticipantRow
participant_changed who changes p =
    if withdrawing changes.status
    then record p {
      version = suc p.version;
      context = set_to changes.context p.context;
      status = withdrawn;
      next_step_uid = none;
      eligible_at = none;
      finished_at = some who.now;
    }
    else record p {
      version = suc p.version;
      context = set_to changes.context p.context;
      status = elim changes.status [ none ↦ p.status | some to ↦ patched to ];
      next_step_uid = elim changes.next_step_uid [ none ↦ p.next_step_uid | some step ↦ some step ];
      eligible_at = elim changes.next_step_uid [ none ↦ p.eligible_at | some step ↦ some who.now ];
    }

unfoldable pub update_participant : Caller → ℕ → ℕ → ParticipantChanges → Db → Written
unfolding tasks_of
update_participant who uid expected changes db = elim (update_locked db uid expected changes) [
  | none ↦ conflict db
  | some p ↦
      let work = if withdrawing changes.status then is_open_work uid else (λ g. false) in
      accepted (record db {
        progress = update_where work cancel_work db.progress;
        tasks = update_rows (λ k t. mem k (tasks_of work db.progress)) (archive_task who) db.tasks;
        participants = put db.participants uid (participant_changed who changes p);
        activity = event who "campaign_participant" uid "updated" ∷ db.activity;
      })
]
