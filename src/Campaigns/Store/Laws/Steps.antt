-- ===== src/Campaigns/Store/Laws/Steps.antt =====
-- The new rows that the campaign writes give to a participant.
use main_sequence_crmapi.Common.{
  ℕ, suc, ◌≡◌, refl, Bool, true, ◌&&◌, Option, arith, is_some, if◌then◌else◌,
}
use main_sequence_crmapi.Campaigns.Store.Rows.{
  is_enrolled, is_active, is_live, CampaignRow, ParticipantRow, Db, Caller,
}
use main_sequence_crmapi.Campaigns.Store.Lifecycle.{to_schedule, scheduled}
use main_sequence_crmapi.Campaigns.Store.Participants.{
  enrolled, participant_changed, NewParticipant, ParticipantChanges,
}
use main_sequence_crmapi.Campaigns.Store.Progression.{bump, routed}
use main_sequence_crmapi.Campaigns.Store.Reconcile.{cancelled_participant, Cancel}

-- An enrolled participant has no time of finishing; one that has finished has such a time, and no
-- next step.
abbrev pub settled : ParticipantRow → Bool
settled p =
    if is_enrolled p.status
    then is_live p.finished_at
    else is_some p.finished_at && is_live p.next_step_uid && is_live p.eligible_at

-- a new row for an enrolled participant
abbrev pub Step : ParticipantRow → ParticipantRow → Type 0
Step p q =
    (is_enrolled p.status ≡ true)
    × (q.version ≡ suc p.version)
    × (settled p ≡ true → settled q ≡ true)

pub enrolled_settled :
    (who : Caller) (new : NewParticipant) (c : CampaignRow) → settled (enrolled who new c) ≡ true
unfolding main_sequence_crmapi.Campaigns.Store.Participants.enrolled
enrolled_settled who new c = refl

pub changed-Step :
    (who : Caller) (changes : ParticipantChanges) (p : ParticipantRow)
    → is_enrolled p.status ≡ true
    → Step p (participant_changed who changes p)
unfolding main_sequence_crmapi.Campaigns.Store.Participants.participant_changed
changed-Step who changes p member = ground arith

pub bump-Step : (p : ParticipantRow) → is_enrolled p.status ≡ true → Step p (bump p)
bump-Step p member = (member, refl, λ good. good)

pub routed-Step :
    (who : Caller) (to : Option ℕ) (delay : ℕ) (p : ParticipantRow)
    → is_active p.status ≡ true
    → Step p (routed who to delay p)
unfolding main_sequence_crmapi.Campaigns.Store.Progression.routed
routed-Step who to delay p running = ground arith

pub cancelled-Step :
    (who : Caller) (cmd : Cancel) (p : ParticipantRow)
    → is_enrolled p.status ≡ true
    → Step p (cancelled_participant who cmd p)
unfolding main_sequence_crmapi.Campaigns.Store.Reconcile.cancelled_participant
cancelled-Step who cmd p member = ground arith

pub scheduled-Step :
    (who : Caller) (entry : Option ℕ) (db : Db) (campaign u : ℕ) (p : ParticipantRow)
    → to_schedule db campaign u p ≡ true
    → Step p (scheduled who entry p)
scheduled-Step who entry db campaign u p chosen = ground arith
