-- ===== src/Campaigns/Store/Lifecycle.antt =====
-- create_campaign, update_campaign and archive_campaign of src/crm/repositories/campaigns.py, with
-- the tests of src/crm/campaigns/service.py on a change of status.
use main_sequence_crmapi.Common.{
  put, row_where, update_rows, any, ℕ, suc, String, Bool, true, false, not, ◌&&◌, Option, none,
  some, ◌∷◌, has, ◌==◌, if◌then◌else◌,
}
use main_sequence_crmapi.Campaigns.Store.Rows.{
  event, is_active, is_running, is_live, CampaignStatus, CampaignRow, ParticipantRow, Db, Caller,
  Written, campaign_draft, campaign_active, campaign_paused, campaign_completed, accepted, conflict,
  refused,
}
use main_sequence_crmapi.Campaigns.Store.Participants.{set_to}

pub record NewCampaign : Type 0 where
  pub name : String
  pub objective : String
  pub owner_uid : ℕ
  pub context : String

unfoldable pub create_campaign : Caller → ℕ → NewCampaign → Db → Written
create_campaign who uid new db =
    if has db.campaigns uid
    then refused db
    else accepted (record db {
      campaigns = put db.campaigns uid (record {
        version = 1;
        archived_at = none;
        name = new.name;
        objective = new.objective;
        owner_uid = new.owner_uid;
        context = new.context;
        status = campaign_draft;
        entry_step_uid = none;
      });
      activity = event who "campaign" uid "created" ∷ db.activity;
    })

pub record CampaignChanges : Type 0 where
  pub name : Option String
  pub objective : Option String
  pub owner_uid : Option ℕ
  pub context : Option String
  pub status : Option CampaignStatus

-- `activation`
abbrev pub activates : Option CampaignStatus → Bool
activates none = false
activates (some s) = is_running s

abbrev pub campaign_changed : CampaignChanges → CampaignRow → CampaignRow
campaign_changed changes c = record c {
  version = suc c.version;
  name = set_to changes.name c.name;
  objective = set_to changes.objective c.objective;
  owner_uid = set_to changes.owner_uid c.owner_uid;
  context = set_to changes.context c.context;
  status = set_to changes.status c.status;
}

-- `scheduled`: the participants that wait for the entry step
abbrev pub to_schedule : Db → ℕ → ℕ → ParticipantRow → Bool
to_schedule db campaign uid p =
    p.campaign_uid == campaign
    && is_active p.status
    && is_live p.next_step_uid
    && not (any (λ g. g.participant_uid == uid) db.progress)

abbrev pub scheduled : Caller → Option ℕ → ParticipantRow → ParticipantRow
scheduled who entry p = record p {
  version = suc p.version;
  next_step_uid = entry;
  eligible_at = some who.now;
}

unfoldable pub update_campaign : Caller → ℕ → ℕ → CampaignChanges → Db → Written
update_campaign who uid expected changes db =
    elim (row_where (λ c. c.version == expected && is_live c.archived_at) db.campaigns uid) [
      | none ↦ conflict db
      | some c ↦ accepted (record db {
        campaigns = put db.campaigns uid (campaign_changed changes c);
        participants =
            if activates changes.status
            then update_rows (to_schedule db uid) (scheduled who c.entry_step_uid) db.participants
            else db.participants;
        activity = event who "campaign" uid "updated" ∷ db.activity;
      })
    ]

unfoldable pub archive_campaign : Caller → ℕ → ℕ → Bool → Db → Written
archive_campaign who uid expected archived db =
    elim (row_where (λ c. c.version == expected) db.campaigns uid) [
      | none ↦ conflict db
      | some c ↦ accepted (record db {
        campaigns = put db.campaigns uid (record c {
          version = suc c.version;
          archived_at = if archived then some who.now else none;
        });
        activity =
            event who "campaign" uid (if archived then "archived" else "restored") ∷ db.activity;
      })
    ]

-- ALLOWED_STATUS
abbrev pub status_allowed : CampaignStatus → CampaignStatus → Bool
status_allowed campaign_draft target = is_running target
status_allowed campaign_active campaign_paused = true
status_allowed campaign_active campaign_completed = true
status_allowed campaign_active campaign_draft = false
status_allowed campaign_active campaign_active = false
status_allowed campaign_paused campaign_active = true
status_allowed campaign_paused campaign_completed = true
status_allowed campaign_paused campaign_draft = false
status_allowed campaign_paused campaign_paused = false
status_allowed campaign_completed target = false
