-- ===== src/Campaigns/Store/Commands.antt =====
-- The writes of src/crm/repositories/campaigns.py and tasks.py as commands, and runs of them.
use main_sequence_crmapi.Common.{ℕ, Bool, List, [], ◌∷◌}
use main_sequence_crmapi.Campaigns.Store.Rows.{after, Db, Caller, Written}
use main_sequence_crmapi.Campaigns.Store.Lifecycle.{
  create_campaign, update_campaign, archive_campaign, NewCampaign, CampaignChanges,
}
use main_sequence_crmapi.Campaigns.Store.Participants.{
  create_participant, update_participant, NewParticipant, ParticipantChanges,
}
use main_sequence_crmapi.Campaigns.Store.Progression.{advance, complete, Advance, Complete}
use main_sequence_crmapi.Campaigns.Store.Records.{record_progress, Record}
use main_sequence_crmapi.Campaigns.Store.Reconcile.{
  reconcile_reopen, reconcile_cancel, task_completion, Reopen, Cancel,
}
use main_sequence_crmapi.Campaigns.Store.Prompts.{
  create_step_prompt, specialize_prompt, update_step_prompt, NewPrompt, Specialized, PromptChanges,
}
use main_sequence_crmapi.Campaigns.Store.Saving.{save_graph, SaveGraph}

-- with the uuid4 that the write makes, or the uid and the version that it expects
pub data Command : Type 0 where
  campaign_create : ℕ → NewCampaign → Command
  campaign_update : ℕ → ℕ → CampaignChanges → Command
  campaign_archive : ℕ → ℕ → Bool → Command
  participant_create : ℕ → NewParticipant → Command
  participant_update : ℕ → ℕ → ParticipantChanges → Command
  work_advance : ℕ → Advance → Command
  work_complete : Complete → Command
  work_record : Record → Command
  work_reopen : Reopen → Command
  work_cancel : Cancel → Command
  task_settle : ℕ → ℕ → Bool → Command
  graph_save : SaveGraph → Command
  prompt_create : ℕ → NewPrompt → Command
  prompt_specialize : ℕ → ℕ → Specialized → Command
  prompt_update : ℕ → ℕ → PromptChanges → Command

unfoldable pub perform : Caller → Command → Db → Written
perform who (campaign_create uid new) db = create_campaign who uid new db
perform who (campaign_update uid expected changes) db = update_campaign who uid expected changes db
perform who (campaign_archive uid expected archived) db =
    archive_campaign who uid expected archived db
perform who (participant_create uid new) db = create_participant who uid new db
perform who (participant_update uid expected changes) db =
    update_participant who uid expected changes db
perform who (work_advance task cmd) db = advance who task cmd db
perform who (work_complete cmd) db = complete who cmd db
perform who (work_record cmd) db = record_progress who cmd db
perform who (work_reopen cmd) db = reconcile_reopen who cmd db
perform who (work_cancel cmd) db = reconcile_cancel who cmd db
perform who (task_settle uid expected settles) db = task_completion who uid expected settles db
perform who (graph_save cmd) db = save_graph who cmd db
perform who (prompt_create uid new) db = create_step_prompt who uid new db
perform who (prompt_specialize uid expected new) db = specialize_prompt who uid expected new db
perform who (prompt_update uid expected changes) db = update_step_prompt who uid expected changes db

-- the database after a sequence of writes, each with its caller and its time
unfoldable pub run : List (Caller × Command) → Db → Db
run [] db = db
run ((who, cmd) ∷ rest) db = run rest (after (perform who cmd db))
