-- ===== src/Campaigns/Store/Laws/Refused.antt =====
-- The writes of src/crm/repositories/campaigns.py and tasks.py, when refused.
use main_sequence_crmapi.Common.{◌≡◌, false, arith}
use main_sequence_crmapi.Campaigns.Store.Rows.{after, is_accepted, Db, Caller}
use main_sequence_crmapi.Campaigns.Store.Commands.{
  perform, Command, campaign_create, campaign_update, campaign_archive, participant_create,
  participant_update, work_advance, work_complete, work_record, work_reopen, work_cancel,
  task_settle, graph_save, prompt_create, prompt_specialize, prompt_update,
}
use main_sequence_crmapi.Campaigns.Store.Records.{recorded_kind}

-- A write that is not accepted changes no campaign, no participant, no step, no connection and no
-- prompt, and logs nothing.
pub refused_write_keeps :
    (who : Caller) (cmd : Command) (db : Db)
    → is_accepted (perform who cmd db) ≡ false
    → ((after (perform who cmd db)).participants ≡ db.participants)
      × ((after (perform who cmd db)).campaigns ≡ db.campaigns)
      × ((after (perform who cmd db)).activity ≡ db.activity)
      × ((after (perform who cmd db)).steps ≡ db.steps)
      × ((after (perform who cmd db)).transitions ≡ db.transitions)
      × ((after (perform who cmd db)).prompts ≡ db.prompts)
unfolding main_sequence_crmapi.Campaigns.Store.Commands.perform
    main_sequence_crmapi.Campaigns.Store.Lifecycle.create_campaign
    main_sequence_crmapi.Campaigns.Store.Lifecycle.update_campaign
    main_sequence_crmapi.Campaigns.Store.Lifecycle.archive_campaign
    main_sequence_crmapi.Campaigns.Store.Participants.create_participant
    main_sequence_crmapi.Campaigns.Store.Participants.update_participant
    main_sequence_crmapi.Campaigns.Store.Progression.advance
    main_sequence_crmapi.Campaigns.Store.Progression.complete
    main_sequence_crmapi.Campaigns.Store.Records.record_progress
    main_sequence_crmapi.Campaigns.Store.Reconcile.reconcile_reopen
    main_sequence_crmapi.Campaigns.Store.Reconcile.reconcile_cancel
    main_sequence_crmapi.Campaigns.Store.Reconcile.task_completion
    main_sequence_crmapi.Campaigns.Store.Saving.save_graph
    main_sequence_crmapi.Campaigns.Store.Prompts.create_step_prompt
    main_sequence_crmapi.Campaigns.Store.Prompts.specialize_prompt
    main_sequence_crmapi.Campaigns.Store.Prompts.update_step_prompt
refused_write_keeps who (campaign_create uid new) db h = ground (arith, h)
refused_write_keeps who (campaign_update uid expected changes) db h = ground (arith, h)
refused_write_keeps who (campaign_archive uid expected archived) db h = ground (arith, h)
refused_write_keeps who (participant_create uid new) db h = ground (arith, h)
refused_write_keeps who (participant_update uid expected changes) db h = ground (arith, h)
refused_write_keeps who (work_advance task cmd) db h = ground (arith, h)
refused_write_keeps who (work_complete cmd) db h = ground (arith, h)
refused_write_keeps who (work_record cmd) db h = ground (arith, h)
refused_write_keeps who (work_reopen cmd) db h = ground (arith, h)
refused_write_keeps who (work_cancel cmd) db h = ground (arith, h)
refused_write_keeps who (task_settle uid expected settles) db h = ground (arith, h)
refused_write_keeps who (graph_save cmd) db h = ground (arith, h)
refused_write_keeps who (prompt_create uid new) db h = ground (arith, h)
refused_write_keeps who (prompt_specialize uid expected new) db h = ground (arith, h)
refused_write_keeps who (prompt_update uid expected changes) db h = ground (arith, h)
