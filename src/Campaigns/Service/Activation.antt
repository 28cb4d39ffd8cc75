-- ===== src/Campaigns/Service/Activation.antt =====
-- `update_campaign` of src/crm/campaigns/service.py: the change of the status.
use main_sequence_crmapi.Common.{
  get, ℕ, String, ◌≡◌, inl, inr, Bool, true, false, Option, none, some, arith, Option-cases,
}
use main_sequence_crmapi.Campaigns.Graph.StepChecks.{Prompts}
use main_sequence_crmapi.Campaigns.Graph.Validate.{validate_graph}
use main_sequence_crmapi.Campaigns.Graph.Validate.Spec.{IsRunnable}
use main_sequence_crmapi.Campaigns.Graph.Validate.Runnable.{runnable_sound}
use main_sequence_crmapi.Campaigns.Store.Rows.{
  is_accepted, CampaignStatus, CampaignRow, Db, Caller, campaign_active, campaign_completed,
}
use main_sequence_crmapi.Campaigns.Store.Lifecycle.{
  update_campaign, status_allowed, CampaignChanges,
}
use main_sequence_crmapi.Campaigns.Service.{
  is_answered, graph_of, runnable_now, status_refusal, edit_campaign,
}

module _ (can : String → Bool) (selectable : ℕ → Bool) (parse_uuid : String → Option ℕ)
    (prompts : Prompts) where
  edit_reads :
      (who : Caller) (uid expected : ℕ) (changes : CampaignChanges) (db : Db)
      → is_answered (edit_campaign can selectable parse_uuid prompts who uid expected changes db)
        ≡ true
      → (c : CampaignRow) × (get db.campaigns uid ≡ some c)
        × (status_refusal can selectable parse_uuid prompts db uid c changes.status ≡ none)
        × (is_accepted (update_campaign who uid expected changes db) ≡ true)
  unfolding main_sequence_crmapi.Campaigns.Service.edit_campaign
      main_sequence_crmapi.Campaigns.Service.change_campaign
  edit_reads who uid expected changes db h = elim (Option-cases (get db.campaigns uid)) [
    | inl e ↦ ground (arith, e, h)
    | inr (c, e) ↦
        elim (Option-cases
          (status_refusal can selectable parse_uuid prompts db uid c changes.status)) [
            | inl f ↦ (c, e, f, ground (arith, e, f, h))
            | inr (why, f) ↦ ground (arith, e, f, h)
          ]
  ]

  IsRunnable-graph :
      (db : Db) (uid : ℕ) (c : CampaignRow)
      → runnable_now can selectable parse_uuid prompts db uid c ≡ true
      → IsRunnable (graph_of db uid c) prompts
  IsRunnable-graph db uid c h =
      elim (Option-cases (validate_graph parse_uuid (graph_of db uid c) prompts)) [
        | inl e ↦ ground (arith, e, h)
        | inr (v, e) ↦
            runnable_sound parse_uuid (graph_of db uid c) prompts v e (ground (arith, e, h))
      ]

  -- When update_campaign answers a change to the active status, the campaign was a draft or paused, and
  -- its stored graph is runnable: its entry is an active step, its connections join active steps or
  -- finish, every outcome has one connection, the prompts of its steps are there and not archived,
  -- every step is reached, and there is no cycle.
  pub activation-IsRunnable :
      (who : Caller) (uid expected : ℕ) (changes : CampaignChanges) (db : Db)
      → changes.status ≡ some campaign_active
      → is_answered (edit_campaign can selectable parse_uuid prompts who uid expected changes db)
        ≡ true
      → (c : CampaignRow) × (get db.campaigns uid ≡ some c)
        × (status_allowed c.status campaign_active ≡ true)
        × IsRunnable (graph_of db uid c) prompts
  unfolding main_sequence_crmapi.Campaigns.Service.status_refusal
  activation-IsRunnable who uid expected changes db s h =
      let (c, found, free, done) = edit_reads who uid expected changes db h in
      (c, found, ground (arith, s, free), IsRunnable-graph db uid c (ground (arith, s, free)))

  -- update_campaign answers no change of the status of a completed campaign.
  pub completed_campaign_final :
      (who : Caller) (uid expected : ℕ) (changes : CampaignChanges) (db : Db) (c : CampaignRow)
      (target : CampaignStatus)
      → get db.campaigns uid ≡ some c
      → c.status ≡ campaign_completed
      → changes.status ≡ some target
      → is_answered (edit_campaign can selectable parse_uuid prompts who uid expected changes db)
        ≡ false
  unfolding main_sequence_crmapi.Campaigns.Service.edit_campaign
      main_sequence_crmapi.Campaigns.Service.change_campaign
      main_sequence_crmapi.Campaigns.Service.status_refusal
  completed_campaign_final who uid expected changes db c target found ended s =
      ground (arith, found, ended, s)
