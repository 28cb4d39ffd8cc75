-- ===== src/Campaigns/Store/Laws/Changes.antt =====
-- The writes of src/crm/repositories/campaigns.py as changes of the table of participants.
use main_sequence_crmapi.Common.{
  get, put, row_where, update_rows, any, ℕ, ◌≡◌, inl, inr, Bool, true, false, ◌&&◌, some, arith,
  Dict, has, ◌==◌, Bool-cases, Option-cases,
}
use main_sequence_crmapi.Campaigns.Store.Rows.{
  after, is_enrolled, is_active, is_live, ParticipantStatus, ParticipantRow, Db, Caller,
}
use main_sequence_crmapi.Campaigns.Store.Lifecycle.{
  create_campaign, activates, to_schedule, scheduled, update_campaign, archive_campaign,
  NewCampaign, CampaignChanges,
}
use main_sequence_crmapi.Campaigns.Store.Participants.{
  enrol_gate, enrolled, create_participant, update_locked, participant_changed, update_participant,
  NewParticipant, ParticipantChanges,
}
use main_sequence_crmapi.Campaigns.Store.Progression.{
  advance_gate, bump, advance, complete_gate, task_to_settle, routed, complete, Advance, Complete,
}
use main_sequence_crmapi.Campaigns.Store.Records.{enrolled_at, open_at, record_progress, Record}
use main_sequence_crmapi.Campaigns.Store.Reconcile.{
  task_at, to_reopen, reconcile_reopen, cancel_gate, to_cancel, cancelled_participant,
  reconcile_cancel, task_completion, Reopen, Cancel,
}
use main_sequence_crmapi.Campaigns.Store.Commands.{
  perform, Command, campaign_create, campaign_update, campaign_archive, participant_create,
  participant_update, work_advance, work_complete, work_record, work_reopen, work_cancel,
  task_settle, graph_save, prompt_create, prompt_specialize, prompt_update,
}
use main_sequence_crmapi.Campaigns.Store.Laws.Gates.{
  update_locked_sound, enrolled_at_sound, advance_gate_sound, complete_gate_sound,
  cancel_gate_sound,
}
use main_sequence_crmapi.Campaigns.Store.Laws.Steps.{
  settled, Step, enrolled_settled, changed-Step, bump-Step, routed-Step, cancelled-Step,
  scheduled-Step,
}
use main_sequence_crmapi.Campaigns.Store.Prompts.{
  create_step_prompt, specialize_prompt, update_step_prompt, NewPrompt, Specialized, PromptChanges,
}
use main_sequence_crmapi.Campaigns.Store.Saving.{save_graph, SaveGraph}

active_enrolled : (s : ParticipantStatus) → is_active s ≡ true → is_enrolled s ≡ true
active_enrolled s h = ground arith

create_campaign_keeps :
    (who : Caller) (uid : ℕ) (new : NewCampaign) (db : Db)
    → (after (create_campaign who uid new db)).participants ≡ db.participants
unfolding main_sequence_crmapi.Campaigns.Store.Lifecycle.create_campaign
create_campaign_keeps who uid new db = ground arith

other_writes_keep :
    (who : Caller) (uid expected : ℕ) (b : Bool) (db : Db)
    → ((after (archive_campaign who uid expected b db)).participants ≡ db.participants)
      × ((after (task_completion who uid expected b db)).participants ≡ db.participants)
unfolding main_sequence_crmapi.Campaigns.Store.Lifecycle.archive_campaign
    main_sequence_crmapi.Campaigns.Store.Reconcile.task_completion
other_writes_keep who uid expected b db = ground arith

save_graph_keeps :
    (who : Caller) (cmd : SaveGraph) (db : Db)
    → (after (save_graph who cmd db)).participants ≡ db.participants
unfolding main_sequence_crmapi.Campaigns.Store.Saving.save_graph
save_graph_keeps who cmd db = ground arith

create_step_prompt_keeps :
    (who : Caller) (uid : ℕ) (new : NewPrompt) (db : Db)
    → (after (create_step_prompt who uid new db)).participants ≡ db.participants
unfolding main_sequence_crmapi.Campaigns.Store.Prompts.create_step_prompt
create_step_prompt_keeps who uid new db = ground arith

specialize_prompt_keeps :
    (who : Caller) (uid expected : ℕ) (new : Specialized) (db : Db)
    → (after (specialize_prompt who uid expected new db)).participants ≡ db.participants
unfolding main_sequence_crmapi.Campaigns.Store.Prompts.specialize_prompt
specialize_prompt_keeps who uid expected new db = ground arith

update_step_prompt_keeps :
    (who : Caller) (uid expected : ℕ) (changes : PromptChanges) (db : Db)
    → (after (update_step_prompt who uid expected changes db)).participants ≡ db.participants
unfolding main_sequence_crmapi.Campaigns.Store.Prompts.update_step_prompt
update_step_prompt_keeps who uid expected changes db = ground arith

module _ (P : Dict ParticipantRow → Dict ParticipantRow → Type 0)
    (same : (d : Dict ParticipantRow) → P d d)
    (enrol : (d : Dict ParticipantRow) (uid : ℕ) (q : ParticipantRow)
      → has d uid ≡ false
      → settled q ≡ true
      → P d (put d uid q))
    (replace : (d : Dict ParticipantRow) (uid : ℕ) (p q : ParticipantRow)
      → get d uid ≡ some p
      → Step p q
      → P d (put d uid q))
    (reschedule : (d : Dict ParticipantRow) (test : ℕ → ParticipantRow → Bool)
        (f : ParticipantRow → ParticipantRow)
      → ((u : ℕ) (p : ParticipantRow) → test u p ≡ true → Step p (f p))
      → P d (update_rows test f d)) where
  on_create_participant :
      (who : Caller) (uid : ℕ) (new : NewParticipant) (db : Db)
      → P db.participants ((after (create_participant who uid new db)).participants)
  unfolding main_sequence_crmapi.Campaigns.Store.Participants.create_participant
  on_create_participant who uid new db = elim (Option-cases (enrol_gate new db)) [
    | inl e ↦ rw (after, e) (same db.participants)
    | inr (c, e) ↦ elim (Bool-cases (has db.participants uid)) [
      | inl f ↦ rw (after, e, f) (same db.participants)
      | inr f ↦
          rw (after, e, f)
            (enrol db.participants uid (enrolled who new c) f (enrolled_settled who new c))
    ]
  ]

  on_update_participant :
      (who : Caller) (uid expected : ℕ) (changes : ParticipantChanges) (db : Db)
      → P db.participants ((after (update_participant who uid expected changes db)).participants)
  unfolding main_sequence_crmapi.Campaigns.Store.Participants.update_participant
  on_update_participant who uid expected changes db =
      elim (Option-cases (update_locked db uid expected changes)) [
        | inl e ↦ rw (after, e) (same db.participants)
        | inr (p, e) ↦
            let found = update_locked_sound db uid expected changes p e in
            rw (after, e)
              (replace db.participants uid p (participant_changed who changes p) found.0
                (changed-Step who changes p found.2))
      ]

  on_advance :
      (who : Caller) (task : ℕ) (cmd : Advance) (db : Db)
      → P db.participants ((after (advance who task cmd db)).participants)
  unfolding main_sequence_crmapi.Campaigns.Store.Progression.advance
  on_advance who task cmd db = elim (Option-cases (advance_gate who cmd db)) [
    | inl e ↦ rw (after, e) (same db.participants)
    | inr (gate, e) ↦ elim (Bool-cases (has db.tasks task)) [
      | inl f ↦ rw (after, e, f) (same db.participants)
      | inr f ↦
          let found = advance_gate_sound who cmd db gate e in
          rw (after, e, f)
            (replace db.participants cmd.participant_uid gate.participant (bump gate.participant)
              found.0
              (bump-Step gate.participant (active_enrolled gate.participant.status found.2)))
    ]
  ]

  on_complete :
      (who : Caller) (cmd : Complete) (db : Db)
      → P db.participants ((after (complete who cmd db)).participants)
  unfolding main_sequence_crmapi.Campaigns.Store.Progression.complete
  on_complete who cmd db = elim (Option-cases (complete_gate cmd db)) [
    | inl e ↦ rw (after, e) (same db.participants)
    | inr (gate, e) ↦ elim (Option-cases (task_to_settle cmd db)) [
      | inl f ↦ rw (after, e, f) (same db.participants)
      | inr (t, f) ↦
          let found = complete_gate_sound cmd db gate e in
          rw (after, e, f)
            (replace db.participants cmd.participant_uid gate.participant
              (routed who gate.route.to_step_uid gate.route.delay_seconds gate.participant) found.0
              (routed-Step who gate.route.to_step_uid gate.route.delay_seconds gate.participant
                found.2))
    ]
  ]

  on_record :
      (who : Caller) (cmd : Record) (db : Db)
      → P db.participants ((after (record_progress who cmd db)).participants)
  unfolding main_sequence_crmapi.Campaigns.Store.Records.record_progress
  on_record who cmd db =
      elim (Option-cases (enrolled_at db cmd.participant_uid cmd.expected_version)) [
        | inl e ↦ rw (after, e) (same db.participants)
        | inr (p, e) ↦
            elim (Bool-cases (any (open_at cmd.participant_uid cmd.step_uid) db.progress)) [
              | inl f ↦
                  let found = enrolled_at_sound db cmd.participant_uid cmd.expected_version p e in
                  rw (after, e, f)
                    (replace db.participants cmd.participant_uid p (bump p) found.0
                      (bump-Step p found.2))
              | inr f ↦ rw (after, e, f) (same db.participants)
            ]
      ]

  on_reopen :
      (who : Caller) (cmd : Reopen) (db : Db)
      → P db.participants ((after (reconcile_reopen who cmd db)).participants)
  unfolding main_sequence_crmapi.Campaigns.Store.Reconcile.reconcile_reopen
  on_reopen who cmd db =
      elim (Option-cases (enrolled_at db cmd.participant_uid cmd.expected_version)) [
        | inl e ↦ rw (after, e) (same db.participants)
        | inr (p, e) ↦ elim (Option-cases (task_at db cmd.task_uid cmd.task_expected_version)) [
          | inl f ↦ rw (after, e, f) (same db.participants)
          | inr (t, f) ↦ elim (Bool-cases (any (to_reopen cmd) db.progress)) [
            | inl g ↦
                let found = enrolled_at_sound db cmd.participant_uid cmd.expected_version p e in
                rw (after, e, f, g)
                  (replace db.participants cmd.participant_uid p (bump p) found.0
                    (bump-Step p found.2))
            | inr g ↦ rw (after, e, f, g) (same db.participants)
          ]
        ]
      ]

  on_cancel :
      (who : Caller) (cmd : Cancel) (db : Db)
      → P db.participants ((after (reconcile_cancel who cmd db)).participants)
  unfolding main_sequence_crmapi.Campaigns.Store.Reconcile.reconcile_cancel
  on_cancel who cmd db = elim (Option-cases (cancel_gate cmd db)) [
    | inl e ↦ rw (after, e) (same db.participants)
    | inr (p, e) ↦ elim (Option-cases (task_at db cmd.task_uid cmd.task_expected_version)) [
      | inl f ↦ rw (after, e, f) (same db.participants)
      | inr (t, f) ↦ elim (Bool-cases (any (to_cancel cmd) db.progress)) [
        | inl g ↦
            let gate = cancel_gate_sound cmd db p e in
            let found = enrolled_at_sound db cmd.participant_uid cmd.expected_version p gate.0 in
            rw (after, e, f, g)
              (replace db.participants cmd.participant_uid p (cancelled_participant who cmd p)
                found.0 (cancelled-Step who cmd p found.2))
        | inr g ↦ rw (after, e, f, g) (same db.participants)
      ]
    ]
  ]

  on_update_campaign :
      (who : Caller) (uid expected : ℕ) (changes : CampaignChanges) (db : Db)
      → P db.participants ((after (update_campaign who uid expected changes db)).participants)
  unfolding main_sequence_crmapi.Campaigns.Store.Lifecycle.update_campaign
  on_update_campaign who uid expected changes db =
      elim (Option-cases
        (row_where (λ c. c.version == expected && is_live c.archived_at) db.campaigns uid)) [
          | inl e ↦ rw (after, e) (same db.participants)
          | inr (c, e) ↦ elim (Bool-cases (activates changes.status)) [
            | inl f ↦
                rw (after, e, f)
                  (reschedule db.participants (to_schedule db uid) (scheduled who c.entry_step_uid)
                    (scheduled-Step who c.entry_step_uid db uid))
            | inr f ↦ rw (after, e, f) (same db.participants)
          ]
        ]

  pub on_perform :
      (who : Caller) (cmd : Command) (db : Db)
      → P db.participants ((after (perform who cmd db)).participants)
  unfolding main_sequence_crmapi.Campaigns.Store.Commands.perform
  on_perform who (campaign_create uid new) db =
      rw (create_campaign_keeps who uid new db) (same db.participants)
  on_perform who (campaign_update uid expected changes) db =
      on_update_campaign who uid expected changes db
  on_perform who (campaign_archive uid expected archived) db =
      rw ((other_writes_keep who uid expected archived db).0) (same db.participants)
  on_perform who (participant_create uid new) db = on_create_participant who uid new db
  on_perform who (participant_update uid expected changes) db =
      on_update_participant who uid expected changes db
  on_perform who (work_advance task cmd) db = on_advance who task cmd db
  on_perform who (work_complete cmd) db = on_complete who cmd db
  on_perform who (work_record cmd) db = on_record who cmd db
  on_perform who (work_reopen cmd) db = on_reopen who cmd db
  on_perform who (work_cancel cmd) db = on_cancel who cmd db
  on_perform who (task_settle uid expected settles) db =
      rw ((other_writes_keep who uid expected settles db).1) (same db.participants)
  on_perform who (graph_save cmd) db = rw (save_graph_keeps who cmd db) (same db.participants)
  on_perform who (prompt_create uid new) db =
      rw (create_step_prompt_keeps who uid new db) (same db.participants)
  on_perform who (prompt_specialize uid expected new) db =
      rw (specialize_prompt_keeps who uid expected new db) (same db.participants)
  on_perform who (prompt_update uid expected changes) db =
      rw (update_step_prompt_keeps who uid expected changes db) (same db.participants)
