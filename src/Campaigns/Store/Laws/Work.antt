-- ===== src/Campaigns/Store/Laws/Work.antt =====
-- The writes of src/crm/repositories/campaigns.py and tasks.py as changes of the progress rows.
use main_sequence_crmapi.Common.{
  get, any, update_where, ℕ, ◌≡◌, refl, inl, inr, Bool, false, List, ◌∷◌, arith, has, if◌then◌else◌,
  Bool-cases, Option-cases,
}
use main_sequence_crmapi.Campaigns.Store.Rows.{after, at_step, ProgressRow, Db, Caller}
use main_sequence_crmapi.Campaigns.Store.Lifecycle.{
  create_campaign, update_campaign, archive_campaign, NewCampaign, CampaignChanges,
}
use main_sequence_crmapi.Campaigns.Store.Participants.{
  create_participant, withdrawing, update_locked, is_open_work, cancel_work, update_participant,
  NewParticipant, ParticipantChanges,
}
use main_sequence_crmapi.Campaigns.Store.Progression.{
  advance_gate, new_progress, advance, complete_gate, task_to_settle, completed_progress, complete,
  Advance, Complete,
}
use main_sequence_crmapi.Campaigns.Store.Records.{
  enrolled_at, open_at, recorded_progress, record_progress, Record,
}
use main_sequence_crmapi.Campaigns.Store.Reconcile.{
  task_at, to_reopen, reopened_progress, reconcile_reopen, cancel_gate, to_cancel, reconcile_cancel,
  to_block, blocked_progress, task_completion, Reopen, Cancel,
}
use main_sequence_crmapi.Campaigns.Store.Prompts.{
  create_step_prompt, prompt_at, specialize_prompt, to_flag, flagged, update_step_prompt, NewPrompt,
  Specialized, PromptChanges,
}
use main_sequence_crmapi.Campaigns.Store.Saving.{
  save_gate, affected, changed_work, save_graph, SaveGraph,
}
use main_sequence_crmapi.Campaigns.Store.Commands.{
  perform, Command, campaign_create, campaign_update, campaign_archive, participant_create,
  participant_update, work_advance, work_complete, work_record, work_reopen, work_cancel,
  task_settle, graph_save, prompt_create, prompt_specialize, prompt_update,
}
use main_sequence_crmapi.Campaigns.Store.Laws.Gates.{advance_gate_sound}

-- the update leaves the participant and the step of a row
abbrev pub KeepsPlace : (ProgressRow → ProgressRow) → Type 0
KeepsPlace f =
    (g : ProgressRow) → ((f g).participant_uid ≡ g.participant_uid) × ((f g).step_uid ≡ g.step_uid)

create_campaign_leaves :
    (who : Caller) (uid : ℕ) (new : NewCampaign) (db : Db)
    → (after (create_campaign who uid new db)).progress ≡ db.progress
unfolding main_sequence_crmapi.Campaigns.Store.Lifecycle.create_campaign
create_campaign_leaves who uid new db = ground arith

update_campaign_leaves :
    (who : Caller) (uid expected : ℕ) (changes : CampaignChanges) (db : Db)
    → (after (update_campaign who uid expected changes db)).progress ≡ db.progress
unfolding main_sequence_crmapi.Campaigns.Store.Lifecycle.update_campaign
update_campaign_leaves who uid expected changes db = ground arith

archive_campaign_leaves :
    (who : Caller) (uid expected : ℕ) (archived : Bool) (db : Db)
    → (after (archive_campaign who uid expected archived db)).progress ≡ db.progress
unfolding main_sequence_crmapi.Campaigns.Store.Lifecycle.archive_campaign
archive_campaign_leaves who uid expected archived db = ground arith

create_step_prompt_leaves :
    (who : Caller) (uid : ℕ) (new : NewPrompt) (db : Db)
    → (after (create_step_prompt who uid new db)).progress ≡ db.progress
unfolding main_sequence_crmapi.Campaigns.Store.Prompts.create_step_prompt
create_step_prompt_leaves who uid new db = ground arith

specialize_prompt_leaves :
    (who : Caller) (uid expected : ℕ) (new : Specialized) (db : Db)
    → (after (specialize_prompt who uid expected new db)).progress ≡ db.progress
unfolding main_sequence_crmapi.Campaigns.Store.Prompts.specialize_prompt
specialize_prompt_leaves who uid expected new db = ground arith

module _ (P : List ProgressRow → List ProgressRow → Type 0)
    (same : (rows : List ProgressRow) → P rows rows)
    (rewrite : (rows : List ProgressRow) (test : ProgressRow → Bool) (f : ProgressRow → ProgressRow)
      → KeepsPlace f
      → P rows (update_where test f rows))
    (start : (rows : List ProgressRow) (g : ProgressRow)
      → any (at_step g.participant_uid g.step_uid) rows ≡ false
      → P rows (g ∷ rows)) where
  on_create_participant :
      (who : Caller) (uid : ℕ) (new : NewParticipant) (db : Db)
      → P db.progress ((after (create_participant who uid new db)).progress)
  unfolding main_sequence_crmapi.Campaigns.Store.Participants.create_participant
  on_create_participant who uid new db =
      let kept : (after (create_participant who uid new db)).progress ≡ db.progress =
        ground arith in
      rw (kept) (same db.progress)

  on_update_participant :
      (who : Caller) (uid expected : ℕ) (changes : ParticipantChanges) (db : Db)
      → P db.progress ((after (update_participant who uid expected changes db)).progress)
  unfolding main_sequence_crmapi.Campaigns.Store.Participants.update_participant
  on_update_participant who uid expected changes db =
      elim (Option-cases (update_locked db uid expected changes)) [
        | inl e ↦ rw (after, e) (same db.progress)
        | inr (p, e) ↦
            rw (after, e)
              (rewrite db.progress
                (if withdrawing changes.status then is_open_work uid else (λ g. false)) cancel_work
                (λ g. (refl, refl)))
      ]

  on_advance :
      (who : Caller) (task : ℕ) (cmd : Advance) (db : Db)
      → P db.progress ((after (advance who task cmd db)).progress)
  unfolding main_sequence_crmapi.Campaigns.Store.Progression.advance
  on_advance who task cmd db = elim (Option-cases (advance_gate who cmd db)) [
    | inl e ↦ rw (after, e) (same db.progress)
    | inr (gate, e) ↦ elim (Bool-cases (has db.tasks task)) [
      | inl f ↦ rw (after, e, f) (same db.progress)
      | inr f ↦
          rw (after, e, f)
            (start db.progress (new_progress cmd task) (advance_gate_sound who cmd db gate e).4)
    ]
  ]

  on_complete :
      (who : Caller) (cmd : Complete) (db : Db)
      → P db.progress ((after (complete who cmd db)).progress)
  unfolding main_sequence_crmapi.Campaigns.Store.Progression.complete
  on_complete who cmd db = elim (Option-cases (complete_gate cmd db)) [
    | inl e ↦ rw (after, e) (same db.progress)
    | inr (gate, e) ↦ elim (Option-cases (task_to_settle cmd db)) [
      | inl f ↦ rw (after, e, f) (same db.progress)
      | inr (t, f) ↦
          rw (after, e, f)
            (rewrite db.progress (at_step cmd.participant_uid cmd.step_uid)
              (completed_progress who cmd) (λ g. (refl, refl)))
    ]
  ]

  on_record :
      (who : Caller) (cmd : Record) (db : Db)
      → P db.progress ((after (record_progress who cmd db)).progress)
  unfolding main_sequence_crmapi.Campaigns.Store.Records.record_progress
  on_record who cmd db =
      elim (Option-cases (enrolled_at db cmd.participant_uid cmd.expected_version)) [
        | inl e ↦ rw (after, e) (same db.progress)
        | inr (p, e) ↦
            elim (Bool-cases (any (open_at cmd.participant_uid cmd.step_uid) db.progress)) [
              | inl f ↦
                  rw (after, e, f)
                    (rewrite db.progress (open_at cmd.participant_uid cmd.step_uid)
                      (recorded_progress cmd) (λ g. (refl, refl)))
              | inr f ↦ rw (after, e, f) (same db.progress)
            ]
      ]

  on_reopen :
      (who : Caller) (cmd : Reopen) (db : Db)
      → P db.progress ((after (reconcile_reopen who cmd db)).progress)
  unfolding main_sequence_crmapi.Campaigns.Store.Reconcile.reconcile_reopen
  on_reopen who cmd db =
      elim (Option-cases (enrolled_at db cmd.participant_uid cmd.expected_version)) [
        | inl e ↦ rw (after, e) (same db.progress)
        | inr (p, e) ↦ elim (Option-cases (task_at db cmd.task_uid cmd.task_expected_version)) [
          | inl f ↦ rw (after, e, f) (same db.progress)
          | inr (t, f) ↦ elim (Bool-cases (any (to_reopen cmd) db.progress)) [
            | inl g ↦
                rw (after, e, f, g)
                  (rewrite db.progress (to_reopen cmd) reopened_progress (λ row. (refl, refl)))
            | inr g ↦ rw (after, e, f, g) (same db.progress)
          ]
        ]
      ]

  on_cancel :
      (who : Caller) (cmd : Cancel) (db : Db)
      → P db.progress ((after (reconcile_cancel who cmd db)).progress)
  unfolding main_sequence_crmapi.Campaigns.Store.Reconcile.reconcile_cancel
  on_cancel who cmd db = elim (Option-cases (cancel_gate cmd db)) [
    | inl e ↦ rw (after, e) (same db.progress)
    | inr (p, e) ↦ elim (Option-cases (task_at db cmd.task_uid cmd.task_expected_version)) [
      | inl f ↦ rw (after, e, f) (same db.progress)
      | inr (t, f) ↦ elim (Bool-cases (any (to_cancel cmd) db.progress)) [
        | inl g ↦
            rw (after, e, f, g)
              (rewrite db.progress (to_cancel cmd) cancel_work (λ row. (refl, refl)))
        | inr g ↦ rw (after, e, f, g) (same db.progress)
      ]
    ]
  ]

  on_task_completion :
      (who : Caller) (uid expected : ℕ) (settles : Bool) (db : Db)
      → P db.progress ((after (task_completion who uid expected settles db)).progress)
  unfolding main_sequence_crmapi.Campaigns.Store.Reconcile.task_completion
  on_task_completion who uid expected settles db = elim (Option-cases (task_at db uid expected)) [
    | inl e ↦
        rw (after, e)
          (rewrite db.progress (to_block settles uid) (blocked_progress settles)
            (λ g. (refl, refl)))
    | inr (t, e) ↦
        rw (after, e)
          (rewrite db.progress (to_block settles uid) (blocked_progress settles)
            (λ g. (refl, refl)))
  ]

  on_save_graph :
      (who : Caller) (cmd : SaveGraph) (db : Db)
      → P db.progress ((after (save_graph who cmd db)).progress)
  unfolding main_sequence_crmapi.Campaigns.Store.Saving.save_graph
  on_save_graph who cmd db = elim (Option-cases (save_gate cmd db)) [
    | inl e ↦ rw (after, e) (same db.progress)
    | inr (c, e) ↦
        rw (after, e) (rewrite db.progress (affected cmd db) (changed_work cmd) (λ g. (refl, refl)))
  ]

  on_update_step_prompt :
      (who : Caller) (uid expected : ℕ) (changes : PromptChanges) (db : Db)
      → P db.progress ((after (update_step_prompt who uid expected changes db)).progress)
  unfolding main_sequence_crmapi.Campaigns.Store.Prompts.update_step_prompt
  on_update_step_prompt who uid expected changes db =
      elim (Option-cases (prompt_at db uid expected)) [
        | inl e ↦ rw (after, e) (same db.progress)
        | inr (p, e) ↦ elim (Option-cases (get db.step_prompts uid)) [
          | inl f ↦ rw (after, e, f) (same db.progress)
          | inr (sp, f) ↦
              rw (after, e, f)
                (rewrite db.progress (to_flag changes uid) flagged (λ g. (refl, refl)))
        ]
      ]

  pub on_progress :
      (who : Caller) (cmd : Command) (db : Db)
      → P db.progress ((after (perform who cmd db)).progress)
  unfolding main_sequence_crmapi.Campaigns.Store.Commands.perform
  on_progress who (campaign_create uid new) db =
      rw (create_campaign_leaves who uid new db) (same db.progress)
  on_progress who (campaign_update uid expected changes) db =
      rw (update_campaign_leaves who uid expected changes db) (same db.progress)
  on_progress who (campaign_archive uid expected archived) db =
      rw (archive_campaign_leaves who uid expected archived db) (same db.progress)
  on_progress who (prompt_create uid new) db =
      rw (create_step_prompt_leaves who uid new db) (same db.progress)
  on_progress who (prompt_specialize uid expected new) db =
      rw (specialize_prompt_leaves who uid expected new db) (same db.progress)
  on_progress who (participant_create uid new) db = on_create_participant who uid new db
  on_progress who (participant_update uid expected changes) db =
      on_update_participant who uid expected changes db
  on_progress who (work_advance task cmd) db = on_advance who task cmd db
  on_progress who (work_complete cmd) db = on_complete who cmd db
  on_progress who (work_record cmd) db = on_record who cmd db
  on_progress who (work_reopen cmd) db = on_reopen who cmd db
  on_progress who (work_cancel cmd) db = on_cancel who cmd db
  on_progress who (task_settle uid expected settles) db =
      on_task_completion who uid expected settles db
  on_progress who (graph_save cmd) db = on_save_graph who cmd db
  on_progress who (prompt_update uid expected changes) db =
      on_update_step_prompt who uid expected changes db
