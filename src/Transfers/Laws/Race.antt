-- ===== src/Transfers/Laws/Race.antt =====
-- A mapping that is saved between the read and the update of commit_import of
-- src/crm/repositories/transfers/jobs.py.
use main_sequence_crmapi.Common.{get, ℕ, ◌≡◌, refl, true, false, none, some, arith, get-put}
use main_sequence_crmapi.Campaigns.Briefing.{Fields}
use main_sequence_crmapi.Transfers.Rows.{after, is_answered, takes_mapping, Job, Db, queued}
use main_sequence_crmapi.Transfers.Jobs.{
  job_row, is_import, moved, mapped, save_mapping, commit_import, Commit,
}
use main_sequence_crmapi.Transfers.Laws.Effects.{job_row_sound}
use main_sequence_crmapi.Transfers.Laws.Progress.{mapping_at}

-- A mapping that is saved between the read and the update of a commit puts the job into the queue with no
-- plan: whenever the commit would be answered by itself, and the job takes a mapping.
pub commit_unplanned :
    (actor uid : ℕ) (cmd : Commit) (mapping : Fields) (db : Db) (j : Job)
    → job_row db uid actor ≡ some j
    → is_import j.direction ≡ true
    → takes_mapping j.status ≡ true
    → is_answered (commit_import actor uid cmd (some j) db) ≡ true
    → (k : Job) × (get
          (after
            (commit_import actor uid cmd (some j) (after (save_mapping actor uid mapping db)))).jobs
          uid
        ≡ some k)
      × (k.status ≡ queued)
      × (k.plan_hash ≡ none)
unfolding main_sequence_crmapi.Transfers.Jobs.commit_import
    main_sequence_crmapi.Transfers.Jobs.transition main_sequence_crmapi.Common.row_where
commit_unplanned actor uid cmd mapping db j read import_job takes h =
    let (found, own) = job_row_sound db uid actor j read in
    let (there, rows) = mapping_at actor uid mapping db j found own import_job takes in
    let new : Db = after (save_mapping actor uid mapping db) in
    (
      moved queued false (mapped mapping j),
      ground
          (arith, h, own, there, get-put new.jobs uid (moved queued false (mapped mapping j)) uid),
      refl,
      refl,
    )
