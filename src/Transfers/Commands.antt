-- ===== src/Transfers/Commands.antt =====
-- The commands on imports of src/crm/repositories/transfers, and sequences of them.
use main_sequence_crmapi.Common.{ℕ, String, Bool, Option, List, [], ◌∷◌}
use main_sequence_crmapi.Campaigns.Briefing.{Json, Fields}
use main_sequence_crmapi.Transfers.Rows.{after, Job, Db, Reply}
use main_sequence_crmapi.Transfers.Assess.{Seal}
use main_sequence_crmapi.Transfers.Jobs.{
  create_import, save_mapping, commit_import, cancel, retry, CreateImport, Commit,
}
use main_sequence_crmapi.Transfers.Uploads.{stage_upload, Upload}
use main_sequence_crmapi.Transfers.Planning.{validate_import}

-- A commit and a cancellation read the job before they update it: these have the row that was read, which may
-- be one of another time.
pub data Command : Type 0 where
  import_create : ℕ → CreateImport → Command
  upload_stage : ℕ → Upload → Command
  mapping_save : ℕ → Fields → Command
  import_validate : ℕ → Command
  import_commit : ℕ → Commit → Option Job → Command
  job_cancel : ℕ → Option Job → Command
  job_retry : ℕ → Command

module _ (show : Json → String) (row_key : ℕ → String → ℕ → ℕ) (row_hash : Fields → String)
    (seal_hash : Seal → String) (valid_affiliation : Fields → Bool) where
  unfoldable pub perform : ℕ → Command → Db → Reply
  perform actor (import_create uid data_in) db = create_import actor uid data_in db
  perform actor (upload_stage uid up) db = stage_upload show row_key row_hash actor uid up db
  perform actor (mapping_save uid mapping) db = save_mapping actor uid mapping db
  perform actor (import_validate uid) db = validate_import seal_hash valid_affiliation actor uid db
  perform actor (import_commit uid cmd seen) db = commit_import actor uid cmd seen db
  perform actor (job_cancel uid seen) db = cancel actor uid seen db
  perform actor (job_retry uid) db = retry actor uid db

  -- each command with its actor, whatever the reply
  unfoldable pub run : List (ℕ × Command) → Db → Db
  unfolding perform
  run [] db = db
  run ((actor, cmd) ∷ cmds) db = run cmds (after (perform actor cmd db))
