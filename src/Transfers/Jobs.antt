-- ===== src/Transfers/Jobs.antt =====
-- src/crm/repositories/transfers/jobs.py, but for the upload.
use main_sequence_crmapi.Common.{
  put, row_where, keep, ℕ, suc, String, str_eq, Bool, true, false, not, ◌&&◌, ◌||◌, Option, none,
  some, List, [], has, ◌==◌, if◌then◌else◌,
}
use main_sequence_crmapi.Campaigns.Briefing.{Fields, no_fields}
use main_sequence_crmapi.Transfers.Rows.{
  no_counts, is_terminal, takes_mapping, takes_commit, is_retryable, cancels_now, cancels_later,
  Direction, Status, Report, Job, StagedRow, Db, Reply, importing, exporting, uploading, staged,
  validating, needs_mapping, validated, queued, running, partial, failed, succeeded, cancelled,
  expired, answered, conflict, unknown, refused,
}

-- _job_row
unfoldable pub job_row : Db → ℕ → ℕ → Option Job
job_row db uid actor = row_where (λ j. j.initiator_uid == actor) db.jobs uid

-- the rows of a job
abbrev pub of_job : ℕ → StagedRow → Bool
of_job uid r = r.job_uid == uid

abbrev pub rows_of : Db → ℕ → List StagedRow
rows_of db uid = keep (of_job uid) db.rows

pub record CreateImport : Type 0 where
  pub adapter_id : String
  pub source_connection_uid : ℕ
  pub entity_type : Option String
  pub display_name : String

abbrev pub empty_report : Report
empty_report = record { counts = no_counts; issues = []; has_more_issues = false }

abbrev pub new_job : ℕ → CreateImport → Job
new_job actor data_in = record {
  version = 1;
  direction = importing;
  adapter_id = data_in.adapter_id;
  initiator_uid = actor;
  status = uploading;
  manifest = record {
    display_name = data_in.display_name;
    entity_type = data_in.entity_type;
    filename = none;
    content_type = none;
    sha256 = none;
    row_count = none;
  };
  mapping = no_fields;
  mapping_revision = 1;
  plan_hash = none;
  report = empty_report;
  cancel_requested = false;
}

unfoldable pub create_import : ℕ → ℕ → CreateImport → Db → Reply
create_import actor uid data_in db =
    elim (row_where (λ adapter. str_eq adapter data_in.adapter_id) db.connections
      data_in.source_connection_uid) [
        | none ↦ conflict db
        | some adapter ↦
            if has db.jobs uid
            then refused db
            else answered (record db { jobs = put db.jobs uid (new_job actor data_in) })
      ]

pub record Commit : Type 0 where
  pub plan_hash : String
  pub mapping_revision : ℕ
  pub strict_mode : Bool

abbrev pub is_import : Direction → Bool
is_import importing = true
is_import exporting = false

abbrev pub same_hash : Option String → String → Bool
same_hash none h = false
same_hash (some g) h = str_eq g h

-- UPDATE of the status, with the cancellation flag
abbrev pub moved : Status → Bool → Job → Job
moved status cancel j = record j {
  status = status;
  cancel_requested = cancel;
  version = suc j.version;
}

-- _transition
unfoldable pub transition : ℕ → ℕ → (Status → Bool) → Status → Bool → Db → Reply
transition actor uid allowed status cancel db =
    elim (row_where (λ j. j.initiator_uid == actor && allowed j.status) db.jobs uid) [
      | none ↦ conflict db
      | some j ↦ answered (record db { jobs = put db.jobs uid (moved status cancel j) })
    ]

abbrev pub mapped : Fields → Job → Job
mapped mapping j = record j {
  mapping = mapping;
  mapping_revision = suc j.mapping_revision;
  status = needs_mapping;
  plan_hash = none;
  report = record { counts = j.report.counts; issues = []; has_more_issues = false };
  version = suc j.version;
}

unfoldable pub save_mapping : ℕ → ℕ → Fields → Db → Reply
save_mapping actor uid mapping db =
    elim (row_where
      (λ j. j.initiator_uid == actor && is_import j.direction && takes_mapping j.status) db.jobs
      uid) [
        | none ↦ conflict db
        | some j ↦ answered (record db { jobs = put db.jobs uid (mapped mapping j) })
      ]

-- `seen` is what _job_row answered: the update that follows finds the job as it is then, and tests its
-- status only
unfoldable pub commit_import : ℕ → ℕ → Commit → Option Job → Db → Reply
unfolding transition
commit_import actor uid cmd seen db = elim seen [
  | none ↦ unknown db
  | some j ↦
      if not (same_hash j.plan_hash cmd.plan_hash)
        || not (j.mapping_revision == cmd.mapping_revision)
      then conflict db
      else if cmd.strict_mode && not (j.report.counts.blocked == 0)
      then conflict db
      else transition actor uid takes_commit queued false db
]

-- the statuses, numbered
abbrev pub status_number : Status → ℕ
status_number uploading = 0
status_number staged = 1
status_number validating = 2
status_number needs_mapping = 3
status_number validated = 4
status_number queued = 5
status_number running = 6
status_number partial = 7
status_number failed = 8
status_number succeeded = 9
status_number cancelled = 10
status_number expired = 11

-- status = ANY of one
abbrev pub is_status : Status → Status → Bool
is_status s t = status_number s == status_number t

-- the second part of cancel, on the job that it has read
unfoldable pub cancel_job : ℕ → ℕ → Job → Db → Reply
unfolding transition
cancel_job actor uid j db =
    if is_terminal j.status
    then answered db
    else if cancels_now j.status
    then transition actor uid (is_status j.status) cancelled true db
    else transition actor uid cancels_later j.status true db

-- `seen` is what _job_row answered
unfoldable pub cancel : ℕ → ℕ → Option Job → Db → Reply
unfolding cancel_job
cancel actor uid seen db = elim seen [ none ↦ unknown db | some j ↦ cancel_job actor uid j db ]

unfoldable pub retry : ℕ → ℕ → Db → Reply
unfolding transition
retry actor uid db = transition actor uid is_retryable queued false db
