-- ===== src/Transfers/Rows.antt =====
-- The tables of src/crm/metatables/transfer_job.py, transfer_row.py and source_connection.py, and the
-- counts of src/crm/repositories/transfers/base.py. A mapping and a payload are decoded JSON objects.
use main_sequence_crmapi.Common.{ℕ, String, Bool, true, false, Option, List, Dict}
use main_sequence_crmapi.Campaigns.Briefing.{Fields}

pub data Direction : Type 0 where
  importing exporting : Direction

pub data Status : Type 0 where
  uploading staged validating : Status
  needs_mapping validated queued running : Status
  partial failed succeeded cancelled expired : Status

-- COUNT_KEYS
pub record Counts : Type 0 where
  pub total : ℕ
  pub valid : ℕ
  pub blocked : ℕ
  pub committed : ℕ
  pub skipped : ℕ
  pub failed_rows : ℕ

abbrev pub no_counts : Counts
no_counts = record {
  total = 0;
  valid = 0;
  blocked = 0;
  committed = 0;
  skipped = 0;
  failed_rows = 0;
}

-- an issue of a row, with its place; its severity is always "error", and its message is left out
pub record Issue : Type 0 where
  pub row_uid : ℕ
  pub entity_type : String
  pub ordinal : ℕ
  pub field_name : Option String
  pub code : String

pub record Report : Type 0 where
  pub counts : Counts
  pub issues : List Issue
  pub has_more_issues : Bool

-- input_manifest of an import; the last four are there after an upload
pub record Manifest : Type 0 where
  pub display_name : String
  pub entity_type : Option String
  pub filename : Option String
  pub content_type : Option String
  pub sha256 : Option String
  pub row_count : Option ℕ

pub record Job : Type 0 where
  pub version : ℕ
  pub direction : Direction
  pub adapter_id : String
  pub initiator_uid : ℕ
  pub status : Status
  pub manifest : Manifest
  pub mapping : Fields
  pub mapping_revision : ℕ
  pub plan_hash : Option String
  pub report : Report
  pub cancel_requested : Bool

pub data RowState : Type 0 where
  row_staged row_valid row_blocked : RowState

-- the issues of a row: the field, where there is one, and the code
abbrev pub RowIssue : Type 0
RowIssue = Option String × String

pub record StagedRow : Type 0 where
  pub uid : ℕ
  pub job_uid : ℕ
  pub entity_type : String
  pub ordinal : ℕ
  pub external_id : Option String
  pub raw_payload : Fields
  pub raw_hash : String
  pub state : RowState
  pub errors : List RowIssue

pub record Db : Type 0 where
  pub jobs : Dict Job
  -- the rows of a job stand in the order of their ordinals
  pub rows : List StagedRow
  -- the adapter of each source connection
  pub connections : Dict String

-- what a command does: it answers, or raises a conflict, an unknown transfer, or the database's refusal
-- of a key; the database after it is in each
pub data Reply : Type 0 where
  answered conflict unknown refused : Db → Reply

abbrev pub after : Reply → Db
after (answered db) = db
after (conflict db) = db
after (unknown db) = db
after (refused db) = db

abbrev pub is_answered : Reply → Bool
is_answered (answered db) = true
is_answered (conflict db) = false
is_answered (unknown db) = false
is_answered (refused db) = false

-- TERMINAL_STATES
abbrev pub is_terminal : Status → Bool
is_terminal uploading = false
is_terminal staged = false
is_terminal validating = false
is_terminal needs_mapping = false
is_terminal validated = false
is_terminal queued = false
is_terminal running = false
is_terminal partial = false
is_terminal failed = false
is_terminal succeeded = true
is_terminal cancelled = true
is_terminal expired = true

-- the states that take an upload
abbrev pub takes_upload : Status → Bool
takes_upload uploading = true
takes_upload staged = true
takes_upload validating = false
takes_upload needs_mapping = true
takes_upload validated = true
takes_upload queued = false
takes_upload running = false
takes_upload partial = false
takes_upload failed = false
takes_upload succeeded = false
takes_upload cancelled = false
takes_upload expired = false

-- the states that take a mapping
abbrev pub takes_mapping : Status → Bool
takes_mapping uploading = false
takes_mapping staged = true
takes_mapping validating = false
takes_mapping needs_mapping = true
takes_mapping validated = true
takes_mapping queued = false
takes_mapping running = false
takes_mapping partial = false
takes_mapping failed = false
takes_mapping succeeded = false
takes_mapping cancelled = false
takes_mapping expired = false

-- the states from which commit_import starts
abbrev pub takes_commit : Status → Bool
takes_commit uploading = false
takes_commit staged = false
takes_commit validating = false
takes_commit needs_mapping = true
takes_commit validated = true
takes_commit queued = false
takes_commit running = false
takes_commit partial = false
takes_commit failed = false
takes_commit succeeded = false
takes_commit cancelled = false
takes_commit expired = false

-- RETRYABLE_STATES
abbrev pub is_retryable : Status → Bool
is_retryable uploading = false
is_retryable staged = false
is_retryable validating = false
is_retryable needs_mapping = false
is_retryable validated = false
is_retryable queued = false
is_retryable running = false
is_retryable partial = true
is_retryable failed = true
is_retryable succeeded = false
is_retryable cancelled = false
is_retryable expired = false

-- the states that cancel at once
abbrev pub cancels_now : Status → Bool
cancels_now uploading = true
cancels_now staged = true
cancels_now validating = false
cancels_now needs_mapping = true
cancels_now validated = true
cancels_now queued = true
cancels_now running = false
cancels_now partial = false
cancels_now failed = false
cancels_now succeeded = false
cancels_now cancelled = false
cancels_now expired = false

-- the states in which a cancellation is asked for
abbrev pub cancels_later : Status → Bool
cancels_later uploading = false
cancels_later staged = false
cancels_later validating = false
cancels_later needs_mapping = false
cancels_later validated = false
cancels_later queued = false
cancels_later running = true
cancels_later partial = true
cancels_later failed = true
cancels_later succeeded = false
cancels_later cancelled = false
cancels_later expired = false
