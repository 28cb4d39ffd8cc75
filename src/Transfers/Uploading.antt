-- ===== src/Transfers/Uploading.antt =====
-- upload_import of src/crm/services/transfers.py. The capabilities of the caller, and the adapter that the text
-- of a job's adapter names, are arguments.
use main_sequence_crmapi.Common.{ℕ, ◌*◌, String, Bool, not, none, some, ltb, if◌then◌else◌, length}
use main_sequence_crmapi.Campaigns.Briefing.{Json, Fields}
use main_sequence_crmapi.Transfers.Rows.{Db, Reply, unknown}
use main_sequence_crmapi.Transfers.Jobs.{job_row}
use main_sequence_crmapi.Transfers.Uploads.{stage_upload}
use main_sequence_crmapi.Transfers.Parsing.{
  parse_import_rows, Parsed, Adapter, Content, parsed, input_error,
}

-- MAX_UPLOAD_BYTES
abbrev pub upload_bytes_max : ℕ
upload_bytes_max = 20 * 1024 * 1024

-- MAX_ROWS
abbrev pub rows_max : ℕ
rows_max = 20000

-- upload_import raises for the caller, for the file, which may be too large, or as the store does
pub data Uploaded : Type 0 where
  forbidden bad_file too_large : Uploaded
  stored : Reply → Uploaded

module _ (show : Json → String) (row_key : ℕ → String → ℕ → ℕ) (row_hash : Fields → String) where
  -- from the rows on
  unfoldable pub upload_rows : ℕ → ℕ → String → String → Content → Db → Parsed → Uploaded
  upload_rows actor uid filename content_type content db input_error = bad_file
  upload_rows actor uid filename content_type content db (parsed rows entity) =
      if ltb rows_max (length rows)
      then too_large
      else stored (
          stage_upload show row_key row_hash actor uid
            (record {
              filename = filename;
              content_type = content_type;
              digest = content.digest;
              payloads = rows;
              entity_type = entity;
            })
            db)

  unfoldable pub upload_import :
      (String → Adapter) → (String → Bool) → ℕ → ℕ → String → String → Content → Db → Uploaded
  unfolding upload_rows
  upload_import adapter_of can actor uid filename content_type content db =
      if not (can "crm.transfer.import")
      then forbidden
      else if ltb upload_bytes_max content.size
      then too_large
      else elim (job_row db uid actor) [
        | none ↦ stored (unknown db)
        | some j ↦
            upload_rows actor uid filename content_type content db
              (parse_import_rows (adapter_of j.adapter_id) j.manifest.entity_type content)
      ]
