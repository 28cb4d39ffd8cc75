-- ===== src/Transfers/Uploads.antt =====
-- stage_upload of src/crm/repositories/transfers/jobs.py. The text of a value, the key of a row and the
-- hash of its payload come from outside of the repository: they are arguments.
use main_sequence_crmapi.Common.{
  put, keep, ℕ, zero, suc, String, false, not, ◌&&◌, Option, none, some, List, [], ◌∷◌, ◌++◌,
  if◌then◌else◌, length,
}
use main_sequence_crmapi.Campaigns.Briefing.{
  look, Json, Fields, null, boolean, number, text, array, object, no_fields,
}
use main_sequence_crmapi.Transfers.Rows.{
  no_counts, takes_upload, Job, StagedRow, Db, Reply, staged, row_staged, answered, conflict,
  unknown,
}
use main_sequence_crmapi.Transfers.Jobs.{job_row, of_job, is_import}

pub record Upload : Type 0 where
  pub filename : String
  pub content_type : String
  pub digest : String
  pub payloads : List Fields
  pub entity_type : String

-- payload.get(key, value)
abbrev pub look_or : Fields → String → Option Json → Option Json
look_or payload key value = elim (look payload key) [ none ↦ value | some v ↦ some v ]

-- a value, with None for JSON's null
abbrev pub not_null : Option Json → Option Json
not_null none = none
not_null (some null) = none
not_null (some (boolean b)) = some (boolean b)
not_null (some (number n)) = some (number n)
not_null (some (text t)) = some (text t)
not_null (some (array xs)) = some (array xs)
not_null (some (object fs)) = some (object fs)

-- a text cut to so many characters
unfoldable pub clip : ℕ → String → String
clip zero s = ""
clip (suc n) String.[] = ""
clip (suc n) (String.◌∷◌ c rest) = String.◌∷◌ c (clip n rest)

module _ (show : Json → String) (row_key : ℕ → String → ℕ → ℕ) (row_hash : Fields → String) where
  abbrev pub row_type : String → Fields → String
  row_type entity_type payload = elim (look payload "__entity_type") [
    | none ↦ entity_type
    | some v ↦ show v
  ]

  abbrev pub external_of : Fields → Option String
  external_of payload = elim (not_null (look_or payload "source_id" (look payload "id"))) [
    | none ↦ none
    | some v ↦ some (show v)
  ]

  -- the rows of an upload, from an ordinal on; their UUIDs are hashes of the job's, which are new
  unfoldable pub staged_rows : ℕ → String → ℕ → List Fields → List StagedRow
  staged_rows job entity_type n [] = []
  staged_rows job entity_type n (payload ∷ payloads) =
      record {
        uid = row_key job (row_type entity_type payload) n;
        job_uid = job;
        entity_type = row_type entity_type payload;
        ordinal = n;
        external_id = external_of payload;
        raw_payload = payload;
        raw_hash = row_hash payload;
        state = row_staged;
        errors = [];
      }
      ∷ staged_rows job entity_type (suc n) payloads

  abbrev pub uploaded : Upload → Job → Job
  uploaded up j = record j {
    status = staged;
    manifest = record j.manifest {
      filename = some (clip 255 up.filename);
      content_type = some (clip 255 up.content_type);
      sha256 = some up.digest;
      row_count = some (length up.payloads);
    };
    mapping = no_fields;
    mapping_revision = suc j.mapping_revision;
    plan_hash = none;
    report = record {
      counts = record no_counts { total = length up.payloads };
      issues = [];
      has_more_issues = false;
    };
    version = suc j.version;
  }

  -- the job and its rows after the upload
  abbrev pub staged_db : ℕ → Upload → Job → Db → Db
  staged_db uid up j db = record db {
    jobs = put db.jobs uid (uploaded up j);
    rows = keep (λ r. not (of_job uid r)) db.rows ++ staged_rows uid up.entity_type 0 up.payloads;
  }

  unfoldable pub stage_upload : ℕ → ℕ → Upload → Db → Reply
  unfolding staged_rows
  stage_upload actor uid up db = elim (job_row db uid actor) [
    | none ↦ unknown db
    | some j ↦
        if is_import j.direction && takes_upload j.status
        then answered (staged_db uid up j db)
        else conflict db
  ]
