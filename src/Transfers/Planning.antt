-- ===== src/Transfers/Planning.antt =====
-- src/crm/repositories/transfers/planning.py. The hash of a plan, and pydantic's reading of the fields of
-- an affiliation, are arguments.
use main_sequence_crmapi.Common.{
  put, update_where, ℕ, suc, String, str_eq, Bool, false, not, ◌&&◌, Option, none, some, List, ◌==◌,
  if◌then◌else◌,
}
use main_sequence_crmapi.Campaigns.Briefing.{Fields}
use main_sequence_crmapi.Transfers.Rows.{
  Counts, Job, StagedRow, Db, Reply, needs_mapping, validated, answered, conflict, unknown,
}
use main_sequence_crmapi.Transfers.Assess.{
  is_empty, hashes_of, row_issues, state_for, assess_issues, assess_decisions, counts_of, first,
  report_of, Seal,
}
use main_sequence_crmapi.Transfers.Jobs.{job_row, of_job, rows_of, is_import}

-- a plan hash that is there and not empty
abbrev pub has_plan : Option String → Bool
has_plan none = false
has_plan (some h) = not (str_eq h "")

module _ (seal_hash : Seal → String) (valid_affiliation : Fields → Bool) where
  -- sealed_plan_hash of a job over its rows
  abbrev pub plan_seal : Job → List StagedRow → String
  plan_seal j rows = seal_hash (record {
    input_sha256 = j.manifest.sha256;
    mapping = j.mapping;
    mapping_revision = j.mapping_revision;
    row_hashes = hashes_of rows;
  })

  abbrev pub assessed_counts : List StagedRow → Counts
  assessed_counts rows = counts_of rows (assess_decisions valid_affiliation rows)

  abbrev pub assessed : Job → List StagedRow → Job
  assessed j rows = record j {
    status = if (assessed_counts rows).blocked == 0 then validated else needs_mapping;
    plan_hash = some (plan_seal j rows);
    report = report_of (assessed_counts rows) (assess_issues valid_affiliation rows);
    version = suc j.version;
  }

  -- a row of changed_rows: the decision that has its UID, which is a primary key, is its own
  abbrev pub judged : StagedRow → StagedRow
  judged r = record r {
    state = state_for valid_affiliation (row_issues valid_affiliation r);
    errors = row_issues valid_affiliation r;
  }

  -- plan, which raises when there is nothing sealed
  unfoldable pub read_plan : ℕ → ℕ → Db → Reply
  read_plan actor uid db = elim (job_row db uid actor) [
    | none ↦ unknown db
    | some j ↦ if is_import j.direction && has_plan j.plan_hash then answered db else conflict db
  ]

  -- the job and its rows after the update
  abbrev pub assessed_db : ℕ → Job → Db → Db
  assessed_db uid j db = record db {
    jobs = put db.jobs uid (assessed j (rows_of db uid));
    rows = update_where (of_job uid) judged db.rows;
  }

  unfoldable pub validate_import : ℕ → ℕ → Db → Reply
  unfolding read_plan hashes_of assess_issues assess_decisions first
  validate_import actor uid db = elim (job_row db uid actor) [
    | none ↦ unknown db
    | some j ↦
        if is_empty j.mapping then conflict db else read_plan actor uid (assessed_db uid j db)
  ]
