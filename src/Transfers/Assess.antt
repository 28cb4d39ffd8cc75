-- ===== src/Transfers/Assess.antt =====
-- src/crm/portability/planning.py: the verdict on each staged row, and what the hash of a plan seals.
use main_sequence_crmapi.Common.{
  count_where, ℕ, zero, suc, String, str_eq, Bool, true, false, Option, none, some, List, [], ◌∷◌,
  ◌++◌, map, ltb, if◌then◌else◌, length,
}
use main_sequence_crmapi.Campaigns.Briefing.{Fields, no_fields, field}
use main_sequence_crmapi.Transfers.Rows.{
  RowIssue, Counts, Issue, Report, RowState, StagedRow, row_staged, row_valid, row_blocked,
}

pub record Decision : Type 0 where
  pub uid : ℕ
  pub state : RowState
  pub errors : List RowIssue

abbrev pub is_empty : Fields → Bool
is_empty no_fields = true
is_empty (field k v rest) = false

-- the record that sealed_plan_hash encodes and hashes
pub record Seal : Type 0 where
  pub input_sha256 : Option String
  pub mapping : Fields
  pub mapping_revision : ℕ
  pub row_hashes : List String

unfoldable pub hashes_of : List StagedRow → List String
hashes_of [] = []
hashes_of (r ∷ rows) = r.raw_hash ∷ hashes_of rows

module _ (valid_affiliation : Fields → Bool) where
  abbrev pub affiliation_issues : Fields → List RowIssue
  affiliation_issues payload =
      let tail : List RowIssue = (none, "AFFILIATION_IMPORT_NOT_IMPLEMENTED") ∷ [] in
      if valid_affiliation payload
      then tail
      else (some "started_period", "INVALID_AFFILIATION") ∷ tail

  -- row_issues
  unfoldable pub row_issues : StagedRow → List RowIssue
  row_issues r =
      (if is_empty r.raw_payload then (none, "EMPTY_ROW") ∷ [] else [])
      ++ (if str_eq r.entity_type "contact_company_affiliation"
          then affiliation_issues r.raw_payload
          else [])

  abbrev pub state_for : List RowIssue → RowState
  state_for [] = row_valid
  state_for (i ∷ issues) = row_blocked

  abbrev pub placed : StagedRow → RowIssue → Issue
  placed r i = record {
    row_uid = r.uid;
    entity_type = r.entity_type;
    ordinal = r.ordinal;
    field_name = i.0;
    code = i.1;
  }

  -- assess_staged_rows, its two answers
  unfoldable pub assess_issues : List StagedRow → List Issue
  unfolding row_issues
  assess_issues [] = []
  assess_issues (r ∷ rows) = map (placed r) (row_issues r) ++ assess_issues rows

  unfoldable pub assess_decisions : List StagedRow → List Decision
  unfolding row_issues
  assess_decisions [] = []
  assess_decisions (r ∷ rows) =
      record { uid = r.uid; state = state_for (row_issues r); errors = row_issues r }
      ∷ assess_decisions rows

abbrev pub is_valid : Decision → Bool
is_valid d = elim d.state [ row_staged ↦ false | row_valid ↦ true | row_blocked ↦ false ]

abbrev pub is_blocked : Decision → Bool
is_blocked d = elim d.state [ row_staged ↦ false | row_valid ↦ false | row_blocked ↦ true ]

-- the counts of validate_import
abbrev pub counts_of : List StagedRow → List Decision → Counts
counts_of rows decisions = record {
  total = length rows;
  valid = count_where is_valid decisions;
  blocked = count_where is_blocked decisions;
  committed = 0;
  skipped = 0;
  failed_rows = 0;
}

-- issues[:200]
abbrev pub issues_shown : ℕ
issues_shown = 200

unfoldable pub first : ℕ → List Issue → List Issue
first n [] = []
first zero (i ∷ issues) = []
first (suc n) (i ∷ issues) = i ∷ first n issues

abbrev pub report_of : Counts → List Issue → Report
report_of counts issues = record {
  counts = counts;
  issues = first issues_shown issues;
  has_more_issues = ltb issues_shown (length issues);
}
