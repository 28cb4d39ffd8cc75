-- ===== src/Transfers/Laws/Effects.antt =====
-- What a command of src/crm/repositories/transfers does to one job and its rows.
use mathlib.Core.List.{append-nil}
use main_sequence_crmapi.Common.{
  get, keep, update_where, ℕ, suc, String, ◌≡◌, refl, sym, ◌⊎◌, inl, inr, Bool, true, false, not,
  ◌&&◌, ◌||◌, Option, some, List, [], ◌∷◌, ◌++◌, map, arith, leb, ◌==◌, if◌then◌else◌, Bool-cases,
  Option-cases,
}
use main_sequence_crmapi.Campaigns.Briefing.{Json, Fields}
use main_sequence_crmapi.Transfers.Rows.{
  after, is_terminal, takes_commit, is_retryable, cancels_now, cancels_later, Status, Job,
  StagedRow, Db, uploading, staged, validating, needs_mapping, validated, queued, running, partial,
  failed, succeeded, cancelled, expired,
}
use main_sequence_crmapi.Transfers.Jobs.{
  job_row, of_job, rows_of, same_hash, transition, commit_import, status_number, is_status, cancel,
  Commit,
}
use main_sequence_crmapi.Transfers.Uploads.{staged_rows, staged_db, Upload}
use main_sequence_crmapi.Transfers.Assess.{is_empty, Seal}
use main_sequence_crmapi.Transfers.Planning.{read_plan, assessed_db, validate_import}

pub rows_uploaded :
    (k uid : ℕ) (show : Json → String) (row_key : ℕ → String → ℕ → ℕ) (row_hash : Fields → String)
    (entity_type : String) (n : ℕ) (payloads : List Fields)
    → keep (of_job uid) (staged_rows show row_key row_hash k entity_type n payloads)
      ≡ (if k == uid then staged_rows show row_key row_hash k entity_type n payloads else [])
unfolding main_sequence_crmapi.Common.keep main_sequence_crmapi.Transfers.Uploads.staged_rows
rows_uploaded k uid show row_key row_hash entity_type n [] = ground arith
rows_uploaded k uid show row_key row_hash entity_type n (p ∷ payloads) =
    ground (arith, rows_uploaded k uid show row_key row_hash entity_type (suc n) payloads)

pub rows_replaced :
    (k uid : ℕ) (rows new : List StagedRow)
    → keep (of_job uid) (keep (λ r. not (of_job k r)) rows ++ new)
      ≡ (if k == uid then [] else keep (of_job uid) rows) ++ keep (of_job uid) new
unfolding main_sequence_crmapi.Common.keep
rows_replaced k uid [] new = ground arith
rows_replaced k uid (r ∷ rows) new = ground (arith, rows_replaced k uid rows new)

pub rows_judged :
    (k uid : ℕ) (f : StagedRow → StagedRow) (rows : List StagedRow)
    → ((r : StagedRow) → (f r).job_uid ≡ r.job_uid)
    → keep (of_job uid) (update_where (of_job k) f rows)
      ≡ (if k == uid then map f (keep (of_job uid) rows) else keep (of_job uid) rows)
unfolding main_sequence_crmapi.Common.keep main_sequence_crmapi.Common.update_where
rows_judged k uid f [] h = ground arith
rows_judged k uid f (r ∷ rows) h = ground (arith, h r, rows_judged k uid f rows h)

pub terminal_number : (s : Status) → is_terminal s ≡ leb 9 (status_number s)
terminal_number uploading = refl
terminal_number staged = refl
terminal_number validating = refl
terminal_number needs_mapping = refl
terminal_number validated = refl
terminal_number queued = refl
terminal_number running = refl
terminal_number partial = refl
terminal_number failed = refl
terminal_number succeeded = refl
terminal_number cancelled = refl
terminal_number expired = refl

pub status_stays_open :
    (s t : Status) → is_terminal s ≡ false → is_status s t ≡ true → is_terminal t ≡ false
status_stays_open s t h e = ground (arith, terminal_number s, terminal_number t)

pub commit_open : (s : Status) → takes_commit s ≡ true → is_terminal s ≡ false
commit_open s h = ground arith

pub later_open : (s : Status) → cancels_later s ≡ true → is_terminal s ≡ false
later_open s h = ground arith

pub retry_open : (s : Status) → is_retryable s ≡ true → is_terminal s ≡ false
retry_open s h = ground arith

-- a commit is a transition to the queue, or changes nothing
pub commit_cases :
    (actor k : ℕ) (cmd : Commit) (seen : Option Job) (db : Db)
    → (commit_import actor k cmd seen db ≡ transition actor k takes_commit queued false db)
      ⊎ (after (commit_import actor k cmd seen db) ≡ db)
unfolding main_sequence_crmapi.Transfers.Jobs.commit_import
commit_cases actor k cmd seen db = elim (Option-cases seen) [
  | inl e ↦ inr (ground (arith, e))
  | inr (i, e) ↦
      let stale : Bool =
        not (same_hash i.plan_hash cmd.plan_hash)
        || not (i.mapping_revision == cmd.mapping_revision) in
      elim (Bool-cases (stale || (cmd.strict_mode && not (i.report.counts.blocked == 0)))) [
        | inl f ↦ inr (ground (arith, e, f))
        | inr f ↦ inl (ground (arith, e, f))
      ]
]

-- a cancellation is one of two transitions, or changes nothing
pub cancel_cases :
    (actor k : ℕ) (seen : Option Job) (db : Db)
    → ((i : Job) × (is_terminal i.status ≡ false)
        × (cancel actor k seen db ≡ transition actor k (is_status i.status) cancelled true db))
      ⊎ ((i : Job) × (cancel actor k seen db ≡ transition actor k cancels_later i.status true db))
      ⊎ (after (cancel actor k seen db) ≡ db)
unfolding main_sequence_crmapi.Transfers.Jobs.cancel main_sequence_crmapi.Transfers.Jobs.cancel_job
cancel_cases actor k seen db = elim (Option-cases seen) [
  | inl e ↦ inr (inr (ground (arith, e)))
  | inr (i, e) ↦ elim (Bool-cases (is_terminal i.status)) [
    | inl f ↦ inr (inr (ground (arith, e, f)))
    | inr f ↦ elim (Bool-cases (cancels_now i.status)) [
      | inl g ↦ inl (i, f, ground (arith, e, f, g))
      | inr g ↦ inr (inl (i, ground (arith, e, f, g)))
    ]
  ]
]

-- a plan that is read changes nothing
pub after-read_plan :
    (seal_hash : Seal → String) (valid_affiliation : Fields → Bool) (actor k : ℕ) (db : Db)
    → after (read_plan seal_hash valid_affiliation actor k db) ≡ db
unfolding main_sequence_crmapi.Transfers.Planning.read_plan
after-read_plan seal_hash valid_affiliation actor k db = ground arith

pub job_row_sound :
    (db : Db) (uid actor : ℕ) (j : Job)
    → job_row db uid actor ≡ some j
    → (get db.jobs uid ≡ some j) × ((j.initiator_uid == actor) ≡ true)
unfolding main_sequence_crmapi.Transfers.Jobs.job_row main_sequence_crmapi.Common.row_where
job_row_sound db uid actor j h = ground arith

module _ (show : Json → String) (row_key : ℕ → String → ℕ → ℕ) (row_hash : Fields → String)
    (k uid : ℕ) (up : Upload) (i : Job) (db : Db) where
  -- the rows of another job after an upload
  pub rows_elsewhere :
      (k == uid) ≡ false → rows_of (staged_db show row_key row_hash k up i db) uid ≡ rows_of db uid
  rows_elsewhere other =
      let fresh : List StagedRow =
        staged_rows show row_key row_hash k up.entity_type 0 up.payloads in
      ground (
        arith,
        other,
        rows_replaced k uid db.rows fresh,
        rows_uploaded k uid show row_key row_hash up.entity_type 0 up.payloads,
        append-nil (keep (of_job uid) db.rows),
      )

  -- the rows of the job after an upload
  pub rows_here :
      k ≡ uid
      → rows_of (staged_db show row_key row_hash k up i db) uid
        ≡ staged_rows show row_key row_hash uid up.entity_type 0 up.payloads
  rows_here one =
      let fresh : List StagedRow =
        staged_rows show row_key row_hash k up.entity_type 0 up.payloads in
      let here : (k == uid) ≡ true = ground (arith, one) in
      rw (sym one) (
        ground (
          arith,
          here,
          rows_replaced k k db.rows fresh,
          rows_uploaded k k show row_key row_hash up.entity_type 0 up.payloads,
        ))

-- a validation stores the verdicts and the plan, or changes nothing
pub validate_cases :
    (seal_hash : Seal → String) (valid_affiliation : Fields → Bool) (actor k : ℕ) (db : Db)
    → ((i : Job) × (get db.jobs k ≡ some i)
        × ((i.initiator_uid == actor) ≡ true)
        × (is_empty i.mapping ≡ false)
        × (after (validate_import seal_hash valid_affiliation actor k db)
            ≡ assessed_db seal_hash valid_affiliation k i db))
      ⊎ (after (validate_import seal_hash valid_affiliation actor k db) ≡ db)
unfolding main_sequence_crmapi.Transfers.Planning.validate_import
validate_cases seal_hash valid_affiliation actor k db = elim (Option-cases (job_row db k actor)) [
  | inl e ↦ inr (ground (arith, e))
  | inr (i, e) ↦ elim (Bool-cases (is_empty i.mapping)) [
    | inl f ↦ inr (ground (arith, e, f))
    | inr f ↦
        let found = job_row_sound db k actor i e in
        let new : Db = assessed_db seal_hash valid_affiliation k i db in
        inl (
          i,
          found.0,
          found.1,
          f,
          ground (arith, e, f, after-read_plan seal_hash valid_affiliation actor k new),
        )
  ]
]
