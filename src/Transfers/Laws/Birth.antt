-- ===== src/Transfers/Laws/Birth.antt =====
-- A job of src/crm/repositories/transfers that was not there before a command.
use main_sequence_crmapi.Transfers.Laws.Effects.{
  commit_cases, cancel_cases, job_row_sound, validate_cases,
}
use main_sequence_crmapi.Common.{
  get, put, row_where, ℕ, String, ◌≡◌, sym, inl, inr, Bool, true, false, ◌&&◌, none, some, arith,
  Dict, get-put, row_where_sound, ◌==◌, Bool-cases, Option-cases,
}
use main_sequence_crmapi.Campaigns.Briefing.{Json, Fields}
use main_sequence_crmapi.Transfers.Rows.{
  after, takes_upload, takes_mapping, takes_commit, is_retryable, cancels_later, Status, Job, Db,
  queued, cancelled,
}
use main_sequence_crmapi.Transfers.Assess.{Seal}
use main_sequence_crmapi.Transfers.Jobs.{
  job_row, rows_of, new_job, is_import, moved, transition, mapped, save_mapping, is_status,
}
use main_sequence_crmapi.Transfers.Uploads.{uploaded, stage_upload, Upload}
use main_sequence_crmapi.Transfers.Planning.{assessed}
use main_sequence_crmapi.Transfers.Commands.{
  perform, Command, import_create, upload_stage, mapping_save, import_validate, import_commit,
  job_cancel, job_retry,
}

-- a put at a key that is there makes no other key
put_absent :
    (d : Dict Job) (k uid : ℕ) (i v : Job)
    → get d k ≡ some i
    → get d uid ≡ none
    → get (put d k v) uid ≡ none
put_absent d k uid i v found absent = elim (Bool-cases (k == uid)) [
  | inl e ↦
      let one : k ≡ uid = ground arith in
      let both : get d uid ≡ some i = rw (sym one) found in ground (arith, absent, both)
  | inr e ↦ ground (arith, e, absent, get-put d k v uid)
]

transition_absent :
    (actor k uid : ℕ) (allowed : Status → Bool) (status : Status) (flag : Bool) (db : Db)
    → get db.jobs uid ≡ none
    → get (after (transition actor k allowed status flag db)).jobs uid ≡ none
unfolding main_sequence_crmapi.Transfers.Jobs.transition
transition_absent actor k uid allowed status flag db absent =
    let test : Job → Bool = λ i. i.initiator_uid == actor && allowed i.status in
    elim (Option-cases (row_where test db.jobs k)) [
      | inl e ↦ rw (after, e) absent
      | inr (i, e) ↦
          rw (after, e)
            (put_absent db.jobs k uid i (moved status flag i) (row_where_sound test db.jobs k i e).0
              absent)
    ]

mapping_absent :
    (actor k uid : ℕ) (mapping : Fields) (db : Db)
    → get db.jobs uid ≡ none
    → get (after (save_mapping actor k mapping db)).jobs uid ≡ none
unfolding main_sequence_crmapi.Transfers.Jobs.save_mapping
mapping_absent actor k uid mapping db absent =
    let test : Job → Bool =
      λ i. i.initiator_uid == actor && is_import i.direction && takes_mapping i.status in
    elim (Option-cases (row_where test db.jobs k)) [
      | inl e ↦ rw (after, e) absent
      | inr (i, e) ↦
          rw (after, e)
            (put_absent db.jobs k uid i (mapped mapping i) (row_where_sound test db.jobs k i e).0
              absent)
    ]

upload_absent :
    (show : Json → String) (row_key : ℕ → String → ℕ → ℕ) (row_hash : Fields → String)
    (actor k uid : ℕ) (up : Upload) (db : Db)
    → get db.jobs uid ≡ none
    → get (after (stage_upload show row_key row_hash actor k up db)).jobs uid ≡ none
unfolding main_sequence_crmapi.Transfers.Uploads.stage_upload
upload_absent show row_key row_hash actor k uid up db absent =
    elim (Option-cases (job_row db k actor)) [
      | inl e ↦ rw (after, e) absent
      | inr (i, e) ↦ elim (Bool-cases (is_import i.direction && takes_upload i.status)) [
        | inl f ↦
            rw (after, e, f)
              (put_absent db.jobs k uid i (uploaded show row_key row_hash up i)
                (job_row_sound db k actor i e).0 absent)
        | inr f ↦ rw (after, e, f) absent
      ]
    ]

-- a job that a command makes has no plan
pub birth_unplanned :
    (show : Json → String) (row_key : ℕ → String → ℕ → ℕ) (row_hash : Fields → String)
    (seal_hash : Seal → String) (valid_affiliation : Fields → Bool) (actor uid : ℕ) (cmd : Command)
    (db : Db) (j : Job)
    → get db.jobs uid ≡ none
    → get (after (perform show row_key row_hash seal_hash valid_affiliation actor cmd db)).jobs uid
      ≡ some j
    → j.plan_hash ≡ none
unfolding main_sequence_crmapi.Transfers.Commands.perform
    main_sequence_crmapi.Transfers.Jobs.create_import main_sequence_crmapi.Transfers.Jobs.retry
birth_unplanned show row_key row_hash seal_hash valid_affiliation actor uid
      (import_create k data_in) db j absent there =
    ground (arith, there, absent, get-put db.jobs k (new_job actor data_in) uid)
birth_unplanned show row_key row_hash seal_hash valid_affiliation actor uid (upload_stage k up) db j
      absent there =
    ground (arith, there, upload_absent show row_key row_hash actor k uid up db absent)
birth_unplanned show row_key row_hash seal_hash valid_affiliation actor uid (mapping_save k mapping)
      db j absent there =
    ground (arith, there, mapping_absent actor k uid mapping db absent)
birth_unplanned show row_key row_hash seal_hash valid_affiliation actor uid (import_validate k) db j
      absent there =
    elim (validate_cases seal_hash valid_affiliation actor k db) [
      | inl (i, found, own, full, e) ↦ ground (
        arith,
        there,
        e,
        put_absent db.jobs k uid i (assessed seal_hash valid_affiliation i (rows_of db k)) found
            absent,
      )
      | inr e ↦ ground (arith, there, e, absent)
    ]
birth_unplanned show row_key row_hash seal_hash valid_affiliation actor uid
      (import_commit k cmd seen) db j absent there =
    elim (commit_cases actor k cmd seen db) [
      | inl e ↦
          ground
            (arith, there, e, transition_absent actor k uid takes_commit queued false db absent)
      | inr e ↦ ground (arith, there, e, absent)
    ]
birth_unplanned show row_key row_hash seal_hash valid_affiliation actor uid (job_cancel k seen) db j
      absent there =
    elim (cancel_cases actor k seen db) [
      | inl (i, f, e) ↦ ground (
        arith,
        there,
        e,
        transition_absent actor k uid (is_status i.status) cancelled true db absent,
      )
      | inr (inl (i, e)) ↦
          ground
            (arith, there, e, transition_absent actor k uid cancels_later i.status true db absent)
      | inr (inr e) ↦ ground (arith, there, e, absent)
    ]
birth_unplanned show row_key row_hash seal_hash valid_affiliation actor uid (job_retry k) db j
      absent there =
    ground (arith, there, transition_absent actor k uid is_retryable queued false db absent)
