-- ===== src/Transfers/Laws/Progress.antt =====
-- The way of an import of src/crm/repositories/transfers from the upload to the queue.
use main_sequence_crmapi.Transfers.Laws.Effects.{after-read_plan, rows_here}
use main_sequence_crmapi.Transfers.Laws.Sealed.{has_issues}
use main_sequence_crmapi.Common.{
  get, any, count_where, ℕ, suc, String, eq_iff, ◌≡◌, refl, sym, ap, ◌∙◌, Bool, true, false, some,
  List, [], ◌∷◌, arith, get-put, ◌==◌,
}
use main_sequence_crmapi.Campaigns.Briefing.{Json, Fields}
use main_sequence_crmapi.Transfers.Rows.{
  after, takes_upload, takes_mapping, takes_commit, Job, StagedRow, Db, queued,
}
use main_sequence_crmapi.Transfers.Assess.{is_empty, assess_decisions, is_blocked, Seal}
use main_sequence_crmapi.Transfers.Jobs.{
  job_row, rows_of, is_import, same_hash, moved, mapped, save_mapping, commit_import, Commit,
}
use main_sequence_crmapi.Transfers.Uploads.{staged_rows, uploaded, stage_upload, Upload}
use main_sequence_crmapi.Transfers.Planning.{plan_seal, assessed, assessed_db, validate_import}
use main_sequence_crmapi.Transfers.Commands.{
  run, Command, upload_stage, mapping_save, import_validate,
}

valid-none :
    (valid_affiliation : Fields → Bool) (rows : List StagedRow)
    → any (has_issues valid_affiliation) rows ≡ false
    → count_where is_blocked (assess_decisions valid_affiliation rows) ≡ 0
unfolding main_sequence_crmapi.Common.any main_sequence_crmapi.Common.count_where
    main_sequence_crmapi.Transfers.Assess.assess_decisions
valid-none valid_affiliation [] h = refl
valid-none valid_affiliation (r ∷ rows) h = ground (arith, h, valid-none valid_affiliation rows)

pub mapping_at :
    (actor uid : ℕ) (mapping : Fields) (db : Db) (j : Job)
    → get db.jobs uid ≡ some j
    → (j.initiator_uid == actor) ≡ true
    → is_import j.direction ≡ true
    → takes_mapping j.status ≡ true
    → (get (after (save_mapping actor uid mapping db)).jobs uid ≡ some (mapped mapping j))
      × (rows_of (after (save_mapping actor uid mapping db)) uid ≡ rows_of db uid)
unfolding main_sequence_crmapi.Transfers.Jobs.save_mapping main_sequence_crmapi.Common.row_where
mapping_at actor uid mapping db j there own import_job takes = (
  ground (arith, there, own, import_job, takes, get-put db.jobs uid (mapped mapping j) uid),
  ground (arith, there, own, import_job, takes),
)

commit_at :
    (actor uid : ℕ) (cmd : Commit) (db : Db) (j : Job)
    → get db.jobs uid ≡ some j
    → (j.initiator_uid == actor) ≡ true
    → takes_commit j.status ≡ true
    → same_hash j.plan_hash cmd.plan_hash ≡ true
    → cmd.mapping_revision ≡ j.mapping_revision
    → j.report.counts.blocked ≡ 0
    → get (after (commit_import actor uid cmd (job_row db uid actor) db)).jobs uid
      ≡ some (moved queued false j)
unfolding main_sequence_crmapi.Transfers.Jobs.commit_import
    main_sequence_crmapi.Transfers.Jobs.job_row main_sequence_crmapi.Transfers.Jobs.transition
    main_sequence_crmapi.Common.row_where
commit_at actor uid cmd db j there own takes planned revision unblocked = ground (
  arith,
  there,
  own,
  takes,
  planned,
  revision,
  unblocked,
  get-put db.jobs uid (moved queued false j) uid,
)

-- the commands of an import, from the upload to the validation
abbrev pub path : ℕ → ℕ → Upload → Fields → List (ℕ × Command)
path actor uid up mapping =
    (actor, upload_stage uid up)
    ∷ (actor, mapping_save uid mapping)
    ∷ (actor, import_validate uid)
    ∷ []

module _ (show : Json → String) (row_key : ℕ → String → ℕ → ℕ) (row_hash : Fields → String)
    (seal_hash : Seal → String) (valid_affiliation : Fields → Bool) where
  upload_at :
      (actor uid : ℕ) (up : Upload) (db : Db) (j : Job)
      → get db.jobs uid ≡ some j
      → (j.initiator_uid == actor) ≡ true
      → is_import j.direction ≡ true
      → takes_upload j.status ≡ true
      → (get (after (stage_upload show row_key row_hash actor uid up db)).jobs uid
          ≡ some (uploaded show row_key row_hash up j))
        × (rows_of (after (stage_upload show row_key row_hash actor uid up db)) uid
            ≡ staged_rows show row_key row_hash uid up.entity_type 0 up.payloads)
  unfolding main_sequence_crmapi.Transfers.Uploads.stage_upload
      main_sequence_crmapi.Transfers.Jobs.job_row main_sequence_crmapi.Common.row_where
  upload_at actor uid up db j there own import_job takes = (
    ground (
      arith,
      there,
      own,
      import_job,
      takes,
      get-put db.jobs uid (uploaded show row_key row_hash up j) uid,
    ),
    ground (
      arith,
      there,
      own,
      import_job,
      takes,
      rows_here show row_key row_hash uid uid up j db refl,
    ),
  )

  validate_at :
      (actor uid : ℕ) (db : Db) (j : Job)
      → get db.jobs uid ≡ some j
      → (j.initiator_uid == actor) ≡ true
      → is_empty j.mapping ≡ false
      → get (after (validate_import seal_hash valid_affiliation actor uid db)).jobs uid
        ≡ some (assessed seal_hash valid_affiliation j (rows_of db uid))
  unfolding main_sequence_crmapi.Transfers.Planning.validate_import
      main_sequence_crmapi.Transfers.Jobs.job_row main_sequence_crmapi.Common.row_where
  validate_at actor uid db j there own full =
      let new : Db = assessed_db seal_hash valid_affiliation uid j db in
      ground (
        arith,
        there,
        own,
        full,
        after-read_plan seal_hash valid_affiliation actor uid new,
        get-put db.jobs uid (assessed seal_hash valid_affiliation j (rows_of db uid)) uid,
      )

  -- A transfer that takes an upload gets into the queue: when the rows of the file have no issue and the
  -- mapping is not empty, the upload, the mapping, the validation and then the strict commit of the plan
  -- that this seals, with nothing in between, leave the job queued.
  pub import_queued :
      (actor uid : ℕ) (up : Upload) (mapping : Fields) (cmd : Commit) (db : Db) (j : Job)
      → get db.jobs uid ≡ some j
      → (j.initiator_uid == actor) ≡ true
      → is_import j.direction ≡ true
      → takes_upload j.status ≡ true
      → any
          (has_issues valid_affiliation)
          (staged_rows show row_key row_hash uid up.entity_type 0 up.payloads)
        ≡ false
      → is_empty mapping ≡ false
      → cmd.plan_hash
        ≡ plan_seal seal_hash valid_affiliation
            (mapped mapping (uploaded show row_key row_hash up j))
            (staged_rows show row_key row_hash uid up.entity_type 0 up.payloads)
      → cmd.mapping_revision ≡ suc (suc j.mapping_revision)
      → (k : Job) × (get
            (after (
              commit_import actor uid cmd
                (job_row
                  (run show row_key row_hash seal_hash valid_affiliation
                    (path actor uid up mapping)
                    db)
                  uid
                  actor)
                (run show row_key row_hash seal_hash valid_affiliation
                  (path actor uid up mapping)
                  db))).jobs
            uid
          ≡ some k)
        × (k.status ≡ queued)
  unfolding main_sequence_crmapi.Transfers.Commands.run
      main_sequence_crmapi.Transfers.Commands.perform
  import_queued actor uid up mapping cmd db j there own import_job takes clean full sealed
        revision =
      let db1 : Db = after (stage_upload show row_key row_hash actor uid up db) in
      let db2 : Db = after (save_mapping actor uid mapping db1) in
      let db3 : Db = after (validate_import seal_hash valid_affiliation actor uid db2) in
      let fresh : List StagedRow =
        staged_rows show row_key row_hash uid up.entity_type 0 up.payloads in
      let j1 : Job = uploaded show row_key row_hash up j in
      let j2 : Job = mapped mapping j1 in
      let j3 : Job = assessed seal_hash valid_affiliation j2 fresh in
      let (at1, rows1) = upload_at actor uid up db j there own import_job takes in
      let (at2, rows2) = mapping_at actor uid mapping db1 j1 at1 own import_job refl in
      let rows : rows_of db2 uid ≡ fresh = rows2 ∙ rows1 in
      let at3 : get db3.jobs uid ≡ some j3 =
        validate_at actor uid db2 j2 at2 own full
        ∙ ap (λ r. some (assessed seal_hash valid_affiliation j2 r)) rows in
      let none_blocked = valid-none valid_affiliation fresh clean in
      (
        moved queued false j3,
        commit_at actor uid cmd db3 j3 at3 own (ground (arith, none_blocked))
            ((eq_iff (plan_seal seal_hash valid_affiliation j2 fresh) cmd.plan_hash).1 (sym sealed))
            revision none_blocked,
        refl,
      )
