-- ===== src/Transfers/Laws/Principle.antt =====
-- A principle for the laws of the commands on imports: what each of them makes of one job and its rows.
use main_sequence_crmapi.Common.{
  get, put, row_where, keep, update_where, ℕ, String, ◌≡◌, refl, sym, ◌∙◌, inl, inr, Bool, true,
  false, ◌&&◌, Option, some, List, map, arith, get-put, row_where_sound, ◌==◌, Bool-cases,
  Option-cases,
}
use main_sequence_crmapi.Campaigns.Briefing.{Json, Fields}
use main_sequence_crmapi.Transfers.Rows.{
  after, is_terminal, takes_upload, takes_mapping, takes_commit, is_retryable, cancels_later,
  Status, Job, StagedRow, Db, queued, cancelled,
}
use main_sequence_crmapi.Transfers.Assess.{is_empty, Seal}
use main_sequence_crmapi.Transfers.Jobs.{
  job_row, of_job, rows_of, new_job, create_import, is_import, moved, transition, mapped,
  save_mapping, commit_import, is_status, cancel, retry, CreateImport, Commit,
}
use main_sequence_crmapi.Transfers.Uploads.{staged_rows, uploaded, staged_db, stage_upload, Upload}
use main_sequence_crmapi.Transfers.Planning.{assessed, judged, assessed_db, validate_import}
use main_sequence_crmapi.Transfers.Laws.Effects.{
  rows_judged, status_stays_open, commit_open, later_open, retry_open, commit_cases, cancel_cases,
  job_row_sound, rows_elsewhere, rows_here, validate_cases,
}
use main_sequence_crmapi.Transfers.Commands.{
  perform, Command, import_create, upload_stage, mapping_save, import_validate, import_commit,
  job_cancel, job_retry,
}

module _ (show : Json → String) (row_key : ℕ → String → ℕ → ℕ) (row_hash : Fields → String)
    (seal_hash : Seal → String) (valid_affiliation : Fields → Bool) (uid actor : ℕ)
    (P : Job → List StagedRow → Job → List StagedRow → Type 0)
    (same : (j : Job) (rows : List StagedRow) → P j rows j rows)
    (on_move : (j : Job) (rows : List StagedRow) (status : Status) (flag : Bool)
      → (j.initiator_uid == actor) ≡ true
      → is_terminal j.status ≡ false
      → P j rows (moved status flag j) rows)
    (on_mapping : (j : Job) (rows : List StagedRow) (mapping : Fields)
      → (j.initiator_uid == actor) ≡ true
      → takes_mapping j.status ≡ true
      → P j rows (mapped mapping j) rows)
    (on_upload : (j : Job) (rows : List StagedRow) (up : Upload)
      → (j.initiator_uid == actor) ≡ true
      → takes_upload j.status ≡ true
      → P j rows
          (uploaded show row_key row_hash up j)
          (staged_rows show row_key row_hash uid up.entity_type 0 up.payloads))
    (on_validate : (j : Job) (rows : List StagedRow)
      → (j.initiator_uid == actor) ≡ true
      → is_empty j.mapping ≡ false
      → P j rows
          (assessed seal_hash valid_affiliation j rows)
          (map (judged seal_hash valid_affiliation) rows)) where
  -- the job and its rows, before and after
  abbrev Changed : Db → Db → Job → Type 0
  Changed db new j =
      (k : Job) × (get new.jobs uid ≡ some k) × P j (rows_of db uid) k (rows_of new uid)

  kept :
      (db new : Db) (j : Job)
      → get db.jobs uid ≡ some j
      → get new.jobs uid ≡ get db.jobs uid
      → rows_of new uid ≡ rows_of db uid
      → Changed db new j
  kept db new j there jobs rows = (j, jobs ∙ there, rw (rows) (same j (rows_of db uid)))

  on_put :
      (k : ℕ) (db new : Db) (i i' j : Job)
      → get db.jobs k ≡ some i
      → get db.jobs uid ≡ some j
      → new.jobs ≡ put db.jobs k i'
      → ((k == uid) ≡ false → rows_of new uid ≡ rows_of db uid)
      → ((k == uid) ≡ true → P i (rows_of db uid) i' (rows_of new uid))
      → Changed db new j
  on_put k db new i i' j found there jobs elsewhere here = elim (Bool-cases (k == uid)) [
    | inl e ↦
        let one : k ≡ uid = ground arith in
        let old : get db.jobs k ≡ some j = rw (one) there in
        let is_it : i ≡ j = ground (arith, found, old) in
        (i', rw (jobs) (ground (arith, get-put db.jobs k i' uid)), rw (sym is_it) (here e))
    | inr e ↦
        kept db new j there (rw (jobs) (ground (arith, get-put db.jobs k i' uid))) (elsewhere e)
  ]

  on_transition :
      (k : ℕ) (allowed : Status → Bool) (status : Status) (flag : Bool) (db : Db) (j : Job)
      → ((s : Status) → allowed s ≡ true → is_terminal s ≡ false)
      → get db.jobs uid ≡ some j
      → Changed db (after (transition actor k allowed status flag db)) j
  unfolding main_sequence_crmapi.Transfers.Jobs.transition
  on_transition k allowed status flag db j live there =
      elim (Option-cases
        (row_where (λ i. i.initiator_uid == actor && allowed i.status) db.jobs k)) [
          | inl e ↦ rw (after, e) (kept db db j there refl refl)
          | inr (i, e) ↦
              let (found, guard) =
                row_where_sound (λ i. i.initiator_uid == actor && allowed i.status) db.jobs k i e in
              rw (after, e)
                (on_put k db (record db { jobs = put db.jobs k (moved status flag i) }) i
                  (moved status flag i) j found there refl (λ at. refl)
                  (λ at.
                    on_move i (rows_of db uid) status flag (ground (arith, guard))
                      (ground (arith, guard, live i.status))))
        ]

  on_create :
      (k : ℕ) (data_in : CreateImport) (db : Db) (j : Job)
      → get db.jobs uid ≡ some j
      → Changed db (after (create_import actor k data_in db)) j
  unfolding main_sequence_crmapi.Transfers.Jobs.create_import
  on_create k data_in db j there =
      kept db (after (create_import actor k data_in db)) j there
        (ground (arith, there, get-put db.jobs k (new_job actor data_in) uid)) (ground arith)

  on_save_mapping :
      (k : ℕ) (mapping : Fields) (db : Db) (j : Job)
      → get db.jobs uid ≡ some j
      → Changed db (after (save_mapping actor k mapping db)) j
  unfolding main_sequence_crmapi.Transfers.Jobs.save_mapping
  on_save_mapping k mapping db j there =
      let test : Job → Bool =
        λ i. i.initiator_uid == actor && is_import i.direction && takes_mapping i.status in
      elim (Option-cases (row_where test db.jobs k)) [
        | inl e ↦ rw (after, e) (kept db db j there refl refl)
        | inr (i, e) ↦
            let (found, guard) = row_where_sound test db.jobs k i e in
            rw (after, e)
              (on_put k db (record db { jobs = put db.jobs k (mapped mapping i) }) i
                (mapped mapping i) j found there refl (λ at. refl)
                (λ at.
                  on_mapping i (rows_of db uid) mapping (ground (arith, guard))
                    (ground (arith, guard))))
      ]

  on_commit :
      (k : ℕ) (cmd : Commit) (seen : Option Job) (db : Db) (j : Job)
      → get db.jobs uid ≡ some j
      → Changed db (after (commit_import actor k cmd seen db)) j
  on_commit k cmd seen db j there = elim (commit_cases actor k cmd seen db) [
    | inl e ↦ rw (e) (on_transition k takes_commit queued false db j commit_open there)
    | inr e ↦ rw (e) (kept db db j there refl refl)
  ]

  on_cancel :
      (k : ℕ) (seen : Option Job) (db : Db) (j : Job)
      → get db.jobs uid ≡ some j
      → Changed db (after (cancel actor k seen db)) j
  on_cancel k seen db j there = elim (cancel_cases actor k seen db) [
    | inl (i, f, e) ↦ rw (e) (
        on_transition k (is_status i.status) cancelled true db j
          (λ s at. status_stays_open i.status s f at) there)
    | inr (inl (i, e)) ↦ rw (e) (on_transition k cancels_later i.status true db j later_open there)
    | inr (inr e) ↦ rw (e) (kept db db j there refl refl)
  ]

  on_retry :
      (k : ℕ) (db : Db) (j : Job)
      → get db.jobs uid ≡ some j
      → Changed db (after (retry actor k db)) j
  unfolding main_sequence_crmapi.Transfers.Jobs.retry
  on_retry k db j there = on_transition k is_retryable queued false db j retry_open there

  on_stage_upload :
      (k : ℕ) (up : Upload) (db : Db) (j : Job)
      → get db.jobs uid ≡ some j
      → Changed db (after (stage_upload show row_key row_hash actor k up db)) j
  unfolding main_sequence_crmapi.Transfers.Uploads.stage_upload
  on_stage_upload k up db j there = elim (Option-cases (job_row db k actor)) [
    | inl e ↦ rw (after, e) (kept db db j there refl refl)
    | inr (i, e) ↦ elim (Bool-cases (is_import i.direction && takes_upload i.status)) [
      | inl f ↦
          let found = job_row_sound db k actor i e in
          let new : Db = staged_db show row_key row_hash k up i db in
          rw (after, e, f)
            (on_put k db new i (uploaded show row_key row_hash up i) j found.0 there refl
              (rows_elsewhere show row_key row_hash k uid up i db)
              (λ at.
                let one : k ≡ uid = ground arith in
                rw (rows_here show row_key row_hash k uid up i db one)
                  (on_upload i (rows_of db uid) up found.1 (ground (arith, f)))))
      | inr f ↦ rw (after, e, f) (kept db db j there refl refl)
    ]
  ]

  on_validate_import :
      (k : ℕ) (db : Db) (j : Job)
      → get db.jobs uid ≡ some j
      → Changed db (after (validate_import seal_hash valid_affiliation actor k db)) j
  on_validate_import k db j there = elim (validate_cases seal_hash valid_affiliation actor k db) [
    | inr e ↦ rw (e) (kept db db j there refl refl)
    | inl (i, found, own, full, e) ↦
        let new : Db = assessed_db seal_hash valid_affiliation k i db in
        let f : StagedRow → StagedRow = judged seal_hash valid_affiliation in
        let rows = rows_judged k uid f db.rows (λ r. refl) in
        rw (e) (
          on_put k db new i (assessed seal_hash valid_affiliation i (rows_of db k)) j found there
            refl (λ at. ground (arith, at, rows))
            (λ at.
              let one : k ≡ uid = ground arith in
              let moved_rows : keep (of_job uid) (update_where (of_job uid) f db.rows)
                  ≡ map f (keep (of_job uid) db.rows) =
                ground (arith, rows_judged uid uid f db.rows (λ r. refl)) in
              rw (one, moved_rows) (on_validate i (rows_of db uid) own full)))
  ]

  -- a job that is there stays there, and one of the changes relates it and its rows
  pub on_job :
      (cmd : Command) (db : Db) (j : Job)
      → get db.jobs uid ≡ some j
      → (k : Job) × (get
            (after (perform show row_key row_hash seal_hash valid_affiliation actor cmd db)).jobs
            uid
          ≡ some k)
        × P j (rows_of db uid) k (
            rows_of
              (after (perform show row_key row_hash seal_hash valid_affiliation actor cmd db))
              uid)
  unfolding main_sequence_crmapi.Transfers.Commands.perform
  on_job (import_create k data_in) db j there = on_create k data_in db j there
  on_job (upload_stage k up) db j there = on_stage_upload k up db j there
  on_job (mapping_save k mapping) db j there = on_save_mapping k mapping db j there
  on_job (import_validate k) db j there = on_validate_import k db j there
  on_job (import_commit k cmd seen) db j there = on_commit k cmd seen db j there
  on_job (job_cancel k seen) db j there = on_cancel k seen db j there
  on_job (job_retry k) db j there = on_retry k db j there
