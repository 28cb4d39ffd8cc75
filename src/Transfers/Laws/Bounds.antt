-- ===== src/Transfers/Laws/Bounds.antt =====
-- The bound on the rows of an import, of src/crm/services/transfers.py.
use main_sequence_crmapi.Transfers.Laws.Effects.{rows_here}
use main_sequence_crmapi.Common.{
  ℕ, suc, ◌≤◌, String, ◌≡◌, refl, sym, ap, ◌∙◌, inl, inr, Bool, ◌&&◌, some, List, [], ◌∷◌, map,
  arith, Bool-cases, Option-cases, length,
}
use main_sequence_crmapi.Campaigns.Briefing.{Json, Fields}
use main_sequence_crmapi.Transfers.Rows.{takes_upload, Job, StagedRow, Db, answered}
use main_sequence_crmapi.Transfers.Jobs.{job_row, rows_of, is_import}
use main_sequence_crmapi.Transfers.Uploads.{staged_rows, staged_db, stage_upload, Upload}
use main_sequence_crmapi.Transfers.Parsing.{
  Parsed-cases, parse_import_rows, Adapter, Content, parsed,
}
use main_sequence_crmapi.Transfers.Uploading.{rows_max, upload_import, stored}

module _ (show : Json → String) (row_key : ℕ → String → ℕ → ℕ) (row_hash : Fields → String) where
  length-staged_rows :
      (uid : ℕ) (entity : String) (n : ℕ) (payloads : List Fields)
      → length (staged_rows show row_key row_hash uid entity n payloads) ≡ length payloads
  unfolding main_sequence_crmapi.Transfers.Uploads.staged_rows
  length-staged_rows uid entity n [] = refl
  length-staged_rows uid entity n (p ∷ payloads) =
      ground (arith, length-staged_rows uid entity (suc n) payloads)

  payloads-staged_rows :
      (uid : ℕ) (entity : String) (n : ℕ) (payloads : List Fields)
      → map
          (λ (r : StagedRow). r.raw_payload)
          (staged_rows show row_key row_hash uid entity n payloads)
        ≡ payloads
  unfolding main_sequence_crmapi.Transfers.Uploads.staged_rows
  payloads-staged_rows uid entity n [] = refl
  payloads-staged_rows uid entity n (p ∷ payloads) =
      ap (λ (ps : List Fields). p ∷ ps) (payloads-staged_rows uid entity (suc n) payloads)

  staged_is :
      (actor uid : ℕ) (up : Upload) (db new : Db)
      → stage_upload show row_key row_hash actor uid up db ≡ answered new
      → rows_of new uid ≡ staged_rows show row_key row_hash uid up.entity_type 0 up.payloads
  unfolding main_sequence_crmapi.Transfers.Uploads.stage_upload
  staged_is actor uid up db new h = elim (Option-cases (job_row db uid actor)) [
    | inl e ↦ ground (arith, h, e)
    | inr (j, e) ↦ elim (Bool-cases (is_import j.direction && takes_upload j.status)) [
      | inl f ↦
          let is_it : staged_db show row_key row_hash uid up j db ≡ new = ground (arith, h, e, f) in
          rw (sym is_it) (rows_here show row_key row_hash uid uid up j db refl)
      | inr f ↦ ground (arith, h, e, f)
    ]
  ]

  -- When an upload is stored, the payloads of the import's rows are the rows that the parser read in the
  -- file, in their order, as many as these, and no more than the documented bound.
  pub upload_bounded :
      (adapter_of : String → Adapter) (can : String → Bool) (actor uid : ℕ)
      (filename content_type : String) (content : Content) (db new : Db)
      → upload_import show row_key row_hash adapter_of can actor uid filename content_type content
          db
        ≡ stored (answered new)
      → (j : Job) × (rows : List Fields) × (entity : String) × (job_row db uid actor ≡ some j)
        × (parse_import_rows (adapter_of j.adapter_id) j.manifest.entity_type content
            ≡ parsed rows entity)
        × (map (λ (r : StagedRow). r.raw_payload) (rows_of new uid) ≡ rows)
        × (length (rows_of new uid) ≡ length rows)
        × (length (rows_of new uid) ≤ rows_max)
  unfolding main_sequence_crmapi.Transfers.Uploading.upload_import
      main_sequence_crmapi.Transfers.Uploading.upload_rows
  upload_bounded adapter_of can actor uid filename content_type content db new h =
      elim (Option-cases (job_row db uid actor)) [
        | inl e ↦ ground (arith, h, e)
        | inr (j, e) ↦
            elim (Parsed-cases
              (parse_import_rows (adapter_of j.adapter_id) j.manifest.entity_type content)) [
                | inl f ↦ ground (arith, h, e, f)
                | inr (rows, entity, f) ↦
                    let up : Upload = record {
                      filename = filename;
                      content_type = content_type;
                      digest = content.digest;
                      payloads = rows;
                      entity_type = entity;
                    } in
                    let done : stage_upload show row_key row_hash actor uid up db ≡ answered new =
                      ground (arith, h, e, f) in
                    let is_it = staged_is actor uid up db new done in
                    let count : length (rows_of new uid) ≡ length rows =
                      ap length is_it ∙ length-staged_rows uid entity 0 rows in
                    (
                      j,
                      rows,
                      entity,
                      e,
                      f,
                      ap (map (λ (r : StagedRow). r.raw_payload)) is_it
                          ∙ payloads-staged_rows uid entity 0 rows,
                      count,
                      ground (arith, h, e, f, count),
                    )
              ]
      ]
