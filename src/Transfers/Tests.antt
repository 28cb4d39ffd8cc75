-- ===== src/Transfers/Tests.antt =====
-- Imports on a small database, and the theorems at these.
use mathlib.Core.List.{Permᴰ}
use mathlib.Core.List.Permᴰ
use main_sequence_crmapi.Common.{
  get, any, ℕ, ◌+◌, ◌*◌, ◌≤◌, String, str_eq, ◌≡◌, refl, ◌⊎◌, Bool, true, false, none, some, List,
  [], ◌∷◌, map, ◌==◌, if◌then◌else◌, length,
}
use main_sequence_crmapi.Campaigns.Briefing.{
  Json, Fields, null, boolean, number, text, array, object, no_fields, field,
}
use main_sequence_crmapi.Transfers.Rows.{
  after, is_answered, is_terminal, takes_mapping, Job, StagedRow, Db, queued, running, partial,
  cancelled, answered,
}
use main_sequence_crmapi.Transfers.Assess.{is_empty, Seal}
use main_sequence_crmapi.Transfers.Jobs.{
  job_row, rows_of, new_job, moved, mapped, save_mapping, commit_import, CreateImport, Commit,
}
use main_sequence_crmapi.Transfers.Uploads.{staged_rows, uploaded, staged_db, Upload}
use main_sequence_crmapi.Transfers.Planning.{plan_seal, assessed}
use main_sequence_crmapi.Transfers.Commands.{
  perform, run, Command, import_create, upload_stage, mapping_save, import_validate, job_cancel,
}
use main_sequence_crmapi.Transfers.Packing.{Groups}
use main_sequence_crmapi.Transfers.Parsing.{
  parse_import_rows, Adapter, Content, parsed, generic_csv,
}
use main_sequence_crmapi.Transfers.Uploading.{rows_max, upload_import, stored}
use main_sequence_crmapi.Transfers.Laws.Final.{others_keep, terminal_changes}
use main_sequence_crmapi.Transfers.Laws.Sealed.{
  has_issues, AllSealed, run_sealed, none_sealed, strict_commit_checked,
}
use main_sequence_crmapi.Transfers.Laws.Progress.{path, import_queued}
use main_sequence_crmapi.Transfers.Laws.Bounds.{upload_bounded}
use main_sequence_crmapi.Transfers.Laws.Race.{commit_unplanned}

abbrev show_json : Json → String
show_json null = "None"
show_json (boolean b) = if b then "True" else "False"
show_json (number n) = n
show_json (text t) = t
show_json (array xs) = "[]"
show_json (object fs) = "{}"

abbrev key_of : ℕ → String → ℕ → ℕ
key_of job kind n = 1000 * job + n

abbrev hash_row : Fields → String
hash_row fs = "row"

abbrev hash_seal : Seal → String
hash_seal s = elim s.input_sha256 [ none ↦ "no file" | some digest ↦ digest ]

abbrev any_affiliation : Fields → Bool
any_affiliation fs = true

abbrev ana : Fields
ana = field "id" (text "a1") (field "first_name" (text "Ana") no_fields)

abbrev names : Fields
names = field "first_name" (text "first_name") no_fields

abbrev people : CreateImport
people = record {
  adapter_id = "generic-csv-v1";
  source_connection_uid = 3;
  entity_type = some "contact";
  display_name = "People";
}

abbrev file : Upload
file = record {
  filename = "people.csv";
  content_type = "text/csv";
  digest = "abc";
  payloads = ana ∷ [];
  entity_type = "contact";
}

abbrev empty_db : Db
empty_db = record { jobs = []; rows = []; connections = (3, "generic-csv-v1") ∷ [] }

abbrev commit_it : Commit
commit_it = record { plan_hash = "abc"; mapping_revision = 3; strict_mode = true }

abbrev cmds : List (ℕ × Command)
cmds =
    (9, import_create 5 people)
    ∷ (9, upload_stage 5 file)
    ∷ (9, mapping_save 5 names)
    ∷ (9, import_validate 5)
    ∷ []

abbrev ready : Db
ready = run show_json key_of hash_row hash_seal any_affiliation cmds empty_db

abbrev started : Job
started = new_job 9 people

abbrev opened : Db
opened = record { jobs = (5, started) ∷ []; rows = []; connections = [] }

abbrev ended : Job
ended = record started { status = cancelled; mapping = names }

abbrev closed : Db
closed = record { jobs = (5, ended) ∷ []; rows = []; connections = [] }

ready-commits : is_answered (commit_import 9 5 commit_it (job_row ready 5 9) ready) ≡ true
unfolding main_sequence_crmapi.Common.get main_sequence_crmapi.Common.put
    main_sequence_crmapi.Common.any main_sequence_crmapi.Common.keep
    main_sequence_crmapi.Common.row_where main_sequence_crmapi.Common.update_where
    main_sequence_crmapi.Common.count_where main_sequence_crmapi.Transfers.Jobs.job_row
    main_sequence_crmapi.Transfers.Jobs.create_import
    main_sequence_crmapi.Transfers.Jobs.save_mapping
    main_sequence_crmapi.Transfers.Jobs.commit_import main_sequence_crmapi.Transfers.Jobs.transition
    main_sequence_crmapi.Transfers.Uploads.staged_rows
    main_sequence_crmapi.Transfers.Uploads.stage_upload
    main_sequence_crmapi.Transfers.Planning.validate_import
    main_sequence_crmapi.Transfers.Planning.read_plan
    main_sequence_crmapi.Transfers.Assess.hashes_of main_sequence_crmapi.Transfers.Assess.row_issues
    main_sequence_crmapi.Transfers.Assess.assess_issues
    main_sequence_crmapi.Transfers.Assess.assess_decisions
    main_sequence_crmapi.Transfers.Assess.first main_sequence_crmapi.Transfers.Commands.perform
    main_sequence_crmapi.Transfers.Commands.run
    main_sequence_crmapi.Transfers.Uploading.upload_import
    main_sequence_crmapi.Transfers.Uploading.upload_rows
    main_sequence_crmapi.Transfers.Parsing.parse_import_rows
    main_sequence_crmapi.Campaigns.Briefing.look
ready-commits = refl

opened-started : get opened.jobs 5 ≡ some started
unfolding main_sequence_crmapi.Common.get
opened-started = refl

closed-ended : get closed.jobs 5 ≡ some ended
unfolding main_sequence_crmapi.Common.get
closed-ended = refl

empty-AllSealed : AllSealed show_json key_of hash_row hash_seal any_affiliation empty_db
empty-AllSealed = none_sealed show_json key_of hash_row hash_seal any_affiliation empty_db refl

others_keep_example :
    (get
        (after (
          perform show_json key_of hash_row hash_seal any_affiliation 8
            (job_cancel 5 (some started))
            opened)).jobs
        5
      ≡ some started)
    × (rows_of
          (after (
            perform show_json key_of hash_row hash_seal any_affiliation 8
              (job_cancel 5 (some started))
              opened))
          5
        ≡ rows_of opened 5)
others_keep_example =
    others_keep show_json key_of hash_row hash_seal any_affiliation 8 (job_cancel 5 (some started))
      opened 5 started opened-started refl

terminal_changes_example :
    (k : Job) × (get
        (after (
          perform show_json key_of hash_row hash_seal any_affiliation 9
            (import_validate 5)
            closed)).jobs
        5
      ≡ some k)
    × (((k ≡ ended)
          × (rows_of
                (after (
                  perform show_json key_of hash_row hash_seal any_affiliation 9
                    (import_validate 5)
                    closed))
                5
              ≡ rows_of closed 5))
        ⊎ ((is_empty ended.mapping ≡ false)
            × (k ≡ assessed hash_seal any_affiliation ended (rows_of closed 5))
            × (is_terminal k.status ≡ false)))
terminal_changes_example =
    terminal_changes show_json key_of hash_row hash_seal any_affiliation 9 (import_validate 5)
      closed 5 ended closed-ended refl

run_sealed_example :
    AllSealed show_json key_of hash_row hash_seal any_affiliation
      (run show_json key_of hash_row hash_seal any_affiliation cmds empty_db)
run_sealed_example =
    run_sealed show_json key_of hash_row hash_seal any_affiliation cmds empty_db empty-AllSealed

strict_commit_checked_example :
    (j : Job) × (get ready.jobs 5 ≡ some j)
    × ((j.initiator_uid == 9) ≡ true)
    × ("abc" ≡ plan_seal hash_seal any_affiliation j (rows_of ready 5))
    × (any (has_issues any_affiliation) (rows_of ready 5) ≡ false)
    × (get (after (commit_import 9 5 commit_it (job_row ready 5 9) ready)).jobs 5
        ≡ some (moved queued false j))
strict_commit_checked_example =
    strict_commit_checked show_json key_of hash_row hash_seal any_affiliation cmds empty_db ready 9
      5 commit_it refl refl refl ready-commits

no_issues :
    any
      (has_issues any_affiliation)
      (staged_rows show_json key_of hash_row 5 file.entity_type 0 file.payloads)
    ≡ false
unfolding main_sequence_crmapi.Common.get main_sequence_crmapi.Common.put
    main_sequence_crmapi.Common.any main_sequence_crmapi.Common.keep
    main_sequence_crmapi.Common.row_where main_sequence_crmapi.Common.update_where
    main_sequence_crmapi.Common.count_where main_sequence_crmapi.Transfers.Jobs.job_row
    main_sequence_crmapi.Transfers.Jobs.create_import
    main_sequence_crmapi.Transfers.Jobs.save_mapping
    main_sequence_crmapi.Transfers.Jobs.commit_import main_sequence_crmapi.Transfers.Jobs.transition
    main_sequence_crmapi.Transfers.Uploads.staged_rows
    main_sequence_crmapi.Transfers.Uploads.stage_upload
    main_sequence_crmapi.Transfers.Planning.validate_import
    main_sequence_crmapi.Transfers.Planning.read_plan
    main_sequence_crmapi.Transfers.Assess.hashes_of main_sequence_crmapi.Transfers.Assess.row_issues
    main_sequence_crmapi.Transfers.Assess.assess_issues
    main_sequence_crmapi.Transfers.Assess.assess_decisions
    main_sequence_crmapi.Transfers.Assess.first main_sequence_crmapi.Transfers.Commands.perform
    main_sequence_crmapi.Transfers.Commands.run
    main_sequence_crmapi.Transfers.Uploading.upload_import
    main_sequence_crmapi.Transfers.Uploading.upload_rows
    main_sequence_crmapi.Transfers.Parsing.parse_import_rows
    main_sequence_crmapi.Campaigns.Briefing.look
no_issues = refl

abbrev prepared : Db
prepared = run show_json key_of hash_row hash_seal any_affiliation (path 9 5 file names) opened

import_queued_example :
    (k : Job) × (get (after (commit_import 9 5 commit_it (job_row prepared 5 9) prepared)).jobs 5
      ≡ some k)
    × (k.status ≡ queued)
import_queued_example =
    import_queued show_json key_of hash_row hash_seal any_affiliation 9 5 file names commit_it
      opened started opened-started refl refl refl no_issues refl refl refl

abbrev contacts_table : String → List Fields
contacts_table table = if str_eq table "contact" then ana ∷ [] else []

-- an order of the store: the first two groups change places
abbrev turned : Groups → Groups
turned [] = []
turned (g ∷ []) = g ∷ []
turned (g ∷ h ∷ groups) = h ∷ g ∷ groups

abbrev content : Content
content = record { size = 30; digest = "abc"; csv_rows = some (ana ∷ []); document = none }

abbrev adapter_named : String → Adapter
adapter_named name = generic_csv

abbrev stored_db : Db
stored_db = staged_db show_json key_of hash_row 5 file started opened

content-stored :
    upload_import show_json key_of hash_row adapter_named
      (λ capability. true)
      9
      5
      "people.csv"
      "text/csv"
      content
      opened
    ≡ stored (answered stored_db)
unfolding main_sequence_crmapi.Common.get main_sequence_crmapi.Common.put
    main_sequence_crmapi.Common.any main_sequence_crmapi.Common.keep
    main_sequence_crmapi.Common.row_where main_sequence_crmapi.Common.update_where
    main_sequence_crmapi.Common.count_where main_sequence_crmapi.Transfers.Jobs.job_row
    main_sequence_crmapi.Transfers.Jobs.create_import
    main_sequence_crmapi.Transfers.Jobs.save_mapping
    main_sequence_crmapi.Transfers.Jobs.commit_import main_sequence_crmapi.Transfers.Jobs.transition
    main_sequence_crmapi.Transfers.Uploads.staged_rows
    main_sequence_crmapi.Transfers.Uploads.stage_upload
    main_sequence_crmapi.Transfers.Planning.validate_import
    main_sequence_crmapi.Transfers.Planning.read_plan
    main_sequence_crmapi.Transfers.Assess.hashes_of main_sequence_crmapi.Transfers.Assess.row_issues
    main_sequence_crmapi.Transfers.Assess.assess_issues
    main_sequence_crmapi.Transfers.Assess.assess_decisions
    main_sequence_crmapi.Transfers.Assess.first main_sequence_crmapi.Transfers.Commands.perform
    main_sequence_crmapi.Transfers.Commands.run
    main_sequence_crmapi.Transfers.Uploading.upload_import
    main_sequence_crmapi.Transfers.Uploading.upload_rows
    main_sequence_crmapi.Transfers.Parsing.parse_import_rows
    main_sequence_crmapi.Campaigns.Briefing.look
content-stored = refl

upload_bounded_example :
    (j : Job) × (rows : List Fields) × (entity : String) × (job_row opened 5 9 ≡ some j)
    × (parse_import_rows (adapter_named j.adapter_id) j.manifest.entity_type content
        ≡ parsed rows entity)
    × (map (λ (r : StagedRow). r.raw_payload) (rows_of stored_db 5) ≡ rows)
    × (length (rows_of stored_db 5) ≡ length rows)
    × (length (rows_of stored_db 5) ≤ rows_max)
upload_bounded_example =
    upload_bounded show_json key_of hash_row adapter_named (λ capability. true) 9 5 "people.csv"
      "text/csv" content opened stored_db content-stored

abbrev partial_job : Job
partial_job = record started { status = partial; mapping = names }

abbrev running_job : Job
running_job = record started { status = running; mapping = names }

abbrev half_done : Db
half_done = record { jobs = (5, partial_job) ∷ []; rows = []; connections = [] }

abbrev ready_job : Job
ready_job =
    assessed hash_seal any_affiliation
      (mapped names (uploaded show_json key_of hash_row file started))
      (staged_rows show_json key_of hash_row 5 file.entity_type 0 file.payloads)

abbrev judged_db : Db
judged_db = record { jobs = (5, ready_job) ∷ []; rows = []; connections = [] }

judged-ready : job_row judged_db 5 9 ≡ some ready_job
unfolding main_sequence_crmapi.Common.get main_sequence_crmapi.Common.put
    main_sequence_crmapi.Common.any main_sequence_crmapi.Common.keep
    main_sequence_crmapi.Common.row_where main_sequence_crmapi.Common.update_where
    main_sequence_crmapi.Common.count_where main_sequence_crmapi.Transfers.Jobs.job_row
    main_sequence_crmapi.Transfers.Jobs.create_import
    main_sequence_crmapi.Transfers.Jobs.save_mapping
    main_sequence_crmapi.Transfers.Jobs.commit_import main_sequence_crmapi.Transfers.Jobs.transition
    main_sequence_crmapi.Transfers.Uploads.staged_rows
    main_sequence_crmapi.Transfers.Uploads.stage_upload
    main_sequence_crmapi.Transfers.Planning.validate_import
    main_sequence_crmapi.Transfers.Planning.read_plan
    main_sequence_crmapi.Transfers.Assess.hashes_of main_sequence_crmapi.Transfers.Assess.row_issues
    main_sequence_crmapi.Transfers.Assess.assess_issues
    main_sequence_crmapi.Transfers.Assess.assess_decisions
    main_sequence_crmapi.Transfers.Assess.first main_sequence_crmapi.Transfers.Commands.perform
    main_sequence_crmapi.Transfers.Commands.run
    main_sequence_crmapi.Transfers.Uploading.upload_import
    main_sequence_crmapi.Transfers.Uploading.upload_rows
    main_sequence_crmapi.Transfers.Parsing.parse_import_rows
    main_sequence_crmapi.Campaigns.Briefing.look
judged-ready = refl

judged-commits : is_answered (commit_import 9 5 commit_it (some ready_job) judged_db) ≡ true
unfolding main_sequence_crmapi.Common.get main_sequence_crmapi.Common.put
    main_sequence_crmapi.Common.any main_sequence_crmapi.Common.keep
    main_sequence_crmapi.Common.row_where main_sequence_crmapi.Common.update_where
    main_sequence_crmapi.Common.count_where main_sequence_crmapi.Transfers.Jobs.job_row
    main_sequence_crmapi.Transfers.Jobs.create_import
    main_sequence_crmapi.Transfers.Jobs.save_mapping
    main_sequence_crmapi.Transfers.Jobs.commit_import main_sequence_crmapi.Transfers.Jobs.transition
    main_sequence_crmapi.Transfers.Uploads.staged_rows
    main_sequence_crmapi.Transfers.Uploads.stage_upload
    main_sequence_crmapi.Transfers.Planning.validate_import
    main_sequence_crmapi.Transfers.Planning.read_plan
    main_sequence_crmapi.Transfers.Assess.hashes_of main_sequence_crmapi.Transfers.Assess.row_issues
    main_sequence_crmapi.Transfers.Assess.assess_issues
    main_sequence_crmapi.Transfers.Assess.assess_decisions
    main_sequence_crmapi.Transfers.Assess.first main_sequence_crmapi.Transfers.Commands.perform
    main_sequence_crmapi.Transfers.Commands.run
    main_sequence_crmapi.Transfers.Uploading.upload_import
    main_sequence_crmapi.Transfers.Uploading.upload_rows
    main_sequence_crmapi.Transfers.Parsing.parse_import_rows
    main_sequence_crmapi.Campaigns.Briefing.look
judged-commits = refl

judged-takes : takes_mapping ready_job.status ≡ true
unfolding main_sequence_crmapi.Common.get main_sequence_crmapi.Common.put
    main_sequence_crmapi.Common.any main_sequence_crmapi.Common.keep
    main_sequence_crmapi.Common.row_where main_sequence_crmapi.Common.update_where
    main_sequence_crmapi.Common.count_where main_sequence_crmapi.Transfers.Jobs.job_row
    main_sequence_crmapi.Transfers.Jobs.create_import
    main_sequence_crmapi.Transfers.Jobs.save_mapping
    main_sequence_crmapi.Transfers.Jobs.commit_import main_sequence_crmapi.Transfers.Jobs.transition
    main_sequence_crmapi.Transfers.Uploads.staged_rows
    main_sequence_crmapi.Transfers.Uploads.stage_upload
    main_sequence_crmapi.Transfers.Planning.validate_import
    main_sequence_crmapi.Transfers.Planning.read_plan
    main_sequence_crmapi.Transfers.Assess.hashes_of main_sequence_crmapi.Transfers.Assess.row_issues
    main_sequence_crmapi.Transfers.Assess.assess_issues
    main_sequence_crmapi.Transfers.Assess.assess_decisions
    main_sequence_crmapi.Transfers.Assess.first main_sequence_crmapi.Transfers.Commands.perform
    main_sequence_crmapi.Transfers.Commands.run
    main_sequence_crmapi.Transfers.Uploading.upload_import
    main_sequence_crmapi.Transfers.Uploading.upload_rows
    main_sequence_crmapi.Transfers.Parsing.parse_import_rows
    main_sequence_crmapi.Campaigns.Briefing.look
judged-takes = refl

commit_unplanned_example :
    (k : Job) × (get
        (after (
          commit_import 9 5 commit_it
            (some ready_job)
            (after (save_mapping 9 5 names judged_db)))).jobs
        5
      ≡ some k)
    × (k.status ≡ queued)
    × (k.plan_hash ≡ none)
commit_unplanned_example =
    commit_unplanned 9 5 commit_it names judged_db ready_job judged-ready refl judged-takes
      judged-commits
