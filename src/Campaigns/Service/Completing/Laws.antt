-- ===== src/Campaigns/Service/Completing/Laws.antt =====
-- What an accepted completion of src/crm/campaigns/service.py has checked, and what becomes of a result that was
-- prepared against an older briefing.
use main_sequence_crmapi.Campaigns.Service.Completing.{
  same_prepared, prompt_of, routes_from, check_result, validate_completion, from_complete,
  from_record, stale_command, store_command, finish_work, complete_work, PreparedWith,
  CompleteCommand, CurrentPrompt, Verdict, no_prompt, archived_prompt, current_prompt, fails,
  passes, accepted_work, kept_stale,
}
use main_sequence_crmapi.Common.{
  str_mem, any, ℕ, String, ◌≡◌, refl, ◌∙◌, inl, inr, Bool, true, false, some, List, [], ◌++◌, arith,
  Bool-cases, Option-cases,
}
use main_sequence_crmapi.Campaigns.Models.{outcome_keys}
use main_sequence_crmapi.Campaigns.Briefing.{validate_result, Json}
use main_sequence_crmapi.Campaigns.Store.Rows.{
  is_open, is_running, is_live, ProgressRow, PromptRow, StepPromptRow, Db, Caller, Written,
  state_blocked, accepted,
}
use main_sequence_crmapi.Campaigns.Service.Recording.{
  context_of, context_progress, find-recorded, Context,
}
use main_sequence_crmapi.Campaigns.Store.Progression.{routed, complete}
use main_sequence_crmapi.Campaigns.Store.Records.{
  merge, enrolled_at, recorded_progress, record_progress, Record,
}
use main_sequence_crmapi.Campaigns.Service.Advancing.{progress_of}

same_prepared_sound : (a b : PreparedWith) → same_prepared a b ≡ true → a ≡ b
same_prepared_sound a b h = ground arith

-- the guards of the campaign, the step, the work, the outcome and the route
pub passes_guards :
    (is_datetime : String → Bool) (db : Db) (context : Context) (step : ℕ) (outcome : String)
    (result : List (String × Json)) (current : PreparedWith)
    → validate_completion is_datetime db context step outcome result ≡ passes current
    → (is_running context.campaign.status ≡ true)
      × (is_live context.campaign.archived_at ≡ true)
      × (is_live context.step.archived_at ≡ true)
      × (is_open context.progress.state ≡ true)
      × (str_mem outcome (outcome_keys context.step.fields) ≡ true)
      × (any (routes_from context.participant.campaign_uid step outcome) db.transitions ≡ true)
      × (check_result is_datetime context result
            (prompt_of db context.step context.progress.prompt_assignment)
          ≡ passes current)
unfolding main_sequence_crmapi.Campaigns.Service.Completing.validate_completion
passes_guards is_datetime db context step outcome result current h = ground (arith, h)

pub passes_result :
    (is_datetime : String → Bool) (context : Context) (result : List (String × Json))
    (now : CurrentPrompt) (current : PreparedWith)
    → check_result is_datetime context result now ≡ passes current
    → (uid : ℕ) × (p : PromptRow) × (sp : StepPromptRow) × (now ≡ current_prompt uid p sp)
      × (validate_result is_datetime result sp.result_fields ≡ [])
      × (current ≡ record {
        campaign_version = context.campaign.version;
        step_version = context.step.version;
        prompt_uid = uid;
        prompt_version = p.version;
      })
unfolding main_sequence_crmapi.Campaigns.Service.Completing.check_result
passes_result is_datetime context result (no_prompt code) current h = ground (arith, h)
passes_result is_datetime context result (archived_prompt uid p sp) current h = ground (arith, h)
passes_result is_datetime context result (current_prompt uid p sp) current h =
    (uid, p, sp, refl, ground (arith, h), ground (arith, h))

complete_accepted :
    (w : Written) (new : Db) → from_complete w ≡ accepted_work new → w ≡ accepted new
complete_accepted w new h = ground (arith, h)

record_not_done : (w : Written) (new : Db) → from_record w ≡ accepted_work new → false ≡ true
record_not_done w new h = ground (arith, h)

-- an accepted completion passed the checks with the versions that it was prepared with
finish_cases :
    (is_datetime : String → Bool) (store_result : List (String × Json) → List (String × String))
    (prepared_text : PreparedWith → String) (who : Caller) (cmd : CompleteCommand)
    (context : Context) (db new : Db) (v : Verdict)
    → finish_work is_datetime store_result prepared_text who cmd context db v ≡ accepted_work new
    → (current : PreparedWith) × (v ≡ passes current)
      × (same_prepared cmd.prepared_with current ≡ true)
      × (complete who (store_command is_datetime store_result prepared_text cmd context current) db
          ≡ accepted new)
unfolding main_sequence_crmapi.Campaigns.Service.Completing.finish_work
finish_cases is_datetime store_result prepared_text who cmd context db new (fails why) h =
    ground (arith, h)
finish_cases is_datetime store_result prepared_text who cmd context db new (passes current) h =
    elim (Bool-cases (same_prepared cmd.prepared_with current)) [
      | inl e ↦ (
        current,
        refl,
        e,
        complete_accepted
            (complete who (store_command is_datetime store_result prepared_text cmd context current)
              db)
            new (ground (arith, h, e)),
      )
      | inr e ↦ ground (
        arith,
        h,
        e,
        record_not_done
            (record_progress who (stale_command is_datetime store_result prepared_text cmd) db) new,
      )
    ]

-- When complete of the service accepts a result, the campaign was active, the step was not retired, the
-- work was open, the outcome is one of the step's and has a connection, the assigned variant has a prompt
-- that is not archived, the result has no problem with the fields that this prompt declares now, the
-- briefing was prepared with the current versions, and the database is the one after the accepted write.
pub complete_checked :
    (is_datetime : String → Bool) (store_result : List (String × Json) → List (String × String))
    (prepared_text : PreparedWith → String) (can : String → Bool) (who : Caller)
    (cmd : CompleteCommand) (db new : Db)
    → complete_work is_datetime store_result prepared_text can who cmd db ≡ accepted_work new
    → (context : Context) × (uid : ℕ) × (p : PromptRow) × (sp : StepPromptRow) × (context_of db
          cmd.participant_uid cmd.step_uid
        ≡ some context)
      × (is_running context.campaign.status ≡ true)
      × (is_live context.campaign.archived_at ≡ true)
      × (is_live context.step.archived_at ≡ true)
      × (is_open context.progress.state ≡ true)
      × (str_mem cmd.outcome_key (outcome_keys context.step.fields) ≡ true)
      × (any
            (routes_from context.participant.campaign_uid cmd.step_uid cmd.outcome_key)
            db.transitions
          ≡ true)
      × (prompt_of db context.step context.progress.prompt_assignment ≡ current_prompt uid p sp)
      × (validate_result is_datetime cmd.result sp.result_fields ≡ [])
      × (cmd.prepared_with ≡ record {
        campaign_version = context.campaign.version;
        step_version = context.step.version;
        prompt_uid = uid;
        prompt_version = p.version;
      })
      × (complete who
            (store_command is_datetime store_result prepared_text cmd context cmd.prepared_with)
            db
          ≡ accepted new)
unfolding main_sequence_crmapi.Campaigns.Service.Completing.complete_work
complete_checked is_datetime store_result prepared_text can who cmd db new h =
    elim (Option-cases (context_of db cmd.participant_uid cmd.step_uid)) [
      | inl e ↦ ground (arith, h, e)
      | inr (context, e) ↦
          let verdict : Verdict =
            validate_completion is_datetime db context cmd.step_uid cmd.outcome_key cmd.result in
          let reached : finish_work is_datetime store_result prepared_text who cmd context db
                verdict
              ≡ accepted_work new =
            ground (arith, h, e) in
          let (current, passed, same_versions, written) =
            finish_cases is_datetime store_result prepared_text who cmd context db new verdict
              reached in
          let (running, unarchived, live, still_open, known, routed, checked) =
            passes_guards is_datetime db context cmd.step_uid cmd.outcome_key cmd.result current
              passed in
          let (uid, p, sp, now, quiet, versions) =
            passes_result is_datetime context cmd.result
              (prompt_of db context.step context.progress.prompt_assignment) current checked in
          let same_current = same_prepared_sound cmd.prepared_with current same_versions in
          (
            context,
            uid,
            p,
            sp,
            e,
            running,
            unarchived,
            live,
            still_open,
            known,
            routed,
            now,
            quiet,
            same_current ∙ versions,
            rw (same_current) written,
          )
    ]

record_kept : (w : Written) (new : Db) → from_record w ≡ kept_stale new → w ≡ accepted new
record_kept w new h = ground (arith, h)

complete_not_kept : (w : Written) (new : Db) → from_complete w ≡ kept_stale new → false ≡ true
complete_not_kept w new h = ground (arith, h)

stale_cases :
    (is_datetime : String → Bool) (store_result : List (String × Json) → List (String × String))
    (prepared_text : PreparedWith → String) (who : Caller) (cmd : CompleteCommand)
    (context : Context) (db new : Db) (v : Verdict)
    → finish_work is_datetime store_result prepared_text who cmd context db v ≡ kept_stale new
    → (current : PreparedWith) × (v ≡ passes current)
      × (same_prepared cmd.prepared_with current ≡ false)
      × (record_progress who (stale_command is_datetime store_result prepared_text cmd) db
          ≡ accepted new)
unfolding main_sequence_crmapi.Campaigns.Service.Completing.finish_work
stale_cases is_datetime store_result prepared_text who cmd context db new (fails why) h =
    ground (arith, h)
stale_cases is_datetime store_result prepared_text who cmd context db new (passes current) h =
    let command : Record = stale_command is_datetime store_result prepared_text cmd in
    elim (Bool-cases (same_prepared cmd.prepared_with current)) [
      | inl e ↦ ground (
        arith,
        h,
        e,
        complete_not_kept
            (complete who (store_command is_datetime store_result prepared_text cmd context current)
              db)
            new,
      )
      | inr e ↦ (
        current,
        refl,
        e,
        record_kept (record_progress who command db) new (ground (arith, h, e)),
      )
    ]

-- the work at a step after an accepted record
recorded_there :
    (who : Caller) (cmd : Record) (db new : Db) (g : ProgressRow)
    → record_progress who cmd db ≡ accepted new
    → progress_of db cmd.participant_uid cmd.step_uid ≡ some g
    → is_open g.state ≡ true
    → progress_of new cmd.participant_uid cmd.step_uid ≡ some (recorded_progress cmd g)
unfolding main_sequence_crmapi.Campaigns.Store.Records.record_progress
recorded_there who cmd db new g h there still_open =
    elim (Option-cases (enrolled_at db cmd.participant_uid cmd.expected_version)) [
      | inl e ↦ ground (arith, h, e)
      | inr (p, e) ↦ ground (arith, h, e, there, still_open, find-recorded cmd db.progress)
    ]

-- When complete of the service does not accept a result because the briefing was prepared with other
-- versions, the result is not lost: the work at the step was open, and is blocked now, for that reason,
-- with the result put over the one that it had, its outcome, and the evidence of both, however many
-- items that is: no bound on them is tested here.
pub stale_kept :
    (is_datetime : String → Bool) (store_result : List (String × Json) → List (String × String))
    (prepared_text : PreparedWith → String) (can : String → Bool) (who : Caller)
    (cmd : CompleteCommand) (db new : Db)
    → complete_work is_datetime store_result prepared_text can who cmd db ≡ kept_stale new
    → (g : ProgressRow) × (k : ProgressRow) × (progress_of db cmd.participant_uid cmd.step_uid
        ≡ some g)
      × (is_open g.state ≡ true)
      × (progress_of new cmd.participant_uid cmd.step_uid ≡ some k)
      × (k.state ≡ state_blocked)
      × (k.blocked_reason ≡ some "stale_briefing")
      × (k.result ≡ merge g.result (store_result cmd.result))
      × (k.outcome_key ≡ some cmd.outcome_key)
      × (k.evidence ≡ g.evidence ++ cmd.evidence)
unfolding main_sequence_crmapi.Campaigns.Service.Completing.complete_work
stale_kept is_datetime store_result prepared_text can who cmd db new h =
    elim (Option-cases (context_of db cmd.participant_uid cmd.step_uid)) [
      | inl e ↦ ground (arith, h, e)
      | inr (context, e) ↦
          let verdict : Verdict =
            validate_completion is_datetime db context cmd.step_uid cmd.outcome_key cmd.result in
          let reached : finish_work is_datetime store_result prepared_text who cmd context db
                verdict
              ≡ kept_stale new =
            ground (arith, h, e) in
          let (current, passed, other_versions, written) =
            stale_cases is_datetime store_result prepared_text who cmd context db new verdict
              reached in
          let (_, _, _, still_open, _, _, _) =
            passes_guards is_datetime db context cmd.step_uid cmd.outcome_key cmd.result current
              passed in
          let there = context_progress db cmd.participant_uid cmd.step_uid context e in
          let command : Record = stale_command is_datetime store_result prepared_text cmd in
          (
            context.progress,
            recorded_progress command context.progress,
            there,
            still_open,
            recorded_there who command db new context.progress written there still_open,
            refl,
            refl,
            refl,
            refl,
            refl,
          )
    ]
