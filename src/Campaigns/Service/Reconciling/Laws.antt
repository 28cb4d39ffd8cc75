-- ===== src/Campaigns/Service/Reconciling/Laws.antt =====
-- What an answered `resume` of src/crm/campaigns/service.py has checked.
use main_sequence_crmapi.Campaigns.Service.Reconciling.{
  is_stuck, task_version_for, resume_with, resume_work, reconcile, ReconcileCommand, resume,
}
use main_sequence_crmapi.Common.{
  get, ℕ, String, ◌≡◌, refl, inl, inr, Bool, true, some, List, [], arith, Option-cases,
}
use main_sequence_crmapi.Campaigns.Briefing.{validate_result, Json}
use main_sequence_crmapi.Campaigns.Store.Rows.{
  is_running, is_live, TaskRow, PromptRow, StepPromptRow, Db, Caller, Written, accepted,
}
use main_sequence_crmapi.Campaigns.Store.Progression.{routed}
use main_sequence_crmapi.Campaigns.Service.{from_store, answered}
use main_sequence_crmapi.Campaigns.Service.Recording.{context_of, Context}
use main_sequence_crmapi.Campaigns.Service.Completing.{
  prompt_of, validate_completion, PreparedWith, Verdict, current_prompt, fails, passes,
}
use main_sequence_crmapi.Campaigns.Service.Completing.Laws.{passes_guards, passes_result}

store_done : (w : Written) (new : Db) → from_store w ≡ answered new → w ≡ accepted new
store_done w new h = ground (arith, h)

module _ (is_datetime : String → Bool) (load_result : List (String × String) → List (String × Json))
    (prepared_text : PreparedWith → String) where
  resume_passes :
      (who : Caller) (cmd : ReconcileCommand) (context : Context) (outcome : String) (n : ℕ)
      (db new : Db) (v : Verdict)
      → resume_with is_datetime load_result prepared_text who cmd context outcome n db v
        ≡ answered new
      → (current : PreparedWith) × (v ≡ passes current)
  resume_passes who cmd context outcome n db new (fails why) h = ground (arith, h)
  resume_passes who cmd context outcome n db new (passes current) h = (current, refl)

  -- the branch of resume, answered
  resume_answered :
      (who : Caller) (cmd : ReconcileCommand) (context : Context) (t : TaskRow) (db new : Db)
      → resume_work is_datetime load_result prepared_text who cmd context t db ≡ answered new
      → (outcome : String) × (current : PreparedWith) × (context.progress.outcome_key
          ≡ some outcome)
        × (is_stuck context.progress.state ≡ true)
        × (is_live t.archived_at ≡ true)
        × (validate_completion is_datetime db context cmd.step_uid outcome
              (load_result context.progress.result)
            ≡ passes current)
  unfolding main_sequence_crmapi.Campaigns.Service.Reconciling.resume_work
  resume_answered who cmd context t db new h = elim (Option-cases context.progress.outcome_key) [
    | inl e ↦ ground (arith, h, e)
    | inr (outcome, e) ↦
        let verdict : Verdict =
          validate_completion is_datetime db context cmd.step_uid outcome
            (load_result context.progress.result) in
        let n : ℕ = task_version_for cmd.task_expected_version t in
        let reached : resume_with is_datetime load_result prepared_text who cmd context outcome n db
              verdict
            ≡ answered new =
          ground (arith, h, e) in
        let (current, passed) = resume_passes who cmd context outcome n db new verdict reached in
        (outcome, current, e, ground (arith, h, e), ground (arith, h, e), passed)
  ]

  -- When reconcile answers a resume, the work was blocked and had an outcome, its task was not archived, the
  -- campaign was active and the step not retired, and the result that the work had has no problem with
  -- the fields that the prompt of the assigned variant declares now.
  pub resume_checked :
      (can : String → Bool) (who : Caller) (cmd : ReconcileCommand) (db new : Db)
      → cmd.action ≡ resume
      → reconcile is_datetime load_result prepared_text can who cmd db ≡ answered new
      → (context : Context) × (t : TaskRow) × (outcome : String) × (uid : ℕ) × (p : PromptRow)
        × (sp : StepPromptRow) × (context_of db cmd.participant_uid cmd.step_uid ≡ some context)
        × (get db.tasks context.progress.task_uid ≡ some t)
        × (context.progress.outcome_key ≡ some outcome)
        × (is_stuck context.progress.state ≡ true)
        × (is_live t.archived_at ≡ true)
        × (is_running context.campaign.status ≡ true)
        × (is_live context.step.archived_at ≡ true)
        × (prompt_of db context.step context.progress.prompt_assignment ≡ current_prompt uid p sp)
        × (validate_result is_datetime (load_result context.progress.result) sp.result_fields ≡ [])
  unfolding main_sequence_crmapi.Campaigns.Service.Reconciling.reconcile
      main_sequence_crmapi.Campaigns.Service.Reconciling.act
  resume_checked can who cmd db new resuming h =
      elim (Option-cases (context_of db cmd.participant_uid cmd.step_uid)) [
        | inl e ↦ ground (arith, h, e)
        | inr (context, e) ↦ elim (Option-cases (get db.tasks context.progress.task_uid)) [
          | inl f ↦ ground (arith, h, e, f)
          | inr (t, f) ↦
              let reached : resume_work is_datetime load_result prepared_text who cmd context t db
                  ≡ answered new =
                ground (arith, h, e, f, resuming) in
              let (outcome, current, has_outcome, stuck, live_task, passed) =
                resume_answered who cmd context t db new reached in
              let result : List (String × Json) = load_result context.progress.result in
              let (running, unarchived, live, still_open, known, routed, checked) =
                passes_guards is_datetime db context cmd.step_uid outcome result current passed in
              let (uid, p, sp, now, quiet, versions) =
                passes_result is_datetime context result
                  (prompt_of db context.step context.progress.prompt_assignment) current checked in
              (
                context, t, outcome, uid, p, sp, e, f, has_outcome, stuck, live_task, running, live,
                now, quiet,
              )
        ]
      ]
