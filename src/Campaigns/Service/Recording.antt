-- ===== src/Campaigns/Service/Recording.antt =====
-- `_record` of src/crm/campaigns/service.py, with `wait`, `block` and `report` that call it.
use main_sequence_crmapi.Common.{
  get, row_where, find, update_where, ℕ, ◌+◌, ◌≤◌, String, ◌≡◌, refl, inl, inr, Bool, true, not,
  Option, none, some, List, [], ◌∷◌, ◌++◌, arith, updated, ltb, ◌==◌, if◌then◌else◌, Bool-cases,
  Option-cases, length, length-append,
}
use main_sequence_crmapi.Campaigns.Models.{evidence_max}
use main_sequence_crmapi.Campaigns.Store.Rows.{
  after, is_open, at_step, CampaignRow, StepRow, ParticipantRow, ProgressRow, Db, Caller,
}
use main_sequence_crmapi.Campaigns.Store.Records.{
  open_at, recorded_progress, record_progress, Record,
}
use main_sequence_crmapi.Campaigns.Service.{
  is_answered, from_store, Answer, forbidden, lost, unknown_row, invalid, raised, answered,
}
use main_sequence_crmapi.Campaigns.Service.Advancing.{progress_of}

-- the rows of _context
pub record Context : Type 0 where
  pub participant : ParticipantRow
  pub progress : ProgressRow
  pub campaign : CampaignRow
  pub step : StepRow

unfoldable pub context_of : Db → ℕ → ℕ → Option Context
context_of db participant step = elim (get db.participants participant) [
  | none ↦ none
  | some p ↦ elim (progress_of db participant step) [
    | none ↦ none
    | some g ↦ elim (get db.campaigns p.campaign_uid) [
      | none ↦ none
      | some c ↦ elim (row_where (λ s. s.campaign_uid == p.campaign_uid) db.steps step) [
        | none ↦ none
        | some s ↦ some (record { participant = p; progress = g; campaign = c; step = s })
      ]
    ]
  ]
]

unfoldable pub record_work : (String → Bool) → Caller → Record → Db → Answer
record_work can who cmd db =
    if not (can "crm.edit")
    then raised forbidden db
    else elim (context_of db cmd.participant_uid cmd.step_uid) [
      | none ↦ raised unknown_row db
      | some context ↦
          if not (context.participant.version == cmd.expected_version)
          then raised lost db
          else if not (is_open context.progress.state)
          then raised (invalid "step_uid" "not_open") db
          else if ltb evidence_max (length context.progress.evidence + length cmd.evidence)
          then raised (invalid "evidence" "too_many") db
          else from_store (record_progress who cmd db)
    ]

pub context_progress :
    (db : Db) (participant step : ℕ) (context : Context)
    → context_of db participant step ≡ some context
    → progress_of db participant step ≡ some context.progress
unfolding context_of
context_progress db participant step context h = ground (arith, h)

-- the row at a step after the update of the open rows there
pub find-recorded :
    (cmd : Record) (rows : List ProgressRow)
    → find
        (at_step cmd.participant_uid cmd.step_uid)
        (update_where (open_at cmd.participant_uid cmd.step_uid) (recorded_progress cmd) rows)
      ≡ updated
          (λ g. is_open g.state)
          (recorded_progress cmd)
          (find (at_step cmd.participant_uid cmd.step_uid) rows)
unfolding main_sequence_crmapi.Common.find main_sequence_crmapi.Common.update_where
find-recorded cmd [] = refl
find-recorded cmd (r ∷ rows) = elim (Bool-cases (at_step cmd.participant_uid cmd.step_uid r)) [
  | inl e ↦ elim (Bool-cases (is_open r.state)) [
    | inl f ↦ ground (arith, e, f)
    | inr f ↦ ground (arith, e, f)
  ]
  | inr e ↦ ground (arith, e, find-recorded cmd rows)
]

-- When a wait, a block or a report is answered, the work at the step has the evidence that it had
-- and that of the command, and no more than the documented bound of it.
pub record_evidence_bounded :
    (can : String → Bool) (who : Caller) (cmd : Record) (db : Db)
    → is_answered (record_work can who cmd db) ≡ true
    → (g : ProgressRow) × (h : ProgressRow) × (progress_of db cmd.participant_uid cmd.step_uid
        ≡ some g)
      × (is_open g.state ≡ true)
      × (record_work can who cmd db ≡ answered (after (record_progress who cmd db)))
      × (progress_of (after (record_progress who cmd db)) cmd.participant_uid cmd.step_uid ≡ some h)
      × (h.evidence ≡ g.evidence ++ cmd.evidence)
      × (length h.evidence ≤ evidence_max)
unfolding record_work main_sequence_crmapi.Campaigns.Store.Records.record_progress
record_evidence_bounded can who cmd db answer =
    elim (Option-cases (context_of db cmd.participant_uid cmd.step_uid)) [
      | inl e ↦ ground (arith, e, answer)
      | inr (context, e) ↦
          let there = context_progress db cmd.participant_uid cmd.step_uid context e in
          let later = find-recorded cmd db.progress in
          (
            context.progress,
            recorded_progress cmd context.progress,
            there,
            ground (arith, e, answer),
            ground (arith, e, answer),
            ground (arith, e, answer, later, there),
            refl,
            ground (arith, e, answer, length-append context.progress.evidence cmd.evidence),
          )
    ]
