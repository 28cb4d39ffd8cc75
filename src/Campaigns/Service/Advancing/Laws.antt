-- ===== src/Campaigns/Service/Advancing/Laws.antt =====
-- The guards of `advance` of src/crm/campaigns/service.py against the tests of the write.
use main_sequence_crmapi.Common.{
  get, row_where, any, ℕ, String, ◌≡◌, inl, inr, Bool, true, false, ◌&&◌, some, List, arith, ◌==◌,
  Bool-cases, Option-cases, find-none-any,
}
use main_sequence_crmapi.Campaigns.Models.{PromptVariant, PromptComparison}
use main_sequence_crmapi.Campaigns.Briefing.{choose_variant}
use main_sequence_crmapi.Campaigns.Store.Rows.{
  is_active, is_live, at_step, CampaignRow, StepRow, ParticipantRow, Db, Caller,
}
use main_sequence_crmapi.Campaigns.Store.Progression.{is_eligible, campaign_live}
use main_sequence_crmapi.Campaigns.Service.{
  forbidden, not_runnable, lost, unknown_row, key_taken, invalid, bad_result,
}
use main_sequence_crmapi.Campaigns.Service.Advancing.{
  progress_of, assign, start_step, advance_participant, Advanced, created, existing, stopped,
  crashed,
}

abbrev pub is_lost : Advanced → Bool
is_lost (created db) = false
is_lost (existing db) = false
is_lost (stopped forbidden db) = false
is_lost (stopped not_runnable db) = false
is_lost (stopped lost db) = true
is_lost (stopped unknown_row db) = false
is_lost (stopped key_taken db) = false
is_lost (stopped (bad_result problems) db) = false
is_lost (stopped (invalid path code) db) = false
is_lost (crashed db) = false

module _ (can : String → Bool) (comparison_text : PromptComparison → List PromptVariant → String)
    (point : ℕ) (who : Caller) (task : ℕ) (uid expected : ℕ) (db : Db) where
  assign_accepts :
      (p : ParticipantRow) (c : CampaignRow) (step : ℕ) (s : StepRow) (v : PromptVariant)
      → get db.participants uid ≡ some p
      → (p.version == expected) ≡ true
      → is_active p.status ≡ true
      → p.next_step_uid ≡ some step
      → is_eligible p.eligible_at who.now ≡ true
      → campaign_live db p.campaign_uid ≡ some c
      → row_where (λ r. r.campaign_uid == p.campaign_uid && is_live r.archived_at) db.steps step
        ≡ some s
      → any (at_step uid step) db.progress ≡ false
      → is_lost (assign can comparison_text point who.now who task uid expected db db step s v)
        ≡ false
  unfolding main_sequence_crmapi.Campaigns.Service.Advancing.assign
      main_sequence_crmapi.Campaigns.Store.Progression.advance
      main_sequence_crmapi.Campaigns.Store.Progression.advance_gate
      main_sequence_crmapi.Common.row_where
  assign_accepts p c step s v found same running next eligible live row fresh =
      ground (arith, found, same, running, next, eligible, live, row, fresh)

  start_not_lost :
      (p : ParticipantRow) (step : ℕ)
      → get db.participants uid ≡ some p
      → (p.version == expected) ≡ true
      → is_active p.status ≡ true
      → p.next_step_uid ≡ some step
      → is_eligible p.eligible_at who.now ≡ true
      → any (at_step uid step) db.progress ≡ false
      → is_lost (start_step can comparison_text point who.now who task uid expected db db p step)
        ≡ false
  unfolding main_sequence_crmapi.Campaigns.Service.Advancing.start_step
  start_not_lost p step found same running next eligible fresh =
      elim (Option-cases (campaign_live db p.campaign_uid)) [
        | inl e ↦ ground (arith, e)
        | inr (c, e) ↦
            elim (Option-cases (
              row_where (λ r. r.campaign_uid == p.campaign_uid && is_live r.archived_at) db.steps
                step)) [
                  | inl f ↦ ground (arith, e, f)
                  | inr (s, f) ↦
                      elim (Option-cases (choose_variant s.fields.prompt_variants point)) [
                        | inl g ↦ ground (arith, e, f, g)
                        | inr (v, g) ↦ ground (
                          arith,
                          e,
                          f,
                          g,
                          assign_accepts p c step s v found same running next eligible e f fresh,
                        )
                      ]
                ]
      ]

  -- When advance raises a conflict, and nothing changes between its reads and its write, whose clocks agree,
  -- there is a participant with the UUID, and its version is not the
  -- one that the caller expects.
  pub advance_lost_stale :
      is_lost (advance_participant can comparison_text point who.now who task uid expected db db)
        ≡ true
      → (p : ParticipantRow) × (get db.participants uid ≡ some p)
        × ((p.version == expected) ≡ false)
  unfolding main_sequence_crmapi.Campaigns.Service.Advancing.advance_participant
      main_sequence_crmapi.Campaigns.Service.Advancing.advance_to
  advance_lost_stale h = elim (Option-cases (get db.participants uid)) [
    | inl e ↦ ground (arith, e, h)
    | inr (p, e) ↦ elim (Bool-cases (p.version == expected)) [
      | inr f ↦ (p, e, f)
      | inl f ↦ elim (Bool-cases (is_active p.status)) [
        | inr g ↦ ground (arith, e, f, g, h)
        | inl g ↦ elim (Option-cases p.next_step_uid) [
          | inl n ↦ ground (arith, e, f, g, n, h)
          | inr (step, n) ↦ elim (Option-cases (progress_of db uid step)) [
            | inr (row, k) ↦ ground (arith, e, f, g, n, k, h)
            | inl k ↦ elim (Bool-cases (is_eligible p.eligible_at who.now)) [
              | inr m ↦ ground (arith, e, f, g, n, k, m, h)
              | inl m ↦ ground (
                arith,
                e,
                f,
                g,
                n,
                k,
                m,
                h,
                start_not_lost p step e f g n m (find-none-any (at_step uid step) db.progress k),
              )
            ]
          ]
        ]
      ]
    ]
  ]
