-- ===== src/Campaigns/Store/Laws/Stale.antt =====
-- The version that a write of src/crm/repositories/campaigns.py expects of a participant.
use main_sequence_crmapi.Common.{
  get, ℕ, suc, ◌≡◌, inl, inr, true, false, Option, none, some, List, arith, get-put, Bool-cases,
  Option-cases,
}
use main_sequence_crmapi.Campaigns.Store.Rows.{after, is_accepted, ParticipantRow, Db, Caller}
use main_sequence_crmapi.Campaigns.Store.Participants.{
  update_locked, participant_changed, update_participant, ParticipantChanges,
}
use main_sequence_crmapi.Campaigns.Store.Progression.{
  advance_gate, bump, advance, complete_gate, routed, complete, Advance, Complete,
}
use main_sequence_crmapi.Campaigns.Store.Records.{enrolled_at, record_progress, Record}
use main_sequence_crmapi.Campaigns.Store.Reconcile.{
  reconcile_reopen, cancel_gate, cancelled_participant, reconcile_cancel, Reopen, Cancel,
}
use main_sequence_crmapi.Campaigns.Store.Commands.{
  perform, run, Command, campaign_create, campaign_update, campaign_archive, participant_create,
  participant_update, work_advance, work_complete, work_record, work_reopen, work_cancel,
  task_settle, graph_save, prompt_create, prompt_specialize, prompt_update,
}
use main_sequence_crmapi.Campaigns.Store.Laws.Gates.{
  update_locked_sound, enrolled_at_sound, advance_gate_sound, complete_gate_sound,
  cancel_gate_sound,
}
use main_sequence_crmapi.Campaigns.Store.Laws.Steps.{changed-Step, routed-Step, cancelled-Step}
use main_sequence_crmapi.Campaigns.Store.Laws.Versions.{run_version}

-- the participant that a command is about, and the version that it expects
abbrev pub target : Command → Option (ℕ × ℕ)
target (campaign_create uid new) = none
target (campaign_update uid expected changes) = none
target (campaign_archive uid expected archived) = none
target (participant_create uid new) = none
target (participant_update uid expected changes) = some (uid, expected)
target (work_advance task cmd) = some (cmd.participant_uid, cmd.expected_version)
target (work_complete cmd) = some (cmd.participant_uid, cmd.expected_version)
target (work_record cmd) = some (cmd.participant_uid, cmd.expected_version)
target (work_reopen cmd) = some (cmd.participant_uid, cmd.expected_version)
target (work_cancel cmd) = some (cmd.participant_uid, cmd.expected_version)
target (task_settle uid expected settles) = none
target (graph_save cmd) = none
target (prompt_create uid new) = none
target (prompt_specialize uid expected new) = none
target (prompt_update uid expected changes) = none

-- the participant had the expected version before the write, and has the next one after it
abbrev Bumps : ℕ → ℕ → Db → Db → Type 0
Bumps uid expected db new =
    (p : ParticipantRow) × (q : ParticipantRow) × (get db.participants uid ≡ some p)
    × (p.version ≡ expected)
    × (get new.participants uid ≡ some q)
    × (q.version ≡ suc expected)

update_participant-Bumps :
    (who : Caller) (uid expected : ℕ) (changes : ParticipantChanges) (db : Db)
    → is_accepted (update_participant who uid expected changes db) ≡ true
    → Bumps uid expected db (after (update_participant who uid expected changes db))
unfolding main_sequence_crmapi.Campaigns.Store.Participants.update_participant
update_participant-Bumps who uid expected changes db h =
    elim (Option-cases (update_locked db uid expected changes)) [
      | inl e ↦ ground (arith, e)
      | inr (p, e) ↦
          let found = update_locked_sound db uid expected changes p e in
          let moved = changed-Step who changes p found.2 in
          (
            p,
            participant_changed who changes p,
            found.0,
            ground (arith, found),
            ground (arith, e, get-put db.participants uid (participant_changed who changes p) uid),
            ground (arith, found, moved),
          )
    ]

advance-Bumps :
    (who : Caller) (task : ℕ) (cmd : Advance) (db : Db)
    → is_accepted (advance who task cmd db) ≡ true
    → Bumps cmd.participant_uid cmd.expected_version db (after (advance who task cmd db))
unfolding main_sequence_crmapi.Campaigns.Store.Progression.advance
advance-Bumps who task cmd db h = elim (Option-cases (advance_gate who cmd db)) [
  | inl e ↦ ground (arith, e)
  | inr (gate, e) ↦
      let found = advance_gate_sound who cmd db gate e in
      (
        gate.participant,
        bump gate.participant,
        found.0,
        ground (arith, found),
        ground (
          arith,
          e,
          get-put db.participants cmd.participant_uid (bump gate.participant) cmd.participant_uid,
        ),
        ground (arith, found),
      )
]

complete-Bumps :
    (who : Caller) (cmd : Complete) (db : Db)
    → is_accepted (complete who cmd db) ≡ true
    → Bumps cmd.participant_uid cmd.expected_version db (after (complete who cmd db))
unfolding main_sequence_crmapi.Campaigns.Store.Progression.complete
complete-Bumps who cmd db h = elim (Option-cases (complete_gate cmd db)) [
  | inl e ↦ ground (arith, e)
  | inr (gate, e) ↦
      let found = complete_gate_sound cmd db gate e in
      let new : ParticipantRow =
        routed who gate.route.to_step_uid gate.route.delay_seconds gate.participant in
      let moved =
        routed-Step who gate.route.to_step_uid gate.route.delay_seconds gate.participant found.2 in
      (
        gate.participant,
        new,
        found.0,
        ground (arith, found),
        ground (arith, e, get-put db.participants cmd.participant_uid new cmd.participant_uid),
        ground (arith, found, moved),
      )
]

record-Bumps :
    (who : Caller) (cmd : Record) (db : Db)
    → is_accepted (record_progress who cmd db) ≡ true
    → Bumps cmd.participant_uid cmd.expected_version db (after (record_progress who cmd db))
unfolding main_sequence_crmapi.Campaigns.Store.Records.record_progress
record-Bumps who cmd db h =
    elim (Option-cases (enrolled_at db cmd.participant_uid cmd.expected_version)) [
      | inl e ↦ ground (arith, e)
      | inr (p, e) ↦
          let found = enrolled_at_sound db cmd.participant_uid cmd.expected_version p e in
          (
            p,
            bump p,
            found.0,
            ground (arith, found),
            ground (
              arith,
              e,
              get-put db.participants cmd.participant_uid (bump p) cmd.participant_uid,
            ),
            ground (arith, found),
          )
    ]

reopen-Bumps :
    (who : Caller) (cmd : Reopen) (db : Db)
    → is_accepted (reconcile_reopen who cmd db) ≡ true
    → Bumps cmd.participant_uid cmd.expected_version db (after (reconcile_reopen who cmd db))
unfolding main_sequence_crmapi.Campaigns.Store.Reconcile.reconcile_reopen
reopen-Bumps who cmd db h =
    elim (Option-cases (enrolled_at db cmd.participant_uid cmd.expected_version)) [
      | inl e ↦ ground (arith, e)
      | inr (p, e) ↦
          let found = enrolled_at_sound db cmd.participant_uid cmd.expected_version p e in
          (
            p,
            bump p,
            found.0,
            ground (arith, found),
            ground (
              arith,
              e,
              get-put db.participants cmd.participant_uid (bump p) cmd.participant_uid,
            ),
            ground (arith, found),
          )
    ]

cancel-Bumps :
    (who : Caller) (cmd : Cancel) (db : Db)
    → is_accepted (reconcile_cancel who cmd db) ≡ true
    → Bumps cmd.participant_uid cmd.expected_version db (after (reconcile_cancel who cmd db))
unfolding main_sequence_crmapi.Campaigns.Store.Reconcile.reconcile_cancel
cancel-Bumps who cmd db h = elim (Option-cases (cancel_gate cmd db)) [
  | inl e ↦ ground (arith, e)
  | inr (p, e) ↦
      let gate = cancel_gate_sound cmd db p e in
      let found = enrolled_at_sound db cmd.participant_uid cmd.expected_version p gate.0 in
      let moved = cancelled-Step who cmd p found.2 in
      let new : ParticipantRow = cancelled_participant who cmd p in
      (
        p,
        new,
        found.0,
        ground (arith, found),
        ground (arith, e, get-put db.participants cmd.participant_uid new cmd.participant_uid),
        ground (arith, found, moved),
      )
]

abbrev aim : ℕ → ℕ → Option (ℕ × ℕ)
aim uid expected = some (uid, expected)

same_target :
    (u e uid expected : ℕ) (db new : Db)
    → aim u e ≡ aim uid expected
    → Bumps u e db new
    → Bumps uid expected db new
same_target u e uid expected db new t (p, q, before, old, later, bumped) = (
  p,
  q,
  ground (arith, t, before),
  ground (arith, t, old),
  ground (arith, t, later),
  ground (arith, t, bumped),
)

-- An accepted write about a participant was made against the version that the participant had, and
-- raises that version by one.
pub accepted-Bumps :
    (who : Caller) (cmd : Command) (db : Db) (uid expected : ℕ)
    → target cmd ≡ some (uid, expected)
    → is_accepted (perform who cmd db) ≡ true
    → (p : ParticipantRow) × (q : ParticipantRow) × (get db.participants uid ≡ some p)
      × (p.version ≡ expected)
      × (get (after (perform who cmd db)).participants uid ≡ some q)
      × (q.version ≡ suc expected)
unfolding main_sequence_crmapi.Campaigns.Store.Commands.perform
accepted-Bumps who (campaign_create u new) db uid expected t h = ground (arith, t)
accepted-Bumps who (campaign_update u e changes) db uid expected t h = ground (arith, t)
accepted-Bumps who (campaign_archive u e archived) db uid expected t h = ground (arith, t)
accepted-Bumps who (participant_create u new) db uid expected t h = ground (arith, t)
accepted-Bumps who (participant_update u e changes) db uid expected t h =
    same_target u e uid expected db (after (update_participant who u e changes db)) t
      (update_participant-Bumps who u e changes db h)
accepted-Bumps who (work_advance task cmd) db uid expected t h =
    same_target cmd.participant_uid cmd.expected_version uid expected db
      (after (advance who task cmd db)) t (advance-Bumps who task cmd db h)
accepted-Bumps who (work_complete cmd) db uid expected t h =
    same_target cmd.participant_uid cmd.expected_version uid expected db
      (after (complete who cmd db)) t (complete-Bumps who cmd db h)
accepted-Bumps who (work_record cmd) db uid expected t h =
    same_target cmd.participant_uid cmd.expected_version uid expected db
      (after (record_progress who cmd db)) t (record-Bumps who cmd db h)
accepted-Bumps who (work_reopen cmd) db uid expected t h =
    same_target cmd.participant_uid cmd.expected_version uid expected db
      (after (reconcile_reopen who cmd db)) t (reopen-Bumps who cmd db h)
accepted-Bumps who (work_cancel cmd) db uid expected t h =
    same_target cmd.participant_uid cmd.expected_version uid expected db
      (after (reconcile_cancel who cmd db)) t (cancel-Bumps who cmd db h)
accepted-Bumps who (task_settle u e settles) db uid expected t h = ground (arith, t)
accepted-Bumps who (graph_save cmd) db uid expected t h = ground (arith, t)
accepted-Bumps who (prompt_create u new) db uid expected t h = ground (arith, t)
accepted-Bumps who (prompt_specialize u e new) db uid expected t h = ground (arith, t)
accepted-Bumps who (prompt_update u e changes) db uid expected t h = ground (arith, t)

-- Once a write about a participant was accepted at a version, no later write about it that expects
-- this version is accepted, whoever asks and whatever was written in between.
pub stale_write_refused :
    (who other : Caller) (cmd later : Command) (between : List (Caller × Command)) (db : Db)
    (uid expected : ℕ)
    → target cmd ≡ some (uid, expected)
    → target later ≡ some (uid, expected)
    → is_accepted (perform who cmd db) ≡ true
    → is_accepted (perform other later (run between (after (perform who cmd db)))) ≡ false
stale_write_refused who other cmd later between db uid expected t l h =
    let new : Db = after (perform who cmd db) in
    let (p, q, before, old, there, bumped) = accepted-Bumps who cmd db uid expected t h in
    let (r, still, more) = run_version between new uid q there in
    elim (Bool-cases (is_accepted (perform other later (run between new)))) [
      | inl again ↦
          let (a, b, found, version, _, _) =
            accepted-Bumps other later (run between new) uid expected l again in
          ground (arith, still, more, bumped, found, version)
      | inr none_left ↦ none_left
    ]
