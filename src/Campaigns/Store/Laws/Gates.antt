-- ===== src/Campaigns/Store/Laws/Gates.antt =====
-- The guarded searches of the writes of src/crm/repositories/campaigns.py.
use main_sequence_crmapi.Common.{get, any, ℕ, ◌≡◌, true, false, ◌||◌, some, arith, ◌==◌}
use main_sequence_crmapi.Campaigns.Store.Rows.{
  is_enrolled, is_active, at_step, ParticipantRow, Db, Caller,
}
use main_sequence_crmapi.Campaigns.Store.Participants.{
  reroute_gate, update_locked, ParticipantChanges,
}
use main_sequence_crmapi.Campaigns.Store.Progression.{
  is_step, advance_gate, route_of, has_open_work, complete_gate, Advance, AdvanceGate, Complete,
  CompleteGate,
}
use main_sequence_crmapi.Campaigns.Store.Records.{enrolled_at}
use main_sequence_crmapi.Campaigns.Store.Reconcile.{next_available, cancel_gate, Cancel}

pub update_locked_sound :
    (db : Db) (uid expected : ℕ) (changes : ParticipantChanges) (p : ParticipantRow)
    → update_locked db uid expected changes ≡ some p
    → (get db.participants uid ≡ some p)
      × ((p.version == expected) ≡ true)
      × (is_enrolled p.status ≡ true)
      × (reroute_gate db uid changes p ≡ true)
unfolding main_sequence_crmapi.Campaigns.Store.Participants.update_locked
    main_sequence_crmapi.Common.row_where
update_locked_sound db uid expected changes p h = ground arith

pub enrolled_at_sound :
    (db : Db) (uid expected : ℕ) (p : ParticipantRow)
    → enrolled_at db uid expected ≡ some p
    → (get db.participants uid ≡ some p)
      × ((p.version == expected) ≡ true)
      × (is_enrolled p.status ≡ true)
unfolding main_sequence_crmapi.Campaigns.Store.Records.enrolled_at
    main_sequence_crmapi.Common.row_where
enrolled_at_sound db uid expected p h = ground arith

pub advance_gate_sound :
    (who : Caller) (cmd : Advance) (db : Db) (gate : AdvanceGate)
    → advance_gate who cmd db ≡ some gate
    → (get db.participants cmd.participant_uid ≡ some gate.participant)
      × ((gate.participant.version == cmd.expected_version) ≡ true)
      × (is_active gate.participant.status ≡ true)
      × (is_step gate.participant.next_step_uid cmd.step_uid ≡ true)
      × (any (at_step cmd.participant_uid cmd.step_uid) db.progress ≡ false)
unfolding main_sequence_crmapi.Campaigns.Store.Progression.advance_gate
    main_sequence_crmapi.Common.row_where
advance_gate_sound who cmd db gate h = ground arith

pub complete_gate_sound :
    (cmd : Complete) (db : Db) (gate : CompleteGate)
    → complete_gate cmd db ≡ some gate
    → (get db.participants cmd.participant_uid ≡ some gate.participant)
      × ((gate.participant.version == cmd.expected_version) ≡ true)
      × (is_active gate.participant.status ≡ true)
      × (route_of cmd db gate.participant ≡ some gate.route)
      × (any (has_open_work cmd.participant_uid cmd.step_uid cmd.task_uid) db.progress ≡ true)
unfolding main_sequence_crmapi.Campaigns.Store.Progression.complete_gate
    main_sequence_crmapi.Common.row_where
complete_gate_sound cmd db gate h = ground arith

pub cancel_gate_sound :
    (cmd : Cancel) (db : Db) (p : ParticipantRow)
    → cancel_gate cmd db ≡ some p
    → (enrolled_at db cmd.participant_uid cmd.expected_version ≡ some p)
      × ((cmd.finish || next_available cmd db p.campaign_uid) ≡ true)
unfolding main_sequence_crmapi.Campaigns.Store.Reconcile.cancel_gate
cancel_gate_sound cmd db p h = ground arith
