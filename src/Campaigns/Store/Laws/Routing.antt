-- ===== src/Campaigns/Store/Laws/Routing.antt =====
-- `complete` of src/crm/repositories/campaigns.py.
use main_sequence_crmapi.Common.{
  get, any, find, update_where, ℕ, ◌+◌, ◌≡◌, refl, inl, inr, true, false, Option, none, some, List,
  [], ◌∷◌, arith, is_some, get-put, if◌then◌else◌, Option-cases,
}
use main_sequence_crmapi.Campaigns.Store.Rows.{
  after, is_accepted, is_enrolled, is_active, at_step, TransitionRow, ParticipantRow, ProgressRow,
  TaskRow, Db, Caller,
}
use main_sequence_crmapi.Campaigns.Store.Progression.{
  is_route, complete_gate, task_to_settle, settled_task, completed_progress, routed, complete,
  Complete,
}
use main_sequence_crmapi.Campaigns.Store.Records.{open_at}
use main_sequence_crmapi.Campaigns.Store.Laws.Gates.{complete_gate_sound}

settled_work :
    (who : Caller) (cmd : Complete) (rows : List ProgressRow)
    → any
        (open_at cmd.participant_uid cmd.step_uid)
        (update_where (at_step cmd.participant_uid cmd.step_uid) (completed_progress who cmd) rows)
      ≡ false
unfolding main_sequence_crmapi.Common.any main_sequence_crmapi.Common.update_where
settled_work who cmd [] = refl
settled_work who cmd (g ∷ rows) = ground (arith, settled_work who cmd rows)

abbrev pub arrival : Caller → TransitionRow → Option ℕ
arrival who r = if is_some r.to_step_uid then some (who.now + r.delay_seconds) else none

routed_to :
    (who : Caller) (r : TransitionRow) (p : ParticipantRow)
    → is_active p.status ≡ true
    → ((routed who r.to_step_uid r.delay_seconds p).next_step_uid ≡ r.to_step_uid)
      × ((routed who r.to_step_uid r.delay_seconds p).eligible_at ≡ arrival who r)
      × (is_enrolled (routed who r.to_step_uid r.delay_seconds p).status ≡ is_some r.to_step_uid)
unfolding main_sequence_crmapi.Campaigns.Store.Progression.routed
routed_to who r p running = ground (arith, running)

-- An accepted completion takes the connection of the step for the outcome: the participant's next
-- step is the target of the connection, due after its delay, or the participant has left the enrolled
-- ones when the connection is a finish. The task has a time of completion, and no work of the
-- participant at the step is open.
pub complete_routes :
    (who : Caller) (cmd : Complete) (db : Db)
    → is_accepted (complete who cmd db) ≡ true
    → (r : TransitionRow) × (q : ParticipantRow) × (t : TaskRow) × (find
          (is_route cmd)
          db.transitions
        ≡ some r)
      × (get (after (complete who cmd db)).participants cmd.participant_uid ≡ some q)
      × (q.next_step_uid ≡ r.to_step_uid)
      × (q.eligible_at ≡ arrival who r)
      × (is_enrolled q.status ≡ is_some r.to_step_uid)
      × (get (after (complete who cmd db)).tasks cmd.task_uid ≡ some t)
      × (is_some t.completed_at ≡ true)
      × (any (open_at cmd.participant_uid cmd.step_uid) (after (complete who cmd db)).progress
          ≡ false)
unfolding main_sequence_crmapi.Campaigns.Store.Progression.complete
    main_sequence_crmapi.Campaigns.Store.Progression.route_of
complete_routes who cmd db h = elim (Option-cases (complete_gate cmd db)) [
  | inl e ↦ ground (arith, e)
  | inr (gate, e) ↦ elim (Option-cases (task_to_settle cmd db)) [
    | inl f ↦ ground (arith, e, f)
    | inr (t, f) ↦
        let found = complete_gate_sound cmd db gate e in
        let q : ParticipantRow =
          routed who gate.route.to_step_uid gate.route.delay_seconds gate.participant in
        let moved = routed_to who gate.route gate.participant found.2 in
        (
          gate.route,
          q,
          settled_task who t,
          ground (arith, found.3),
          ground (arith, e, f, get-put db.participants cmd.participant_uid q cmd.participant_uid),
          moved.0,
          moved.1,
          moved.2,
          ground (arith, e, f, get-put db.tasks cmd.task_uid (settled_task who t) cmd.task_uid),
          ground arith,
          ground (arith, e, f, settled_work who cmd db.progress),
        )
  ]
]
