-- ===== src/Campaigns/Store/Laws/Settled.antt =====
-- The status of a participant against its other columns, in src/crm/repositories/campaigns.py.
use main_sequence_crmapi.Common.{
  get, put, update_rows, ℕ, ◌≡◌, inl, inr, Bool, true, some, List, [], ◌∷◌, arith, Dict, get-put,
  get-update_rows, Option-cases,
}
use main_sequence_crmapi.Campaigns.Store.Rows.{after, ParticipantRow, Db, Caller}
use main_sequence_crmapi.Campaigns.Store.Commands.{perform, run, Command}
use main_sequence_crmapi.Campaigns.Store.Laws.Steps.{settled}
use main_sequence_crmapi.Campaigns.Store.Laws.Changes.{on_perform}

unfoldable pub AllSettled : Dict ParticipantRow → Type 0
AllSettled d = (uid : ℕ) (p : ParticipantRow) → get d uid ≡ some p → settled p ≡ true

put_keeps :
    (d : Dict ParticipantRow) (uid : ℕ) (p : ParticipantRow)
    → AllSettled d
    → settled p ≡ true
    → AllSettled (put d uid p)
unfolding AllSettled
put_keeps d uid p all good u q h = ground (arith, get-put d uid p u, all u q)

update_keeps :
    (test : ℕ → ParticipantRow → Bool) (f : ParticipantRow → ParticipantRow)
    (d : Dict ParticipantRow)
    → AllSettled d
    → ((u : ℕ) (p : ParticipantRow) → test u p ≡ true → settled p ≡ true → settled (f p) ≡ true)
    → AllSettled (update_rows test f d)
unfolding AllSettled
update_keeps test f d all keeps u q h = elim (Option-cases (get d u)) [
  | inl e ↦ ground (arith, get-update_rows test f d u)
  | inr (p, e) ↦ ground (arith, get-update_rows test f d u, all u p, keeps u p)
]

at_row :
    (d : Dict ParticipantRow) (uid : ℕ) (p : ParticipantRow)
    → AllSettled d
    → get d uid ≡ some p
    → settled p ≡ true
unfolding AllSettled
at_row d uid p all found = all uid p found

perform_keeps :
    (who : Caller) (cmd : Command) (db : Db)
    → AllSettled db.participants
    → AllSettled ((after (perform who cmd db)).participants)
perform_keeps =
    on_perform (λ d e. AllSettled d → AllSettled e) (λ d all. all)
      (λ d uid q fresh good all. put_keeps d uid q all good)
      (λ d uid p q found moved all. put_keeps d uid q all (moved.2 (at_row d uid p all found)))
      (λ d test f moved all. update_keeps test f d all (λ u p chosen. (moved u p chosen).2))

-- When every participant of the database is settled, every participant is settled after any
-- sequence of writes: the finished ones, and only these, have a time of finishing, and a finished
-- one has no next step.
pub run_settled :
    (writes : List (Caller × Command)) (db : Db)
    → AllSettled db.participants
    → AllSettled ((run writes db).participants)
unfolding main_sequence_crmapi.Campaigns.Store.Commands.run
run_settled [] db all = all
run_settled ((who, cmd) ∷ writes) db all =
    run_settled writes (after (perform who cmd db)) (perform_keeps who cmd db all)
