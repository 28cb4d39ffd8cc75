-- ===== src/Campaigns/Store/Laws/Versions.antt =====
-- The rows of a participant over the writes of src/crm/repositories/campaigns.py.
use main_sequence_crmapi.Common.{
  get, put, update_rows, ℕ, ◌≤◌, ◌≡◌, ◌⊎◌, inl, inr, Bool, true, false, some, List, [], ◌∷◌, arith,
  Dict, has, get-put, get-update_rows, ◌==◌, Bool-cases,
}
use main_sequence_crmapi.Campaigns.Store.Rows.{after, is_enrolled, ParticipantRow, Db, Caller}
use main_sequence_crmapi.Campaigns.Store.Commands.{perform, run, Command}
use main_sequence_crmapi.Campaigns.Store.Laws.Steps.{settled, Step}
use main_sequence_crmapi.Campaigns.Store.Laws.Changes.{on_perform}

-- each participant keeps its row, or gets one that steps from it
unfoldable pub Moved : Dict ParticipantRow → Dict ParticipantRow → Type 0
Moved d e =
    (u : ℕ) (p : ParticipantRow)
    → get d u ≡ some p
    → (get e u ≡ some p) ⊎ ((q : ParticipantRow) × (get e u ≡ some q) × Step p q)

put_fresh-Moved :
    (d : Dict ParticipantRow) (uid : ℕ) (q : ParticipantRow)
    → has d uid ≡ false
    → settled q ≡ true
    → Moved d (put d uid q)
unfolding Moved
put_fresh-Moved d uid q fresh good u p h = inl (ground (arith, get-put d uid q u))

put-Moved :
    (d : Dict ParticipantRow) (uid : ℕ) (p q : ParticipantRow)
    → get d uid ≡ some p
    → Step p q
    → Moved d (put d uid q)
unfolding Moved
put-Moved d uid p q found moved u r h = elim (Bool-cases (uid == u)) [
  | inl e ↦
      let same : uid ≡ u = ground arith in
      let row : p ≡ r = ground (arith, same, found, h) in
      inr (q, ground (arith, get-put d uid q u), ground (arith, row, moved))
  | inr e ↦ inl (ground (arith, get-put d uid q u))
]

update-Moved :
    (d : Dict ParticipantRow) (test : ℕ → ParticipantRow → Bool)
    (f : ParticipantRow → ParticipantRow)
    → ((u : ℕ) (p : ParticipantRow) → test u p ≡ true → Step p (f p))
    → Moved d (update_rows test f d)
unfolding Moved
update-Moved d test f moved u p h = elim (Bool-cases (test u p)) [
  | inl e ↦ inr (f p, ground (arith, get-update_rows test f d u), moved u p e)
  | inr e ↦ inl (ground (arith, get-update_rows test f d u))
]

pub perform-Moved :
    (who : Caller) (cmd : Command) (db : Db)
    → Moved db.participants ((after (perform who cmd db)).participants)
perform-Moved =
    on_perform Moved (λ d. unfold Moved in λ u p h. inl h) put_fresh-Moved put-Moved update-Moved

-- A participant that has completed its campaign or was withdrawn from it keeps its row, whatever
-- writes follow.
pub run_finished :
    (writes : List (Caller × Command)) (db : Db) (uid : ℕ) (p : ParticipantRow)
    → get db.participants uid ≡ some p
    → is_enrolled p.status ≡ false
    → get (run writes db).participants uid ≡ some p
unfolding Moved main_sequence_crmapi.Campaigns.Store.Commands.run
run_finished [] db uid p found over = found
run_finished ((who, cmd) ∷ writes) db uid p found over =
    elim (perform-Moved who cmd db uid p found) [
      | inl kept ↦ run_finished writes (after (perform who cmd db)) uid p kept over
      | inr (q, at, moved) ↦ ground (arith, moved, over)
    ]

-- A participant stays, and its version never goes back.
pub run_version :
    (writes : List (Caller × Command)) (db : Db) (uid : ℕ) (p : ParticipantRow)
    → get db.participants uid ≡ some p
    → (q : ParticipantRow) × (get (run writes db).participants uid ≡ some q)
      × (p.version ≤ q.version)
unfolding Moved main_sequence_crmapi.Campaigns.Store.Commands.run
run_version [] db uid p found = (p, found, omega arith)
run_version ((who, cmd) ∷ writes) db uid p found = elim (perform-Moved who cmd db uid p found) [
  | inl kept ↦ run_version writes (after (perform who cmd db)) uid p kept
  | inr (q, at, moved) ↦
      let (r, there, more) = run_version writes (after (perform who cmd db)) uid q at in
      (r, there, omega (arith, more, moved.1))
]
