-- ===== src/Campaigns/Store/Laws/Retired.antt =====
-- save_graph of src/crm/repositories/campaigns.py, and the work at the steps that it changes.
use main_sequence_crmapi.Common.{
  any, find, update_where, ℕ, ◌≡◌, refl, inl, inr, Bool, true, false, ◌&&◌, ◌||◌, some, List, [],
  ◌∷◌, arith, if◌then◌else◌, Bool-cases, Option-cases,
}
use main_sequence_crmapi.Campaigns.Store.Rows.{
  after, is_accepted, is_workable, at_step, ProgressState, ProgressRow, Db, Caller, state_blocked,
  state_cancelled,
}
use main_sequence_crmapi.Campaigns.Store.Saving.{
  save_gate, in_campaign_of, on_retired, on_changed, affected, changed_work, save_graph, SaveGraph,
}

-- work at a step that the plan retires or changes, which its participant can still do
abbrev pub still_workable : SaveGraph → Db → ProgressRow → Bool
still_workable cmd db g =
    (on_retired cmd g || on_changed cmd g)
    && in_campaign_of db cmd.campaign_uid g.participant_uid
    && is_workable g.state

pub any-rewritten :
    (p test : ProgressRow → Bool) (f : ProgressRow → ProgressRow) (rows : List ProgressRow)
    → ((g : ProgressRow) → p (if test g then f g else g) ≡ false)
    → any p (update_where test f rows) ≡ false
unfolding main_sequence_crmapi.Common.any main_sequence_crmapi.Common.update_where
any-rewritten p test f [] h = refl
any-rewritten p test f (g ∷ rows) h = ground (arith, h g, any-rewritten p test f rows h)

stops :
    (cmd : SaveGraph) (db : Db) (g : ProgressRow)
    → still_workable cmd db (if affected cmd db g then changed_work cmd g else g) ≡ false
stops cmd db g = ground arith

-- the state of such work after the write
abbrev pub stopped_state : SaveGraph → ProgressRow → ProgressState
stopped_state cmd g =
    if cmd.cancel_retired_work && on_retired cmd g then state_cancelled else state_blocked

find-changed :
    (cmd : SaveGraph) (db : Db) (participant step : ℕ) (g : ProgressRow) (rows : List ProgressRow)
    → find (at_step participant step) rows ≡ some g
    → still_workable cmd db g ≡ true
    → find (at_step participant step) (update_where (affected cmd db) (changed_work cmd) rows)
      ≡ some (changed_work cmd g)
unfolding main_sequence_crmapi.Common.find main_sequence_crmapi.Common.update_where
find-changed cmd db participant step g [] there h = ground (arith, there)
find-changed cmd db participant step g (k ∷ rows) there h =
    elim (Bool-cases (at_step participant step k)) [
      | inl e ↦
          let is_it : k ≡ g = ground (arith, e, there) in rw (is_it) (ground (arith, is_it, e, h))
      | inr e ↦ ground (arith, e, there, h, find-changed cmd db participant step g rows)
    ]

-- When a saved graph is accepted, work of the campaign that was open or waiting at a step which the plan
-- retires or changes is there still, with its result and its evidence: it is cancelled when the plan
-- cancels the work at retired steps and its step is one of these, and blocked otherwise. No such work is
-- open or waiting after the write.
pub save_graph_stops :
    (who : Caller) (cmd : SaveGraph) (db : Db) (participant step : ℕ) (g : ProgressRow)
    → is_accepted (save_graph who cmd db) ≡ true
    → find (at_step participant step) db.progress ≡ some g
    → still_workable cmd db g ≡ true
    → (any (still_workable cmd db) (after (save_graph who cmd db)).progress ≡ false)
      × (k : ProgressRow) × (find
            (at_step participant step)
            (after (save_graph who cmd db)).progress
          ≡ some k)
      × (k.state ≡ stopped_state cmd g)
      × (k.result ≡ g.result)
      × (k.evidence ≡ g.evidence)
unfolding main_sequence_crmapi.Campaigns.Store.Saving.save_graph
save_graph_stops who cmd db participant step g h there open_work =
    elim (Option-cases (save_gate cmd db)) [
      | inl e ↦ ground (arith, h, e)
      | inr (c, e) ↦
          rw (after, e)
            (
              any-rewritten (still_workable cmd db) (affected cmd db) (changed_work cmd) db.progress
                  (stops cmd db),
              changed_work cmd g,
              find-changed cmd db participant step g db.progress there open_work,
              ground (arith, open_work),
              refl,
              refl,
            )
    ]
