-- ===== src/Campaigns/Store/Laws/Isolation.antt =====
-- save_graph of src/crm/repositories/campaigns.py, and the rows of the other campaigns.
use main_sequence_crmapi.Common.{
  get, put, update_rows, any, keep, update_where, ℕ, String, ◌≡◌, refl, sym, ◌∙◌, inl, inr, Bool,
  false, not, ◌&&◌, Option, some, List, [], ◌∷◌, arith, Dict, get-put, get-update_rows, ◌==◌,
  Bool-cases, Option-cases,
}
use main_sequence_crmapi.Campaigns.Store.Rows.{
  after, CampaignRow, StepRow, TransitionRow, ProgressRow, Db, Caller,
}
use main_sequence_crmapi.Campaigns.Store.Saving.{
  foreign_step, foreign_transition, save_gate, saved_step, save_steps, place, save_layout,
  save_transition, save_transitions, stays, in_campaign_of, affected, changed_work, save_graph,
  SaveGraph,
}
use main_sequence_crmapi.Campaigns.Models.{GraphStep, GraphTransition}

abbrev named : ℕ → GraphStep → Bool
named uid s = s.uid == uid

unnamed :
    (db : Db) (campaign uid : ℕ) (row : StepRow) (steps : List GraphStep)
    → get db.steps uid ≡ some row
    → (row.campaign_uid == campaign) ≡ false
    → any (foreign_step db campaign) steps ≡ false
    → any (named uid) steps ≡ false
unfolding main_sequence_crmapi.Common.any
unnamed db campaign uid row [] there other none_foreign = refl
unnamed db campaign uid row (s ∷ steps) there other none_foreign =
    elim (Bool-cases (s.uid == uid)) [
      | inl e ↦
          let same : s.uid ≡ uid = ground arith in
          let found : get db.steps s.uid ≡ some row = rw (same) there in ground (arith, found)
      | inr e ↦ ground (arith, unnamed db campaign uid row steps there other)
    ]

get-save_steps :
    (who : Caller) (campaign uid : ℕ) (steps : List GraphStep) (rows : Dict StepRow)
    → any (named uid) steps ≡ false
    → get (save_steps who campaign steps rows) uid ≡ get rows uid
unfolding main_sequence_crmapi.Common.any main_sequence_crmapi.Campaigns.Store.Saving.save_steps
get-save_steps who campaign uid [] rows h = refl
get-save_steps who campaign uid (s ∷ steps) rows h =
    let new : StepRow = saved_step who campaign s (get rows s.uid) in
    ground (
      arith,
      get-save_steps who campaign uid steps (put rows s.uid new),
      get-put rows s.uid new uid,
    )

get-save_layout :
    (campaign uid : ℕ) (row : StepRow) (layout : List (ℕ × Option String)) (rows : Dict StepRow)
    → get rows uid ≡ some row
    → (row.campaign_uid == campaign) ≡ false
    → get (save_layout campaign layout rows) uid ≡ some row
unfolding main_sequence_crmapi.Campaigns.Store.Saving.save_layout
get-save_layout campaign uid row [] rows there other = there
get-save_layout campaign uid row ((k, position) ∷ layout) rows there other =
    let moved : Dict StepRow =
      update_rows (λ j s. j == k && s.campaign_uid == campaign) (place position) rows in
    get-save_layout campaign uid row layout moved
      (ground (
        arith,
        there,
        other,
        get-update_rows (λ j s. j == k && s.campaign_uid == campaign) (place position) rows uid,
      ))
      other

abbrev pub other_connection : ℕ → TransitionRow → Bool
other_connection campaign row = not (row.campaign_uid == campaign)

keep-save_transition :
    (campaign : ℕ) (t : GraphTransition) (rows : List TransitionRow)
    → any (λ row. row.uid == t.uid && not (row.campaign_uid == campaign)) rows ≡ false
    → keep (other_connection campaign) (save_transition campaign t rows)
      ≡ keep (other_connection campaign) rows
unfolding main_sequence_crmapi.Common.any main_sequence_crmapi.Common.keep
    main_sequence_crmapi.Campaigns.Store.Saving.save_transition
keep-save_transition campaign t [] h = ground arith
keep-save_transition campaign t (row ∷ rows) h =
    ground (arith, h, keep-save_transition campaign t rows)

-- a foreign row with a key is one of those that the update keeps
foreign-kept :
    (campaign uid : ℕ) (rows : List TransitionRow)
    → any (λ row. row.uid == uid && not (row.campaign_uid == campaign)) rows
      ≡ any (λ row. row.uid == uid) (keep (other_connection campaign) rows)
unfolding main_sequence_crmapi.Common.any main_sequence_crmapi.Common.keep
foreign-kept campaign uid [] = refl
foreign-kept campaign uid (row ∷ rows) = ground (arith, foreign-kept campaign uid rows)

none_of :
    (campaign : ℕ) (t : GraphTransition) (old new : List TransitionRow)
    → keep (other_connection campaign) new ≡ keep (other_connection campaign) old
    → any (λ row. row.uid == t.uid && not (row.campaign_uid == campaign)) old ≡ false
    → any (λ row. row.uid == t.uid && not (row.campaign_uid == campaign)) new ≡ false
none_of campaign t old new same h =
    rw (foreign-kept campaign t.uid new, same, sym (foreign-kept campaign t.uid old)) h

keep-save_transitions :
    (campaign : ℕ) (db : Db) (ts : List GraphTransition) (rows : List TransitionRow)
    → any (foreign_transition db campaign) ts ≡ false
    → keep (other_connection campaign) rows ≡ keep (other_connection campaign) db.transitions
    → keep (other_connection campaign) (save_transitions campaign ts rows)
      ≡ keep (other_connection campaign) db.transitions
unfolding main_sequence_crmapi.Common.any
    main_sequence_crmapi.Campaigns.Store.Saving.save_transitions
keep-save_transitions campaign db [] rows h same = same
keep-save_transitions campaign db (t ∷ ts) rows h same =
    let head : foreign_transition db campaign t ≡ false = ground (arith, h) in
    keep-save_transitions campaign db ts (save_transition campaign t rows) (ground (arith, h)) (
      keep-save_transition campaign t rows (none_of campaign t db.transitions rows same head)
      ∙ same)

keep-keep :
    (cmd : SaveGraph) (rows : List TransitionRow)
    → keep (other_connection cmd.campaign_uid) (keep (stays cmd) rows)
      ≡ keep (other_connection cmd.campaign_uid) rows
unfolding main_sequence_crmapi.Common.keep
keep-keep cmd [] = refl
keep-keep cmd (row ∷ rows) = ground (arith, keep-keep cmd rows)

-- the work of another campaign's participants
abbrev pub other_work : Db → ℕ → ProgressRow → Bool
other_work db campaign g = not (in_campaign_of db campaign g.participant_uid)

keep-changed :
    (cmd : SaveGraph) (db : Db) (rows : List ProgressRow)
    → keep (other_work db cmd.campaign_uid) (update_where (affected cmd db) (changed_work cmd) rows)
      ≡ keep (other_work db cmd.campaign_uid) rows
unfolding main_sequence_crmapi.Common.keep main_sequence_crmapi.Common.update_where
keep-changed cmd db [] = refl
keep-changed cmd db (g ∷ rows) = ground (arith, keep-changed cmd db rows)

save_gate_sound :
    (cmd : SaveGraph) (db : Db) (c : CampaignRow)
    → save_gate cmd db ≡ some c
    → (any (foreign_step db cmd.campaign_uid) cmd.steps ≡ false)
      × (any (foreign_transition db cmd.campaign_uid) cmd.transitions ≡ false)
unfolding main_sequence_crmapi.Campaigns.Store.Saving.save_gate
save_gate_sound cmd db c h = ground arith

-- Saving the graph of one campaign leaves every step and every connection of another campaign, and the
-- work of the participants of the others, whatever the plan names.
pub save_graph_isolated :
    (who : Caller) (cmd : SaveGraph) (db : Db) (uid : ℕ) (row : StepRow)
    → get db.steps uid ≡ some row
    → (row.campaign_uid == cmd.campaign_uid) ≡ false
    → (get (after (save_graph who cmd db)).steps uid ≡ some row)
      × (keep (other_connection cmd.campaign_uid) (after (save_graph who cmd db)).transitions
          ≡ keep (other_connection cmd.campaign_uid) db.transitions)
      × (keep (other_work db cmd.campaign_uid) (after (save_graph who cmd db)).progress
          ≡ keep (other_work db cmd.campaign_uid) db.progress)
unfolding main_sequence_crmapi.Campaigns.Store.Saving.save_graph
save_graph_isolated who cmd db uid row there other = elim (Option-cases (save_gate cmd db)) [
  | inl e ↦ rw (after, e) (there, refl, refl)
  | inr (c, e) ↦
      let ok = save_gate_sound cmd db c e in
      let saved : Dict StepRow = save_steps who cmd.campaign_uid cmd.steps db.steps in
      let kept : get saved uid ≡ some row =
        get-save_steps who cmd.campaign_uid uid cmd.steps db.steps
          (unnamed db cmd.campaign_uid uid row cmd.steps there other ok.0)
        ∙ there in
      rw (after, e)
        (
          get-save_layout cmd.campaign_uid uid row cmd.layout_steps saved kept other,
          keep-save_transitions cmd.campaign_uid db cmd.transitions
              (keep (stays cmd) db.transitions) ok.1 (keep-keep cmd db.transitions),
          keep-changed cmd db db.progress,
        )
]
