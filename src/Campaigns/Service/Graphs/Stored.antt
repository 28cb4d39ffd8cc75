-- ===== src/Campaigns/Service/Graphs/Stored.antt =====
-- Saving the graph that is stored, in src/crm/campaigns/service.py.
use main_sequence_crmapi.Campaigns.Service.Graphs.{
  step_change, no_changes, plan_steps, step_missing, same_connection, changed_connection, step_uids,
  transition_uids, graph_change, save_command, update_graph, Plan, GraphUpdate, step_kept, planned,
}
use main_sequence_crmapi.Common.{
  get, dict_keys, uids_different, any, keep, update_where, mem, ℕ, String, ◌≡◌, refl, sym, ap, ◌∙◌,
  inl, inr, Bool, true, false, ◌&&◌, Option, some, List, [], ◌∷◌, arith, Dict, ◌==◌, Bool-cases,
  Option-cases,
}
use main_sequence_crmapi.Campaigns.Models.{GraphStep, GraphTransition}
use main_sequence_crmapi.Campaigns.Store.Rows.{
  after, is_live, CampaignRow, StepRow, TransitionRow, ProgressRow, Db, Caller, accepted,
}
use main_sequence_crmapi.Campaigns.Service.{steps_of, transitions_of, graph_of, answered}
use main_sequence_crmapi.Campaigns.Graph.Changes.{same_uid, same_fields}
use main_sequence_crmapi.Campaigns.Service.Graphs.Same.{
  same_option_refl, str_refl, uid_refl, fields_refl,
}
use main_sequence_crmapi.Campaigns.Graph.StepChecks.{Prompts}
use main_sequence_crmapi.Campaigns.Store.Saving.{
  save_gate, stays, affected, changed_work, save_graph, SaveGraph,
}
use main_sequence_crmapi.Campaigns.Service.Graphs.Live.{update_answered}

-- the rows are found in the table
Agrees : Dict StepRow → Dict StepRow → Type 0
Agrees d [] = Unit {0}
Agrees d ((k, v) ∷ rows) = (get d k ≡ some v) × Agrees d rows

Agrees-put :
    (d rows : Dict StepRow) (k : ℕ) (v : StepRow)
    → mem k (dict_keys rows) ≡ false
    → Agrees d rows
    → Agrees ((k, v) ∷ d) rows
unfolding Agrees main_sequence_crmapi.Common.get main_sequence_crmapi.Common.mem
    main_sequence_crmapi.Common.dict_keys
Agrees-put d [] k v h a = tt
Agrees-put d ((j, w) ∷ rows) k v h (there, rest) =
    (ground (arith, h, there), Agrees-put d rows k v (ground (arith, h)) rest)

Agrees-self : (d : Dict StepRow) → uids_different (dict_keys d) ≡ true → Agrees d d
unfolding Agrees main_sequence_crmapi.Common.get main_sequence_crmapi.Common.uids_different
    main_sequence_crmapi.Common.dict_keys
Agrees-self [] h = tt
Agrees-self ((k, v) ∷ d) h =
    (ground arith, Agrees-put d d k v (ground (arith, h)) (Agrees-self d (ground (arith, h))))

kept_step :
    (row : StepRow) (s : GraphStep)
    → is_live row.archived_at ≡ true
    → s.archived ≡ false
    → s.fields ≡ row.fields
    → step_change (some row) s ≡ step_kept
unfolding main_sequence_crmapi.Campaigns.Service.Graphs.step_change
kept_step row s live active_step same_as =
    let equal : same_fields row.fields s.fields ≡ true = rw (same_as) (fields_refl row.fields) in
    ground (arith, live, active_step, equal)

plan_nothing :
    (db : Db) (campaign : ℕ) (rows : Dict StepRow)
    → Agrees db.steps rows
    → plan_steps db campaign (steps_of campaign rows) ≡ planned no_changes
unfolding Agrees main_sequence_crmapi.Campaigns.Service.Graphs.plan_steps
    main_sequence_crmapi.Campaigns.Service.Graphs.row_in main_sequence_crmapi.Common.row_where
    main_sequence_crmapi.Campaigns.Service.steps_of
plan_nothing db campaign [] a = refl
plan_nothing db campaign ((uid, s) ∷ rows) (there, rest) =
    let later = plan_nothing db campaign rows rest in
    elim (Bool-cases (s.campaign_uid == campaign)) [
      | inr e ↦ ground (arith, e, later)
      | inl e ↦ elim (Bool-cases (is_live s.archived_at)) [
        | inr f ↦ ground (arith, e, f, later)
        | inl f ↦
            let g : GraphStep = record { uid = uid; archived = false; fields = s.fields } in
            ground (arith, e, f, there, later, kept_step s g f refl refl)
      ]
    ]

-- the active steps of the campaign are in its graph
none_missing :
    (campaign : ℕ) (seen : List ℕ) (rows : Dict StepRow)
    → ((k : ℕ) → mem k (step_uids (steps_of campaign rows)) ≡ true → mem k seen ≡ true)
    → step_missing campaign seen rows ≡ false
unfolding main_sequence_crmapi.Campaigns.Service.Graphs.step_missing
    main_sequence_crmapi.Campaigns.Service.steps_of main_sequence_crmapi.Common.mem
none_missing campaign seen [] all = refl
none_missing campaign seen ((uid, s) ∷ rows) all =
    elim (Bool-cases (s.campaign_uid == campaign && is_live s.archived_at)) [
      | inr e ↦
          let later = none_missing campaign seen rows (λ k h. all k (ground (arith, e, h))) in
          ground (arith, e, later)
      | inl e ↦
          let later = none_missing campaign seen rows (λ k h. all k (ground (arith, e, h))) in
          ground (arith, e, later, all uid (ground (arith, e)))
    ]

-- a connection of the table is as it is
found_connection :
    (campaign : ℕ) (row : TransitionRow) (t : GraphTransition) (rows : List TransitionRow)
    → same_connection campaign t row ≡ true
    → any (same_connection campaign t) (row ∷ rows) ≡ true
unfolding main_sequence_crmapi.Common.any
found_connection campaign row t rows h = ground (arith, h)

connections_kept :
    (campaign : ℕ) (test : GraphTransition → Bool) (rows : List TransitionRow)
    → ((t : GraphTransition) → any (same_connection campaign t) rows ≡ true → test t ≡ false)
    → keep test (transitions_of campaign rows) ≡ []
unfolding main_sequence_crmapi.Common.any main_sequence_crmapi.Common.keep
    main_sequence_crmapi.Campaigns.Service.transitions_of
connections_kept campaign test [] h = refl
connections_kept campaign test (row ∷ rows) h =
    let later = connections_kept campaign test rows (λ t there. h t (ground (arith, there))) in
    elim (Bool-cases (row.campaign_uid == campaign)) [
      | inr e ↦ ground (arith, e, later)
      | inl e ↦
          let g : GraphTransition = record {
            uid = row.uid;
            from_step_uid = row.from_step_uid;
            outcome_key = row.outcome_key;
            to_step_uid = row.to_step_uid;
            delay_seconds = row.delay_seconds;
          } in
          let same_as : same_connection campaign g row ≡ true = ground (
            arith,
            e,
            str_refl row.outcome_key,
            same_option_refl same_uid uid_refl row.to_step_uid,
          ) in
          let dropped = h g (ground (arith, same_as)) in ground (arith, e, later, dropped)
    ]

-- the stored graph of a campaign, compared with the campaign, gives a plan that writes no step, no position and
-- no connection, retires and changes nothing, and keeps every connection, when each step has a key of its
-- own.
stored_plan :
    (db : Db) (uid : ℕ) (c : CampaignRow)
    → uids_different (dict_keys db.steps) ≡ true
    → graph_change db uid (graph_of db uid c)
      ≡ planned (record no_changes {
        kept_transition_uids = transition_uids (transitions_of uid db.transitions);
      })
unfolding main_sequence_crmapi.Campaigns.Service.Graphs.graph_change
    main_sequence_crmapi.Campaigns.Service.graph_of
stored_plan db uid c keys =
    let no_step = plan_nothing db uid db.steps (Agrees-self db.steps keys) in
    let present_all = none_missing uid (step_uids (steps_of uid db.steps)) db.steps (λ k h. h) in
    let unchanged =
      connections_kept uid (changed_connection db uid) db.transitions
        (λ t there. ground (arith, there)) in
    ground (arith, no_step, present_all, unchanged)

keep_all :
    (test : TransitionRow → Bool) (rows : List TransitionRow)
    → ((row : TransitionRow)
        → any (λ r. r.uid == row.uid && r.campaign_uid == row.campaign_uid) rows ≡ true
        → test row ≡ true)
    → keep test rows ≡ rows
unfolding main_sequence_crmapi.Common.any main_sequence_crmapi.Common.keep
keep_all test [] h = refl
keep_all test (row ∷ rows) h =
    let later = keep_all test rows (λ r there. h r (ground (arith, there))) in
    ground (arith, later, h row (ground arith))

-- the connections of the campaign are all in its graph
stays_all :
    (uid : ℕ) (rows : List TransitionRow) (row : TransitionRow)
    → any (λ r. r.uid == row.uid && r.campaign_uid == row.campaign_uid) rows ≡ true
    → (row.campaign_uid == uid) ≡ true
    → mem row.uid (transition_uids (transitions_of uid rows)) ≡ true
unfolding main_sequence_crmapi.Common.any main_sequence_crmapi.Common.mem
    main_sequence_crmapi.Campaigns.Service.transitions_of
stays_all uid [] row there own = ground (arith, there)
stays_all uid (r ∷ rows) row there own = ground (arith, there, own, stays_all uid rows row)

none_affected :
    (test : ProgressRow → Bool) (f : ProgressRow → ProgressRow) (rows : List ProgressRow)
    → ((g : ProgressRow) → test g ≡ false)
    → update_where test f rows ≡ rows
unfolding main_sequence_crmapi.Common.update_where
none_affected test f [] h = refl
none_affected test f (g ∷ rows) h = ground (arith, h g, none_affected test f rows h)

save_stored :
    (who : Caller) (cmd : SaveGraph) (db : Db)
    → cmd.steps ≡ []
    → cmd.layout_steps ≡ []
    → cmd.transitions ≡ []
    → cmd.changed_step_uids ≡ []
    → cmd.retired_step_uids ≡ []
    → cmd.comparison_changed_step_uids ≡ []
    → cmd.kept_transition_uids ≡ transition_uids (transitions_of cmd.campaign_uid db.transitions)
    → ((after (save_graph who cmd db)).steps ≡ db.steps)
      × ((after (save_graph who cmd db)).transitions ≡ db.transitions)
      × ((after (save_graph who cmd db)).progress ≡ db.progress)
unfolding main_sequence_crmapi.Campaigns.Store.Saving.save_graph
    main_sequence_crmapi.Campaigns.Store.Saving.save_steps
    main_sequence_crmapi.Campaigns.Store.Saving.save_layout
    main_sequence_crmapi.Campaigns.Store.Saving.save_transitions main_sequence_crmapi.Common.mem
save_stored who cmd db a b t ch re co ke =
    let removed : keep (stays cmd) db.transitions ≡ db.transitions =
      keep_all (stays cmd) db.transitions
        (λ row there. ground (arith, ke, stays_all cmd.campaign_uid db.transitions row there)) in
    let still : update_where (affected cmd db) (changed_work cmd) db.progress ≡ db.progress =
      none_affected (affected cmd db) (changed_work cmd) db.progress
        (λ g. ground (arith, ch, re, co)) in
    elim (Option-cases (save_gate cmd db)) [
      | inl e ↦ rw (after, e) (refl, refl, refl)
      | inr (c, e) ↦
          (ground (arith, e, a, b), ground (arith, e, t, removed), ground (arith, e, still))
    ]

-- When an update whose graph is the stored graph of the campaign is answered, it has changed no step, no
-- connection and no work, where each step has a key of its own.
pub stored_graph_kept :
    (can : String → Bool) (selectable : ℕ → Bool) (parse_uuid : String → Option ℕ)
    (prompts : Prompts) (who : Caller) (uid : ℕ) (cmd : GraphUpdate) (db new : Db) (c : CampaignRow)
    → uids_different (dict_keys db.steps) ≡ true
    → cmd.graph ≡ graph_of db uid c
    → update_graph can selectable parse_uuid prompts who uid cmd db ≡ answered new
    → (new.steps ≡ db.steps) × (new.transitions ≡ db.transitions) × (new.progress ≡ db.progress)
stored_graph_kept can selectable parse_uuid prompts who uid cmd db new c keys same_graph h =
    let stored : Plan = record no_changes {
      kept_transition_uids = transition_uids (transitions_of uid db.transitions);
    } in
    let plan : graph_change db uid cmd.graph ≡ planned stored =
      rw (same_graph) (stored_plan db uid c keys) in
    let (row, p, there, version, live, planned_p, saved) =
      update_answered can selectable parse_uuid prompts who uid cmd db new h in
    let is_it : p ≡ stored = ground (arith, plan, planned_p) in
    let written : save_graph who (save_command uid cmd stored) db ≡ accepted new =
      sym (ap (λ (q : Plan). save_graph who (save_command uid cmd q) db) is_it) ∙ saved in
    rw (sym (ap after written))
      (save_stored who (save_command uid cmd stored) db refl refl refl refl refl refl refl)
