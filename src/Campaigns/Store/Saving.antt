-- ===== src/Campaigns/Store/Saving.antt =====
-- save_graph of src/crm/repositories/campaigns.py.
use main_sequence_crmapi.Common.{
  get, put, row_where, update_rows, any, keep, update_where, mem, ℕ, suc, String, Bool, true, false,
  not, ◌&&◌, ◌||◌, Option, none, some, List, [], ◌∷◌, Dict, has, ◌==◌, if◌then◌else◌,
}
use main_sequence_crmapi.Campaigns.Models.{PromptVariant, GraphStep, GraphTransition}
use main_sequence_crmapi.Campaigns.Store.Rows.{
  event, coalesce, is_open, is_workable, is_live, ProgressState, CampaignRow, StepRow,
  TransitionRow, ProgressRow, Db, Caller, Written, state_open, state_waiting, state_blocked,
  state_completed, state_cancelled, accepted, conflict,
}
use main_sequence_crmapi.Campaigns.Store.Participants.{archive_task, tasks_of}
use main_sequence_crmapi.Campaigns.Store.Prompts.{flag_comparison}

-- the write plan of a graph, with the version that it expects
pub record SaveGraph : Type 0 where
  pub campaign_uid : ℕ
  pub expected_version : ℕ
  pub entry_step_uid : Option ℕ
  pub steps : List GraphStep
  pub layout_steps : List (ℕ × Option String)
  pub transitions : List GraphTransition
  pub kept_transition_uids : List ℕ
  pub changed_step_uids : List ℕ
  pub retired_step_uids : List ℕ
  pub comparison_changed_step_uids : List ℕ
  pub cancel_retired_work : Bool

-- a step of the plan belongs to another campaign
abbrev pub foreign_step : Db → ℕ → GraphStep → Bool
foreign_step db campaign s = elim (get db.steps s.uid) [
  | none ↦ false
  | some row ↦ not (row.campaign_uid == campaign)
]

-- a connection of the plan belongs to another campaign
abbrev pub foreign_transition : Db → ℕ → GraphTransition → Bool
foreign_transition db campaign t =
    any (λ row. row.uid == t.uid && not (row.campaign_uid == campaign)) db.transitions

-- the variant's prompt is missing, archived or no step prompt
abbrev pub bad_variant : Db → PromptVariant → Bool
bad_variant db v = elim (get db.prompts v.prompt_uid) [
  | none ↦ true
  | some p ↦ not (is_live p.archived_at) || not (has db.step_prompts v.prompt_uid)
]

abbrev pub bad_prompts : Db → GraphStep → Bool
bad_prompts db s = not s.archived && any (bad_variant db) s.fields.prompt_variants

-- `locked` and `gate`
unfoldable pub save_gate : SaveGraph → Db → Option CampaignRow
save_gate cmd db =
    elim (row_where (λ c. c.version == cmd.expected_version && is_live c.archived_at) db.campaigns
      cmd.campaign_uid) [
        | none ↦ none
        | some c ↦
            if any (foreign_step db cmd.campaign_uid) cmd.steps
              || any (foreign_transition db cmd.campaign_uid) cmd.transitions
              || any (bad_prompts db) cmd.steps
            then none
            else some c
      ]

-- a row of steps_saved: a new step, or the update of the one with the key
unfoldable pub saved_step : Caller → ℕ → GraphStep → Option StepRow → StepRow
saved_step who campaign s none = record {
  version = 1;
  archived_at = if s.archived then some who.now else none;
  campaign_uid = campaign;
  fields = s.fields;
}
saved_step who campaign s (some old) = record old {
  version = suc old.version;
  archived_at = if s.archived then coalesce old.archived_at who.now else none;
  fields = s.fields;
}

-- steps_saved
unfoldable pub save_steps : Caller → ℕ → List GraphStep → Dict StepRow → Dict StepRow
save_steps who campaign [] rows = rows
save_steps who campaign (s ∷ steps) rows =
    save_steps who campaign steps (put rows s.uid (saved_step who campaign s (get rows s.uid)))

abbrev pub place : Option String → StepRow → StepRow
place position s = record s { fields = record s.fields { position = position } }

-- layout_saved
unfoldable pub save_layout : ℕ → List (ℕ × Option String) → Dict StepRow → Dict StepRow
save_layout campaign [] rows = rows
save_layout campaign ((uid, position) ∷ layout) rows =
    save_layout campaign layout
      (update_rows (λ k s. k == uid && s.campaign_uid == campaign) (place position) rows)

abbrev pub new_transition : ℕ → GraphTransition → TransitionRow
new_transition campaign t = record {
  uid = t.uid;
  version = 1;
  campaign_uid = campaign;
  from_step_uid = t.from_step_uid;
  outcome_key = t.outcome_key;
  to_step_uid = t.to_step_uid;
  delay_seconds = t.delay_seconds;
}

abbrev pub changed_transition : GraphTransition → TransitionRow → TransitionRow
changed_transition t row = record row {
  version = suc row.version;
  from_step_uid = t.from_step_uid;
  outcome_key = t.outcome_key;
  to_step_uid = t.to_step_uid;
  delay_seconds = t.delay_seconds;
}

-- transitions_saved, for one connection
unfoldable pub save_transition : ℕ → GraphTransition → List TransitionRow → List TransitionRow
save_transition campaign t [] = new_transition campaign t ∷ []
save_transition campaign t (row ∷ rows) =
    if row.uid == t.uid
    then changed_transition t row ∷ rows
    else row ∷ save_transition campaign t rows

unfoldable pub save_transitions : ℕ → List GraphTransition → List TransitionRow → List TransitionRow
unfolding save_transition
save_transitions campaign [] rows = rows
save_transitions campaign (t ∷ ts) rows =
    save_transitions campaign ts (save_transition campaign t rows)

-- transitions_removed leaves these
abbrev pub stays : SaveGraph → TransitionRow → Bool
stays cmd row = not (row.campaign_uid == cmd.campaign_uid) || mem row.uid cmd.kept_transition_uids

abbrev pub in_campaign_of : Db → ℕ → ℕ → Bool
in_campaign_of db campaign participant = elim (get db.participants participant) [
  | none ↦ false
  | some p ↦ p.campaign_uid == campaign
]

abbrev pub on_retired : SaveGraph → ProgressRow → Bool
on_retired cmd g = mem g.step_uid cmd.retired_step_uids

abbrev pub on_changed : SaveGraph → ProgressRow → Bool
on_changed cmd g = mem g.step_uid cmd.changed_step_uids

abbrev pub on_compared : SaveGraph → ProgressRow → Bool
on_compared cmd g = mem g.step_uid cmd.comparison_changed_step_uids

-- the rows of work_changed
abbrev pub affected : SaveGraph → Db → ProgressRow → Bool
affected cmd db g =
    (on_retired cmd g || on_changed cmd g || on_compared cmd g)
    && in_campaign_of db cmd.campaign_uid g.participant_uid

abbrev pub cancels : SaveGraph → ProgressRow → Bool
cancels cmd g = cmd.cancel_retired_work && on_retired cmd g && is_open g.state

abbrev pub affected_state : SaveGraph → ProgressRow → ProgressState
affected_state cmd g =
    if cancels cmd g
    then state_cancelled
    else if is_workable g.state && (on_retired cmd g || on_changed cmd g)
    then state_blocked
    else g.state

abbrev pub affected_reason : SaveGraph → ProgressRow → Option String
affected_reason cmd g =
    if cmd.cancel_retired_work && on_retired cmd g
    then g.blocked_reason
    else if is_workable g.state && on_retired cmd g
    then some "step_retired"
    else if is_workable g.state && on_changed cmd g
    then some "step_changed"
    else g.blocked_reason

abbrev pub changed_work : SaveGraph → ProgressRow → ProgressRow
changed_work cmd g = record g {
  state = affected_state cmd g;
  blocked_reason = affected_reason cmd g;
  prompt_assignment =
      if on_compared cmd g then flag_comparison g.prompt_assignment else g.prompt_assignment;
}

abbrev pub is_cancelled : ProgressState → Bool
is_cancelled state_open = false
is_cancelled state_waiting = false
is_cancelled state_blocked = false
is_cancelled state_completed = false
is_cancelled state_cancelled = true

-- the rows of work_changed whose tasks tasks_archived archives: RETURNING answers the new state
abbrev pub to_archive : SaveGraph → Db → ProgressRow → Bool
to_archive cmd db g =
    affected cmd db g && is_cancelled (affected_state cmd g) && cmd.cancel_retired_work

unfoldable pub save_graph : Caller → SaveGraph → Db → Written
unfolding tasks_of save_steps save_layout save_transitions
save_graph who cmd db = elim (save_gate cmd db) [
  | none ↦ conflict db
  | some c ↦ accepted (record db {
    steps =
        save_layout cmd.campaign_uid cmd.layout_steps
          (save_steps who cmd.campaign_uid cmd.steps db.steps);
    transitions =
        save_transitions cmd.campaign_uid cmd.transitions (keep (stays cmd) db.transitions);
    progress = update_where (affected cmd db) (changed_work cmd) db.progress;
    tasks =
        update_rows (λ k t. mem k (tasks_of (to_archive cmd db) db.progress)) (archive_task who)
          db.tasks;
    campaigns =
        put db.campaigns cmd.campaign_uid
          (record c { version = suc c.version; entry_step_uid = cmd.entry_step_uid });
    activity = event who "campaign" cmd.campaign_uid "graph_updated" ∷ db.activity;
  })
]
