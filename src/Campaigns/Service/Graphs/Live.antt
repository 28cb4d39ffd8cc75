-- ===== src/Campaigns/Service/Graphs/Live.antt =====
-- What an answered update of a graph has checked, in src/crm/campaigns/service.py.
use main_sequence_crmapi.Campaigns.Service.Graphs.{
  graph_change, save_command, must_run, save_plan, update_graph, Plan, Planned, GraphUpdate,
  unplanned, planned,
}
use main_sequence_crmapi.Common.{
  get, ℕ, String, ◌≡◌, refl, sym, ap, inl, inr, Bool, true, false, not, ◌&&◌, Option, some, arith,
  ◌==◌, Option-cases,
}
use main_sequence_crmapi.Campaigns.Graph.StepChecks.{Prompts}
use main_sequence_crmapi.Campaigns.Graph.Validate.{validate_graph}
use main_sequence_crmapi.Campaigns.Store.Rows.{CampaignRow, Db, Caller, Written, accepted}
use main_sequence_crmapi.Campaigns.Store.Saving.{save_graph}
use main_sequence_crmapi.Campaigns.Service.{from_store, is_runnable, answered}

store_answered : (w : Written) (new : Db) → from_store w ≡ answered new → w ≡ accepted new
store_answered w new h = ground (arith, h)

module _ (can : String → Bool) (selectable : ℕ → Bool) (parse_uuid : String → Option ℕ)
    (prompts : Prompts) where
  plan_answered :
      (who : Caller) (uid : ℕ) (cmd : GraphUpdate) (db new : Db) (change : Planned)
      → save_plan can selectable parse_uuid prompts who uid cmd db change ≡ answered new
      → (p : Plan) × (change ≡ planned p)
        × (save_graph who (save_command uid cmd p) db ≡ accepted new)
  plan_answered who uid cmd db new (unplanned code) h = ground (arith, h)
  plan_answered who uid cmd db new (planned p) h =
      (p, refl, store_answered (save_graph who (save_command uid cmd p) db) new h)

  -- the checks of an answered update, with its plan
  pub update_answered :
      (who : Caller) (uid : ℕ) (cmd : GraphUpdate) (db new : Db)
      → update_graph can selectable parse_uuid prompts who uid cmd db ≡ answered new
      → (c : CampaignRow) × (p : Plan) × (get db.campaigns uid ≡ some c)
        × ((c.version == cmd.expected_version) ≡ true)
        × ((must_run c.status && not (is_runnable (validate_graph parse_uuid cmd.graph prompts)))
            ≡ false)
        × (graph_change db uid cmd.graph ≡ planned p)
        × (save_graph who (save_command uid cmd p) db ≡ accepted new)
  unfolding main_sequence_crmapi.Campaigns.Service.Graphs.update_graph
  update_answered who uid cmd db new h = elim (Option-cases (get db.campaigns uid)) [
    | inl e ↦ ground (arith, h, e)
    | inr (c, e) ↦
        let reached : save_plan can selectable parse_uuid prompts who uid cmd db
              (graph_change db uid cmd.graph)
            ≡ answered new =
          ground (arith, h, e) in
        let (p, planned_p, saved) =
          plan_answered who uid cmd db new (graph_change db uid cmd.graph) reached in
        (c, p, e, ground (arith, h, e), ground (arith, h, e), planned_p, saved)
  ]

-- When an update of the graph of an active or paused campaign is answered, the candidate graph is runnable:
-- a live campaign never gets a graph with a diagnostic that stops it.
pub live_graph_runnable :
    (can : String → Bool) (selectable : ℕ → Bool) (parse_uuid : String → Option ℕ)
    (prompts : Prompts) (who : Caller) (uid : ℕ) (cmd : GraphUpdate) (db new : Db) (c : CampaignRow)
    → get db.campaigns uid ≡ some c
    → must_run c.status ≡ true
    → update_graph can selectable parse_uuid prompts who uid cmd db ≡ answered new
    → (is_runnable (validate_graph parse_uuid cmd.graph prompts) ≡ true)
      × ((c.version == cmd.expected_version) ≡ true)
live_graph_runnable can selectable parse_uuid prompts who uid cmd db new c there live h =
    let (row, p, found, version, checked, planned_p, saved) =
      update_answered can selectable parse_uuid prompts who uid cmd db new h in
    let is_it : row ≡ c = ground (arith, found, there) in
    (
      ground (arith, checked, live, ap (λ (r : CampaignRow). must_run r.status) is_it),
      rw (sym is_it) version,
    )
