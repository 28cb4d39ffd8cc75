-- ===== src/Campaigns/Graph/Validate/Runnable.antt =====
-- The answer of `validate_graph` of src/crm/campaigns/graph.py.
use main_sequence_crmapi.Common.{
  get, dict_keys, any, mem, ℕ, String, ◌≡◌, refl, sym, ◌∙◌, inl, inr, true, false, Option, some,
  List, [], ◌++◌, arith, has, mem-dict_keys, Bool-cases, Option-cases,
}
use main_sequence_crmapi.Campaigns.Models.{GraphStep, CampaignGraph}
use main_sequence_crmapi.Campaigns.Graph.Closure.{
  Adjacency, targets, closure, closure_correct, Reach, here, step,
}
use main_sequence_crmapi.Campaigns.Graph.Cycles.{cycle_members}
use main_sequence_crmapi.Campaigns.Graph.Cycles.Degrees.{IsGraph}
use main_sequence_crmapi.Campaigns.Graph.Cycles.Members.{
  cycle_members_correct, OnCycle, cycle_members_behind,
}
use main_sequence_crmapi.Campaigns.Graph.Diagnostics.{Diagnostic, GraphValidation}
use main_sequence_crmapi.Campaigns.Graph.Transitions.{
  active_steps, archived_uids, Routes, has_route, no_edges, duplicate_diagnostics, Route,
}
use main_sequence_crmapi.Campaigns.Graph.Transitions.Routes.{
  route_count, has_route_iff, duplicate-free, route_all, connections, route_count-route_all,
  AllPositive-route_all,
}
use main_sequence_crmapi.Campaigns.Graph.Transitions.Edges.{
  keys-no_edges, targets-no_edges, Distinct-index_active, IsOver-no_edges, IsGraph-IsOver,
}
use main_sequence_crmapi.Campaigns.Graph.Transitions.Scan.{
  scan_all-IsOver, link_all, all_good, scan_all-quiet, connects, mem-link_all, sources_known,
}
use main_sequence_crmapi.Campaigns.Graph.StepChecks.{
  route_diagnostics, Prompts, step_diagnostics, steps_diagnostics,
}
use main_sequence_crmapi.Campaigns.Graph.Validate.{
  entry_diagnostics, missing_from, reach_diagnostics, cycle_diagnostics, empty_diagnostics, verdict,
  scan_graph, acyclic_diagnostics, validate_graph,
}
use main_sequence_crmapi.Campaigns.Graph.Validate.Spec.{Walk, IsRunnable, stay, follow}
use main_sequence_crmapi.Campaigns.Graph.Validate.Quiet.{
  left_nil, right_nil, uid-active_steps, quiet_route, quiet_variants, quiet_reached, quiet_cycle,
  quiet_step, verdict_quiet,
}

module _ (graph : CampaignGraph) where
  IsGraph-adjacency : IsGraph (scan_graph graph).adjacency
  unfolding active_steps
  IsGraph-adjacency =
      IsGraph-IsOver (active_steps graph) (scan_graph graph).adjacency
        (Distinct-index_active graph.steps [] (unfold dict_keys in tt))
        (scan_all-IsOver (active_steps graph) (archived_uids graph.steps) graph.transitions _
          (IsOver-no_edges (active_steps graph)))

  module _ (quiet : (scan_graph graph).diagnostics ≡ []) where
    scanned :
        (all_good (active_steps graph) graph.transitions ≡ true)
        × ((scan_graph graph).adjacency
            ≡ link_all (no_edges (active_steps graph)) graph.transitions)
        × ((scan_graph graph).routes ≡ route_all [] graph.transitions)
    scanned =
        let (_, good, adjacency, routes) =
          scan_all-quiet (active_steps graph) (archived_uids graph.steps) graph.transitions _
            quiet in
        (good, adjacency, routes)

    edge_iff :
        (u v : ℕ)
        → mem v (targets (scan_graph graph).adjacency u) ≡ any (connects u v) graph.transitions
    edge_iff u v =
        let (good, adjacency, _) = scanned in
        rw adjacency (
          mem-link_all graph.transitions (no_edges (active_steps graph)) u v (λ x m.
            rw keys-no_edges
              (rw mem-dict_keys (sources_known (active_steps graph) graph.transitions x good m)))
          ∙ rw targets-no_edges (unfold mem in refl))

    Walk-Reach : {a v : ℕ} → Reach (scan_graph graph).adjacency a v → Walk graph.transitions a v
    Walk-Reach here = stay
    Walk-Reach (step {u} {v} p e) = follow (Walk-Reach p) (sym (edge_iff u v) ∙ e)

    Reach-Walk : {a v : ℕ} → Walk graph.transitions a v → Reach (scan_graph graph).adjacency a v
    Reach-Walk stay = here
    Reach-Walk (follow {u} {v} p c) = step (Reach-Walk p) (edge_iff u v ∙ c)

    acyclic_connections :
        cycle_members (scan_graph graph).adjacency ≡ some []
        → (u v : ℕ) → Walk graph.transitions u v
        → any (connects v u) graph.transitions ≡ false
    acyclic_connections none_left u v w = elim (Bool-cases (any (connects v u) graph.transitions)) [
      | inr apart ↦ apart
      | inl back ↦
          let cyc : OnCycle (scan_graph graph).adjacency u =
            (v, Reach-Walk w, edge_iff v u ∙ back) in
          let (members, runs, m) =
            cycle_members_behind (scan_graph graph).adjacency u u IsGraph-adjacency cyc here in
          let e : some members ≡ some [] = sym runs ∙ none_left in
          let e' : members ≡ [] = cc in absurd (unfold mem in cc (rw e' at m))
    ]

module _ (parse_uuid : String → Option ℕ) (graph : CampaignGraph) (prompts : Prompts) where
  -- every group of checks
  quiet_groups :
      acyclic_diagnostics parse_uuid graph prompts ≡ []
      → (entry_diagnostics graph (active_steps graph) ≡ [])
        × ((scan_graph graph).diagnostics ≡ [])
        × (duplicate_diagnostics (scan_graph graph).routes ≡ [])
        × (steps_diagnostics parse_uuid prompts
              (active_steps graph)
              (scan_graph graph).adjacency
              (scan_graph graph).routes
              (active_steps graph)
            ≡ [])
        × (reach_diagnostics graph.entry_step_uid (active_steps graph) (scan_graph graph).adjacency
            ≡ [])
  unfolding acyclic_diagnostics
  quiet_groups h =
      let h₁ = right_nil (entry_diagnostics graph (active_steps graph)) _ h in
      let h₂ = right_nil (scan_graph graph).diagnostics _ h₁ in
      let h₃ = right_nil (duplicate_diagnostics (scan_graph graph).routes) _ h₂ in
      (
        left_nil _ _ h,
        left_nil _ _ h₁,
        left_nil _ _ h₂,
        left_nil _ _ h₃,
        right_nil
            (steps_diagnostics parse_uuid prompts (active_steps graph) (scan_graph graph).adjacency
              (scan_graph graph).routes (active_steps graph))
            _ h₃,
      )

  quiet_graph :
      (v : GraphValidation)
      → validate_graph parse_uuid graph prompts ≡ some v
      → v.runnable ≡ true
      → (acyclic_diagnostics parse_uuid graph prompts ≡ [])
        × (cycle_members (scan_graph graph).adjacency ≡ some [])
  unfolding validate_graph
  quiet_graph v h r = elim (Option-cases (cycle_members (scan_graph graph).adjacency)) [
    | inl missing ↦ cc (rw (missing, validate_graph) at h)
    | inr (members, found) ↦
        let ds : List Diagnostic =
          acyclic_diagnostics parse_uuid graph prompts
          ++ (cycle_diagnostics members ++ empty_diagnostics (active_steps graph)) in
        let same : some (verdict ds) ≡ some v = rw (found, validate_graph) at h in
        let same' : verdict ds ≡ v = cc in
        let nothing : ds ≡ [] = verdict_quiet ds (rw same' r) in
        let rest = right_nil (acyclic_diagnostics parse_uuid graph prompts) _ nothing in
        let gone : members ≡ [] = quiet_cycle members (left_nil _ _ rest) in
        (left_nil _ _ nothing, rw gone at found)
  ]

  entry_of :
      entry_diagnostics graph (active_steps graph) ≡ []
      → (e : ℕ) × (graph.entry_step_uid ≡ some e) × (has (active_steps graph) e ≡ true)
  unfolding entry_diagnostics
  entry_of h = elim (Option-cases graph.entry_step_uid) [
    | inl missing ↦ cc (rw (missing, entry_diagnostics) at h)
    | inr (e, chosen) ↦ (e, chosen, ground (arith, chosen))
  ]

  one_route_of :
      (quiet : (scan_graph graph).diagnostics ≡ [])
      → duplicate_diagnostics (scan_graph graph).routes ≡ []
      → (r : Route) → has_route (scan_graph graph).routes r ≡ true
      → connections r graph.transitions ≡ 1
  unfolding route_count
  one_route_of quiet single r found =
      let (_, _, routes) = scanned graph quiet in
      let most = duplicate-free (route_all [] graph.transitions) r (rw routes at single) in
      let least =
        (has_route_iff (route_all [] graph.transitions) r
            (AllPositive-route_all graph.transitions [] tt)).0
          (rw routes at found) in
      omega (arith, most, least, route_count-route_all graph.transitions [] r)

-- Where `validate_graph` answers that a graph is runnable, the entry is an active step, each
-- connection goes from an active step with that outcome to an active step or the finish, each
-- outcome of an active step has exactly one connection, the prompts of the active steps are there
-- and not archived, a walk leads from the entry to every active step, and no walk of one connection
-- or more returns to where it began.
pub runnable_sound :
    (parse_uuid : String → Option ℕ) (graph : CampaignGraph) (prompts : Prompts)
    (v : GraphValidation)
    → validate_graph parse_uuid graph prompts ≡ some v
    → v.runnable ≡ true
    → IsRunnable graph prompts
unfolding step_diagnostics reach_diagnostics
runnable_sound parse_uuid graph prompts v h r =
    let (quiet, no_cycle) = quiet_graph parse_uuid graph prompts v h r in
    let (at_entry, at_scan, at_routes, at_steps, at_reach) =
      quiet_groups parse_uuid graph prompts quiet in
    let (entry, chosen, live) = entry_of parse_uuid graph prompts at_entry in
    let adj : Adjacency = (scan_graph graph).adjacency in
    let routes : Routes = (scan_graph graph).routes in
    let all_reached : missing_from (closure adj entry) (active_steps graph) ≡ [] =
      ground (arith, chosen, live, at_reach) in
    let at_step = λ (u : ℕ) (s : GraphStep) (found : get (active_steps graph) u ≡ some s).
      quiet_step parse_uuid prompts (active_steps graph) adj routes (active_steps graph) u s
        at_steps found in
    record {
      entry = entry;
      entry_chosen = chosen;
      entry_active = live;
      good = (scanned graph at_scan).0;
      one_route = λ u s key found m. rw (← uid-active_steps graph u s found) (
          one_route_of parse_uuid graph prompts at_scan at_routes _
            (quiet_route routes s.uid s.outcomes key (left_nil _ _ (at_step u s found)) m));
      ready = λ u s found. quiet_variants prompts s.uid s.prompt_variants (
          left_nil _ _
            (right_nil (route_diagnostics routes s.uid s.outcomes) _ (at_step u s found)));
      reachable = λ u there. Walk-Reach graph at_scan (
          (closure_correct adj entry u).0
            (quiet_reached (closure adj entry) (active_steps graph) u all_reached there));
      acyclic = acyclic_connections graph at_scan no_cycle;
    }

-- `validate_graph` answers on every graph: `_cycle_members` never raises its KeyError there.
pub validate_graph_total :
    (parse_uuid : String → Option ℕ) (graph : CampaignGraph) (prompts : Prompts)
    → (v : GraphValidation) × (validate_graph parse_uuid graph prompts ≡ some v)
unfolding validate_graph
validate_graph_total parse_uuid graph prompts =
    let (members, runs, _) =
      cycle_members_correct (scan_graph graph).adjacency (IsGraph-adjacency graph) in
    (
      verdict (
          acyclic_diagnostics parse_uuid graph prompts
          ++ (cycle_diagnostics members ++ empty_diagnostics (active_steps graph))),
      rw (runs, validate_graph) refl,
    )
