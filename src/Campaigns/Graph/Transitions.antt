-- ===== src/Campaigns/Graph/Transitions.antt =====
-- The first loop of `validate_graph` in src/crm/campaigns/graph.py: the connections, with the routes
-- and the adjacency that the loop collects, and `active_steps`.
pub mod Routes
pub mod Edges
pub mod Scan
use main_sequence_crmapi.Common.{
  get, put, str_mem, mem, set_add, ℕ, ◌+◌, String, str_eq, Bool, false, not, ◌&&◌, ◌||◌, Option,
  none, some, List, [], ◌∷◌, ◌++◌, Dict, has, ltb, ◌==◌, if◌then◌else◌,
}
use main_sequence_crmapi.Campaigns.Models.{outcome_keys, GraphStep, GraphTransition, CampaignGraph}
use main_sequence_crmapi.Campaigns.Graph.Closure.{Adjacency}
use main_sequence_crmapi.Campaigns.Graph.Diagnostics.{
  step_diag, transition_diag, when, Diagnostic, transition_source_invalid,
  transition_outcome_unknown, transition_target_retired, transition_target_invalid, route_duplicate,
}

-- {step.uid: step for step in steps if not step.archived}, onto `acc`
unfoldable pub index_active : List GraphStep → Dict GraphStep → Dict GraphStep
index_active [] acc = acc
index_active (s ∷ steps) acc = index_active steps (if s.archived then acc else put acc s.uid s)

unfoldable pub active_steps : CampaignGraph → Dict GraphStep
unfolding index_active
active_steps graph = index_active graph.steps []

unfoldable pub archived_uids : List GraphStep → List ℕ
archived_uids [] = []
archived_uids (s ∷ steps) =
    let rest = archived_uids steps in if s.archived then set_add s.uid rest else rest

-- routes: dict[tuple[UUID, str], int]
pub record Route : Type 0 where
  pub step_uid : ℕ
  pub outcome_key : String

abbrev pub route_eq : Route → Route → Bool
route_eq r q = r.step_uid == q.step_uid && str_eq r.outcome_key q.outcome_key

abbrev pub Routes : Type 0
Routes = List (Route × ℕ)

-- routes[route] = routes.get(route, 0) + 1
unfoldable pub add_route : Routes → Route → Routes
add_route [] r = (r, 1) ∷ []
add_route ((q, n) ∷ routes) r =
    if route_eq q r then (q, n + 1) ∷ routes else (q, n) ∷ add_route routes r

unfoldable pub has_route : Routes → Route → Bool
has_route [] r = false
has_route ((q, n) ∷ routes) r = route_eq q r || has_route routes r

-- adjacency[source].add(target)
unfoldable pub add_edge : Adjacency → ℕ → ℕ → Adjacency
add_edge [] u v = []
add_edge ((k, ts) ∷ adj) u v =
    if k == u then (k, set_add v ts) ∷ adj else (k, ts) ∷ add_edge adj u v

-- the three collections that the first loop fills
pub record Scanned : Type 0 where
  pub diagnostics : List Diagnostic
  pub adjacency : Adjacency
  pub routes : Routes

-- the test on the target of a connection, and the edge that a good target adds
unfoldable pub scan_target : Dict GraphStep → List ℕ → GraphTransition → ℕ → Scanned → Scanned
scan_target steps archived t target s =
    if mem target archived
    then record s {
      diagnostics = s.diagnostics ++ transition_diag transition_target_retired t target ∷ [];
    }
    else if not (has steps target)
    then record s {
      diagnostics = s.diagnostics ++ transition_diag transition_target_invalid t target ∷ [];
    }
    else record s { adjacency = add_edge s.adjacency t.from_step_uid target }

abbrev pub scan_to : Dict GraphStep → List ℕ → GraphTransition → Option ℕ → Scanned → Scanned
scan_to steps archived t none s = s
scan_to steps archived t (some target) s = scan_target steps archived t target s

abbrev pub route_of : GraphTransition → Route
route_of t = record { step_uid = t.from_step_uid; outcome_key = t.outcome_key }

-- the rest of the loop body, for a connection whose source is active
unfoldable pub scan_from : Dict GraphStep → List ℕ → GraphTransition → GraphStep → Scanned → Scanned
scan_from steps archived t source s =
    let known = str_mem t.outcome_key (outcome_keys source.fields) in
    let s₁ : Scanned = record s {
      diagnostics =
          s.diagnostics
          ++ when (not known) (transition_diag transition_outcome_unknown t source.uid);
    } in
    let s₂ : Scanned = scan_to steps archived t t.to_step_uid s₁ in
    record s₂ { routes = add_route s₂.routes (route_of t) }

-- the body of the loop over the connections
unfoldable pub scan_transition : Dict GraphStep → List ℕ → Scanned → GraphTransition → Scanned
scan_transition steps archived s t = elim (get steps t.from_step_uid) [
  | none ↦ record s {
    diagnostics = s.diagnostics ++ transition_diag transition_source_invalid t t.from_step_uid ∷ [];
  }
  | some source ↦ scan_from steps archived t source s
]

unfoldable pub scan_all : Dict GraphStep → List ℕ → Scanned → List GraphTransition → Scanned
scan_all steps archived s [] = s
scan_all steps archived s (t ∷ ts) = scan_all steps archived (scan_transition steps archived s t) ts

-- {uid: set() for uid in steps}
unfoldable pub no_edges : Dict GraphStep → Adjacency
no_edges [] = []
no_edges ((uid, s) ∷ steps) = (uid, []) ∷ no_edges steps

unfoldable pub duplicate_diagnostics : Routes → List Diagnostic
duplicate_diagnostics [] = []
duplicate_diagnostics ((r, count) ∷ routes) =
    when (ltb 1 count) (step_diag route_duplicate r.step_uid) ++ duplicate_diagnostics routes
