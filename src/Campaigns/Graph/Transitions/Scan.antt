-- ===== src/Campaigns/Graph/Transitions/Scan.antt =====
-- What the loop over the connections collects, and what it means that it reports nothing.
use main_sequence_crmapi.Common.{
  get, str_mem, any, mem, ℕ, ◌≡◌, refl, ap, ◌∙◌, inl, inr, Bool, true, false, not, ◌&&◌, ◌||◌,
  Option, none, some, List, [], ◌∷◌, ◌++◌, arith, Dict, has, ◌==◌, Bool-cases, Option-cases,
}
use main_sequence_crmapi.Campaigns.Models.{outcome_keys, GraphStep, GraphTransition}
use main_sequence_crmapi.Campaigns.Graph.Closure.{Adjacency, targets}
use main_sequence_crmapi.Campaigns.Graph.Diagnostics.{
  transition_diag, when, Diagnostic, transition_outcome_unknown, transition_target_retired,
  transition_target_invalid,
}
use main_sequence_crmapi.Campaigns.Graph.Cycles.{keys}
use main_sequence_crmapi.Campaigns.Graph.Transitions.{
  Routes, add_route, add_edge, scan_target, scan_to, route_of, scan_from, scan_transition, scan_all,
  Scanned,
}
use main_sequence_crmapi.Campaigns.Graph.Transitions.Routes.{route_all}
use main_sequence_crmapi.Campaigns.Graph.Transitions.Edges.{
  keys-add_edge, mem-add_edge, IsOver-add_edge, IsOver,
}

module _ (steps : Dict GraphStep) (archived : List ℕ) where
  scan_to-IsOver :
      (t : GraphTransition) (to : Option ℕ) (s : Scanned)
      → IsOver steps s.adjacency
      → IsOver steps (scan_to steps archived t to s).adjacency
  unfolding scan_target
  scan_to-IsOver t none s h = h
  scan_to-IsOver t (some v) s h = elim (Bool-cases (mem v archived)) [
    | inl retired ↦ rw (retired, scan_target) h
    | inr current ↦ elim (Bool-cases (has steps v)) [
      | inl live ↦
          rw (current, live, scan_target)
            (IsOver-add_edge steps s.adjacency t.from_step_uid v h live)
      | inr unknown ↦ rw (current, unknown, scan_target) h
    ]
  ]

  scan_transition-IsOver :
      (s : Scanned) (t : GraphTransition)
      → IsOver steps s.adjacency
      → IsOver steps (scan_transition steps archived s t).adjacency
  unfolding scan_transition scan_from
  scan_transition-IsOver s t h = elim (Option-cases (get steps t.from_step_uid)) [
    | inl missing ↦ rw (missing, scan_transition) h
    | inr (source, found) ↦ rw (found, scan_transition) (scan_to-IsOver t t.to_step_uid _ h)
  ]

  pub scan_all-IsOver :
      (ts : List GraphTransition) (s : Scanned)
      → IsOver steps s.adjacency
      → IsOver steps (scan_all steps archived s ts).adjacency
  unfolding scan_all
  scan_all-IsOver [] s h = h
  scan_all-IsOver (t ∷ ts) s h =
      scan_all-IsOver ts (scan_transition steps archived s t) (scan_transition-IsOver s t h)

abbrev target_ok : Dict GraphStep → Option ℕ → Bool
target_ok steps none = true
target_ok steps (some v) = has steps v

abbrev source_ok : Option GraphStep → GraphTransition → Bool
source_ok none t = false
source_ok (some source) t = str_mem t.outcome_key (outcome_keys source.fields)

-- The source is an active step that declares the outcome, and the target is an active step or the
-- finish.
abbrev pub is_good : Dict GraphStep → GraphTransition → Bool
is_good steps t = source_ok (get steps t.from_step_uid) t && target_ok steps t.to_step_uid

abbrev link : Adjacency → ℕ → Option ℕ → Adjacency
link adj u none = adj
link adj u (some v) = add_edge adj u v

unfoldable pub link_all : Adjacency → List GraphTransition → Adjacency
link_all adj [] = adj
link_all adj (t ∷ ts) = link_all (link adj t.from_step_uid t.to_step_uid) ts

unfoldable pub all_good : Dict GraphStep → List GraphTransition → Bool
all_good steps [] = true
all_good steps (t ∷ ts) = is_good steps t && all_good steps ts

concat-ne-nil : (ds : List Diagnostic) (d : Diagnostic) → (ds ++ d ∷ []) ≡ [] → ⊥
concat-ne-nil [] d h = cc
concat-ne-nil (x ∷ ds) d h = cc

append_nil : (ds : List Diagnostic) → ds ++ [] ≡ ds
append_nil [] = refl
append_nil (x ∷ ds) = rw (append_nil ds)

module _ (steps : Dict GraphStep) (archived : List ℕ) where
  scan_to-quiet :
      (t : GraphTransition) (to : Option ℕ) (s : Scanned)
      → (scan_to steps archived t to s).diagnostics ≡ []
      → (s.diagnostics ≡ [])
        × (target_ok steps to ≡ true)
        × ((scan_to steps archived t to s).adjacency ≡ link s.adjacency t.from_step_uid to)
        × ((scan_to steps archived t to s).routes ≡ s.routes)
  unfolding scan_target
  scan_to-quiet t none s h = (h, refl, refl, refl)
  scan_to-quiet t (some v) s h = ground (
    arith,
    concat-ne-nil s.diagnostics (transition_diag transition_target_retired t v),
    concat-ne-nil s.diagnostics (transition_diag transition_target_invalid t v),
  )

  append-when_nil :
      (ds : List Diagnostic) (b : Bool) (d : Diagnostic)
      → (ds ++ when b d) ≡ []
      → (ds ≡ []) × (b ≡ false)
  append-when_nil [] b d h = ground arith
  append-when_nil (x ∷ ds) b d h = cc

  scan_from-quiet :
      (t : GraphTransition) (source : GraphStep) (s : Scanned)
      → (scan_from steps archived t source s).diagnostics ≡ []
      → (s.diagnostics ≡ [])
        × ((source_ok (some source) t && target_ok steps t.to_step_uid) ≡ true)
        × ((scan_from steps archived t source s).adjacency
            ≡ link s.adjacency t.from_step_uid t.to_step_uid)
        × ((scan_from steps archived t source s).routes ≡ add_route s.routes (route_of t))
  unfolding scan_from
  scan_from-quiet t source s h =
      let unknown : Bool = not (str_mem t.outcome_key (outcome_keys source.fields)) in
      let d : Diagnostic = transition_diag transition_outcome_unknown t source.uid in
      let s₁ : Scanned = record s { diagnostics = s.diagnostics ++ when unknown d } in
      let (quiet, target, adjacency, routes) = scan_to-quiet t t.to_step_uid s₁ h in
      let (before, known) = append-when_nil s.diagnostics unknown d quiet in
      (before, ground arith, adjacency, ap (λ (r : Routes). add_route r (route_of t)) routes)

  scan_transition-quiet :
      (s : Scanned) (t : GraphTransition)
      → (scan_transition steps archived s t).diagnostics ≡ []
      → (s.diagnostics ≡ [])
        × (is_good steps t ≡ true)
        × ((scan_transition steps archived s t).adjacency
            ≡ link s.adjacency t.from_step_uid t.to_step_uid)
        × ((scan_transition steps archived s t).routes ≡ add_route s.routes (route_of t))
  unfolding scan_transition
  scan_transition-quiet s t h = elim (Option-cases (get steps t.from_step_uid)) [
    | inl missing ↦ absurd (concat-ne-nil s.diagnostics _ (rw (missing, scan_transition) at h))
    | inr (source, found) ↦
        rw (found, scan_transition) (scan_from-quiet t source s (rw (found, scan_transition) at h))
  ]

  -- Where the loop reports nothing, every connection is good, and the adjacency and the counters
  -- are those of all connections.
  pub scan_all-quiet :
      (ts : List GraphTransition) (s : Scanned)
      → (scan_all steps archived s ts).diagnostics ≡ []
      → (s.diagnostics ≡ [])
        × (all_good steps ts ≡ true)
        × ((scan_all steps archived s ts).adjacency ≡ link_all s.adjacency ts)
        × ((scan_all steps archived s ts).routes ≡ route_all s.routes ts)
  unfolding scan_all all_good link_all route_all
  scan_all-quiet [] s h = (h, refl, refl, refl)
  scan_all-quiet (t ∷ ts) s h =
      let (quiet, good, adjacency, routes) =
        scan_all-quiet ts (scan_transition steps archived s t) h in
      let (quiet', good', adjacency', routes') = scan_transition-quiet s t quiet in
      (
        quiet',
        ground arith,
        adjacency ∙ ap (λ (a : Adjacency). link_all a ts) adjacency',
        routes ∙ ap (λ (r : Routes). route_all r ts) routes',
      )

abbrev leads_to : Option ℕ → ℕ → Bool
leads_to none v = false
leads_to (some w) v = w == v

-- the connection goes from `u` to `v`
abbrev pub connects : ℕ → ℕ → GraphTransition → Bool
connects u v t = t.from_step_uid == u && leads_to t.to_step_uid v

keys-link : (adj : Adjacency) (u : ℕ) (to : Option ℕ) → keys (link adj u to) ≡ keys adj
keys-link adj u none = refl
keys-link adj u (some v) = keys-add_edge adj u v

mem-link :
    (adj : Adjacency) (u : ℕ) (to : Option ℕ) (x w : ℕ)
    → mem u (keys adj) ≡ true
    → mem w (targets (link adj u to) x) ≡ (mem w (targets adj x) || (u == x && leads_to to w))
mem-link adj u none x w k = ground arith
mem-link adj u (some v) x w k = ground (arith, mem-add_edge adj u v x w)

pub mem-link_all :
    (ts : List GraphTransition) (adj : Adjacency) (u v : ℕ)
    → ((t : ℕ)
        → any (λ (c : GraphTransition). c.from_step_uid == t) ts ≡ true
        → mem t (keys adj) ≡ true)
    → mem v (targets (link_all adj ts) u) ≡ (mem v (targets adj u) || any (connects u v) ts)
unfolding link_all any
mem-link_all [] adj u v h = ground arith
mem-link_all (t ∷ ts) adj u v h = ground (
  arith,
  mem-link_all ts (link adj t.from_step_uid t.to_step_uid) u v
      (λ x m. rw (keys-link adj t.from_step_uid t.to_step_uid) (h x (ground (arith, m)))),
  mem-link adj t.from_step_uid t.to_step_uid u v (h t.from_step_uid (ground arith)),
)

-- every connection starts at a key
pub sources_known :
    (steps : Dict GraphStep) (ts : List GraphTransition) (u : ℕ)
    → all_good steps ts ≡ true
    → any (λ (c : GraphTransition). c.from_step_uid == u) ts ≡ true
    → has steps u ≡ true
unfolding all_good any
sources_known steps [] u g h = ground arith
sources_known steps (t ∷ ts) u g h = ground (arith, sources_known steps ts u)
