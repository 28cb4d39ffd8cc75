-- ===== src/Campaigns/Graph/Transitions/Routes.antt =====
-- The route counters.
use main_sequence_crmapi.Common.{
  count_where, ℕ, ◌+◌, ◌≤◌, ◌<◌, eq_iff, ◌≡◌, ◌↔◌, inl, inr, true, false, List, [], ◌∷◌, arith,
  if◌then◌else◌, Bool-cases,
}
use main_sequence_crmapi.Campaigns.Models.{GraphTransition}
use main_sequence_crmapi.Campaigns.Graph.Transitions.{
  route_eq, Routes, add_route, has_route, route_of, duplicate_diagnostics, Route,
}

unfoldable pub route_count : Routes → Route → ℕ
route_count [] r = 0
route_count ((q, n) ∷ routes) r =
    let rest = route_count routes r in if route_eq q r then n else rest

abbrev pub AllPositive : Routes → Type 0
AllPositive [] = Unit
AllPositive ((q, n) ∷ routes) = (0 < n) × AllPositive routes

pub has_route_iff :
    (routes : Routes) (r : Route)
    → AllPositive routes
    → (has_route routes r ≡ true) ↔ (0 < route_count routes r)
unfolding has_route route_count
has_route_iff [] r h = ground arith
has_route_iff ((q, n) ∷ routes) r h = ground (arith, has_route_iff routes r h.1)

AllPositive-add_route :
    (routes : Routes) (r : Route) → AllPositive routes → AllPositive (add_route routes r)
unfolding add_route
AllPositive-add_route [] r h = omega arith
AllPositive-add_route ((q, n) ∷ routes) r h = elim (Bool-cases (route_eq q r)) [
  | inl same ↦ rw (same, add_route) (omega arith, h.1)
  | inr other ↦ rw (other, add_route) (h.0, AllPositive-add_route routes r h.1)
]

-- two routes that equal a third are equal
route_eq_trans : (p q r : Route) → route_eq p q ≡ true → route_eq p r ≡ route_eq q r
route_eq_trans p q r h = ground (
  arith,
  eq_iff p.outcome_key q.outcome_key,
  eq_iff p.outcome_key r.outcome_key,
  eq_iff q.outcome_key r.outcome_key,
)

route_eq_apart : (p q r : Route) → route_eq p q ≡ false → route_eq p r ≡ true → route_eq q r ≡ false
route_eq_apart p q r h e = ground (
  arith,
  eq_iff p.outcome_key q.outcome_key,
  eq_iff p.outcome_key r.outcome_key,
  eq_iff q.outcome_key r.outcome_key,
)

route_count-add_route :
    (routes : Routes) (q r : Route)
    → route_count (add_route routes q) r ≡ route_count routes r + (if route_eq q r then 1 else 0)
unfolding route_count add_route
route_count-add_route [] q r = ground arith
route_count-add_route ((p, n) ∷ routes) q r = elim (Bool-cases (route_eq p q)) [
  | inl same ↦ rw (same, add_route) (ground (arith, route_eq_trans p q r same))
  | inr other ↦
      rw (other, add_route)
        (ground (arith, route_count-add_route routes q r, route_eq_apart p q r other))
]

pub duplicate-free :
    (routes : Routes) (r : Route) → duplicate_diagnostics routes ≡ [] → route_count routes r ≤ 1
unfolding duplicate_diagnostics route_count
duplicate-free [] r h = omega arith
duplicate-free ((q, n) ∷ routes) r h = ground (arith, duplicate-free routes r)

-- the counters after all connections
unfoldable pub route_all : Routes → List GraphTransition → Routes
route_all routes [] = routes
route_all routes (t ∷ ts) = route_all (add_route routes (route_of t)) ts

-- the number of connections out of `r`
abbrev pub connections : Route → List GraphTransition → ℕ
connections r = count_where (λ t. route_eq (route_of t) r)

pub route_count-route_all :
    (ts : List GraphTransition) (routes : Routes) (r : Route)
    → route_count (route_all routes ts) r ≡ route_count routes r + connections r ts
unfolding route_all count_where
route_count-route_all [] routes r = omega arith
route_count-route_all (t ∷ ts) routes r = omega (
  arith,
  route_count-route_all ts (add_route routes (route_of t)) r,
  route_count-add_route routes (route_of t) r,
)

pub AllPositive-route_all :
    (ts : List GraphTransition) (routes : Routes)
    → AllPositive routes
    → AllPositive (route_all routes ts)
unfolding route_all
AllPositive-route_all [] routes h = h
AllPositive-route_all (t ∷ ts) routes h =
    AllPositive-route_all ts (add_route routes (route_of t))
      (AllPositive-add_route routes (route_of t) h)
