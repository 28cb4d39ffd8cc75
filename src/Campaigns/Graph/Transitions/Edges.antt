-- ===== src/Campaigns/Graph/Transitions/Edges.antt =====
-- The adjacency that the connections build is a dict from the active steps to sets of them.
use main_sequence_crmapi.Common.{
  put, dict_keys, mem, set_add, ℕ, ◌≡◌, refl, ◌∙◌, inl, inr, Bool, true, false, ◌&&◌, ◌||◌, List,
  [], ◌∷◌, arith, Dict, has, mem-dict_keys, mem-dict_keys-put, ◌==◌, if◌then◌else◌, Bool-cases,
  mem-set_add,
}
use main_sequence_crmapi.Campaigns.Models.{GraphStep}
use main_sequence_crmapi.Campaigns.Graph.Closure.{Adjacency, targets, Edge}
use main_sequence_crmapi.Campaigns.Graph.Cycles.{keys}
use main_sequence_crmapi.Campaigns.Graph.Cycles.Degrees.{Distinct, SetsDistinct, IsGraph}
use main_sequence_crmapi.Campaigns.Graph.Transitions.{index_active, add_edge, no_edges}

pub keys-no_edges : (d : Dict GraphStep) → keys (no_edges d) ≡ dict_keys d
unfolding keys no_edges dict_keys
keys-no_edges [] = refl
keys-no_edges ((uid, s) ∷ d) = rw (keys-no_edges d)

pub targets-no_edges : (d : Dict GraphStep) (u : ℕ) → targets (no_edges d) u ≡ []
unfolding targets no_edges
targets-no_edges [] u = refl
targets-no_edges ((uid, s) ∷ d) u = ground (arith, targets-no_edges d u)

SetsDistinct-no_edges : (d : Dict GraphStep) → SetsDistinct (no_edges d)
unfolding no_edges
SetsDistinct-no_edges [] = tt
SetsDistinct-no_edges ((uid, s) ∷ d) = (tt, SetsDistinct-no_edges d)

pub keys-add_edge : (adj : Adjacency) (u v : ℕ) → keys (add_edge adj u v) ≡ keys adj
unfolding keys add_edge
keys-add_edge [] u v = refl
keys-add_edge ((k, ts) ∷ adj) u v = ground (arith, keys-add_edge adj u v)

pub mem-add_edge :
    (adj : Adjacency) (u v x w : ℕ)
    → mem w (targets (add_edge adj u v) x)
      ≡ (mem w (targets adj x) || (x == u && (w == v) && mem u (keys adj)))
unfolding keys add_edge targets mem
mem-add_edge [] u v x w = ground arith
mem-add_edge ((k, ts) ∷ adj) u v x w = ground (arith, mem-add_edge adj u v x w, mem-set_add w v ts)

Distinct-set_add : (v : ℕ) (xs : List ℕ) → Distinct xs → Distinct (set_add v xs)
unfolding set_add mem
Distinct-set_add v [] h = (refl, tt)
Distinct-set_add v (x ∷ xs) h = elim (Bool-cases (v == x)) [
  | inl same ↦ rw (same, set_add) h
  | inr other ↦ rw (other, set_add) (ground (arith, mem-set_add x v xs), Distinct-set_add v xs h.1)
]

SetsDistinct-add_edge :
    (adj : Adjacency) (u v : ℕ) → SetsDistinct adj → SetsDistinct (add_edge adj u v)
unfolding add_edge
SetsDistinct-add_edge [] u v h = tt
SetsDistinct-add_edge ((k, ts) ∷ adj) u v h = elim (Bool-cases (k == u)) [
  | inl same ↦ rw (same, add_edge) (Distinct-set_add v ts h.0, h.1)
  | inr other ↦ rw (other, add_edge) (h.0, SetsDistinct-add_edge adj u v h.1)
]

pub Distinct-put :
    (d : Dict GraphStep) (k : ℕ) (s : GraphStep)
    → Distinct (dict_keys d)
    → Distinct (dict_keys (put d k s))
unfolding put dict_keys mem
Distinct-put [] k s h = (refl, tt)
Distinct-put ((j, v) ∷ d) k s h = elim (Bool-cases (j == k)) [
  | inl same ↦ rw (same, put) h
  | inr other ↦ rw (other, put) (ground (arith, mem-dict_keys-put d k s j), Distinct-put d k s h.1)
]

Distinct-if :
    (b : Bool) (d e : Dict GraphStep)
    → Distinct (dict_keys d)
    → Distinct (dict_keys e)
    → Distinct (dict_keys (if b then d else e))
Distinct-if true d e hd he = hd
Distinct-if false d e hd he = he

pub Distinct-index_active :
    (steps : List GraphStep) (acc : Dict GraphStep)
    → Distinct (dict_keys acc)
    → Distinct (dict_keys (index_active steps acc))
unfolding index_active
Distinct-index_active [] acc h = h
Distinct-index_active (s ∷ steps) acc h =
    Distinct-index_active steps (if s.archived then acc else put acc s.uid s)
      (Distinct-if s.archived acc (put acc s.uid s) h (Distinct-put acc s.uid s h))

-- an adjacency whose keys are the steps
pub record IsOver (steps : Dict GraphStep) (adj : Adjacency) : Type 0 where
  pub same_keys : keys adj ≡ dict_keys steps
  pub sets : SetsDistinct adj
  pub inside : (u v : ℕ) → Edge adj u v → has steps v ≡ true

pub IsOver-no_edges : (steps : Dict GraphStep) → IsOver steps (no_edges steps)
unfolding mem
IsOver-no_edges steps = record {
  same_keys = keys-no_edges steps;
  sets = SetsDistinct-no_edges steps;
  inside = λ u v e. ground (arith, targets-no_edges steps u);
}

pub IsOver-add_edge :
    (steps : Dict GraphStep) (adj : Adjacency) (u v : ℕ)
    → IsOver steps adj
    → has steps v ≡ true
    → IsOver steps (add_edge adj u v)
IsOver-add_edge steps adj u v h live = record {
  same_keys = keys-add_edge adj u v ∙ h.same_keys;
  sets = SetsDistinct-add_edge adj u v h.sets;
  inside = λ x w e. ground (arith, h.inside x w, mem-add_edge adj u v x w);
}

pub IsGraph-IsOver :
    (steps : Dict GraphStep) (adj : Adjacency)
    → Distinct (dict_keys steps)
    → IsOver steps adj
    → IsGraph adj
IsGraph-IsOver steps adj once h = record {
  distinct = rw h.same_keys once;
  sets = h.sets;
  closed = λ u v e. rw h.same_keys (rw (mem-dict_keys steps v) (h.inside u v e));
}
