-- ===== src/Campaigns/Graph/Cycles.antt =====
-- `_cycle_members` of src/crm/campaigns/graph.py: Kahn's algorithm over indegrees. A UUID is its
-- 128-bit integer, whose order is the order of the canonical texts that `key=str` sorts by.
pub mod Degrees
mod Rounds
pub mod Members
use main_sequence_crmapi.Common.{
  ℕ, zero, suc, ◌+◌, ◌-◌, ◌≡◌, refl, Option, none, some, List, [], ◌∷◌, ◌++◌, map, leb, ◌==◌,
  if◌then◌else◌, length,
}
use main_sequence_crmapi.Campaigns.Graph.Closure.{Adjacency, targets}

-- indegree: dict[UUID, int]
abbrev pub Degrees : Type 0
Degrees = List (ℕ × ℕ)

-- indegree.get(uid)
unfoldable pub degree : Degrees → ℕ → Option ℕ
degree [] v = none
degree ((k, d) ∷ deg) v = if k == v then some d else degree deg v

-- indegree[uid] = d, for a key that is there
unfoldable pub set_degree : Degrees → ℕ → ℕ → Degrees
set_degree [] t n = []
set_degree ((k, d) ∷ deg) t n = if k == t then (k, n) ∷ deg else (k, d) ∷ set_degree deg t n

-- if target in indegree: indegree[target] += 1
unfoldable pub raise_degree : Degrees → ℕ → Degrees
raise_degree deg t = elim (degree deg t) [ none ↦ deg | some d ↦ set_degree deg t (d + 1) ]

unfoldable pub raise_all : Degrees → List ℕ → Degrees
raise_all deg [] = deg
raise_all deg (t ∷ ts) = raise_all (raise_degree deg t) ts

unfoldable pub count_edges : Degrees → Adjacency → Degrees
count_edges deg [] = deg
count_edges deg ((k, ts) ∷ adj) = count_edges (raise_all deg ts) adj

-- the `for target in adjacency[current]` loop over `indegree` and `queue`: `none` is the KeyError of
-- a target that is no key. A degree is at least 1 when it is lowered, by `Inv.degrees` in `Rounds`.
unfoldable pub lower : List ℕ → Degrees → List ℕ → Option (Degrees × List ℕ)
lower [] deg queue = some (deg, queue)
lower (t ∷ ts) deg queue = elim (degree deg t) [
  | none ↦ none
  | some d ↦ lower ts (set_degree deg t (d - 1)) (if d == 1 then queue ++ t ∷ [] else queue)
]

-- the `while queue` loop
unfoldable pub drain : ℕ → Adjacency → Degrees → List ℕ → Option Degrees
drain zero adj deg queue = some deg
drain (suc fuel) adj deg [] = some deg
drain (suc fuel) adj deg (current ∷ queue) = elim (lower (targets adj current) deg queue) [
  | none ↦ none
  | some (deg', queue') ↦ drain fuel adj deg' queue'
]

unfoldable pub keys : Adjacency → List ℕ
keys [] = []
keys ((k, ts) ∷ adj) = k ∷ keys adj

-- the UUIDs whose degree is 0, and those whose degree is not
unfoldable pub idle : Degrees → List ℕ
idle [] = []
idle ((k, d) ∷ deg) = let rest = idle deg in if d == 0 then k ∷ rest else rest

unfoldable pub busy : Degrees → List ℕ
busy [] = []
busy ((k, d) ∷ deg) = let rest = busy deg in if d == 0 then rest else k ∷ rest

unfoldable pub insert_sorted : ℕ → List ℕ → List ℕ
insert_sorted a [] = a ∷ []
insert_sorted a (x ∷ xs) = if leb a x then a ∷ x ∷ xs else x ∷ insert_sorted a xs

unfoldable pub sort_uids : List ℕ → List ℕ
sort_uids [] = []
sort_uids (x ∷ xs) = insert_sorted x (sort_uids xs)

unfoldable pub initial_degrees : Adjacency → Degrees
unfolding count_edges raise_all raise_degree
initial_degrees adj = count_edges (map (λ e. (e.0, 0)) adj) adj

-- the UUIDs whose degree stayed positive, in order
unfoldable pub remaining : Option Degrees → Option (List ℕ)
remaining none = none
remaining (some final) = some (sort_uids (busy final))

-- each round takes a key that no earlier round took, so one round for each key is enough
unfoldable pub cycle_members : Adjacency → Option (List ℕ)
unfolding initial_degrees drain lower degree set_degree idle busy sort_uids insert_sorted targets
    remaining
cycle_members adj =
    let deg : Degrees = initial_degrees adj in
    remaining (drain (suc (length adj)) adj deg (idle deg))

-- 2 and 3 form a cycle, and 4 stands behind it
abbrev pub looped : Adjacency
looped = (1, 2 ∷ []) ∷ (2, 3 ∷ []) ∷ (3, 2 ∷ 4 ∷ []) ∷ (4, []) ∷ []

cycle_members_run : cycle_members looped ≡ some (2 ∷ 3 ∷ 4 ∷ [])
unfolding cycle_members
cycle_members_run = refl

cycle_members_none : cycle_members ((1, 2 ∷ 3 ∷ []) ∷ (2, 3 ∷ []) ∷ (3, []) ∷ []) ≡ some []
unfolding cycle_members
cycle_members_none = refl
