-- ===== src/Campaigns/Graph/Cycles/Members.antt =====
-- The answer of `_cycle_members` of src/crm/campaigns/graph.py.
use main_sequence_crmapi.Common.{
  mem, ℕ, zero, suc, ◌+◌, ◌-◌, ◌<◌, ◌≡◌, refl, ap, ◌∙◌, ◌≢◌, ◌↔◌, inl, inr, Bool, true, false, not,
  ◌||◌, Option, none, some, List, [], ◌∷◌, ◌++◌, map, arith, ◌==◌, if◌then◌else◌, Bool-cases,
  Option-cases, length,
}
use main_sequence_crmapi.Campaigns.Graph.Closure.{
  Adjacency, targets, Edge, reaches, unseen-le-length, reaches_iff, Reach, here, step,
}
use main_sequence_crmapi.Campaigns.Graph.Cycles.{
  Degrees, degree, set_degree, raise_degree, raise_all, count_edges, lower, drain, keys, idle, busy,
  insert_sorted, sort_uids, initial_degrees, remaining, cycle_members,
}
use main_sequence_crmapi.Campaigns.Graph.Cycles.Degrees.{
  Distinct, degree-initial, pending_pred, pending_source, IsGraph,
}
use main_sequence_crmapi.Campaigns.Graph.Cycles.Rounds.{IsOrdered, drain-Inv, Inv}

names : Degrees → List ℕ
names [] = []
names ((k, d) ∷ deg) = k ∷ names deg

names-set_degree : (deg : Degrees) (t n : ℕ) → names (set_degree deg t n) ≡ names deg
unfolding names set_degree
names-set_degree [] t n = refl
names-set_degree ((k, d) ∷ deg) t n = ground (arith, names-set_degree deg t n)

names-raise_degree : (deg : Degrees) (t : ℕ) → names (raise_degree deg t) ≡ names deg
unfolding raise_degree
names-raise_degree deg t = elim (Option-cases (degree deg t)) [
  | inl missing ↦ rw (missing, raise_degree)
  | inr (d, found) ↦ rw (found, raise_degree) (names-set_degree deg t (d + 1))
]

names-raise_all : (ts : List ℕ) (deg : Degrees) → names (raise_all deg ts) ≡ names deg
unfolding raise_all
names-raise_all [] deg = refl
names-raise_all (t ∷ ts) deg = names-raise_all ts (raise_degree deg t) ∙ names-raise_degree deg t

names-count_edges : (adj : Adjacency) (deg : Degrees) → names (count_edges deg adj) ≡ names deg
unfolding count_edges
names-count_edges [] deg = refl
names-count_edges ((k, ts) ∷ adj) deg =
    names-count_edges adj (raise_all deg ts) ∙ names-raise_all ts deg

names-zeros : (adj : Adjacency) → names (map (λ e. (e.0, 0)) adj) ≡ keys adj
unfolding names keys
names-zeros [] = refl
names-zeros ((k, ts) ∷ adj) = rw (names-zeros adj)

names-initial : (adj : Adjacency) → names (initial_degrees adj) ≡ keys adj
unfolding initial_degrees
names-initial adj = names-count_edges adj (map (λ e. (e.0, 0)) adj) ∙ names-zeros adj

names-lower :
    (ts : List ℕ) (deg : Degrees) (queue : List ℕ) (deg' : Degrees) (queue' : List ℕ)
    → lower ts deg queue ≡ some (deg', queue')
    → names deg' ≡ names deg
unfolding lower
names-lower [] deg queue deg' queue' h = ground arith
names-lower (t ∷ ts) deg queue deg' queue' h = elim (Option-cases (degree deg t)) [
  | inl missing ↦ cc (rw (missing, lower) at h)
  | inr (d, found) ↦
      names-lower ts (set_degree deg t (d - 1)) (if d == 1 then queue ++ t ∷ [] else queue) deg'
        queue' (rw (found, lower) at h)
      ∙ names-set_degree deg t (d - 1)
]

names-drain :
    (fuel : ℕ) (adj : Adjacency) (deg : Degrees) (queue : List ℕ) (deg' : Degrees)
    → drain fuel adj deg queue ≡ some deg'
    → names deg' ≡ names deg
unfolding drain
names-drain zero adj deg queue deg' h = ground arith
names-drain (suc fuel) adj deg [] deg' h = ground arith
names-drain (suc fuel) adj deg (current ∷ queue) deg' h =
    elim (Option-cases (lower (targets adj current) deg queue)) [
      | inl missing ↦ cc (rw (missing, drain) at h)
      | inr ((deg₁, queue₁), found) ↦
          names-drain fuel adj deg₁ queue₁ deg' (rw (found, drain) at h)
          ∙ names-lower (targets adj current) deg queue deg₁ queue₁ found
    ]

abbrev is_zero : Option ℕ → Bool
is_zero none = false
is_zero (some d) = d == 0

abbrev is_positive : Option ℕ → Bool
is_positive none = false
is_positive (some d) = not (d == 0)

no_degree : (deg : Degrees) (v : ℕ) → mem v (names deg) ≡ false → degree deg v ≡ none
unfolding names degree mem
no_degree [] v h = refl
no_degree ((k, d) ∷ deg) v h = ground (arith, no_degree deg v)

mem-idle :
    (deg : Degrees) (v : ℕ) → Distinct (names deg) → mem v (idle deg) ≡ is_zero (degree deg v)
unfolding idle degree names mem
mem-idle [] v h = refl
mem-idle ((k, d) ∷ deg) v h = ground (arith, mem-idle deg v h.1, no_degree deg k h.0)

Distinct-idle : (deg : Degrees) → Distinct (names deg) → Distinct (idle deg)
unfolding idle names mem
Distinct-idle [] h = tt
Distinct-idle ((k, d) ∷ deg) h = elim (Bool-cases (d == 0)) [
  | inl zero_degree ↦
      rw (zero_degree, idle)
        (ground (arith, mem-idle deg k h.1, no_degree deg k h.0), Distinct-idle deg h.1)
  | inr other ↦ rw (other, idle) (Distinct-idle deg h.1)
]

mem-busy :
    (deg : Degrees) (v : ℕ) → Distinct (names deg) → mem v (busy deg) ≡ is_positive (degree deg v)
unfolding busy degree names mem
mem-busy [] v h = refl
mem-busy ((k, d) ∷ deg) v h = ground (arith, mem-busy deg v h.1, no_degree deg k h.0)

mem-insert_sorted : (v a : ℕ) (xs : List ℕ) → mem v (insert_sorted a xs) ≡ (v == a || mem v xs)
unfolding insert_sorted mem
mem-insert_sorted v a [] = ground arith
mem-insert_sorted v a (x ∷ xs) = ground (arith, mem-insert_sorted v a xs)

mem-sort_uids : (v : ℕ) (xs : List ℕ) → mem v (sort_uids xs) ≡ mem v xs
unfolding sort_uids mem
mem-sort_uids v [] = refl
mem-sort_uids v (x ∷ xs) = ground (arith, mem-insert_sorted v x (sort_uids xs), mem-sort_uids v xs)

Inv-initial :
    (adj : Adjacency) → IsGraph adj → Inv adj [] (initial_degrees adj) (idle (initial_degrees adj))
unfolding mem
Inv-initial adj g =
    let deg : Degrees = initial_degrees adj in
    let once : Distinct (names deg) = rw (names-initial adj) g.distinct in
    let at = λ (v : ℕ). degree-initial adj v g.sets in
    record {
      degrees = at;
      settled = λ v k z. ground (arith, at v, mem-idle deg v once);
      queued = λ v q. ground (arith, at v, mem-idle deg v once);
      taken = λ v m. ground arith;
      fresh = λ v q. refl;
      distinct = Distinct-idle deg once;
      ordered = tt;
    }

-- Some set of steps holds `v`, and each step of the set has a connection from a step of the set.
pub record Trapped (adj : Adjacency) (v : ℕ) : Type 0 where
  pub inside : ℕ → Bool
  pub holds : inside v ≡ true
  pub fed : (w : ℕ) → inside w ≡ true → (u : ℕ) × (inside u ≡ true) × Edge adj u w

ordered_free :
    (adj : Adjacency) (inside : ℕ → Bool)
    → ((w : ℕ) → inside w ≡ true → (u : ℕ) × (inside u ≡ true) × Edge adj u w)
    → (done : List ℕ) → IsOrdered adj done
    → (w : ℕ) → inside w ≡ true
    → mem w done ≡ false
unfolding mem
ordered_free adj inside fed [] h w m = refl
ordered_free adj inside fed (u ∷ done) h w m =
    let (p, p_in, e) = fed w m in
    ground (
      arith,
      ordered_free adj inside fed done h.1 w m,
      ordered_free adj inside fed done h.1 p p_in,
      pending_pred adj done p w e,
    )

length-keys : (adj : Adjacency) → length (keys adj) ≡ length adj
unfolding keys
length-keys [] = refl
length-keys ((k, ts) ∷ adj) = ap suc (length-keys adj)

module _ (adj : Adjacency) (g : IsGraph adj) where
  members_exist :
      (members : List ℕ) × (cycle_members adj ≡ some members)
      × ((v : ℕ) → (mem v members ≡ true) ↔ Trapped adj v)
  unfolding cycle_members mem
  members_exist =
      let deg : Degrees = initial_degrees adj in
      let (final, done, ends, h) =
        drain-Inv adj g (suc (length adj)) [] deg (idle deg)
          (omega (arith, unseen-le-length (keys adj) [], length-keys adj)) (Inv-initial adj g) in
      let same : names final ≡ keys adj =
        names-drain (suc (length adj)) adj deg (idle deg) final ends ∙ names-initial adj in
      let once : Distinct (names final) = rw same g.distinct in
      let listed : (v : ℕ) → mem v (sort_uids (busy final)) ≡ is_positive (degree final v) =
        λ v. mem-sort_uids v (busy final) ∙ mem-busy final v once in
      (
        sort_uids (busy final),
        ap remaining ends,
        λ v. (
          λ m. record {
            inside = λ w. mem w (sort_uids (busy final));
            holds = m;
            fed = λ w m'.
                let (u, is_key, waits, e) =
                  pending_source adj done w g.distinct (ground (arith, listed w, h.degrees w)) in
                (u, ground (arith, listed u, h.degrees u, h.settled u), e);
          },
          λ t.
              let (u, u_in, e) = t.fed v t.holds in
              ground (
                arith,
                listed v,
                h.degrees v,
                g.closed u v,
                h.settled v,
                ordered_free adj t.inside t.fed done h.ordered v t.holds,
                h.taken v,
              ),
        ),
      )

-- On a graph in which each step that is a target is a key, as in those that validate_graph builds,
-- `_cycle_members` raises no KeyError, and it returns exactly the steps that stand in some set of
-- steps each of which has a connection from a step of the set.
pub cycle_members_correct :
    (adj : Adjacency)
    → IsGraph adj
    → (members : List ℕ) × (cycle_members adj ≡ some members)
      × ((v : ℕ) → (mem v members ≡ true) ↔ Trapped adj v)
cycle_members_correct adj g = members_exist adj g

-- a walk of one connection or more from `v` back to `v`
abbrev pub OnCycle : Adjacency → ℕ → Type 0
OnCycle adj v = (u : ℕ) × Reach adj v u × Edge adj u v

before :
    (adj : Adjacency) (v : ℕ)
    → OnCycle adj v
    → {w : ℕ} → Reach adj v w
    → (u : ℕ) × Reach adj v u × Edge adj u w
before adj v c here = c
before adj v c (step {u} p e) = (u, p, e)

Trapped-behind : (adj : Adjacency) (v w : ℕ) → OnCycle adj v → Reach adj v w → Trapped adj w
Trapped-behind adj v w c p = record {
  inside = λ x. reaches adj v x;
  holds = (reaches_iff adj v w).1 p;
  fed = λ x r.
      let (u, q, e) = before adj v c ((reaches_iff adj v x).0 r) in
      (u, (reaches_iff adj v u).1 q, e);
}

-- On a graph in which each step that is a target is a key, every step on a cycle is returned, and so is
-- every step that a cycle leads to, though it may itself lie on no cycle, as the docstring says it does.
pub cycle_members_behind :
    (adj : Adjacency) (v w : ℕ)
    → IsGraph adj
    → OnCycle adj v
    → Reach adj v w
    → (members : List ℕ) × (cycle_members adj ≡ some members) × (mem w members ≡ true)
cycle_members_behind adj v w g c p =
    let (members, runs, exact) = cycle_members_correct adj g in
    (members, runs, (exact w).1 (Trapped-behind adj v w c p))

-- no infinite descent below `n`
descent :
    (adj : Adjacency) (rank : ℕ → ℕ)
    → ((u v : ℕ) → Edge adj u v → rank u < rank v)
    → (n w : ℕ) → rank w < n
    → ¬ Trapped adj w
descent adj rank up zero w lt t = absurd (omega arith)
descent adj rank up (suc n) w lt t =
    let (u, u_in, e) = t.fed w t.holds in
    descent adj rank up n u (omega (arith, up u w e))
      (record { inside = t.inside; holds = u_in; fed = t.fed })

nil_of_not_mem : (xs : List ℕ) → ((v : ℕ) → mem v xs ≢ true) → xs ≡ []
unfolding mem
nil_of_not_mem [] h = refl
nil_of_not_mem (x ∷ xs) h = absurd (h x (ground arith))

-- On a graph in which each step that is a target is a key, where the steps can be ranked so that every
-- connection leads to a greater rank, nothing is returned.
pub cycle_members_ranked :
    (adj : Adjacency) (rank : ℕ → ℕ)
    → IsGraph adj
    → ((u v : ℕ) → Edge adj u v → rank u < rank v)
    → cycle_members adj ≡ some []
cycle_members_ranked adj rank g up =
    let (members, runs, exact) = cycle_members_correct adj g in
    runs
    ∙ ap some (
        nil_of_not_mem members
          (λ v m. descent adj rank up (suc (rank v)) v (omega arith) ((exact v).0 m)))
