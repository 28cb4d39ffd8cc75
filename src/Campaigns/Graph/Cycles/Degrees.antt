-- ===== src/Campaigns/Graph/Cycles/Degrees.antt =====
-- Degrees count the edges whose source has not been taken from the queue.
use main_sequence_crmapi.Common.{
  mem, ℕ, ◌+◌, ◌<◌, ◌≡◌, refl, inl, inr, Bool, true, false, not, ◌&&◌, Option, none, some, List, [],
  ◌∷◌, map, arith, ◌==◌, if◌then◌else◌, Bool-cases, Option-cases,
}
use main_sequence_crmapi.Campaigns.Graph.Closure.{Adjacency, targets, Edge}
use main_sequence_crmapi.Campaigns.Graph.Cycles.{
  Degrees, degree, set_degree, raise_degree, raise_all, count_edges, keys, initial_degrees,
}

-- every key once
abbrev pub Distinct : List ℕ → Type 0
Distinct [] = Unit
Distinct (x ∷ xs) = (mem x xs ≡ false) × Distinct xs

abbrev pub SetsDistinct : Adjacency → Type 0
SetsDistinct [] = Unit
SetsDistinct ((k, ts) ∷ adj) = Distinct ts × SetsDistinct adj

-- what `validate_graph` builds: a dict from steps to sets of steps
pub record IsGraph (adj : Adjacency) : Type 0 where
  pub distinct : Distinct (keys adj)
  pub sets : SetsDistinct adj
  pub closed : (u v : ℕ) → Edge adj u v → mem v (keys adj) ≡ true

-- the edges into `v` from outside `done`
unfoldable pub pending : Adjacency → List ℕ → ℕ → ℕ
pending [] done v = 0
pending ((k, ts) ∷ adj) done v =
    (if mem k done then 0 else if mem v ts then 1 else 0) + pending adj done v

abbrev pub shift : (ℕ → ℕ) → Option ℕ → Option ℕ
shift f none = none
shift f (some d) = some (f d)

pub degree-set_degree :
    (deg : Degrees) (t n v : ℕ)
    → degree (set_degree deg t n) v
      ≡ (if t == v then shift (λ _. n) (degree deg v) else degree deg v)
unfolding degree set_degree
degree-set_degree [] t n v = ground arith
degree-set_degree ((k, d) ∷ deg) t n v = ground (arith, degree-set_degree deg t n v)

abbrev one_if : Bool → ℕ
one_if b = if b then 1 else 0

degree-raise_degree :
    (deg : Degrees) (t v : ℕ)
    → degree (raise_degree deg t) v ≡ shift (λ d. d + one_if (t == v)) (degree deg v)
unfolding raise_degree
degree-raise_degree deg t v = elim (Option-cases (degree deg t)) [
  | inl missing ↦ rw (missing, raise_degree) (ground arith)
  | inr (d, found) ↦ rw (found, raise_degree) (ground (arith, degree-set_degree deg t (d + 1) v))
]

degree-raise_all :
    (ts : List ℕ) (deg : Degrees) (v : ℕ)
    → Distinct ts
    → degree (raise_all deg ts) v ≡ shift (λ d. d + one_if (mem v ts)) (degree deg v)
unfolding raise_all mem
degree-raise_all [] deg v h = ground arith
degree-raise_all (t ∷ ts) deg v h =
    ground (arith, degree-raise_all ts (raise_degree deg t) v h.1, degree-raise_degree deg t v)

degree-count_edges :
    (adj : Adjacency) (deg : Degrees) (v : ℕ)
    → SetsDistinct adj
    → degree (count_edges deg adj) v ≡ shift (λ d. d + pending adj [] v) (degree deg v)
unfolding count_edges pending mem
degree-count_edges [] deg v h = ground arith
degree-count_edges ((k, ts) ∷ adj) deg v h =
    ground (arith, degree-count_edges adj (raise_all deg ts) v h.1, degree-raise_all ts deg v h.0)

degree-zeros :
    (adj : Adjacency) (v : ℕ)
    → degree (map (λ e. (e.0, 0)) adj) v ≡ (if mem v (keys adj) then some 0 else none)
unfolding degree keys mem
degree-zeros [] v = ground arith
degree-zeros ((k, ts) ∷ adj) v = ground (arith, degree-zeros adj v)

pub degree-initial :
    (adj : Adjacency) (v : ℕ)
    → SetsDistinct adj
    → degree (initial_degrees adj) v ≡ (if mem v (keys adj) then some (pending adj [] v) else none)
unfolding initial_degrees
degree-initial adj v h =
    ground (arith, degree-count_edges adj (map (λ e. (e.0, 0)) adj) v h, degree-zeros adj v)

-- Taking `u` from the queue removes exactly the edges out of `u`.
pending_other :
    (adj : Adjacency) (done : List ℕ) (u v : ℕ)
    → mem u (keys adj) ≡ false
    → pending adj (u ∷ done) v ≡ pending adj done v
unfolding pending keys mem
pending_other [] done u v h = refl
pending_other ((k, ts) ∷ adj) done u v h = ground (arith, pending_other adj done u v)

pub pending_taken :
    (adj : Adjacency) (done : List ℕ) (u v : ℕ)
    → Distinct (keys adj)
    → mem u done ≡ false
    → pending adj (u ∷ done) v + one_if (mem v (targets adj u)) ≡ pending adj done v
unfolding pending keys mem targets
pending_taken [] done u v h n = ground arith
pending_taken ((k, ts) ∷ adj) done u v h n =
    ground (arith, pending_taken adj done u v h.1, pending_other adj done k v h.0)

pub pending_pred :
    (adj : Adjacency) (done : List ℕ) (u v : ℕ)
    → Edge adj u v
    → pending adj done v ≡ 0
    → mem u done ≡ true
unfolding pending targets mem
pending_pred [] done u v e h = ground arith
pending_pred ((k, ts) ∷ adj) done u v e h = ground (arith, pending_pred adj done u v)

mem-keys_false : (u k : ℕ) (ks : List ℕ) → mem k ks ≡ false → mem u ks ≡ true → (k == u) ≡ false
unfolding mem
mem-keys_false u k [] h m = ground arith
mem-keys_false u k (x ∷ ks) h m = ground (arith, mem-keys_false u k ks)

-- An edge that is still counted has a source that has not been taken.
pub pending_source :
    (adj : Adjacency) (done : List ℕ) (v : ℕ)
    → Distinct (keys adj)
    → 0 < pending adj done v
    → (u : ℕ) × (mem u (keys adj) ≡ true) × (mem u done ≡ false) × Edge adj u v
unfolding pending targets keys mem
pending_source [] done v h lt = absurd (omega arith)
pending_source ((k, ts) ∷ adj) done v h lt = elim (Bool-cases (not (mem k done) && mem v ts)) [
  | inl found ↦ (k, ground arith, ground arith, ground arith)
  | inr other ↦
      let (u, is_key, fresh, e) = pending_source adj done v h.1 (ground arith) in
      (u, ground arith, fresh, ground (arith, mem-keys_false u k (keys adj) h.0))
]
