-- ===== src/Campaigns/Graph/Cycles/Rounds.antt =====
-- The invariant of the queue of `_cycle_members`.
use main_sequence_crmapi.Common.{
  mem, ℕ, zero, suc, ◌+◌, ◌-◌, ◌≤◌, ◌<◌, ◌≡◌, refl, inl, inr, Bool, true, false, ◌&&◌, ◌||◌, Option,
  none, some, List, [], ◌∷◌, ◌++◌, arith, ◌==◌, if◌then◌else◌, Bool-cases, Option-cases, mem-append,
}
use main_sequence_crmapi.Campaigns.Graph.Closure.{Adjacency, targets, unseen}
use main_sequence_crmapi.Campaigns.Graph.Cycles.{Degrees, degree, set_degree, lower, drain, keys}
use main_sequence_crmapi.Campaigns.Graph.Cycles.Degrees.{
  Distinct, SetsDistinct, pending, shift, degree-set_degree, pending_taken, IsGraph,
}

abbrev value : Option ℕ → ℕ
value none = 0
value (some d) = d

abbrev is_some : Option ℕ → Bool
is_some none = false
is_some (some d) = true

-- what a round makes of the degrees, and what it appends to the queue
drop_all : List ℕ → Degrees → Degrees
drop_all [] deg = deg
drop_all (t ∷ ts) deg = drop_all ts (set_degree deg t (value (degree deg t) - 1))

newly : List ℕ → Degrees → List ℕ
newly [] deg = []
newly (t ∷ ts) deg =
    let rest = newly ts (set_degree deg t (value (degree deg t) - 1)) in
    if value (degree deg t) == 1 then t ∷ rest else rest

append-cons_lem : (xs ys : List ℕ) (t : ℕ) → (xs ++ t ∷ []) ++ ys ≡ xs ++ (t ∷ ys)
append-cons_lem [] ys t = refl
append-cons_lem (x ∷ xs) ys t = rw (append-cons_lem xs ys t)

append_nil : (xs : List ℕ) → xs ++ [] ≡ xs
append_nil [] = refl
append_nil (x ∷ xs) = rw (append_nil xs)

is_some-set :
    (deg : Degrees) (t n v : ℕ) → is_some (degree (set_degree deg t n) v) ≡ is_some (degree deg v)
is_some-set deg t n v = ground (arith, degree-set_degree deg t n v)

lower_lem :
    (ts : List ℕ) (deg : Degrees) (queue : List ℕ)
    → ((t : ℕ) → mem t ts ≡ true → is_some (degree deg t) ≡ true)
    → lower ts deg queue ≡ some (drop_all ts deg, queue ++ newly ts deg)
unfolding lower drop_all newly mem
lower_lem [] deg queue known = rw (append_nil queue)
lower_lem (t ∷ ts) deg queue known = elim (Option-cases (degree deg t)) [
  | inl missing ↦ absurd (ground (arith, known t))
  | inr (d, found) ↦
      let deg' : Degrees = set_degree deg t (d - 1) in
      let known' : (x : ℕ) → mem x ts ≡ true → is_some (degree deg' x) ≡ true =
        λ x m. ground (arith, known x, is_some-set deg t (d - 1) x) in
      rw (found, lower, drop_all, newly)
        (ground (
          arith,
          lower_lem ts deg' (if d == 1 then queue ++ t ∷ [] else queue) known',
          append-cons_lem queue (newly ts deg') t,
        ))
]

degree-drop_all :
    (ts : List ℕ) (deg : Degrees) (v : ℕ)
    → Distinct ts
    → degree (drop_all ts deg) v
      ≡ (if mem v ts then shift (λ d. d - 1) (degree deg v) else degree deg v)
unfolding drop_all mem
degree-drop_all [] deg v h = ground arith
degree-drop_all (t ∷ ts) deg v h = ground (
  arith,
  degree-drop_all ts (set_degree deg t (value (degree deg t) - 1)) v h.1,
  degree-set_degree deg t (value (degree deg t) - 1) v,
)

mem-newly :
    (ts : List ℕ) (deg : Degrees) (v : ℕ)
    → Distinct ts
    → mem v (newly ts deg) ≡ (mem v ts && (value (degree deg v) == 1))
unfolding newly mem
mem-newly [] deg v h = ground arith
mem-newly (t ∷ ts) deg v h = ground (
  arith,
  mem-newly ts (set_degree deg t (value (degree deg t) - 1)) v h.1,
  degree-set_degree deg t (value (degree deg t) - 1) v,
)

Distinct-newly : (ts : List ℕ) (deg : Degrees) → Distinct ts → Distinct (newly ts deg)
unfolding newly mem
Distinct-newly [] deg h = tt
Distinct-newly (t ∷ ts) deg h =
    let deg' : Degrees = set_degree deg t (value (degree deg t) - 1) in
    elim (Bool-cases (value (degree deg t) == 1)) [
      | inl one ↦
          rw (one, newly) (ground (arith, mem-newly ts deg' t h.1), Distinct-newly ts deg' h.1)
      | inr more ↦ rw (more, newly) (Distinct-newly ts deg' h.1)
    ]

Distinct-append :
    (xs ys : List ℕ)
    → Distinct xs
    → Distinct ys
    → ((v : ℕ) → mem v xs ≡ true → mem v ys ≡ false)
    → Distinct (xs ++ ys)
unfolding mem
Distinct-append [] ys hx hy apart = hy
Distinct-append (x ∷ xs) ys hx hy apart = (
  ground (arith, mem-append x xs ys, apart x),
  Distinct-append xs ys hx.1 hy (λ v m. ground (arith, apart v)),
)

Distinct-targets : (adj : Adjacency) (u : ℕ) → SetsDistinct adj → Distinct (targets adj u)
unfolding targets
Distinct-targets [] u h = tt
Distinct-targets ((k, ts) ∷ adj) u h = elim (Bool-cases (k == u)) [
  | inl same ↦ rw (same, targets) h.0
  | inr other ↦ rw (other, targets) (Distinct-targets adj u h.1)
]

-- each UUID was taken after every step with a connection to it
abbrev pub IsOrdered : Adjacency → List ℕ → Type 0
IsOrdered adj [] = Unit
IsOrdered adj (u ∷ done) = (pending adj done u ≡ 0) × IsOrdered adj done

pub record Inv (adj : Adjacency) (done : List ℕ) (deg : Degrees) (queue : List ℕ) : Type 0 where
  pub degrees :
      (v : ℕ) → degree deg v ≡ (if mem v (keys adj) then some (pending adj done v) else none)
  pub settled :
      (v : ℕ)
      → mem v (keys adj) ≡ true
      → pending adj done v ≡ 0
      → (mem v queue || mem v done) ≡ true
  pub queued : (v : ℕ) → mem v queue ≡ true → (mem v (keys adj) ≡ true) × (pending adj done v ≡ 0)
  pub taken : (v : ℕ) → mem v done ≡ true → (mem v (keys adj) ≡ true) × (pending adj done v ≡ 0)
  pub fresh : (v : ℕ) → mem v queue ≡ true → mem v done ≡ false
  pub distinct : Distinct queue
  pub ordered : IsOrdered adj done

module _ (adj : Adjacency) (graph : IsGraph adj) (done : List ℕ) (deg : Degrees) (current : ℕ)
    (queue : List ℕ) (h : Inv adj done deg (current ∷ queue)) where
  known : (t : ℕ) → mem t (targets adj current) ≡ true → is_some (degree deg t) ≡ true
  known t m = ground (arith, h.degrees t, graph.closed current t m)

  current_fresh : mem current done ≡ false
  unfolding mem
  current_fresh = h.fresh current (ground arith)

  falls :
      (v : ℕ)
      → pending adj (current ∷ done) v + (if mem v (targets adj current) then 1 else 0)
        ≡ pending adj done v
  falls v = pending_taken adj done current v graph.distinct current_fresh

  in_newly :
      (v : ℕ)
      → mem v (newly (targets adj current) deg)
        ≡ (mem v (targets adj current) && (value (degree deg v) == 1))
  in_newly v = mem-newly (targets adj current) deg v (Distinct-targets adj current graph.sets)

  Inv-round :
      Inv adj
        (current ∷ done)
        (drop_all (targets adj current) deg)
        (queue ++ newly (targets adj current) deg)
  unfolding mem
  Inv-round =
      let ts : List ℕ = targets adj current in
      let in_queue = λ (v : ℕ). mem-append v queue (newly ts deg) in
      record {
        degrees = λ v. ground (
          arith,
          h.degrees v,
          falls v,
          degree-drop_all ts deg v (Distinct-targets adj current graph.sets),
        );
        settled =
            λ v k z. ground (arith, h.degrees v, h.settled v, falls v, in_newly v, in_queue v);
        queued = λ v q. ground (arith, h.degrees v, h.queued v, falls v, in_newly v, in_queue v);
        taken = λ v m. ground (arith, h.queued current, h.taken v, falls v, falls current);
        fresh = λ v q. ground (
          arith,
          h.degrees v,
          h.queued v,
          h.queued current,
          h.taken v,
          h.fresh v,
          falls v,
          in_newly v,
          in_queue v,
          h.distinct.0,
        );
        distinct =
            Distinct-append queue (newly ts deg) h.distinct.1
              (Distinct-newly ts deg (Distinct-targets adj current graph.sets))
              (λ v m. ground (arith, h.queued v, h.degrees v, in_newly v));
        ordered = ((h.queued current (ground arith)).1, h.ordered);
      }

unseen-cons : (us done : List ℕ) (u : ℕ) → unseen us (u ∷ done) ≤ unseen us done
unfolding unseen mem
unseen-cons [] done u = omega arith
unseen-cons (x ∷ us) done u = ground (arith, unseen-cons us done u)

unseen-cons_lt :
    (us done : List ℕ) (u : ℕ)
    → mem u us ≡ true
    → mem u done ≡ false
    → unseen us (u ∷ done) < unseen us done
unfolding unseen mem
unseen-cons_lt [] done u m n = ground arith
unseen-cons_lt (x ∷ us) done u m n = ground (arith, unseen-cons_lt us done u, unseen-cons us done u)

module _ (adj : Adjacency) (graph : IsGraph adj) where
  -- The loop raises no KeyError, and ends with an empty queue.
  pub drain-Inv :
      (fuel : ℕ) (done : List ℕ) (deg : Degrees) (queue : List ℕ)
      → unseen (keys adj) done < fuel
      → Inv adj done deg queue
      → (deg' : Degrees) × (done' : List ℕ) × (drain fuel adj deg queue ≡ some deg')
        × Inv adj done' deg' []
  unfolding drain mem
  drain-Inv zero done deg queue lt h = absurd (omega arith)
  drain-Inv (suc fuel) done deg [] lt h = (deg, done, refl, h)
  drain-Inv (suc fuel) done deg (current ∷ queue) lt h =
      let ts : List ℕ = targets adj current in
      let first = h.queued current (ground arith) in
      let (deg', done', ends, h') =
        drain-Inv fuel (current ∷ done) (drop_all ts deg) (queue ++ newly ts deg)
          (omega (
            arith,
            unseen-cons_lt (keys adj) done current first.0
                (current_fresh adj graph done deg current queue h),
          ))
          (Inv-round adj graph done deg current queue h) in
      (
        deg',
        done',
        rw (lower_lem ts deg queue (known adj graph done deg current queue h), drain) ends,
        h',
      )
