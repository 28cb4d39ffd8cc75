-- ===== src/Campaigns/Graph/Closure.antt =====
-- `_closure` and `_reaches` of src/crm/campaigns/graph.py: breadth-first search over sets of UUIDs.
use main_sequence_crmapi.Common.{
  mem, ℕ, zero, suc, ◌+◌, ◌≤◌, ◌<◌, ◌≡◌, refl, ◌↔◌, ◌⊎◌, inl, inr, Bool, true, false, not, ◌&&◌,
  ◌||◌, List, [], ◌∷◌, ◌++◌, arith, ◌==◌, if◌then◌else◌, length, length-append, mem-append,
}

-- dict[UUID, set[UUID]]
abbrev pub Adjacency : Type 0
Adjacency = List (ℕ × List ℕ)

-- adjacency.get(u, ())
unfoldable pub targets : Adjacency → ℕ → List ℕ
targets [] u = []
targets ((k, ts) ∷ adj) u = if k == u then ts else targets adj u

abbrev pub Edge : Adjacency → ℕ → ℕ → Type 0
Edge adj u v = mem v (targets adj u) ≡ true

-- the walks from `start`
pub data Reach (adj : Adjacency) (start : ℕ) : ℕ → Type 0 where
  here : Reach adj start start
  step : {u v : ℕ} → Reach adj start u → Edge adj u v → Reach adj start v

-- the body of the inner loop, over `seen` and `queue`
unfoldable pub visit : List ℕ → List ℕ → List ℕ → List ℕ × List ℕ
visit [] seen queue = (seen, queue)
visit (nxt ∷ rest) seen queue =
    visit rest (if mem nxt seen then seen else seen ++ nxt ∷ [])
      (if mem nxt seen then queue else queue ++ nxt ∷ [])

-- the `while queue` loop
unfoldable pub closure_loop : ℕ → Adjacency → List ℕ → List ℕ → List ℕ
closure_loop zero adj seen queue = seen
closure_loop (suc fuel) adj seen [] = seen
closure_loop (suc fuel) adj seen (current ∷ queue) =
    let (seen', queue') = visit (targets adj current) seen queue in
    closure_loop fuel adj seen' queue'

-- every UUID that some set holds, as often as it does
unfoldable pub all_targets : Adjacency → List ℕ
all_targets [] = []
all_targets ((k, ts) ∷ adj) = ts ++ all_targets adj

-- one round for the start and one for each entry of a set
unfoldable pub closure : Adjacency → ℕ → List ℕ
unfolding closure_loop visit targets all_targets mem
closure adj start =
    closure_loop (suc (suc (length (all_targets adj)))) adj (start ∷ []) (start ∷ [])

unfoldable pub reaches : Adjacency → ℕ → ℕ → Bool
unfolding closure
reaches adj source target = mem target (closure adj source)

abbrev sample : Adjacency
sample = (1, 2 ∷ 3 ∷ []) ∷ (2, 3 ∷ []) ∷ (3, []) ∷ (4, 1 ∷ []) ∷ []

sample_run : closure sample 1 ≡ 1 ∷ 2 ∷ 3 ∷ []
unfolding closure
sample_run = refl

-- what one round does
mem-visit_seen :
    (ts seen queue : List ℕ) (w : ℕ) → mem w (visit ts seen queue).0 ≡ (mem w seen || mem w ts)
unfolding visit mem
mem-visit_seen [] seen queue w = ground arith
mem-visit_seen (t ∷ ts) seen queue w = ground (
  arith,
  mem-visit_seen ts seen queue w,
  mem-visit_seen ts (seen ++ t ∷ []) (queue ++ t ∷ []) w,
  mem-append w seen (t ∷ []),
)

-- what is queued was queued or is new, and what is new is queued
mem-visit_queue :
    (ts seen queue : List ℕ) (w : ℕ)
    → mem w (visit ts seen queue).1 ≡ (mem w queue || (mem w ts && not (mem w seen)))
unfolding visit mem
mem-visit_queue [] seen queue w = ground arith
mem-visit_queue (t ∷ ts) seen queue w = ground (
  arith,
  mem-visit_queue ts seen queue w,
  mem-visit_queue ts (seen ++ t ∷ []) (queue ++ t ∷ []) w,
  mem-append w seen (t ∷ []),
  mem-append w queue (t ∷ []),
)

-- the entries of `us` that are not yet seen
unfoldable pub unseen : List ℕ → List ℕ → ℕ
unseen [] seen = 0
unseen (u ∷ us) seen = (if mem u seen then 0 else 1) + unseen us seen

unseen-append : (us vs seen : List ℕ) → unseen (us ++ vs) seen ≡ unseen us seen + unseen vs seen
unfolding unseen
unseen-append [] vs seen = omega arith
unseen-append (u ∷ us) vs seen = omega (arith, unseen-append us vs seen)

pub unseen-le-length : (us seen : List ℕ) → unseen us seen ≤ length us
unfolding unseen
unseen-le-length [] seen = omega arith
unseen-le-length (u ∷ us) seen = ground (arith, unseen-le-length us seen)

unseen-concat : (us seen : List ℕ) (t : ℕ) → unseen us (seen ++ t ∷ []) ≤ unseen us seen
unfolding unseen mem
unseen-concat [] seen t = omega arith
unseen-concat (u ∷ us) seen t = ground (arith, unseen-concat us seen t, mem-append u seen (t ∷ []))

unseen-concat_lt :
    (us seen : List ℕ) (t : ℕ)
    → mem t us ≡ true
    → mem t seen ≡ false
    → unseen us (seen ++ t ∷ []) < unseen us seen
unfolding unseen mem
unseen-concat_lt [] seen t m n = ground arith
unseen-concat_lt (u ∷ us) seen t m n =
    ground (arith, unseen-concat_lt us seen t, unseen-concat us seen t, mem-append u seen (t ∷ []))

-- every UUID that a round queues is one that it sees for the first time
unseen-visit :
    (us ts seen queue : List ℕ)
    → ((t : ℕ) → mem t ts ≡ true → mem t us ≡ true)
    → unseen us (visit ts seen queue).0 + length (visit ts seen queue).1
      ≤ unseen us seen + length queue
unfolding visit mem
unseen-visit us [] seen queue h = omega arith
unseen-visit us (t ∷ ts) seen queue h =
    let rest : (x : ℕ) → mem x ts ≡ true → mem x us ≡ true = λ x m. h x (ground (arith, m)) in
    ground (
      arith,
      unseen-visit us ts seen queue rest,
      unseen-visit us ts (seen ++ t ∷ []) (queue ++ t ∷ []) rest,
      h t,
      unseen-concat_lt us seen t,
      length-append queue (t ∷ []),
    )

mem-all_targets : (adj : Adjacency) (u v : ℕ) → Edge adj u v → mem v (all_targets adj) ≡ true
unfolding all_targets targets mem
mem-all_targets [] u v e = ground arith
mem-all_targets ((k, ts) ∷ adj) u v e =
    ground (arith, mem-append v ts (all_targets adj), mem-all_targets adj u v)

record Inv (adj : Adjacency) (start : ℕ) (seen queue : List ℕ) : Type 0 where
  source : mem start seen ≡ true
  queued : (v : ℕ) → mem v queue ≡ true → mem v seen ≡ true
  sound : (v : ℕ) → mem v seen ≡ true → Reach adj start v
  closed : (u v : ℕ) → mem u seen ≡ true → Edge adj u v → (mem u queue ≡ true) ⊎ (mem v seen ≡ true)

Or-split : (a b : Bool) → (a || b) ≡ true → (a ≡ true) ⊎ (b ≡ true)
Or-split a b h = ground arith

Inv-visit :
    (adj : Adjacency) (start current : ℕ) (seen queue : List ℕ)
    → Inv adj start seen (current ∷ queue)
    → Inv adj start
        (visit (targets adj current) seen queue).0
        (visit (targets adj current) seen queue).1
unfolding mem
Inv-visit adj start current seen queue h =
    let ts : List ℕ = targets adj current in
    let now_seen = λ (w : ℕ). mem-visit_seen ts seen queue w in
    let now_queued = λ (w : ℕ). mem-visit_queue ts seen queue w in
    let reached : Reach adj start current = h.sound current (h.queued current (ground arith)) in
    record {
      source = ground (arith, now_seen start, h.source);
      queued = λ v q. ground (arith, now_seen v, now_queued v, h.queued v);
      sound = λ v m. elim (Or-split (mem v seen) (mem v ts) (ground (arith, now_seen v))) [
        | inl old ↦ h.sound v old
        | inr new ↦ step reached new
      ];
      closed = λ u v m e. ground (arith, now_seen u, now_seen v, now_queued u, h.closed u v);
    }

closure_loop-Inv :
    (fuel : ℕ) (adj : Adjacency) (start : ℕ) (seen queue : List ℕ)
    → unseen (all_targets adj) seen + length queue < fuel
    → Inv adj start seen queue
    → Inv adj start (closure_loop fuel adj seen queue) []
unfolding closure_loop
closure_loop-Inv zero adj start seen queue lt h = absurd (omega arith)
closure_loop-Inv (suc fuel) adj start seen [] lt h = h
closure_loop-Inv (suc fuel) adj start seen (current ∷ queue) lt h =
    closure_loop-Inv fuel adj start (visit (targets adj current) seen queue).0
      (visit (targets adj current) seen queue).1
      (omega (
        arith,
        unseen-visit (all_targets adj) (targets adj current) seen queue
            (mem-all_targets adj current),
      ))
      (Inv-visit adj start current seen queue h)

Inv-start : (adj : Adjacency) (start : ℕ) → Inv adj start (start ∷ []) (start ∷ [])
unfolding mem
Inv-start adj start = record {
  source = ground arith;
  queued = λ v q. q;
  sound = λ v m. let e : v ≡ start = ground arith in rw e here;
  closed = λ u v m e. inl m;
}

closure-Inv : (adj : Adjacency) (start : ℕ) → Inv adj start (closure adj start) []
unfolding closure
closure-Inv adj start =
    closure_loop-Inv (suc (suc (length (all_targets adj)))) adj start (start ∷ []) (start ∷ [])
      (omega (arith, unseen-le-length (all_targets adj) (start ∷ []))) (Inv-start adj start)

reached_in :
    (adj : Adjacency) (start : ℕ) {v : ℕ} → Reach adj start v → mem v (closure adj start) ≡ true
unfolding mem
reached_in adj start here = (closure-Inv adj start).source
reached_in adj start (step {u} {v} p e) =
    ground (arith, (closure-Inv adj start).closed u v (reached_in adj start p) e)

-- The search ends, and the set it returns holds a UUID exactly when some walk leads there from the
-- start.
pub closure_correct :
    (adj : Adjacency) (start v : ℕ) → (mem v (closure adj start) ≡ true) ↔ Reach adj start v
closure_correct adj start v = ((closure-Inv adj start).sound v, reached_in adj start)

-- the same of the test on two steps
pub reaches_iff :
    (adj : Adjacency) (source target : ℕ)
    → (reaches adj source target ≡ true) ↔ Reach adj source target
unfolding reaches
reaches_iff adj source target = closure_correct adj source target
