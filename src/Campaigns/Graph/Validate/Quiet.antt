-- ===== src/Campaigns/Graph/Validate/Quiet.antt =====
-- What follows from each group of checks of `validate_graph` when it reports nothing.
use main_sequence_crmapi.Common.{
  get, put, str_mem, mem, ℕ, String, eq_iff, ◌≡◌, refl, inl, inr, true, Option, some, List, [], ◌∷◌,
  ◌++◌, map, arith, Dict, has, get-put, ◌==◌, if◌then◌else◌, Bool-cases,
}
use main_sequence_crmapi.Campaigns.Models.{Outcome, PromptVariant, GraphStep, CampaignGraph}
use main_sequence_crmapi.Campaigns.Graph.Closure.{Adjacency}
use main_sequence_crmapi.Campaigns.Graph.Diagnostics.{Diagnostic}
use main_sequence_crmapi.Campaigns.Graph.Transitions.{index_active, active_steps, Routes, has_route}
use main_sequence_crmapi.Campaigns.Graph.StepChecks.{
  route_diagnostics, Prompts, resolve, prompt_diagnostic, variant_diagnostics, step_diagnostics,
  steps_diagnostics,
}
use main_sequence_crmapi.Campaigns.Graph.Validate.{missing_from, cycle_diagnostics, verdict}
use main_sequence_crmapi.Campaigns.Graph.Validate.Spec.{variants_ready}

pub left_nil : (xs ys : List Diagnostic) → (xs ++ ys) ≡ [] → xs ≡ []
left_nil [] ys h = refl
left_nil (x ∷ xs) ys h = cc

pub right_nil : (xs ys : List Diagnostic) → (xs ++ ys) ≡ [] → ys ≡ []
right_nil [] ys h = h
right_nil (x ∷ xs) ys h = cc

-- an active step is indexed by its own UUID
uid-index_active :
    (steps : List GraphStep) (acc : Dict GraphStep) (u : ℕ) (s : GraphStep)
    → ((s' : GraphStep) → get acc u ≡ some s' → s'.uid ≡ u)
    → get (index_active steps acc) u ≡ some s
    → s.uid ≡ u
unfolding index_active
uid-index_active [] acc u s known h = known s h
uid-index_active (x ∷ steps) acc u s known h =
    uid-index_active steps (if x.archived then acc else put acc x.uid x) u s
      (λ s' e. ground (arith, known s', get-put acc x.uid x u)) h

pub uid-active_steps :
    (graph : CampaignGraph) (u : ℕ) (s : GraphStep)
    → get (active_steps graph) u ≡ some s
    → s.uid ≡ u
unfolding active_steps get
uid-active_steps graph u s h = uid-index_active graph.steps [] u s (λ s' e. cc) h

pub quiet_route :
    (routes : Routes) (uid : ℕ) (os : List Outcome) (key : String)
    → route_diagnostics routes uid os ≡ []
    → str_mem key (map (λ o. o.key) os) ≡ true
    → has_route routes (record { step_uid = uid; outcome_key = key }) ≡ true
unfolding route_diagnostics str_mem
quiet_route routes uid [] key h m = cc
quiet_route routes uid (o ∷ os) key h m =
    ground (arith, quiet_route routes uid os key, eq_iff key o.key)

pub quiet_variants :
    (prompts : Prompts) (uid : ℕ) (vs : List PromptVariant)
    → variant_diagnostics prompts uid vs ≡ []
    → variants_ready prompts vs ≡ true
unfolding variant_diagnostics variants_ready
quiet_variants prompts uid [] h = refl
quiet_variants prompts uid (v ∷ vs) h = ground (
  arith,
  left_nil (prompt_diagnostic uid (resolve prompts v.prompt_uid))
      (variant_diagnostics prompts uid vs) h,
  quiet_variants prompts uid vs,
)

pub quiet_reached :
    (seen : List ℕ) (steps : Dict GraphStep) (u : ℕ)
    → missing_from seen steps ≡ []
    → has steps u ≡ true
    → mem u seen ≡ true
unfolding missing_from get
quiet_reached seen [] u h m = cc
quiet_reached seen ((uid, s) ∷ steps) u h m = ground (arith, quiet_reached seen steps u)

pub quiet_cycle : (members : List ℕ) → cycle_diagnostics members ≡ [] → members ≡ []
unfolding cycle_diagnostics
quiet_cycle [] h = refl
quiet_cycle (m ∷ members) h = cc

module _ (parse_uuid : String → Option ℕ) where
  pub quiet_step :
      (prompts : Prompts) (all : Dict GraphStep) (adj : Adjacency) (routes : Routes)
      (steps : Dict GraphStep) (u : ℕ) (s : GraphStep)
      → steps_diagnostics parse_uuid prompts all adj routes steps ≡ []
      → get steps u ≡ some s
      → step_diagnostics parse_uuid prompts all adj routes s ≡ []
  unfolding steps_diagnostics get
  quiet_step prompts all adj routes [] u s h m = cc
  quiet_step prompts all adj routes ((uid, x) ∷ steps) u s h m =
      let head = left_nil (step_diagnostics parse_uuid prompts all adj routes x) _ h in
      let rest = right_nil (step_diagnostics parse_uuid prompts all adj routes x) _ h in
      elim (Bool-cases (uid == u)) [
        | inl same ↦
            let e : some x ≡ some s = rw (same, get) at m in let e' : x ≡ s = cc in rw (← e') head
        | inr other ↦ quiet_step prompts all adj routes steps u s rest (rw (other, get) at m)
      ]

pub verdict_quiet : (ds : List Diagnostic) → (verdict ds).runnable ≡ true → ds ≡ []
verdict_quiet [] h = refl
verdict_quiet (d ∷ ds) h = cc
