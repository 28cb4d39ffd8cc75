-- ===== src/Campaigns/Graph/Validate/Spec.antt =====
-- What it means for a campaign graph to be runnable, in terms of its steps and connections.
use main_sequence_crmapi.Common.{
  get, str_mem, any, ℕ, String, ◌≡◌, Bool, true, false, not, ◌&&◌, Option, none, some, List, [],
  ◌∷◌, has,
}
use main_sequence_crmapi.Campaigns.Models.{
  outcome_keys, PromptVariant, GraphStep, GraphTransition, CampaignGraph,
}
use main_sequence_crmapi.Campaigns.Graph.Transitions.{active_steps}
use main_sequence_crmapi.Campaigns.Graph.Transitions.Routes.{connections}
use main_sequence_crmapi.Campaigns.Graph.Transitions.Scan.{all_good, connects}
use main_sequence_crmapi.Campaigns.Graph.StepChecks.{Prompts, resolve, ResolvedPrompt}

-- a walk along connections
pub data Walk (ts : List GraphTransition) (start : ℕ) : ℕ → Type 0 where
  stay : Walk ts start start
  follow : {u v : ℕ} → Walk ts start u → any (connects u v) ts ≡ true → Walk ts start v

-- the prompt is there and not archived
abbrev pub is_ready : Option ResolvedPrompt → Bool
is_ready none = false
is_ready (some p) = not p.archived

unfoldable pub variants_ready : Prompts → List PromptVariant → Bool
variants_ready prompts [] = true
variants_ready prompts (v ∷ vs) =
    is_ready (resolve prompts v.prompt_uid) && variants_ready prompts vs

pub record IsRunnable (graph : CampaignGraph) (prompts : Prompts) : Type 0 where
  pub entry : ℕ
  pub entry_chosen : graph.entry_step_uid ≡ some entry
  pub entry_active : has (active_steps graph) entry ≡ true
  pub good : all_good (active_steps graph) graph.transitions ≡ true
  pub one_route :
      (u : ℕ) (s : GraphStep) (key : String)
      → get (active_steps graph) u ≡ some s
      → str_mem key (outcome_keys s.fields) ≡ true
      → connections (record { step_uid = u; outcome_key = key }) graph.transitions ≡ 1
  pub ready :
      (u : ℕ) (s : GraphStep)
      → get (active_steps graph) u ≡ some s
      → variants_ready prompts s.prompt_variants ≡ true
  pub reachable : (u : ℕ) → has (active_steps graph) u ≡ true → Walk graph.transitions entry u
  pub acyclic :
      (u v : ℕ) → Walk graph.transitions u v → any (connects v u) graph.transitions ≡ false
