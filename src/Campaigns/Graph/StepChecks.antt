-- ===== src/Campaigns/Graph/StepChecks.antt =====
-- The loop over the active steps in `validate_graph` of src/crm/campaigns/graph.py.
use Prim.Native.Char.{code}
use main_sequence_crmapi.Common.{
  get, str_mem, any, ℕ, String, str_eq, Bool, true, false, not, ◌&&◌, ◌||◌, Option, none, some,
  List, [], ◌∷◌, ◌++◌, map, Dict, has, ◌==◌, if◌then◌else◌,
}
use main_sequence_crmapi.Campaigns.Models.{
  outcome_keys, Outcome, PromptVariant, PromptComparison, GraphStep, ValueField,
}
use main_sequence_crmapi.Campaigns.Graph.Closure.{Adjacency, reaches}
use main_sequence_crmapi.Campaigns.Graph.Diagnostics.{
  step_diag, when, Diagnostic, route_missing, prompt_missing, prompt_archived,
  variant_contract_mismatch, comparison_metric_invalid, comparison_outcome_unknown,
  comparison_metric_unreachable, binding_undeclared, binding_invalid,
  binding_predecessor_unreachable,
}
use main_sequence_crmapi.Campaigns.Graph.Transitions.{Routes, has_route}

-- what the caller resolved of a step prompt
pub record ResolvedPrompt : Type 0 where
  pub archived : Bool
  pub inputs : List ValueField
  pub result_fields : List ValueField

unfoldable pub route_diagnostics : Routes → ℕ → List Outcome → List Diagnostic
route_diagnostics routes uid [] = []
route_diagnostics routes uid (o ∷ os) =
    when (not (has_route routes (record { step_uid = uid; outcome_key = o.key })))
      (step_diag route_missing uid)
    ++ route_diagnostics routes uid os

-- prompts: dict[UUID, …] | None
abbrev pub Prompts : Type 0
Prompts = Option (Dict ResolvedPrompt)

abbrev pub resolve : Prompts → ℕ → Option ResolvedPrompt
resolve none uid = none
resolve (some d) uid = get d uid

abbrev pub prompt_diagnostic : ℕ → Option ResolvedPrompt → List Diagnostic
prompt_diagnostic uid none = step_diag prompt_missing uid ∷ []
prompt_diagnostic uid (some p) = when p.archived (step_diag prompt_archived uid)

unfoldable pub variant_diagnostics : Prompts → ℕ → List PromptVariant → List Diagnostic
variant_diagnostics prompts uid [] = []
variant_diagnostics prompts uid (v ∷ vs) =
    prompt_diagnostic uid (resolve prompts v.prompt_uid) ++ variant_diagnostics prompts uid vs

abbrev pub field_eq : ValueField → ValueField → Bool
field_eq a b =
    str_eq a.key b.key
    && str_eq a.type b.type
    && (if a.required then b.required else not b.required)

unfoldable pub fields_within : List ValueField → List ValueField → Bool
fields_within [] ys = true
fields_within (x ∷ xs) ys = any (field_eq x) ys && fields_within xs ys

-- equality of the frozensets of (key, type, required)
unfoldable pub fields_same : List ValueField → List ValueField → Bool
unfolding fields_within any
fields_same xs ys = fields_within xs ys && fields_within ys xs

abbrev pub contract_mismatch : Option ResolvedPrompt → Option ResolvedPrompt → Bool
contract_mismatch (some p) (some q) =
    not (fields_same p.inputs q.inputs && fields_same p.result_fields q.result_fields)
contract_mismatch _ _ = false

-- only where prompts were resolved and the step has exactly two variants
unfoldable pub contract_diagnostics : Prompts → ℕ → List PromptVariant → List Diagnostic
contract_diagnostics (some d) uid (a ∷ b ∷ []) =
    when (contract_mismatch (get d a.prompt_uid) (get d b.prompt_uid))
      (step_diag variant_contract_mismatch uid)
contract_diagnostics _ uid _ = []

-- set(success_outcome_keys) - declared is not empty
unfoldable pub some_unknown : List String → List String → Bool
unfolding str_mem
some_unknown [] declared = false
some_unknown (k ∷ ks) declared = not (str_mem k declared) || some_unknown ks declared

abbrev pub metric_diagnostics :
    Adjacency → GraphStep → PromptComparison → Option GraphStep → List Diagnostic
metric_diagnostics adj s c none = step_diag comparison_metric_invalid s.uid ∷ []
metric_diagnostics adj s c (some metric) =
    when (some_unknown c.success_outcome_keys (outcome_keys metric.fields))
      (step_diag comparison_outcome_unknown s.uid)
    ++ when (not (metric.uid == s.uid) && not (reaches adj s.uid metric.uid))
        (step_diag comparison_metric_unreachable s.uid)

unfoldable pub comparison_diagnostics :
    Dict GraphStep → Adjacency → GraphStep → Option PromptComparison → List Diagnostic
comparison_diagnostics steps adj s none = []
comparison_diagnostics steps adj s (some c) =
    metric_diagnostics adj s c (get steps c.metric_step_uid)

-- path.split(".")
unfoldable pub split_path : String → List String
split_path String.[] = String.[] ∷ []
split_path (String.◌∷◌ c rest) =
    if code c == 46 then String.[] ∷ split_path rest else elim (split_path rest) [
      | [] ↦ String.◌∷◌ c String.[] ∷ []
      | word ∷ words ↦ String.◌∷◌ c word ∷ words
    ]

unfoldable pub input_keys : List ResolvedPrompt → List String
input_keys [] = []
input_keys (p ∷ ps) = map (λ (f : ValueField). f.key) p.inputs ++ input_keys ps

-- [prompts.get(v.prompt_uid) for v in variants], if none of them is None
unfoldable pub resolve_all : Dict ResolvedPrompt → List PromptVariant → Option (List ResolvedPrompt)
resolve_all d [] = some []
resolve_all d (v ∷ vs) = elim (get d v.prompt_uid) [
  | none ↦ none
  | some p ↦ elim (resolve_all d vs) [ none ↦ none | some ps ↦ some (p ∷ ps) ]
]

unfoldable pub declared_inputs : Prompts → List PromptVariant → Option (List String)
unfolding resolve_all input_keys
declared_inputs none vs = none
declared_inputs (some d) vs = elim (resolve_all d vs) [
  | none ↦ none
  | some ps ↦ some (input_keys ps)
]

abbrev pub undeclared : Option (List String) → String → Bool
undeclared none key = false
undeclared (some keys) key = not (str_mem key keys)

-- `UUID(text)` of the standard library is a parameter: `none` is its ValueError
module _ (parse_uuid : String → Option ℕ) where
  abbrev pub predecessor_diagnostics : Dict GraphStep → Adjacency → ℕ → Option ℕ → List Diagnostic
  predecessor_diagnostics steps adj uid none = step_diag binding_invalid uid ∷ []
  predecessor_diagnostics steps adj uid (some p) =
      when (not (has steps p) || not (reaches adj p uid))
        (step_diag binding_predecessor_unreachable uid)

  unfoldable pub path_diagnostics : Dict GraphStep → Adjacency → ℕ → List String → List Diagnostic
  path_diagnostics steps adj uid (root ∷ second ∷ third ∷ rest) =
      if str_eq root "previous"
      then (if str_eq third "result"
          then predecessor_diagnostics steps adj uid (parse_uuid second)
          else step_diag binding_invalid uid ∷ [])
      else when (not (str_eq root "campaign" || str_eq root "contact" || str_eq root "participant"))
          (step_diag binding_invalid uid)
  path_diagnostics steps adj uid (root ∷ rest) =
      when (not (str_eq root "campaign" || str_eq root "contact" || str_eq root "participant"))
        (step_diag binding_invalid uid)
  path_diagnostics steps adj uid [] = []

  unfoldable pub binding_diagnostics :
      Dict GraphStep
      → Adjacency
      → Option (List String)
      → ℕ
      → List (String × String)
      → List Diagnostic
  unfolding path_diagnostics split_path
  binding_diagnostics steps adj declared uid [] = []
  binding_diagnostics steps adj declared uid ((key, path) ∷ bindings) =
      when (undeclared declared key) (step_diag binding_undeclared uid)
      ++ (path_diagnostics steps adj uid (split_path path)
          ++ binding_diagnostics steps adj declared uid bindings)

  -- the body of the loop, in the source's order
  unfoldable pub step_diagnostics :
      Prompts → Dict GraphStep → Adjacency → Routes → GraphStep → List Diagnostic
  step_diagnostics prompts steps adj routes s =
      route_diagnostics routes s.uid s.outcomes
      ++ (variant_diagnostics prompts s.uid s.prompt_variants
          ++ (contract_diagnostics prompts s.uid s.prompt_variants
              ++ (comparison_diagnostics steps adj s s.prompt_comparison
                  ++ binding_diagnostics steps adj (declared_inputs prompts s.prompt_variants) s.uid
                      s.input_bindings)))

  unfoldable pub steps_diagnostics :
      Prompts → Dict GraphStep → Adjacency → Routes → Dict GraphStep → List Diagnostic
  steps_diagnostics prompts steps adj routes [] = []
  steps_diagnostics prompts steps adj routes ((uid, s) ∷ rest) =
      step_diagnostics prompts steps adj routes s ++ steps_diagnostics prompts steps adj routes rest
