-- ===== src/Campaigns/Briefing/Variants.antt =====
-- choose_variant and resolve_binding of src/crm/campaigns/briefing.py.
use main_sequence_crmapi.Common.{
  str_mem, ℕ, ◌+◌, ◌≤◌, ◌<◌, String, ◌≡◌, refl, ap, ◌⊎◌, inl, inr, true, Option, some, List, [],
  ◌∷◌, ◌++◌, arith, Bool-cases,
}
use main_sequence_crmapi.Campaigns.Models.{allocation_sum, PromptVariant}
use main_sequence_crmapi.Campaigns.Briefing.{
  look, contact_fields, choose_from, last_of, choose_variant, in_contact, resolve_binding, Fields,
  BriefCampaign,
}
use main_sequence_crmapi.Campaigns.Graph.StepChecks.{split_path}

-- the choice among the variants after a sum of `sum`
choose_from_share :
    (point sum : ℕ) (pre : List PromptVariant) (v : PromptVariant) (post : List PromptVariant)
    (last : PromptVariant)
    → sum + allocation_sum pre ≤ point
    → point < sum + allocation_sum pre + v.allocation_percent
    → choose_from point sum (pre ++ v ∷ post) last ≡ v
unfolding main_sequence_crmapi.Campaigns.Briefing.choose_from
    main_sequence_crmapi.Campaigns.Models.allocation_sum
choose_from_share point sum [] v post last low high = ground (arith, low, high)
choose_from_share point sum (w ∷ pre) v post last low high = ground (
  arith,
  low,
  choose_from_share point (sum + w.allocation_percent) pre v post last (omega (arith, low))
      (omega (arith, high)),
)

-- Of the points from 0 to 99, a variant with an allocation of n percent is chosen at the n points from
-- the sum of the allocations before it on; a single variant is chosen at every point.
pub choose_variant_share :
    (pre : List PromptVariant) (v : PromptVariant) (post : List PromptVariant) (point : ℕ)
    → allocation_sum pre ≤ point
    → point < allocation_sum pre + v.allocation_percent
    → choose_variant (pre ++ v ∷ post) point ≡ some v
unfolding main_sequence_crmapi.Campaigns.Briefing.choose_variant
choose_variant_share [] v [] point low high = refl
choose_variant_share [] v (w ∷ post) point low high = ap some (
    choose_from_share point 0 [] v (w ∷ post) (last_of w post) (omega (arith, low))
      (omega (arith, high)))
choose_variant_share (u ∷ []) v post point low high = ap some (
    choose_from_share point 0 (u ∷ []) v post (last_of v post) (omega (arith, low))
      (omega (arith, high)))
choose_variant_share (u ∷ w ∷ pre) v post point low high = ap some (
    choose_from_share point 0 (u ∷ w ∷ pre) v post (last_of w (pre ++ v ∷ post))
      (omega (arith, low)) (omega (arith, high)))

-- the two contacts agree on a field
abbrev pub Agree : Fields → Fields → Type 0
Agree c d = (name : String) → str_mem name contact_fields ≡ true → look c name ≡ look d name

in_contact-Agree :
    (index_of : String → Option ℕ) (c d : Fields) (parts : List String)
    → Agree c d
    → in_contact index_of c parts ≡ in_contact index_of d parts
unfolding main_sequence_crmapi.Campaigns.Briefing.walk
in_contact-Agree index_of c d [] same = refl
in_contact-Agree index_of c d (name ∷ parts) same =
    elim (Bool-cases (str_mem name contact_fields)) [
      | inl e ↦ ground (arith, e, same name e)
      | inr e ↦ rw (e) refl
    ]

split_cases :
    (path : String)
    → (split_path path ≡ [])
      ⊎ ((root : String) × (parts : List String) × (split_path path ≡ root ∷ parts))
split_cases path =
    elim (split_path path)
      as (λ l. (l ≡ []) ⊎ ((root : String) × (parts : List String) × (l ≡ root ∷ parts))) [
        | [] ↦ inl refl
        | root ∷ parts ↦ inr (root, parts, refl)
      ]

-- A binding reads the listed fields of a contact only: two contacts that agree on these give every
-- binding the same value.
pub resolve_binding_private :
    (index_of : String → Option ℕ) (campaign : BriefCampaign) (c d participant : Fields)
    (results : List (String × Fields)) (path : String)
    → Agree c d
    → resolve_binding index_of campaign c participant results path
      ≡ resolve_binding index_of campaign d participant results path
unfolding main_sequence_crmapi.Campaigns.Briefing.resolve_binding
    main_sequence_crmapi.Campaigns.Briefing.resolve_parts
resolve_binding_private index_of campaign c d participant results path same =
    elim (split_cases path) [
      | inl e ↦ rw (e) refl
      | inr (root, parts, e) ↦ rw (e, in_contact-Agree index_of c d parts same) refl
    ]
