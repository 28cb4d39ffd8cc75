-- ===== src/Common/Dicts.antt =====
-- Python's dict with UUID keys, in insertion order, and sets of texts.
use main_sequence_crmapi.Common.Tests.{◌==◌, if◌then◌else◌}
use main_sequence_crmapi.Common.Lists.{mem}
use Prim.Native.Nat.{ℕ}
use Prim.Native.String.{String}
use mathlib.Core.Path.{◌≡◌, refl}
use mathlib.Core.Bool.{Bool, true, false, not, ◌&&◌, ◌||◌}
use mathlib.Core.List.{List, [], ◌∷◌}
use mathlib.Core.Option.{Option, none, some}
use native.Mathlib.Omega.{arith}
use text.Mathlib.Text.{◌==◌ as str_eq}

abbrev pub Dict {ℓ} : Type ℓ → Type ℓ
Dict V = List (ℕ × V)

abbrev pub is_some {ℓ} : {A : Type ℓ} → Option A → Bool
is_some none = false
is_some (some a) = true

module _ {ℓ} {V : Type ℓ} where
  -- d.get(k)
  unfoldable pub get : Dict V → ℕ → Option V
  get [] k = none
  get ((j, v) ∷ d) k = if j == k then some v else get d k

  -- k in d
  abbrev pub has : Dict V → ℕ → Bool
  has d k = is_some (get d k)

  -- d[k] = v
  unfoldable pub put : Dict V → ℕ → V → Dict V
  put [] k v = (k, v) ∷ []
  put ((j, w) ∷ d) k v = if j == k then (j, v) ∷ d else (j, w) ∷ put d k v

  unfoldable pub dict_keys : Dict V → List ℕ
  dict_keys [] = []
  dict_keys ((j, v) ∷ d) = j ∷ dict_keys d

  pub get-put :
      (d : Dict V) (k : ℕ) (v : V) (j : ℕ)
      → get (put d k v) j ≡ (if k == j then some v else get d j)
  unfolding get put
  get-put [] k v j = refl
  get-put ((i, w) ∷ d) k v j = ground (arith, get-put d k v j)

  pub mem-dict_keys : (d : Dict V) (k : ℕ) → mem k (dict_keys d) ≡ has d k
  unfolding get dict_keys mem
  mem-dict_keys [] k = refl
  mem-dict_keys ((j, v) ∷ d) k = ground (arith, mem-dict_keys d k)

  pub mem-dict_keys-put :
      (d : Dict V) (k : ℕ) (v : V) (j : ℕ)
      → mem j (dict_keys (put d k v)) ≡ (j == k || mem j (dict_keys d))
  unfolding put dict_keys mem
  mem-dict_keys-put [] k v j = refl
  mem-dict_keys-put ((i, w) ∷ d) k v j = ground (arith, mem-dict_keys-put d k v j)

-- a in xs, over texts
unfoldable pub str_mem : String → List String → Bool
str_mem a [] = false
str_mem a (x ∷ xs) = str_eq a x || str_mem a xs

-- len(set(xs)) == len(xs)
unfoldable pub all_different : List String → Bool
unfolding str_mem
all_different [] = true
all_different (x ∷ xs) = not (str_mem x xs) && all_different xs

-- the same over UUIDs
unfoldable pub uids_different : List ℕ → Bool
uids_different [] = true
uids_different (x ∷ xs) = not (mem x xs) && uids_different xs
