-- ===== src/Common/Rows.antt =====
-- Rows of a table with their keys, read as SQL reads them.
use main_sequence_crmapi.Common.Tests.{if◌then◌else◌, ◌==◌, Bool-cases}
use main_sequence_crmapi.Common.Dicts.{get, Dict}
use Prim.Native.Nat.{ℕ}
use mathlib.Core.Path.{◌≡◌, refl}
use mathlib.Core.Logic.{inl, inr}
use mathlib.Core.Bool.{Bool, true}
use mathlib.Core.List.{[], ◌∷◌}
use mathlib.Core.Option.{Option, none, some}
use native.Mathlib.Omega.{arith}

-- the row, if it meets the test
abbrev pub only {ℓ} : {V : Type ℓ} → (V → Bool) → Option V → Option V
only p none = none
only p (some v) = if p v then some v else none

-- the row with the key, if it meets the test
unfoldable pub row_where {ℓ} : {V : Type ℓ} → (V → Bool) → Dict V → ℕ → Option V
row_where p d k = only p (get d k)

-- UPDATE of the rows with the test, which may read the key
unfoldable pub update_rows {ℓ} : {V : Type ℓ} → (ℕ → V → Bool) → (V → V) → Dict V → Dict V
update_rows p f [] = []
update_rows p f ((k, v) ∷ d) = (k, if p k v then f v else v) ∷ update_rows p f d

-- a row after an UPDATE of the rows with the test
abbrev pub updated {ℓ} : {V : Type ℓ} → (V → Bool) → (V → V) → Option V → Option V
updated p f none = none
updated p f (some v) = some (if p v then f v else v)

pub get-update_rows {ℓ} :
    {V : Type ℓ} (p : ℕ → V → Bool) (f : V → V) (d : Dict V) (k : ℕ)
    → get (update_rows p f d) k ≡ updated (p k) f (get d k)
unfolding update_rows get
get-update_rows p f [] k = refl
get-update_rows p f ((j, v) ∷ d) k = elim (Bool-cases (j == k)) [
  | inl e ↦ let same : j ≡ k = ground arith in rw (e, same)
  | inr e ↦ rw (e, get-update_rows p f d k)
]

pub row_where_sound {ℓ} :
    {V : Type ℓ} (p : V → Bool) (d : Dict V) (k : ℕ) (v : V)
    → row_where p d k ≡ some v
    → (get d k ≡ some v) × (p v ≡ true)
unfolding row_where
row_where_sound p d k v h = ground arith
