-- ===== src/Prelude/Assoc.antt =====
-- Python's dict in insertion order: a value that is set again keeps its place.
use native.Mathlib.Omega.{arith}
use mathlib.Core.Path.{◌≡◌, refl}
use mathlib.Core.Option.{Option, none, some}
use mathlib.Core.List.{List, [], ◌∷◌}
use ihms_oms.Prelude.Tests.{if◌then◌else◌}
use ihms_oms.Prelude.Keys.{DictKey, ◌==◌, beq_self}

abbrev pub Dict {ℓ κ} : Type ℓ → Type κ → Type (ℓ ⊔ κ)
Dict K V = List (K × V)

module _ {ℓ κ} {K : Type ℓ} {V : Type κ} ⦃e : DictKey K⦄ where
  -- `d.get(k)`
  unfoldable pub lookup : K → Dict K V → Option V
  lookup k [] = none
  lookup k ((j, v) ∷ d) = if j == k then some v else lookup k d

  -- `d[k] = v`
  unfoldable pub insert : K → V → Dict K V → Dict K V
  insert k v [] = (k, v) ∷ []
  insert k v ((j, w) ∷ d) = if j == k then (j, v) ∷ d else (j, w) ∷ insert k v d

  -- `d.pop(k, None)`, which leaves a missing key alone.
  unfoldable pub remove : K → Dict K V → Dict K V
  remove k [] = []
  remove k ((j, w) ∷ d) = if j == k then d else (j, w) ∷ remove k d

  pub lookup-insert :
      (k j : K) (v : V) (d : Dict K V)
      → lookup j (insert k v d) ≡ (if k == j then some v else lookup j d)
  unfolding lookup insert
  lookup-insert k j v [] = refl
  lookup-insert k j v ((i, w) ∷ d) =
      ground
        (arith, e.is_equal_iff k j, e.is_equal_iff i k, e.is_equal_iff i j, lookup-insert k j v d)

  pub lookup-insert_self : (k : K) (v : V) (d : Dict K V) → lookup k (insert k v d) ≡ some v
  lookup-insert_self k v d = ground (arith, lookup-insert k k v d, beq_self k)

-- `list(d.values())`
unfoldable pub values {ℓ κ} : {K : Type ℓ} {V : Type κ} → Dict K V → List V
values [] = []
values ((_, v) ∷ d) = v ∷ values d
