-- ===== src/Prelude/Lists.antt =====
-- Lists measured by native numbers, and predicates on lists.
use Prim.Native.Nat.{ℕ, suc}
use mathlib.Core.List.{List, [], ◌∷◌}

abbrev pub length {ℓ} : {A : Type ℓ} → List A → ℕ
length [] = 0
length (x ∷ xs) = suc (length xs)

abbrev pub All {ℓ κ} : {A : Type ℓ} → (A → Type κ) → List A → Type κ
All P [] = Unit
All P (x ∷ xs) = P x × All P xs
