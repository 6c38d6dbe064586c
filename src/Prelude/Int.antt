-- ===== src/Prelude/Int.antt =====
-- Python's int, over the native numbers: `negsuc n` is -(n + 1). Equations between sums go through
-- the two parts of an integer.
use Prim.Native.Nat.{ℕ, suc, ◌+◌, ◌-◌, ◌≤◌}
use mathlib.Core.Path.{◌≡◌}
use mathlib.Core.Bool.{Bool}
use native.Mathlib.Omega.{arith}
use ihms_oms.Prelude.Tests.{ltb, if◌then◌else◌}

pub data ℤ : Type 0 where
  pos : ℕ → ℤ
  negsuc : ℕ → ℤ

abbrev pub above : ℤ → ℕ
above (pos n) = n
above (negsuc _) = 0

abbrev pub below : ℤ → ℕ
below (pos _) = 0
below (negsuc n) = suc n

-- The integer `m - n`.
difference : ℕ → ℕ → ℤ
difference m n = if ltb m n then negsuc (n - m - 1) else pos (m - n)

infixl 65 ◌+ℤ◌ ◌-ℤ◌
unfoldable pub ◌+ℤ◌ : ℤ → ℤ → ℤ
unfolding difference
i +ℤ j = difference (above i + above j) (below i + below j)

unfoldable pub ◌-ℤ◌ : ℤ → ℤ → ℤ
unfolding difference
i -ℤ j = difference (above i + below j) (below i + above j)

-- `i < j` and `0 < i`
abbrev pub less : ℤ → ℤ → Bool
less i j = ltb (above i + below j) (above j + below i)

infix 50 ◌≤ℤ◌
abbrev pub ◌≤ℤ◌ : ℤ → ℤ → Type 0
i ≤ℤ j = above i + below j ≤ above j + below i

pub sum_parts :
    (i j : ℤ) → above (i +ℤ j) + (below i + below j) ≡ below (i +ℤ j) + (above i + above j)
unfolding ◌+ℤ◌
sum_parts i j = ground arith

pub difference_parts :
    (i j : ℤ) → above (i -ℤ j) + (below i + above j) ≡ below (i -ℤ j) + (above i + below j)
unfolding ◌-ℤ◌
difference_parts i j = ground arith

pub parts_eq : (i j : ℤ) → above i + below j ≡ above j + below i → i ≡ j
parts_eq i j h = ground arith

pub ruleset int_rules = (arith, sum_parts, difference_parts, parts_eq)
