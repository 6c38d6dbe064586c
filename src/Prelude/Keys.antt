-- ===== src/Prelude/Keys.antt =====
-- Equality of dictionary keys, as an interface with instances for numbers, texts and pairs.
use Prim.Native.Nat.{ℕ}
use Prim.Native.String.{String}
use native.Mathlib.Omega.{arith}
use text.Mathlib.Text.{◌==◌ as str_eq}
use text.Mathlib.TextEquality.{eq_iff}
use mathlib.Core.Path.{◌≡◌, refl}
use mathlib.Core.Logic.{◌↔◌}
use mathlib.Core.Bool.{Bool, true, ◌&&◌}
use ihms_oms.Prelude.Tests.{nat_beq}

pub record DictKey {ℓ} (A : Type ℓ) : Type ℓ where
  pub is_equal : A → A → Bool
  pub is_equal_iff : (a b : A) → (is_equal a b ≡ true) ↔ (a ≡ b)

pub nat_beq_iff : (a b : ℕ) → (nat_beq a b ≡ true) ↔ (a ≡ b)
nat_beq_iff a b = (λ h. ground arith, λ h. ground arith)

instance abbrev pub nat_eq : DictKey ℕ
nat_eq = record { is_equal = nat_beq; is_equal_iff = nat_beq_iff }

instance abbrev pub string_eq : DictKey String
string_eq = record { is_equal = str_eq; is_equal_iff = eq_iff }

abbrev pub pair_beq : ℕ × String → ℕ × String → Bool
pair_beq (a, s) (b, t) = nat_beq a b && str_eq s t

pub pair_beq_iff : (p q : ℕ × String) → (pair_beq p q ≡ true) ↔ (p ≡ q)
pair_beq_iff (a, s) (b, t) = (λ h. ground (arith, eq_iff s t), λ h. ground (arith, eq_iff s t))

-- The key of the idempotency store: a session and a header value.
instance abbrev pub pair_eq : DictKey (ℕ × String)
pair_eq = record { is_equal = pair_beq; is_equal_iff = pair_beq_iff }

infix 50 ◌==◌
abbrev pub ◌==◌ {ℓ} : {A : Type ℓ} ⦃e : DictKey A⦄ → A → A → Bool
◌==◌ ⦃e⦄ a b = e.is_equal a b

pub beq_self {ℓ} : {A : Type ℓ} ⦃e : DictKey A⦄ (a : A) → (a == a) ≡ true
beq_self ⦃e⦄ a = (e.is_equal_iff a a).1 refl
