-- ===== src/Mocks/Ihms/Account.antt =====
-- The units of a product that the mock of IHMS accounts for: in stock or on a hold.
use ihms_oms.Prelude.{
  String, ◌≡◌, Option, none, some, [], ◌∷◌, Dict, lookup, insert, remove, string_eq, ◌==◌, All, ap,
  subst, Bool-cases, inl, inr,
}
use ihms_oms.Prelude.Int.{ℤ, pos, ◌+ℤ◌, ◌≤ℤ◌, int_rules, above, below}
use ihms_oms.Mocks.Ihms.{HoldRecord, MockState, available}
use ihms_oms.Mocks.Ihms.Stock.{amount}
use ihms_oms.Mocks.Ihms.Reserve.{NonNegative}

-- On all holds together, and on one that may be missing.
pub on_hold : String → Dict String HoldRecord → ℤ
on_hold p [] = pos 0
on_hold p ((i, r) ∷ d) = amount p r.reserved +ℤ on_hold p d

abbrev pub on_hold_of : String → Option HoldRecord → ℤ
on_hold_of p none = pos 0
on_hold_of p (some r) = amount p r.reserved

abbrev pub total : String → MockState → ℤ
total p s = available s.inventory p +ℤ on_hold p s.holds

pub total-no_holds : (p : String) (n : ℤ) → n +ℤ on_hold p [] ≡ n
unfolding on_hold
total-no_holds p n = omega int_rules

swap_parts : (a x o y z : ℤ) → x +ℤ o ≡ y +ℤ z → (a +ℤ x) +ℤ o ≡ (a +ℤ y) +ℤ z
swap_parts a x o y z h = omega (int_rules, ap above h, ap below h)

replace_part : (a o y z : ℤ) → (z +ℤ y) +ℤ o ≡ (o +ℤ y) +ℤ z
replace_part a o y z = omega int_rules

shift_part : (a x o y : ℤ) → x +ℤ o ≡ y → (a +ℤ x) +ℤ o ≡ a +ℤ y
shift_part a x o y h = omega (int_rules, ap above h, ap below h)

swap_sum : (x y : ℤ) → x +ℤ y ≡ y +ℤ x
swap_sum x y = omega int_rules

pub on_hold-insert :
    (p i : String) (r : HoldRecord) (d : Dict String HoldRecord)
    → on_hold p (insert i r d) +ℤ on_hold_of p (lookup i d) ≡ on_hold p d +ℤ amount p r.reserved
unfolding on_hold insert lookup
on_hold-insert p i r [] = omega int_rules
on_hold-insert p i r ((j, t) ∷ d) =
    let rest = on_hold-insert p i r d in
    elim (Bool-cases (j == i)) [
      | inl e ↦ rw e (replace_part (pos 0) _ _ _)
      | inr e ↦ rw e (swap_parts _ _ _ _ _ rest)
    ]

pub on_hold-remove :
    (p i : String) (d : Dict String HoldRecord)
    → on_hold p (remove i d) +ℤ on_hold_of p (lookup i d) ≡ on_hold p d
unfolding on_hold remove lookup
on_hold-remove p i [] = omega int_rules
on_hold-remove p i ((j, t) ∷ d) =
    let rest = on_hold-remove p i d in
    elim (Bool-cases (j == i)) [
      | inl e ↦ rw e (swap_sum _ _)
      | inr e ↦ rw e (shift_part _ _ _ _ rest)
    ]

some_injective : {r t : HoldRecord} → some t ≡ some r → t ≡ r
some_injective h = cc

abbrev pub Owing : String × HoldRecord → Type 0
Owing e = (p : String) → pos 0 ≤ℤ amount p e.1.reserved

-- No product is short, and no hold owes stock.
pub record IsSound (s : MockState) : Type 0 where
  pub plenty : NonNegative s.inventory
  pub owing : All Owing s.holds

pub Owing-insert :
    (i : String) (r : HoldRecord) (d : Dict String HoldRecord)
    → Owing (i, r)
    → All Owing d
    → All Owing (insert i r d)
unfolding insert
Owing-insert i r [] new all = (new, tt)
Owing-insert i r ((j, t) ∷ d) new (first, all) =
    let rest = Owing-insert i r d new all in
    elim (Bool-cases (j == i)) [ inl e ↦ rw e (new, all) | inr e ↦ rw e (first, rest) ]

pub Owing-remove : (i : String) (d : Dict String HoldRecord) → All Owing d → All Owing (remove i d)
unfolding remove
Owing-remove i [] all = tt
Owing-remove i ((j, t) ∷ d) (first, all) =
    let rest = Owing-remove i d all in
    elim (Bool-cases (j == i)) [ inl e ↦ rw e all | inr e ↦ rw e (first, rest) ]

pub Owing-lookup :
    (i : String) (r : HoldRecord) (d : Dict String HoldRecord)
    → lookup i d ≡ some r
    → All Owing d
    → (p : String) → pos 0 ≤ℤ amount p r.reserved
unfolding lookup
Owing-lookup i r [] h all p = absurd (cc)
Owing-lookup i r ((j, t) ∷ d) h (first, all) p =
    let rest = Owing-lookup i r d in
    elim (Bool-cases (j == i)) [
      | inl e ↦ subst (λ x. pos 0 ≤ℤ amount p x.reserved) (some_injective (rw e at h)) (first p)
      | inr e ↦ rest (rw e at h) all p
    ]
