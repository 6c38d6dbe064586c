-- ===== src/Mocks/Ihms/Reserve.antt =====
-- What create_hold reserves: listed products, each at most once and no more of it than the stock.
use ihms_oms.Prelude.{
  String, ◌≡◌, refl, Option, none, some, List, [], ◌∷◌, lookup, insert, string_eq, ◌==◌, arith, All,
  sym, ap, Bool-cases, inl, inr, subst, ◌∙◌, beq_self,
}
use text.Mathlib.TextEquality.{eq_iff}
use ihms_oms.Prelude.Int.{ℤ, pos, ◌+ℤ◌, ◌≤ℤ◌, less, int_rules, above, below}
use ihms_oms.Gateway.Models.{HoldItemResponse}
use ihms_oms.Mocks.Ihms.{Amounts, HoldItemIn, available, reserve_items}
use ihms_oms.Mocks.Ihms.Stock.{
  amount, Known, AllKnown, Single, amount-insert_miss, amount-insert_hit, available-insert_hit,
  available-insert_miss,
}

abbrev pub NonNegative : Amounts → Type 0
NonNegative inventory = (p : String) → pos 0 ≤ℤ available inventory p

pub record Reservation (inventory r : Amounts) : Type 0 where
  pub known : AllKnown inventory r
  pub single : Single r
  pub owed : (p : String) → pos 0 ≤ℤ amount p r
  pub covered : (p : String) → amount p r ≤ℤ available inventory p

Reservation-nil : {inventory : Amounts} → NonNegative inventory → Reservation inventory []
unfolding amount lookup
Reservation-nil plenty = record {
  known = tt;
  single = λ p. refl;
  owed = λ p. omega arith;
  covered = λ p. plenty p;
}

-- A line asks for at least one.
abbrev pub IsPositive : HoldItemIn → Type 0
IsPositive item = pos 1 ≤ℤ item.quantity

module _ (inventory : Amounts) (k : String) (q : ℤ) (wanted : pos 1 ≤ℤ q)
    (enough : q ≤ℤ available inventory k) where
  Known-wanted : Known inventory k
  Known-wanted = go (lookup k inventory) refl
    where
      go : (o : Option ℤ) → lookup k inventory ≡ o → Known inventory k
      go none e = absurd (ground arith)
      go (some n) e = (n, e)

  AllKnown-wanted : (r : Amounts) → AllKnown inventory r → AllKnown inventory (insert k q r)
  unfolding insert
  AllKnown-wanted [] known = (Known-wanted, tt)
  AllKnown-wanted ((j, w) ∷ r) (first, known) =
      let rest = AllKnown-wanted r known in
      elim (Bool-cases (j == k)) [
        | inl e ↦ rw (e, insert) (first, known)
        | inr e ↦ rw (e, insert) (first, rest)
      ]

  cancel : (x y v m : ℤ) → x +ℤ y ≡ v +ℤ m → m ≡ y → x ≡ v
  cancel x y v m h e = omega (int_rules, ap above h, ap below h, ap above e, ap below e)

  module _ (r : Amounts) (single : Single r) where
    amount_wanted : amount k (insert k q r) ≡ q
    amount_wanted = cancel _ _ _ _ (amount-insert_hit k q r) (single k)

    at_product :
        (P : String → ℤ → Type 0)
        → P k q
        → ((p : String) → P p (amount p r))
        → (p : String) → P p (amount p (insert k q r))
    at_product P here there p = elim (Bool-cases (k == p)) [
      | inl e ↦
          subst (λ x. P x (amount x (insert k q r))) ((eq_iff k p).0 e)
            (subst (P k) (sym amount_wanted) here)
      | inr e ↦ subst (P p) (sym (amount-insert_miss k p q r e)) (there p)
    ]

    Single-wanted : Single (insert k q r)
    Single-wanted p = elim (Bool-cases (k == p)) [
      | inl e ↦
          subst (λ x. amount x (insert k q r) ≡ available (insert k q r) x) ((eq_iff k p).0 e)
            (amount_wanted ∙ sym (available-insert_hit k k q r (beq_self k)))
      | inr e ↦ amount-insert_miss k p q r e ∙ single p ∙ sym (available-insert_miss k p q r e)
    ]

  Reservation-wanted :
      {r : Amounts} → Reservation inventory r → Reservation inventory (insert k q r)
  Reservation-wanted {r} v = record {
    known = AllKnown-wanted r v.known;
    single = Single-wanted r v.single;
    owed = at_product r v.single (λ p x. pos 0 ≤ℤ x) (omega (arith, wanted)) v.owed;
    covered = at_product r v.single (λ p x. x ≤ℤ available inventory p) enough v.covered;
  }

-- What the loop over the lines reserves where it does not answer 409.
reserve_items-Reservation :
    (inventory : Amounts) (items : List HoldItemIn) (r : Amounts) (out : List HoldItemResponse)
    → All IsPositive items
    → Reservation inventory r
    → (r' : Amounts) (out' : List HoldItemResponse)
    → reserve_items inventory items r out ≡ some (r', out')
    → Reservation inventory r'
unfolding reserve_items
reserve_items-Reservation inventory [] r out positive v r' out' h =
    subst (Reservation inventory) (ground arith) v
reserve_items-Reservation inventory (item ∷ items) r out (wanted, positive) v r' out' h =
    elim (Bool-cases (less (available inventory item.product_id) item.quantity)) [
      | inl e ↦ absurd (cc (rw e at h))
      | inr e ↦
          let enough : item.quantity ≤ℤ available inventory item.product_id = ground arith in
          reserve_items-Reservation inventory items _ _ positive
            (Reservation-wanted inventory item.product_id item.quantity wanted enough v) r' out'
            (rw e at h)
    ]

-- The loop of create_hold, from its start.
pub reserved-Reservation :
    (inventory : Amounts) (items : List HoldItemIn) (r : Amounts) (out : List HoldItemResponse)
    → NonNegative inventory
    → All IsPositive items
    → reserve_items inventory items [] [] ≡ some (r, out)
    → Reservation inventory r
reserved-Reservation inventory items r out plenty positive h =
    reserve_items-Reservation inventory items [] [] positive (Reservation-nil plenty) r out h
