-- ===== src/Mocks/Ihms/Stock.antt =====
-- What the loops of create_hold and release_hold do to the stock of one product.
use ihms_oms.Prelude.{
  String, ◌≡◌, refl, true, false, some, [], ◌∷◌, lookup, insert, lookup-insert, string_eq, ◌==◌,
  if◌then◌else◌, arith, All, ap, sym, ◌∙◌, Bool-cases, inl, inr, beq_self,
}
use text.Mathlib.TextEquality.{eq_iff}
use ihms_oms.Prelude.Int.{ℤ, pos, above, below, ◌+ℤ◌, ◌-ℤ◌, int_rules}
use ihms_oms.Mocks.Ihms.{Amounts, available, deduct, restore}

-- All that a list of amounts has of a product.
unfoldable pub amount : String → Amounts → ℤ
amount p [] = pos 0
amount p ((k, q) ∷ r) = if k == p then q +ℤ amount p r else amount p r

pub available-insert :
    (k p : String) (v : ℤ) (inventory : Amounts)
    → available (insert k v inventory) p ≡ (if k == p then v else available inventory p)
available-insert k p v inventory = ground (arith, lookup-insert k p v inventory)

-- `available-insert` at the product that is set, and at another.
pub available-insert_hit :
    (k p : String) (v : ℤ) (inventory : Amounts)
    → (k == p) ≡ true
    → available (insert k v inventory) p ≡ v
available-insert_hit k p v inventory e = ground (arith, available-insert k p v inventory)

pub available-insert_miss :
    (k p : String) (v : ℤ) (inventory : Amounts)
    → (k == p) ≡ false
    → available (insert k v inventory) p ≡ available inventory p
available-insert_miss k p v inventory e = ground (arith, available-insert k p v inventory)

available_same :
    (k p : String) (inventory : Amounts)
    → (k == p) ≡ true
    → available inventory k ≡ available inventory p
available_same k p inventory e = ap (available inventory) ((eq_iff k p).0 e)

amount_hit :
    (k p : String) (q : ℤ) (r : Amounts) → (k == p) ≡ true → amount p ((k, q) ∷ r) ≡ q +ℤ amount p r
unfolding amount
amount_hit k p q r e = rw e

amount_miss :
    (k p : String) (q : ℤ) (r : Amounts) → (k == p) ≡ false → amount p ((k, q) ∷ r) ≡ amount p r
unfolding amount
amount_miss k p q r e = rw e

amount_cons :
    (j p : String) (w : ℤ) (r s : Amounts)
    → amount p r ≡ amount p s
    → amount p ((j, w) ∷ r) ≡ amount p ((j, w) ∷ s)
unfolding amount
amount_cons j p w r s h = rw h

take_off : (n q m x : ℤ) → x +ℤ m ≡ n -ℤ q → x +ℤ (q +ℤ m) ≡ n
take_off n q m x h = omega (int_rules, ap above h, ap below h)

pub restore_lem :
    (p : String) (r inventory : Amounts)
    → available (restore r inventory) p ≡ available inventory p +ℤ amount p r
unfolding restore
restore_lem p [] inventory = unfold amount in omega int_rules
restore_lem p ((k, q) ∷ r) inventory =
    let v = available inventory k +ℤ q in
    let rest = restore_lem p r (insert k v inventory) in
    elim (Bool-cases (k == p)) [
      | inl e ↦
          let here = available-insert_hit k p v inventory e in
          let same = available_same k p inventory e in
          rw (amount_hit k p q r e, rest, here, same) (omega int_rules)
      | inr e ↦ rw (amount_miss k p q r e, rest, available-insert_miss k p v inventory e) refl
    ]

-- The product is listed.
abbrev pub Known : Amounts → String → Type 0
Known inventory p = (n : ℤ) × (lookup p inventory ≡ some n)

pub Known-insert :
    (k p : String) (v : ℤ) (inventory : Amounts)
    → Known inventory p
    → Known (insert k v inventory) p
Known-insert k p v inventory (n, found) =
    (if k == p then v else n, ground (arith, lookup-insert k p v inventory))

abbrev pub AllKnown : Amounts → Amounts → Type 0
AllKnown inventory r = All (λ (e : String × ℤ). Known inventory e.0) r

AllKnown-insert :
    (k : String) (v : ℤ) (inventory r : Amounts)
    → AllKnown inventory r
    → AllKnown (insert k v inventory) r
AllKnown-insert k v inventory [] known = tt
AllKnown-insert k v inventory ((p, q) ∷ r) (first, known) =
    (Known-insert k p v inventory first, AllKnown-insert k v inventory r known)

available_found :
    (k : String) (n : ℤ) (inventory : Amounts)
    → lookup k inventory ≡ some n
    → available inventory k ≡ n
available_found k n inventory found = rw found

-- The loop of create_hold ends without a KeyError where it only takes off listed products, and what
-- it reserves is missing afterwards.
pub deduct_lem :
    (p : String) (r inventory : Amounts)
    → AllKnown inventory r
    → ((deduct r inventory).0 ≡ true)
      × (available (deduct r inventory).1 p +ℤ amount p r ≡ available inventory p)
unfolding deduct
deduct_lem p [] inventory known = (refl, unfold amount in omega int_rules)
deduct_lem p ((k, q) ∷ r) inventory ((n, found), known) =
    let v = n -ℤ q in
    let (done, rest) =
      deduct_lem p r (insert k v inventory) (AllKnown-insert k v inventory r known) in
    rw (found, deduct)
      (
        done,
        elim (Bool-cases (k == p)) [
          | inl e ↦
              let here = available-insert_hit k p v inventory e in
              let same = available_same k p inventory e in
              let value = available_found k n inventory found in
              rw (amount_hit k p q r e) (take_off _ _ _ _ (rest ∙ here) ∙ sym value ∙ same)
          | inr e ↦ rw (amount_miss k p q r e) (rest ∙ available-insert_miss k p v inventory e)
        ],
      )

-- What is reserved is what the dictionary has of the product.
abbrev pub Single : Amounts → Type 0
Single r = (p : String) → amount p r ≡ available r p

insert_here :
    (k j : String) (v w : ℤ) (r : Amounts) → (j == k) ≡ true → insert k v ((j, w) ∷ r) ≡ (j, v) ∷ r
unfolding insert
insert_here k j v w r e = rw e

insert_later :
    (k j : String) (v w : ℤ) (r : Amounts)
    → (j == k) ≡ false
    → insert k v ((j, w) ∷ r) ≡ (j, w) ∷ insert k v r
unfolding insert
insert_later k j v w r e = rw e

pub amount-insert_miss :
    (k p : String) (v : ℤ) (r : Amounts) → (k == p) ≡ false → amount p (insert k v r) ≡ amount p r
amount-insert_miss k p v [] e = unfold amount insert in rw e
amount-insert_miss k p v ((j, w) ∷ r) e =
    let rest = amount-insert_miss k p v r e in
    elim (Bool-cases (j == k)) [
      | inl h ↦
          let other : (j == p) ≡ false = ground (arith, eq_iff j k, eq_iff j p, eq_iff k p) in
          rw (insert_here k j v w r h, amount_miss j p v r other, amount_miss j p w r other) refl
      | inr h ↦ rw (insert_later k j v w r h) (amount_cons j p w _ r rest)
    ]

pub amount-insert_hit :
    (k : String) (v : ℤ) (r : Amounts) → amount k (insert k v r) +ℤ available r k ≡ v +ℤ amount k r
amount-insert_hit k v [] =
    unfold insert lookup in rw (amount_hit k k v [] (beq_self k)) (unfold amount in omega int_rules)
amount-insert_hit k v ((j, w) ∷ r) =
    let rest = amount-insert_hit k v r in
    elim (Bool-cases (j == k)) [
      | inl h ↦
          let first : available ((j, w) ∷ r) k ≡ w = unfold lookup in rw h in
          rw (insert_here k j v w r h, amount_hit j k v r h, amount_hit j k w r h, first)
            (omega int_rules)
      | inr h ↦
          let first : available ((j, w) ∷ r) k ≡ available r k = unfold lookup in rw h in
          rw
            (
              insert_later k j v w r h,
              amount_miss j k w (insert k v r) h,
              amount_miss j k w r h,
              first,
            )
            rest
    ]
