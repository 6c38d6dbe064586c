-- ===== src/Saga/Coordinator/Hold/Stock.antt =====
-- The check of the stock in `_assert_sufficient_stock_for_lines` of src/saga/coordinator.py.
use mathlib.Core.List.{◌++◌}
use ihms_oms.Prelude.{
  ℕ, String, ◌≡◌, refl, ap, Bool, true, false, List, [], ◌∷◌, Dict, leb, ◌&&◌, arith, inl, inr,
  Bool-cases,
}
use ihms_oms.Session.Models.{SessionLineItem}
use ihms_oms.Gateway.Models.{ℤ, pos, negsuc}
use ihms_oms.Gateway.Errors.{insufficient_stock, saga, Error, Result, ok, err}
use ihms_oms.Catalog.Inventory.{stock_or_zero}
use ihms_oms.Saga.Coordinator.Hold.{exceeds, assert_stock}

-- A quantity that a stock covers: no negative stock covers any.
abbrev pub within : ℕ → ℤ → Bool
within quantity (pos n) = leb quantity n
within quantity (negsuc _) = false

module _ (stock : Dict String ℤ) where
  abbrev pub line_covered : SessionLineItem → Bool
  line_covered i = within i.quantity (stock_or_zero i.ihms_product_id stock)

  abbrev pub covered : List SessionLineItem → Bool
  covered [] = true
  covered (i ∷ is) = line_covered i && covered is

  -- The line that the check stops at: the lines before it are covered, and it is not.
  pub record FirstShort (items : List SessionLineItem) (x : Error) : Type 0 where
    pub before : List SessionLineItem
    pub line : SessionLineItem
    pub after : List SessionLineItem
    pub split : items ≡ before ++ (line ∷ after)
    pub before_covered : covered before ≡ true
    pub line_short : line_covered line ≡ false
    pub reported :
        x
        ≡ saga
            (insufficient_stock line.sku line.quantity (stock_or_zero line.ihms_product_id stock))

  abbrev pub StockVerdict : List SessionLineItem → Result (Unit {0}) → Type 0
  StockVerdict items (ok _) = covered items ≡ true
  StockVerdict items (err x) = FirstShort items x

  exceeds-within : (quantity : ℕ) (a : ℤ) → exceeds quantity a ≡ false → within quantity a ≡ true
  exceeds-within quantity (pos n) h = ground arith
  exceeds-within quantity (negsuc n) h = cc

  exceeds-short : (quantity : ℕ) (a : ℤ) → exceeds quantity a ≡ true → within quantity a ≡ false
  exceeds-short quantity (pos n) h = ground arith
  exceeds-short quantity (negsuc n) h = refl

  StockVerdict-cons :
      (i : SessionLineItem) (is : List SessionLineItem) (r : Result (Unit {0}))
      → line_covered i ≡ true
      → StockVerdict is r
      → StockVerdict (i ∷ is) r
  StockVerdict-cons i is (ok a) c v = ground arith
  StockVerdict-cons i is (err x) c v = record {
    before = i ∷ v.before;
    line = v.line;
    after = v.after;
    split = ap (λ l. i ∷ l) v.split;
    before_covered = let b = v.before_covered in ground arith;
    line_short = v.line_short;
    reported = v.reported;
  }

  -- Where the check passes, no line asks for more than the stock of its product, a product that the
  -- inventory does not list having none; where it raises, it does so for the first line that asks for
  -- more, with that line's SKU and quantity and the stock of its product.
  pub assert_stock-StockVerdict :
      (items : List SessionLineItem) → StockVerdict items (assert_stock stock items)
  unfolding assert_stock
  assert_stock-StockVerdict [] = refl
  assert_stock-StockVerdict (i ∷ is) =
      let rest = assert_stock-StockVerdict is in
      elim (Bool-cases (exceeds i.quantity (stock_or_zero i.ihms_product_id stock))) [
        | inl h ↦ rw h (record {
          before = [];
          line = i;
          after = is;
          split = refl;
          before_covered = refl;
          line_short = exceeds-short i.quantity (stock_or_zero i.ihms_product_id stock) h;
          reported = refl;
        })
        | inr h ↦ rw h (
            StockVerdict-cons i is (assert_stock stock is)
              (exceeds-within i.quantity (stock_or_zero i.ihms_product_id stock) h) rest)
      ]
