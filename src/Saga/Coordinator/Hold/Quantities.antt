-- ===== src/Saga/Coordinator/Hold/Quantities.antt =====
-- The cart that `place_hold` of src/saga/coordinator.py makes of the requested items, and the check of
-- its stock.
use text.Mathlib.TextEquality.{eq_iff}
use ihms_oms.Prelude.{
  ℕ, ◌+◌, String, ◌≡◌, refl, Bool, false, Option, none, some, List, [], ◌∷◌, Dict, lookup, insert,
  lookup-insert, string_eq, ◌==◌, ◌||◌, arith, if◌then◌else◌,
}
use ihms_oms.Saga.Coordinator.Hold.{merge_onto, merged_quantities}

-- What a request asks of a SKU, over all the items that name it.
abbrev pub total : String → List (String × ℕ) → ℕ
total sku [] = 0
total sku ((name, quantity) ∷ items) =
    if name == sku then quantity + total sku items else total sku items

abbrev pub names : String → List (String × ℕ) → Bool
names sku [] = false
names sku ((name, quantity) ∷ items) = name == sku || names sku items

abbrev quantity_or_zero : Option ℕ → ℕ
quantity_or_zero none = 0
quantity_or_zero (some n) = n

total-unnamed :
    (sku : String) (items : List (String × ℕ)) → names sku items ≡ false → total sku items ≡ 0
total-unnamed sku [] h = refl
total-unnamed sku ((name, quantity) ∷ items) h = ground (arith, total-unnamed sku items)

lookup-merge_onto :
    (sku : String) (items : List (String × ℕ)) (d : Dict String ℕ)
    → lookup sku (merge_onto items d) ≡ (
        if names sku items
        then some (quantity_or_zero (lookup sku d) + total sku items)
        else lookup sku d)
unfolding merge_onto
lookup-merge_onto sku [] d = refl
lookup-merge_onto sku ((name, quantity) ∷ items) d =
    let q : ℕ = elim (lookup name d) [ none ↦ quantity | some n ↦ n + quantity ] in
    ground (
      arith,
      lookup-merge_onto sku items (insert name q d),
      lookup-insert name sku q d,
      eq_iff name sku,
      total-unnamed sku items,
    )

-- The merged cart has exactly the SKUs that the request names, each with the sum of its quantities.
pub lookup-merged_quantities :
    (sku : String) (items : List (String × ℕ))
    → lookup sku (merged_quantities items)
      ≡ (if names sku items then some (total sku items) else none)
unfolding merged_quantities lookup
lookup-merged_quantities sku items = ground (arith, lookup-merge_onto sku items [])
