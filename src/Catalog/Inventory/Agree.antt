-- ===== src/Catalog/Inventory/Agree.antt =====
-- The stock that the list and the detail of src/catalog/inventory.py show for one product.
use ihms_oms.Prelude.{
  ℕ, ◌+◌, ◌≤◌, String, ◌≡◌, refl, ap, sym, Bool, Option, none, some, List, [], ◌∷◌, Dict, lookup,
  insert, lookup-insert, string_eq, ◌==◌, arith, if◌then◌else◌, map, All, Bool-cases, inl, inr,
}
use ihms_oms.Gateway.Models.{ℤ, InventoryItemResponse, ObservabilityHeaders, History, Env}
use ihms_oms.Gateway.Errors.{Error, Result, ok, err, gateway}
use ihms_oms.Gateway.Ihms.{IhmsClient, get_inventory}
use ihms_oms.Effect.{◌>>=◌, catch}
use ihms_oms.Catalog.Provider.{CatalogProduct}
use ihms_oms.Catalog.Inventory.{
  CatalogProductWithAvailability, with_stock, catalog_without_inventory, get_product_with_inventory,
  list_catalog_with_inventory, stock_onto, inventory_by_product_id, stock_or_zero, first_stock,
}

-- How many entries an inventory has for a product.
abbrev pub entries : String → List InventoryItemResponse → ℕ
entries product_id [] = 0
entries product_id (x ∷ xs) =
    if x.product_id == product_id then entries product_id xs + 1 else entries product_id xs

stock_onto-absent :
    (product_id : String) (xs : List InventoryItemResponse) (d : Dict String ℤ)
    → entries product_id xs ≡ 0
    → lookup product_id (stock_onto xs d) ≡ lookup product_id d
unfolding stock_onto
stock_onto-absent product_id [] d h = refl
stock_onto-absent product_id (x ∷ xs) d h = ground (
  arith,
  stock_onto-absent product_id xs (insert x.product_id x.available_quantity d),
  lookup-insert x.product_id product_id x.available_quantity d,
)

first_stock-onto :
    (product_id : String) (xs : List InventoryItemResponse) (d : Dict String ℤ)
    → entries product_id xs ≤ 1
    → lookup product_id d ≡ none
    → stock_or_zero product_id (stock_onto xs d) ≡ first_stock product_id xs
unfolding stock_onto stock_or_zero first_stock
first_stock-onto product_id [] d h n = ground arith
first_stock-onto product_id (x ∷ xs) d h n =
    let d' = insert x.product_id x.available_quantity d in
    ground (
      arith,
      first_stock-onto product_id xs d',
      stock_onto-absent product_id xs d',
      lookup-insert x.product_id product_id x.available_quantity d,
    )

-- For a product that the inventory lists at most once, the detail of the product shows the stock that
-- the list of products shows.
pub first_stock-inventory_by_product_id :
    (product_id : String) (xs : List InventoryItemResponse)
    → entries product_id xs ≤ 1
    → stock_or_zero product_id (inventory_by_product_id xs) ≡ first_stock product_id xs
unfolding inventory_by_product_id lookup
first_stock-inventory_by_product_id product_id xs h = first_stock-onto product_id xs [] h refl

-- The rows of a list are those of the details, product by product.
abbrev pub RowsOf :
    (CatalogProduct → Result (Option CatalogProductWithAvailability))
    → List CatalogProduct
    → List CatalogProductWithAvailability
    → Type 0
RowsOf detail [] [] = Unit
RowsOf detail [] (_ ∷ _) = ⊥
RowsOf detail (_ ∷ _) [] = ⊥
RowsOf detail (p ∷ ps) (r ∷ rs) = (detail p ≡ ok (some r)) × RowsOf detail ps rs

-- The list answers with the rows of the details, or every detail fails as the list does.
abbrev pub ListsDetails :
    (CatalogProduct → Result (Option CatalogProductWithAvailability))
    → List CatalogProduct
    → Result (List CatalogProductWithAvailability)
    → Type 0
ListsDetails detail ps (ok rows) = RowsOf detail ps rows
ListsDetails detail ps (err x) = All (λ p. detail p ≡ err x) ps

-- The inventory lists a product at most once.
abbrev pub ListedOnce : List InventoryItemResponse → CatalogProduct → Type 0
ListedOnce xs p = entries p.ihms_product_id xs ≤ 1

stocked-RowsOf :
    (xs : List InventoryItemResponse) (ps : List CatalogProduct)
    → All (ListedOnce xs) ps
    → RowsOf
        (λ p. ok (some (with_stock (some (first_stock p.ihms_product_id xs)) p)))
        ps
        (map
          (λ p. with_stock (some (stock_or_zero p.ihms_product_id (inventory_by_product_id xs))) p)
          ps)
stocked-RowsOf xs [] once = tt
stocked-RowsOf xs (p ∷ ps) (first, rest) = (
  ap (λ n. ok (some (with_stock (some n) p)))
      (sym (first_stock-inventory_by_product_id p.ihms_product_id xs first)),
  stocked-RowsOf xs ps rest,
)

unstocked-RowsOf :
    (ps : List CatalogProduct)
    → RowsOf (λ p. ok (some (with_stock none p))) ps (map (with_stock none) ps)
unstocked-RowsOf [] = tt
unstocked-RowsOf (p ∷ ps) = (refl, unstocked-RowsOf ps)

abbrev no_row : Error → Result (Option CatalogProductWithAvailability)
no_row x = err x

failing_rows : (x : Error) (ps : List CatalogProduct) → All (λ _. no_row x ≡ err x) ps
failing_rows x [] = tt
failing_rows x (p ∷ ps) = (refl, failing_rows x ps)

-- Where IHMS answers alike and its inventory lists each product of the catalog at most once, the list
-- of products has a row for each product, in the order of the catalog, which is the one that the detail
-- of that product has; or the list and every detail fail alike. That is so with and without degraded
-- answers.
pub get_product_with_inventory-list_catalog_with_inventory :
    (ps : List CatalogProduct) (ihms : IhmsClient) (headers : ObservabilityHeaders)
    (allow_degraded : Bool) (e : Env) (h : History)
    → ((xs : List InventoryItemResponse)
        → (get_inventory ihms headers e h).0 ≡ ok xs
        → All (ListedOnce xs) ps)
    → ListsDetails
        (λ p. (get_product_with_inventory (some p) ihms headers allow_degraded e h).0)
        ps
        (list_catalog_with_inventory ps ihms headers allow_degraded e h).0
unfolding get_product_with_inventory list_catalog_with_inventory ◌>>=◌ catch
    catalog_without_inventory
get_product_with_inventory-list_catalog_with_inventory ps ihms headers allow_degraded e h once =
    answers (get_inventory ihms headers e h).0 refl
  where
    answers :
        (r : Result (List InventoryItemResponse))
        → (get_inventory ihms headers e h).0 ≡ r
        → ListsDetails
            (λ p. (get_product_with_inventory (some p) ihms headers allow_degraded e h).0)
            ps
            (list_catalog_with_inventory ps ihms headers allow_degraded e h).0
    answers (ok xs) q = rw q (stocked-RowsOf xs ps (once xs q))
    answers (err (gateway x)) q = elim (Bool-cases allow_degraded) [
      | inl d ↦ rw q (rw d (unstocked-RowsOf ps))
      | inr d ↦ rw q (rw d (failing_rows (gateway x) ps))
    ]
    answers (err x) q = rw q (failing_rows x ps)
