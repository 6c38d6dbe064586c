-- ===== src/Catalog/Inventory.antt =====
-- src/catalog/inventory.py: catalog rows joined with the stock that IHMS reports.
pub mod Agree
use ihms_oms.Prelude.{
  String, Bool, Option, none, some, List, [], ◌∷◌, map, Dict, lookup, insert, string_eq, ◌==◌,
  if◌then◌else◌,
}
use ihms_oms.Session.Models.{Price}
use ihms_oms.Gateway.Models.{ℤ, pos, ObservabilityHeaders, InventoryItemResponse, History}
use ihms_oms.Gateway.Errors.{Error, gateway}
use ihms_oms.Gateway.Ihms.{IhmsClient, get_inventory}
use ihms_oms.Effect.{Action, pure, raise, ◌>>=◌, catch}
use ihms_oms.Catalog.Provider.{CatalogProduct}

pub record CatalogProductWithAvailability : Type 0 where
  pub sku : String
  pub name : String
  pub ihms_product_id : String
  pub ecops_item_code : String
  pub unit_price : Price
  pub available_quantity : Option ℤ
  pub description : Option String
  pub image_url : Option String
  pub category : Option String

abbrev pub with_stock : Option ℤ → CatalogProduct → CatalogProductWithAvailability
with_stock available p = record {
  sku = p.sku;
  name = p.name;
  ihms_product_id = p.ihms_product_id;
  ecops_item_code = p.ecops_item_code;
  unit_price = p.unit_price;
  available_quantity = available;
  description = none;
  image_url = none;
  category = none;
}

unfoldable pub catalog_without_inventory : List CatalogProduct → List CatalogProductWithAvailability
catalog_without_inventory products = map (with_stock none) products

-- `{item.product_id: item.available_quantity for item in inventory}`: the last entry of a product
-- decides.
unfoldable pub stock_onto : List InventoryItemResponse → Dict String ℤ → Dict String ℤ
stock_onto [] d = d
stock_onto (x ∷ xs) d = stock_onto xs (insert x.product_id x.available_quantity d)

unfoldable pub inventory_by_product_id : List InventoryItemResponse → Dict String ℤ
unfolding stock_onto
inventory_by_product_id xs = stock_onto xs []

-- `inventory_by_product_id.get(product_id, 0)`
unfoldable pub stock_or_zero : String → Dict String ℤ → ℤ
stock_or_zero product_id d = elim (lookup product_id d) [ none ↦ pos 0 | some n ↦ n ]

-- `next((… for item in inventory_items if item.product_id == …), 0)`: the first entry decides.
unfoldable pub first_stock : String → List InventoryItemResponse → ℤ
first_stock product_id [] = pos 0
first_stock product_id (x ∷ xs) =
    if x.product_id == product_id then x.available_quantity else first_stock product_id xs

-- `except GatewayError`, with what the handler does where `allow_degraded` is set.
abbrev pub degraded : {S A : Type 0} → Bool → A → Error → Action S A
degraded allow_degraded a (gateway x) = if allow_degraded then pure a else raise (gateway x)
degraded allow_degraded a x = raise x

abbrev joined :
    List CatalogProduct → List InventoryItemResponse → List CatalogProductWithAvailability
joined products xs =
    let stock = inventory_by_product_id xs in
    map (λ p. with_stock (some (stock_or_zero p.ihms_product_id stock)) p) products

-- The catalog enters as the list that its `list_products` returns.
unfoldable pub list_catalog_with_inventory :
    List CatalogProduct
    → IhmsClient
    → ObservabilityHeaders
    → Bool
    → Action History (List CatalogProductWithAvailability)
unfolding catalog_without_inventory
list_catalog_with_inventory products ihms headers allow_degraded =
    catch (do xs ← get_inventory ihms headers; pure (joined products xs))
      (degraded allow_degraded (catalog_without_inventory products))

-- The catalog enters as what its `get_product` returns for the SKU.
unfoldable pub get_product_with_inventory :
    Option CatalogProduct
    → IhmsClient
    → ObservabilityHeaders
    → Bool
    → Action History (Option CatalogProductWithAvailability)
get_product_with_inventory none ihms headers allow_degraded = pure none
get_product_with_inventory (some p) ihms headers allow_degraded =
    catch
      (do
        xs ← get_inventory ihms headers
        pure (some (with_stock (some (first_stock p.ihms_product_id xs)) p)))
      (degraded allow_degraded (some (with_stock none p)))
