-- ===== src/Saga/Tests/Methods.antt =====
-- The parts of the requests, at work on the small shop.
use ihms_oms.Gateway.Ihms.{get_inventory}
use ihms_oms.Gateway.Models.{InventoryItemResponse}
use ihms_oms.Catalog.Provider.{CatalogProduct}
use ihms_oms.Catalog.Inventory.{get_product_with_inventory, list_catalog_with_inventory}
use ihms_oms.Catalog.Inventory.Agree.{
  ListsDetails, ListedOnce, get_product_with_inventory-list_catalog_with_inventory,
}
use ihms_oms.Effect.Counting.{count}
use ihms_oms.Saga.Steps.Rounds.{
  is_delete_hold, is_post_fulfill, release_hold_safe-rounds, fulfill_hold_safe-rounds,
}
use ihms_oms.Prelude.{
  ◌≤◌, List, All, arith, String, string_eq, ◌⊎◌, Dict, ◌≡◌, refl, true, false, some, [], ◌∷◌,
  lookup, insert,
}
use ihms_oms.Session.Models.{confirmed, abandoned, fulfill_pending}
use ihms_oms.Session.Store
use ihms_oms.Gateway.Models.{ℤ, pos}
use ihms_oms.Saga.World.{
  external, require_session, session_get, session_save, count_metric, idempotency_put,
}
use ihms_oms.Saga.Coordinator.Outcomes.{
  release_held, fulfill_held, compensate_and_fail, complete_order_after_create, order_complete,
  finalize_success, cache_confirm_response, with_order,
}
use ihms_oms.Gateway.Errors.{ok}
use ihms_oms.Saga.Steps.{fulfill_hold_safe, release_hold_safe}
use ihms_oms.Saga.Coordinator.Confirm.{abandon}
use ihms_oms.Effect.{◌>>=◌, catch, send}
use ihms_oms.Gateway.Http.{request, raise_for_ihms_response}
use ihms_oms.Gateway.Ihms.{release_hold, fulfill_hold}
use ihms_oms.Observability.Metrics.{record_abandon, record_confirm_success}
use ihms_oms.Saga.Released.{abandon-Released, Compensated, compensate_and_fail-Compensated}
use ihms_oms.Saga.Settled.{complete_order_after_create-Settled}
use ihms_oms.Saga.Steps.Release.{Released}
use ihms_oms.Saga.Steps.Settle.{Settled}
use ihms_oms.Saga.Coordinator.Hold.{merged_quantities, assert_stock}
use ihms_oms.Saga.Coordinator.Hold.Quantities.{lookup-merged_quantities}
use ihms_oms.Saga.Coordinator.Hold.Stock.{StockVerdict, assert_stock-StockVerdict}
use ihms_oms.Saga.Tests.{
  tracing, line, shop, held_cart, held_store, ordered_cart, held_cart-Stored, world_of,
}

abandoned_cart :
    (abandon 1 tracing shop (world_of held_store)).0 ≡ ok (record held_cart { state = abandoned })
unfolding abandon require_session session_get Store.get Store.save lookup insert ◌>>=◌ release_held
    external release_hold_safe release_hold request send raise_for_ihms_response catch session_save
    count_metric record_abandon
abandoned_cart = refl

abandon-Released_example :
    Released
      (record { fulfill_optional = true })
      "H-1"
      tracing
      shop
      (abandon 1 tracing shop (world_of held_store)).1.history
abandon-Released_example =
    abandon-Released tracing shop (world_of held_store) held_cart 1
      (record held_cart { state = abandoned }) held_cart-Stored refl refl abandoned_cart

compensate_and_fail-Compensated_example :
    let (a, w') = compensate_and_fail held_cart tracing shop (world_of held_store) in
    Compensated tracing shop (world_of held_store) held_cart a w'
compensate_and_fail-Compensated_example =
    compensate_and_fail-Compensated tracing shop (world_of held_store) held_cart refl

completed_cart :
    (complete_order_after_create held_cart 77 "K" tracing false shop (world_of held_store)).0
    ≡ ok (record { session = ordered_cart; from_cache = false })
unfolding complete_order_after_create order_complete finalize_success cache_confirm_response
    idempotency_put record_confirm_success Store.save insert ◌>>=◌ fulfill_held external
    fulfill_hold_safe fulfill_hold request send raise_for_ihms_response catch session_save
    count_metric
completed_cart = refl

complete_order_after_create-Settled_example :
    (ordered_cart ≡ with_order fulfill_pending 77 "K" held_cart)
    ⊎ ((ordered_cart ≡ with_order confirmed 77 "K" held_cart)
        × Settled
            (record { fulfill_optional = true })
            "H-1"
            tracing
            shop
            (complete_order_after_create held_cart 77 "K" tracing false shop
              (world_of held_store)).1.history)
complete_order_after_create-Settled_example =
    complete_order_after_create-Settled tracing shop (world_of held_store) held_cart 77 "K" false
      (record { session = ordered_cart; from_cache = false }) refl completed_cart

lookup-merged_quantities_example :
    lookup "a" (merged_quantities (("a", 2) ∷ ("b", 1) ∷ ("a", 3) ∷ [])) ≡ some 5
lookup-merged_quantities_example =
    lookup-merged_quantities "a" (("a", 2) ∷ ("b", 1) ∷ ("a", 3) ∷ [])

abbrev low_stock : Dict String ℤ
low_stock = ("P-1", pos 1) ∷ []

assert_stock-StockVerdict_example :
    StockVerdict low_stock (line ∷ []) (assert_stock low_stock (line ∷ []))
assert_stock-StockVerdict_example = assert_stock-StockVerdict low_stock (line ∷ [])

release_hold_safe-rounds_example :
    count is_delete_hold
      (release_hold_safe (record { fulfill_optional = true }) "H-1" tracing 2 shop []).1
    ≤ 3
release_hold_safe-rounds_example =
    release_hold_safe-rounds (record { fulfill_optional = true }) "H-1" tracing 2 shop []

fulfill_hold_safe-rounds_example :
    count is_post_fulfill
      (fulfill_hold_safe (record { fulfill_optional = true }) "H-1" tracing 2 shop []).1
    ≤ 3
fulfill_hold_safe-rounds_example =
    fulfill_hold_safe-rounds (record { fulfill_optional = true }) "H-1" tracing 2 shop []

abbrev keyboard : CatalogProduct
keyboard = record {
  sku = "SKU-1";
  name = "Keyboard";
  ihms_product_id = "P-1";
  ecops_item_code = "KB";
  unit_price = record { negative = false; digits = 4999; scale = 2 };
}

abbrev mouse : CatalogProduct
mouse = record {
  sku = "SKU-2";
  name = "Mouse";
  ihms_product_id = "P-2";
  ecops_item_code = "MS";
  unit_price = record { negative = false; digits = 1999; scale = 2 };
}

abbrev two_products : List CatalogProduct
two_products = keyboard ∷ mouse ∷ []

shop_lists_once :
    (xs : List InventoryItemResponse)
    → (get_inventory (record { fulfill_optional = true }) tracing shop []).0 ≡ ok xs
    → All (ListedOnce xs) two_products
unfolding get_inventory request send raise_for_ihms_response ◌>>=◌
shop_lists_once xs q = ground (arith, q)

get_product_with_inventory-list_catalog_with_inventory_example :
    ListsDetails
      (λ p.
        (get_product_with_inventory
          (some p)
          (record { fulfill_optional = true })
          tracing
          false
          shop
          []).0)
      two_products
      (list_catalog_with_inventory two_products
        (record { fulfill_optional = true })
        tracing
        false
        shop
        []).0
get_product_with_inventory-list_catalog_with_inventory_example =
    get_product_with_inventory-list_catalog_with_inventory two_products
      (record { fulfill_optional = true }) tracing false shop [] shop_lists_once
