-- ===== src/Saga/Tests/Run.antt =====
-- A whole `place_order` on the small shop.
use ihms_oms.Catalog.Provider
use ihms_oms.Catalog.Live.{get_product}
use ihms_oms.Catalog.Inventory.{inventory_by_product_id, stock_or_zero}
use ihms_oms.Gateway.Ihms.{create_hold, get_inventory, fulfill_hold}
use ihms_oms.Gateway.Ecops.{create_order, auth_headers, list_orders, find_order_by_client_reference}
use ihms_oms.Gateway.Http.{request, raise_for_ihms_response, raise_for_ecops_response}
use ihms_oms.Effect.{◌>>=◌, send, now, catch}
use ihms_oms.Observability.Metrics.{record_confirm_success, record_hold_placed}
use ihms_oms.Session.Store
use ihms_oms.Saga.Idempotency
use ihms_oms.Saga.World.{
  external, session_save, session_get, require_session, count_metric, idempotency_get,
  idempotency_put,
}
use ihms_oms.Saga.Steps.{find_order_by_reference, fulfill_hold_safe}
use ihms_oms.Saga.Coordinator.Creation.{
  build_order_payload, find_or_create, create_order_with_retry,
}
use ihms_oms.Saga.Coordinator.Outcomes.{
  complete_order_after_create, order_complete, finalize_success, cache_confirm_response,
  fulfill_held, hold_text,
}
use ihms_oms.Saga.Coordinator.Hold.{
  prepare_hold, merged_quantities, line_items_for, hold_items, assert_sufficient_stock,
  assert_stock, place_hold_locked,
}
use ihms_oms.Saga.Coordinator.Confirm.{confirm_uncached, confirm_first, assert_hold_not_expired}
use ihms_oms.Saga.Coordinator.PlaceOrder.{place_order_uncached, order_held, resolved_customer}
use ihms_oms.Prelude.{none, some, strip, false, lookup, insert, ◌≡◌, refl, [], ◌∷◌}
use ihms_oms.Gateway.Errors.{ok}
use ihms_oms.Saga.Coordinator.Hold.{place_hold}
use ihms_oms.Saga.Coordinator.Confirm.{confirm}
use ihms_oms.Saga.Coordinator.PlaceOrder.{place_order}
use ihms_oms.Gateway.Models.{OrderCreate, History}
use ihms_oms.Saga.Confirms.Answers.{Ordered, ordered_history}
use ihms_oms.Saga.Confirms.{Confirmed, confirm-confirms}
use ihms_oms.Saga.Tests.{
  tracing, shop, world_of, cart_store, ordered_cart, held_store, held_cart, held_cart-Stored, line,
  placed,
}

-- The visit's order goes through: held, posted, finalised, cached.
visit_confirms :
    (place_order 1 (("SKU-1", 2) ∷ []) "Ada" "K" tracing shop (world_of cart_store)).0
    ≡ ok (record { session = ordered_cart; from_cache = false })
unfolding place_order place_order_uncached order_held resolved_customer confirm confirm_uncached
    confirm_first assert_hold_not_expired build_order_payload find_or_create create_order_with_retry
    create_order auth_headers find_order_by_reference find_order_by_client_reference list_orders
    place_hold prepare_hold merged_quantities line_items_for get_product Provider.get_product
    hold_items assert_sufficient_stock assert_stock inventory_by_product_id stock_or_zero
    place_hold_locked create_hold get_inventory complete_order_after_create order_complete
    finalize_success cache_confirm_response idempotency_put idempotency_get Idempotency.get
    Idempotency.put record_confirm_success record_hold_placed Store.save Store.get insert lookup
    ◌>>=◌ fulfill_held external fulfill_hold_safe fulfill_hold request send now
    raise_for_ihms_response raise_for_ecops_response catch session_save session_get require_session
    count_metric strip
visit_confirms = refl

abbrev ordered : OrderCreate
ordered = record {
  customer_name = "Ada";
  client_reference = "c1";
  items =
      record {
        product_name = "KB";
        quantity = 2;
        price = record { negative = false; digits = 4999; scale = 2 };
      }
      ∷ [];
}

held_cart_payload : build_order_payload held_cart "Ada" ≡ ok ordered
unfolding build_order_payload
held_cart_payload = refl

shop_creates : Ordered tracing shop (world_of held_store) held_cart "K" ordered placed false
unfolding find_order_by_client_reference list_orders create_order auth_headers ◌>>=◌ request send
    raise_for_ecops_response insert
shop_creates = (refl, refl)

abbrev after_post : History
after_post = ordered_history tracing shop (world_of held_store) held_cart "K" ordered placed false

shop_fulfils :
    (fulfill_hold
      (world_of held_store).ihms
      (hold_text held_cart.hold_id)
      tracing
      shop
      after_post).0
    ≡ ok none
unfolding fulfill_hold request send raise_for_ihms_response ◌>>=◌
shop_fulfils = refl

uncached : Idempotency.get 1 "K" held_store.idempotency ≡ none
unfolding Idempotency.get lookup
uncached = refl

confirm-confirms_example :
    Confirmed
      (world_of held_store)
      held_cart
      "K"
      placed
      false
      (confirm 1 (some "Ada") "K" tracing shop (world_of held_store))
confirm-confirms_example =
    confirm-confirms tracing shop (world_of held_store) held_cart "K" ordered placed false "Ada" 900
      line [] held_cart-Stored uncached refl refl refl refl refl refl refl held_cart_payload
      shop_creates shop_fulfils
