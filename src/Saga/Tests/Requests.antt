-- ===== src/Saga/Tests/Requests.antt =====
-- Requests to the small shop.
use ihms_oms.Prelude.{string_eq, ◌≤◌, ◌+◌, ◌≡◌, refl, true, none, List, [], ◌∷◌}
use ihms_oms.Session.Models.{held, abandoned, CheckoutSession}
use ihms_oms.Observability.Metrics.{new_registry}
use ihms_oms.Saga.Coordinator.Outcomes.{confirm_record}
use ihms_oms.Saga.Machine.{Stored}
use ihms_oms.Saga.Machine.Consistent.{IsConsistent}
use ihms_oms.Saga.Machine.Permanent.{Endures}
use ihms_oms.Gateway.Errors.{ok}
use ihms_oms.Saga.Steps.{fulfill_hold_safe}
use ihms_oms.Saga.Steps.Fulfil.{OnlyValidation, fulfill_hold_safe-raises}
use ihms_oms.Saga.Coordinator.Hold.{place_hold}
use ihms_oms.Saga.Coordinator.Confirm.{confirm, abandon}
use ihms_oms.Saga.Coordinator.PlaceOrder.{place_order}
use ihms_oms.Saga.Posts.Endings.{sent}
use ihms_oms.Saga.Posts.Confirm.{confirm-posts_none}
use ihms_oms.Saga.Posts.Requests.{orders_in, serve-posts_bound}
use ihms_oms.Saga.Refines.Orders.{Ends}
use ihms_oms.Saga.Refines.Methods.{Returns}
use ihms_oms.Saga.Refines.Requests.{
  Request, order_request, confirm_request, abandon_request, serve, serve-IsConsistent,
  serve-Endures,
}
use ihms_oms.Saga.Refines.Outcomes.{
  confirm-Ends, place_order-Ends, place_hold-Returns, abandon-Returns,
}
use ihms_oms.Saga.Replay.{Repeated, place_order_replay, confirm_replay}
use ihms_oms.Saga.Tests.{
  tracing, shop, cart_store, cart_store-IsConsistent, held_cart, held_store,
  held_store-IsConsistent, ordered_cart, confirmed_store, held_cart-Stored,
  confirmed_store-IsConsistent, ordered_cart-Stored, ordered_cart-Cached, keyed_cart, keyed_store,
  keyed_cart-Stored, world_of,
}

-- The requests of a shopper who orders, repeats the confirm and then gives up.
abbrev visit : List Request
visit =
    order_request 1 (("SKU-1", 2) ∷ []) "Ada" "K" tracing
    ∷ confirm_request 1 none "K" tracing
    ∷ abandon_request 1 tracing
    ∷ []

serve-IsConsistent_example : IsConsistent (serve visit shop (world_of cart_store)).store
serve-IsConsistent_example =
    serve-IsConsistent visit shop (world_of cart_store) cart_store-IsConsistent

serve-Endures_example :
    (t' : CheckoutSession) × Stored (serve visit shop (world_of held_store)).store 1 t'
    × Endures held_cart t'
serve-Endures_example =
    serve-Endures visit shop (world_of held_store) held_store-IsConsistent 1 held_cart
      held_cart-Stored

confirm-posts_none_example :
    sent (confirm 1 none "K" tracing shop (world_of keyed_store)).1 ≤ sent (world_of keyed_store)
confirm-posts_none_example =
    confirm-posts_none tracing 1 keyed_cart "K" none "K" shop (world_of keyed_store)
      keyed_cart-Stored refl

serve-posts_bound_example :
    sent (serve visit shop (world_of cart_store)) ≤ sent (world_of cart_store) + orders_in visit
serve-posts_bound_example = serve-posts_bound visit shop (world_of cart_store)

confirm-Ends_example :
    let (a, w') = confirm 1 none "K" tracing shop (world_of held_store) in
    Ends held_store 1 a w'.store
confirm-Ends_example =
    confirm-Ends shop (world_of held_store) held_store-IsConsistent 1 tracing none "K"

place_order-Ends_example :
    let (a, w') = place_order 1 (("SKU-1", 2) ∷ []) "Ada" "K" tracing shop (world_of cart_store) in
    Ends cart_store 1 a w'.store
place_order-Ends_example =
    place_order-Ends shop (world_of cart_store) cart_store-IsConsistent 1 tracing
      (("SKU-1", 2) ∷ []) "Ada" "K"

place_hold-Returns_example :
    let (a, w') = place_hold 1 (("SKU-1", 2) ∷ []) "Ada" tracing shop (world_of cart_store) in
    Returns cart_store 1 held a w'.store
place_hold-Returns_example =
    place_hold-Returns shop (world_of cart_store) cart_store-IsConsistent 1 tracing
      (("SKU-1", 2) ∷ []) "Ada"

abandon-Returns_example :
    let (a, w') = abandon 1 tracing shop (world_of held_store) in
    Returns held_store 1 abandoned a w'.store
abandon-Returns_example =
    abandon-Returns shop (world_of held_store) held_store-IsConsistent 1 tracing

place_order_replay_example :
    place_order 1 (("SKU-1", 2) ∷ []) "Ada" "K" tracing shop (world_of confirmed_store)
    ≡ (ok (record { session = ordered_cart; from_cache = true }), world_of confirmed_store)
place_order_replay_example =
    place_order_replay (world_of confirmed_store) confirmed_store-IsConsistent 1 "K"
      (confirm_record ordered_cart) ordered_cart (("SKU-1", 2) ∷ []) "Ada" tracing shop
      ordered_cart-Cached ordered_cart-Stored

confirm_replay_example :
    let (a, w') = confirm 1 none "K" tracing shop (world_of confirmed_store) in
    Repeated
      (world_of confirmed_store)
      confirmed_store-IsConsistent
      1
      "K"
      (confirm_record ordered_cart)
      ordered_cart
      a
    × (w'.store ≡ confirmed_store)
    × (w'.metrics ≡ new_registry)
confirm_replay_example =
    confirm_replay (world_of confirmed_store) confirmed_store-IsConsistent 1 "K"
      (confirm_record ordered_cart) ordered_cart none tracing shop ordered_cart-Cached
      ordered_cart-Stored refl

fulfill_hold_safe-raises_example :
    OnlyValidation
      (fulfill_hold_safe (record { fulfill_optional = true }) "H-1" tracing 2 shop []).0
fulfill_hold_safe-raises_example =
    fulfill_hold_safe-raises (record { fulfill_optional = true }) "H-1" tracing 2 shop []
