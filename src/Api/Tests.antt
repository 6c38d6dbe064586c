-- ===== src/Api/Tests.antt =====
-- HTTP requests to the small shop of Saga/Tests.
use ihms_oms.Prelude.{refl, none, some, List, [], ◌∷◌, lookup, insert, nat_eq}
use ihms_oms.Session.Models.{CheckoutSession}
use ihms_oms.Session.Store
use ihms_oms.Saga.World.{SagaStore}
use ihms_oms.Saga.Machine.{Stored}
use ihms_oms.Saga.Machine.Consistent.{IsConsistent}
use ihms_oms.Saga.Machine.Permanent.{Endures}
use ihms_oms.Saga.Tests.{
  shop, cart_store, cart_store-IsConsistent, held_cart, held_store, held_store-IsConsistent,
  held_cart-Stored, world_of,
}
use ihms_oms.Checkout.State.{CheckoutService}
use ihms_oms.Checkout.Settings.{default_settings}
use ihms_oms.Checkout.Startup.{started, started-IsConsistent}
use ihms_oms.Api.Models.{PlaceOrderBody, SessionCreateResponse}
use ihms_oms.Api.Middleware.{RequestState, Application, dispatch}
use ihms_oms.Effect.{Action}
use ihms_oms.Gateway.Errors.{ok}
use ihms_oms.Gateway.Models.{Headers, request_id_header}
use ihms_oms.Api.Traced.{Traced, dispatch-Traced}
use ihms_oms.Api.Routes.{Answer, create_session, place_order, confirm_session, checkout}
use ihms_oms.Api.Kept.{IsFresh, session_id_in}
use ihms_oms.Api.Serve.{
  ApiRequest, post_session, post_order, delete_session, after_all, after_all-IsConsistent,
  after_all-Endures,
}
use ihms_oms.Api.Orders.{
  AnswersOrder, place_order-AnswersOrder, confirm_session-AnswersOrder, checkout-AnswersOrder,
}

abbrev service_of : SagaStore → CheckoutService
service_of store = record {
  world = world_of store;
  ihms_live_catalog = none;
  product_metadata = none;
  ecops_mapping = none;
  json_catalog_fallback = none;
  settings = none;
}

abbrev request : RequestState
request = record { request_id = "r1"; trace_id = "t1"; correlation_id = "c1" }

abbrev two_keyboards : PlaceOrderBody
two_keyboards = record {
  items = record { sku = "SKU-1"; quantity = 2 } ∷ [];
  customer_name = some "Ada";
}

-- A new session, an order of the old one and its deletion.
abbrev visit : List ApiRequest
visit =
    post_session request
    ∷ post_order 1 two_keyboards (some "K") request
    ∷ delete_session 1 request
    ∷ []

cart-IsFresh : IsFresh shop (service_of cart_store)
unfolding Store.get lookup
cart-IsFresh = refl

held-IsFresh : IsFresh shop (service_of held_store)
unfolding Store.get Store.save lookup insert
held-IsFresh = refl

-- The service as it starts, with an empty catalog.
abbrev new_service : CheckoutService
new_service = started default_settings [] [] (record { products = [] })

abbrev first_visit : List ApiRequest
first_visit = post_session request ∷ post_order 99 two_keyboards (some "K") request ∷ []

new-IsFresh : IsFresh shop new_service
unfolding started Store.get lookup
new-IsFresh = refl

after_all-IsConsistent_example : IsConsistent (after_all first_visit shop new_service).world.store
after_all-IsConsistent_example =
    after_all-IsConsistent first_visit shop new_service
      (started-IsConsistent default_settings [] [] (record { products = [] }))
      (new-IsFresh, (tt, tt))

after_all-Endures_example :
    (t' : CheckoutSession) × Stored (after_all visit shop (service_of held_store)).world.store 1 t'
    × Endures held_cart t'
after_all-Endures_example =
    after_all-Endures visit shop (service_of held_store) held_store-IsConsistent
      (held-IsFresh, (tt, (tt, tt))) 1 held_cart held_cart-Stored

place_order-AnswersOrder_example :
    let (a, s') = place_order 1 two_keyboards (some "K") request shop (service_of cart_store) in
    AnswersOrder 1 a s'
place_order-AnswersOrder_example =
    place_order-AnswersOrder 1 request two_keyboards (some "K") shop (service_of cart_store)
      cart_store-IsConsistent

confirm_session-AnswersOrder_example :
    let (a, s') = confirm_session 1 none (some "K") request shop (service_of held_store) in
    AnswersOrder 1 a s'
confirm_session-AnswersOrder_example =
    confirm_session-AnswersOrder 1 request none (some "K") shop (service_of held_store)
      held_store-IsConsistent

checkout-AnswersOrder_example :
    let (a, s') = checkout two_keyboards (some "K") request shop (service_of cart_store) in
    AnswersOrder (session_id_in shop (service_of cart_store)) a s'
checkout-AnswersOrder_example =
    checkout-AnswersOrder two_keyboards request shop (service_of cart_store) cart_store-IsConsistent
      cart-IsFresh (some "K")

-- A request with an id of its own that creates a session.
abbrev create_next : RequestState → Action Application (Answer SessionCreateResponse)
create_next ids e a =
    let (answer, s) = create_session e a.service in (ok answer, record a { service = s })

abbrev application : Application
application = record { service = service_of cart_store; log_context = none }

abbrev with_id : Headers
with_id = (request_id_header, "r9") ∷ []

dispatch-Traced_example :
    Traced with_id create_next shop application (dispatch with_id create_next shop application)
dispatch-Traced_example = dispatch-Traced with_id create_next shop application
