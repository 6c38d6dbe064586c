-- ===== src/Api/Routes.antt =====
-- The routes of src/api/routes.py. `/health/upstreams`, which probes the upstreams with clients of its
-- own, is left out.
use ihms_oms.Prelude.{
  ℕ, String, Option, none, some, List, map, truthy, strip, uuid_text, if◌then◌else◌,
}
use ihms_oms.Session.Models.{Uuid, CheckoutSession}
use ihms_oms.Gateway.Models.{Env, ObservabilityHeaders}
use ihms_oms.Gateway.Errors.{Result, ok, err}
use ihms_oms.Effect.{◌>>=◌, uuid4}
use ihms_oms.Catalog.Provider.{CatalogProduct}
use ihms_oms.Catalog.Inventory.{CatalogProductWithAvailability}
use ihms_oms.Saga.World.{external}
use ihms_oms.Saga.Coordinator.Outcomes.{ConfirmResult}
use ihms_oms.Checkout.State.{CheckoutService, S, on_world}
use ihms_oms.Checkout.Service as Service
use ihms_oms.Checkout.Service.{observability_from_request, observability_for_session}
use ihms_oms.Api.Errors.{
  HttpException, Detail, key_required, session_missing, product_missing, http_exception_for_error,
}
use ihms_oms.Api.Models.{
  CatalogProductOut, from_catalog, from_enriched, SessionCreateResponse, SessionResponse,
  from_session, PlaceHoldBody, ConfirmBody, PlaceOrderBody, pairs,
}
use ihms_oms.Api.Middleware.{RequestState}

-- What a route answers: a status and a body, or an `HTTPException`.
pub data Answer (A : Type 0) : Type 0 where
  answered : (status_code : ℕ) → A → Answer A
  refused : HttpException → Answer A

abbrev pub Route : Type 0 → Type 0
Route A = Env → CheckoutService → Answer A × CheckoutService

abbrev pub refuse : {A : Type 0} → ℕ → Detail → Answer A
refuse code detail = refused (record { status_code = code; detail = detail })

-- `except Exception as exc: raise http_exception_for_error(exc)`
abbrev pub answer_of : {A B : Type 0} → ℕ → (A → B) → Result A → Answer B
answer_of code f (ok a) = answered code (f a)
answer_of code f (err x) = refused (http_exception_for_error x)

abbrev pub guarded : {A B : Type 0} → ℕ → (A → B) → S A → Route B
guarded code f m e s = let (r, s') = m e s in (answer_of code f r, s')

-- What a route does with the session of its path.
abbrev pub found_or_404 :
    {A : Type 0} → Result (Option CheckoutSession) → (CheckoutSession → Route A) → Route A
found_or_404 (ok (some session)) route e s = route session e s
found_or_404 _ route e s = (refuse 404 session_missing, s)

unfoldable pub with_session : {A : Type 0} → Uuid → (CheckoutSession → Route A) → Route A
with_session session_id route e s =
    let (r, s') = Service.get_session session_id e s in found_or_404 r route e s'

-- `if not idempotency_key: raise HTTPException(400)`
abbrev pub with_key : {A : Type 0} → Option String → (String → Route A) → Route A
with_key none route e s = (refuse 400 key_required, s)
with_key (some key) route e s = if truthy key then route key e s else (refuse 400 key_required, s)

unfoldable pub list_catalog : RequestState → Route (List CatalogProductOut)
list_catalog request = guarded 200 (map from_enriched) (
    Service.list_catalog_with_inventory
      (observability_from_request request.request_id request.correlation_id request.trace_id))

-- `if enriched is not None`
abbrev pub enriched_or :
    CatalogProductOut → Option CatalogProductWithAvailability → CatalogProductOut
enriched_or product none = product
enriched_or product (some p) = from_enriched p

abbrev pub catalog_product : String → RequestState → Option CatalogProduct → Route CatalogProductOut
catalog_product sku request none e s = (refuse 404 (product_missing sku), s)
catalog_product sku request (some product) e s =
    guarded 200 (enriched_or (from_catalog product))
      (Service.get_product_with_inventory sku
        (observability_from_request request.request_id request.correlation_id request.trace_id))
      e s

unfoldable pub get_catalog_product : String → RequestState → Route CatalogProductOut
get_catalog_product sku request e s = catalog_product sku request (Service.get_product sku s) e s

-- `(body.customer_name or "").strip() or "Guest"`
abbrev text_or_empty : Option String → String
text_or_empty none = ""
text_or_empty (some t) = t

abbrev or_guest : String → String
or_guest t = if truthy t then t else "Guest"

unfoldable pub guest_or : Option String → String
guest_or customer_name = or_guest (strip (text_or_empty customer_name))

abbrev pub session_headers : CheckoutSession → RequestState → ObservabilityHeaders
session_headers session request =
    observability_for_session session request.request_id request.trace_id

abbrev pub result_out : ConfirmResult → SessionResponse
result_out r = from_session r.session

-- The `try` of `place_order` and of `checkout`.
unfoldable pub order_in :
    ℕ → Uuid → CheckoutSession → PlaceOrderBody → String → RequestState → Route SessionResponse
unfolding guest_or
order_in code session_id session body key request = guarded code result_out (
    Service.place_order session_id (pairs body.items) (guest_or body.customer_name) key
      (session_headers session request))

unfoldable pub place_order :
    Uuid → PlaceOrderBody → Option String → RequestState → Route SessionResponse
place_order session_id body idempotency_key request =
    with_key idempotency_key
      (λ key. with_session session_id (λ session. order_in 200 session_id session body key request))

-- `checkout.create_session(str(uuid4()))`, which saves a session and raises nothing.
unfoldable pub started_session : S CheckoutSession
started_session = do i ← on_world (external (λ w. uuid4)); Service.create_session (uuid_text i)

abbrev pub checkout_in :
    PlaceOrderBody → String → RequestState → Result CheckoutSession → Route SessionResponse
checkout_in body key request (ok session) e s =
    order_in 201 session.session_id session body key request e s
checkout_in body key request (err x) e s = (refused (http_exception_for_error x), s)

unfoldable pub checkout : PlaceOrderBody → Option String → RequestState → Route SessionResponse
checkout body idempotency_key request =
    with_key idempotency_key
      (λ key e s. let (r, s') = started_session e s in checkout_in body key request r e s')

abbrev session_created : CheckoutSession → SessionCreateResponse
session_created session = record {
  session_id = session.session_id;
  correlation_id = session.correlation_id;
  state = session.state;
}

unfoldable pub create_session : Route SessionCreateResponse
create_session = guarded 201 session_created started_session

unfoldable pub get_session : Uuid → Route SessionResponse
get_session session_id =
    with_session session_id (λ session e s. (answered 200 (from_session session), s))

unfoldable pub place_hold : Uuid → PlaceHoldBody → RequestState → Route SessionResponse
place_hold session_id body request = with_session session_id (λ session. guarded 200 from_session (
    Service.place_hold session_id (pairs body.items) body.customer_name
      (session_headers session request)))

-- `body.customer_name if body else None`
abbrev pub customer_of : Option ConfirmBody → Option String
customer_of none = none
customer_of (some body) = body.customer_name

unfoldable pub confirm_session :
    Uuid → Option ConfirmBody → Option String → RequestState → Route SessionResponse
confirm_session session_id body idempotency_key request = with_key idempotency_key (λ key.
    with_session session_id (λ session.
      guarded 200 result_out
        (Service.confirm session_id (customer_of body) key (session_headers session request))))

unfoldable pub abandon_session : Uuid → RequestState → Route SessionResponse
abandon_session session_id request = with_session session_id (λ session.
    guarded 200 from_session (Service.abandon session_id (session_headers session request)))
