-- ===== src/Api/Serve.antt =====
-- Sequences of HTTP requests to the routes of src/api/routes.py that use the service.
use ihms_oms.Prelude.{String, Option, List, [], ◌∷◌}
use ihms_oms.Session.Models.{Uuid, CheckoutSession}
use ihms_oms.Gateway.Models.{Env}
use ihms_oms.Saga.Machine.{Stored}
use ihms_oms.Saga.Machine.Consistent.{IsConsistent}
use ihms_oms.Saga.Machine.Permanent.{Endures}
use ihms_oms.Saga.Machine.Grows.{Grows, Grows-refl, Grows-trans}
use ihms_oms.Checkout.State.{CheckoutService}
use ihms_oms.Api.Models.{PlaceHoldBody, ConfirmBody, PlaceOrderBody}
use ihms_oms.Api.Middleware.{RequestState}
use ihms_oms.Api.Routes as Routes
use ihms_oms.Api.Kept.{
  IsFresh, list_catalog-Keeping, get_catalog_product-Keeping, place_order-Keeping,
  place_hold-Keeping, confirm_session-Keeping, abandon_session-Keeping, get_session-Keeping,
  create_session-keeps, checkout-keeps,
}

pub data ApiRequest : Type 0 where
  get_catalog : RequestState → ApiRequest
  get_product : (sku : String) → RequestState → ApiRequest
  post_session : RequestState → ApiRequest
  post_checkout : PlaceOrderBody → (key : Option String) → RequestState → ApiRequest
  get_session : Uuid → RequestState → ApiRequest
  post_hold : Uuid → PlaceHoldBody → RequestState → ApiRequest
  post_confirm : Uuid → Option ConfirmBody → (key : Option String) → RequestState → ApiRequest
  post_order : Uuid → PlaceOrderBody → (key : Option String) → RequestState → ApiRequest
  delete_session : Uuid → RequestState → ApiRequest

-- The service after a request was answered.
unfoldable pub after : ApiRequest → Env → CheckoutService → CheckoutService
after (get_catalog request) e s = (Routes.list_catalog request e s).1
after (get_product sku request) e s = (Routes.get_catalog_product sku request e s).1
after (post_session request) e s = (Routes.create_session e s).1
after (post_checkout body key request) e s = (Routes.checkout body key request e s).1
after (get_session i request) e s = (Routes.get_session i e s).1
after (post_hold i body request) e s = (Routes.place_hold i body request e s).1
after (post_confirm i body key request) e s = (Routes.confirm_session i body key request e s).1
after (post_order i body key request) e s = (Routes.place_order i body key request e s).1
after (delete_session i request) e s = (Routes.abandon_session i request e s).1

unfoldable pub after_all : List ApiRequest → Env → CheckoutService → CheckoutService
after_all [] e s = s
after_all (r ∷ rs) e s = after_all rs e (after r e s)

-- Where a request creates a session, uuid4 draws an id that no stored session has.
abbrev pub DrawsFresh : ApiRequest → Env → CheckoutService → Type 0
DrawsFresh (post_session _) e s = IsFresh e s
DrawsFresh (post_checkout _ _ _) e s = IsFresh e s
DrawsFresh _ e s = Unit

abbrev pub AllFresh : List ApiRequest → Env → CheckoutService → Type 0
AllFresh [] e s = Unit
AllFresh (r ∷ rs) e s = DrawsFresh r e s × AllFresh rs e (after r e s)

after-Grows :
    (r : ApiRequest) (e : Env) (s : CheckoutService)
    → IsConsistent s.world.store
    → DrawsFresh r e s
    → Grows s.world.store (after r e s).world.store
unfolding after
after-Grows (get_catalog request) e s good fresh = (list_catalog-Keeping request).at e s good
after-Grows (get_product sku request) e s good fresh =
    (get_catalog_product-Keeping request sku).at e s good
after-Grows (post_session request) e s good fresh = create_session-keeps e s good fresh
after-Grows (post_checkout body key request) e s good fresh =
    checkout-keeps e s good fresh body key request
after-Grows (get_session i request) e s good fresh = (get_session-Keeping i).at e s good
after-Grows (post_hold i body request) e s good fresh =
    (place_hold-Keeping request i body).at e s good
after-Grows (post_confirm i body key request) e s good fresh =
    (confirm_session-Keeping request i body key).at e s good
after-Grows (post_order i body key request) e s good fresh =
    (place_order-Keeping request i body key).at e s good
after-Grows (delete_session i request) e s good fresh =
    (abandon_session-Keeping request i).at e s good

after_all-Grows :
    (rs : List ApiRequest) (e : Env) (s : CheckoutService)
    → IsConsistent s.world.store
    → AllFresh rs e s
    → Grows s.world.store (after_all rs e s).world.store
unfolding after_all
after_all-Grows [] e s good fresh = Grows-refl good
after_all-Grows (r ∷ rs) e s good (fresh, rest) =
    let first = after-Grows r e s good fresh in
    Grows-trans first (after_all-Grows rs e (after r e s) first.consistent rest)

-- From a service with a consistent store, after any HTTP requests and whatever the upstream services
-- answer, the store is consistent, provided that uuid4 draws a new session's id afresh.
pub after_all-IsConsistent :
    (rs : List ApiRequest) (e : Env) (s : CheckoutService)
    → IsConsistent s.world.store
    → AllFresh rs e s
    → IsConsistent (after_all rs e s).world.store
after_all-IsConsistent rs e s good fresh = (after_all-Grows rs e s good fresh).consistent

-- From a service with a consistent store, after any HTTP requests and whatever the upstream services
-- answer, a stored session is still stored and has moved along the documented arrows, and its order
-- lasts, provided that uuid4 draws a new session's id afresh.
pub after_all-Endures :
    (rs : List ApiRequest) (e : Env) (s : CheckoutService)
    → IsConsistent s.world.store
    → AllFresh rs e s
    → (j : Uuid) (t : CheckoutSession) → Stored s.world.store j t
    → (t' : CheckoutSession) × Stored (after_all rs e s).world.store j t' × Endures t t'
after_all-Endures rs e s good fresh j t h = (after_all-Grows rs e s good fresh).endures j t h
