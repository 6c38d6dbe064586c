-- ===== src/Api/Kept.antt =====
-- The routes of src/api/routes.py and the store of sessions.
use ihms_oms.Prelude.{
  ℕ, String, ◌≡◌, Bool, true, false, Option, none, some, ◌∷◌, truthy, if◌then◌else◌, uuid_text,
}
use ihms_oms.Session.Models.{Uuid, CheckoutSession}
use ihms_oms.Session.Store
use ihms_oms.Gateway.Models.{Env, draw_uuid}
use ihms_oms.Gateway.Errors.{Result, ok, err}
use ihms_oms.Effect.{◌>>=◌, uuid4}
use ihms_oms.Saga.World.{external}
use ihms_oms.Catalog.Provider.{CatalogProduct}
use ihms_oms.Saga.Machine.Consistent.{IsConsistent}
use ihms_oms.Saga.Machine.Grows.{Grows, Grows-refl, Grows-trans}
use ihms_oms.Checkout.State.{CheckoutService, S, on_world}
use ihms_oms.Checkout.Service as Service
use ihms_oms.Checkout.Growing.{Growing}
use ihms_oms.Checkout.Kept.{
  place_hold-Growing, place_order-Growing, confirm-Growing, abandon-Growing, get_session-Growing,
  list_catalog_with_inventory-Growing, get_product_with_inventory-Growing, create_session-Grows,
}
use ihms_oms.Api.Errors.{key_required}
use ihms_oms.Api.Models.{PlaceHoldBody, ConfirmBody, PlaceOrderBody}
use ihms_oms.Api.Middleware.{RequestState}
use ihms_oms.Api.Routes.{
  Route, refuse, guarded, found_or_404, with_session, with_key, list_catalog, catalog_product,
  get_catalog_product, order_in, place_order, started_session, checkout_in, checkout,
  create_session, get_session, place_hold, confirm_session, abandon_session,
}

-- From a consistent store, whatever the route answers.
pub record Keeping {A : Type 0} (r : Route A) : Type 0 where
  pub at :
      (e : Env) (s : CheckoutService)
      → IsConsistent s.world.store
      → Grows s.world.store (r e s).1.world.store

guarded-Keeping :
    {A B : Type 0} (code : ℕ) (f : A → B) (m : S A) → Growing m → Keeping (guarded code f m)
guarded-Keeping code f m g = record { at = λ e s good. g.at e s good }

module _ {A : Type 0} where
  found-Grows :
      (r : Result (Option CheckoutSession)) (route : CheckoutSession → Route A)
      → ((session : CheckoutSession) → Keeping (route session))
      → (e : Env) (s : CheckoutService) → IsConsistent s.world.store
      → Grows s.world.store (found_or_404 r route e s).1.world.store
  found-Grows (ok (some session)) route g e s good = (g session).at e s good
  found-Grows (ok none) route g e s good = Grows-refl good
  found-Grows (err x) route g e s good = Grows-refl good

  with_session-Keeping :
      (i : Uuid) (route : CheckoutSession → Route A)
      → ((session : CheckoutSession) → Keeping (route session))
      → Keeping (with_session i route)
  unfolding with_session
  with_session-Keeping i route g = record {
    at = λ e s good.
        let first = (get_session-Growing i).at e s good in
        Grows-trans first (
          found-Grows (Service.get_session i e s).0 route g e (Service.get_session i e s).1
            first.consistent);
  }

  with_key-Keeping :
      (key : Option String) (route : String → Route A)
      → ((k : String) → Keeping (route k))
      → Keeping (with_key key route)
  with_key-Keeping none route g = record { at = λ e s good. Grows-refl good }
  with_key-Keeping (some k) route g = record { at = λ e s good. key_at k (truthy k) e s good }
    where
      key_at :
          (k : String) (b : Bool) (e : Env) (s : CheckoutService)
          → IsConsistent s.world.store
          → Grows s.world.store
              (if b then route k e s else (refuse 400 key_required, s)).1.world.store
      key_at k true e s good = (g k).at e s good
      key_at k false e s good = Grows-refl good

module _ (request : RequestState) where
  pub list_catalog-Keeping : Keeping (list_catalog request)
  unfolding list_catalog
  list_catalog-Keeping = guarded-Keeping _ _ _ (list_catalog_with_inventory-Growing _)

  catalog_product-Keeping :
      (sku : String) (o : Option CatalogProduct) → Keeping (catalog_product sku request o)
  catalog_product-Keeping sku none = record { at = λ e s good. Grows-refl good }
  catalog_product-Keeping sku (some p) = record {
    at = λ e s good. (get_product_with_inventory-Growing _ sku).at e s good;
  }

  pub get_catalog_product-Keeping : (sku : String) → Keeping (get_catalog_product sku request)
  unfolding get_catalog_product
  get_catalog_product-Keeping sku = record {
    at = λ e s good. (catalog_product-Keeping sku (Service.get_product sku s)).at e s good;
  }

  order_in-Keeping :
      (code : ℕ) (i : Uuid) (session : CheckoutSession) (body : PlaceOrderBody) (key : String)
      → Keeping (order_in code i session body key request)
  unfolding order_in
  order_in-Keeping code i session body key = guarded-Keeping _ _ _ (place_order-Growing _ i _ _ key)

  pub place_order-Keeping :
      (i : Uuid) (body : PlaceOrderBody) (key : Option String)
      → Keeping (place_order i body key request)
  unfolding place_order
  place_order-Keeping i body key =
      with_key-Keeping key _
        (λ k. with_session-Keeping i _ (λ session. order_in-Keeping 200 i session body k))

  pub place_hold-Keeping : (i : Uuid) (body : PlaceHoldBody) → Keeping (place_hold i body request)
  unfolding place_hold
  place_hold-Keeping i body =
      with_session-Keeping i _ (λ session. guarded-Keeping _ _ _ (place_hold-Growing _ i _ _))

  pub confirm_session-Keeping :
      (i : Uuid) (body : Option ConfirmBody) (key : Option String)
      → Keeping (confirm_session i body key request)
  unfolding confirm_session
  confirm_session-Keeping i body key =
      with_key-Keeping key _
        (λ k. with_session-Keeping i _ (λ session. guarded-Keeping _ _ _ (confirm-Growing _ i _ k)))

  pub abandon_session-Keeping : (i : Uuid) → Keeping (abandon_session i request)
  unfolding abandon_session
  abandon_session-Keeping i =
      with_session-Keeping i _ (λ session. guarded-Keeping _ _ _ (abandon-Growing _ i))

pub get_session-Keeping : (i : Uuid) → Keeping (get_session i)
unfolding get_session
get_session-Keeping i =
    with_session-Keeping i _ (λ session. record { at = λ e s good. Grows-refl good })

-- The id that a new session gets, after its correlation id was drawn.
abbrev pub session_id_in : Env → CheckoutService → Uuid
session_id_in e s = e.uuid4 (draw_uuid ∷ s.world.history)

-- uuid4 draws an id that no stored session has.
abbrev pub IsFresh : Env → CheckoutService → Type 0
IsFresh e s = Store.get (session_id_in e s) s.world.store.sessions ≡ none

module _ (e : Env) (s : CheckoutService) (good : IsConsistent s.world.store)
    (fresh : IsFresh e s) where
  pub started_session-Grows : Grows s.world.store (started_session e s).1.world.store
  unfolding started_session on_world external uuid4 ◌>>=◌
  started_session-Grows =
      create_session-Grows (uuid_text (e.uuid4 s.world.history)) e
        (record s { world = record s.world { history = draw_uuid ∷ s.world.history } }) good fresh

  pub create_session-keeps : Grows s.world.store (create_session e s).1.world.store
  unfolding create_session
  create_session-keeps = started_session-Grows

  checkout_in-Grows :
      (body : PlaceOrderBody) (key : String) (request : RequestState) (r : Result CheckoutSession)
      (s' : CheckoutService)
      → IsConsistent s'.world.store
      → Grows s'.world.store (checkout_in body key request r e s').1.world.store
  checkout_in-Grows body key request (ok session) s' good' =
      (order_in-Keeping request 201 session.session_id session body key).at e s' good'
  checkout_in-Grows body key request (err x) s' good' = Grows-refl good'

  pub checkout-keeps :
      (body : PlaceOrderBody) (key : Option String) (request : RequestState)
      → Grows s.world.store (checkout body key request e s).1.world.store
  unfolding checkout
  checkout-keeps body none request = Grows-refl good
  checkout-keeps body (some k) request = key_at (truthy k)
    where
      key_at :
          (b : Bool)
          → Grows s.world.store
              (if b
                then (let (r, s') = started_session e s in checkout_in body k request r e s')
                else (refuse 400 key_required, s)).1.world.store
      key_at true = Grows-trans started_session-Grows (
          checkout_in-Grows body k request (started_session e s).0 (started_session e s).1
            started_session-Grows.consistent)
      key_at false = Grows-refl good
