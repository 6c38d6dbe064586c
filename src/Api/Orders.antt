-- ===== src/Api/Orders.antt =====
-- What the routes of src/api/routes.py that place an order answer.
use ihms_oms.Prelude.{
  ℕ, String, ◌≡◌, refl, Bool, true, false, Option, none, some, List, truthy, if◌then◌else◌,
}
use ihms_oms.Session.Models.{Uuid, CheckoutSession}
use ihms_oms.Gateway.Models.{Env, ObservabilityHeaders}
use ihms_oms.Gateway.Errors.{Result, ok, err}
use ihms_oms.Effect.{continue, ◌>>=◌, uuid4, now}
use ihms_oms.Saga.World.{World, M, external, session_get, session_save}
use ihms_oms.Saga.Coordinator.Outcomes.{ConfirmResult}
use ihms_oms.Saga.Machine.{Stored}
use ihms_oms.Saga.Machine.Consistent.{IsConsistent, has_order}
use ihms_oms.Saga.Refines.Orders.{Ends}
use ihms_oms.Saga.Refines.Outcomes.{confirm-Ends, place_order-Ends}
use ihms_oms.Checkout.State.{CheckoutService, S, on_world}
use ihms_oms.Checkout.Service as Service
use ihms_oms.Checkout.Service.{require_catalog, validate_found}
use ihms_oms.Checkout.Growing.{Growing, Growing-same}
use ihms_oms.Checkout.Kept.{require_catalog-Growing, validate_found-Growing, get_session-Growing}
use ihms_oms.Api.Errors.{key_required}
use ihms_oms.Api.Models.{SessionResponse, from_session, ConfirmBody, PlaceOrderBody}
use ihms_oms.Api.Middleware.{RequestState}
use ihms_oms.Api.Routes.{
  Answer, answered, refused, Route, refuse, guarded, answer_of, result_out, found_or_404,
  with_session, with_key, order_in, place_order, started_session, checkout_in, checkout,
  confirm_session,
}
use ihms_oms.Api.Kept.{IsFresh, started_session-Grows, session_id_in}

-- A returned session is the stored one, and has an order.
abbrev Ordered : Uuid → Result ConfirmResult → CheckoutService → Type 0
Ordered i (ok r) s = Stored s.world.store i r.session × (has_order r.session.state ≡ true)
Ordered i (err x) s = Unit

-- A response shows the session that is stored, which has an order.
abbrev pub AnswersOrder : Uuid → Answer SessionResponse → CheckoutService → Type 0
AnswersOrder i (answered code out) s =
    (t : CheckoutSession) × Stored s.world.store i t
    × (has_order t.state ≡ true)
    × (out ≡ from_session t)
AnswersOrder i (refused x) s = Unit

record Ordering (i : Uuid) (m : S ConfirmResult) : Type 0 where
  pub at :
      (e : Env) (s : CheckoutService) → IsConsistent s.world.store → Ordered i (m e s).0 (m e s).1

Ends-Ordered :
    (i : Uuid) (w : World) (s : CheckoutService) (r : Result ConfirmResult)
    → Ends w.store i r s.world.store
    → Ordered i r s
Ends-Ordered i w s (ok r) (steps, stored, placed) = (stored, placed)
Ends-Ordered i w s (err x) steps = tt

module _ (i : Uuid) where
  Ordering-on_world :
      (m : M ConfirmResult)
      → ((e : Env) (w : World) → IsConsistent w.store → Ends w.store i (m e w).0 (m e w).1.store)
      → Ordering i (on_world m)
  unfolding on_world
  Ordering-on_world m ends = record {
    at = λ e s good.
        Ends-Ordered i s.world (record s { world = (m e s.world).1 }) (m e s.world).0
          (ends e s.world good);
  }

  continue-Ordered :
      {A : Type 0} (k : A → S ConfirmResult)
      → ((a : A) → Ordering i (k a))
      → (r : Result A) (e : Env) (s : CheckoutService) → IsConsistent s.world.store
      → Ordered i (continue r k e s).0 (continue r k e s).1
  continue-Ordered k g (ok a) e s good = (g a).at e s good
  continue-Ordered k g (err x) e s good = tt

  Ordering-bind :
      {A : Type 0} (m : S A) (k : A → S ConfirmResult)
      → Growing m
      → ((a : A) → Ordering i (k a))
      → Ordering i (m >>= k)
  unfolding ◌>>=◌
  Ordering-bind m k gm gk = record {
    at = λ e s good. continue-Ordered k gk (m e s).0 e (m e s).1 (gm.at e s good).consistent;
  }

  module _ (headers : ObservabilityHeaders) where
    service_order-Ordering :
        (items : List (String × ℕ)) (customer key : String)
        → Ordering i (Service.place_order i items customer key headers)
    unfolding Service.place_order
    service_order-Ordering items customer key =
        Ordering-bind _ _ (require_catalog-Growing headers) (λ _.
          Ordering-on_world _ (λ e w good. place_order-Ends e w good i headers items customer key))

    service_confirm-Ordering :
        (customer : Option String) (key : String)
        → Ordering i (Service.confirm i customer key headers)
    unfolding Service.confirm session_get on_world
    service_confirm-Ordering customer key =
        Ordering-bind _ _ (Growing-same _ (λ e s. refl)) (λ found.
          Ordering-bind _ _ (validate_found-Growing headers found)
            (λ _. Ordering-on_world _ (λ e w good. confirm-Ends e w good i headers customer key)))

  pub record Answering (route : Route SessionResponse) : Type 0 where
    pub at :
        (e : Env) (s : CheckoutService)
        → IsConsistent s.world.store
        → AnswersOrder i (route e s).0 (route e s).1

  answer_of-AnswersOrder :
      (code : ℕ) (r : Result ConfirmResult) (s : CheckoutService)
      → Ordered i r s
      → AnswersOrder i (answer_of code result_out r) s
  answer_of-AnswersOrder code (ok r) s (stored, placed) = (r.session, stored, placed, refl)
  answer_of-AnswersOrder code (err x) s o = tt

  guarded-Answering :
      (code : ℕ) (m : S ConfirmResult) → Ordering i m → Answering (guarded code result_out m)
  guarded-Answering code m o = record {
    at = λ e s good. answer_of-AnswersOrder code (m e s).0 (m e s).1 (o.at e s good);
  }

  found-AnswersOrder :
      (r : Result (Option CheckoutSession)) (route : CheckoutSession → Route SessionResponse)
      → ((session : CheckoutSession) → Answering (route session))
      → (e : Env) (s : CheckoutService) → IsConsistent s.world.store
      → AnswersOrder i (found_or_404 r route e s).0 (found_or_404 r route e s).1
  found-AnswersOrder (ok (some session)) route g e s good = (g session).at e s good
  found-AnswersOrder (ok none) route g e s good = tt
  found-AnswersOrder (err x) route g e s good = tt

  with_session-Answering :
      (route : CheckoutSession → Route SessionResponse)
      → ((session : CheckoutSession) → Answering (route session))
      → Answering (with_session i route)
  unfolding with_session
  with_session-Answering route g = record {
    at = λ e s good.
        found-AnswersOrder (Service.get_session i e s).0 route g e (Service.get_session i e s).1
          ((get_session-Growing i).at e s good).consistent;
  }

  with_key-Answering :
      (key : Option String) (route : String → Route SessionResponse)
      → ((k : String) → Answering (route k))
      → Answering (with_key key route)
  with_key-Answering none route g = record { at = λ e s good. tt }
  with_key-Answering (some k) route g = record { at = λ e s good. key_at (truthy k) e s good }
    where
      key_at :
          (b : Bool) (e : Env) (s : CheckoutService)
          → IsConsistent s.world.store
          → let answer = if b then route k e s else (refuse 400 key_required, s) in
            AnswersOrder i answer.0 answer.1
      key_at true e s good = (g k).at e s good
      key_at false e s good = tt

  module _ (request : RequestState) where
    order_in-Answering :
        (code : ℕ) (session : CheckoutSession) (body : PlaceOrderBody) (key : String)
        → Answering (order_in code i session body key request)
    unfolding order_in
    order_in-Answering code session body key =
        guarded-Answering code _ (service_order-Ordering _ _ _ key)

    place_order-Answering :
        (body : PlaceOrderBody) (key : Option String) → Answering (place_order i body key request)
    unfolding place_order
    place_order-Answering body key =
        with_key-Answering key _
          (λ k. with_session-Answering _ (λ session. order_in-Answering 200 session body k))

    confirm_session-Answering :
        (body : Option ConfirmBody) (key : Option String)
        → Answering (confirm_session i body key request)
    unfolding confirm_session
    confirm_session-Answering body key = with_key-Answering key _ (λ k.
        with_session-Answering _
          (λ session. guarded-Answering 200 _ (service_confirm-Ordering _ _ k)))

    -- From a service with a consistent store, where `place_order` does not refuse, its response shows the
    -- session of its path as it is stored then, and that session has an order.
    pub place_order-AnswersOrder :
        (body : PlaceOrderBody) (key : Option String) (e : Env) (s : CheckoutService)
        → IsConsistent s.world.store
        → let (a, s') = place_order i body key request e s in AnswersOrder i a s'
    place_order-AnswersOrder body key e s good = (place_order-Answering body key).at e s good

    -- From a service with a consistent store, where `confirm_session` does not refuse, its response shows
    -- the session of its path as it is stored then, and that session has an order.
    pub confirm_session-AnswersOrder :
        (body : Option ConfirmBody) (key : Option String) (e : Env) (s : CheckoutService)
        → IsConsistent s.world.store
        → let (a, s') = confirm_session i body key request e s in AnswersOrder i a s'
    confirm_session-AnswersOrder body key e s good =
        (confirm_session-Answering body key).at e s good

module _ (body : PlaceOrderBody) (request : RequestState) (e : Env) (s : CheckoutService)
    (good : IsConsistent s.world.store) (fresh : IsFresh e s) where
  checkout_new :
      (k : String)
      → let (a, s') =
          checkout_in body k request (started_session e s).0 e (started_session e s).1 in
        AnswersOrder (session_id_in e s) a s'
  unfolding started_session Service.create_session on_world external session_save uuid4 now ◌>>=◌
  checkout_new k =
      (order_in-Answering (session_id_in e s) request 201 _ body k).at e (started_session e s).1
        (started_session-Grows e s good fresh).consistent

  -- From a service with a consistent store, where `checkout` does not refuse, its response shows the
  -- session that it created, as it is stored then, and that session has an order, provided that uuid4
  -- draws the session's id afresh.
  pub checkout-AnswersOrder :
      (key : Option String)
      → let (a, s') = checkout body key request e s in AnswersOrder (session_id_in e s) a s'
  unfolding checkout
  checkout-AnswersOrder none = tt
  checkout-AnswersOrder (some k) = key_at (truthy k)
    where
      key_at :
          (b : Bool)
          → let answer =
              if b
              then (let (r, s') = started_session e s in checkout_in body k request r e s')
              else (refuse 400 key_required, s) in
            AnswersOrder (session_id_in e s) answer.0 answer.1
      key_at true = checkout_new k
      key_at false = tt
