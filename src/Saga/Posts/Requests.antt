-- ===== src/Saga/Posts/Requests.antt =====
-- How many orders the requests of src/saga/coordinator.py post.
use ihms_oms.Prelude.{ℕ, ◌+◌, ◌≤◌, refl, String, List, [], ◌∷◌, Option, none, some, arith}
use ihms_oms.Session.Models.{Uuid, SessionLineItem}
use ihms_oms.Gateway.Models.{
  ObservabilityHeaders, Env, post_hold, as_dict, get_inventory as get_inventory_call,
  CreateHoldItemRequest,
}
use ihms_oms.Gateway.Errors.{
  gateway_error, gateway_timeout, upstream_error, Error, gateway, saga, validation_failure,
}
use ihms_oms.Gateway.Ihms.{IhmsClient, create_hold, get_inventory}
use ihms_oms.Effect.Counting.{
  Quiet, Once, Quiet-Once, Quiet-if, Quiet-bind, Quiet-catch, Quiet-pure, Quiet-raise,
  Quiet-raise_if, Quiet-gets, Quiet-lift_result, Once-bind_last,
}
use ihms_oms.Saga.Idempotency.{IdempotencyRecord}
use ihms_oms.Saga.World.{World}
use ihms_oms.Saga.Steps.Posts.{request-Quiet}
use ihms_oms.Saga.Posts.{posts}
use ihms_oms.Saga.Posts.Endings.{
  sent, external-Quiet, session_save-Quiet, idempotency_get-Quiet, require_session-Quiet,
  count_metric-Quiet, release_held-Quiet, apply_cached-Quiet,
}
use ihms_oms.Saga.Posts.Confirm.{confirm-Once}
use ihms_oms.Saga.Coordinator.Hold.{
  prepare_hold, assert_sufficient_stock, hold_rejected, place_hold_locked, place_hold,
  ignore_gateway, hold_items,
}
use ihms_oms.Saga.Coordinator.Confirm.{abandon, confirm}
use ihms_oms.Saga.Coordinator.PlaceOrder.{
  place_order_cached, order_held, place_order_uncached, place_order_with, place_order,
  resolved_customer,
}
use ihms_oms.Saga.Refines.Requests.{
  Request, hold_request, confirm_request, order_request, abandon_request, perform, serve,
}

module _ (ihms : IhmsClient) (headers : ObservabilityHeaders) where
  create_hold-Quiet :
      (items : List CreateHoldItemRequest) → Quiet posts (create_hold ihms items headers)
  unfolding create_hold
  create_hold-Quiet items =
      Quiet-bind _ _ (request-Quiet (post_hold items (as_dict headers)) refl)
        (λ r. Quiet-bind _ _ (Quiet-lift_result _) (λ _. Quiet-lift_result _))

  get_inventory-Quiet : Quiet posts (get_inventory ihms headers)
  unfolding get_inventory
  get_inventory-Quiet =
      Quiet-bind _ _ (request-Quiet (get_inventory_call (as_dict headers)) refl)
        (λ r. Quiet-bind _ _ (Quiet-lift_result _) (λ _. Quiet-lift_result _))

ignore_gateway-Quiet : (x : Error) → Quiet sent (ignore_gateway x)
ignore_gateway-Quiet (gateway _) = Quiet-pure _
ignore_gateway-Quiet (saga _) = Quiet-raise _
ignore_gateway-Quiet validation_failure = Quiet-raise _

hold_rejected-Quiet : (x : Error) → Quiet sent (hold_rejected x)
unfolding hold_rejected
hold_rejected-Quiet (gateway (upstream_error k p)) =
    Quiet-bind _ _ (count_metric-Quiet _) (λ _. Quiet-raise _)
hold_rejected-Quiet (gateway (gateway_timeout t)) = Quiet-raise _
hold_rejected-Quiet (gateway (gateway_error t)) = Quiet-raise _
hold_rejected-Quiet (saga _) = Quiet-raise _
hold_rejected-Quiet validation_failure = Quiet-raise _

module _ (headers : ObservabilityHeaders) where
  assert_sufficient_stock-Quiet :
      (lines : List SessionLineItem) → Quiet sent (assert_sufficient_stock lines headers)
  unfolding assert_sufficient_stock
  assert_sufficient_stock-Quiet lines =
      Quiet-bind _ _
        (Quiet-catch _ _
          (Quiet-bind _ _ (external-Quiet _ (λ w. get_inventory-Quiet w.ihms headers))
            (λ _. Quiet-pure _))
          ignore_gateway-Quiet)
        (λ stock. Quiet-lift_result _)

  pub place_hold_locked-Quiet :
      (i : Uuid) (lines : List SessionLineItem) (customer : String)
      → Quiet sent (place_hold_locked i lines customer headers)
  unfolding place_hold_locked
  place_hold_locked-Quiet i lines customer = Quiet-bind _ _ (require_session-Quiet i) (λ s.
      Quiet-bind _ _ (Quiet-raise_if _ _) (λ _.
        Quiet-bind _ _ (assert_sufficient_stock-Quiet lines) (λ _.
          Quiet-bind _ _
            (Quiet-catch _ _
              (external-Quiet _ (λ w. create_hold-Quiet w.ihms headers (hold_items lines)))
              hold_rejected-Quiet)
            (λ hold.
              Quiet-bind _ _ (session_save-Quiet _)
                (λ saved. Quiet-bind _ _ (count_metric-Quiet _) (λ _. Quiet-pure _))))))

  pub prepare_hold-Quiet :
      (i : Uuid) (items : List (String × ℕ)) → Quiet sent (prepare_hold i items)
  unfolding prepare_hold
  prepare_hold-Quiet i items = Quiet-bind _ _ (Quiet-raise_if _ _) (λ _.
      Quiet-bind _ _ (Quiet-gets _) (λ catalog. Quiet-bind _ _ (Quiet-lift_result _) (λ lines.
        Quiet-bind _ _ (require_session-Quiet i)
          (λ s. Quiet-bind _ _ (Quiet-raise_if _ _) (λ _. Quiet-pure _)))))

  place_hold-Quiet :
      (i : Uuid) (items : List (String × ℕ)) (customer : String)
      → Quiet sent (place_hold i items customer headers)
  unfolding place_hold
  place_hold-Quiet i items customer =
      Quiet-bind _ _ (prepare_hold-Quiet i items)
        (λ lines. place_hold_locked-Quiet i lines customer)

  pub abandon-Quiet : (i : Uuid) → Quiet sent (abandon i headers)
  unfolding abandon
  abandon-Quiet i = Quiet-bind _ _ (require_session-Quiet i) (λ s.
      Quiet-bind _ _ (Quiet-raise_if _ _) (λ _. Quiet-bind _ _ (Quiet-raise_if _ _) (λ _.
        Quiet-bind _ _ (Quiet-if _ _ _ (release_held-Quiet s headers) (Quiet-pure _)) (λ released.
          Quiet-bind _ _ (Quiet-raise_if _ _) (λ _.
            Quiet-bind _ _ (session_save-Quiet _)
              (λ saved. Quiet-bind _ _ (count_metric-Quiet _) (λ _. Quiet-pure _)))))))

  order_held-Once :
      (i : Uuid) (customer key : String) → Once sent (order_held i customer key headers)
  unfolding order_held
  order_held-Once i customer key = Once-bind_last _ _ (require_session-Quiet i) (λ s.
      Once-bind_last _ _ (Quiet-raise_if _ _) (λ _. confirm-Once headers i (some customer) key))

  place_order_with-Once :
      (o : Option IdempotencyRecord) (i : Uuid) (items : List (String × ℕ)) (customer key : String)
      → Once sent (place_order_with o i items customer key headers)
  unfolding place_order_cached place_order_uncached
  place_order_with-Once (some r) i items customer key = Quiet-Once _ (
      Quiet-bind _ _ (require_session-Quiet i)
        (λ found. Quiet-bind _ _ (apply_cached-Quiet _ r found) (λ s. Quiet-pure _)))
  place_order_with-Once none i items customer key =
      Once-bind_last _ _ (require_session-Quiet i) (λ s.
        Once-bind_last _ _ (Quiet-raise_if _ _) (λ _.
          Once-bind_last _ _
            (Quiet-if _ _ _ (place_hold-Quiet i items (resolved_customer customer s))
              (Quiet-pure _))
            (λ _. order_held-Once i (resolved_customer customer s) key)))

  place_order-Once :
      (i : Uuid) (items : List (String × ℕ)) (customer key : String)
      → Once sent (place_order i items customer key headers)
  unfolding place_order
  place_order-Once i items customer key =
      Once-bind_last _ _ (idempotency_get-Quiet i key)
        (λ o. place_order_with-Once o i items customer key)

-- The requests that may place an order.
abbrev pub orders_in : List Request → ℕ
orders_in [] = 0
orders_in (hold_request _ _ _ _ ∷ rs) = orders_in rs
orders_in (confirm_request _ _ _ _ ∷ rs) = orders_in rs + 1
orders_in (order_request _ _ _ _ _ ∷ rs) = orders_in rs + 1
orders_in (abandon_request _ _ ∷ rs) = orders_in rs

-- Whatever the upstream services answer, any requests post at most one order for each of them that is
-- a `confirm` or a `place_order`; a `place_hold` and an `abandon` post none.
pub serve-posts_bound :
    (rs : List Request) (e : Env) (w : World) → sent (serve rs e w) ≤ sent w + orders_in rs
unfolding serve perform
serve-posts_bound [] e w = omega arith
serve-posts_bound (hold_request i items customer headers ∷ rs) e w =
    let w' = (place_hold i items customer headers e w).1 in
    omega (arith, (place_hold-Quiet headers i items customer).at e w, serve-posts_bound rs e w')
serve-posts_bound (confirm_request i customer key headers ∷ rs) e w =
    let w' = (confirm i customer key headers e w).1 in
    omega (arith, (confirm-Once headers i customer key).at e w, serve-posts_bound rs e w')
serve-posts_bound (order_request i items customer key headers ∷ rs) e w =
    let w' = (place_order i items customer key headers e w).1 in
    omega (arith, (place_order-Once headers i items customer key).at e w, serve-posts_bound rs e w')
serve-posts_bound (abandon_request i headers ∷ rs) e w =
    let w' = (abandon i headers e w).1 in
    omega (arith, (abandon-Quiet headers i).at e w, serve-posts_bound rs e w')
