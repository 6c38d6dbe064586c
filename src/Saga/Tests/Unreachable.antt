-- ===== src/Saga/Tests/Unreachable.antt =====
-- Two confirms in src/saga/coordinator.py of the small shop's held cart, while POST /orders of ecOps and
-- DELETE /holds of IHMS time out and no lookup finds an order.
use ihms_oms.Prelude.{◌≡◌, refl, some, [], lookup, insert}
use ihms_oms.Effect.{◌>>=◌, send, now, catch}
use ihms_oms.Gateway.Models.{
  Call, Reply, Env, post_order, get_orders, delete_hold, timeout_exception, orders,
}
use ihms_oms.Gateway.Http.{request, raise_for_ihms_response, raise_for_ecops_response}
use ihms_oms.Gateway.Ihms.{release_hold}
use ihms_oms.Gateway.Ecops.{create_order, auth_headers, list_orders, find_order_by_client_reference}
use ihms_oms.Session.Store
use ihms_oms.Saga.Idempotency
use ihms_oms.Saga.World.{World, external, session_get, require_session, idempotency_get}
use ihms_oms.Saga.Steps.{find_order_by_reference, release_hold_safe, pause, release_failed}
use ihms_oms.Saga.Coordinator.Creation.{
  build_order_payload, find_or_create, create_order_with_retry, creation_failed,
}
use ihms_oms.Saga.Coordinator.Outcomes.{release_held, compensate_and_fail}
use ihms_oms.Saga.Coordinator.Confirm.{
  confirm, confirm_uncached, confirm_first, confirm_failed, assert_hold_not_expired,
}
use ihms_oms.Saga.Machine.{Stored}
use ihms_oms.Saga.Posts.Endings.{sent}
use ihms_oms.Saga.Tests.{tracing, json, answer, held_cart, held_store, world_of}

abbrev unreachable : Call → Reply
unreachable (post_order _ _) = timeout_exception "ecOps"
unreachable (delete_hold _ _) = timeout_exception "IHMS"
unreachable (get_orders _ _ _) = json 200 (orders [])
unreachable c = answer c

abbrev outage : Env
outage = record { reply = λ h c. unreachable c; now = λ h. 10; uuid4 = λ h. 99 }

abbrev after_first : World
after_first = (confirm 1 (some "Ada") "K" tracing outage (world_of held_store)).1

abbrev after_second : World
after_second = (confirm 1 (some "Ada") "L" tracing outage after_first).1

-- The first confirm leaves the session held, and without a key.
still_held : Stored after_first.store 1 held_cart
unfolding confirm confirm_uncached confirm_first confirm_failed assert_hold_not_expired
    build_order_payload find_or_create create_order_with_retry creation_failed create_order
    auth_headers find_order_by_reference find_order_by_client_reference list_orders release_held
    compensate_and_fail release_hold_safe release_hold release_failed pause external session_get
    require_session idempotency_get Idempotency.get Store.get Store.save insert lookup ◌>>=◌ request
    send now catch raise_for_ihms_response raise_for_ecops_response
still_held = refl

-- The second confirm posts a second order, under another key.
second_post : sent after_second ≡ 2
unfolding confirm confirm_uncached confirm_first confirm_failed assert_hold_not_expired
    build_order_payload find_or_create create_order_with_retry creation_failed create_order
    auth_headers find_order_by_reference find_order_by_client_reference list_orders release_held
    compensate_and_fail release_hold_safe release_hold release_failed pause external session_get
    require_session idempotency_get Idempotency.get Store.get Store.save insert lookup ◌>>=◌ request
    send now catch raise_for_ihms_response raise_for_ecops_response
second_post = refl
