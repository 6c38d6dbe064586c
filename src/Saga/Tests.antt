-- ===== src/Saga/Tests.antt =====
-- The saga on a small shop: one session, an IHMS that answers every call, and an ecOps without orders.
mod Requests
mod Run
mod Methods
mod Threads
mod Unreachable
use ihms_oms.Prelude.{
  String, string_eq, ◌⊎◌, Dict, ◌≤◌, ◌+◌, ℕ, ◌≡◌, refl, true, false, none, some, List, [], ◌∷◌, inl,
  arith, lookup, insert,
}
use ihms_oms.Session.Models.{
  created, held, confirmed, abandoned, fulfill_pending, CheckoutSession, SessionLineItem,
}
use ihms_oms.Session.Store
use ihms_oms.Gateway.Models.{
  ℤ, ObservabilityHeaders, Env, Call, Reply, response, Body, post_hold, get_inventory, post_order,
  get_orders, hold, inventory, order, orders, HoldResponse, OrderResponse, pos, active, pending,
}
use ihms_oms.Observability.Metrics.{new_registry}
use ihms_oms.Catalog.Live.{json_provider}
use ihms_oms.Saga.Idempotency
use ihms_oms.Saga.World.{
  external, require_session, session_get, session_save, count_metric, idempotency_put, SagaStore,
  World, store_session,
}
use ihms_oms.Saga.Coordinator.Hold.{held_session}
use ihms_oms.Saga.Coordinator.Outcomes.{
  release_held, fulfill_held, compensate_and_fail, complete_order_after_create, order_complete,
  finalize_success, cache_confirm_response, with_order, confirm_record,
}
use ihms_oms.Saga.Machine.{Stored, Cached, here, step, hold_placed, order_recorded, record_order}
use ihms_oms.Saga.Machine.Consistent.{IsConsistent}
use ihms_oms.Saga.Machine.Preserved.{SagaSteps-IsConsistent}
use ihms_oms.Saga.Machine.Permanent.{Endures}
use ihms_oms.Gateway.Errors.{ok}
use ihms_oms.Saga.Steps.{fulfill_hold_safe, release_hold_safe}
use ihms_oms.Saga.Steps.Fulfil.{OnlyValidation, fulfill_hold_safe-raises}
use ihms_oms.Saga.Coordinator.Hold.{place_hold}
use ihms_oms.Saga.Coordinator.Confirm.{confirm, abandon}
use ihms_oms.Saga.Coordinator.PlaceOrder.{place_order}
use ihms_oms.Saga.Posts.Endings.{sent}
use ihms_oms.Saga.Posts.Confirm.{confirm-posts_none}
use ihms_oms.Saga.Posts.Requests.{orders_in, serve-posts_bound}
use ihms_oms.Saga.Refines.Orders.{Ends}
use ihms_oms.Saga.Refines.Methods.{Returns}
use ihms_oms.Saga.Refines.Requests.{
  Request, order_request, confirm_request, abandon_request, serve, serve-IsConsistent,
  serve-Endures,
}
use ihms_oms.Saga.Refines.Outcomes.{
  confirm-Ends, place_order-Ends, place_hold-Returns, abandon-Returns,
}
use ihms_oms.Effect.{◌>>=◌, catch, send}
use ihms_oms.Gateway.Http.{request, raise_for_ihms_response}
use ihms_oms.Gateway.Ihms.{release_hold, fulfill_hold}
use ihms_oms.Observability.Metrics.{record_abandon, record_confirm_success}
use ihms_oms.Saga.Released.{abandon-Released, Compensated, compensate_and_fail-Compensated}
use ihms_oms.Saga.Settled.{complete_order_after_create-Settled}
use ihms_oms.Saga.Steps.Release.{Released}
use ihms_oms.Saga.Steps.Settle.{Settled}
use ihms_oms.Saga.Coordinator.Hold.{merged_quantities, assert_stock}
use ihms_oms.Saga.Coordinator.Hold.Quantities.{lookup-merged_quantities}
use ihms_oms.Saga.Coordinator.Hold.Stock.{StockVerdict, assert_stock-StockVerdict}
use ihms_oms.Saga.Replay.{Repeated, place_order_replay, confirm_replay}

abbrev pub tracing : ObservabilityHeaders
tracing = record { request_id = "r1"; correlation_id = "c1"; trace_id = "t1" }

abbrev pub line : SessionLineItem
line = record {
  sku = "SKU-1";
  name = "Keyboard";
  ihms_product_id = "P-1";
  ecops_item_code = "KB";
  quantity = 2;
  unit_price = record { negative = false; digits = 4999; scale = 2 };
}

abbrev pub cart : CheckoutSession
cart = record {
  session_id = 1;
  correlation_id = "c1";
  state = created;
  hold_id = none;
  order_id = none;
  expires_at = none;
  idempotency_key = none;
  customer_name = none;
  line_items = [];
  created_at = 0;
}

abbrev pub granted : HoldResponse
granted = record { hold_id = "H-1"; status = active; items = []; created_at = 5; expires_at = 900 }

abbrev pub placed : OrderResponse
placed = record {
  id = 77;
  customer_name = "Ada";
  status = pending;
  created_at = 6;
  updated_at = none;
  items = [];
  client_reference = some "c1";
}

abbrev pub json : ℕ → Body → Reply
json code body =
    response (record { status_code = code; is_json = true; body = some body; text = "" })

abbrev pub answer : Call → Reply
answer (post_hold _ _) = json 201 (hold granted)
answer (get_inventory _) =
    json 200 (
      inventory (record { product_id = "P-1"; name = "Keyboard"; available_quantity = pos 5 } ∷ []))
answer (post_order _ _) = json 201 (order placed)
answer (get_orders _ _ _) = json 200 (orders [])
answer _ = response (record { status_code = 204; is_json = false; body = none; text = "" })

abbrev pub shop : Env
shop = record { reply = λ h c. answer c; now = λ h. 10; uuid4 = λ h. 99 }

abbrev pub cart_store : SagaStore
cart_store = record { sessions = (1, cart) ∷ []; idempotency = [] }

pub cart_store-IsConsistent : IsConsistent cart_store
unfolding Store.get Idempotency.get lookup
cart_store-IsConsistent = record {
  keyed = λ i s h. ground arith;
  fitting = λ i s h. ground arith;
  order_cached = λ i s h. ground arith;
  cache_backed = λ i k r h. ground arith;
}

abbrev pub held_cart : CheckoutSession
held_cart = held_session granted "Ada" (line ∷ []) cart

abbrev pub held_store : SagaStore
held_store = store_session held_cart cart_store

pub held_store-IsConsistent : IsConsistent held_store
unfolding Store.get lookup
held_store-IsConsistent =
    SagaSteps-IsConsistent cart_store-IsConsistent
      (step here (hold_placed 1 cart granted "Ada" (line ∷ []) refl refl))

abbrev pub ordered_cart : CheckoutSession
ordered_cart = with_order confirmed 77 "K" held_cart

abbrev pub confirmed_store : SagaStore
confirmed_store = record_order confirmed 77 "K" held_cart held_store

pub held_cart-Stored : Stored held_store 1 held_cart
unfolding Store.get Store.save lookup insert
held_cart-Stored = refl

pub confirmed_store-IsConsistent : IsConsistent confirmed_store
confirmed_store-IsConsistent = SagaSteps-IsConsistent held_store-IsConsistent (
    step here (
      order_recorded 1 held_cart confirmed 77 "K" held_cart-Stored refl (λ h. refl) (inl refl)
        (inl refl)))

pub ordered_cart-Stored : Stored confirmed_store 1 ordered_cart
unfolding Store.get Store.save lookup insert
ordered_cart-Stored = refl

pub ordered_cart-Cached : Cached confirmed_store 1 "K" (confirm_record ordered_cart)
unfolding Idempotency.get Idempotency.put lookup insert
ordered_cart-Cached = refl

-- A held session whose first order attempt ended with an unknown status.
abbrev pub keyed_cart : CheckoutSession
keyed_cart = record held_cart { idempotency_key = some "K" }

abbrev pub keyed_store : SagaStore
keyed_store = store_session keyed_cart held_store

pub keyed_cart-Stored : Stored keyed_store 1 keyed_cart
unfolding Store.get Store.save lookup insert
keyed_cart-Stored = refl

abbrev pub world_of : SagaStore → World
world_of st = record {
  store = st;
  catalog = json_provider (record {
    products =
        (
          "SKU-1",
          record {
            sku = "SKU-1";
            name = "Keyboard";
            ihms_product_id = "P-1";
            ecops_item_code = "KB";
            unit_price = record { negative = false; digits = 4999; scale = 2 };
          },
        )
        ∷ [];
  });
  metrics = new_registry;
  history = [];
  ihms = record { fulfill_optional = true };
  ecops = record { bearer_token = "token" };
}
