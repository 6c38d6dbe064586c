-- ===== src/Mocks/Ecops.antt =====
-- docker/mock-upstreams/ecops/app.py: the mock of ecOps. A handler gives its reply beside the new state.
-- The SHA-256 of a body's canonical JSON is a parameter.
mod Runs
mod Accepted
mod Tests
use ihms_oms.Prelude.{
  ℕ, suc, String, Bool, true, false, Option, none, some, List, [], ◌∷◌, ◌++◌, Dict, lookup, insert,
  string_eq, nat_eq, ◌==◌, ◌||◌, if◌then◌else◌, truthy, truthy?, or_else?,
}
use Prim.Native.String.{◌++◌ as ◌++ₛ◌}
use ihms_oms.Prelude.Int.{pos}
use ihms_oms.Session.Models.{Timestamp, Uuid}
use ihms_oms.Gateway.Models.{
  OrderItemCreate, OrderCreate, OrderItemResponse, OrderResponse, pending, Body, order, orders,
  problem, object, Response,
}

abbrev order_timeout_hang_seconds : ℕ
order_timeout_hang_seconds = 30

-- An order's dict: what a client reads of it, and `_request_hash`.
pub record StoredOrder : Type 0 where
  pub shown : OrderResponse
  pub request_hash : String

pub record MockState : Type 0 where
  pub orders : List StoredOrder
  pub idempotency : Dict String Uuid
  pub scenario : Option String

-- A response, after a pause.
pub record Reply : Type 0 where
  pub seconds : ℕ
  pub response : Response

abbrev pub json_response : ℕ → Body → Reply
json_response code content = record {
  seconds = 0;
  response = record { status_code = code; is_json = true; body = some content; text = "" };
}

abbrev detail_response : ℕ → String → Reply
detail_response code detail = json_response code (problem (some detail) none)

abbrev pub is_reference : String → Option String → Bool
is_reference client_reference none = false
is_reference client_reference (some c) = c == client_reference

abbrev pub has_reference : String → StoredOrder → Bool
has_reference client_reference o = is_reference client_reference o.shown.client_reference

pub with_reference : String → List StoredOrder → List StoredOrder
with_reference client_reference [] = []
with_reference client_reference (o ∷ os) =
    let rest = with_reference client_reference os in
    if has_reference client_reference o then o ∷ rest else rest

pub list_orders : Option String → MockState → List StoredOrder
list_orders none state = state.orders
list_orders (some client_reference) state = with_reference client_reference state.orders

pub find_order : Uuid → List StoredOrder → Option StoredOrder
find_order order_id [] = none
find_order order_id (o ∷ os) =
    let rest = find_order order_id os in if o.shown.id == order_id then some o else rest

pub get_order : Uuid → MockState → Reply
get_order order_id state = elim (find_order order_id state.orders) [
  | none ↦ detail_response 404 "Order not found"
  | some o ↦ json_response 200 (order o.shown)
]

-- The items, where uuid4 draws the id of the first one at its draw `k`.
built_items : Uuid → (uuids : ℕ → Uuid) → ℕ → List OrderItemCreate → List OrderItemResponse
built_items order_id uuids k [] = []
built_items order_id uuids k (item ∷ items) =
    record {
      id = uuids k;
      order_id = order_id;
      product_name = item.product_name;
      quantity = pos item.quantity;
      price = item.price;
    }
    ∷ built_items order_id uuids (suc k) items

-- `_build_order`
pub build_order : OrderCreate → String → (uuids : ℕ → Uuid) → Timestamp → OrderResponse
unfolding built_items
build_order body client_reference uuids now = record {
  id = uuids 0;
  customer_name = body.customer_name;
  status = pending;
  created_at = now;
  updated_at = none;
  items = built_items (uuids 0) uuids 1 body.items;
  client_reference = if truthy client_reference then some client_reference else none;
}

pub is_used : String → List StoredOrder → Bool
is_used client_reference [] = false
is_used client_reference (o ∷ os) = has_reference client_reference o || is_used client_reference os

pub in_use : String → Reply
in_use c = detail_response 409 ("client_reference '" ++ₛ c ++ₛ "' is already in use")

-- A POST: the body, the header X-Test-Scenario, and what uuid4 and the clock answer while it is served.
pub record Post : Type 0 where
  pub body : OrderCreate
  pub test_scenario : Option String
  pub uuids : ℕ → Uuid
  pub now : Timestamp

pub is_scenario : String → Option String → Bool
is_scenario t none = false
is_scenario t (some s) = s == t

module _ (canonical_hash : OrderCreate → String) where
  pub built : Post → StoredOrder
  unfolding build_order
  built p = record {
    shown = build_order p.body p.body.client_reference p.uuids p.now;
    request_hash = canonical_hash p.body;
  }

  -- An order that a key already stands for.
  pub repeated : OrderCreate → StoredOrder → Reply
  repeated body o =
      if o.request_hash == canonical_hash body
      then json_response 200 (order o.shown)
      else detail_response 409 "Idempotency conflict"

  -- From `order = _build_order(…)` on.
  pub store_order : String → Option String → Post → MockState → Reply × MockState
  unfolding built is_scenario
  store_order key scenario p state =
      let o = built p in
      let hang = if is_scenario "order-timeout" scenario then order_timeout_hang_seconds else 0 in
      (
        record (json_response 201 (order o.shown)) { seconds = hang },
        record state {
          orders = state.orders ++ o ∷ [];
          idempotency = insert key o.shown.id state.idempotency;
        },
      )

  pub create_new : String → Option String → Post → MockState → Reply × MockState
  unfolding store_order is_used is_scenario in_use
  create_new key scenario p state =
      if is_scenario "order-error" scenario
      then (detail_response 500 "Order failed", state)
      else if is_used p.body.client_reference state.orders
      then (in_use p.body.client_reference, state)
      else store_order key scenario p state

  pub existing_order : String → MockState → Option StoredOrder
  existing_order key state = elim (lookup key state.idempotency) [
    | none ↦ none
    | some existing_id ↦ find_order existing_id state.orders
  ]

  pub create_keyed : String → Post → MockState → Reply × MockState
  unfolding existing_order repeated create_new
  create_keyed key p state = elim (existing_order key state) [
    | none ↦ create_new key (or_else? p.test_scenario state.scenario) p state
    | some o ↦ (repeated p.body o, state)
  ]

  pub create_order : Option String → Post → MockState → Reply × MockState
  unfolding create_keyed
  create_order none p state = (detail_response 422 "Idempotency-Key required", state)
  create_order (some key) p state =
      if truthy key
      then create_keyed key p state
      else (detail_response 422 "Idempotency-Key required", state)

pub reset_state : MockState → Reply × MockState
reset_state state =
    (json_response 200 object, record state { orders = []; idempotency = []; scenario = none })

pub set_scenario : Option String → MockState → Reply × MockState
set_scenario scenario state = (json_response 200 object, record state { scenario = scenario })
