-- ===== src/Saga/Coordinator/Creation.antt =====
-- The order that a confirm sends and how it is sent: `_build_order_payload`,
-- `_create_order_with_retry` and `_resolve_existing_order_attempt_locked` of
-- src/saga/coordinator.py.
use ihms_oms.Prelude.{
  String, Bool, true, false, Option, none, some, List, [], ◌∷◌, nat_beq, leb, truthy, ◌&&◌, not,
  if◌then◌else◌,
}
use ihms_oms.Session.Models.{is_below_zero, SessionLineItem, CheckoutSession}
use ihms_oms.Gateway.Models.{
  ObservabilityHeaders, OrderItemCreate, OrderCreate, OrderResponse, History,
}
use ihms_oms.Gateway.Errors.{
  gateway_timeout, upstream_error, order_status_unknown, Error, gateway, saga, validation_failure,
  Result, ok, err,
}
use ihms_oms.Gateway.Ecops.{EcOpsClient, create_order}
use ihms_oms.Effect.{Action, pure, raise, ◌>>=◌, catch}
use ihms_oms.Saga.Steps.{find_order_by_reference}
use ihms_oms.Saga.Coordinator.Outcomes.{default_retries}

abbrev order_item : SessionLineItem → OrderItemCreate
order_item i = record {
  product_name = i.ecops_item_code;
  quantity = i.quantity;
  price = i.unit_price;
}

-- `OrderItemCreate.quantity` must be positive, and its price must not be below zero.
abbrev order_items : List SessionLineItem → Option (List OrderItemCreate)
order_items [] = some []
order_items (i ∷ is) = elim (order_items is) [
  | none ↦ none
  | some os ↦
      if leb 1 i.quantity && not (is_below_zero i.unit_price)
      then some (order_item i ∷ os)
      else none
]

-- `OrderCreate` wants a customer, a reference and at least one item.
payload_of : String → String → Option (List OrderItemCreate) → Result OrderCreate
payload_of customer_name client_reference none = err validation_failure
payload_of customer_name client_reference (some []) = err validation_failure
payload_of customer_name client_reference (some (o ∷ os)) =
    if truthy customer_name && truthy client_reference
    then ok (record {
      customer_name = customer_name;
      client_reference = client_reference;
      items = o ∷ os;
    })
    else err validation_failure

unfoldable pub build_order_payload : CheckoutSession → String → Result OrderCreate
unfolding payload_of
build_order_payload s customer_name =
    payload_of customer_name s.correlation_id (order_items s.line_items)

-- An order, and whether it was found by its reference.
abbrev pub Placed : Type 0
Placed = OrderResponse × Bool

abbrev pub found_or : Error → Option OrderResponse → Action History Placed
found_or x none = raise x
found_or x (some o) = pure (o, true)

-- `except GatewayError` around the lookup after a timeout.
abbrev pub lookup_unknown : {S A : Type 0} → Error → Action S A
lookup_unknown (gateway _) = raise (saga order_status_unknown)
lookup_unknown x = raise x

module _ (ecops : EcOpsClient) (client_reference : String) (headers : ObservabilityHeaders) where
  -- The `except` lines of `_create_order_with_retry`.
  unfoldable pub creation_failed : Error → Action History Placed
  creation_failed (gateway (upstream_error k p)) =
      if nat_beq p.status_code 409
      then (do
        o ← find_order_by_reference ecops client_reference headers default_retries
        found_or (gateway (upstream_error k p)) o)
      else raise (gateway (upstream_error k p))
  creation_failed (gateway (gateway_timeout t)) = do
    o ←
        catch (find_order_by_reference ecops client_reference headers default_retries)
          lookup_unknown
    found_or (gateway (gateway_timeout t)) o
  creation_failed x = raise x

  unfoldable pub create_order_with_retry : OrderCreate → String → Action History Placed
  unfolding creation_failed
  create_order_with_retry payload idempotency_key =
      catch (do o ← create_order ecops payload headers (some idempotency_key); pure (o, false))
        creation_failed

  -- The order of this reference, or else a new one: the two calls that `confirm` makes.
  unfoldable pub find_or_create : OrderCreate → String → Action History Placed
  unfolding create_order_with_retry
  find_or_create payload idempotency_key = do
    existing ← find_order_by_reference ecops client_reference headers 0
    elim existing [
      | some o ↦ pure (o, true)
      | none ↦ create_order_with_retry payload idempotency_key
    ]
