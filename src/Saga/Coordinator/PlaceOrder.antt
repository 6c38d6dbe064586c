-- ===== src/Saga/Coordinator/PlaceOrder.antt =====
-- `place_order` of src/saga/coordinator.py: hold once, then confirm.
use ihms_oms.Prelude.{
  ℕ, String, Bool, true, Option, none, some, List, truthy, or_else?, strip, ◌&&◌, ◌||◌, not,
  if◌then◌else◌,
}
use ihms_oms.Session.Models.{
  Uuid, SessionState, CheckoutSession, is_created, is_held, is_fulfill_pending, is_terminal,
}
use ihms_oms.Gateway.Models.{ObservabilityHeaders}
use ihms_oms.Gateway.Errors.{order_terminal, order_from, invalid_state_transition, saga}
use ihms_oms.Effect.{pure, raise_if, ◌>>=◌, ◌>>◌}
use ihms_oms.Saga.Idempotency.{IdempotencyRecord}
use ihms_oms.Saga.World.{M, require_session, idempotency_get}
use ihms_oms.Saga.Coordinator.Outcomes.{ConfirmResult, apply_cached}
use ihms_oms.Saga.Coordinator.Hold.{place_hold}
use ihms_oms.Saga.Coordinator.Confirm.{confirm}

-- `PlaceOrderResult` has the fields of `ConfirmResult`.
abbrev pub PlaceOrderResult : Type 0
PlaceOrderResult = ConfirmResult

-- The states in which `place_order` takes a cached state over.
abbrev pub order_takes_over : SessionState → Bool
order_takes_over st = is_created st || is_held st || is_fulfill_pending st

unfoldable pub place_order_cached : Uuid → IdempotencyRecord → M PlaceOrderResult
place_order_cached session_id cached = do
  found ← require_session session_id
  s ← apply_cached order_takes_over cached found
  pure (record { session = s; from_cache = true })

-- `customer_name.strip() or session.customer_name or "Guest"`
abbrev customer_or_guest : Option String → String
customer_or_guest none = "Guest"
customer_or_guest (some c) = if truthy c then c else "Guest"

unfoldable pub resolved_customer : String → CheckoutSession → String
resolved_customer customer_name s =
    customer_or_guest (or_else? (some (strip customer_name)) s.customer_name)

-- What follows the hold: both branches of the source call `confirm`.
unfoldable pub order_held : Uuid → String → String → ObservabilityHeaders → M PlaceOrderResult
order_held session_id customer key headers = do
  s ← require_session session_id
  raise_if (not (is_fulfill_pending s.state) && not (is_held s.state))
      (saga (invalid_state_transition (order_from s.state)))
  confirm session_id (some customer) key headers

unfoldable pub place_order_uncached :
    Uuid → List (String × ℕ) → String → String → ObservabilityHeaders → M PlaceOrderResult
unfolding order_held
place_order_uncached session_id items customer_name key headers = do
  s ← require_session session_id
  raise_if (is_terminal s) (saga (invalid_state_transition (order_terminal s.state)))
  _ ←
      if is_created s.state
      then place_hold session_id items (resolved_customer customer_name s) headers
      else pure s
  order_held session_id (resolved_customer customer_name s) key headers

abbrev pub place_order_with :
    Option IdempotencyRecord
    → Uuid
    → List (String × ℕ)
    → String
    → String
    → ObservabilityHeaders
    → M PlaceOrderResult
place_order_with (some r) session_id items customer_name key headers =
    place_order_cached session_id r
place_order_with none session_id items customer_name key headers =
    place_order_uncached session_id items customer_name key headers

unfoldable pub place_order :
    Uuid → List (String × ℕ) → String → String → ObservabilityHeaders → M PlaceOrderResult
place_order session_id items customer_name key headers = do
  cached ← idempotency_get session_id key
  place_order_with cached session_id items customer_name key headers
