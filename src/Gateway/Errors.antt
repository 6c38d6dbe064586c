-- ===== src/Gateway/Errors.antt =====
-- src/gateway/exceptions.py and src/saga/exceptions.py: the exceptions, as data. An exception of
-- the saga carries what its message and detail are made of, in place of the formatted text.
use ihms_oms.Prelude.{ℕ, String, Option}
use ihms_oms.Session.Models.{SessionState}
use ihms_oms.Gateway.Models.{ℤ}

pub record UpstreamProblem : Type 0 where
  pub status_code : ℕ
  pub detail : Option String
  pub title : Option String

-- The classes below `UpstreamError`.
pub data UpstreamKind : Type 0 where
  hold_not_found hold_conflict hold_validation order_not_found order_validation other : UpstreamKind

pub data GatewayError : Type 0 where
  gateway_error : String → GatewayError
  gateway_timeout : String → GatewayError
  upstream_error : UpstreamKind → UpstreamProblem → GatewayError

-- Why a transition is refused, one constructor for each message of the coordinator.
pub data Refusal : Type 0 where
  empty_cart : Refusal
  hold_from : SessionState → Refusal
  original_key_pending : Refusal
  confirm_from : SessionState → Refusal
  unresolved_attempt : Refusal
  no_line_items : Refusal
  customer_required : Refusal
  abandon_terminal : SessionState → Refusal
  abandon_pending : Refusal
  order_terminal : SessionState → Refusal
  order_from : SessionState → Refusal
  finalize_from : SessionState → Refusal
  pending_incomplete : Refusal

pub data SagaError : Type 0 where
  session_not_found : SagaError
  product_not_found : (sku : String) → SagaError
  invalid_state_transition : Refusal → SagaError
  hold_expired : (detail : Option String) → SagaError
  insufficient_stock : (sku : String) (requested : ℕ) (available : ℤ) → SagaError
  idempotency_conflict : SagaError
  compensation_incomplete : SagaError
  order_status_unknown : SagaError

-- `validation_failure` stands for what pydantic and the decoding raise: no `GatewayError` and no
-- `SagaError`, so that no handler of the saga catches it.
pub data Error : Type 0 where
  gateway : GatewayError → Error
  saga : SagaError → Error
  validation_failure : Error

pub data Result (A : Type 0) : Type 0 where
  ok : A → Result A
  err : Error → Result A
