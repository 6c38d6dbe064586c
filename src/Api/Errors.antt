-- ===== src/Api/Errors.antt =====
-- src/api/errors.py: the response for an exception, and the exceptions that the routes raise themselves.
use ihms_oms.Prelude.{ℕ, String}
use ihms_oms.Gateway.Errors.{
  hold_not_found, hold_conflict, hold_validation, gateway_error, gateway_timeout, upstream_error,
  session_not_found, product_not_found, invalid_state_transition, hold_expired, insufficient_stock,
  idempotency_conflict, compensation_incomplete, order_status_unknown, Error, gateway, saga,
  validation_failure,
}

-- What a response's detail is made of: the exception, or a text of the routes.
pub data Detail : Type 0 where
  detail_of : Error → Detail
  upstream_timed_out : Detail
  key_required : Detail
  session_missing : Detail
  product_missing : (sku : String) → Detail

pub record HttpException : Type 0 where
  pub status_code : ℕ
  pub detail : Detail

-- The classes are tested from the special to the general; `OrderStatusUnknownError` is a
-- `CompensationIncompleteError`, and what is no exception of the gateways or the saga is a 500.
unfoldable pub status_for_error : Error → ℕ
status_for_error (saga session_not_found) = 404
status_for_error (saga (product_not_found _)) = 404
status_for_error (saga (hold_expired _)) = 409
status_for_error (saga (insufficient_stock _ _ _)) = 409
status_for_error (saga (invalid_state_transition _)) = 409
status_for_error (gateway (upstream_error hold_not_found _)) = 404
status_for_error (gateway (upstream_error hold_conflict _)) = 409
status_for_error (gateway (upstream_error hold_validation _)) = 422
status_for_error (saga compensation_incomplete) = 503
status_for_error (saga order_status_unknown) = 503
status_for_error (gateway (gateway_timeout _)) = 504
status_for_error (gateway (upstream_error _ _)) = 502
status_for_error (gateway (gateway_error _)) = 502
status_for_error (saga idempotency_conflict) = 400
status_for_error validation_failure = 500

detail_for_error : Error → Detail
detail_for_error (gateway (gateway_timeout _)) = upstream_timed_out
detail_for_error x = detail_of x

unfoldable pub http_exception_for_error : Error → HttpException
unfolding status_for_error detail_for_error
http_exception_for_error x = record {
  status_code = status_for_error x;
  detail = detail_for_error x;
}
