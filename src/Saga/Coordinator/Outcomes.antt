-- ===== src/Saga/Coordinator/Outcomes.antt =====
-- How a confirm ends: the finalisation, the pending state, the compensation, and the cached
-- response (src/saga/coordinator.py).
use ihms_oms.Prelude.{
  ℕ, String, Bool, true, false, Option, none, some, ◌||◌, not, truthy?, if◌then◌else◌,
}
use ihms_oms.Session.Models.{
  Uuid, SessionState, fulfill_pending, confirmed, compensated, reconciled, CheckoutSession, is_held,
  is_fulfill_pending,
}
use ihms_oms.Gateway.Models.{ObservabilityHeaders}
use ihms_oms.Gateway.Errors.{
  finalize_from, pending_incomplete, invalid_state_transition, compensation_incomplete, saga,
}
use ihms_oms.Observability.Metrics.{record_confirm_success, record_compensation}
use ihms_oms.Effect.{now, pure, raise, raise_if, ◌>>=◌, ◌>>◌}
use ihms_oms.Saga.Idempotency.{IdempotencyRecord}
use ihms_oms.Saga.Steps.{release_hold_safe, fulfill_hold_safe}
use ihms_oms.Saga.World.{M, external, session_save, idempotency_put, count_metric}

pub record ConfirmResult : Type 0 where
  pub session : CheckoutSession
  pub from_cache : Bool

-- The default of `max_retries` in src/saga/steps/.
abbrev pub default_retries : ℕ
default_retries = 2

-- `if session.hold_id:` before a call that takes it.
abbrev pub hold_text : Option String → String
hold_text none = ""
hold_text (some h) = h

unfoldable pub fulfill_held : CheckoutSession → ObservabilityHeaders → M Bool
fulfill_held s headers =
    external (λ w. fulfill_hold_safe w.ihms (hold_text s.hold_id) headers default_retries)

unfoldable pub release_held : CheckoutSession → ObservabilityHeaders → M Bool
release_held s headers =
    external (λ w. release_hold_safe w.ihms (hold_text s.hold_id) headers default_retries)

-- The session that `_finalize_success_locked` and the pending branch save.
abbrev pub with_order : SessionState → Uuid → String → CheckoutSession → CheckoutSession
with_order state order_id key s = record s {
  state = state;
  order_id = some order_id;
  idempotency_key = some key;
}

-- The record that `_finalize_success_locked` and `_cache_confirm_response` put.
abbrev pub confirm_record : CheckoutSession → IdempotencyRecord
confirm_record s = record {
  status_code = 200;
  body = record {
    session_id = s.session_id;
    correlation_id = s.correlation_id;
    state = s.state;
    hold_id = s.hold_id;
    order_id = s.order_id;
    expires_at = s.expires_at;
  };
  order_id = s.order_id;
}

-- `_cache_confirm_response`, and the tail of `_finalize_success_locked`, which caches the same.
unfoldable pub cache_confirm_response : CheckoutSession → String → M (Unit {0})
cache_confirm_response s key = idempotency_put s.session_id key (confirm_record s)

unfoldable pub finalize_success : CheckoutSession → Uuid → String → SessionState → M ConfirmResult
unfolding cache_confirm_response
finalize_success s order_id key terminal = do
  raise_if (not (is_held s.state || is_fulfill_pending s.state))
      (saga (invalid_state_transition (finalize_from s.state)))
  saved ← session_save (with_order terminal order_id key s)
  cache_confirm_response saved key
  pure (record { session = saved; from_cache = false })

abbrev pub terminal_of : Bool → SessionState
terminal_of reconciled_flag = if reconciled_flag then reconciled else confirmed

unfoldable pub order_pending : CheckoutSession → Uuid → String → M ConfirmResult
unfolding cache_confirm_response
order_pending s order_id key = do
  saved ← session_save (with_order fulfill_pending order_id key s)
  cache_confirm_response saved key
  pure (record { session = saved; from_cache = false })

unfoldable pub order_complete : CheckoutSession → Uuid → String → Bool → M ConfirmResult
unfolding finalize_success record_confirm_success
order_complete s order_id key reconciled_flag = do
  result ← finalize_success s order_id key (terminal_of reconciled_flag)
  count_metric (record_confirm_success reconciled_flag)
  pure result

-- `_complete_order_after_create_locked`
unfoldable pub complete_order_after_create :
    CheckoutSession → Uuid → String → ObservabilityHeaders → Bool → M ConfirmResult
unfolding order_pending order_complete fulfill_held
complete_order_after_create s order_id key headers reconciled_flag = do
  fulfilled ← if truthy? s.hold_id then fulfill_held s headers else pure true
  if fulfilled then order_complete s order_id key reconciled_flag else order_pending s order_id key

-- `_retry_fulfill_pending_locked`; the order is rebuilt, with the time, only to hand its id on.
abbrev pub finish_pending : CheckoutSession → Option Uuid → String → Bool → M ConfirmResult
finish_pending s none key from_cache = raise (saga (invalid_state_transition pending_incomplete))
finish_pending s (some order_id) key from_cache = do
  _ ← external (λ w. now)
  result ← finalize_success s order_id key confirmed
  count_metric (record_confirm_success false)
  pure (record { session = result.session; from_cache = from_cache })

abbrev pub is_some {ℓ} : {A : Type ℓ} → Option A → Bool
is_some none = false
is_some (some _) = true

unfoldable pub retry_fulfill_pending :
    CheckoutSession → String → ObservabilityHeaders → Bool → M ConfirmResult
unfolding finalize_success record_confirm_success fulfill_held
retry_fulfill_pending s key headers from_cache = do
  raise_if (not (truthy? s.hold_id) || not (is_some s.order_id))
      (saga (invalid_state_transition pending_incomplete))
  fulfilled ← fulfill_held s headers
  if fulfilled
      then finish_pending s s.order_id key from_cache
      else pure (record { session = s; from_cache = from_cache })

-- `_compensate_and_fail_locked`
unfoldable pub compensate_and_fail : CheckoutSession → ObservabilityHeaders → M (Unit {0})
unfolding release_held record_compensation
compensate_and_fail s headers =
    if truthy? s.hold_id
    then (do
      released ← release_held s headers
      raise_if (not released) (saga compensation_incomplete)
      _ ←
          if is_held s.state
          then session_save (record s { state = compensated; idempotency_key = none })
          else pure s
      count_metric record_compensation)
    else pure tt

-- What a cached response does to the session, in `confirm` and in `place_order`; they differ in the
-- states in which the cached state is taken over.
abbrev pub cached_update :
    (SessionState → Bool) → IdempotencyRecord → CheckoutSession → CheckoutSession
cached_update takes_over cached s = record s {
  order_id = if is_some cached.order_id then cached.order_id else s.order_id;
  state = if takes_over s.state then cached.body.state else s.state;
}

unfoldable pub apply_cached :
    (SessionState → Bool) → IdempotencyRecord → CheckoutSession → M CheckoutSession
apply_cached takes_over cached s =
    if is_some cached.order_id || takes_over s.state
    then session_save (cached_update takes_over cached s)
    else pure s
