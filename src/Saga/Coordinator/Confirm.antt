-- ===== src/Saga/Coordinator/Confirm.antt =====
-- `confirm` and `abandon`, `_resolve_existing_order_attempt_locked`, `_assert_hold_not_expired` and
-- `validate_hold_active` of src/saga/coordinator.py. The lock is held for the whole of `confirm` and of
-- `abandon`.
use ihms_oms.Prelude.{
  String, Bool, true, false, Option, none, some, List, [], ◌∷◌, leb, truthy?, or_else?, string_eq,
  ◌==◌, ◌&&◌, ◌||◌, not, if◌then◌else◌,
}
use ihms_oms.Session.Models.{
  Uuid, SessionState, abandoned, CheckoutSession, is_held, is_fulfill_pending, is_terminal,
}
use ihms_oms.Gateway.Models.{ObservabilityHeaders, OrderResponse}
use ihms_oms.Gateway.Errors.{
  hold_not_found, hold_conflict, gateway_timeout, upstream_error, original_key_pending,
  confirm_from, unresolved_attempt, no_line_items, customer_required, abandon_terminal,
  abandon_pending, invalid_state_transition, hold_expired, compensation_incomplete,
  order_status_unknown, Error, gateway, saga,
}
use ihms_oms.Gateway.Ihms.{get_hold}
use ihms_oms.Observability.Metrics.{record_abandon, record_order_status_unknown}
use ihms_oms.Effect.{pure, raise, raise_if, or_raise, lift_result, ◌>>=◌, ◌>>◌, catch, now}
use ihms_oms.Saga.Idempotency.{IdempotencyRecord}
use ihms_oms.Saga.Steps.{find_order_by_reference}
use ihms_oms.Saga.World.{M, external, require_session, session_save, idempotency_get, count_metric}
use ihms_oms.Saga.Coordinator.Outcomes.{
  ConfirmResult, default_retries, hold_text, fulfill_held, release_held,
  complete_order_after_create, retry_fulfill_pending, compensate_and_fail, apply_cached,
}
use ihms_oms.Saga.Coordinator.Creation.{build_order_payload, lookup_unknown, find_or_create}

-- The states in which `confirm` takes a cached state over.
abbrev pub confirm_takes_over : SessionState → Bool
confirm_takes_over st = is_held st || is_fulfill_pending st

-- `if cached is not None:` in `confirm`, with the session that the response was applied to.
abbrev pub replay_with : CheckoutSession → String → ObservabilityHeaders → M ConfirmResult
replay_with s key headers =
    if is_fulfill_pending s.state then retry_fulfill_pending s key headers true else do
      _ ← if truthy? s.hold_id && is_terminal s then fulfill_held s headers else pure true
      pure (record { session = s; from_cache = true })

unfoldable pub confirm_cached :
    Uuid → IdempotencyRecord → String → ObservabilityHeaders → M ConfirmResult
confirm_cached session_id cached key headers = do
  found ← require_session session_id
  s ← apply_cached confirm_takes_over cached found
  replay_with s key headers

abbrev pub complete_found :
    CheckoutSession → String → ObservabilityHeaders → Option OrderResponse → M ConfirmResult
complete_found s key headers none = raise (saga order_status_unknown)
complete_found s key headers (some o) = complete_order_after_create s o.id key headers true

-- `_resolve_existing_order_attempt_locked`
unfoldable pub resolve_existing_order_attempt :
    CheckoutSession → String → ObservabilityHeaders → M ConfirmResult
resolve_existing_order_attempt s key headers = do
  o ←
      catch
        (external (λ w. find_order_by_reference w.ecops s.correlation_id headers default_retries))
        lookup_unknown
  complete_found s key headers o

-- `session.expires_at <= datetime.now(UTC)`; without an expiry the clock is not read.
unfoldable pub assert_hold_not_expired : CheckoutSession → M (Unit {0})
unfolding now
assert_hold_not_expired s = elim s.expires_at [
  | none ↦ pure tt
  | some t ↦ (do time ← external (λ w. now); raise_if (leb t time) (saga (hold_expired none)))
]

-- The `except` lines of `confirm`.
unfoldable pub confirm_failed :
    CheckoutSession → String → ObservabilityHeaders → Error → M ConfirmResult
unfolding record_order_status_unknown
confirm_failed s key headers (gateway (gateway_timeout _)) = do
  compensate_and_fail s headers
  raise (saga compensation_incomplete)
confirm_failed s key headers (gateway x) = do compensate_and_fail s headers; raise (gateway x)
confirm_failed s key headers (saga order_status_unknown) = do
  _ ← session_save (record s { idempotency_key = some key })
  count_metric record_order_status_unknown
  raise (saga order_status_unknown)
confirm_failed s key headers x = raise x

abbrev is_empty {ℓ} : {A : Type ℓ} → List A → Bool
is_empty [] = true
is_empty (_ ∷ _) = false

-- `customer_name or session.customer_name`, and the raise if that is empty.
abbrev pub customer_or_raise : Option String → M String
customer_or_raise o =
    if truthy? o
    then or_raise o (saga (invalid_state_transition customer_required))
    else raise (saga (invalid_state_transition customer_required))

-- The first order attempt of a held session.
unfoldable pub confirm_first :
    CheckoutSession → Option String → String → ObservabilityHeaders → M ConfirmResult
confirm_first s customer_name key headers = do
  raise_if (is_empty s.line_items) (saga (invalid_state_transition no_line_items))
  assert_hold_not_expired s
  customer ← customer_or_raise (or_else? customer_name s.customer_name)
  payload ← lift_result (build_order_payload s customer)
  catch
      (do
        placed ← external (λ w. find_or_create w.ecops s.correlation_id headers payload key)
        complete_order_after_create s (placed.0).id key headers placed.1)
      (confirm_failed s key headers)

-- A held session that already has a key.
abbrev pub confirm_again :
    String → CheckoutSession → String → ObservabilityHeaders → M ConfirmResult
confirm_again k s key headers =
    if k == key
    then resolve_existing_order_attempt s key headers
    else raise (saga (invalid_state_transition unresolved_attempt))

-- `if session.idempotency_key is not None:`
abbrev pub confirm_held :
    Option String
    → CheckoutSession
    → Option String
    → String
    → ObservabilityHeaders
    → M ConfirmResult
confirm_held none s customer_name key headers = confirm_first s customer_name key headers
confirm_held (some k) s customer_name key headers = confirm_again k s key headers

abbrev pub same_key : Option String → String → Bool
same_key none key = false
same_key (some k) key = k == key

unfoldable pub confirm_uncached :
    CheckoutSession → Option String → String → ObservabilityHeaders → M ConfirmResult
confirm_uncached s customer_name key headers =
    if is_fulfill_pending s.state
    then (if same_key s.idempotency_key key
        then retry_fulfill_pending s key headers false
        else raise (saga (invalid_state_transition original_key_pending)))
    else if not (is_held s.state)
    then raise (saga (invalid_state_transition (confirm_from s.state)))
    else confirm_held s.idempotency_key s customer_name key headers

abbrev pub confirm_with :
    Option IdempotencyRecord
    → Uuid
    → Option String
    → String
    → ObservabilityHeaders
    → M ConfirmResult
confirm_with (some r) session_id customer_name key headers = confirm_cached session_id r key headers
confirm_with none session_id customer_name key headers = do
  s ← require_session session_id
  confirm_uncached s customer_name key headers

unfoldable pub confirm : Uuid → Option String → String → ObservabilityHeaders → M ConfirmResult
confirm session_id customer_name key headers = do
  cached ← idempotency_get session_id key
  confirm_with cached session_id customer_name key headers

-- `if session.state == SessionState.HELD and session.hold_id:` in `abandon`.
abbrev pub release_if_held : CheckoutSession → ObservabilityHeaders → M Bool
release_if_held s headers =
    if is_held s.state && truthy? s.hold_id then release_held s headers else pure true

unfoldable pub abandon : Uuid → ObservabilityHeaders → M CheckoutSession
unfolding record_abandon
abandon session_id headers = do
  s ← require_session session_id
  raise_if (is_terminal s) (saga (invalid_state_transition (abandon_terminal s.state)))
  raise_if (is_fulfill_pending s.state) (saga (invalid_state_transition abandon_pending))
  released ← release_if_held s headers
  raise_if (not released) (saga compensation_incomplete)
  saved ← session_save (record s { state = abandoned })
  count_metric record_abandon
  pure saved

-- The `except` lines of `validate_hold_active`.
unfoldable pub hold_gone : Error → M (Unit {0})
hold_gone (gateway (upstream_error hold_conflict p)) = raise (saga (hold_expired p.detail))
hold_gone (gateway (upstream_error hold_not_found p)) = raise (saga (hold_expired p.detail))
hold_gone x = raise x

unfoldable pub validate_hold_active : CheckoutSession → ObservabilityHeaders → M (Unit {0})
validate_hold_active s headers =
    if truthy? s.hold_id
    then catch (do _ ← external (λ w. get_hold w.ihms (hold_text s.hold_id) headers); pure tt)
        hold_gone
    else pure tt
