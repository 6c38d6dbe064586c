-- ===== src/Saga/Posts/Endings.antt =====
-- The actions that a confirm ends with, in src/saga/coordinator.py, post no order.
use ihms_oms.Prelude.{ℕ, String, Bool, Option, none, some, arith}
use ihms_oms.Session.Models.{Uuid, CheckoutSession, SessionState, confirmed}
use ihms_oms.Gateway.Models.{History, ObservabilityHeaders, OrderResponse}
use ihms_oms.Gateway.Errors.{
  gateway_error, gateway_timeout, upstream_error, Error, gateway, saga, validation_failure,
  session_not_found, order_status_unknown,
}
use ihms_oms.Observability.Metrics.{MetricsRegistry}
use ihms_oms.Effect.{now, Action}
use ihms_oms.Effect.Counting.{
  Quiet, Once, Quiet-if, Quiet-bind, Quiet-catch, Quiet-pure, Quiet-raise, Quiet-raise_if,
  Quiet-gets, Quiet-or_raise,
}
use ihms_oms.Saga.Idempotency.{IdempotencyRecord}
use ihms_oms.Saga.World.{
  World, external, session_get, require_session, session_save, idempotency_get, idempotency_put,
  count_metric,
}
use ihms_oms.Saga.Steps.Posts.{
  release_hold_safe-Quiet, fulfill_hold_safe-Quiet, find_order_by_reference-Quiet,
}
use ihms_oms.Saga.Posts.{posts}
use ihms_oms.Saga.Posts.Creation.{lookup_unknown-Quiet}
use ihms_oms.Saga.Coordinator.Outcomes.{
  default_retries, hold_text, fulfill_held, release_held, cache_confirm_response, finalize_success,
  order_pending, order_complete, complete_order_after_create, finish_pending, retry_fulfill_pending,
  compensate_and_fail, apply_cached,
}
use ihms_oms.Saga.Coordinator.Confirm.{
  complete_found, resolve_existing_order_attempt, confirm_failed, replay_with, confirm_cached,
}

-- The orders posted so far, in a world.
abbrev pub sent : World → ℕ
sent w = posts w.history

module _ {A : Type 0} where
  pub external-Quiet :
      (m : World → Action History A) → ((w : World) → Quiet posts (m w)) → Quiet sent (external m)
  unfolding external
  external-Quiet m q = record { at = λ e w. omega (arith, (q w).at e w.history) }

  pub external-Once :
      (m : World → Action History A) → ((w : World) → Once posts (m w)) → Once sent (external m)
  unfolding external
  external-Once m q = record { at = λ e w. omega (arith, (q w).at e w.history) }

pub now-Quiet : Quiet posts now
unfolding now
now-Quiet = record { at = λ e h. omega arith }

pub session_save-Quiet : (s : CheckoutSession) → Quiet sent (session_save s)
unfolding session_save
session_save-Quiet s = record { at = λ e w. omega arith }

idempotency_put-Quiet :
    (i : Uuid) (key : String) (r : IdempotencyRecord) → Quiet sent (idempotency_put i key r)
unfolding idempotency_put
idempotency_put-Quiet i key r = record { at = λ e w. omega arith }

pub idempotency_get-Quiet : (i : Uuid) (key : String) → Quiet sent (idempotency_get i key)
unfolding idempotency_get
idempotency_get-Quiet i key = Quiet-gets _

pub require_session-Quiet : (i : Uuid) → Quiet sent (require_session i)
unfolding require_session session_get
require_session-Quiet i =
    Quiet-bind _ _ (Quiet-gets _) (λ o. Quiet-or_raise o (saga session_not_found))

pub count_metric-Quiet : (f : MetricsRegistry → MetricsRegistry) → Quiet sent (count_metric f)
unfolding count_metric
count_metric-Quiet f = record { at = λ e w. omega arith }

pub fulfill_held-Quiet :
    (s : CheckoutSession) (headers : ObservabilityHeaders) → Quiet sent (fulfill_held s headers)
unfolding fulfill_held
fulfill_held-Quiet s headers =
    external-Quiet _
      (λ w. fulfill_hold_safe-Quiet w.ihms (hold_text s.hold_id) headers default_retries)

pub release_held-Quiet :
    (s : CheckoutSession) (headers : ObservabilityHeaders) → Quiet sent (release_held s headers)
unfolding release_held
release_held-Quiet s headers =
    external-Quiet _
      (λ w. release_hold_safe-Quiet w.ihms (hold_text s.hold_id) headers default_retries)

finalize_success-Quiet :
    (s : CheckoutSession) (o : Uuid) (key : String) (terminal : SessionState)
    → Quiet sent (finalize_success s o key terminal)
unfolding finalize_success cache_confirm_response
finalize_success-Quiet s o key terminal = Quiet-bind _ _ (Quiet-raise_if _ _) (λ _.
    Quiet-bind _ _ (session_save-Quiet _)
      (λ saved. Quiet-bind _ _ (idempotency_put-Quiet _ _ _) (λ _. Quiet-pure _)))

order_pending-Quiet :
    (s : CheckoutSession) (o : Uuid) (key : String) → Quiet sent (order_pending s o key)
unfolding order_pending cache_confirm_response
order_pending-Quiet s o key =
    Quiet-bind _ _ (session_save-Quiet _)
      (λ saved. Quiet-bind _ _ (idempotency_put-Quiet _ _ _) (λ _. Quiet-pure _))

order_complete-Quiet :
    (s : CheckoutSession) (o : Uuid) (key : String) (flag : Bool)
    → Quiet sent (order_complete s o key flag)
unfolding order_complete
order_complete-Quiet s o key flag =
    Quiet-bind _ _ (finalize_success-Quiet s o key _)
      (λ result. Quiet-bind _ _ (count_metric-Quiet _) (λ _. Quiet-pure _))

pub complete_order_after_create-Quiet :
    (s : CheckoutSession) (o : Uuid) (key : String) (headers : ObservabilityHeaders) (flag : Bool)
    → Quiet sent (complete_order_after_create s o key headers flag)
unfolding complete_order_after_create
complete_order_after_create-Quiet s o key headers flag =
    Quiet-bind _ _ (Quiet-if _ _ _ (fulfill_held-Quiet s headers) (Quiet-pure _)) (λ fulfilled.
      Quiet-if _ _ _ (order_complete-Quiet s o key flag) (order_pending-Quiet s o key))

finish_pending-Quiet :
    (s : CheckoutSession) (o : Option Uuid) (key : String) (from_cache : Bool)
    → Quiet sent (finish_pending s o key from_cache)
finish_pending-Quiet s none key from_cache = Quiet-raise _
finish_pending-Quiet s (some o) key from_cache =
    Quiet-bind _ _ (external-Quiet _ (λ w. now-Quiet)) (λ _.
      Quiet-bind _ _ (finalize_success-Quiet s o key confirmed)
        (λ result. Quiet-bind _ _ (count_metric-Quiet _) (λ _. Quiet-pure _)))

pub retry_fulfill_pending-Quiet :
    (s : CheckoutSession) (key : String) (headers : ObservabilityHeaders) (from_cache : Bool)
    → Quiet sent (retry_fulfill_pending s key headers from_cache)
unfolding retry_fulfill_pending
retry_fulfill_pending-Quiet s key headers from_cache = Quiet-bind _ _ (Quiet-raise_if _ _) (λ _.
    Quiet-bind _ _ (fulfill_held-Quiet s headers) (λ fulfilled.
      Quiet-if _ _ _ (finish_pending-Quiet s s.order_id key from_cache) (Quiet-pure _)))

compensate_and_fail-Quiet :
    (s : CheckoutSession) (headers : ObservabilityHeaders)
    → Quiet sent (compensate_and_fail s headers)
unfolding compensate_and_fail
compensate_and_fail-Quiet s headers =
    Quiet-if _ _ _
      (Quiet-bind _ _ (release_held-Quiet s headers) (λ released.
        Quiet-bind _ _ (Quiet-raise_if _ _) (λ _.
          Quiet-bind _ _ (Quiet-if _ _ _ (session_save-Quiet _) (Quiet-pure _))
            (λ _. count_metric-Quiet _))))
      (Quiet-pure _)

pub confirm_failed-Quiet :
    (s : CheckoutSession) (key : String) (headers : ObservabilityHeaders) (x : Error)
    → Quiet sent (confirm_failed s key headers x)
unfolding confirm_failed
confirm_failed-Quiet s key headers (gateway (gateway_timeout t)) =
    Quiet-bind _ _ (compensate_and_fail-Quiet s headers) (λ _. Quiet-raise _)
confirm_failed-Quiet s key headers (gateway (gateway_error t)) =
    Quiet-bind _ _ (compensate_and_fail-Quiet s headers) (λ _. Quiet-raise _)
confirm_failed-Quiet s key headers (gateway (upstream_error k p)) =
    Quiet-bind _ _ (compensate_and_fail-Quiet s headers) (λ _. Quiet-raise _)
confirm_failed-Quiet s key headers (saga order_status_unknown) =
    Quiet-bind _ _ (session_save-Quiet _)
      (λ _. Quiet-bind _ _ (count_metric-Quiet _) (λ _. Quiet-raise _))
confirm_failed-Quiet s key headers (saga _) = Quiet-raise _
confirm_failed-Quiet s key headers validation_failure = Quiet-raise _

complete_found-Quiet :
    (s : CheckoutSession) (key : String) (headers : ObservabilityHeaders) (o : Option OrderResponse)
    → Quiet sent (complete_found s key headers o)
complete_found-Quiet s key headers none = Quiet-raise _
complete_found-Quiet s key headers (some o) = complete_order_after_create-Quiet s o.id key headers _

pub resolve_existing_order_attempt-Quiet :
    (s : CheckoutSession) (key : String) (headers : ObservabilityHeaders)
    → Quiet sent (resolve_existing_order_attempt s key headers)
unfolding resolve_existing_order_attempt
resolve_existing_order_attempt-Quiet s key headers =
    Quiet-bind _ _
      (Quiet-catch _ _
        (external-Quiet _
          (λ w. find_order_by_reference-Quiet w.ecops s.correlation_id headers default_retries))
        lookup_unknown-Quiet)
      (complete_found-Quiet s key headers)

replay_with-Quiet :
    (s : CheckoutSession) (key : String) (headers : ObservabilityHeaders)
    → Quiet sent (replay_with s key headers)
replay_with-Quiet s key headers = Quiet-if _ _ _ (retry_fulfill_pending-Quiet s key headers _) (
    Quiet-bind _ _ (Quiet-if _ _ _ (fulfill_held-Quiet s headers) (Quiet-pure _))
      (λ _. Quiet-pure _))

pub apply_cached-Quiet :
    (takes_over : SessionState → Bool) (r : IdempotencyRecord) (s : CheckoutSession)
    → Quiet sent (apply_cached takes_over r s)
unfolding apply_cached
apply_cached-Quiet takes_over r s = Quiet-if _ _ _ (session_save-Quiet _) (Quiet-pure _)

pub confirm_cached-Quiet :
    (i : Uuid) (r : IdempotencyRecord) (key : String) (headers : ObservabilityHeaders)
    → Quiet sent (confirm_cached i r key headers)
unfolding confirm_cached
confirm_cached-Quiet i r key headers =
    Quiet-bind _ _ (require_session-Quiet i) (λ found.
      Quiet-bind _ _ (apply_cached-Quiet _ r found) (λ s. replay_with-Quiet s key headers))
