-- ===== src/Saga/Posts/Confirm.antt =====
-- How many orders `confirm` of src/saga/coordinator.py posts.
use ihms_oms.Prelude.{◌≤◌, String, false, Option, none, some, ◌≡◌, leb}
use ihms_oms.Session.Models.{Uuid, Timestamp, CheckoutSession}
use ihms_oms.Gateway.Models.{ObservabilityHeaders, Env}
use ihms_oms.Gateway.Errors.{saga, hold_expired}
use ihms_oms.Effect.{pure, ◌>>=◌, now, raise_if}
use ihms_oms.Effect.Counting.{
  Quiet, Once, Quiet-Once, Once-if, Quiet-if, Quiet-bind, Quiet-pure, Quiet-raise, Quiet-raise_if,
  Quiet-or_raise, Quiet-lift_result, Once-bind_last, Once-bind_first, Once-catch,
}
use ihms_oms.Saga.Idempotency
use ihms_oms.Saga.Idempotency.{IdempotencyRecord}
use ihms_oms.Saga.World.{World, external, require_session, idempotency_get, session_get}
use ihms_oms.Saga.Posts.Creation.{find_or_create-Once}
use ihms_oms.Saga.Posts.Endings.{
  sent, now-Quiet, external-Quiet, external-Once, idempotency_get-Quiet, require_session-Quiet,
  complete_order_after_create-Quiet, retry_fulfill_pending-Quiet, confirm_failed-Quiet,
  resolve_existing_order_attempt-Quiet, confirm_cached-Quiet,
}
use ihms_oms.Saga.Coordinator.Confirm.{
  assert_hold_not_expired, customer_or_raise, confirm_first, confirm_again, confirm_held,
  confirm_uncached, confirm_with, confirm,
}
use ihms_oms.Saga.Machine.{Stored}

expiry-Quiet :
    (o : Option Timestamp)
    → Quiet sent (elim o [
      | none ↦ pure tt
      | some t ↦ (do time ← external (λ w. now); raise_if (leb t time) (saga (hold_expired none)))
    ])
expiry-Quiet none = Quiet-pure _
expiry-Quiet (some t) =
    Quiet-bind _ _ (external-Quiet _ (λ w. now-Quiet)) (λ time. Quiet-raise_if _ _)

assert_hold_not_expired-Quiet : (s : CheckoutSession) → Quiet sent (assert_hold_not_expired s)
unfolding assert_hold_not_expired
assert_hold_not_expired-Quiet s = expiry-Quiet s.expires_at

customer_or_raise-Quiet : (o : Option String) → Quiet sent (customer_or_raise o)
customer_or_raise-Quiet o = Quiet-if _ _ _ (Quiet-or_raise o _) (Quiet-raise _)

module _ (headers : ObservabilityHeaders) where
  confirm_first-Once :
      (s : CheckoutSession) (customer : Option String) (key : String)
      → Once sent (confirm_first s customer key headers)
  unfolding confirm_first
  confirm_first-Once s customer key = Once-bind_last _ _ (Quiet-raise_if _ _) (λ _.
      Once-bind_last _ _ (assert_hold_not_expired-Quiet s) (λ _.
        Once-bind_last _ _ (customer_or_raise-Quiet _) (λ c.
          Once-bind_last _ _ (Quiet-lift_result _) (λ payload.
            Once-catch _ _
              (Once-bind_first _ _
                (external-Once _
                  (λ w. find_or_create-Once w.ecops s.correlation_id headers payload key))
                (λ placed. complete_order_after_create-Quiet s (placed.0).id key headers placed.1))
              (confirm_failed-Quiet s key headers)))))

  confirm_again-Quiet :
      (k : String) (s : CheckoutSession) (key : String) → Quiet sent (confirm_again k s key headers)
  confirm_again-Quiet k s key =
      Quiet-if _ _ _ (resolve_existing_order_attempt-Quiet s key headers) (Quiet-raise _)

  confirm_held-Once :
      (o : Option String) (s : CheckoutSession) (customer : Option String) (key : String)
      → Once sent (confirm_held o s customer key headers)
  confirm_held-Once none s customer key = confirm_first-Once s customer key
  confirm_held-Once (some k) s customer key = Quiet-Once _ (confirm_again-Quiet k s key)

  confirm_uncached-Once :
      (s : CheckoutSession) (customer : Option String) (key : String)
      → Once sent (confirm_uncached s customer key headers)
  unfolding confirm_uncached
  confirm_uncached-Once s customer key =
      Once-if _ _ _
        (Quiet-Once _
          (Quiet-if _ _ _ (retry_fulfill_pending-Quiet s key headers false) (Quiet-raise _)))
        (Once-if _ _ _ (Quiet-Once _ (Quiet-raise _))
          (confirm_held-Once s.idempotency_key s customer key))

  confirm_with-Once :
      (o : Option IdempotencyRecord) (i : Uuid) (customer : Option String) (key : String)
      → Once sent (confirm_with o i customer key headers)
  confirm_with-Once (some r) i customer key = Quiet-Once _ (confirm_cached-Quiet i r key headers)
  confirm_with-Once none i customer key =
      Once-bind_last _ _ (require_session-Quiet i) (λ s. confirm_uncached-Once s customer key)

  pub confirm-Once :
      (i : Uuid) (customer : Option String) (key : String)
      → Once sent (confirm i customer key headers)
  unfolding confirm
  confirm-Once i customer key =
      Once-bind_last _ _ (idempotency_get-Quiet i key) (λ o. confirm_with-Once o i customer key)

  confirm_held-Quiet :
      (o : Option String) (k : String) (s : CheckoutSession) (customer : Option String)
      (key : String)
      → o ≡ some k
      → Quiet sent (confirm_held o s customer key headers)
  confirm_held-Quiet none k s customer key q = cc
  confirm_held-Quiet (some k') k s customer key q = confirm_again-Quiet k' s key

  confirm_keyed-Quiet :
      (s : CheckoutSession) (k : String) (customer : Option String) (key : String)
      → s.idempotency_key ≡ some k
      → Quiet sent (confirm_uncached s customer key headers)
  unfolding confirm_uncached
  confirm_keyed-Quiet s k customer key q =
      Quiet-if _ _ _
        (Quiet-if _ _ _ (retry_fulfill_pending-Quiet s key headers false) (Quiet-raise _))
        (Quiet-if _ _ _ (Quiet-raise _) (confirm_held-Quiet s.idempotency_key k s customer key q))

  confirm_with-sent :
      (o : Option IdempotencyRecord) (i : Uuid) (s : CheckoutSession) (k : String)
      (customer : Option String) (key : String) (e : Env) (w : World)
      → Stored w.store i s
      → s.idempotency_key ≡ some k
      → sent (confirm_with o i customer key headers e w).1 ≤ sent w
  unfolding require_session session_get ◌>>=◌
  confirm_with-sent (some r) i s k customer key e w stored q =
      (confirm_cached-Quiet i r key headers).at e w
  confirm_with-sent none i s k customer key e w stored q =
      rw stored ((confirm_keyed-Quiet s k customer key q).at e w)

  -- A `confirm` of a stored session that has an idempotency key posts no order, whatever key it brings
  -- and whatever the upstream services answer.
  pub confirm-posts_none :
      (i : Uuid) (s : CheckoutSession) (k : String) (customer : Option String) (key : String)
      (e : Env) (w : World)
      → Stored w.store i s
      → s.idempotency_key ≡ some k
      → sent (confirm i customer key headers e w).1 ≤ sent w
  unfolding confirm idempotency_get ◌>>=◌
  confirm-posts_none i s k customer key e w stored q =
      confirm_with-sent (Idempotency.get i key w.store.idempotency) i s k customer key e w stored q
