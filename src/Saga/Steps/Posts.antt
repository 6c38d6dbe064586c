-- ===== src/Saga/Steps/Posts.antt =====
-- The steps of the saga post no order.
use ihms_oms.Prelude.{ℕ, zero, suc, ◌+◌, ◌*◌, String, ◌≡◌, refl, Bool, false, Option, none, some}
use ihms_oms.Gateway.Models.{
  Call, get_orders, sleep, History, ObservabilityHeaders, OrderResponse, post_fulfill, delete_hold,
  as_dict,
}
use ihms_oms.Gateway.Errors.{
  gateway_error, gateway_timeout, upstream_error, hold_not_found, hold_conflict, GatewayError,
  Error, gateway, saga, validation_failure,
}
use ihms_oms.Gateway.Http.{request}
use ihms_oms.Gateway.Ihms.{IhmsClient, fulfill_hold, release_hold}
use ihms_oms.Gateway.Ecops.{EcOpsClient, list_orders, find_order_by_client_reference, auth_headers}
use ihms_oms.Effect.{Action, pure, ◌>>◌}
use ihms_oms.Effect.Counting.{
  Quiet, Quiet-if, Quiet-bind, Quiet-catch, Quiet-pure, Quiet-raise, Quiet-send, quiet_rules,
  Quiet-lift_result,
}
use ihms_oms.Saga.Posts.{is_post_order, posts}
use ihms_oms.Saga.Steps.{
  pause, or_next, release_failed, fulfill_failed, release_loop, fulfill_loop, release_attempt,
  fulfill_attempt, release_hold_safe, fulfill_hold_safe, find_order_by_reference, find_attempt,
  find_loop, after_lookup, Lookup, found, missing, timed_out, lookup_failed, raise_last,
  last_timeout,
}

pub request-Quiet : (c : Call) → is_post_order c ≡ false → Quiet posts (request c)
unfolding request
request-Quiet c h = search (quiet_rules, Quiet-send is_post_order c h)

pause-Quiet : (n : ℕ) → Quiet posts (pause n)
unfolding pause
pause-Quiet n = search (quiet_rules, Quiet-send is_post_order (sleep (50 * (n + 1))) refl)

or_next-Quiet :
    (o : Option Bool) (next : Action History Bool) → Quiet posts next → Quiet posts (or_next o next)
or_next-Quiet (some b) next q = Quiet-pure b
or_next-Quiet none next q = q

-- A pause, and then the next turn.
module _ (attempt : ℕ) where
  pause_next-Quiet : Quiet {A = Option Bool} posts (do pause attempt; pure none)
  pause_next-Quiet = Quiet-bind _ _ (pause-Quiet attempt) (λ _. Quiet-pure none)

  release_failed-Quiet : (m : ℕ) (x : Error) → Quiet posts (release_failed attempt m x)
  unfolding release_failed
  release_failed-Quiet m (gateway (upstream_error hold_not_found p)) = Quiet-pure _
  release_failed-Quiet m (gateway (upstream_error hold_conflict p)) = Quiet-pure _
  release_failed-Quiet m (gateway (upstream_error _ p)) = Quiet-raise _
  release_failed-Quiet m (gateway (gateway_timeout s)) =
      Quiet-if _ _ _ (Quiet-pure _) pause_next-Quiet
  release_failed-Quiet m (gateway (gateway_error s)) = Quiet-raise _
  release_failed-Quiet m (saga x) = Quiet-raise _
  release_failed-Quiet m validation_failure = Quiet-raise _

  fulfill_failed-Quiet : (m : ℕ) (x : Error) → Quiet posts (fulfill_failed attempt m x)
  unfolding fulfill_failed
  fulfill_failed-Quiet m (gateway (upstream_error hold_not_found p)) = Quiet-pure _
  fulfill_failed-Quiet m (gateway (upstream_error hold_conflict p)) = Quiet-pure _
  fulfill_failed-Quiet m (gateway (upstream_error _ p)) = Quiet-pure _
  fulfill_failed-Quiet m (gateway (gateway_timeout s)) =
      Quiet-if _ _ _ (Quiet-pure _) pause_next-Quiet
  fulfill_failed-Quiet m (gateway (gateway_error s)) = Quiet-pure _
  fulfill_failed-Quiet m (saga x) = Quiet-raise _
  fulfill_failed-Quiet m validation_failure = Quiet-raise _

  lookup_failed-Quiet : (m : ℕ) (x : Error) → Quiet posts (lookup_failed attempt m x)
  unfolding lookup_failed
  lookup_failed-Quiet m (gateway (gateway_timeout s)) =
      Quiet-if _ _ _ (Quiet-raise _) (Quiet-pure _)
  lookup_failed-Quiet m (gateway (gateway_error s)) = Quiet-raise _
  lookup_failed-Quiet m (gateway (upstream_error k p)) = Quiet-raise _
  lookup_failed-Quiet m (saga x) = Quiet-raise _
  lookup_failed-Quiet m validation_failure = Quiet-raise _

module _ (ihms : IhmsClient) (hold_id : String) (headers : ObservabilityHeaders) where
  release_hold-Quiet : Quiet posts (release_hold ihms hold_id headers)
  unfolding release_hold
  release_hold-Quiet =
      Quiet-bind _ _ (request-Quiet (delete_hold hold_id (as_dict headers)) refl)
        (λ r. Quiet-lift_result _)

  fulfill_hold-Quiet : Quiet posts (fulfill_hold ihms hold_id headers)
  unfolding fulfill_hold
  fulfill_hold-Quiet =
      Quiet-bind _ _ (request-Quiet (post_fulfill hold_id (as_dict headers)) refl) (λ r.
        Quiet-if _ _ _ (Quiet-pure _) (
          Quiet-bind _ _ (Quiet-lift_result _)
            (λ _. Quiet-if _ _ _ (Quiet-pure _) (Quiet-lift_result _))))

  release_loop-Quiet :
      (rounds attempt m : ℕ) → Quiet posts (release_loop ihms hold_id headers rounds attempt m)
  unfolding release_loop release_attempt
  release_loop-Quiet zero attempt m = Quiet-pure _
  release_loop-Quiet (suc rounds) attempt m =
      Quiet-bind _ _
        (Quiet-catch _ _ (Quiet-bind _ _ release_hold-Quiet (λ _. Quiet-pure _))
          (release_failed-Quiet attempt m))
        (λ o. or_next-Quiet o _ (release_loop-Quiet rounds (attempt + 1) m))

  pub release_hold_safe-Quiet : (m : ℕ) → Quiet posts (release_hold_safe ihms hold_id headers m)
  unfolding release_hold_safe
  release_hold_safe-Quiet m = release_loop-Quiet (suc m) 0 m

  fulfill_loop-Quiet :
      (rounds attempt m : ℕ) → Quiet posts (fulfill_loop ihms hold_id headers rounds attempt m)
  unfolding fulfill_loop fulfill_attempt
  fulfill_loop-Quiet zero attempt m = Quiet-pure _
  fulfill_loop-Quiet (suc rounds) attempt m =
      Quiet-bind _ _
        (Quiet-catch _ _ (Quiet-bind _ _ fulfill_hold-Quiet (λ _. Quiet-pure _))
          (fulfill_failed-Quiet attempt m))
        (λ o. or_next-Quiet o _ (fulfill_loop-Quiet rounds (attempt + 1) m))

  pub fulfill_hold_safe-Quiet : (m : ℕ) → Quiet posts (fulfill_hold_safe ihms hold_id headers m)
  unfolding fulfill_hold_safe
  fulfill_hold_safe-Quiet m = fulfill_loop-Quiet (suc m) 0 m

module _ (ecops : EcOpsClient) (ref : String) (headers : ObservabilityHeaders) where
  find_by_reference-Quiet : Quiet posts (find_order_by_client_reference ecops ref headers)
  unfolding find_order_by_client_reference list_orders
  find_by_reference-Quiet =
      Quiet-bind _ _
        (Quiet-bind _ _
          (request-Quiet (get_orders none (some ref) (auth_headers ecops headers)) refl)
          (λ r. Quiet-bind _ _ (Quiet-lift_result _) (λ _. Quiet-lift_result _)))
        (λ found. Quiet-pure _)

  after_lookup-Quiet :
      (a : Lookup) (wait : Action History (Unit {0})) (next : Action History (Option OrderResponse))
      → Quiet posts wait
      → Quiet posts next
      → Quiet posts (after_lookup ecops ref headers a wait next)
  after_lookup-Quiet (found o) wait next qw qn = Quiet-pure _
  after_lookup-Quiet missing wait next qw qn = Quiet-bind _ _ qw (λ _. qn)
  after_lookup-Quiet (timed_out x) wait next qw qn = Quiet-bind _ _ qw (λ _. qn)

  raise_last-Quiet : (o : Option GatewayError) → Quiet posts (raise_last o)
  raise_last-Quiet none = Quiet-pure _
  raise_last-Quiet (some x) = Quiet-raise _

  find_loop-Quiet :
      (rounds attempt m : ℕ) (last : Option GatewayError)
      → Quiet posts (find_loop ecops ref headers rounds attempt m last)
  unfolding find_loop find_attempt
  find_loop-Quiet zero attempt m last = raise_last-Quiet last
  find_loop-Quiet (suc rounds) attempt m last =
      Quiet-bind _ _
        (Quiet-catch _ _ (Quiet-bind _ _ find_by_reference-Quiet (λ o. Quiet-pure _))
          (lookup_failed-Quiet attempt m))
        (λ a.
          after_lookup-Quiet a _ _ (Quiet-if _ _ _ (pause-Quiet attempt) (Quiet-pure _))
            (find_loop-Quiet rounds (attempt + 1) m (last_timeout a)))

  pub find_order_by_reference-Quiet :
      (m : ℕ) → Quiet posts (find_order_by_reference ecops ref headers m)
  unfolding find_order_by_reference
  find_order_by_reference-Quiet m = find_loop-Quiet (suc m) 0 m none
