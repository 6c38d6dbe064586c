-- ===== src/Saga/Steps/Rounds.antt =====
-- How often the loops of src/saga/steps/compensate.py and finalize.py call IHMS.
use ihms_oms.Prelude.{
  ℕ, zero, suc, ◌+◌, ◌*◌, ◌≤◌, String, ◌≡◌, refl, Bool, true, false, Option, none, some, leb, arith,
  if◌then◌else◌,
}
use ihms_oms.Gateway.Models.{
  Call, delete_hold, post_fulfill, sleep, as_dict, ObservabilityHeaders, History, Env,
}
use ihms_oms.Gateway.Errors.{
  gateway_error, gateway_timeout, upstream_error, hold_not_found, hold_conflict, Error, gateway,
  saga, validation_failure,
}
use ihms_oms.Gateway.Http.{request}
use ihms_oms.Gateway.Ihms.{IhmsClient, release_hold, fulfill_hold}
use ihms_oms.Effect.{Action, pure, ◌>>◌}
use ihms_oms.Effect.Counting.{
  count, Quiet, Once, Quiet-if, Quiet-bind, Quiet-pure, Quiet-raise, Quiet-lift_result, Quiet-send,
  Once-send, Once-bind_first, Once-catch, bind-adds,
}
use ihms_oms.Saga.Steps.{
  pause, or_next, release_failed, release_attempt, release_loop, release_hold_safe, fulfill_failed,
  fulfill_attempt, fulfill_loop, fulfill_hold_safe,
}

abbrev pub is_delete_hold : Call → Bool
is_delete_hold (delete_hold _ _) = true
is_delete_hold _ = false

abbrev pub is_post_fulfill : Call → Bool
is_post_fulfill (post_fulfill _ _) = true
is_post_fulfill _ = false

-- A wait is none of the calls that are counted.
module _ (p : Call → Bool) (no_sleep : (n : ℕ) → p (sleep n) ≡ false) where
  pause-Quiet : (attempt : ℕ) → Quiet (count p) (pause attempt)
  unfolding pause
  pause-Quiet attempt =
      Quiet-bind _ _ (Quiet-send p (sleep (50 * (attempt + 1))) (no_sleep (50 * (attempt + 1))))
        (λ _. Quiet-pure _)

  wait-Quiet :
      (attempt m : ℕ)
      → Quiet {A = Option Bool}
          (count p)
          (if leb m attempt then pure (some false) else do pause attempt; pure none)
  wait-Quiet attempt m =
      Quiet-if _ _ _ (Quiet-pure _) (Quiet-bind _ _ (pause-Quiet attempt) (λ _. Quiet-pure none))

  release_failed-Quiet : (attempt m : ℕ) (x : Error) → Quiet (count p) (release_failed attempt m x)
  unfolding release_failed
  release_failed-Quiet attempt m (gateway (upstream_error hold_not_found p)) = Quiet-pure _
  release_failed-Quiet attempt m (gateway (upstream_error hold_conflict p)) = Quiet-pure _
  release_failed-Quiet attempt m (gateway (upstream_error _ p)) = Quiet-raise _
  release_failed-Quiet attempt m (gateway (gateway_timeout s)) = wait-Quiet attempt m
  release_failed-Quiet attempt m (gateway (gateway_error s)) = Quiet-raise _
  release_failed-Quiet attempt m (saga x) = Quiet-raise _
  release_failed-Quiet attempt m validation_failure = Quiet-raise _

  fulfill_failed-Quiet : (attempt m : ℕ) (x : Error) → Quiet (count p) (fulfill_failed attempt m x)
  unfolding fulfill_failed
  fulfill_failed-Quiet attempt m (gateway (upstream_error hold_not_found p)) = Quiet-pure _
  fulfill_failed-Quiet attempt m (gateway (upstream_error hold_conflict p)) = Quiet-pure _
  fulfill_failed-Quiet attempt m (gateway (upstream_error _ p)) = Quiet-pure _
  fulfill_failed-Quiet attempt m (gateway (gateway_timeout s)) = wait-Quiet attempt m
  fulfill_failed-Quiet attempt m (gateway (gateway_error s)) = Quiet-pure _
  fulfill_failed-Quiet attempt m (saga x) = Quiet-raise _
  fulfill_failed-Quiet attempt m validation_failure = Quiet-raise _

or_next-adds :
    (p : Call → Bool) (n : ℕ) (next : Action History Bool)
    → ((e : Env) (h : History) → count p (next e h).1 ≤ count p h + n)
    → (o : Option Bool) (e : Env) (h : History) → count p (or_next o next e h).1 ≤ count p h + n
unfolding pure
or_next-adds p n next q (some b) e h = omega arith
or_next-adds p n next q none e h = q e h

module _ (ihms : IhmsClient) (hold_id : String) (headers : ObservabilityHeaders) where
  release_attempt-Once :
      (attempt m : ℕ) → Once (count is_delete_hold) (release_attempt ihms hold_id headers attempt m)
  unfolding release_attempt release_hold request
  release_attempt-Once attempt m =
      Once-catch _ _
        (Once-bind_first _ _
          (Once-bind_first _ _
            (Once-bind_first _ _ (Once-send is_delete_hold (delete_hold hold_id (as_dict headers)))
              (λ reply. Quiet-lift_result _))
            (λ r. Quiet-lift_result _))
          (λ _. Quiet-pure _))
        (release_failed-Quiet is_delete_hold (λ n. refl) attempt m)

  release_loop-adds :
      (rounds attempt m : ℕ) (e : Env) (h : History)
      → count is_delete_hold (release_loop ihms hold_id headers rounds attempt m e h).1
        ≤ count is_delete_hold h + rounds
  unfolding release_loop pure
  release_loop-adds zero attempt m e h = omega arith
  release_loop-adds (suc rounds) attempt m e h =
      let step =
        bind-adds (count is_delete_hold) 1 rounds (release_attempt ihms hold_id headers attempt m)
          (λ o. or_next o (release_loop ihms hold_id headers rounds (attempt + 1) m))
          (release_attempt-Once attempt m).at
          (or_next-adds is_delete_hold rounds _ (release_loop-adds rounds (attempt + 1) m)) e h in
      omega (arith, step)

  -- Whatever IHMS answers, the release of a hold sends at most `max_retries + 1` DELETEs.
  pub release_hold_safe-rounds :
      (max_retries : ℕ) (e : Env) (h : History)
      → count is_delete_hold (release_hold_safe ihms hold_id headers max_retries e h).1
        ≤ count is_delete_hold h + (max_retries + 1)
  unfolding release_hold_safe
  release_hold_safe-rounds max_retries e h =
      let n = release_loop-adds (suc max_retries) 0 max_retries e h in omega (arith, n)

  fulfill_attempt-Once :
      (attempt m : ℕ)
      → Once (count is_post_fulfill) (fulfill_attempt ihms hold_id headers attempt m)
  unfolding fulfill_attempt fulfill_hold request
  fulfill_attempt-Once attempt m =
      Once-catch _ _
        (Once-bind_first _ _
          (Once-bind_first _ _
            (Once-bind_first _ _
              (Once-send is_post_fulfill (post_fulfill hold_id (as_dict headers)))
              (λ reply. Quiet-lift_result _))
            (λ r. Quiet-if _ _ _ (Quiet-pure _) (
              Quiet-bind _ _ (Quiet-lift_result _)
                (λ _. Quiet-if _ _ _ (Quiet-pure _) (Quiet-lift_result _)))))
          (λ _. Quiet-pure _))
        (fulfill_failed-Quiet is_post_fulfill (λ n. refl) attempt m)

  fulfill_loop-adds :
      (rounds attempt m : ℕ) (e : Env) (h : History)
      → count is_post_fulfill (fulfill_loop ihms hold_id headers rounds attempt m e h).1
        ≤ count is_post_fulfill h + rounds
  unfolding fulfill_loop pure
  fulfill_loop-adds zero attempt m e h = omega arith
  fulfill_loop-adds (suc rounds) attempt m e h =
      let step =
        bind-adds (count is_post_fulfill) 1 rounds (fulfill_attempt ihms hold_id headers attempt m)
          (λ o. or_next o (fulfill_loop ihms hold_id headers rounds (attempt + 1) m))
          (fulfill_attempt-Once attempt m).at
          (or_next-adds is_post_fulfill rounds _ (fulfill_loop-adds rounds (attempt + 1) m)) e h in
      omega (arith, step)

  -- Whatever IHMS answers, the finalisation of a hold sends at most `max_retries + 1` requests to
  -- fulfil it.
  pub fulfill_hold_safe-rounds :
      (max_retries : ℕ) (e : Env) (h : History)
      → count is_post_fulfill (fulfill_hold_safe ihms hold_id headers max_retries e h).1
        ≤ count is_post_fulfill h + (max_retries + 1)
  unfolding fulfill_hold_safe
  fulfill_hold_safe-rounds max_retries e h =
      let n = fulfill_loop-adds (suc max_retries) 0 max_retries e h in omega (arith, n)
