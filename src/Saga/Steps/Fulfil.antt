-- ===== src/Saga/Steps/Fulfil.antt =====
-- What `fulfill_hold_safe` can raise.
use ihms_oms.Prelude.{
  ℕ, zero, suc, ◌+◌, String, ◌≡◌, refl, Bool, true, false, Option, none, some, arith,
}
use ihms_oms.Gateway.Models.{ObservabilityHeaders, Response, History, Env}
use ihms_oms.Gateway.Errors.{
  hold_not_found, hold_conflict, upstream_error, gateway_error, gateway_timeout, Error, gateway,
  saga, Result, ok, err, validation_failure,
}
use ihms_oms.Gateway.Ihms.{IhmsClient, fulfill_hold}
use ihms_oms.Gateway.Http.{raise_for_ihms_response}
use ihms_oms.Effect.{Action, pure, continue, recover, ◌>>=◌, catch}
use ihms_oms.Saga.Steps.{or_next, fulfill_failed, fulfill_attempt, fulfill_loop, fulfill_hold_safe}

-- What the gateways raise is no exception of the saga.
abbrev from_gateway : Error → Bool
from_gateway (saga _) = false
from_gateway _ = true

abbrev raised : {A : Type 0} → Result A → Bool
raised (ok _) = true
raised (err x) = from_gateway x

raise_for-raised : (r : Response) → raised (raise_for_ihms_response r) ≡ true
unfolding raise_for_ihms_response
raise_for-raised r = ground arith

fulfill_hold-raised :
    (ihms : IhmsClient) (hold_id : String) (headers : ObservabilityHeaders) (e : Env) (h : History)
    → raised (fulfill_hold ihms hold_id headers e h).0 ≡ true
unfolding fulfill_hold ◌>>=◌
fulfill_hold-raised ihms hold_id headers e h = grind (arith, raise_for-raised)

-- The error that a handler of the loop lets through.
abbrev pub OnlyValidation : {A : Type 0} → Result A → Type 0
OnlyValidation (ok _) = Unit
OnlyValidation (err x) = x ≡ validation_failure

fulfill_failed-raises :
    (attempt max_retries : ℕ) (x : Error) (e : Env) (h : History)
    → from_gateway x ≡ true
    → OnlyValidation (fulfill_failed attempt max_retries x e h).0
unfolding fulfill_failed ◌>>=◌
fulfill_failed-raises attempt max_retries (gateway (upstream_error hold_not_found p)) e h q = tt
fulfill_failed-raises attempt max_retries (gateway (upstream_error hold_conflict p)) e h q = tt
fulfill_failed-raises attempt max_retries (gateway (upstream_error _ p)) e h q = tt
fulfill_failed-raises attempt max_retries (gateway (gateway_timeout t)) e h q = ground arith
fulfill_failed-raises attempt max_retries (gateway (gateway_error t)) e h q = tt
fulfill_failed-raises attempt max_retries (saga x) e h q = cc
fulfill_failed-raises attempt max_retries validation_failure e h q = refl

module _ (ihms : IhmsClient) (hold_id : String) (headers : ObservabilityHeaders) where
  recover-raises :
      {A : Type 0} (attempt max_retries : ℕ) (e : Env) (r : Result A) (h : History)
      → raised r ≡ true
      → let (r', h') = continue r (λ _. pure (some true)) e h in
        OnlyValidation (recover r' (fulfill_failed attempt max_retries) e h').0
  unfolding pure
  recover-raises attempt max_retries e (ok a) h q = tt
  recover-raises attempt max_retries e (err x) h q =
      fulfill_failed-raises attempt max_retries x e h q

  fulfill_attempt-raises :
      (attempt max_retries : ℕ) (e : Env) (h : History)
      → OnlyValidation (fulfill_attempt ihms hold_id headers attempt max_retries e h).0
  unfolding fulfill_attempt ◌>>=◌ catch
  fulfill_attempt-raises attempt max_retries e h =
      recover-raises attempt max_retries e (fulfill_hold ihms hold_id headers e h).0
        (fulfill_hold ihms hold_id headers e h).1 (fulfill_hold-raised ihms hold_id headers e h)

  next-raises :
      (next : Action History Bool) (e : Env)
      → ((h : History) → OnlyValidation (next e h).0)
      → (r : Result (Option Bool)) (h : History) → OnlyValidation r
      → OnlyValidation (continue r (λ decided. or_next decided next) e h).0
  unfolding pure
  next-raises next e n (ok (some b)) h q = tt
  next-raises next e n (ok none) h q = n h
  next-raises next e n (err x) h q = q

  fulfill_loop-raises :
      (rounds attempt max_retries : ℕ) (e : Env) (h : History)
      → OnlyValidation (fulfill_loop ihms hold_id headers rounds attempt max_retries e h).0
  unfolding fulfill_loop ◌>>=◌
  fulfill_loop-raises zero attempt max_retries e h = tt
  fulfill_loop-raises (suc rounds) attempt max_retries e h =
      next-raises (fulfill_loop ihms hold_id headers rounds (attempt + 1) max_retries) e
        (fulfill_loop-raises rounds (attempt + 1) max_retries e)
        (fulfill_attempt ihms hold_id headers attempt max_retries e h).0
        (fulfill_attempt ihms hold_id headers attempt max_retries e h).1
        (fulfill_attempt-raises attempt max_retries e h)

  -- Whatever IHMS answers, finalising a hold raises nothing but the failure of a response to
  -- validate: timeouts, connection failures and error statuses end in true or false.
  pub fulfill_hold_safe-raises :
      (max_retries : ℕ) (e : Env) (h : History)
      → OnlyValidation (fulfill_hold_safe ihms hold_id headers max_retries e h).0
  unfolding fulfill_hold_safe
  fulfill_hold_safe-raises max_retries e h = fulfill_loop-raises (suc max_retries) 0 max_retries e h
