-- ===== src/Saga/Steps/Settle.antt =====
-- What `fulfill_hold_safe` of src/saga/steps/finalize.py has seen when it reports a hold as finalised.
use ihms_oms.Prelude.{
  ℕ, zero, suc, ◌+◌, String, ◌≡◌, refl, Bool, true, false, Option, none, some, arith, nat_beq, ◌||◌,
  ◌∷◌,
}
use ihms_oms.Gateway.Models.{
  ObservabilityHeaders, Reply, response, History, Env, post_fulfill, as_dict,
}
use ihms_oms.Gateway.Errors.{Result, ok, err}
use ihms_oms.Gateway.Http.{request, is_success, raise_for_ihms_response}
use ihms_oms.Gateway.Ihms.{IhmsClient, fulfill_hold}
use ihms_oms.Effect.{Action, pure, continue, ◌>>=◌, catch, send}
use ihms_oms.Saga.Steps.{
  or_next, pause, fulfill_failed, fulfill_attempt, fulfill_loop, fulfill_hold_safe,
}

-- An answer after which the hold is not waiting any more: a success, 404 or 409.
abbrev pub settled : Reply → Bool
settled (response r) = is_success r || nat_beq r.status_code 404 || nat_beq r.status_code 409
settled _ = false

module _ (ihms : IhmsClient) (hold_id : String) (headers : ObservabilityHeaders) (e : Env) where
  -- The last call was the request to fulfil the hold, and its answer says that the hold is settled.
  abbrev pub Settled : History → Type 0
  Settled h =
      (h₀ : History) × (h ≡ post_fulfill hold_id (as_dict headers) ∷ h₀)
      × (settled (e.reply h₀ (post_fulfill hold_id (as_dict headers))) ≡ true)

  fulfill_attempt-Settled :
      (attempt m : ℕ) (h : History)
      → (fulfill_attempt ihms hold_id headers attempt m e h).0 ≡ ok (some true)
      → settled (e.reply h (post_fulfill hold_id (as_dict headers))) ≡ true
  unfolding fulfill_attempt fulfill_hold request send catch ◌>>=◌ raise_for_ihms_response
      fulfill_failed pause
  fulfill_attempt-Settled attempt m h q = ground arith

  fulfill_attempt-last :
      (attempt m : ℕ) (h : History)
      → (fulfill_attempt ihms hold_id headers attempt m e h).0 ≡ ok (some true)
      → (fulfill_attempt ihms hold_id headers attempt m e h).1
        ≡ post_fulfill hold_id (as_dict headers) ∷ h
  unfolding fulfill_attempt fulfill_hold request send catch ◌>>=◌ raise_for_ihms_response
      fulfill_failed pause
  fulfill_attempt-last attempt m h q = ground arith

  next-Settled :
      (next : Action History Bool)
      → ((h : History) → (next e h).0 ≡ ok true → Settled (next e h).1)
      → (r : Result (Option Bool)) (h : History) → (r ≡ ok (some true) → Settled h)
      → (continue r (λ decided. or_next decided next) e h).0 ≡ ok true
      → Settled (continue r (λ decided. or_next decided next) e h).1
  unfolding pure
  next-Settled next n (ok (some true)) h rel q = rel refl
  next-Settled next n (ok (some false)) h rel q = cc
  next-Settled next n (ok none) h rel q = n h q
  next-Settled next n (err x) h rel q = cc

  fulfill_loop-Settled :
      (rounds attempt m : ℕ) (h : History)
      → (fulfill_loop ihms hold_id headers rounds attempt m e h).0 ≡ ok true
      → Settled (fulfill_loop ihms hold_id headers rounds attempt m e h).1
  unfolding fulfill_loop ◌>>=◌
  fulfill_loop-Settled zero attempt m h q = cc
  fulfill_loop-Settled (suc rounds) attempt m h q =
      next-Settled (fulfill_loop ihms hold_id headers rounds (attempt + 1) m)
        (fulfill_loop-Settled rounds (attempt + 1) m)
        (fulfill_attempt ihms hold_id headers attempt m e h).0
        (fulfill_attempt ihms hold_id headers attempt m e h).1
        (λ p. (h, fulfill_attempt-last attempt m h p, fulfill_attempt-Settled attempt m h p)) q

  -- Where `fulfill_hold_safe` returns true, the last call was the request to fulfil the hold, and IHMS
  -- answered it with a success, 404 or 409.
  pub fulfill_hold_safe-Settled :
      (m : ℕ) (h : History)
      → (fulfill_hold_safe ihms hold_id headers m e h).0 ≡ ok true
      → Settled (fulfill_hold_safe ihms hold_id headers m e h).1
  unfolding fulfill_hold_safe
  fulfill_hold_safe-Settled m h q = fulfill_loop-Settled (suc m) 0 m h q
