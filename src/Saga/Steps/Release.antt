-- ===== src/Saga/Steps/Release.antt =====
-- What `release_hold_safe` of src/saga/steps/compensate.py has seen when it reports a hold as gone.
use ihms_oms.Prelude.{
  ℕ, zero, suc, ◌+◌, String, ◌≡◌, refl, Bool, true, false, Option, none, some, arith, nat_beq, ◌||◌,
  ◌∷◌,
}
use ihms_oms.Gateway.Models.{
  ObservabilityHeaders, Reply, response, History, Env, delete_hold, as_dict,
}
use ihms_oms.Gateway.Errors.{Result, ok, err}
use ihms_oms.Gateway.Http.{request, is_success, raise_for_ihms_response}
use ihms_oms.Gateway.Ihms.{IhmsClient, release_hold}
use ihms_oms.Effect.{Action, pure, continue, ◌>>=◌, catch, send}
use ihms_oms.Saga.Steps.{
  or_next, pause, release_failed, release_attempt, release_loop, release_hold_safe,
}

-- An answer to DELETE after which IHMS keeps no hold: a success, 404 or 409.
abbrev pub gone : Reply → Bool
gone (response r) = is_success r || nat_beq r.status_code 404 || nat_beq r.status_code 409
gone _ = false

module _ (ihms : IhmsClient) (hold_id : String) (headers : ObservabilityHeaders) (e : Env) where
  -- The last call was the DELETE of the hold, and its answer says that the hold is gone.
  abbrev pub Released : History → Type 0
  Released h =
      (h₀ : History) × (h ≡ delete_hold hold_id (as_dict headers) ∷ h₀)
      × (gone (e.reply h₀ (delete_hold hold_id (as_dict headers))) ≡ true)

  release_attempt-Released :
      (attempt m : ℕ) (h : History)
      → (release_attempt ihms hold_id headers attempt m e h).0 ≡ ok (some true)
      → gone (e.reply h (delete_hold hold_id (as_dict headers))) ≡ true
  unfolding release_attempt release_hold request send catch ◌>>=◌ raise_for_ihms_response
      release_failed pause
  release_attempt-Released attempt m h q = ground arith

  release_attempt-last :
      (attempt m : ℕ) (h : History)
      → (release_attempt ihms hold_id headers attempt m e h).0 ≡ ok (some true)
      → (release_attempt ihms hold_id headers attempt m e h).1
        ≡ delete_hold hold_id (as_dict headers) ∷ h
  unfolding release_attempt release_hold request send catch ◌>>=◌ raise_for_ihms_response
      release_failed pause
  release_attempt-last attempt m h q = ground arith

  next-Released :
      (next : Action History Bool)
      → ((h : History) → (next e h).0 ≡ ok true → Released (next e h).1)
      → (r : Result (Option Bool)) (h : History) → (r ≡ ok (some true) → Released h)
      → (continue r (λ decided. or_next decided next) e h).0 ≡ ok true
      → Released (continue r (λ decided. or_next decided next) e h).1
  unfolding pure
  next-Released next n (ok (some true)) h rel q = rel refl
  next-Released next n (ok (some false)) h rel q = cc
  next-Released next n (ok none) h rel q = n h q
  next-Released next n (err x) h rel q = cc

  release_loop-Released :
      (rounds attempt m : ℕ) (h : History)
      → (release_loop ihms hold_id headers rounds attempt m e h).0 ≡ ok true
      → Released (release_loop ihms hold_id headers rounds attempt m e h).1
  unfolding release_loop ◌>>=◌
  release_loop-Released zero attempt m h q = cc
  release_loop-Released (suc rounds) attempt m h q =
      next-Released (release_loop ihms hold_id headers rounds (attempt + 1) m)
        (release_loop-Released rounds (attempt + 1) m)
        (release_attempt ihms hold_id headers attempt m e h).0
        (release_attempt ihms hold_id headers attempt m e h).1
        (λ p. (h, release_attempt-last attempt m h p, release_attempt-Released attempt m h p)) q

  -- Where `release_hold_safe` returns true, the last call was the DELETE of the hold, and IHMS answered
  -- it with a success, 404 or 409.
  pub release_hold_safe-Released :
      (m : ℕ) (h : History)
      → (release_hold_safe ihms hold_id headers m e h).0 ≡ ok true
      → Released (release_hold_safe ihms hold_id headers m e h).1
  unfolding release_hold_safe
  release_hold_safe-Released m h q = release_loop-Released (suc m) 0 m h q
