-- ===== src/Saga/Released.antt =====
-- A hold that the saga gives up, in `abandon` and in `_compensate_and_fail_locked` of
-- src/saga/coordinator.py, is one that IHMS has let go.
use ihms_oms.Prelude.{◌≡◌, refl, sym, subst, true, arith, truthy?, ◌⊎◌, inl, inr}
use ihms_oms.Session.Models.{Uuid, held, CheckoutSession}
use ihms_oms.Gateway.Models.{ObservabilityHeaders, Env}
use ihms_oms.Gateway.Errors.{Result, ok, err, Error}
use ihms_oms.Effect.{◌>>=◌}
use ihms_oms.Saga.World.{World, external, require_session, session_get, session_save, count_metric}
use ihms_oms.Saga.Steps.Release.{Released, release_hold_safe-Released}
use ihms_oms.Saga.Coordinator.Outcomes.{
  release_held, hold_text, compensate_and_fail, default_retries,
}
use ihms_oms.Saga.Coordinator.Confirm.{abandon}
use ihms_oms.Saga.Machine.{Stored}

Result-cases : (r : Result (Unit {0})) → (r ≡ ok tt) ⊎ ((x : Error) × (r ≡ err x))
Result-cases (ok tt) = inl refl
Result-cases (err x) = inr (x, refl)

module _ (headers : ObservabilityHeaders) (e : Env) (w : World) (s : CheckoutSession) where
  release_held-Released :
      (release_held s headers e w).0 ≡ ok true
      → Released w.ihms (hold_text s.hold_id) headers e (release_held s headers e w).1.history
  unfolding release_held external
  release_held-Released q =
      release_hold_safe-Released w.ihms (hold_text s.hold_id) headers e default_retries w.history q

  -- Where `abandon` of a held session with a hold returns, its last call was the DELETE of the hold, and
  -- IHMS answered it with a success, 404 or 409.
  pub abandon-Released :
      (i : Uuid) (t : CheckoutSession)
      → Stored w.store i s
      → s.state ≡ held
      → truthy? s.hold_id ≡ true
      → (abandon i headers e w).0 ≡ ok t
      → Released w.ihms (hold_text s.hold_id) headers e (abandon i headers e w).1.history
  unfolding abandon require_session session_get ◌>>=◌ session_save count_metric
  abandon-Released i t stored is_held has_hold q = ground (arith, release_held-Released)

  release_held-store : (release_held s headers e w).1.store ≡ w.store
  unfolding release_held external
  release_held-store = refl

  compensate_and_fail-returns :
      truthy? s.hold_id ≡ true
      → (compensate_and_fail s headers e w).0 ≡ ok tt
      → Released w.ihms
          (hold_text s.hold_id)
          headers
          e
          (compensate_and_fail s headers e w).1.history
  unfolding compensate_and_fail ◌>>=◌ session_save count_metric
  compensate_and_fail-returns has_hold q = ground (arith, release_held-Released)

  compensate_and_fail-raises :
      (x : Error)
      → (compensate_and_fail s headers e w).0 ≡ err x
      → (compensate_and_fail s headers e w).1.store ≡ w.store
  unfolding compensate_and_fail ◌>>=◌ session_save count_metric
  compensate_and_fail-raises x q = ground (arith, release_held-store)

  -- A compensation ends with the hold gone, or with the store as it was.
  abbrev pub Compensated : Result (Unit {0}) → World → Type 0
  Compensated (ok _) w' = Released w.ihms (hold_text s.hold_id) headers e w'.history
  Compensated (err x) w' = w'.store ≡ w.store

  -- The compensation of a session with a hold either returns, and then its last call was the DELETE of
  -- the hold, answered by IHMS with a success, 404 or 409; or it raises, and then the store is as it was.
  pub compensate_and_fail-Compensated :
      truthy? s.hold_id ≡ true → let (a, w') = compensate_and_fail s headers e w in Compensated a w'
  compensate_and_fail-Compensated has_hold =
      elim (Result-cases (compensate_and_fail s headers e w).0) [
        | inl p ↦
            subst (λ a. Compensated a (compensate_and_fail s headers e w).1) (sym p)
              (compensate_and_fail-returns has_hold p)
        | inr (x, p) ↦
            subst (λ a. Compensated a (compensate_and_fail s headers e w).1) (sym p)
              (compensate_and_fail-raises x p)
      ]
