-- ===== src/Saga/Replay.antt =====
-- A request that is repeated with its key, in `place_order` and in `confirm`.
use ihms_oms.Prelude.{
  ℕ, String, ◌≡◌, refl, sym, ap, subst, if◌then◌else◌, ◌⊎◌, Bool, true, false, ◌||◌, Option, List,
  arith,
}
use ihms_oms.Session.Models.{Uuid, SessionState, CheckoutSession, terminal_state}
use ihms_oms.Gateway.Models.{ObservabilityHeaders, Env}
use ihms_oms.Gateway.Errors.{Result, ok, err, validation_failure}
use ihms_oms.Effect.{pure, ◌>>=◌}
use ihms_oms.Saga.Idempotency.{IdempotencyRecord}
use ihms_oms.Saga.Steps.Fulfil.{fulfill_hold_safe-raises}
use ihms_oms.Saga.World.{World, external, session_save, require_session, idempotency_get}
use ihms_oms.Saga.Coordinator.Outcomes.{
  ConfirmResult, is_some, apply_cached, cached_update, default_retries, hold_text, fulfill_held,
}
use ihms_oms.Saga.Coordinator.Confirm.{confirm_takes_over, confirm_cached, replay_with, confirm}
use ihms_oms.Saga.Coordinator.PlaceOrder.{order_takes_over, place_order_cached, place_order}
use ihms_oms.Saga.Machine.{Stored, Cached}
use ihms_oms.Saga.Machine.Consistent.{IsConsistent, store_session_same, cached_update_same}

module _ (w : World) (good : IsConsistent w.store) (i : Uuid) (key : String) (r : IdempotencyRecord)
    (s : CheckoutSession) where
  save_run : (e : Env) → Stored w.store i s → session_save s e w ≡ (ok s, w)
  unfolding session_save
  save_run e stored =
      ap (λ st. let v : World = record w { store = st } in (ok s, v))
        (store_session_same good i s stored)

  save_if :
      (takes_over : SessionState → Bool) (e : Env)
      → Cached w.store i key r
      → Stored w.store i s
      → (b : Bool)
      → (if b then session_save (cached_update takes_over r s) else pure s) e w ≡ (ok s, w)
  unfolding pure
  save_if takes_over e cached stored true =
      subst (λ s'. session_save s' e w ≡ (ok s, w))
        (sym (cached_update_same good i s takes_over key r stored cached)) (save_run e stored)
  save_if takes_over e cached stored false = refl

  -- On a stored session a cached response changes nothing in the world.
  apply_cached-run :
      (takes_over : SessionState → Bool) (e : Env)
      → Cached w.store i key r
      → Stored w.store i s
      → apply_cached takes_over r s e w ≡ (ok s, w)
  unfolding apply_cached
  apply_cached-run takes_over e cached stored =
      save_if takes_over e cached stored (is_some r.order_id || takes_over s.state)

  -- In a consistent store, a `place_order` whose key has a cached response returns the session as it
  -- is stored and leaves the world as it was: it sends nothing upstream and counts nothing. That is
  -- so for a session whose hold is not yet finalised, too.
  pub place_order_replay :
      (items : List (String × ℕ)) (customer_name : String) (headers : ObservabilityHeaders)
      (e : Env)
      → Cached w.store i key r
      → Stored w.store i s
      → place_order i items customer_name key headers e w
        ≡ (ok (record { session = s; from_cache = true }), w)
  unfolding place_order place_order_cached idempotency_get require_session ◌>>=◌
  place_order_replay items customer_name headers e cached stored =
      rw cached (rw stored (rw (apply_cached-run order_takes_over e cached stored)))

  -- What a repeated `confirm` of a finished checkout may answer: the session, or the failure of a
  -- response of IHMS to validate, which nothing catches.
  abbrev pub Repeated : Result ConfirmResult → Type 0
  Repeated a = (a ≡ ok (record { session = s; from_cache = true })) ⊎ (a ≡ err validation_failure)

  replay_with-run :
      (headers : ObservabilityHeaders) (e : Env)
      → terminal_state s.state ≡ true
      → let (a, w') = replay_with s key headers e w in
        Repeated a × (w'.store ≡ w.store) × (w'.metrics ≡ w.metrics)
  unfolding ◌>>=◌ fulfill_held external
  replay_with-run headers e finished = ground (
    arith,
    fulfill_hold_safe-raises w.ihms (hold_text s.hold_id) headers default_retries e w.history,
  )

  -- In a consistent store, a `confirm` of a finished checkout whose key has a cached response returns
  -- the session as it is stored, or the failure of a response of IHMS to validate; the sessions, the
  -- cached responses and the counters are as they were.
  pub confirm_replay :
      (customer_name : Option String) (headers : ObservabilityHeaders) (e : Env)
      → Cached w.store i key r
      → Stored w.store i s
      → terminal_state s.state ≡ true
      → let (a, w') = confirm i customer_name key headers e w in
        Repeated a × (w'.store ≡ w.store) × (w'.metrics ≡ w.metrics)
  unfolding confirm confirm_cached idempotency_get require_session ◌>>=◌
  confirm_replay customer_name headers e cached stored finished = rw cached (
      rw stored (
        rw (apply_cached-run confirm_takes_over e cached stored)
          (replay_with-run headers e finished)))
