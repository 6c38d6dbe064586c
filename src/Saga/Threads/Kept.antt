-- ===== src/Saga/Threads/Kept.antt =====
-- Interleaved requests keep to the state machine of the saga.
use ihms_oms.Prelude.{ℕ, zero, suc, String, ◌≡◌, refl, Option, none, some, List, [], ◌∷◌}
use ihms_oms.Session.Models.{Uuid, CheckoutSession, SessionLineItem, held, abandoned, is_created}
use ihms_oms.Gateway.Models.{ObservabilityHeaders, Env}
use ihms_oms.Gateway.Errors.{Result}
use ihms_oms.Effect.{pure, ◌>>=◌}
use ihms_oms.Saga.Idempotency
use ihms_oms.Saga.Idempotency.{IdempotencyRecord}
use ihms_oms.Saga.World.{SagaStore, World, M}
use ihms_oms.Saga.Coordinator.Hold.{prepare_hold}
use ihms_oms.Saga.Leads.{
  Leads, Leads-pure, Leads-if, Leads-bind, Leads-then, Leads-raise_if, Leads-require, Leads-cached,
  Leads-weaken,
}
use ihms_oms.Saga.Machine.{Stored, SagaSteps, SagaSteps-trans, here}
use ihms_oms.Saga.Machine.Consistent.{IsConsistent}
use ihms_oms.Saga.Machine.Preserved.{SagaSteps-IsConsistent}
use ihms_oms.Saga.Machine.Permanent.{Endures, SagaSteps-Endures}
use ihms_oms.Saga.Refines.Confirm.{confirm-Leads}
use ihms_oms.Saga.Refines.Methods.{
  Returns-SagaSteps, place_hold_locked-Leads, prepare_hold-Unchanged, abandon-Leads,
  place_order_cached-Ends,
}
use ihms_oms.Saga.Refines.Requests.{
  Request, hold_request, confirm_request, order_request, abandon_request, Ends-SagaSteps,
}
use ihms_oms.Saga.Threads.{
  Thread, begun, to_hold, to_check, to_confirm, finished, first_segment, order_started, segment,
  advance_at, interleave,
}

abbrev Steps : {A : Type 0} → SagaStore → Result A → SagaStore → Type 0
Steps st r st' = SagaSteps st st'

module _ {st : SagaStore} (good : IsConsistent st) where
  -- What ends a segment returns a thread only.
  last-Steps :
      {A : Type 0} (m : M A) (t : Thread)
      → Leads st m (Steps st)
      → Leads st (m >>= λ _. pure t) (Steps st)
  last-Steps m t lm =
      Leads-bind (Steps st) m (λ _. pure t) lm (λ a st' steps. Leads-pure t steps)
        (λ x st' steps. steps)

  prepared-Steps :
      (i : Uuid) (items : List (String × ℕ)) (k : List SessionLineItem → Thread)
      → Leads st (prepare_hold i items >>= λ lines. pure (k lines)) (Steps st)
  prepared-Steps i items k =
      Leads-then _ _ (prepare_hold-Unchanged st i items) (λ lines. Leads-pure _ here) (λ x. here)

  order_started-Steps :
      (o : Option IdempotencyRecord) (i : Uuid) (items : List (String × ℕ)) (customer key : String)
      (headers : ObservabilityHeaders)
      → Idempotency.get i key st.idempotency ≡ o
      → Leads st (order_started o i items customer key headers) (Steps st)
  order_started-Steps (some r) i items customer key headers cached =
      last-Steps _ _
        (Leads-weaken _ (Ends-SagaSteps st i) (place_order_cached-Ends good i key headers r cached))
  order_started-Steps none i items customer key headers cached = Leads-require _ _ here (λ s stored.
      Leads-raise_if _ _ _ (λ _. here)
        (λ _.
          Leads-if (is_created s.state) _ _ (λ _. prepared-Steps i items _)
            (λ _. Leads-pure _ here)))

  first_segment-Steps : (r : Request) → Leads st (first_segment r) (Steps st)
  first_segment-Steps (hold_request i items customer headers) = prepared-Steps i items _
  first_segment-Steps (confirm_request i customer key headers) = Leads-pure _ here
  first_segment-Steps (order_request i items customer key headers) =
      Leads-cached _ _ _ (
        order_started-Steps (Idempotency.get i key st.idempotency) i items customer key headers
          refl)
  first_segment-Steps (abandon_request i headers) =
      last-Steps _ _
        (Leads-weaken _ (Returns-SagaSteps st i abandoned) (abandon-Leads st good i headers))

  segment-Steps : (t : Thread) → Leads st (segment t) (Steps st)
  unfolding segment
  segment-Steps (begun r) = first_segment-Steps r
  segment-Steps (to_hold i lines customer headers key) = last-Steps _ _ (
      Leads-weaken _ (Returns-SagaSteps st i held)
        (place_hold_locked-Leads st good i lines customer headers))
  segment-Steps (to_check i customer key headers) =
      Leads-require _ _ here (λ s stored. Leads-raise_if _ _ _ (λ _. here) (λ _. Leads-pure _ here))
  segment-Steps (to_confirm i customer key headers) =
      last-Steps _ _
        (Leads-weaken _ (Ends-SagaSteps st i) (confirm-Leads st good i customer key headers))
  segment-Steps finished = Leads-pure _ here

advance_at-SagaSteps :
    (n : ℕ) (ts : List Thread) (e : Env) (w : World)
    → IsConsistent w.store
    → SagaSteps w.store (advance_at n ts e w).1.store
unfolding advance_at
advance_at-SagaSteps n [] e w good = here
advance_at-SagaSteps zero (t ∷ ts) e w good = (segment-Steps good t).at e w
advance_at-SagaSteps (suc n) (t ∷ ts) e w good = advance_at-SagaSteps n ts e w good

interleave-SagaSteps :
    (schedule : List ℕ) (ts : List Thread) (e : Env) (w : World)
    → IsConsistent w.store
    → SagaSteps w.store (interleave schedule ts e w).1.store
unfolding interleave
interleave-SagaSteps [] ts e w good = here
interleave-SagaSteps (n ∷ schedule) ts e w good =
    let first = advance_at-SagaSteps n ts e w good in
    let (ts', w') = advance_at n ts e w in
    SagaSteps-trans first
      (interleave-SagaSteps schedule ts' e w' (SagaSteps-IsConsistent good first))

-- From a consistent store, however any number of requests interleave where they wait for a session's
-- lock, and whatever the upstream services answer, the store is consistent.
pub interleave-IsConsistent :
    (schedule : List ℕ) (ts : List Thread) (e : Env) (w : World)
    → IsConsistent w.store
    → IsConsistent (interleave schedule ts e w).1.store
interleave-IsConsistent schedule ts e w good =
    SagaSteps-IsConsistent good (interleave-SagaSteps schedule ts e w good)

-- From a consistent store, however any number of requests interleave where they wait for a session's
-- lock, and whatever the upstream services answer: a stored session is still stored and has moved
-- along the documented arrows; an order that it had is still its order under the same key, and if it
-- was terminal it is as it was.
pub interleave-Endures :
    (schedule : List ℕ) (ts : List Thread) (e : Env) (w : World)
    → IsConsistent w.store
    → (j : Uuid) (t : CheckoutSession) → Stored w.store j t
    → (t' : CheckoutSession) × Stored (interleave schedule ts e w).1.store j t' × Endures t t'
interleave-Endures schedule ts e w good j t h =
    (SagaSteps-Endures good (interleave-SagaSteps schedule ts e w good) j t h).1
