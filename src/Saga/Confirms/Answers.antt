-- ===== src/Saga/Confirms/Answers.antt =====
-- What the upstream services answer to the successful order attempt of `confirm` in
-- src/saga/coordinator.py.
use ihms_oms.Prelude.{String, ◌≡◌, refl, Bool, true, false, none, some, ◌∷◌, Option}
use ihms_oms.Session.Models.{CheckoutSession}
use ihms_oms.Prelude.{nat_eq, string_eq, pair_eq}
use ihms_oms.Gateway.Models.{
  ObservabilityHeaders, History, Env, read_clock, OrderCreate, OrderResponse, HoldResponse,
}
use ihms_oms.Gateway.Errors.{Result, ok}
use ihms_oms.Gateway.Ihms.{fulfill_hold}
use ihms_oms.Gateway.Ecops.{create_order, find_order_by_client_reference}
use ihms_oms.Effect.{◌>>=◌, catch}
use ihms_oms.Saga.Steps.{find_order_by_reference, fulfill_hold_safe}
use ihms_oms.Saga.World.{World}
use ihms_oms.Saga.Coordinator.Creation.{find_or_create, create_order_with_retry}
use ihms_oms.Saga.Coordinator.Outcomes.{default_retries}

module _ (headers : ObservabilityHeaders) (e : Env) (w : World) (s : CheckoutSession) (key : String)
    (payload : OrderCreate) (o : OrderResponse) where
  -- What ecOps answers once the clock was read: to the lookup, and to the POST after it.
  abbrev pub looked_for : Result (Option OrderResponse) × History
  looked_for =
      find_order_by_client_reference w.ecops s.correlation_id headers e (read_clock ∷ w.history)

  abbrev pub posted : Result OrderResponse × History
  posted = create_order w.ecops payload headers (some key) e looked_for.1

  -- ecOps has the order, or has none and creates it.
  abbrev pub Ordered : Bool → Type 0
  Ordered true = looked_for.0 ≡ ok (some o)
  Ordered false = (looked_for.0 ≡ ok none) × (posted.0 ≡ ok o)

  abbrev pub ordered_history : Bool → History
  ordered_history true = looked_for.1
  ordered_history false = posted.1

  pub find_or_create-Ordered :
      (b : Bool)
      → Ordered b
      → find_or_create w.ecops s.correlation_id headers payload key e (read_clock ∷ w.history)
        ≡ (ok (o, b), ordered_history b)
  unfolding find_or_create find_order_by_reference create_order_with_retry ◌>>=◌ catch
  find_or_create-Ordered true has = rw has refl
  find_or_create-Ordered false (has_none, made) = rw has_none (rw made refl)

  pub finalized :
      (hold_id : String) (h : History) {r : Option HoldResponse}
      → (fulfill_hold w.ihms hold_id headers e h).0 ≡ ok r
      → fulfill_hold_safe w.ihms hold_id headers default_retries e h
        ≡ (ok true, (fulfill_hold w.ihms hold_id headers e h).1)
  unfolding fulfill_hold_safe ◌>>=◌ catch
  finalized hold_id h answered = rw answered refl
