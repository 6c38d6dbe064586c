-- ===== src/Saga/Threads/Alone.antt =====
-- A request that no other interrupts does, segment by segment, what the coordinator's method does.
use ihms_oms.Prelude.{
  ℕ, zero, suc, String, ◌≡◌, refl, ap, Bool, true, false, Option, none, some, List, if◌then◌else◌,
}
use ihms_oms.Session.Models.{Uuid, CheckoutSession, SessionLineItem, is_created}
use ihms_oms.Gateway.Models.{ObservabilityHeaders, Env}
use ihms_oms.Gateway.Errors.{Error, Result, ok, err}
use ihms_oms.Effect.{pure, raise_if, ◌>>=◌, continue}
use ihms_oms.Saga.Idempotency.{IdempotencyRecord}
use ihms_oms.Saga.World.{World, M, require_session, idempotency_get}
use ihms_oms.Saga.Coordinator.Hold.{prepare_hold, place_hold_locked, place_hold}
use ihms_oms.Saga.Coordinator.Confirm.{confirm, abandon}
use ihms_oms.Saga.Coordinator.PlaceOrder.{
  place_order_cached, resolved_customer, order_held, place_order_uncached, place_order_with,
  place_order,
}
use ihms_oms.Saga.Refines.Requests.{
  Request, hold_request, confirm_request, order_request, abandon_request, perform,
}
use ihms_oms.Saga.Threads.{
  Thread, begun, to_hold, to_check, to_confirm, finished, order_started, segment, resumed, advance,
}

-- A number of segments of one thread.
unfoldable pub alone : ℕ → Thread → Env → World → Thread × World
unfolding advance
alone zero t e w = (t, w)
alone (suc n) t e w = let (t', w') = advance t e w in alone n t' e w'

abbrev goes_on : Result Thread × World → Thread × World
goes_on (r, w) = (resumed r, w)

module _ (e : Env) where
  bind_ok :
      {A B : Type 0} (m : M A) (k : A → M B) (w w' : World) (a : A)
      → m e w ≡ (ok a, w')
      → (m >>= k) e w ≡ k a e w'
  unfolding ◌>>=◌
  bind_ok m k w w' a h = ap (λ p. continue p.0 k e p.1) h

  bind_err :
      {A B : Type 0} (m : M A) (k : A → M B) (w w' : World) (x : Error)
      → m e w ≡ (err x, w')
      → (m >>= k) e w ≡ (err x, w')
  unfolding ◌>>=◌
  bind_err m k w w' x h = ap (λ p. continue p.0 k e p.1) h

  bind_assoc :
      {A B C : Type 0} (m : M A) (f : A → M B) (g : B → M C) (w : World)
      → ((m >>= f) >>= g) e w ≡ (m >>= λ a. f a >>= g) e w
  unfolding ◌>>=◌
  bind_assoc {A} {B} {C} m f g w = go (m e w)
    where
      go :
          (p : Result A × World)
          → continue (continue p.0 f e p.1).0 g e (continue p.0 f e p.1).1
            ≡ continue p.0 (λ a. f a >>= g) e p.1
      go (ok a, w') = refl
      go (err x, w') = refl

  alone-finished : (n : ℕ) (w : World) → alone n finished e w ≡ (finished, w)
  unfolding alone segment pure
  alone-finished zero w = refl
  alone-finished (suc n) w = alone-finished n w

  -- What is left of a thread after a segment.
  abbrev left : ℕ → Result Thread × World → Thread × World
  left n p = alone n (goes_on p).0 e (goes_on p).1

  -- A segment and a part of a method that begin with the same action.
  left-bind :
      {A B : Type 0} (n : ℕ) (m : M A) (k : A → M Thread) (l : A → M B) (w : World)
      → ((a : A) (w' : World) → left n (k a e w') ≡ (finished, (l a e w').1))
      → left n ((m >>= k) e w) ≡ (finished, ((m >>= l) e w).1)
  left-bind {A} n m k l w same = go (m e w) refl
    where
      go :
          (p : Result A × World)
          → m e w ≡ p
          → left n ((m >>= k) e w) ≡ (finished, ((m >>= l) e w).1)
      go (ok a, w') h = rw (bind_ok m k w w' a h, bind_ok m l w w' a h) (same a w')
      go (err x, w') h = rw (bind_err m k w w' x h, bind_err m l w w' x h) (alone-finished n w')

  left-last :
      {A : Type 0} (n : ℕ) (m : M A) (w : World)
      → left n ((m >>= λ _. pure finished) e w) ≡ (finished, (m e w).1)
  left-last {A} n m w = go (m e w) refl
    where
      go :
          (p : Result A × World)
          → m e w ≡ p
          → left n ((m >>= λ _. pure finished) e w) ≡ (finished, (m e w).1)
      go (ok a, w') h =
          rw (bind_ok m (λ _. pure finished) w w' a h, h) (unfold pure in alone-finished n w')
      go (err x, w') h = rw (bind_err m (λ _. pure finished) w w' x h, h) (alone-finished n w')

  alone-to_confirm :
      (n : ℕ) (i : Uuid) (customer : Option String) (key : String) (headers : ObservabilityHeaders)
      (w : World)
      → alone (suc n) (to_confirm i customer key headers) e w
        ≡ (finished, (confirm i customer key headers e w).1)
  unfolding alone segment
  alone-to_confirm n i customer key headers w = left-last n (confirm i customer key headers) w

  alone-to_check :
      (n : ℕ) (i : Uuid) (customer key : String) (headers : ObservabilityHeaders) (w : World)
      → alone (suc (suc n)) (to_check i customer key headers) e w
        ≡ (finished, (order_held i customer key headers e w).1)
  unfolding alone segment order_held pure
  alone-to_check n i customer key headers w = left-bind (suc n) (require_session i) _ _ w (λ s w'.
      left-bind (suc n) (raise_if _ _) _ _ w'
        (λ u w''. alone-to_confirm n i (some customer) key headers w''))

  alone-to_hold :
      (n : ℕ) (i : Uuid) (lines : List SessionLineItem) (customer : String)
      (headers : ObservabilityHeaders) (w : World)
      → alone (suc n) (to_hold i lines customer headers none) e w
        ≡ (finished, (place_hold_locked i lines customer headers e w).1)
  unfolding alone segment
  alone-to_hold n i lines customer headers w =
      left-last n (place_hold_locked i lines customer headers) w

  alone-to_hold_then :
      (n : ℕ) (i : Uuid) (lines : List SessionLineItem) (customer key : String)
      (headers : ObservabilityHeaders) (w : World)
      → alone (suc (suc (suc n))) (to_hold i lines customer headers (some key)) e w ≡ (
        finished,
        ((place_hold_locked i lines customer headers >>= λ _. order_held i customer key headers) e
            w).1,
      )
  unfolding alone segment pure
  alone-to_hold_then n i lines customer key headers w =
      left-bind (suc (suc n)) (place_hold_locked i lines customer headers) _ _ w
        (λ s w'. alone-to_check n i customer key headers w')

  -- The part of `place_order` from the hold on, for a session that is new or not.
  left-from_hold :
      (n : ℕ) (new : Bool) (s : CheckoutSession) (i : Uuid) (items : List (String × ℕ))
      (customer key : String) (headers : ObservabilityHeaders) (w : World)
      → left (suc (suc (suc n))) (
          (if new
              then (prepare_hold i items >>= λ lines.
                  pure (to_hold i lines customer headers (some key)))
              else pure (to_check i customer key headers))
            e w)
        ≡ (
          finished,
          (((if new then place_hold i items customer headers else pure s) >>= λ _.
                order_held i customer key headers)
              e w).1,
        )
  unfolding alone segment pure place_hold ◌>>=◌
  left-from_hold n false s i items customer key headers w =
      alone-to_check (suc n) i customer key headers w
  left-from_hold n true s i items customer key headers w =
      rw
        (bind_assoc (prepare_hold i items) (λ lines. place_hold_locked i lines customer headers)
          (λ _. order_held i customer key headers) w)
        (left-bind (suc (suc (suc n))) (prepare_hold i items) _ _ w
          (λ lines w'. alone-to_hold_then n i lines customer key headers w'))

  left-order_started :
      (n : ℕ) (o : Option IdempotencyRecord) (i : Uuid) (items : List (String × ℕ))
      (customer_name key : String) (headers : ObservabilityHeaders) (w : World)
      → left (suc (suc (suc n))) (order_started o i items customer_name key headers e w)
        ≡ (finished, (place_order_with o i items customer_name key headers e w).1)
  unfolding place_order_uncached
  left-order_started n (some r) i items customer_name key headers w =
      left-last (suc (suc (suc n))) (place_order_cached i r) w
  left-order_started n none i items customer_name key headers w =
      left-bind (suc (suc (suc n))) (require_session i) _ _ w (λ s w'.
        left-bind (suc (suc (suc n))) (raise_if _ _) _ _ w' (λ u w''.
          left-from_hold n (is_created s.state) s i items (resolved_customer customer_name s) key
            headers w''))

  -- Four segments or more of a request that no other interrupts end it, and leave the world that the
  -- coordinator's method leaves.
  pub alone-perform :
      (n : ℕ) (r : Request) (w : World)
      → alone (suc (suc (suc (suc n)))) (begun r) e w ≡ (finished, perform r e w)
  unfolding alone segment perform place_hold place_order pure
  alone-perform n (hold_request i items customer headers) w =
      left-bind (suc (suc (suc n))) (prepare_hold i items) _ _ w
        (λ lines w'. alone-to_hold (suc (suc n)) i lines customer headers w')
  alone-perform n (confirm_request i customer key headers) w =
      alone-to_confirm (suc (suc n)) i customer key headers w
  alone-perform n (order_request i items customer key headers) w =
      left-bind (suc (suc (suc n))) (idempotency_get i key) _ _ w
        (λ o w'. left-order_started n o i items customer key headers w')
  alone-perform n (abandon_request i headers) w =
      left-last (suc (suc (suc n))) (abandon i headers) w
