-- ===== src/Saga/Threads/Posts.antt =====
-- How many orders interleaved requests to src/saga/coordinator.py post.
use ihms_oms.Prelude.{
  ℕ, zero, suc, ◌+◌, ◌≤◌, String, Bool, true, false, List, [], ◌∷◌, Option, none, some, arith,
  if◌then◌else◌,
}
use ihms_oms.Session.Models.{Uuid, is_created}
use ihms_oms.Gateway.Models.{ObservabilityHeaders, Env}
use ihms_oms.Gateway.Errors.{Result, ok, err}
use ihms_oms.Effect.{pure, continue, ◌>>=◌}
use ihms_oms.Effect.Counting.{Quiet, Once, Quiet-bind, Quiet-pure, Quiet-raise_if}
use ihms_oms.Saga.Idempotency.{IdempotencyRecord}
use ihms_oms.Saga.World.{World, M}
use ihms_oms.Saga.Posts.Endings.{
  sent, idempotency_get-Quiet, require_session-Quiet, apply_cached-Quiet,
}
use ihms_oms.Saga.Posts.Confirm.{confirm-Once}
use ihms_oms.Saga.Posts.Requests.{prepare_hold-Quiet, place_hold_locked-Quiet, abandon-Quiet}
use ihms_oms.Saga.Coordinator.PlaceOrder.{place_order_cached}
use ihms_oms.Saga.Refines.Requests.{
  Request, hold_request, confirm_request, order_request, abandon_request,
}
use ihms_oms.Saga.Threads.{
  Thread, begun, to_hold, to_check, to_confirm, finished, order_started, first_segment, segment,
  resumed, advance_at, interleave,
}

-- The orders that a request may still post where it stands.
abbrev pub may_post : Thread → ℕ
may_post (begun (hold_request _ _ _ _)) = 0
may_post (begun (confirm_request _ _ _ _)) = 1
may_post (begun (order_request _ _ _ _ _)) = 1
may_post (begun (abandon_request _ _)) = 0
may_post (to_hold _ _ _ _ none) = 0
may_post (to_hold _ _ _ _ (some _)) = 1
may_post (to_check _ _ _ _) = 1
may_post (to_confirm _ _ _ _) = 1
may_post finished = 0

abbrev pub may_post_all : List Thread → ℕ
may_post_all [] = 0
may_post_all (t ∷ ts) = may_post t + may_post_all ts

-- The orders sent, and those that the thread may still post after the segment, are at most `n` more than
-- the orders sent before.
record Spends (n : ℕ) (m : M Thread) : Type 0 where
  pub at : (e : Env) (w : World) → sent (m e w).1 + may_post (resumed (m e w).0) ≤ sent w + n

Spends-pure : {n : ℕ} (t : Thread) → may_post t ≤ n → Spends n (pure t)
unfolding pure
Spends-pure t h = record { at = λ e w. omega (arith, h) }

Spends-if :
    {n : ℕ} (b : Bool) (m k : M Thread) → Spends n m → Spends n k → Spends n (if b then m else k)
Spends-if true m k sm sk = sm
Spends-if false m k sm sk = sk

module _ {A : Type 0} where
  continue-Spends :
      (n : ℕ) (k : A → M Thread)
      → ((a : A) → Spends n (k a))
      → (r : Result A) (e : Env) (w : World)
      → sent (continue r k e w).1 + may_post (resumed (continue r k e w).0) ≤ sent w + n
  continue-Spends n k h (ok a) e w = (h a).at e w
  continue-Spends n k h (err x) e w = omega arith

  Spends-bind :
      {n : ℕ} (m : M A) (k : A → M Thread)
      → Quiet sent m
      → ((a : A) → Spends n (k a))
      → Spends n (m >>= k)
  unfolding ◌>>=◌
  Spends-bind {n} m k q h = record {
    at = λ e w. omega (arith, continue-Spends n k h (m e w).0 e (m e w).1, q.at e w);
  }

  ended :
      (r : Result A) (e : Env) (w : World)
      → sent (continue r (λ _. pure finished) e w).1
          + may_post (resumed (continue r (λ _. pure finished) e w).0)
        ≤ sent w
  unfolding pure
  ended (ok a) e w = omega arith
  ended (err x) e w = omega arith

  -- A segment that posts at most one order and ends its request.
  Spends-last : (m : M A) → Once sent m → Spends 1 (do _ ← m; pure finished)
  unfolding ◌>>=◌
  Spends-last m o = record { at = λ e w. omega (arith, ended (m e w).0 e (m e w).1, o.at e w) }

place_order_cached-Quiet : (i : Uuid) (r : IdempotencyRecord) → Quiet sent (place_order_cached i r)
unfolding place_order_cached
place_order_cached-Quiet i r =
    Quiet-bind _ _ (require_session-Quiet i)
      (λ found. Quiet-bind _ _ (apply_cached-Quiet _ r found) (λ s. Quiet-pure _))

order_started-Spends :
    (o : Option IdempotencyRecord) (i : Uuid) (items : List (String × ℕ)) (customer key : String)
    (headers : ObservabilityHeaders)
    → Spends 1 (order_started o i items customer key headers)
order_started-Spends (some r) i items customer key headers =
    Spends-bind _ _ (place_order_cached-Quiet i r) (λ _. Spends-pure finished (omega arith))
order_started-Spends none i items customer key headers =
    Spends-bind _ _ (require_session-Quiet i) (λ s. Spends-bind _ _ (Quiet-raise_if _ _) (λ _.
      Spends-if (is_created s.state) _ _
        (Spends-bind _ _ (prepare_hold-Quiet headers i items)
          (λ lines. Spends-pure _ (omega arith)))
        (Spends-pure _ (omega arith))))

first_segment-Spends : (r : Request) → Spends (may_post (begun r)) (first_segment r)
first_segment-Spends (hold_request i items customer headers) =
    Spends-bind _ _ (prepare_hold-Quiet headers i items) (λ lines. Spends-pure _ (omega arith))
first_segment-Spends (confirm_request i customer key headers) = Spends-pure _ (omega arith)
first_segment-Spends (order_request i items customer key headers) =
    Spends-bind _ _ (idempotency_get-Quiet i key)
      (λ cached. order_started-Spends cached i items customer key headers)
first_segment-Spends (abandon_request i headers) =
    Spends-bind _ _ (abandon-Quiet headers i) (λ _. Spends-pure finished (omega arith))

segment-Spends : (t : Thread) → Spends (may_post t) (segment t)
unfolding segment
segment-Spends (begun r) = first_segment-Spends r
segment-Spends (to_hold i lines customer headers none) =
    Spends-bind _ _ (place_hold_locked-Quiet headers i lines customer)
      (λ _. Spends-pure finished (omega arith))
segment-Spends (to_hold i lines customer headers (some key)) =
    Spends-bind _ _ (place_hold_locked-Quiet headers i lines customer)
      (λ _. Spends-pure (to_check i customer key headers) (omega arith))
segment-Spends (to_check i customer key headers) = Spends-bind _ _ (require_session-Quiet i) (λ s.
    Spends-bind _ _ (Quiet-raise_if _ _)
      (λ _. Spends-pure (to_confirm i (some customer) key headers) (omega arith)))
segment-Spends (to_confirm i customer key headers) =
    Spends-last _ (confirm-Once headers i customer key)
segment-Spends finished = Spends-pure finished (omega arith)

advance_at-posts_bound :
    (n : ℕ) (ts : List Thread) (e : Env) (w : World)
    → sent (advance_at n ts e w).1 + may_post_all (advance_at n ts e w).0 ≤ sent w + may_post_all ts
unfolding advance_at
advance_at-posts_bound n [] e w = omega arith
advance_at-posts_bound zero (t ∷ ts) e w = omega (arith, (segment-Spends t).at e w)
advance_at-posts_bound (suc n) (t ∷ ts) e w = omega (arith, advance_at-posts_bound n ts e w)

-- However requests interleave where they wait for a session's lock, and whatever the upstream services
-- answer: the orders posted, and those that the requests may still post, one for each `confirm` or
-- `place_order` that has not run its `confirm` yet and none for any other, are at most the orders posted
-- before and those that the requests might post then.
pub interleave-posts_bound :
    (schedule : List ℕ) (ts : List Thread) (e : Env) (w : World)
    → sent (interleave schedule ts e w).1 + may_post_all (interleave schedule ts e w).0
      ≤ sent w + may_post_all ts
unfolding interleave
interleave-posts_bound [] ts e w = omega arith
interleave-posts_bound (n ∷ schedule) ts e w =
    let (ts', w') = advance_at n ts e w in
    omega (arith, advance_at-posts_bound n ts e w, interleave-posts_bound schedule ts' e w')
