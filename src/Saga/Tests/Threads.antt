-- ===== src/Saga/Tests/Threads.antt =====
-- Two orders and an abandonment of one session in the small shop, which take turns.
use ihms_oms.Prelude.{ℕ, ◌+◌, ◌≤◌, List, [], ◌∷◌}
use ihms_oms.Session.Models.{CheckoutSession}
use ihms_oms.Saga.Machine.{Stored}
use ihms_oms.Saga.Machine.Consistent.{IsConsistent}
use ihms_oms.Saga.Machine.Permanent.{Endures}
use ihms_oms.Saga.Refines.Requests.{order_request, abandon_request}
use ihms_oms.Saga.Threads.{Thread, begun, interleave}
use ihms_oms.Saga.Threads.Kept.{interleave-IsConsistent, interleave-Endures}
use ihms_oms.Saga.Threads.Posts.{may_post_all, interleave-posts_bound}
use ihms_oms.Saga.Posts.Endings.{sent}
use ihms_oms.Saga.Tests.{
  tracing, shop, cart_store, cart_store-IsConsistent, held_cart, held_store,
  held_store-IsConsistent, held_cart-Stored, world_of,
}

abbrev rivals : List Thread
rivals =
    begun (order_request 1 (("SKU-1", 2) ∷ []) "Ada" "K" tracing)
    ∷ begun (order_request 1 (("SKU-1", 1) ∷ []) "Bob" "L" tracing)
    ∷ begun (abandon_request 1 tracing)
    ∷ []

-- Both orders prepare their hold before either has it.
abbrev turns : List ℕ
turns = 0 ∷ 1 ∷ 1 ∷ 0 ∷ 2 ∷ 1 ∷ 1 ∷ []

interleave-IsConsistent_example :
    IsConsistent (interleave turns rivals shop (world_of cart_store)).1.store
interleave-IsConsistent_example =
    interleave-IsConsistent turns rivals shop (world_of cart_store) cart_store-IsConsistent

interleave-Endures_example :
    (t' : CheckoutSession) × Stored
      (interleave turns rivals shop (world_of held_store)).1.store
      1
      t'
    × Endures held_cart t'
interleave-Endures_example =
    interleave-Endures turns rivals shop (world_of held_store) held_store-IsConsistent 1 held_cart
      held_cart-Stored

interleave-posts_bound_example :
    sent (interleave turns rivals shop (world_of cart_store)).1
      + may_post_all (interleave turns rivals shop (world_of cart_store)).0
    ≤ sent (world_of cart_store) + may_post_all rivals
interleave-posts_bound_example = interleave-posts_bound turns rivals shop (world_of cart_store)
