-- ===== src/Saga/Posts.antt =====
-- The calls that post an order, and how many of them a history holds.
pub mod Creation
pub mod Endings
pub mod Confirm
pub mod Requests
use ihms_oms.Prelude.{ℕ, Bool, true, false}
use ihms_oms.Gateway.Models.{Call, post_order, History}
use ihms_oms.Effect.Counting.{count}

abbrev pub is_post_order : Call → Bool
is_post_order (post_order _ _) = true
is_post_order _ = false

-- The orders posted so far.
abbrev pub posts : History → ℕ
posts = count is_post_order
