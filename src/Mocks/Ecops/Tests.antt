-- ===== src/Mocks/Ecops/Tests.antt =====
-- The mock of ecOps, where a hash is a body's customer.
use ihms_oms.Prelude.{
  false, String, ◌≡◌, refl, none, some, List, [], ◌∷◌, ◌+◌, arith, lookup, string_eq, nat_eq,
}
use ihms_oms.Gateway.Models.{OrderCreate, order}
use ihms_oms.Mocks.Ecops.{
  MockState, json_response, with_reference, find_order, list_orders, Post, built, create_order,
  create_keyed, create_new, existing_order, store_order, is_used, is_scenario,
}
use ihms_oms.Mocks.Ecops.Runs.{
  Request, post, list, choose, answer_all, AtMostOnce, answer_all-AtMostOnce,
}
use ihms_oms.Mocks.Ecops.Accepted.{list_orders-create_order, create_order_replay}

abbrev no_orders : MockState
no_orders = record { orders = []; idempotency = []; scenario = none }

abbrev hash : OrderCreate → String
hash body = body.customer_name

abbrev two_keyboards : Post
two_keyboards = record {
  body = record {
    customer_name = "Ada";
    client_reference = "c1";
    items =
        record {
          product_name = "KB";
          quantity = 2;
          price = record { negative = false; digits = 4999; scale = 2 };
        }
        ∷ [];
  };
  test_scenario = none;
  uuids = λ k. 70 + k;
  now = 5;
}

-- The order, its repetition under another key, and a look.
abbrev visit : List Request
visit =
    post (some "K") two_keyboards
    ∷ post (some "L") two_keyboards
    ∷ list (some "c1")
    ∷ choose (some "order-error")
    ∷ []

no_orders-AtMostOnce : AtMostOnce no_orders
unfolding with_reference
no_orders-AtMostOnce c = omega arith

answer_all-AtMostOnce_example : AtMostOnce (answer_all hash visit no_orders)
answer_all-AtMostOnce_example = answer_all-AtMostOnce hash visit no_orders no_orders-AtMostOnce

list_orders-create_order_example :
    list_orders (some "c1") (create_order hash (some "K") two_keyboards no_orders).1
    ≡ built hash two_keyboards ∷ []
unfolding create_order create_keyed existing_order create_new is_scenario is_used store_order lookup
list_orders-create_order_example =
    list_orders-create_order hash (some "K") two_keyboards no_orders refl refl

create_order_replay_example :
    let s = (create_order hash (some "K") two_keyboards no_orders).1 in
    create_order hash (some "K") two_keyboards s
    ≡ (json_response 200 (order (built hash two_keyboards).shown), s)
unfolding create_order create_keyed existing_order create_new is_scenario is_used store_order lookup
    find_order
create_order_replay_example =
    create_order_replay hash (some "K") two_keyboards no_orders refl refl two_keyboards refl
