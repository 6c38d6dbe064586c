-- ===== src/Mocks/Ecops/Accepted.antt =====
-- A POST that the mock of ecOps accepts, and what later requests see of its order.
use ihms_oms.Prelude.{
  String, ◌≡◌, refl, true, Option, none, some, List, [], ◌∷◌, ◌++◌, lookup, lookup-insert_self,
  string_eq, nat_eq, nat_beq, beq_self, ◌==◌, truthy, Bool-cases, inl, inr, sym, ap, subst, ◌∙◌,
}
use text.Mathlib.TextEquality.{eq_iff}
use ihms_oms.Session.Models.{Uuid}
use ihms_oms.Gateway.Models.{OrderCreate, order}
use ihms_oms.Mocks.Ecops.{
  StoredOrder, MockState, Reply, json_response, list_orders, find_order, get_order, Post, built,
  store_order, repeated, existing_order, create_keyed, create_order,
}
use ihms_oms.Mocks.Ecops.Runs.{
  create_order-Posted, Accepted, with_reference-append, with_reference-unused, with_reference-hit,
  built-has_reference,
}

find_order-append :
    (i : Uuid) (os : List StoredOrder) (o : StoredOrder)
    → find_order i os ≡ none
    → (o.shown.id == i) ≡ true
    → find_order i (os ++ o ∷ []) ≡ some o
unfolding find_order
find_order-append i [] o missing same = rw same refl
find_order-append i (x ∷ os) o missing same =
    let rest = find_order-append i os o in
    elim (Bool-cases (x.shown.id == i)) [
      | inl e ↦ absurd (cc (rw e at missing))
      | inr e ↦ rw e (rest (rw e at missing) same)
    ]

keyed :
    (hash : OrderCreate → String) (key? : Option String) (key : String) (p : Post) (s : MockState)
    → key? ≡ some key
    → truthy key ≡ true
    → create_order hash key? p s ≡ create_keyed hash key p s
unfolding create_order
keyed hash key? key p s e given = rw (e, create_order) (rw given refl)

answer_repeated :
    (hash : OrderCreate → String) (p : Post) (o : StoredOrder) (s : MockState)
    → o.request_hash ≡ hash p.body
    → ◌≡◌ {A = Reply × MockState} (repeated hash p.body o, s) (json_response 200 (order o.shown), s)
unfolding repeated
answer_repeated hash p o s same =
    let e : (o.request_hash == hash p.body) ≡ true = (eq_iff o.request_hash (hash p.body)).1 same in
    rw e refl

repeated_order :
    (hash : OrderCreate → String) (key : String) (p : Post) (o : StoredOrder) (s : MockState)
    → existing_order hash key s ≡ some o
    → o.request_hash ≡ hash p.body
    → create_keyed hash key p s ≡ (json_response 200 (order o.shown), s)
unfolding create_keyed
repeated_order hash key p o s e same = rw (e, create_keyed) (answer_repeated hash p o s same)

existing_found :
    (hash : OrderCreate → String) (key : String) (i : Uuid) (o : StoredOrder) (s : MockState)
    → lookup key s.idempotency ≡ some i
    → find_order i s.orders ≡ some o
    → existing_order hash key s ≡ some o
unfolding existing_order
existing_found hash key i o s e found = rw (e, existing_order) found

stored_key :
    (hash : OrderCreate → String) (key : String) (scenario : Option String) (p : Post)
    (s : MockState)
    → lookup key (store_order hash key scenario p s).1.idempotency ≡ some (p.uuids 0)
unfolding store_order built
stored_key hash key scenario p s = lookup-insert_self key (p.uuids 0) s.idempotency

module _ (hash : OrderCreate → String) (key? : Option String) (p : Post) (s : MockState)
    (created : nat_beq (create_order hash key? p s).0.response.status_code 201 ≡ true) where
  accepted : Accepted hash key? p s (create_order hash key? p s)
  accepted = elim (create_order-Posted hash key? p s) [
    | inl (status, same) ↦ absurd (cc (sym created ∙ status))
    | inr a ↦ a
  ]

  abbrev after : MockState
  after = (create_order hash key? p s).1

  abbrev new_order : StoredOrder
  new_order = built hash p

  orders_after : after.orders ≡ s.orders ++ new_order ∷ []
  orders_after =
      let (key, scenario, e, given, unused, same) = accepted in
      ap (λ (a : Reply × MockState). a.1.orders) same ∙ unfold store_order in refl

  -- After a POST that answers 201, where the body's client_reference is not empty, the list of the
  -- orders with that reference has its order and no other.
  pub list_orders-create_order :
      truthy p.body.client_reference ≡ true
      → list_orders (some p.body.client_reference) after ≡ new_order ∷ []
  unfolding list_orders
  list_orders-create_order given =
      let (key, scenario, e, k, unused, same) = accepted in
      let c = p.body.client_reference in
      rw
        (
          orders_after,
          with_reference-append c s.orders new_order,
          with_reference-unused c s.orders unused,
          with_reference-hit c new_order (built-has_reference hash p given),
        )
        refl

  module _ (fresh : find_order (p.uuids 0) s.orders ≡ none) where
    found_after : find_order (p.uuids 0) after.orders ≡ some new_order
    found_after = rw orders_after (
        find_order-append (p.uuids 0) s.orders new_order fresh
          (unfold built in beq_self (p.uuids 0)))

    -- An order is read by its id once its POST is accepted.
    pub get_order-create_order :
        get_order (p.uuids 0) after ≡ json_response 200 (order new_order.shown)
    unfolding get_order
    get_order-create_order = rw (found_after, get_order) refl

    key_after : (key : String) → key? ≡ some key → lookup key after.idempotency ≡ some (p.uuids 0)
    key_after key e =
        let (key', scenario, e', given, unused, same) = accepted in
        let same_key : key' ≡ key = cc in
        subst (λ k. lookup k after.idempotency ≡ some (p.uuids 0)) same_key
          (ap (λ (a : Reply × MockState). lookup key' a.1.idempotency) same
            ∙ stored_key hash key' scenario p s)

    -- After a POST that answers 201 and drew an id that no order has, the same body under the same key
    -- answers 200 with the same order and changes nothing, whatever its scenario and its readings of
    -- uuid4 and the clock.
    pub create_order_replay :
        (again : Post)
        → again.body ≡ p.body
        → create_order hash key? again after ≡ (json_response 200 (order new_order.shown), after)
    create_order_replay again alike =
        let (key, scenario, e, given, unused, same) = accepted in
        keyed hash key? key again after e given
        ∙ repeated_order hash key again new_order after
            (existing_found hash key (p.uuids 0) new_order after (key_after key e) found_after)
            (unfold built in ap hash (sym alike))
