-- ===== src/Mocks/Ecops/Runs.antt =====
-- Sequences of requests to the mock of ecOps.
use ihms_oms.Prelude.{
  ℕ, suc, ◌≤◌, String, ◌≡◌, refl, true, false, Option, none, some, List, [], ◌∷◌, ◌++◌, string_eq,
  nat_eq, beq_self, ◌==◌, arith, truthy, Bool-cases, ◌⊎◌, or_else?, nat_beq, inl, inr, length, sym,
  ap, subst,
}
use text.Mathlib.TextEquality.{eq_iff}
use ihms_oms.Session.Models.{Uuid}
use ihms_oms.Gateway.Models.{OrderCreate}
use ihms_oms.Mocks.Ecops.{
  StoredOrder, MockState, Reply, has_reference, with_reference, is_used, Post, built, store_order,
  repeated, existing_order, is_scenario, create_new, create_keyed, create_order, reset_state,
  set_scenario,
}

pub data Request : Type 0 where
  post : (key : Option String) → Post → Request
  get : Uuid → Request
  list : (client_reference : Option String) → Request
  reset : Request
  choose : (scenario : Option String) → Request

-- The orders with a reference.
abbrev pub count : String → List StoredOrder → ℕ
count c os = length (with_reference c os)

pub with_reference-append :
    (c : String) (os : List StoredOrder) (o : StoredOrder)
    → with_reference c (os ++ o ∷ []) ≡ with_reference c os ++ with_reference c (o ∷ [])
unfolding with_reference
with_reference-append c [] o = refl
with_reference-append c (x ∷ os) o =
    let rest = with_reference-append c os o in
    elim (Bool-cases (has_reference c x)) [
      | inl e ↦ rw e (ap (λ l. x ∷ l) rest)
      | inr e ↦ rw e rest
    ]

pub with_reference-unused :
    (c : String) (os : List StoredOrder) → is_used c os ≡ false → with_reference c os ≡ []
unfolding with_reference is_used
with_reference-unused c [] h = refl
with_reference-unused c (o ∷ os) h =
    let rest = with_reference-unused c os in
    elim (Bool-cases (has_reference c o)) [
      | inl e ↦ absurd (cc (rw e at h))
      | inr e ↦ rw e (rest (rw e at h))
    ]

pub with_reference-miss :
    (c : String) (o : StoredOrder) → has_reference c o ≡ false → with_reference c (o ∷ []) ≡ []
unfolding with_reference
with_reference-miss c o e = rw e refl

pub with_reference-hit :
    (c : String) (o : StoredOrder) → has_reference c o ≡ true → with_reference c (o ∷ []) ≡ o ∷ []
unfolding with_reference
with_reference-hit c o e = rw e refl

length_onto : (xs : List StoredOrder) → length (xs ++ []) ≡ length xs
length_onto [] = refl
length_onto (x ∷ xs) = ap suc (length_onto xs)

-- No reference is that of two orders.
abbrev pub AtMostOnce : MockState → Type 0
AtMostOnce s = (c : String) → count c s.orders ≤ 1

-- Where the order built from a POST has a reference, it is that of the body.
built_reference :
    (hash : OrderCreate → String) (p : Post) (c : String)
    → has_reference c (built hash p) ≡ true
    → p.body.client_reference ≡ c
unfolding built
built_reference hash p c h = elim (Bool-cases (truthy p.body.client_reference)) [
  | inl e ↦ (eq_iff p.body.client_reference c).0 (rw e at h)
  | inr e ↦ absurd (cc (rw e at h))
]

pub built-has_reference :
    (hash : OrderCreate → String) (p : Post)
    → truthy p.body.client_reference ≡ true
    → has_reference p.body.client_reference (built hash p) ≡ true
unfolding built
built-has_reference hash p e = rw e (beq_self p.body.client_reference)

module _ (hash : OrderCreate → String) where
  count-appended :
      (c : String) (p : Post) (os : List StoredOrder)
      → is_used p.body.client_reference os ≡ false
      → count c os ≤ 1
      → count c (os ++ built hash p ∷ []) ≤ 1
  count-appended c p os unused once = elim (Bool-cases (has_reference c (built hash p))) [
    | inl e ↦
        let none_yet : with_reference c os ≡ [] =
          subst (λ x. with_reference x os ≡ []) (built_reference hash p c e)
            (with_reference-unused p.body.client_reference os unused) in
        rw
          (
            with_reference-append c os (built hash p),
            none_yet,
            with_reference-hit c (built hash p) e,
          )
          (omega arith)
    | inr e ↦
        rw
          (
            with_reference-append c os (built hash p),
            with_reference-miss c (built hash p) e,
            length_onto (with_reference c os),
          )
          once
  ]

  -- A POST answers otherwise than by 201 and changes nothing, or stores the order that it builds.
  abbrev pub Refused : MockState → Reply × MockState → Type 0
  Refused s a = (nat_beq a.0.response.status_code 201 ≡ false) × (a.1 ≡ s)

  abbrev pub Accepted : Option String → Post → MockState → Reply × MockState → Type 0
  Accepted key? p s a =
      (key : String) × (scenario : Option String) × (key? ≡ some key)
      × (truthy key ≡ true)
      × (is_used p.body.client_reference s.orders ≡ false)
      × (a ≡ store_order hash key scenario p s)

  abbrev pub Posted : Option String → Post → MockState → Reply × MockState → Type 0
  Posted key? p s a = Refused s a ⊎ Accepted key? p s a

  module _ (key : String) (given : truthy key ≡ true) (p : Post) (s : MockState) where
    create_new-Posted :
        (scenario : Option String) → Posted (some key) p s (create_new hash key scenario p s)
    unfolding create_new
    create_new-Posted scenario = elim (Bool-cases (is_scenario "order-error" scenario)) [
      | inl e ↦ rw e (inl (refl, refl))
      | inr e ↦ elim (Bool-cases (is_used p.body.client_reference s.orders)) [
        | inl used ↦ rw (e, used) (inl (refl, refl))
        | inr unused ↦ rw (e, unused) (inr (key, scenario, refl, given, refl, refl))
      ]
    ]

    repeated-Posted : (o : StoredOrder) → Posted (some key) p s (repeated hash p.body o, s)
    unfolding repeated
    repeated-Posted o = elim (Bool-cases (o.request_hash == hash p.body)) [
      | inl e ↦ rw e (inl (refl, refl))
      | inr e ↦ rw e (inl (refl, refl))
    ]

    create_keyed-Posted : Posted (some key) p s (create_keyed hash key p s)
    unfolding create_keyed
    create_keyed-Posted = go (existing_order hash key s) refl
      where
        go :
            (o : Option StoredOrder)
            → existing_order hash key s ≡ o
            → Posted (some key) p s (create_keyed hash key p s)
        go none e = rw (e, create_keyed) (create_new-Posted (or_else? p.test_scenario s.scenario))
        go (some o) e = rw (e, create_keyed) (repeated-Posted o)

  pub create_order-Posted :
      (key? : Option String) (p : Post) (s : MockState)
      → Posted key? p s (create_order hash key? p s)
  unfolding create_order
  create_order-Posted none p s = inl (refl, refl)
  create_order-Posted (some key) p s = elim (Bool-cases (truthy key)) [
    | inl e ↦ rw e (create_keyed-Posted key e p s)
    | inr e ↦ rw e (inl (refl, refl))
  ]

  pub create_order-AtMostOnce :
      (key? : Option String) (p : Post) (s : MockState)
      → AtMostOnce s
      → AtMostOnce (create_order hash key? p s).1
  create_order-AtMostOnce key? p s once c = elim (create_order-Posted key? p s) [
    | inl (status, same) ↦ subst (λ x. count c x.orders ≤ 1) (sym same) (once c)
    | inr (key, scenario, e, given, unused, same) ↦
        subst (λ x. count c x.1.orders ≤ 1) (sym same) (stored_once key scenario unused c)
  ]
    where
      stored_once :
          (key : String) (scenario : Option String)
          → is_used p.body.client_reference s.orders ≡ false
          → AtMostOnce (store_order hash key scenario p s).1
      stored_once key scenario unused c =
          unfold store_order in count-appended c p s.orders unused (once c)

  -- What a request other than a GET does to the state.
  unfoldable pub answer : Request → MockState → MockState
  unfolding create_order reset_state set_scenario
  answer (post key p) s = (create_order hash key p s).1
  answer (get i) s = s
  answer (list c) s = s
  answer reset s = (reset_state s).1
  answer (choose scenario) s = (set_scenario scenario s).1

  unfoldable pub answer_all : List Request → MockState → MockState
  answer_all [] s = s
  answer_all (r ∷ rs) s = answer_all rs (answer r s)

  answer-AtMostOnce : (r : Request) (s : MockState) → AtMostOnce s → AtMostOnce (answer r s)
  unfolding answer
  answer-AtMostOnce (post key p) s once c = create_order-AtMostOnce key p s once c
  answer-AtMostOnce (get i) s once c = once c
  answer-AtMostOnce (list d) s once c = once c
  answer-AtMostOnce reset s once c = unfold with_reference in omega arith
  answer-AtMostOnce (choose scenario) s once c = once c

  -- From a state in which no client_reference is that of two orders, and over any sequence of
  -- requests, with any keys, scenarios and readings of uuid4, none ever is.
  pub answer_all-AtMostOnce :
      (rs : List Request) (s : MockState) → AtMostOnce s → AtMostOnce (answer_all rs s)
  unfolding answer_all
  answer_all-AtMostOnce [] s once c = once c
  answer_all-AtMostOnce (r ∷ rs) s once c =
      answer_all-AtMostOnce rs (answer r s) (answer-AtMostOnce r s once) c
