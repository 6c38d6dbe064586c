-- ===== src/Mocks/Ihms/Runs.antt =====
-- Sequences of requests to the mock of IHMS.
use ihms_oms.Prelude.{
  String, ◌≡◌, refl, true, false, Option, none, some, List, [], ◌∷◌, lookup, insert, remove,
  lookup-insert_self, string_eq, ◌==◌, All, ◌∙◌, sym, ap, Bool-cases, inl, inr, Dict, beq_self,
}
use ihms_oms.Session.Models.{Timestamp, Uuid}
use ihms_oms.Gateway.Models.{HoldItemResponse, Response}
use ihms_oms.Mocks.Ihms.{
  Amounts, HoldRecord, MockState, available, Reply, key_error, CreateHoldBody, hold_id_of,
  create_hold, release_hold, returned, take_stock, new_hold, reserve_items, create_unforced,
  release_found, restore, deduct, is_409, is_fulfilled,
}
use ihms_oms.Mocks.Ihms.Stock.{deduct_lem, restore_lem, AllKnown}
use ihms_oms.Mocks.Ihms.Reserve.{IsPositive, reserved-Reservation}
use ihms_oms.Mocks.Ihms.Account.{total, IsSound}
use ihms_oms.Mocks.Ihms.Requests.{Request, answer, answer_all, AllAllowed, due, answer-AsDue}

abbrev pub NoKeyError : Reply → Type 0
NoKeyError reply = reply ≡ key_error → ⊥

answered_no_error : (a : Reply) (x : Response) → a ≡ returned x → NoKeyError a
answered_no_error a x v h = cc (sym v ∙ h)

-- From stock that covers its holds, over any requests of which each creation of a hold asks for
-- positive quantities only and gets an id that no hold has: whatever holds are created, read, released
-- and fulfilled, whichever failures are forced and whenever the mock is reset, no handler raises, and no
-- product's stock and nothing that a hold has of a product falls below zero.
pub answer_all-IsSound :
    (rs : List Request) (s : MockState)
    → IsSound s
    → AllAllowed rs s
    → All NoKeyError (answer_all rs s).0 × IsSound (answer_all rs s).1
unfolding answer_all
answer_all-IsSound [] s sound allowed = (tt, sound)
answer_all-IsSound (r ∷ rs) s sound (first, allowed) =
    let v = answer-AsDue r s sound first in
    let (quiet, ends) = answer_all-IsSound rs (answer r s).1 v.sound allowed in
    ((answered_no_error (answer r s).0 v.answered.0 v.answered.1, quiet), ends)

-- From stock that covers its holds, over any requests of which each creation of a hold asks for
-- positive quantities only and gets an id that no hold has: the stock of a product and what all holds,
-- the fulfilled ones too, have of it sum up to what they did before, or, where a reset was among the
-- requests, to the default stock of the product.
pub answer_all-conserves :
    (rs : List Request) (s : MockState)
    → IsSound s
    → AllAllowed rs s
    → (p : String) → total p (answer_all rs s).1 ≡ due p rs (total p s)
unfolding answer_all
answer_all-conserves [] s sound allowed p = refl
answer_all-conserves (r ∷ rs) s sound (first, allowed) p =
    let v = answer-AsDue r s sound first in
    answer_all-conserves rs (answer r s).1 v.sound allowed p ∙ ap (due p rs) (v.sums p)

remove-insert_fresh :
    (i : String) (r : HoldRecord) (d : Dict String HoldRecord)
    → lookup i d ≡ none
    → remove i (insert i r d) ≡ d
unfolding remove insert lookup
remove-insert_fresh i r [] fresh = rw (beq_self i) refl
remove-insert_fresh i r ((j, t) ∷ d) fresh =
    let rest = remove-insert_fresh i r d in
    elim (Bool-cases (j == i)) [
      | inl e ↦ absurd (cc (rw e at fresh))
      | inr e ↦ rw (e, remove, e) (ap (λ x. (j, t) ∷ x) (rest (rw e at fresh)))
    ]

-- The holds are the same, and so is the stock of every product.
abbrev pub Alike : MockState → MockState → Type 0
Alike s' s =
    (s'.holds ≡ s.holds) × ((p : String) → available s'.inventory p ≡ available s.inventory p)

abbrev with_hold : HoldRecord → MockState → MockState
with_hold r s = record s {
  inventory = (deduct r.reserved s.inventory).1;
  holds = insert r.hold_id r s.holds;
}

taken :
    (r : HoldRecord) (s : MockState)
    → (deduct r.reserved s.inventory).0 ≡ true
    → (take_stock r s).1 ≡ with_hold r s
unfolding take_stock
taken r s done = rw done refl

abbrev without_hold : String → HoldRecord → MockState → MockState
without_hold i r s = record s {
  inventory = restore r.reserved s.inventory;
  holds = remove i s.holds;
}

given_up :
    (i : String) (r : HoldRecord) (s : MockState)
    → lookup i s.holds ≡ some r
    → is_fulfilled r.status ≡ false
    → (release_hold i s).1 ≡ without_hold i r s
unfolding release_hold release_found
given_up i r s found active = rw (found, release_hold) (rw (active, release_found) refl)

taken-given_up :
    (r : HoldRecord) (s : MockState)
    → AllKnown s.inventory r.reserved
    → lookup r.hold_id s.holds ≡ none
    → is_fulfilled r.status ≡ false
    → Alike (release_hold r.hold_id (take_stock r s).1).1 s
taken-given_up r s known fresh active =
    let off = λ (p : String). deduct_lem p r.reserved s.inventory known in
    let found = lookup-insert_self r.hold_id r s.holds in
    rw (taken r s (off "").0, given_up r.hold_id r (with_hold r s) found active)
      (
        remove-insert_fresh r.hold_id r s.holds fresh,
        λ p. restore_lem p r.reserved (deduct r.reserved s.inventory).1 ∙ (off p).1,
      )

released_missing :
    (i : String) (s : MockState) → lookup i s.holds ≡ none → Alike (release_hold i s).1 s
unfolding release_hold
released_missing i s fresh = rw (fresh, release_hold) (refl, λ p. refl)

-- From stock that covers its holds: to release a hold under the id of a creation just made, for
-- positive quantities and under a fresh id, leaves the holds and the stock of every product as they
-- were before the creation, whether it was granted or refused.
pub release_hold-create_hold :
    (s : MockState) (body : CreateHoldBody) (drawn : Uuid) (now : Timestamp)
    → IsSound s
    → All IsPositive body.items
    → lookup (hold_id_of drawn) s.holds ≡ none
    → Alike (release_hold (hold_id_of drawn) (create_hold body drawn now s).1).1 s
unfolding create_hold create_unforced new_hold is_fulfilled
release_hold-create_hold s body drawn now sound positive fresh =
    elim (Bool-cases (is_409 s.force_hold_status)) [
      | inl e ↦ rw e (released_missing _ s fresh)
      | inr e ↦ rw e (go (reserve_items s.inventory body.items [] []) refl)
    ]
  where
    i : String
    i = hold_id_of drawn

    go :
        (o : Option (Amounts × List HoldItemResponse))
        → reserve_items s.inventory body.items [] [] ≡ o
        → Alike (release_hold i (create_unforced body drawn now s).1).1 s
    go none e = rw (e, create_unforced) (released_missing i s fresh)
    go (some (r, items)) e =
        rw (e, create_unforced)
          (taken-given_up (new_hold i now r items) s
            (reserved-Reservation s.inventory body.items r items sound.plenty positive e).known
            fresh refl)
