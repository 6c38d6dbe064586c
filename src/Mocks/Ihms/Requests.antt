-- ===== src/Mocks/Ihms/Requests.antt =====
-- The requests to the mock of IHMS (docker/mock-upstreams/ihms/app.py), and what one does to the stock.
use ihms_oms.Prelude.{String, ◌≡◌, refl, Option, none, List, [], ◌∷◌, lookup, string_eq, All, arith}
use ihms_oms.Prelude.Int.{ℤ}
use ihms_oms.Session.Models.{Timestamp, Uuid}
use ihms_oms.Gateway.Models.{Response}
use ihms_oms.Mocks.Ihms.{
  MockState, available, Reply, CreateHoldBody, hold_id_of, create_hold, get_hold, release_hold,
  fulfill_hold, set_scenario, reset_state, default_inventory, returned,
}
use ihms_oms.Mocks.Ihms.Reserve.{IsPositive, NonNegative}
use ihms_oms.Mocks.Ihms.Account.{total, total-no_holds, IsSound}
use ihms_oms.Mocks.Ihms.Kept.{
  create_hold-Accounted, get_hold-Accounted, release_hold-Accounted, fulfill_hold-Accounted,
  set_scenario-Accounted,
}

-- A creation comes with what uuid4 and the clock answer.
pub data Request : Type 0 where
  create : CreateHoldBody → (drawn : Uuid) → (now : Timestamp) → Request
  show release fulfill : String → Request
  force : Option ℤ → Request
  reset : Request

unfoldable pub answer : Request → MockState → Reply × MockState
answer (create body drawn now) s = create_hold body drawn now s
answer (show i) s = get_hold i s
answer (release i) s = release_hold i s
answer (fulfill i) s = fulfill_hold i s
answer (force status) s = set_scenario status s
answer reset s = reset_state s

unfoldable pub answer_all : List Request → MockState → List Reply × MockState
answer_all [] s = ([], s)
answer_all (r ∷ rs) s =
    let (reply, s') = answer r s in let (replies, s'') = answer_all rs s' in (reply ∷ replies, s'')

-- A creation asks for positive quantities, and gets an id that no hold has.
abbrev pub Allowed : Request → MockState → Type 0
Allowed (create body drawn now) s =
    All IsPositive body.items × (lookup (hold_id_of drawn) s.holds ≡ none)
Allowed _ s = Unit

abbrev pub AllAllowed : List Request → MockState → Type 0
AllAllowed [] s = Unit
AllAllowed (r ∷ rs) s = Allowed r s × AllAllowed rs (answer r s).1

default-plenty : NonNegative default_inventory
unfolding lookup
default-plenty p = ground arith

-- What the stock of a product and the holds of it sum up to after a request that finds the sum `n`: a
-- reset brings the default stock back, and no other request changes the sum.
abbrev pub due_after : String → Request → ℤ → ℤ
due_after p (create body drawn now) n = n
due_after p (show i) n = n
due_after p (release i) n = n
due_after p (fulfill i) n = n
due_after p (force status) n = n
due_after p reset n = available default_inventory p

abbrev pub due : String → List Request → ℤ → ℤ
due p [] n = n
due p (r ∷ rs) n = due p rs (due_after p r n)

-- The handler answered, from stock that covers the holds, and the sum is the one that is due.
pub record AsDue (r : Request) (s : MockState) (a : Reply × MockState) : Type 0 where
  pub answered : (x : Response) × (a.0 ≡ returned x)
  pub sound : IsSound a.1
  pub sums : (p : String) → total p a.1 ≡ due_after p r (total p s)

reset-AsDue : (s : MockState) → AsDue reset s (reset_state s)
unfolding reset_state
reset-AsDue s = record {
  answered = (_, refl);
  sound = record { plenty = default-plenty; owing = tt };
  sums = λ p. total-no_holds p (available default_inventory p);
}

pub answer-AsDue : (r : Request) (s : MockState) → IsSound s → Allowed r s → AsDue r s (answer r s)
unfolding answer
answer-AsDue (create body drawn now) s sound (positive, fresh) =
    let v = create_hold-Accounted s sound body drawn now positive fresh in
    record { answered = v.answered; sound = v.sound; sums = v.conserved }
answer-AsDue (show i) s sound allowed =
    let v = get_hold-Accounted s sound i in
    record { answered = v.answered; sound = v.sound; sums = v.conserved }
answer-AsDue (release i) s sound allowed =
    let v = release_hold-Accounted s sound i in
    record { answered = v.answered; sound = v.sound; sums = v.conserved }
answer-AsDue (fulfill i) s sound allowed =
    let v = fulfill_hold-Accounted s sound i in
    record { answered = v.answered; sound = v.sound; sums = v.conserved }
answer-AsDue (force status) s sound allowed =
    let v = set_scenario-Accounted s sound status in
    record { answered = v.answered; sound = v.sound; sums = v.conserved }
answer-AsDue reset s sound allowed = reset-AsDue s
