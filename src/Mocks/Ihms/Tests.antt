-- ===== src/Mocks/Ihms/Tests.antt =====
-- The mock of IHMS with its default stock.
use ihms_oms.Prelude.{◌≡◌, refl, List, [], ◌∷◌, lookup, insert, remove, string_eq, arith, All}
use ihms_oms.Prelude.Int.{pos, ◌+ℤ◌, ◌-ℤ◌}
use ihms_oms.Mocks.Ihms.{
  new_state, CreateHoldBody, available, hold_id_of, create_hold, fulfill_hold, release_hold,
  get_hold, create_unforced, take_stock, reserve_items, deduct, restore, fulfill_found,
  release_found, reset_state,
}
use ihms_oms.Prelude.Numerals.{hex_onto}
use ihms_oms.Mocks.Ihms.Account.{total, IsSound}
use ihms_oms.Mocks.Ihms.Requests.{
  Request, create, show, release, fulfill, reset, due, answer, answer_all, AllAllowed,
}
use ihms_oms.Mocks.Ihms.Runs.{
  NoKeyError, Alike, answer_all-IsSound, answer_all-conserves, release_hold-create_hold,
}

new_state-IsSound : IsSound new_state
unfolding lookup
new_state-IsSound = record { plenty = λ p. ground arith; owing = tt }

abbrev two_mice : CreateHoldBody
two_mice = record { items = record { product_id = "prod-001"; quantity = pos 2 } ∷ [] }

-- Two holds, of which one is finalised and the other given up.
abbrev visit : List Request
visit =
    create two_mice 0x10000000000000000000000000000000 5
    ∷ create two_mice 0x20000000000000000000000000000000 6
    ∷ fulfill "hold-100000000000"
    ∷ release "hold-200000000000"
    ∷ show "hold-200000000000"
    ∷ reset
    ∷ create two_mice 0x10000000000000000000000000000000 7
    ∷ []

visit-AllAllowed : AllAllowed visit new_state
unfolding answer create_hold fulfill_hold release_hold get_hold create_unforced take_stock
    reserve_items deduct restore fulfill_found release_found hold_id_of lookup insert hex_onto
    reset_state
visit-AllAllowed = (
  ((omega arith, tt), refl),
  (((omega arith, tt), refl), (tt, (tt, (tt, (tt, (((omega arith, tt), refl), tt)))))),
)

left_over : available (answer_all visit new_state).1.inventory "prod-001" ≡ pos 118
unfolding answer_all answer create_hold fulfill_hold release_hold get_hold create_unforced
    take_stock reserve_items deduct restore fulfill_found release_found hold_id_of lookup insert
    remove hex_onto reset_state ◌-ℤ◌ ◌+ℤ◌
left_over = refl

answer_all-IsSound_example :
    All NoKeyError (answer_all visit new_state).0 × IsSound (answer_all visit new_state).1
answer_all-IsSound_example = answer_all-IsSound visit new_state new_state-IsSound visit-AllAllowed

answer_all-conserves_example :
    total "prod-001" (answer_all visit new_state).1
    ≡ due "prod-001" visit (total "prod-001" new_state)
answer_all-conserves_example =
    answer_all-conserves visit new_state new_state-IsSound visit-AllAllowed "prod-001"

release_hold-create_hold_example :
    Alike (release_hold (hold_id_of 7) (create_hold two_mice 7 5 new_state).1).1 new_state
unfolding lookup
release_hold-create_hold_example =
    release_hold-create_hold new_state two_mice 7 5 new_state-IsSound (omega arith, tt) refl
