-- ===== src/Mocks/Ihms/Kept.antt =====
-- Each handler of the mock of IHMS accounts for every unit.
use ihms_oms.Prelude.{
  String, ◌≡◌, refl, Option, none, some, List, [], insert, remove, lookup, string_eq, All, sym, ap,
  ◌∙◌, Bool-cases, inl, inr,
}
use ihms_oms.Prelude.Int.{ℤ, pos, ◌+ℤ◌, ◌≤ℤ◌, int_rules, above, below}
use ihms_oms.Session.Models.{Timestamp, Uuid}
use ihms_oms.Gateway.Models.{
  HoldStatus, active, released, expired, fulfilled, HoldItemResponse, Response,
}
use ihms_oms.Mocks.Ihms.{
  Amounts, HoldRecord, MockState, available, reserve_items, Reply, returned, CreateHoldBody,
  take_stock, new_hold, hold_id_of, create_unforced, create_hold, get_hold, shown_hold, shown_found,
  is_fulfilled, is_409, release_found, release_hold, fulfill_found, fulfill_hold, set_scenario,
}
use ihms_oms.Mocks.Ihms.Stock.{amount, deduct_lem, restore_lem}
use ihms_oms.Mocks.Ihms.Reserve.{Reservation, IsPositive, reserved-Reservation}
use ihms_oms.Mocks.Ihms.Account.{
  on_hold, on_hold_of, total, on_hold-insert, on_hold-remove, IsSound, Owing-insert, Owing-remove,
  Owing-lookup,
}

-- The handler answered, and every unit is still in stock or on a hold.
pub record Accounted (s : MockState) (a : Reply × MockState) : Type 0 where
  pub answered : (x : Response) × (a.0 ≡ returned x)
  pub sound : IsSound a.1
  pub conserved : (p : String) → total p a.1 ≡ total p s

Accounted-same : {s : MockState} (x : Response) → IsSound s → Accounted s (returned x, s)
Accounted-same x sound = record { answered = (x, refl); sound = sound; conserved = λ p. refl }

-- A unit moves from the stock to a hold, and back.
moved : (a h q b k : ℤ) → b +ℤ q ≡ a → k +ℤ pos 0 ≡ h +ℤ q → b +ℤ k ≡ a +ℤ h
moved a h q b k e f = omega (int_rules, ap above e, ap below e, ap above f, ap below f)

moved_back : (a h q b k : ℤ) → b ≡ a +ℤ q → k +ℤ q ≡ h → b +ℤ k ≡ a +ℤ h
moved_back a h q b k e f = omega (int_rules, ap above e, ap below e, ap above f, ap below f)

remains : (a q b : ℤ) → b +ℤ q ≡ a → q ≤ℤ a → pos 0 ≤ℤ b
remains a q b e f = omega (int_rules, ap above e, ap below e)

grown : (a q b : ℤ) → b ≡ a +ℤ q → pos 0 ≤ℤ a → pos 0 ≤ℤ q → pos 0 ≤ℤ b
grown a q b e f g = omega (int_rules, ap above e, ap below e)

renamed : (k q h : ℤ) → k +ℤ q ≡ h +ℤ q → k ≡ h
renamed k q h e = omega (int_rules, ap above e, ap below e)

shown_found-returns :
    (status : HoldStatus) (r : HoldRecord) → (x : Response) × (shown_found status r ≡ returned x)
unfolding shown_found
shown_found-returns active r = (_, refl)
shown_found-returns released r = (_, refl)
shown_found-returns expired r = (_, refl)
shown_found-returns fulfilled r = (_, refl)

module _ (s : MockState) (sound : IsSound s) where
  take_stock-Accounted :
      (r : HoldRecord)
      → Reservation s.inventory r.reserved
      → lookup r.hold_id s.holds ≡ none
      → Accounted s (take_stock r s)
  unfolding take_stock
  take_stock-Accounted r v fresh =
      let off = λ (p : String). deduct_lem p r.reserved s.inventory v.known in
      rw (off "").0 (record {
        answered = (_, refl);
        sound = record {
          plenty = λ p. remains _ _ _ (off p).1 (v.covered p);
          owing = Owing-insert r.hold_id r s.holds v.owed sound.owing;
        };
        conserved = λ p. moved _ _ _ _ _ (off p).1 (
            ap (λ o. on_hold p (insert r.hold_id r s.holds) +ℤ on_hold_of p o) (sym fresh)
            ∙ on_hold-insert p r.hold_id r s.holds);
      })

  pub create_hold-Accounted :
      (body : CreateHoldBody) (drawn : Uuid) (now : Timestamp)
      → All IsPositive body.items
      → lookup (hold_id_of drawn) s.holds ≡ none
      → Accounted s (create_hold body drawn now s)
  unfolding create_hold create_unforced
  create_hold-Accounted body drawn now positive fresh =
      elim (Bool-cases (is_409 s.force_hold_status)) [
        | inl e ↦ rw e (Accounted-same _ sound)
        | inr e ↦ rw e (go (reserve_items s.inventory body.items [] []) refl)
      ]
    where
      go :
          (o : Option (Amounts × List HoldItemResponse))
          → reserve_items s.inventory body.items [] [] ≡ o
          → Accounted s (create_unforced body drawn now s)
      go none e = rw (e, create_unforced) (Accounted-same _ sound)
      go (some (r, items)) e =
          rw (e, create_unforced)
            (take_stock-Accounted (new_hold (hold_id_of drawn) now r items)
              (reserved-Reservation s.inventory body.items r items sound.plenty positive e) fresh)

  pub get_hold-Accounted : (i : String) → Accounted s (get_hold i s)
  unfolding get_hold shown_hold
  get_hold-Accounted i = record {
    answered = go (lookup i s.holds);
    sound = sound;
    conserved = λ p. refl;
  }
    where
      go : (o : Option HoldRecord) → (x : Response) × (shown_hold o ≡ returned x)
      go none = (_, refl)
      go (some r) = shown_found-returns r.status r

  pub release_hold-Accounted : (i : String) → Accounted s (release_hold i s)
  unfolding release_hold release_found
  release_hold-Accounted i = go (lookup i s.holds) refl
    where
      found : (r : HoldRecord) → lookup i s.holds ≡ some r → Accounted s (release_found i r s)
      found r e = elim (Bool-cases (is_fulfilled r.status)) [
        | inl h ↦ rw (h, release_found) (Accounted-same _ sound)
        | inr h ↦
            rw (h, release_found)
              (record {
                answered = (_, refl);
                sound = record {
                  plenty = λ p.
                      grown _ _ _ (restore_lem p r.reserved s.inventory) (sound.plenty p)
                        (Owing-lookup i r s.holds e sound.owing p);
                  owing = Owing-remove i s.holds sound.owing;
                };
                conserved = λ p. moved_back _ _ _ _ _ (restore_lem p r.reserved s.inventory) (
                    ap (λ o. on_hold p (remove i s.holds) +ℤ on_hold_of p o) (sym e)
                    ∙ on_hold-remove p i s.holds);
              })
      ]

      go : (o : Option HoldRecord) → lookup i s.holds ≡ o → Accounted s (release_hold i s)
      go none e = rw (e, release_hold) (Accounted-same _ sound)
      go (some r) e = rw (e, release_hold) (found r e)

  pub fulfill_hold-Accounted : (i : String) → Accounted s (fulfill_hold i s)
  unfolding fulfill_hold fulfill_found
  fulfill_hold-Accounted i = go (lookup i s.holds) refl
    where
      found : (r : HoldRecord) → lookup i s.holds ≡ some r → Accounted s (fulfill_found i r s)
      found r e = elim (Bool-cases (is_fulfilled r.status)) [
        | inl h ↦ rw (h, fulfill_found) (Accounted-same _ sound)
        | inr h ↦
            rw (h, fulfill_found)
              (record {
                answered = (_, refl);
                sound = record {
                  plenty = sound.plenty;
                  owing =
                      Owing-insert i (record r { status = fulfilled }) s.holds
                        (Owing-lookup i r s.holds e sound.owing) sound.owing;
                };
                conserved = λ p.
                    let kept : on_hold p (insert i (record r { status = fulfilled }) s.holds)
                          +ℤ amount p r.reserved
                        ≡ on_hold p s.holds +ℤ amount p r.reserved =
                      ap
                        (λ o.
                          on_hold p (insert i (record r { status = fulfilled }) s.holds)
                          +ℤ on_hold_of p o)
                        (sym e)
                      ∙ on_hold-insert p i (record r { status = fulfilled }) s.holds in
                    ap (λ x. available s.inventory p +ℤ x) (renamed _ _ _ kept);
              })
      ]

      go : (o : Option HoldRecord) → lookup i s.holds ≡ o → Accounted s (fulfill_hold i s)
      go none e = rw (e, fulfill_hold) (Accounted-same _ sound)
      go (some r) e = rw (e, fulfill_hold) (found r e)

  pub set_scenario-Accounted : (status : Option ℤ) → Accounted s (set_scenario status s)
  unfolding set_scenario
  set_scenario-Accounted status = record {
    answered = (_, refl);
    sound = record { plenty = sound.plenty; owing = sound.owing };
    conserved = λ p. refl;
  }
