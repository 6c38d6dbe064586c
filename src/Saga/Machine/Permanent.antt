-- ===== src/Saga/Machine/Permanent.antt =====
-- What a transition cannot undo: a session stays stored and moves along the documented graph, its
-- order stays its order, and a terminal session stays as it is.
use ihms_oms.Prelude.{
  String, ◌≡◌, refl, sym, subst, ◌∙◌, ◌⊎◌, inl, inr, Bool, true, false, none, some, arith,
  Bool-cases, nat_beq, nat_beq_iff,
}
use ihms_oms.Session.Models.{
  Uuid, SessionState, created, held, fulfill_pending, confirmed, abandoned, compensated, reconciled,
  CheckoutSession, terminal_state,
}
use ihms_oms.Saga.World.{SagaStore, store_session}
use ihms_oms.Saga.Coordinator.Outcomes.{with_order}
use ihms_oms.Saga.Coordinator.Hold.{held_session}
use ihms_oms.Saga.Machine.{
  Stored, order_leads, KeyFree, SameOrder, SagaStep, hold_placed, key_kept, order_recorded,
  hold_compensated, checkout_abandoned, SagaSteps, here, step,
}
use ihms_oms.Saga.Machine.Consistent.{has_order, IsConsistent, Stored-unique}
use ihms_oms.Saga.Machine.Saves.{Stored-save_self, Stored-save_ne}
use ihms_oms.Saga.Machine.Preserved.{SagaStep-IsConsistent}

-- The arrows of the state machine in docs/WORKFLOWS.md.
abbrev pub documented : SessionState → SessionState → Bool
documented created held = true
documented created abandoned = true
documented held confirmed = true
documented held fulfill_pending = true
documented held compensated = true
documented held reconciled = true
documented held abandoned = true
documented fulfill_pending confirmed = true
documented _ _ = false

pub data Moves (a : SessionState) : SessionState → Type 0 where
  stay : Moves a a
  move : {b : SessionState} (c : SessionState) → Moves a b → documented b c ≡ true → Moves a c

-- What is left of a session after a transition: it moved along at most one arrow; with an order, it
-- kept the order and the key; terminal, it kept everything.
pub record Lasts (t t' : CheckoutSession) : Type 0 where
  pub moved : (t'.state ≡ t.state) ⊎ (documented t.state t'.state ≡ true)
  pub kept_order :
      has_order t.state ≡ true
      → (has_order t'.state ≡ true)
        × (t'.order_id ≡ t.order_id)
        × (t'.idempotency_key ≡ t.idempotency_key)
  pub kept_all : terminal_state t.state ≡ true → t' ≡ t

Lasts-refl : (t : CheckoutSession) → Lasts t t
Lasts-refl t = record { moved = inl refl; kept_order = λ p. (p, refl, refl); kept_all = λ _. refl }

module _ {st : SagaStore} (good : IsConsistent st) (i : Uuid) (s s' : CheckoutSession)
    (stored : Stored st i s) where
  save-Lasts :
      s'.session_id ≡ s.session_id
      → Lasts s s'
      → (j : Uuid) (t : CheckoutSession) → Stored st j t
      → (t' : CheckoutSession) × Stored (store_session s' st) j t' × Lasts t t'
  save-Lasts same lasts j t h = elim (Bool-cases (nat_beq j s'.session_id)) [
    | inl e ↦
        (let ej : j ≡ s'.session_id = (nat_beq_iff j s'.session_id).0 e in
          let et : t ≡ s =
            Stored-unique st j t s h
              (subst (λ k. Stored st k s) (sym (ej ∙ same ∙ good.keyed i s stored)) stored) in
          (s', rw ej (Stored-save_self st s'), rw et lasts))
    | inr e ↦
        (t, Stored-save_ne st s' j t (ground (arith, nat_beq_iff j s'.session_id)) h, Lasts-refl t)
  ]

  ordered-Lasts :
      (target : SessionState) (o : Uuid) (key : String)
      → order_leads s.state target ≡ true
      → KeyFree s key
      → SameOrder s o
      → Lasts s (with_order target o key s)
  ordered-Lasts target o key leads free same =
      let fit = good.fitting i s stored in
      record {
        moved = ground arith;
        kept_order = λ p. ground arith;
        kept_all = λ p. absurd (ground arith);
      }

-- A transition leaves every session in the store, moved along at most one arrow of the documented
-- graph; an order and its key last, and so does a terminal session.
pub SagaStep-Lasts :
    {st st' : SagaStore}
    → IsConsistent st
    → SagaStep st st'
    → (j : Uuid) (t : CheckoutSession) → Stored st j t
    → (t' : CheckoutSession) × Stored st' j t' × Lasts t t'
SagaStep-Lasts good (hold_placed i s hold customer items h e) =
    save-Lasts good i s (held_session hold customer items s) h refl (record {
      moved = ground arith;
      kept_order = λ p. absurd (ground arith);
      kept_all = λ p. absurd (ground arith);
    })
SagaStep-Lasts good (key_kept i s key h e n) =
    save-Lasts good i s (record s { idempotency_key = some key }) h refl
      (record {
        moved = inl refl;
        kept_order = λ p. absurd (ground arith);
        kept_all = λ p. absurd (ground arith);
      })
SagaStep-Lasts good (order_recorded i s target o key h leads hold free same) =
    save-Lasts good i s (with_order target o key s) h refl
      (ordered-Lasts good i s s h target o key leads free same)
SagaStep-Lasts good (hold_compensated i s h e n) =
    save-Lasts good i s (record s { state = compensated; idempotency_key = none }) h refl
      (record {
        moved = ground arith;
        kept_order = λ p. absurd (ground arith);
        kept_all = λ p. absurd (ground arith);
      })
SagaStep-Lasts good (checkout_abandoned i s h e) =
    save-Lasts good i s (record s { state = abandoned }) h refl
      (record {
        moved = ground arith;
        kept_order = λ p. absurd (ground arith);
        kept_all = λ p. absurd (ground arith);
      })

-- The same over many transitions.
pub record Endures (t t' : CheckoutSession) : Type 0 where
  pub moved : Moves t.state t'.state
  pub kept_order :
      has_order t.state ≡ true
      → (has_order t'.state ≡ true)
        × (t'.order_id ≡ t.order_id)
        × (t'.idempotency_key ≡ t.idempotency_key)
  pub kept_all : terminal_state t.state ≡ true → t' ≡ t

pub Endures-refl : (t : CheckoutSession) → Endures t t
Endures-refl t = record { moved = stay; kept_order = λ p. (p, refl, refl); kept_all = λ _. refl }

Moves-next :
    {a b : SessionState} (c : SessionState)
    → Moves a b
    → (c ≡ b) ⊎ (documented b c ≡ true)
    → Moves a c
Moves-next c m (inl e) = rw e m
Moves-next c m (inr d) = move c m d

Endures-next : (t u v : CheckoutSession) → Endures t u → Lasts u v → Endures t v
Endures-next t u v a b = record {
  moved = Moves-next v.state a.moved b.moved;
  kept_order = λ p.
      let (q, o, k) = a.kept_order p in let (q', o', k') = b.kept_order q in (q', o' ∙ o, k' ∙ k);
  kept_all = λ p. let e = a.kept_all p in b.kept_all (rw e p) ∙ e;
}

-- However often the saga moves, every session stays in the store, moved along the documented
-- arrows; an order and its key last, and so does a terminal session.
pub SagaSteps-Endures :
    {st st' : SagaStore}
    → IsConsistent st
    → SagaSteps st st'
    → (j : Uuid) (t : CheckoutSession) → Stored st j t
    → IsConsistent st' × ((t' : CheckoutSession) × Stored st' j t' × Endures t t')
SagaSteps-Endures good here j t h = (good, (t, h, Endures-refl t))
SagaSteps-Endures good (step p q) j t h =
    let (good', (u, hu, eu)) = SagaSteps-Endures good p j t h in
    let (v, hv, lv) = SagaStep-Lasts good' q j u hu in
    (SagaStep-IsConsistent good' q, (v, hv, Endures-next t u v eu lv))
