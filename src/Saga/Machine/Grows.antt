-- ===== src/Saga/Machine/Grows.antt =====
-- What any use of the store keeps: its consistency, and what a session cannot lose.
use ihms_oms.Prelude.{String, ◌≡◌, ◌≢◌, refl, sym, subst, ◌∙◌, inl, inr, true, none, arith}
use ihms_oms.Session.Models.{Uuid, Timestamp, SessionState, CheckoutSession, new_session}
use ihms_oms.Session.Store
use ihms_oms.Saga.World.{SagaStore, store_session}
use ihms_oms.Saga.Machine.{Stored, SagaSteps}
use ihms_oms.Saga.Machine.Consistent.{IsConsistent, has_order}
use ihms_oms.Saga.Machine.Saves.{Stored-save_ne, Stored-save_cases}
use ihms_oms.Saga.Machine.Preserved.{SagaSteps-IsConsistent}
use ihms_oms.Saga.Machine.Permanent.{Moves, stay, move, Endures, Endures-refl, SagaSteps-Endures}

pub record Grows (st st' : SagaStore) : Type 0 where
  pub consistent : IsConsistent st'
  pub endures :
      (j : Uuid) (t : CheckoutSession)
      → Stored st j t
      → (t' : CheckoutSession) × Stored st' j t' × Endures t t'

Moves-trans : {a b c : SessionState} → Moves a b → Moves b c → Moves a c
Moves-trans p stay = p
Moves-trans p (move c q d) = move c (Moves-trans p q) d

Endures-trans : (t u v : CheckoutSession) → Endures t u → Endures u v → Endures t v
Endures-trans t u v a b = record {
  moved = Moves-trans a.moved b.moved;
  kept_order = λ p.
      let (q, o, k) = a.kept_order p in let (q', o', k') = b.kept_order q in (q', o' ∙ o, k' ∙ k);
  kept_all = λ p. let e = a.kept_all p in b.kept_all (rw e p) ∙ e;
}

pub Grows-refl : {st : SagaStore} → IsConsistent st → Grows st st
Grows-refl good = record { consistent = good; endures = λ j t h. (t, h, Endures-refl t) }

pub Grows-trans : {a b c : SagaStore} → Grows a b → Grows b c → Grows a c
Grows-trans p q = record {
  consistent = q.consistent;
  endures = λ j t h.
      let (u, hu, eu) = p.endures j t h in
      let (v, hv, ev) = q.endures j u hu in (v, hv, Endures-trans t u v eu ev);
}

pub SagaSteps-Grows : {st st' : SagaStore} → IsConsistent st → SagaSteps st st' → Grows st st'
SagaSteps-Grows good p = record {
  consistent = SagaSteps-IsConsistent good p;
  endures = λ j t h. (SagaSteps-Endures good p j t h).1;
}

module _ {st : SagaStore} (good : IsConsistent st) (i : Uuid) (c : String) (time : Timestamp)
    (fresh : Store.get i st.sessions ≡ none) where
  not_fresh : (j : Uuid) (t : CheckoutSession) → Stored st j t → j ≢ i
  not_fresh j t h e = let h' = subst (λ k. Stored st k t) e h in cc

  created-IsConsistent : IsConsistent (store_session (new_session i c time) st)
  created-IsConsistent = record {
    keyed = λ j t h. elim (Stored-save_cases st (new_session i c time) j t h) [
      | inl (ej, et) ↦ rw et (sym ej)
      | inr (ne, h') ↦ good.keyed j t h'
    ];
    fitting = λ j t h. elim (Stored-save_cases st (new_session i c time) j t h) [
      | inl (ej, et) ↦ rw et refl
      | inr (ne, h') ↦ good.fitting j t h'
    ];
    order_cached = λ j t h p. elim (Stored-save_cases st (new_session i c time) j t h) [
      | inl (ej, et) ↦ absurd (ground (arith, subst (λ x. has_order x.state ≡ true) et p))
      | inr (ne, h') ↦
          (let (k, oc) = good.order_cached j t h' p in
            (k, record { has_key = oc.has_key; placed = oc.placed; cached = oc.cached }))
    ];
    cache_backed = λ j k r q.
        let (t, h, e, oc) = good.cache_backed j k r q in
        (
          t,
          Stored-save_ne st (new_session i c time) j t (not_fresh j t h) h,
          e,
          record { has_key = oc.has_key; placed = oc.placed; cached = oc.cached },
        );
  }

  -- A new session under an id that no session has.
  pub created-Grows : Grows st (store_session (new_session i c time) st)
  created-Grows = record {
    consistent = created-IsConsistent;
    endures = λ j t h.
        (t, Stored-save_ne st (new_session i c time) j t (not_fresh j t h) h, Endures-refl t);
  }
