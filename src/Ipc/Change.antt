-- ===== src/Ipc/Change.antt =====
-- Changes of one process that leave the senders and the queues as they are.
use canalotus.Common.{
  ℕ, ◌^◌, ◌<◌, ◌≡◌, refl, sym, ◌∙◌, ◌≢◌, inl, inr, eq_cases, ==_refl, ==_of_ne, update, List, arith,
}
use canalotus.State.{Process, Table, is_sending_to}
use canalotus.Ipc.{ldt_seg_linear, index_ldt_rw}
use canalotus.Ipc.Walk.{is_sending}
use canalotus.Ipc.Valid.{IsValid, Mode, Chain, Chain-frame, Walk-frame}

-- `q` waits to send as `p` does, and its pointers and segments are those of `p`.
pub record Alike (p q : Process) : Type 0 where
  pub segments : q.ldts ≡ p.ldts
  pub first : q.q_sending ≡ p.q_sending
  pub next : q.next_sending ≡ p.next_sending
  pub flag : is_sending q ≡ is_sending p
  pub target : q.p_sendto ≡ p.p_sendto
  pub sends : (e : ℕ) → is_sending_to e q ≡ is_sending_to e p

-- What holds of the new entry and of the old entries holds of the new table.
pub update-cases {κ} :
    (P : Process → Type κ) (t : Table) (d : ℕ) (q : Process) (p : ℕ)
    → (p ≡ d → P q)
    → (p ≢ d → P (t p))
    → P (update t d q p)
update-cases P t d q p there elsewhere = elim (eq_cases p d) [
  | inl e ↦ rw (e, ==_refl d) (there e)
  | inr e ↦ rw (==_of_ne p d e) (elsewhere e)
]

pub seg_of_ldts :
    (p q : Process)
    → q.ldts ≡ p.ldts
    → ldt_seg_linear q index_ldt_rw ≡ ldt_seg_linear p index_ldt_rw
unfolding ldt_seg_linear
seg_of_ldts p q e = rw e

module _ {t : Table} {qs : ℕ → List ℕ} {d : ℕ} {q : Process} (v : IsValid t qs)
    (a : Alike (t d) q) where
  same_next : (p : ℕ) → (update t d q p).next_sending ≡ (t p).next_sending
  same_next p = ground (arith, a.next)

  same_sends : (e p : ℕ) → is_sending_to e (update t d q p) ≡ is_sending_to e (t p)
  same_sends e p =
      update-cases (λ z. is_sending_to e z ≡ is_sending_to e (t p)) t d q p (λ h. rw h (a.sends e))
        (λ h. refl)

  same_walk :
      (p : ℕ)
      → (is_sending (update t d q p) ≡ is_sending (t p))
        × ((update t d q p).p_sendto ≡ (t p).p_sendto)
  same_walk p =
      update-cases (λ z. (is_sending z ≡ is_sending (t p)) × (z.p_sendto ≡ (t p).p_sendto)) t d q p
        (λ h. rw h (a.flag, a.target)) (λ h. (refl, refl))

  pub IsValid-update : q.p_msg < 2 ^ 32 → Mode q → IsValid (update t d q) qs
  IsValid-update small mode = record {
    flat = λ p h.
        update-cases (λ z. ldt_seg_linear z index_ldt_rw ≡ 0) t d q p
          (λ e. seg_of_ldts (t d) q a.segments ∙ v.flat d (rw e at h)) (λ e. v.flat p h);
    small = λ p h. update-cases (λ z. z.p_msg < 2 ^ 32) t d q p (λ e. small) (λ e. v.small p h);
    mode = λ p h. update-cases Mode t d q p (λ e. mode) (λ e. v.mode p h);
    chain = λ p h.
        Chain-frame t (update t d q) (qs p) (update t d q p).q_sending (λ x i. same_next x)
          (update-cases (λ z. Chain t z.q_sending (qs p)) t d q p
            (λ e. rw (a.first, ← e) (v.chain p h)) (λ e. v.chain p h));
    distinct = v.distinct;
    queued = λ e p h i. ((v.queued e p h i).0, same_sends e p ∙ (v.queued e p h i).1);
    sender = λ e p h i s. v.sender e p h i (sym (same_sends e p) ∙ s);
    acyclic = λ p h. let (xs, w) = v.acyclic p h in (xs, Walk-frame (λ x i. same_walk x) w);
  }
