-- ===== src/Ipc/Receive/Leaving.antt =====
-- The invariant after a sender has left a queue, its message taken.
use canalotus.Common.{
  ℕ, ◌^◌, ◌<◌, ◌≡◌, refl, sym, ◌∙◌, ◌≢◌, inl, inr, true, false, not, ◌&&◌, ◌==◌, Bool-cases,
  eq_cases, ==_refl, ==_of_ne, update, Option, none, List, [], ◌∷◌, has, Distinct, without, arith,
}
use mathlib.Core.Path.{subst}
use canalotus.State.{Process, Table, nr_procs, no_proc, is_sending_to}
use canalotus.Ipc.{ldt_seg_linear, index_ldt_rw}
use canalotus.Ipc.Walk.{is_sending, Walk, end, step}
use canalotus.Ipc.Valid.{IsValid, Mode, Chain, Chain-frame}
use canalotus.Ipc.Receive.Leave.{Left}
use canalotus.Ipc.Change.{seg_of_ldts}

-- a sender whose message was taken
abbrev pub freed : Process → Process
freed p = record p { p_msg = 0; p_sendto = no_proc; p_flags = 0 }

has-without_iff : (a b : ℕ) (xs : List ℕ) → has a (without b xs) ≡ (has a xs && not (a == b))
has-without_iff a b [] = refl
has-without_iff a b (x ∷ xs) = ground (arith, has-without_iff a b xs)

Distinct-without : (b : ℕ) (xs : List ℕ) → Distinct xs → Distinct (without b xs)
Distinct-without b [] d = tt
Distinct-without b (x ∷ xs) d = elim (Bool-cases (x == b)) [
  | inl e ↦ rw e (Distinct-without b xs d.1)
  | inr e ↦ rw e (ground (arith, has-without_iff x b xs, d.0), Distinct-without b xs d.1)
]

module _ {t t' : Table} {qs : ℕ → List ℕ} {cnt from : ℕ} (v : IsValid t qs) (hc : cnt < nr_procs)
    (ne : from ≢ cnt) (member : has from (qs cnt) ≡ true) (j : Left t t' cnt from (qs cnt)) where
  abbrev t2 : Table
  t2 = update t' from (freed (t' from))

  hf : from < nr_procs
  hf = (v.queued cnt from hc member).0

  sends_here : is_sending_to cnt (t from) ≡ true
  sends_here = (v.queued cnt from hc member).1

  -- what holds of the process that left and, whatever the pointers, of the others
  by_cases :
      (P : Process → Type 0) (p : ℕ)
      → (p ≡ from → P (freed (record (t from) { next_sending = none })))
      → ((a b : Option ℕ) → p ≢ from → P (record (t p) { q_sending = a; next_sending = b }))
      → P (t2 p)
  by_cases P p there elsewhere = elim (eq_cases p from) [
    | inl e ↦ rw (e, ==_refl from, j.self) (there e)
    | inr h ↦ rw (==_of_ne p from h, j.other p h) (elsewhere (t' p).q_sending (t' p).next_sending h)
  ]

  same_pointers :
      (p : ℕ) → ((t2 p).q_sending ≡ (t' p).q_sending) × ((t2 p).next_sending ≡ (t' p).next_sending)
  same_pointers p = ground arith

  elsewhere_queued :
      (e p : ℕ) → e < nr_procs → e ≢ cnt → has p (qs e) ≡ true → has p (qs cnt) ≡ false
  elsewhere_queued e p he h i = elim (Bool-cases (has p (qs cnt))) [
    | inl both ↦ absurd (ground (arith, v.queued e p he i, v.queued cnt p hc both))
    | inr o ↦ o
  ]

  abbrev queues : ℕ → List ℕ
  queues = update qs cnt (without from (qs cnt))

  chains : (e : ℕ) → e < nr_procs → Chain t2 (t2 e).q_sending (queues e)
  chains e h = elim (eq_cases e cnt) [
    | inl same ↦
        rw (same, ==_refl cnt, (same_pointers cnt).0)
          (Chain-frame t' t2 (without from (qs cnt)) (t' cnt).q_sending (λ x i. (same_pointers x).1)
            j.queue)
    | inr off ↦
        rw (==_of_ne e cnt off, (same_pointers e).0, j.first e off)
          (Chain-frame t t2 (qs e) (t e).q_sending
            (λ x i. (same_pointers x).1 ∙ j.next x (elsewhere_queued e x h off i)) (v.chain e h))
  ]

  has-queues : (e p : ℕ) → has p (queues e) ≡ (has p (qs e) && not ((e == cnt) && (p == from)))
  has-queues e p = ground (arith, has-without_iff p from (qs cnt))

  same_target : (e p : ℕ) → p ≢ from → is_sending_to e (t2 p) ≡ is_sending_to e (t p)
  same_target e p off = rw (==_of_ne p from off, j.other p off)

  queued_after :
      (e p : ℕ)
      → e < nr_procs
      → has p (queues e) ≡ true
      → (p < nr_procs) × (is_sending_to e (t2 p) ≡ true)
  queued_after e p h i =
      let old : has p (qs e) ≡ true = ground (arith, has-queues e p) in
      elim (eq_cases p from) [
        | inl same ↦ absurd (ground (arith, has-queues e p, elsewhere_queued e p h))
        | inr off ↦ ((v.queued e p h old).0, same_target e p off ∙ (v.queued e p h old).1)
      ]

  free_target : (e : ℕ) → is_sending_to e (t2 from) ≡ false
  free_target e = rw (==_refl from)

  sender_after :
      (e p : ℕ)
      → e < nr_procs
      → p < nr_procs
      → is_sending_to e (t2 p) ≡ true
      → has p (queues e) ≡ true
  sender_after e p h hp i = elim (eq_cases p from) [
    | inl same ↦
        absurd (ground (arith, free_target e, subst (λ z. is_sending_to e (t2 z) ≡ true) same i))
    | inr off ↦ ground (arith, has-queues e p, v.sender e p h hp (sym (same_target e p off) ∙ i))
  ]

  Distinct-after : (e : ℕ) → e < nr_procs → Distinct (queues e)
  Distinct-after e h = elim (eq_cases e cnt) [
    | inl same ↦ rw (same, ==_refl cnt) (Distinct-without from (qs cnt) (v.distinct cnt hc))
    | inr off ↦ rw (==_of_ne e cnt off) (v.distinct e h)
  ]

  -- A walk that came to `from` ends there; no other changes.
  walks : {p : ℕ} {xs : List ℕ} → Walk t p xs → (ys : List ℕ) × Walk t2 p ys
  walks (end {p} n) =
      (p ∷ [], end (by_cases (λ z. is_sending z ≡ false) p (λ e. ground arith) (λ a b e. n)))
  walks (step {p} {d = e} s w) = elim (eq_cases p from) [
    | inl same ↦ (p ∷ [], end (rw (same, ==_refl from)))
    | inr off ↦
        let (ys, w') = walks w in
        (
          p ∷ ys,
          step
              (record {
                flag = rw (==_of_ne p from off, j.other p off) s.flag;
                target = rw (==_of_ne p from off, j.other p off) s.target;
                in_table = s.in_table;
              })
              w',
        )
  ]

  pub Left-IsValid : IsValid t2 queues
  Left-IsValid = record {
    flat = λ p h.
        by_cases (λ z. ldt_seg_linear z index_ldt_rw ≡ 0) p
          (λ e. seg_of_ldts (t from) _ refl ∙ v.flat from hf)
          (λ a b e. seg_of_ldts (t p) _ refl ∙ v.flat p h);
    small = λ p h. by_cases (λ z. z.p_msg < 2 ^ 32) p (λ e. omega arith) (λ a b e. v.small p h);
    mode = λ p h. by_cases Mode p (λ e. inl (ground (arith, sends_here))) (λ a b e. v.mode p h);
    chain = chains;
    distinct = Distinct-after;
    queued = queued_after;
    sender = sender_after;
    acyclic = λ p h. let (xs, w) = v.acyclic p h in walks w;
  }
