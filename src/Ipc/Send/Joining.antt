-- ===== src/Ipc/Send/Joining.antt =====
-- The invariant after a sender has joined a queue.
use canalotus.Common.{
  ℕ, ◌^◌, ◌<◌, ◌≡◌, refl, sym, ◌∙◌, ◌≢◌, inl, inr, true, false, ◌&&◌, ◌||◌, ◌==◌, Bool-cases,
  eq_cases, ==_refl, ==_of_ne, update, pos, Option, none, List, [], ◌∷◌, ◌++◌, has, has-append,
  Distinct, Distinct-append_one, arith,
}
use canalotus.State.{Process, Table, nr_procs, sending, is_idle, is_sending_to}
use canalotus.Ipc.{ldt_seg_linear, index_ldt_rw}
use canalotus.Ipc.Walk.{Walk, end, step}
use canalotus.Ipc.Deadlock.{Waits, tail, Waits-of-tail, split_head}
use canalotus.Ipc.Valid.{IsValid, Mode, Chain, Chain-frame, Walk-frame}
use canalotus.Ipc.Send.Queue.{Joined}
use canalotus.Ipc.Change.{seg_of_ldts}

-- a process that waits to send the message at `msg` to `d`
abbrev pub marked : (d msg : ℕ) → Process → Process
marked d msg p = record p { p_flags = sending; p_sendto = pos d; p_msg = msg }

module _ {t t' : Table} {qs : ℕ → List ℕ} {s d msg : ℕ} (v : IsValid t qs) (hs : s < nr_procs)
    (hd : d < nr_procs) (ne : s ≢ d) (idle : is_idle (t s) ≡ true) (some_msg : 0 < msg)
    (small : msg < 2 ^ 32) (j : Joined (update t s (marked d msg (t s))) t' s d (qs d)) where
  self : t' s ≡ record (marked d msg (t s)) { next_sending = none }
  self = ground (arith, j.self)

  other :
      (p : ℕ)
      → p ≢ s
      → t' p ≡ record (t p) { q_sending = (t' p).q_sending; next_sending = (t' p).next_sending }
  other p h = rw (==_of_ne p s h) at (j.other p h)

  -- what holds of the process that joined and, whatever the pointers, of the others
  by_cases :
      (P : Process → Type 0) (p : ℕ)
      → (p ≡ s → P (record (marked d msg (t s)) { next_sending = none }))
      → ((a b : Option ℕ) → p ≢ s → P (record (t p) { q_sending = a; next_sending = b }))
      → P (t' p)
  by_cases P p there elsewhere = elim (eq_cases p s) [
    | inl e ↦ rw (e, self) (there e)
    | inr h ↦ rw (other p h) (elsewhere (t' p).q_sending (t' p).next_sending h)
  ]

  same_first : (p : ℕ) → p ≢ d → (t' p).q_sending ≡ (t p).q_sending
  same_first p h = ground (arith, j.first p h)

  not_queued : (e : ℕ) → e < nr_procs → has s (qs e) ≡ false
  not_queued e h = elim (Bool-cases (has s (qs e))) [
    | inl i ↦ absurd (ground (arith, v.queued e s h i))
    | inr o ↦ o
  ]

  same_next : (p : ℕ) → p ≢ s → has p (qs d) ≡ false → (t' p).next_sending ≡ (t p).next_sending
  same_next p h o = ground (arith, j.next p h o)

  -- a process waits in one queue only
  elsewhere_queued : (e p : ℕ) → e < nr_procs → e ≢ d → has p (qs e) ≡ true → has p (qs d) ≡ false
  elsewhere_queued e p he h i = elim (Bool-cases (has p (qs d))) [
    | inl both ↦ absurd (ground (arith, v.queued e p he i, v.queued d p hd both))
    | inr o ↦ o
  ]

  abbrev queues : ℕ → List ℕ
  queues = update qs d (qs d ++ s ∷ [])

  chains : (e : ℕ) → e < nr_procs → Chain t' (t' e).q_sending (queues e)
  chains e h = elim (eq_cases e d) [
    | inl same ↦ rw (same, ==_refl d) j.queue
    | inr off ↦
        rw (==_of_ne e d off, same_first e off)
          (Chain-frame t t' (qs e) (t e).q_sending
            (λ x i.
              same_next x (λ z. absurd (ground (arith, not_queued e h)))
                (elsewhere_queued e x h off i))
            (v.chain e h))
  ]

  has-queues : (e p : ℕ) → has p (queues e) ≡ (has p (qs e) || (e == d) && (s == p))
  has-queues e p = ground (arith, has-append p (qs d) (s ∷ []))

  same_target : (e p : ℕ) → p ≢ s → is_sending_to e (t' p) ≡ is_sending_to e (t p)
  same_target e p off = rw (other p off)

  queued_after :
      (e p : ℕ)
      → e < nr_procs
      → has p (queues e) ≡ true
      → (p < nr_procs) × (is_sending_to e (t' p) ≡ true)
  queued_after e p h i = elim (eq_cases p s) [
    | inl same ↦ rw (same, self) (hs, ground (arith, has-queues e p, not_queued e h))
    | inr off ↦
        let old : has p (qs e) ≡ true = ground (arith, has-queues e p) in
        ((v.queued e p h old).0, same_target e p off ∙ (v.queued e p h old).1)
  ]

  sender_after :
      (e p : ℕ)
      → e < nr_procs
      → p < nr_procs
      → is_sending_to e (t' p) ≡ true
      → has p (queues e) ≡ true
  sender_after e p h hp i = elim (eq_cases p s) [
    | inl same ↦
        let to : is_sending_to e (record (marked d msg (t s)) { next_sending = none }) ≡ true =
          rw (same, self) at i in
        ground (arith, has-queues e p)
    | inr off ↦ ground (arith, has-queues e p, v.sender e p h hp (sym (same_target e p off) ∙ i))
  ]

  -- A walk that came to `s` goes on to `d`; no other changes.
  walks :
      {p : ℕ} {xs ds : List ℕ}
      → Walk t d ds
      → has s ds ≡ false
      → p < nr_procs
      → Walk t p xs
      → (ys : List ℕ) × Walk t' p ys
  walks {p} {ds} wd out hp (end n) = elim (eq_cases p s) [
    | inl same ↦
        let w' =
          Walk-frame {t' = t'} (λ q i. rw (other q (λ e. absurd (ground arith))) (refl, refl)) wd in
        (
          p ∷ ds,
          step (record { flag = rw (same, self); target = rw (same, self); in_table = hd }) w',
        )
    | inr off ↦ (p ∷ [], end (rw (other p off) n))
  ]
  walks {p} wd out hp (step {d = e} sd w) =
      let off : p ≢ s = λ same. absurd (ground (arith, sd.flag)) in
      let (ys, w') = walks wd out sd.in_table w in
      (
        p ∷ ys,
        step
            (record {
              flag = rw (other p off) sd.flag;
              target = rw (other p off) sd.target;
              in_table = sd.in_table;
            })
            w',
      )

  Distinct-after : (e : ℕ) → e < nr_procs → Distinct (queues e)
  Distinct-after e h = elim (eq_cases e d) [
    | inl same ↦
        rw (same, ==_refl d) (Distinct-append_one s (qs d) (v.distinct d hd) (not_queued d hd))
    | inr off ↦ rw (==_of_ne e d off) (v.distinct e h)
  ]

  not_on_Walk : {ds : List ℕ} → Walk t d ds → (Waits t s d → ⊥) → has s ds ≡ false
  not_on_Walk {ds} wd free = elim (Bool-cases (has s (tail ds))) [
    | inl on ↦ absurd (free (Waits-of-tail s wd on))
    | inr off ↦ ground (arith, split_head s wd)
  ]

  pub Joined-IsValid : (Waits t s d → ⊥) → IsValid t' queues
  Joined-IsValid free = record {
    flat = λ p h.
        by_cases (λ z. ldt_seg_linear z index_ldt_rw ≡ 0) p
          (λ e. seg_of_ldts (t s) _ refl ∙ v.flat s hs)
          (λ a b e. seg_of_ldts (t p) _ refl ∙ v.flat p h);
    small = λ p h. by_cases (λ z. z.p_msg < 2 ^ 32) p (λ e. small) (λ a b e. v.small p h);
    mode = λ p h. by_cases Mode p (λ e. inr (inl (d, hd, ground arith))) (λ a b e. v.mode p h);
    chain = chains;
    distinct = λ e h. Distinct-after e h;
    queued = queued_after;
    sender = sender_after;
    acyclic = λ p h.
        let (ds, wd) = v.acyclic d hd in
        let (xs, w) = v.acyclic p h in walks wd (not_on_Walk wd free) h w;
  }
