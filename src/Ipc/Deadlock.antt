-- ===== src/Ipc/Deadlock.antt =====
-- `deadlock` (src/kernel/proc.c) against the relation that it decides.
use canalotus.Common.{
  ℕ, zero, suc, ◌≤◌, ◌<◌, ◌≡◌, refl, ◌∙◌, ◌↔◌, inl, inr, Bool, true, false, ◌||◌, ◌==◌, Bool-cases,
  eq_cases, lt→ltb, pos, List, [], ◌∷◌, length, has, arith,
}
use mathlib.Core.Path.{subst}
use canalotus.State.{Table, nr_procs, Kernel, ok, ◌>>=◌, ◌>>◌}
use canalotus.Ipc.{report_cycle, follow_sends, deadlock}
use canalotus.Ipc.Walk.{is_sending, Sends, Walk, end, step, Acyclic, Sends-unique, Walk-length}

-- `p` waits to send to `q`, or to a process that waits for `q` in this way.
pub data Waits (t : Table) (q : ℕ) : ℕ → Type 0 where
  direct : {p : ℕ} → Sends t p q → Waits t q p
  through : {p d : ℕ} → Sends t p d → Waits t q d → Waits t q p

-- A process that waits to send has said what.
abbrev pub SendersHaveMessages : Table → Type 0
SendersHaveMessages t =
    (p : ℕ) → p < nr_procs → is_sending (t p) ≡ true → ((t p).p_msg == 0) ≡ false

abbrev pub tail : List ℕ → List ℕ
tail [] = []
tail (x ∷ xs) = xs

head_has : {t : Table} {p : ℕ} {xs : List ℕ} → Walk t p xs → has p xs ≡ true
head_has (end {p} n) = ground arith
head_has (step {p} s w) = ground arith

pub split_head :
    {t : Table} {p : ℕ} {xs : List ℕ} (q : ℕ)
    → Walk t p xs
    → has q xs ≡ ((p == q) || has q (tail xs))
split_head q (end n) = refl
split_head q (step s w) = refl

pub Waits-of-tail :
    {t : Table} {p : ℕ} {xs : List ℕ} (q : ℕ) → Walk t p xs → has q (tail xs) ≡ true → Waits t q p
Waits-of-tail q (end n) h = absurd (ground arith)
Waits-of-tail {t} q (step {p} {d} {xs} s w) h = elim (eq_cases d q) [
  | inl e ↦ direct (subst (λ z. Sends t p z) e s)
  | inr e ↦ through s (Waits-of-tail q w (ground (arith, split_head q w)))
]

pub tail-of-Waits :
    {t : Table} {q p : ℕ} {xs : List ℕ} → Waits t q p → Walk t p xs → has q (tail xs) ≡ true
tail-of-Waits (direct s) (end n) = absurd (ground arith)
tail-of-Waits {q} (direct s) (step {xs} s' w) = rw (Sends-unique s s') (head_has w)
tail-of-Waits (through s r) (end n) = absurd (ground arith)
tail-of-Waits {t} {q} (through s r) (step {xs} s' w) =
    let w' = subst (λ z. Walk t z xs) (Sends-unique s' s) w in
    ground (arith, split_head q w', tail-of-Waits r w')

module _ (k : Kernel) where
  report_cycle-ok :
      (fuel src p : ℕ) {xs : List ℕ}
      → SendersHaveMessages k.proc_table
      → Walk k.proc_table p xs
      → has src (tail xs) ≡ true
      → length xs ≤ fuel
      → p < nr_procs
      → report_cycle fuel src p k ≡ ok tt k
  unfolding report_cycle
  report_cycle-ok zero src p m (end n) h le b = absurd (ground arith)
  report_cycle-ok zero src p m (step s w) h le b = absurd (omega arith)
  report_cycle-ok (suc fuel) src p m (end n) h le b = absurd (ground arith)
  report_cycle-ok (suc fuel) src p m (step {d} s w) h le b = elim (Bool-cases (d == src)) [
    | inl e ↦ rw (m p b s.flag, s.target, lt→ltb d nr_procs s.in_table, e)
    | inr e ↦
        rw (m p b s.flag, s.target, lt→ltb d nr_procs s.in_table, e)
          (report_cycle-ok fuel src d m w (ground (arith, split_head src w)) (omega arith)
            s.in_table)
  ]

  follow_sends-ok :
      (fuel src dst p : ℕ) {xs : List ℕ}
      → Walk k.proc_table p xs
      → (has src (tail xs) ≡ true → report_cycle (suc nr_procs) src dst k ≡ ok tt k)
      → length xs ≤ fuel
      → follow_sends fuel src dst p k ≡ ok (has src (tail xs)) k
  unfolding follow_sends
  follow_sends-ok zero src dst p (end n) r le = absurd (omega arith)
  follow_sends-ok zero src dst p (step s w) r le = absurd (omega arith)
  follow_sends-ok (suc fuel) src dst p (end n) r le = rw n
  follow_sends-ok (suc fuel) src dst p (step {d} {xs} s w) r le = elim (Bool-cases (d == src)) [
    | inl e ↦
        let there : has src xs ≡ true = ground (arith, split_head src w) in
        rw (s.flag, s.target, e, there) (rw (r there, ◌>>◌, ◌>>=◌))
    | inr e ↦
        let same : has src xs ≡ has src (tail xs) = ground (arith, split_head src w) in
        rw (s.flag, s.target, e, lt→ltb d nr_procs s.in_table, same)
          (follow_sends-ok fuel src dst d w (λ h. r (same ∙ h)) (omega arith))
  ]

  -- Where no process waits, through others, to send to itself, and every process that waits to
  -- send has a message: `deadlock` for a receiver of the table comes to an end within its fuel,
  -- changes nothing, and answers whether the receiver waits, perhaps through others, to send to
  -- the sender.
  pub deadlock_lem :
      (src dst : ℕ)
      → dst < nr_procs
      → Acyclic k.proc_table
      → SendersHaveMessages k.proc_table
      → (b : Bool) × (deadlock src (pos dst) k ≡ ok b k) × ((b ≡ true) ↔ Waits k.proc_table src dst)
  unfolding deadlock
  deadlock_lem src dst below acyclic messages =
      let (xs, w) = acyclic dst below in
      let fits : length xs ≤ suc nr_procs = omega (arith, Walk-length below w) in
      (
        has src (tail xs),
        rw (lt→ltb dst nr_procs below) (
            follow_sends-ok (suc nr_procs) src dst dst w
              (λ h. report_cycle-ok (suc nr_procs) src dst messages w h fits below) fits),
        (Waits-of-tail src w, λ r. tail-of-Waits r w),
      )
