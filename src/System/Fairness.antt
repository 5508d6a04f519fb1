-- ===== src/System/Fairness.antt =====
-- Waiting for the processor (src/kernel/clock.c, `clock_handler`; src/kernel/proc.c, `schedule`): a
-- process that is ready runs after a bounded number of ticks.
use canalotus.Common.{
  ℕ, zero, suc, ◌+◌, ◌≤◌, ◌<◌, ◌≡◌, refl, sym, ◌∙◌, ap, ◌≢◌, inl, inr, true, false, ◌==◌,
  if◌then◌else◌, Bool-cases, eq_cases, ==_refl, ==_of_ne, update, ℤ, pos, negsuc, ltb_ℤ, dec_int,
  arith,
}
use canalotus.State.{Process, Table, Kernel, ok, M, ◌>>=◌, ◌>>◌, nr_procs}
use canalotus.Schedule.{is_ready}
use canalotus.Ipc.Interrupt.{clock_handler}
use canalotus.Ipc.Interrupt.Laws.{tick, ticked, clock_handler_stays, clock_handler_switches}

abbrev pub time_left : ℤ → ℕ
time_left (pos n) = n
time_left (negsuc n) = 0

-- The time of the entries below `left` other than `p`.
unfoldable pub time_of_others : Table → (p left : ℕ) → ℕ
time_of_others t p zero = 0
time_of_others t p (suc left) =
    let rest = time_of_others t p left in
    if left == p then rest else time_left (t left).ticks + rest

-- `n` ticks of the clock, one after another.
abbrev pub ticking : ℕ → M (Unit {0})
ticking zero k = ok tt k
ticking (suc n) k = (clock_handler >> ticking n) k

pub ticking-suc :
    (n : ℕ) (k k' : Kernel) → clock_handler k ≡ ok tt k' → ticking (suc n) k ≡ ticking n k'
ticking-suc n k k' e = rw (◌>>◌, ◌>>=◌, e) refl

others_frame :
    (t : Table) (c p left : ℕ) (v : Process)
    → left ≤ c
    → time_of_others (update t c v) p left ≡ time_of_others t p left
unfolding time_of_others
others_frame t c p zero v h = refl
others_frame t c p (suc left) v h =
    let other : (left == c) ≡ false = ground arith in
    rw (other, others_frame t c p left v (omega arith)) refl

dec_of_some : (i : ℤ) → ltb_ℤ (pos 0) i ≡ true → time_left i ≡ suc (time_left (dec_int i))
dec_of_some (pos zero) h = absurd (ground (arith, h))
dec_of_some (pos (suc n)) h = refl
dec_of_some (negsuc n) h = absurd (ground (arith, h))

-- A tick of process `c` takes one off the time of all others.
others_tick :
    (t : Table) (c p left : ℕ)
    → c ≢ p
    → c < left
    → ltb_ℤ (pos 0) (t c).ticks ≡ true
    → time_of_others t p left ≡ suc (time_of_others (update t c (ticked (t c))) p left)
unfolding time_of_others
others_tick t c p zero n h some_ = absurd (omega arith)
others_tick t c p (suc left) n h some_ = elim (eq_cases left c) [
  | inl e ↦
      let apart : (c == p) ≡ false = ==_of_ne c p n in
      let one = dec_of_some (t c).ticks some_ in
      let rest = others_frame t c p c (ticked (t c)) (omega arith) in
      rw (e, apart, ==_refl c, rest) (omega (arith, one))
  | inr e ↦
      let other : (left == c) ≡ false = ==_of_ne left c e in
      let rest = others_tick t c p left n (omega arith) some_ in
      elim (Bool-cases (left == p)) [
        | inl f ↦ rw f rest
        | inr f ↦ rw (f, other) (omega (arith, rest))
      ]
]

true_not_false : true ≢ false
true_not_false e = ground (arith, e)

-- The running process and `p` have time left, and `p` is ready.
pub record IsWaiting (k : Kernel) (p : ℕ) : Type 0 where
  pub outer : (k.k_reenter == 0) ≡ true
  pub in_table : p < nr_procs
  pub ready : is_ready (k.proc_table p) ≡ true
  pub time : ltb_ℤ (pos 0) (k.proc_table p).ticks ≡ true
  pub running : k.p_proc_ready < nr_procs
  pub running_time : ltb_ℤ (pos 0) (k.proc_table k.p_proc_ready).ticks ≡ true

module _ (k : Kernel) (p : ℕ) (w : IsWaiting k p) (n : k.p_proc_ready ≢ p) where
  apart : (p == k.p_proc_ready) ≡ false
  apart = ==_of_ne p k.p_proc_ready (λ e. n (sym e))

  still_ready : is_ready ((tick k).proc_table p) ≡ true
  still_ready = rw apart w.ready

  still_time : ltb_ℤ (pos 0) ((tick k).proc_table p).ticks ≡ true
  still_time = rw apart w.time

  switched :
      (t' : Table) (r : ℕ)
      → t' ≡ (tick k).proc_table
      → r < nr_procs
      → ltb_ℤ (pos 0) (t' r).ticks ≡ true
      → IsWaiting (record (tick k) { proc_table = t'; p_proc_ready = r }) p
  switched t' r same h time = record {
    outer = w.outer;
    in_table = w.in_table;
    ready = ap (λ t. is_ready (t p)) same ∙ still_ready;
    time = ap (λ t. ltb_ℤ (pos 0) (t p).ticks) same ∙ still_time;
    running = h;
    running_time = time;
  }

  less :
      time_of_others k.proc_table p nr_procs ≡ suc (time_of_others (tick k).proc_table p nr_procs)
  less = others_tick k.proc_table k.p_proc_ready p nr_procs n w.running w.running_time

  -- A tick while another process runs.
  pub one_tick :
      (k' : Kernel) × (clock_handler k ≡ ok tt k')
      × IsWaiting k' p
      × (time_of_others k.proc_table p nr_procs ≡ suc (time_of_others k'.proc_table p nr_procs))
  one_tick = elim (Bool-cases (ltb_ℤ (pos 0) (dec_int (k.proc_table k.p_proc_ready).ticks))) [
    | inl more ↦ (
      tick k,
      clock_handler_stays k (ground (arith, more)),
      record {
        outer = w.outer;
        in_table = w.in_table;
        ready = still_ready;
        time = still_time;
        running = w.running;
        running_time = rw (==_refl k.p_proc_ready) more;
      },
      less,
    )
    | inr spent ↦
        let (t', r, e, s) =
          clock_handler_switches k p w.outer spent w.in_table (still_ready, inl still_time) in
        elim s.table [
          | inl same ↦ (
            record (tick k) { proc_table = t'; p_proc_ready = r },
            e,
            switched t' r same s.in_table s.has_time,
            less ∙ ap (λ t. suc (time_of_others t p nr_procs)) (sym same),
          )
          | inr (nobody, _) ↦
              absurd (true_not_false (sym still_time ∙ nobody p w.in_table still_ready))
        ]
  ]

within :
    (m : ℕ) (k : Kernel) (p : ℕ)
    → IsWaiting k p
    → time_of_others k.proc_table p nr_procs ≡ m
    → (n : ℕ) × (k' : Kernel) × (n ≤ m) × (ticking n k ≡ ok tt k') × (k'.p_proc_ready ≡ p)
within zero k p w e = elim (eq_cases k.p_proc_ready p) [
  | inl here ↦ (0, k, omega arith, refl, here)
  | inr n ↦ let (k', run, w', less) = one_tick k p w n in absurd (omega arith)
]
within (suc m) k p w e = elim (eq_cases k.p_proc_ready p) [
  | inl here ↦ (0, k, omega arith, refl, here)
  | inr n ↦
      let (k', run, w', less) = one_tick k p w n in
      let (j, k'', le, runs, here) = within m k' p w' (omega arith) in
      (suc j, k'', omega arith, rw (◌>>◌, ◌>>=◌, run) runs, here)
]

-- While no process makes a system call and the running process has time left: a ready process with
-- time left comes to run, after as many ticks of the clock as the other processes have time left
-- together, or fewer.
pub clock_handler-reaches :
    (k : Kernel) (p : ℕ)
    → IsWaiting k p
    → (n : ℕ) × (k' : Kernel) × (n ≤ time_of_others k.proc_table p nr_procs)
      × (ticking n k ≡ ok tt k')
      × (k'.p_proc_ready ≡ p)
clock_handler-reaches k p w = within (time_of_others k.proc_table p nr_procs) k p w refl
