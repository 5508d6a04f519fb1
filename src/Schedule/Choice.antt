-- ===== src/Schedule/Choice.antt =====
-- What `schedule` decides, and when it decides at all.
use canalotus.Common.{
  ℕ, zero, suc, ◌<◌, ◌≡◌, refl, ◌⊎◌, inl, inr, ◌∙◌, Bool, true, false, ltb, if◌then◌else◌,
  Bool-cases, ℤ, pos, ltb_ℤ, eq_ℤ, eq_ℤ→eq, arith, Option, none, some,
}
use canalotus.State.{Process, Table, nr_procs, Kernel, ok}
use canalotus.Schedule.{is_ready, pick, refill_one, refill, schedule_loop, schedule}
use canalotus.Schedule.Scan.{Picked, pick-Picked, refill-at}

-- The process takes part in scheduling: it is ready, and has time left or gets some.
abbrev pub CanRun : Process → Type 0
CanRun p =
    (is_ready p ≡ true) × ((ltb_ℤ (pos 0) p.ticks ≡ true) ⊎ (ltb_ℤ (pos 0) p.priority ≡ true))

-- the table with each ready process given its priority
abbrev pub refilled : Table → Table
refilled t q = if ltb q nr_procs then refill_one (t q) else t q

refilled_same :
    (p : Process) (b : Bool)
    → (if b then refill_one p else p) ≡ record p { ticks = (if b then refill_one p else p).ticks }
refilled_same p b = ground arith

-- what `schedule` leaves, from the table `t`
pub record Scheduled (t t' : Table) (r : ℕ) : Type 0 where
  pub in_table : r < nr_procs
  pub ready : is_ready (t' r) ≡ true
  pub has_time : ltb_ℤ (pos 0) (t' r).ticks ≡ true
  pub greatest :
      (q : ℕ) → q < nr_procs → is_ready (t' q) ≡ true → ltb_ℤ (t' r).ticks (t' q).ticks ≡ false
  pub table :
      (t' ≡ t)
      ⊎ (((q : ℕ) → q < nr_procs → is_ready (t q) ≡ true → ltb_ℤ (pos 0) (t q).ticks ≡ false)
          × ((q : ℕ) → t' q ≡ refilled t q))

refill-refilled : (t : Table) (q : ℕ) → refill nr_procs 0 t q ≡ refilled t q
refill-refilled t q = ground (arith, refill-at nr_procs 0 t q)

pos_ne_zero : (g : ℤ) → ltb_ℤ (pos 0) g ≡ true → eq_ℤ g (pos 0) ≡ false
pos_ne_zero g h = ground arith

module _ {t : Table} {g : ℤ} {r0 r : ℕ} (p : Picked t 0 nr_procs (pos 0) r0 g r) where
  Picked-found : eq_ℤ g (pos 0) ≡ false → Scheduled t t r
  Picked-found e = elim p.chosen [
    | inl (same, _) ↦ absurd (ground arith)
    | inr (_, below, ready, is, big) ↦ record {
      in_table = below;
      ready = ready;
      has_time = ground arith;
      greatest = λ q a b. ground (arith, p.greatest q (omega arith) a b);
      table = inl refl;
    }
  ]

  Picked-empty :
      eq_ℤ g (pos 0) ≡ true
      → (q : ℕ) → q < nr_procs
      → is_ready (t q) ≡ true
      → ltb_ℤ (pos 0) (t q).ticks ≡ false
  Picked-empty e q a b = ground (arith, p.greatest q (omega arith) a b, eq_ℤ→eq g (pos 0))

  Picked-exists :
      (q : ℕ)
      → q < nr_procs
      → is_ready (t q) ≡ true
      → ltb_ℤ (pos 0) (t q).ticks ≡ true
      → eq_ℤ g (pos 0) ≡ false
  Picked-exists q a b c = ground (arith, p.greatest q (omega arith) a b)

  Picked-none :
      ((q : ℕ) → q < nr_procs → is_ready (t q) ≡ true → ltb_ℤ (pos 0) (t q).ticks ≡ false)
      → eq_ℤ g (pos 0) ≡ true
  Picked-none h = elim p.chosen [
    | inl (same, _) ↦ ground arith
    | inr (_, below, ready, is, big) ↦ absurd (ground (arith, h r below ready))
  ]

scan :
    (t : Table) (r0 : ℕ)
    → Picked t 0 nr_procs
        (pos 0)
        r0
        (pick t nr_procs 0 (pos 0) r0).0
        (pick t nr_procs 0 (pos 0) r0).1
scan t r0 = pick-Picked t nr_procs 0 nr_procs (pos 0) r0 (omega arith)

-- the greatest ticks that a scan finds
abbrev best_ticks : Table → ℕ → ℤ
best_ticks t r0 = (pick t nr_procs 0 (pos 0) r0).0

refilled_has_time :
    (t : Table) (q : ℕ)
    → q < nr_procs
    → CanRun (t q)
    → ltb_ℤ (pos 0) (t q).ticks ≡ false
    → (is_ready (refill nr_procs 0 t q) ≡ true)
      × (ltb_ℤ (pos 0) (refill nr_procs 0 t q).ticks ≡ true)
refilled_has_time t q a can e = rw (refill-refilled t q) (ground arith)

module _ (fuel : ℕ) (t : Table) (r0 : ℕ) where
  schedule_loop-found :
      eq_ℤ (best_ticks t r0) (pos 0) ≡ false
      → schedule_loop (suc fuel) t r0 ≡ some (t, (pick t nr_procs 0 (pos 0) r0).1)
  unfolding schedule_loop
  schedule_loop-found e = rw e

  schedule_loop-again :
      eq_ℤ (best_ticks t r0) (pos 0) ≡ true
      → schedule_loop (suc fuel) t r0
        ≡ schedule_loop fuel (refill nr_procs 0 t) (pick t nr_procs 0 (pos 0) r0).1
  unfolding schedule_loop
  schedule_loop-again e = rw (e, schedule_loop)

-- the outcome of a loop that stops
abbrev Chosen : Table → Option (Table × ℕ) → Type 0
Chosen t out = (t' : Table) × (r : ℕ) × (out ≡ some (t', r)) × Scheduled t t' r

schedule_again :
    (t : Table) (r0 q : ℕ)
    → q < nr_procs
    → CanRun (t q)
    → eq_ℤ (best_ticks t r0) (pos 0) ≡ true
    → Chosen t (schedule_loop 2 t r0)
schedule_again t r0 q a can e =
    let t2 : Table = refill nr_procs 0 t in
    let r1 : ℕ = (pick t nr_procs 0 (pos 0) r0).1 in
    let idle = Picked-empty (scan t r0) e in
    let now = refilled_has_time t q a can (idle q a can.0) in
    let found : eq_ℤ (best_ticks t2 r1) (pos 0) ≡ false =
      Picked-exists (scan t2 r1) q a now.0 now.1 in
    let s = Picked-found (scan t2 r1) found in
    (
      t2,
      (pick t2 nr_procs 0 (pos 0) r1).1,
      schedule_loop-again 1 t r0 e ∙ schedule_loop-found 0 t2 r1 found,
      record {
        in_table = s.in_table;
        ready = s.ready;
        has_time = s.has_time;
        greatest = s.greatest;
        table = inr (idle, refill-refilled t);
      },
    )

pub schedule_loop-Chosen :
    (t : Table) (r0 q : ℕ) → q < nr_procs → CanRun (t q) → Chosen t (schedule_loop 2 t r0)
schedule_loop-Chosen t r0 q a can = elim (Bool-cases (eq_ℤ (best_ticks t r0) (pos 0))) [
  | inl e ↦ schedule_again t r0 q a can e
  | inr e ↦ (
    t,
    (pick t nr_procs 0 (pos 0) r0).1,
    schedule_loop-found 1 t r0 e,
    Picked-found (scan t r0) e,
  )
]

-- With a process that can run, `schedule` returns. It chooses a ready process with time left and
-- no less than any other ready process; the ready processes were given their priorities exactly
-- where none of them had time left, and nothing else changes.
pub schedule_lem :
    (k : Kernel) (q : ℕ)
    → q < nr_procs
    → CanRun (k.proc_table q)
    → (t' : Table) × (r : ℕ) × (schedule k ≡ ok tt (record k { proc_table = t'; p_proc_ready = r }))
      × Scheduled k.proc_table t' r
unfolding schedule
schedule_lem k q a can =
    let (t', r, e, s) = schedule_loop-Chosen k.proc_table k.p_proc_ready q a can in
    (t', r, rw (e, schedule), s)

-- no process can run
abbrev pub AllIdle : Table → Type 0
AllIdle t =
    (q : ℕ)
    → q < nr_procs
    → is_ready (t q) ≡ true
    → (ltb_ℤ (pos 0) (t q).ticks ≡ false) × (ltb_ℤ (pos 0) (t q).priority ≡ false)

AllIdle-refill : (t : Table) → AllIdle t → AllIdle (refill nr_procs 0 t)
AllIdle-refill t h q a = rw (refill-refilled t q) (λ b. ground (arith, h q a))

-- Where no process can run, no number of rounds ends the outer loop.
pub schedule_loop-none :
    (fuel : ℕ) (t : Table) (r0 : ℕ) → AllIdle t → schedule_loop fuel t r0 ≡ none
schedule_loop-none zero t r0 h = unfold schedule_loop in refl
schedule_loop-none (suc fuel) t r0 h =
    schedule_loop-again fuel t r0 (Picked-none (scan t r0) (λ q a b. (h q a b).0))
    ∙ schedule_loop-none fuel (refill nr_procs 0 t) (pick t nr_procs 0 (pos 0) r0).1
        (AllIdle-refill t h)

-- Scheduling changes nothing of a process but its ticks.
pub Scheduled-same :
    {t t' : Table} {r : ℕ}
    → Scheduled t t' r
    → (p : ℕ) → t' p ≡ record (t p) { ticks = (t' p).ticks }
Scheduled-same {t} {t'} s p = elim s.table [
  | inl e ↦ rw e
  | inr (_, all) ↦ rw (all p) (refilled_same (t p) (ltb p nr_procs))
]
