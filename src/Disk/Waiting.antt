-- ===== src/Disk/Waiting.antt =====
-- `waitfor` (src/kernel/hd.c): it comes back when the clock has gone on long enough, and tells
-- whether the status was seen.
use canalotus.Common.{
  ℕ, zero, suc, ◌+◌, ◌-◌, ◌≤◌, ◌<◌, ◌≡◌, refl, sym, inl, inr, Bool, true, false, not, ◌==◌, ℤ, some,
  Bool-cases, bit_and, arith,
}
use canalotus.Disk.{World, Env, done, ◌>>=◌, in_time, waitfor_loop, waitfor}

-- The time is up at the reading `i`, for a loop that began at the time `t`.
abbrev pub late : (clock : ℕ → ℤ) → (timeout : ℕ) → (t : ℤ) → (i : ℕ) → Bool
late clock timeout t i = not (in_time (clock i) t timeout)

abbrev pub seen : Env → (mask val i : ℕ) → Bool
seen env mask val i = bit_and (env.status i) mask == val

-- The world after `readings` of the clock and `polls` of the status.
abbrev pub waited : World → (readings polls : ℕ) → World
waited w readings polls = record w { readings = readings; polls = polls }

-- What the loop makes of polls from `w.polls` on: `n` of them fail, and then the status is seen, or
-- the time is up.
pub record Polled (env : Env) (clock : ℕ → ℤ) (mask val timeout : ℕ) (t : ℤ) (w : World) (n : ℕ)
    (b : Bool) (w' : World) : Type 0 where
  pub missed : (i : ℕ) → i < n → seen env mask val (w.polls + i) ≡ false
  pub on_time : (i : ℕ) → i < n → late clock timeout t (w.readings + i) ≡ false
  pub last :
      b ≡ true
      → (seen env mask val (w.polls + n) ≡ true)
        × (late clock timeout t (w.readings + n) ≡ false)
        × (w' ≡ waited w (w.readings + n + 1) (w.polls + n + 1))
  pub up :
      b ≡ false
      → (late clock timeout t (w.readings + n) ≡ true)
        × (w' ≡ waited w (w.readings + n + 1) (w.polls + n))

plus_nothing : (n : ℕ) → n + 0 ≡ n
plus_nothing n = omega arith

shift : (a n : ℕ) → a + 1 + n ≡ a + suc n
shift a n = omega arith

-- One poll more, which misses.
miss-Polled :
    (env : Env) (clock : ℕ → ℤ) (mask val timeout : ℕ) (t : ℤ) (n : ℕ) (w : World) (b : Bool)
    (w' : World)
    → late clock timeout t w.readings ≡ false
    → seen env mask val w.polls ≡ false
    → Polled env clock mask val timeout t (waited w (w.readings + 1) (w.polls + 1)) n b w'
    → Polled env clock mask val timeout t w (suc n) b w'
miss-Polled env clock mask val timeout t n w b w' l s p = record {
  missed = λ i h.
      elim i as (λ i. i < suc n → seen env mask val (w.polls + i) ≡ false) [
        | zero ↦ λ h. rw (plus_nothing w.polls) s
        | suc i ↦ λ h. rw (sym (shift w.polls i)) (p.missed i (omega arith))
      ]
        h;
  on_time = λ i h.
      elim i as (λ i. i < suc n → late clock timeout t (w.readings + i) ≡ false) [
        | zero ↦ λ h. rw (plus_nothing w.readings) l
        | suc i ↦ λ h. rw (sym (shift w.readings i)) (p.on_time i (omega arith))
      ]
        h;
  last = rw (sym (shift w.polls n), sym (shift w.readings n)) p.last;
  up = rw (sym (shift w.polls n), sym (shift w.readings n)) p.up;
}

not_at_once :
    (clock : ℕ → ℤ) (timeout : ℕ) (t : ℤ) (r m : ℕ)
    → late clock timeout t r ≡ false
    → late clock timeout t (r + m) ≡ true
    → 0 < m
not_at_once clock timeout t r zero n l = absurd (ground (arith, rw (plus_nothing r) at l))
not_at_once clock timeout t r (suc m) n l = omega arith

one_less : (r m : ℕ) → 0 < m → r + 1 + (m - 1) ≡ r + m
one_less r m h = omega arith

waitfor_loop_lem :
    (env : Env) (clock : ℕ → ℤ) (fuel mask val timeout : ℕ) (t : ℤ) (m : ℕ) (w : World)
    → ((i : ℕ) → env.get_ticks i ≡ some (clock i))
    → m < fuel
    → late clock timeout t (w.readings + m) ≡ true
    → (b : Bool) × (n : ℕ) × (w' : World) × (waitfor_loop env fuel mask val timeout t w ≡ done b w')
      × (n ≤ m)
      × Polled env clock mask val timeout t w n b w'
unfolding waitfor_loop
waitfor_loop_lem env clock zero mask val timeout t m w told h l = absurd (omega arith)
waitfor_loop_lem env clock (suc fuel) mask val timeout t m w told h l =
    elim (Bool-cases (in_time (clock w.readings) t timeout)) [
      | inr e ↦ (
        false,
        0,
        waited w (w.readings + 1) w.polls,
        rw (◌>>=◌, told w.readings) (rw e refl),
        omega arith,
        record {
          missed = λ i z. absurd (omega arith);
          on_time = λ i z. absurd (omega arith);
          last = λ q. absurd (ground arith);
          up = λ q. (
            rw (plus_nothing w.readings, e) refl,
            rw (plus_nothing w.readings, plus_nothing w.polls) refl,
          );
        },
      )
      | inl e ↦ elim (Bool-cases (seen env mask val w.polls)) [
        | inl s ↦ (
          true,
          0,
          waited w (w.readings + 1) (w.polls + 1),
          rw (◌>>=◌, told w.readings) (rw (e, s) refl),
          omega arith,
          record {
            missed = λ i z. absurd (omega arith);
            on_time = λ i z. absurd (omega arith);
            last = λ q. (
              rw (plus_nothing w.polls, s) refl,
              rw (plus_nothing w.readings, e) refl,
              rw (plus_nothing w.readings, plus_nothing w.polls) refl,
            );
            up = λ q. absurd (ground arith);
          },
        )
        | inr s ↦
            let not_late : late clock timeout t w.readings ≡ false = rw e refl in
            let more = not_at_once clock timeout t w.readings m not_late l in
            let w1 : World = waited w (w.readings + 1) (w.polls + 1) in
            let (b, n, w', r, le, p) =
              waitfor_loop_lem env clock fuel mask val timeout t (m - 1) w1 told (omega arith)
                (rw (one_less w.readings m more) l) in
            (
              b,
              suc n,
              w',
              rw (◌>>=◌, told w.readings) (rw (e, s) r),
              omega arith,
              miss-Polled env clock mask val timeout t n w b w' not_late s p,
            )
      ]
    ]

-- Where every call of `get_ticks` comes back with the time that `clock` gives: if the time, from its
-- first reading on, is past the timeout for the test of the loop, on an `int` that wraps, at some
-- reading within the rounds of fuel, `waitfor` comes back by then: with 1 when a poll sees the status
-- before the test fails and no earlier one has, and with 0 when it fails and no poll has seen it.
pub waitfor_lem :
    (env : Env) (clock : ℕ → ℤ) (mask val timeout m : ℕ) (w : World)
    → ((i : ℕ) → env.get_ticks i ≡ some (clock i))
    → m < env.fuel
    → late clock timeout (clock w.readings) (w.readings + 1 + m) ≡ true
    → (b : Bool) × (n : ℕ) × (w' : World) × (waitfor env mask val timeout w ≡ done b w')
      × (n ≤ m)
      × Polled env clock mask val timeout
          (clock w.readings)
          (waited w (w.readings + 1) w.polls)
          n
          b
          w'
unfolding waitfor
waitfor_lem env clock mask val timeout m w told h l =
    let loops =
      waitfor_loop_lem env clock env.fuel mask val timeout (clock w.readings) m
        (waited w (w.readings + 1) w.polls) told h l in
    let (b, n, w', run, le, p) = loops in
    (b, n, w', rw (waitfor, ◌>>=◌, told w.readings) run, le, p)
