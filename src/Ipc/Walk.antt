-- ===== src/Ipc/Walk.antt =====
-- The processes that `deadlock` (src/kernel/proc.c) meets: from a process to the one that it waits
-- to send to, and on.
use canalotus.Common.{
  ℕ, ◌≤◌, ◌<◌, ◌≡◌, refl, ap, inl, inr, Bool, true, false, eq_cases, pos, List, [], ◌∷◌, length,
  has, Distinct, AllBelow, Distinct-length, arith,
}
use mathlib.Core.Path.{subst}
use canalotus.State.{Process, Table, nr_procs, sending, has_flag}

abbrev pub is_sending : Process → Bool
is_sending p = has_flag p.p_flags sending

-- `p` waits to send to `d`.
pub record Sends (t : Table) (p d : ℕ) : Type 0 where
  pub flag : is_sending (t p) ≡ true
  pub target : (t p).p_sendto ≡ pos d
  pub in_table : d < nr_procs

-- The processes met from `p` on, the last of which waits to send to nobody.
pub data Walk (t : Table) : ℕ → List ℕ → Type 0 where
  end : {p : ℕ} → is_sending (t p) ≡ false → Walk t p (p ∷ [])
  step : {p d : ℕ} {xs : List ℕ} → Sends t p d → Walk t d xs → Walk t p (p ∷ xs)

-- No process waits, through others, to send to itself: every walk ends.
abbrev pub Acyclic : Table → Type 0
Acyclic t = (p : ℕ) → p < nr_procs → (xs : List ℕ) × Walk t p xs

module _ {t : Table} where
  pub Sends-unique : {p d e : ℕ} → Sends t p d → Sends t p e → d ≡ e
  Sends-unique s s' = ground (arith, s.target, s'.target)

  pub Walk-unique : {p : ℕ} {xs ys : List ℕ} → Walk t p xs → Walk t p ys → xs ≡ ys
  Walk-unique (end n) (end m) = refl
  Walk-unique (end n) (step s w) = absurd (ground (arith, s.flag))
  Walk-unique (step s w) (end n) = absurd (ground (arith, s.flag))
  Walk-unique (step {p} s w) (step {xs = ys} s' w') =
      ap (λ l. p ∷ l) (Walk-unique w (subst (λ z. Walk t z ys) (Sends-unique s' s) w'))

  -- From a process on the walk the walk goes on, and is no longer.
  pub Walk-suffix :
      {p : ℕ} {xs : List ℕ} (q : ℕ)
      → Walk t p xs
      → has q xs ≡ true
      → (ys : List ℕ) × Walk t q ys × (length ys ≤ length xs)
  Walk-suffix q (end {p} n) h =
      (p ∷ [], subst (λ z. Walk t z (p ∷ [])) (ground arith) (end n), omega arith)
  Walk-suffix q (step {p} {xs} s w) h = elim (eq_cases p q) [
    | inl e ↦ (p ∷ xs, subst (λ z. Walk t z (p ∷ xs)) e (step s w), omega arith)
    | inr e ↦ let (ys, w', le) = Walk-suffix q w (ground arith) in (ys, w', omega arith)
  ]

  not-has-later :
      {p d : ℕ} {xs : List ℕ} (b : Bool)
      → has p xs ≡ b
      → Sends t p d
      → Walk t d xs
      → has p xs ≡ false
  not-has-later false e s w = e
  not-has-later {p} true e s w =
      let (ys, w', le) = Walk-suffix p w e in
      absurd (omega (arith, ap length (Walk-unique w' (step s w))))

  -- No process is met twice.
  pub Walk-Distinct : {p : ℕ} {xs : List ℕ} → Walk t p xs → Distinct xs
  Walk-Distinct (end n) = (refl, tt)
  Walk-Distinct (step s w) = (not-has-later _ refl s w, Walk-Distinct w)

  pub Walk-AllBelow : {p : ℕ} {xs : List ℕ} → p < nr_procs → Walk t p xs → AllBelow nr_procs xs
  Walk-AllBelow h (end n) = (h, tt)
  Walk-AllBelow h (step s w) = (h, Walk-AllBelow s.in_table w)

  pub Walk-length : {p : ℕ} {xs : List ℕ} → p < nr_procs → Walk t p xs → length xs ≤ nr_procs
  Walk-length h w = Distinct-length nr_procs _ (Walk-Distinct w) (Walk-AllBelow h w)
