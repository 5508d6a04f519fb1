-- ===== src/Schedule/Scan.antt =====
-- The two loops of `schedule` over `proc_table`.
use canalotus.Common.{
  ℕ, zero, suc, ◌+◌, ◌≤◌, ◌<◌, ◌≡◌, refl, ◌⊎◌, inl, inr, true, false, ltb, if◌then◌else◌,
  Bool-cases, eq_cases, ◌&&◌, leb, update, ℤ, ltb_ℤ, arith,
}
use canalotus.State.{Table}
use canalotus.Schedule.{is_ready, is_better, pick, refill_one, refill}

-- What the scan knows when it stops: the choice `(g, r)`, started at `(g0, r0)` with the entries
-- from `lo` up to `hi` left.
pub record Picked (t : Table) (lo hi : ℕ) (g0 : ℤ) (r0 : ℕ) (g : ℤ) (r : ℕ) : Type 0 where
  pub grows : ltb_ℤ g g0 ≡ false
  pub greatest : (q : ℕ) → lo ≤ q → q < hi → is_ready (t q) ≡ true → ltb_ℤ g (t q).ticks ≡ false
  pub chosen :
      ((g ≡ g0) × (r ≡ r0))
      ⊎ ((lo ≤ r) × (r < hi) × (is_ready (t r) ≡ true) × (g ≡ (t r).ticks) × (ltb_ℤ g0 g ≡ true))

ltb_ℤ_trans : (a b c : ℤ) → ltb_ℤ b a ≡ false → ltb_ℤ c b ≡ false → ltb_ℤ c a ≡ false
ltb_ℤ_trans a b c h k = ground arith

ltb_ℤ_below : (a b c : ℤ) → ltb_ℤ a b ≡ true → ltb_ℤ c b ≡ false → ltb_ℤ a c ≡ true
ltb_ℤ_below a b c h k = ground arith

ltb_ℤ_refl : (a : ℤ) → ltb_ℤ a a ≡ false
ltb_ℤ_refl a = ground arith

ltb_ℤ_asym : (a b : ℤ) → ltb_ℤ a b ≡ true → ltb_ℤ b a ≡ false
ltb_ℤ_asym a b h = ground arith

module _ {t : Table} {p hi : ℕ} {g0 g : ℤ} {r0 r : ℕ} (room : p < hi) where
  Picked-take :
      is_better g0 (t p) ≡ true → Picked t (p + 1) hi (t p).ticks p g r → Picked t p hi g0 r0 g r
  Picked-take b k = record {
    grows = ground (arith, k.grows, ltb_ℤ_below g0 (t p).ticks g, ltb_ℤ_asym g0 g);
    greatest = λ q a c d. elim (eq_cases q p) [
      | inl e ↦ ground (arith, k.grows)
      | inr e ↦ k.greatest q (omega arith) c d
    ];
    chosen = ground (arith, k.chosen, ltb_ℤ_below g0 (t p).ticks g);
  }

  Picked-skip : is_better g0 (t p) ≡ false → Picked t (p + 1) hi g0 r0 g r → Picked t p hi g0 r0 g r
  Picked-skip b k = record {
    grows = k.grows;
    greatest = λ q a c d. elim (eq_cases q p) [
      | inl e ↦ ground (arith, k.grows, ltb_ℤ_trans (t p).ticks g0 g)
      | inr e ↦ k.greatest q (omega arith) c d
    ];
    chosen = ground (arith, k.chosen);
  }

pub pick-Picked :
    (t : Table) (left p hi : ℕ) (g0 : ℤ) (r0 : ℕ)
    → p + left ≡ hi
    → Picked t p hi g0 r0 (pick t left p g0 r0).0 (pick t left p g0 r0).1
unfolding pick
pick-Picked t zero p hi g0 r0 e = record {
  grows = ltb_ℤ_refl g0;
  greatest = λ q a b c. absurd (omega arith);
  chosen = inl (refl, refl);
}
pick-Picked t (suc left) p hi g0 r0 e = elim (Bool-cases (is_better g0 (t p))) [
  | inl b ↦
      rw (b, pick)
        (Picked-take (omega arith) b (pick-Picked t left (p + 1) hi (t p).ticks p (omega arith)))
  | inr b ↦
      rw (b, pick) (Picked-skip (omega arith) b (pick-Picked t left (p + 1) hi g0 r0 (omega arith)))
]

-- `refill` gives each entry from `p` on its priority, if it is ready, and changes no other.
pub refill-at :
    (left p : ℕ) (t : Table) (q : ℕ)
    → refill left p t q ≡ (if leb p q && ltb q (p + left) then refill_one (t q) else t q)
unfolding refill
refill-at zero p t q = ground arith
refill-at (suc left) p t q =
    ground (arith, refill-at left (p + 1) (update t p (refill_one (t p))) q)
