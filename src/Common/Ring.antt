-- ===== src/Common/Ring.antt =====
-- A ring buffer: `n` cells, the oldest value at `tail`, `count` values from there on, and the next
-- one to be written at `head`.
use Prim.Native.Nat.{ℕ, zero, suc, ◌+◌, ◌-◌, ◌≤◌, ◌<◌}
use mathlib.Core.Path.{◌≡◌, refl}
use mathlib.Core.Logic.{◌⊎◌}
use mathlib.Core.List.{List, [], ◌∷◌, ◌++◌}
use native.Mathlib.Omega.{arith}
use canalotus.Common.Tests.{◌==◌, if◌then◌else◌, update}
use canalotus.Common.Lists.{length}

plus_one : (n : ℕ) → n + 1 ≡ suc n
plus_one n = omega arith

suc_minus_one : (n : ℕ) → suc n - 1 ≡ n
suc_minus_one n = omega arith

-- `p++; if (p == buf + n) p = buf;`
abbrev pub advance : ℕ → ℕ → ℕ
advance n p = if p + 1 == n then 0 else p + 1

abbrev pub contents : ℕ → (ℕ → ℕ) → ℕ → ℕ → List ℕ
contents n buf tail zero = []
contents n buf tail (suc count) = buf tail ∷ contents n buf (advance n tail) count

pub record IsRing (n head tail count : ℕ) : Type 0 where
  pub head_below : head < n
  pub tail_below : tail < n
  pub count_le : count ≤ n
  pub distance : (head ≡ tail + count) ⊎ (head + n ≡ tail + count)

pub contents-length :
    (n : ℕ) (buf : ℕ → ℕ) (tail count : ℕ) → length (contents n buf tail count) ≡ count
contents-length n buf tail zero = refl
contents-length n buf tail (suc count) = omega (arith, contents-length n buf (advance n tail) count)

pub take-IsRing :
    (n head tail count : ℕ) → IsRing n head tail (suc count) → IsRing n head (advance n tail) count
take-IsRing n head tail count r = ground (arith, r.distance, r.head_below, r.tail_below, r.count_le)

pub contents-put :
    (n : ℕ) (buf : ℕ → ℕ) (head tail count x : ℕ)
    → IsRing n head tail count
    → count < n
    → contents n (update buf head x) tail (suc count) ≡ contents n buf tail count ++ x ∷ []
contents-put n buf head tail zero x r h = ground (arith, r.distance, r.head_below, r.tail_below)
contents-put n buf head tail (suc count) x r h = ground (
  arith,
  contents-put n buf head (advance n tail) count x (take-IsRing n head tail count r)
      (omega (arith, h)),
  r.distance,
  r.head_below,
  r.tail_below,
)

pub put-IsRing :
    (n head tail count : ℕ)
    → IsRing n head tail count
    → count < n
    → IsRing n (advance n head) tail (count + 1)
put-IsRing n head tail count r h = ground (arith, r.distance, r.head_below, r.tail_below)

-- The same for the counts as they are computed.
pub contents-put_one :
    (n : ℕ) (buf : ℕ → ℕ) (head tail count x : ℕ)
    → IsRing n head tail count
    → count < n
    → contents n (update buf head x) tail (count + 1) ≡ contents n buf tail count ++ x ∷ []
contents-put_one n buf head tail count x r h =
    rw (plus_one count) (contents-put n buf head tail count x r h)

pub contents-take_one :
    (n : ℕ) (buf : ℕ → ℕ) (tail count : ℕ)
    → 0 < count
    → contents n buf tail count ≡ buf tail ∷ contents n buf (advance n tail) (count - 1)
contents-take_one n buf tail zero h = absurd (omega (arith, h))
contents-take_one n buf tail (suc count) h = rw (suc_minus_one count) refl

pub take_one-IsRing :
    (n head tail count : ℕ)
    → 0 < count
    → IsRing n head tail count
    → IsRing n head (advance n tail) (count - 1)
take_one-IsRing n head tail zero h r = absurd (omega (arith, h))
take_one-IsRing n head tail (suc count) h r =
    rw (suc_minus_one count) (take-IsRing n head tail count r)
