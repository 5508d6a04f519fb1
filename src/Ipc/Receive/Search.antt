-- ===== src/Ipc/Receive/Search.antt =====
-- The search of `msg_receive` for the process before the sender, and the queue without the sender.
use canalotus.Common.{
  ℕ, zero, suc, ◌<◌, ◌≡◌, ◌∙◌, ◌≢◌, inl, inr, true, false, ◌==◌, if◌then◌else◌, Bool-cases,
  eq_cases, ==_of_ne, Option, none, some, List, [], ◌∷◌, length, has, Distinct, without,
  without_of_not_has, arith,
}
use canalotus.State.{Table, Kernel, ok}
use canalotus.Ipc.Walk.{is_sending}
use canalotus.Ipc.Valid.{Chain, Chain-frame}
use canalotus.Ipc.Receive.{find_prev}

-- the process before `from` in the queue that goes on from `p` by `ys`
abbrev pub before : (p from : ℕ) → List ℕ → ℕ
before p from [] = p
before p from (y ∷ ys) = let rest = before y from ys in if y == from then p else rest

pub has-before : (p from : ℕ) (ys : List ℕ) → has (before p from ys) (p ∷ ys) ≡ true
has-before p from [] = ground arith
has-before p from (y ∷ ys) = ground (arith, has-before y from ys)

module _ (k : Kernel) (from : ℕ) (sends : is_sending (k.proc_table from) ≡ true) where
  find_prev-later :
      (fuel p : ℕ) (q : Option ℕ) (ys : List ℕ)
      → Chain k.proc_table q ys
      → has from ys ≡ true
      → length ys < fuel
      → find_prev fuel from (some p) q k ≡ ok (some (before p from ys)) k
  unfolding find_prev
  find_prev-later zero p q ys c i le = absurd (omega arith)
  find_prev-later (suc fuel) p q [] c i le = absurd (ground arith)
  find_prev-later (suc fuel) p q (y ∷ ys) c i le = elim (Bool-cases (y == from)) [
    | inl e ↦ rw c.0 (rw (sends, e))
    | inr e ↦ rw c.0 (
        rw (sends, e)
          (find_prev-later fuel y (k.proc_table y).next_sending ys c.1 (ground arith)
            (omega arith)))
  ]

  -- In the queue `x ∷ xs` the search finds nothing before its head, and else the process before.
  pub find_prev-ok :
      (fuel x : ℕ) (xs : List ℕ)
      → Chain k.proc_table (some x) (x ∷ xs)
      → has from (x ∷ xs) ≡ true
      → suc (length xs) < fuel
      → find_prev fuel from none (some x) k
        ≡ ok (if x == from then none else some (before x from xs)) k
  unfolding find_prev
  find_prev-ok zero x xs c i le = absurd (omega arith)
  find_prev-ok (suc fuel) x xs c i le = elim (Bool-cases (x == from)) [
    | inl e ↦ rw (sends, e)
    | inr e ↦
        rw (sends, e)
          (find_prev-later fuel x (k.proc_table x).next_sending xs c.1 (ground arith) (omega arith))
  ]

-- A chain whose link to `from` now leads past it.
pub Chain-remove :
    (t t' : Table) (from p : ℕ) (ys : List ℕ)
    → Chain t (t p).next_sending ys
    → Distinct (p ∷ ys)
    → has from ys ≡ true
    → ((x : ℕ) → x ≢ before p from ys → x ≢ from → (t' x).next_sending ≡ (t x).next_sending)
    → (t' (before p from ys)).next_sending ≡ (t from).next_sending
    → Chain t' (t' p).next_sending (without from ys)
Chain-remove t t' from p [] c d i same past = absurd (ground arith)
Chain-remove t t' from p (y ∷ ys) c d i same past = elim (eq_cases y from) [
  | inl e ↦
      let hit : (y == from) ≡ true = ground arith in
      let past' : (t' p).next_sending ≡ (t y).next_sending = rw (hit, ← e) at past in
      let gone : without from ys ≡ ys = without_of_not_has from ys (rw (← e) d.1.0) in
      rw (hit, gone, past')
        (Chain-frame t t' ys (t y).next_sending
          (λ x h. same x (rw hit (λ z. absurd (ground arith))) (λ z. absurd (ground arith))) c.1)
  | inr off ↦
      let miss : (y == from) ≡ false = ==_of_ne y from off in
      let same' = rw miss at same in
      let past' = rw miss at past in
      rw miss (
        same' p (λ z. absurd (ground (arith, has-before y from ys))) (λ z. absurd (ground arith))
            ∙ c.0,
        Chain-remove t t' from y ys c.1 d.1 (ground arith) same' past',
      )
]
