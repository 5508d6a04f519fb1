-- ===== src/Ipc/Receive/Leave.antt =====
-- `dequeue`, the part of `msg_receive` that takes the sender out of the receiver's queue.
use canalotus.Common.{
  ℕ, ◌≡◌, sym, ◌≢◌, inl, inr, true, false, ◌==◌, if◌then◌else◌, Bool-cases, eq_cases, ==_refl,
  ==_of_ne, update, Option, none, some, List, [], ◌∷◌, has, Distinct, without, without_of_not_has,
  arith,
}
use mathlib.Core.Path.{subst}
use canalotus.State.{Table, Kernel, ok}
use canalotus.Ipc.Valid.{Chain, Chain-frame}
use canalotus.Ipc.Receive.{dequeue}
use canalotus.Ipc.Receive.Search.{before, has-before, Chain-remove}

before-ne : (from p : ℕ) (ys : List ℕ) → p ≢ from → has from ys ≡ true → before p from ys ≢ from
before-ne from p [] ne i = ne
before-ne from p (y ∷ ys) ne i = elim (eq_cases y from) [
  | inl e ↦ (let hit : (y == from) ≡ true = ground arith in rw hit ne)
  | inr off ↦ rw (==_of_ne y from off) (before-ne from y ys off (ground arith))
]

-- The process in front of `from` in a queue, if there is one.
abbrev pub prev_in : ℕ → List ℕ → Option ℕ
prev_in from [] = none
prev_in from (x ∷ ys) = if x == from then none else some (before x from ys)

-- The table after `from` left the queue of `cnt`, in which `prev` stands in front of it.
abbrev pub dequeued : Table → (cnt from : ℕ) → Option ℕ → Table
dequeued t cnt from none =
    update (update t cnt (record (t cnt) { q_sending = (t from).next_sending })) from
      (record (t from) { next_sending = none })
dequeued t cnt from (some b) =
    update (update t b (record (t b) { next_sending = (t from).next_sending })) from
      (record (t from) { next_sending = none })

module _ (k : Kernel) (cnt from x : ℕ) (ys : List ℕ) (ne : from ≢ cnt)
    (c : Chain k.proc_table (k.proc_table cnt).q_sending (x ∷ ys))
    (i : has from (x ∷ ys) ≡ true) where
  dequeue-cons :
      dequeue cnt from (prev_in from (x ∷ ys)) k
      ≡ ok tt (record k { proc_table = dequeued k.proc_table cnt from (prev_in from (x ∷ ys)) })
  unfolding dequeue
  dequeue-cons = elim (Bool-cases (x == from)) [
    | inl e ↦ rw e (rw (c.0, e) (rw (==_of_ne from cnt ne)))
    | inr e ↦
        let apart : before x from ys ≢ from = before-ne from x ys (ground arith) (ground arith) in
        rw e (rw (c.0, e) (rw (==_of_ne from (before x from ys) (λ z. apart (sym z)))))
  ]

pub dequeue-ok :
    (k : Kernel) (cnt from : ℕ) (xs : List ℕ)
    → from ≢ cnt
    → Chain k.proc_table (k.proc_table cnt).q_sending xs
    → has from xs ≡ true
    → dequeue cnt from (prev_in from xs) k
      ≡ ok tt (record k { proc_table = dequeued k.proc_table cnt from (prev_in from xs) })
dequeue-ok k cnt from [] ne c i = absurd (ground arith)
dequeue-ok k cnt from (x ∷ ys) ne c i = dequeue-cons k cnt from x ys ne c i

-- What leaving the queue `xs` of `cnt` makes of a table.
pub record Left (t t' : Table) (cnt from : ℕ) (xs : List ℕ) : Type 0 where
  pub queue : Chain t' (t' cnt).q_sending (without from xs)
  pub self : t' from ≡ record (t from) { next_sending = none }
  pub other :
      (p : ℕ)
      → p ≢ from
      → t' p ≡ record (t p) { q_sending = (t' p).q_sending; next_sending = (t' p).next_sending }
  pub first : (p : ℕ) → p ≢ cnt → (t' p).q_sending ≡ (t p).q_sending
  pub next : (p : ℕ) → has p xs ≡ false → (t' p).next_sending ≡ (t p).next_sending

module _ (t : Table) (cnt from : ℕ) (ne : from ≢ cnt) (ys : List ℕ) where
  Left-head :
      Chain t (t cnt).q_sending (from ∷ ys)
      → Distinct (from ∷ ys)
      → Left t (dequeued t cnt from none) cnt from (from ∷ ys)
  Left-head c d =
      let t' = dequeued t cnt from none in
      let gone : without from (from ∷ ys) ≡ ys =
        rw (==_refl from) (without_of_not_has from ys d.0) in
      record {
        queue =
            rw (gone, ==_of_ne cnt from (λ z. ne (sym z)), ==_refl cnt)
              (Chain-frame t t' ys (t from).next_sending (λ z h. ground arith) c.1);
        self = ground arith;
        other = λ p h. ground arith;
        first = λ p h. ground arith;
        next = λ p h. ground arith;
      }

  Left-later :
      (x : ℕ)
      → x ≢ from
      → Chain t (t cnt).q_sending (x ∷ ys)
      → Distinct (x ∷ ys)
      → has from ys ≡ true
      → Left t (dequeued t cnt from (some (before x from ys))) cnt from (x ∷ ys)
  Left-later x off c d i =
      let b : ℕ = before x from ys in
      let t' = dequeued t cnt from (some b) in
      let apart : b ≢ from = before-ne from x ys off i in
      record {
        queue = rw (==_of_ne x from off) (
          ground (arith, c.0),
          Chain-remove t t' from x ys c.1 d i (λ z n m. ground arith) (ground arith),
        );
        self = ground arith;
        other = λ p h. ground arith;
        first = λ p h. ground arith;
        next = λ p h. ground (arith, has-before x from ys);
      }

pub dequeued-Left :
    (t : Table) (cnt from : ℕ) (xs : List ℕ)
    → from ≢ cnt
    → Chain t (t cnt).q_sending xs
    → Distinct xs
    → has from xs ≡ true
    → Left t (dequeued t cnt from (prev_in from xs)) cnt from xs
dequeued-Left t cnt from [] ne c d i = absurd (ground arith)
dequeued-Left t cnt from (x ∷ ys) ne c d i = elim (eq_cases x from) [
  | inl e ↦
      rw (e, ==_refl from)
        (Left-head t cnt from ne ys (subst (λ z. Chain t (t cnt).q_sending (z ∷ ys)) e c)
          (subst (λ z. Distinct (z ∷ ys)) e d))
  | inr off ↦ rw (==_of_ne x from off) (Left-later t cnt from ne ys x off c d (ground arith))
]
