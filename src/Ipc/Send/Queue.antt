-- ===== src/Ipc/Send/Queue.antt =====
-- `enqueue`, the part of `msg_send` that puts the sender at the end of the receiver's queue.
use canalotus.Common.{
  ℕ, zero, suc, ◌≤◌, ◌<◌, ◌≡◌, ◌∙◌, ◌≢◌, true, false, ◌==◌, ==_of_ne, update, none, some, List, [],
  ◌∷◌, ◌++◌, length, has, Distinct, arith,
}
use canalotus.State.{Table, Kernel, ok, ◌>>=◌, ◌>>◌, nr_procs}
use canalotus.Ipc.Valid.{Chain}
use canalotus.Ipc.Send.{last_sending, enqueue}

abbrev pub last_of : ℕ → List ℕ → ℕ
last_of p [] = p
last_of p (q ∷ qs) = last_of q qs

has-last_of : (p : ℕ) (ys : List ℕ) → has (last_of p ys) (p ∷ ys) ≡ true
has-last_of p [] = ground arith
has-last_of p (y ∷ ys) = ground (arith, has-last_of y ys)

last_sending-ok :
    (fuel p : ℕ) (ys : List ℕ) (k : Kernel)
    → Chain k.proc_table (k.proc_table p).next_sending ys
    → length ys < fuel
    → last_sending fuel p k ≡ ok (last_of p ys) k
unfolding last_sending
last_sending-ok zero p [] k c h = absurd (omega arith)
last_sending-ok zero p (y ∷ ys) k c h = absurd (omega arith)
last_sending-ok (suc fuel) p [] k c h = rw c
last_sending-ok (suc fuel) p (y ∷ ys) k c h = rw c.0 (last_sending-ok fuel y ys k c.1 (omega arith))

-- A chain whose last process now points at `s`.
Chain-append :
    (t t' : Table) (s p : ℕ) (ys : List ℕ)
    → Chain t (t p).next_sending ys
    → Distinct (p ∷ ys)
    → ((x : ℕ)
        → x ≢ last_of p ys
        → has x (p ∷ ys) ≡ true
        → (t' x).next_sending ≡ (t x).next_sending)
    → (t' (last_of p ys)).next_sending ≡ some s
    → (t' s).next_sending ≡ none
    → Chain t' (t' p).next_sending (ys ++ s ∷ [])
Chain-append t t' s p [] c d same last stops = (last, stops)
Chain-append t t' s p (y ∷ ys) c d same last stops =
    let first : p ≢ last_of y ys = λ e. absurd (ground (arith, has-last_of y ys)) in
    (
      same p first (ground arith) ∙ c.0,
      Chain-append t t' s y ys c.1 d.1 (λ x ne i. same x ne (ground arith)) last stops,
    )

-- The table after `s` joined the end of the queue `xs` of `d`.
abbrev pub enqueued : Table → (s d : ℕ) → List ℕ → Table
enqueued t s d [] =
    update (update t d (record (t d) { q_sending = some s })) s
      (record (t s) { next_sending = none })
enqueued t s d (p ∷ ys) =
    let l = last_of p ys in
    update (update t l (record (t l) { next_sending = some s })) s
      (record (t s) { next_sending = none })

module _ (k : Kernel) (s d : ℕ) where
  pub enqueue-ok :
      (xs : List ℕ)
      → Chain k.proc_table (k.proc_table d).q_sending xs
      → length xs ≤ nr_procs
      → has s xs ≡ false
      → s ≢ d
      → enqueue s d k ≡ ok tt (record k { proc_table = enqueued k.proc_table s d xs })
  unfolding enqueue
  enqueue-ok [] c le out ne = rw (c, ==_of_ne s d ne)
  enqueue-ok (p ∷ ys) c le out ne =
      let walk = last_sending-ok (suc nr_procs) p ys k c.1 (omega arith) in
      let other : (s == last_of p ys) ≡ false = ground (arith, has-last_of p ys) in
      rw c.0 (rw (walk, ◌>>=◌, ◌>>◌) (rw other))

-- What joining the queue `xs` of `d` makes of a table.
pub record Joined (t t' : Table) (s d : ℕ) (xs : List ℕ) : Type 0 where
  pub queue : Chain t' (t' d).q_sending (xs ++ s ∷ [])
  pub self : t' s ≡ record (t s) { next_sending = none }
  pub other :
      (p : ℕ)
      → p ≢ s
      → t' p ≡ record (t p) { q_sending = (t' p).q_sending; next_sending = (t' p).next_sending }
  pub first : (p : ℕ) → p ≢ d → (t' p).q_sending ≡ (t p).q_sending
  pub next : (p : ℕ) → p ≢ s → has p xs ≡ false → (t' p).next_sending ≡ (t p).next_sending

module _ (t : Table) (s d : ℕ) (ne : s ≢ d) where
  Joined-empty : Chain t (t d).q_sending [] → Joined t (enqueued t s d []) s d []
  Joined-empty c = record {
    queue = (ground arith, ground arith);
    self = ground arith;
    other = λ p h. ground arith;
    first = λ p h. ground arith;
    next = λ p h i. ground arith;
  }

  Joined-last :
      (p : ℕ) (ys : List ℕ)
      → Chain t (t d).q_sending (p ∷ ys)
      → Distinct (p ∷ ys)
      → has s (p ∷ ys) ≡ false
      → Joined t (enqueued t s d (p ∷ ys)) s d (p ∷ ys)
  Joined-last p ys c dis out =
      let t' = enqueued t s d (p ∷ ys) in
      let l : ℕ = last_of p ys in
      let apart : l ≢ s = λ e. absurd (ground (arith, has-last_of p ys)) in
      record {
        queue = (
          ground (arith, c.0),
          Chain-append t t' s p ys c.1 dis (λ x n i. ground arith) (ground arith) (ground arith),
        );
        self = ground arith;
        other = λ q h. ground arith;
        first = λ q h. ground arith;
        next = λ q h i. ground (arith, has-last_of p ys);
      }

  pub enqueued-Joined :
      (xs : List ℕ)
      → Chain t (t d).q_sending xs
      → Distinct xs
      → has s xs ≡ false
      → Joined t (enqueued t s d xs) s d xs
  enqueued-Joined [] c dis out = Joined-empty c
  enqueued-Joined (p ∷ ys) c dis out = Joined-last p ys c dis out
