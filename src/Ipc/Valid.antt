-- ===== src/Ipc/Valid.antt =====
-- The invariant of message passing: how the fields of the processes (src/include/sys/proc.h) fit
-- together, with the queue of senders that each process's pointers stand for.
use canalotus.Common.{
  ℕ, ◌^◌, ◌≤◌, ◌<◌, ◌≡◌, refl, ◌∙◌, ◌⊎◌, Bool, true, not, ◌&&◌, ◌==◌, ℤ, eq_ℤ, Option, none, some,
  List, [], ◌∷◌, length, has, Distinct, AllBelow, Distinct-length, arith,
}
use mathlib.Core.Path.{fun_ext}
use canalotus.State.{Process, Table, nr_procs, receiving, no_proc, is_idle, is_sending_to}
use canalotus.Schedule.Choice.{Scheduled, Scheduled-same}
use canalotus.Ipc.{ldt_seg_linear, index_ldt_rw}
use canalotus.Ipc.Walk.{is_sending, Walk, end, step, Acyclic}
use canalotus.Ipc.Deadlock.{SendersHaveMessages}

-- The pointers from `q` on lead through the processes of the list.
abbrev pub Chain : Table → Option ℕ → List ℕ → Type 0
Chain t q [] = q ≡ none
Chain t q (x ∷ xs) = (q ≡ some x) × Chain t (t x).next_sending xs

-- A process that waits to receive.
abbrev pub is_receiving : Process → Bool
is_receiving p =
    (p.p_flags == receiving)
    && not (p.p_msg == 0)
    && not (eq_ℤ p.p_recvfrom no_proc)
    && eq_ℤ p.p_sendto no_proc

-- One of the three: it waits for nothing, to send, or to receive.
abbrev pub Mode : Process → Type 0
Mode p =
    (is_idle p ≡ true)
    ⊎ (((d : ℕ) × (d < nr_procs) × (is_sending_to d p ≡ true)) ⊎ (is_receiving p ≡ true))

pub record IsValid (t : Table) (qs : ℕ → List ℕ) : Type 0 where
  -- the segments start at 0, and pointers have 32 bits
  pub flat : (p : ℕ) → p < nr_procs → ldt_seg_linear (t p) index_ldt_rw ≡ 0
  pub small : (p : ℕ) → p < nr_procs → (t p).p_msg < 2 ^ 32
  pub mode : (p : ℕ) → p < nr_procs → Mode (t p)
  -- the queue of each process is a chain of the processes that wait to send to it
  pub chain : (d : ℕ) → d < nr_procs → Chain t (t d).q_sending (qs d)
  pub distinct : (d : ℕ) → d < nr_procs → Distinct (qs d)
  pub queued :
      (d p : ℕ)
      → d < nr_procs
      → has p (qs d) ≡ true
      → (p < nr_procs) × (is_sending_to d (t p) ≡ true)
  pub sender :
      (d p : ℕ) → d < nr_procs → p < nr_procs → is_sending_to d (t p) ≡ true → has p (qs d) ≡ true
  pub acyclic : Acyclic t

pub Chain-frame :
    (t t' : Table) (xs : List ℕ) (q : Option ℕ)
    → ((x : ℕ) → has x xs ≡ true → (t' x).next_sending ≡ (t x).next_sending)
    → Chain t q xs
    → Chain t' q xs
Chain-frame t t' [] q same c = c
Chain-frame t t' (x ∷ xs) q same c =
    let e : (t' x).next_sending ≡ (t x).next_sending = same x (ground arith) in
    (c.0, rw e (Chain-frame t t' xs (t x).next_sending (λ y h. same y (ground arith)) c.1))

-- Walks see only which processes wait to send, and to whom.
pub Walk-frame :
    {t t' : Table} {p : ℕ} {xs : List ℕ}
    → ((q : ℕ)
        → has q xs ≡ true
        → (is_sending (t' q) ≡ is_sending (t q)) × ((t' q).p_sendto ≡ (t q).p_sendto))
    → Walk t p xs
    → Walk t' p xs
Walk-frame {t' = t'} same (end {p} n) = end ((same p (ground arith)).0 ∙ n)
Walk-frame {t' = t'} same (step {p} {d} s w) =
    let e = same p (ground arith) in
    step (record { flag = e.0 ∙ s.flag; target = e.1 ∙ s.target; in_table = s.in_table })
      (Walk-frame (λ q h. same q (ground arith)) w)

-- The scheduler only changes ticks, which the invariant does not see.
abbrev pub with_ticks : Table → (ℕ → ℤ) → Table
with_ticks t f p = record (t p) { ticks = f p }

pub Scheduled-with_ticks :
    {t t' : Table} {r : ℕ} → Scheduled t t' r → t' ≡ with_ticks t (λ p. (t' p).ticks)
Scheduled-with_ticks s = fun_ext (Scheduled-same s)

pub IsValid-with_ticks :
    {t : Table} {qs : ℕ → List ℕ} (f : ℕ → ℤ) → IsValid t qs → IsValid (with_ticks t f) qs
unfolding ldt_seg_linear
IsValid-with_ticks {t} {qs} f v = record {
  flat = v.flat;
  small = v.small;
  mode = v.mode;
  chain = λ d h. Chain-frame t (with_ticks t f) (qs d) (t d).q_sending (λ x e. refl) (v.chain d h);
  distinct = v.distinct;
  queued = v.queued;
  sender = v.sender;
  acyclic = λ p h. let (xs, w) = v.acyclic p h in (xs, Walk-frame (λ q e. (refl, refl)) w);
}

pub IsValid-messages : {t : Table} {qs : ℕ → List ℕ} → IsValid t qs → SendersHaveMessages t
IsValid-messages {t} v p h s = ground (arith, v.mode p h)

all_below : (xs : List ℕ) → ((p : ℕ) → has p xs ≡ true → p < nr_procs) → AllBelow nr_procs xs
all_below [] h = tt
all_below (x ∷ xs) h = (h x (ground arith), all_below xs (λ p i. h p (ground arith)))

-- No queue holds more processes than there are.
pub queue-length :
    {t : Table} {qs : ℕ → List ℕ} → IsValid t qs → (d : ℕ) → d < nr_procs → length (qs d) ≤ nr_procs
queue-length {qs = qs} v d h =
    Distinct-length nr_procs (qs d) (v.distinct d h)
      (all_below (qs d) (λ p i. (v.queued d p h i).0))
