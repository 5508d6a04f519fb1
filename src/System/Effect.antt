-- ===== src/System/Effect.antt =====
-- How far the effect of a system call reaches: what it leaves of the processes and messages of others.
use canalotus.Common.{
  ℕ, ◌<◌, ◌≡◌, refl, sym, ap, ◌∙◌, ◌≢◌, ◌⊎◌, inl, inr, true, eq_cases, ==_refl, ==_of_ne, ℤ, Option,
  List, arith,
}
use canalotus.State.{Process, Table, Kernel, nr_procs, is_idle, is_sending_to}
use canalotus.Ipc.Valid.{IsValid}
use canalotus.Schedule.Choice.{Scheduled, Scheduled-same}
use canalotus.Ipc.Interrupt.Laws.{tick, ticked}
use canalotus.Ipc.Send.{waits_for}
use canalotus.Ipc.Send.HandOver.{handed}
use canalotus.Ipc.Send.Wait.{Blocked, parked, parked-Joined, parked_self}
use canalotus.Ipc.Receive.Leave.{Left}
use canalotus.Ipc.Receive.Accept.{took}
use canalotus.Ipc.Receive.Wait.{told, waiting_table}
use canalotus.Ipc.Syscall.Laws.{signed}

-- What a process waits for is the same.
pub record Stays (p p' : Process) : Type 0 where
  pub flags : p'.p_flags ≡ p.p_flags
  pub message : p'.p_msg ≡ p.p_msg
  pub from : p'.p_recvfrom ≡ p.p_recvfrom
  pub to : p'.p_sendto ≡ p.p_sendto

-- The process waited for `s`: for a message of it, or to send to it.
abbrev pub WaitsOn : ℕ → Process → Type 0
WaitsOn s p = (waits_for p s ≡ true) ⊎ (is_sending_to s p ≡ true)

-- The effect of a call of the running process with its message at `msg`. Another process waits as
-- before, or waited for the caller and is free. The caller waits for nothing or with its message. A
-- message that changed is the caller's, or stands where a process waited for it.
pub record Moved (k k' : Kernel) (msg : ℕ) : Type 0 where
  pub others :
      (q : ℕ)
      → q ≢ k.p_proc_ready
      → Stays (k.proc_table q) (k'.proc_table q)
        ⊎ (WaitsOn k.p_proc_ready (k.proc_table q) × ((k'.proc_table q).p_msg ≡ 0))
  pub caller :
      ((k'.proc_table k.p_proc_ready).p_msg ≡ 0) ⊎ ((k'.proc_table k.p_proc_ready).p_msg ≡ msg)
  pub memory :
      (x : ℕ)
      → x ≢ msg
      → (k'.mem x ≡ k.mem x) ⊎ ((q : ℕ) × (q < nr_procs) × ((k.proc_table q).p_msg ≡ x))

pub Stays-refl : (p : Process) → Stays p p
Stays-refl p = record { flags = refl; message = refl; from = refl; to = refl }

-- The fields that link the queues do not matter, nor does the time.
Stays-links :
    (p p' : Process) (a b : Option ℕ)
    → p' ≡ record p { q_sending = a; next_sending = b }
    → Stays p p'
Stays-links p p' a b e = record {
  flags = ap (λ r. r.p_flags) e;
  message = ap (λ r. r.p_msg) e;
  from = ap (λ r. r.p_recvfrom) e;
  to = ap (λ r. r.p_sendto) e;
}

pub Stays-time : (p p' : Process) (n : ℤ) → p' ≡ record p { ticks = n } → Stays p p'
Stays-time p p' n e = record {
  flags = ap (λ r. r.p_flags) e;
  message = ap (λ r. r.p_msg) e;
  from = ap (λ r. r.p_recvfrom) e;
  to = ap (λ r. r.p_sendto) e;
}

pub Stays-trans : (p q r : Process) → Stays p q → Stays q r → Stays p r
Stays-trans p q r a b = record {
  flags = b.flags ∙ a.flags;
  message = b.message ∙ a.message;
  from = b.from ∙ a.from;
  to = b.to ∙ a.to;
}

idle_msg : (p : Process) → is_idle p ≡ true → p.p_msg ≡ 0
idle_msg p h = ground (arith, h)

-- The same call, seen from before the kernel wrote the caller into its message.
pub Moved-signed :
    (k k' : Kernel) (msg : ℕ) → Moved (signed k k.p_proc_ready msg) k' msg → Moved k k' msg
Moved-signed k k' msg m = record {
  others = m.others;
  caller = m.caller;
  memory = λ x ne. elim (m.memory x ne) [
    | inl e ↦ inl (e ∙ rw (==_of_ne x msg ne) refl)
    | inr w ↦ inr w
  ];
}

pub Moved-handed :
    (k : Kernel) (d msg : ℕ)
    → d < nr_procs
    → k.p_proc_ready ≢ d
    → is_idle (k.proc_table k.p_proc_ready) ≡ true
    → waits_for (k.proc_table d) k.p_proc_ready ≡ true
    → Moved k (handed k d msg) msg
Moved-handed k d msg hd ne idle waits = record {
  others = λ q off. elim (eq_cases q d) [
    | inl e ↦ rw (e, ==_refl d) (inr (inl waits, refl))
    | inr other ↦ rw (==_of_ne q d other) (inl (Stays-refl (k.proc_table q)))
  ];
  caller = rw (==_of_ne k.p_proc_ready d ne) (inl (idle_msg (k.proc_table k.p_proc_ready) idle));
  memory = λ x off. elim (eq_cases x (k.proc_table d).p_msg) [
    | inl e ↦ inr (d, hd, sym e)
    | inr other ↦ rw (==_of_ne x (k.proc_table d).p_msg other) (inl refl)
  ];
}

-- A call that blocks, from the table `t` on.
Moved-Blocked :
    (k k' : Kernel) (t : Table) (msg : ℕ)
    → ((q : ℕ) → q ≢ k.p_proc_ready → Stays (k.proc_table q) (t q))
    → (t k.p_proc_ready).p_msg ≡ msg
    → Blocked k k' t
    → Moved k k' msg
Moved-Blocked k k' t msg same with_msg b =
    let time = λ (q : ℕ). Stays-time (t q) (k'.proc_table q) _ (Scheduled-same b.chosen q) in
    record {
      others = λ q off. inl (Stays-trans (k.proc_table q) (t q) _ (same q off) (time q));
      caller = inr ((time k.p_proc_ready).message ∙ with_msg);
      memory = λ x off. inl (ap (λ m. m x) b.same_mem);
    }

pub Moved-parked :
    (k k' : Kernel) (qs : ℕ → List ℕ) (d msg : ℕ)
    → IsValid k.proc_table qs
    → d < nr_procs
    → k.p_proc_ready ≢ d
    → is_idle (k.proc_table k.p_proc_ready) ≡ true
    → 0 < msg
    → Blocked k k' (parked k.proc_table k.p_proc_ready d msg (qs d))
    → Moved k k' msg
Moved-parked k k' qs d msg v hd ne idle some_msg b =
    let s : ℕ = k.p_proc_ready in
    let j = parked-Joined k qs s d msg v hd ne idle some_msg in
    Moved-Blocked k k' _ msg
      (λ q off.
        let p' : Process = parked k.proc_table s d msg (qs d) q in
        Stays-links (k.proc_table q) p' p'.q_sending p'.next_sending
          (j.other q off ∙ rw (==_of_ne q s off) refl))
      (ap (λ p. p.p_msg) (parked_self k qs s d msg v hd ne idle some_msg)) b

pub Moved-waiting :
    (k k' : Kernel) (msg : ℕ) (src : ℤ)
    → Blocked k k' (waiting_table k.proc_table k.p_proc_ready src msg)
    → Moved k k' msg
Moved-waiting k k' msg src b =
    let s : ℕ = k.p_proc_ready in
    Moved-Blocked k k' _ msg (λ q off. rw (==_of_ne q s off) (Stays-refl (k.proc_table q)))
      (rw (==_refl s) refl) b

pub Moved-told :
    (k : Kernel) (msg : ℕ)
    → is_idle (k.proc_table k.p_proc_ready) ≡ true
    → Moved k (told k k.p_proc_ready msg) msg
Moved-told k msg idle = record {
  others = λ q off. rw (==_of_ne q k.p_proc_ready off) (inl (Stays-refl (k.proc_table q)));
  caller = rw (==_refl k.p_proc_ready) (inl (idle_msg (k.proc_table k.p_proc_ready) idle));
  memory = λ x off. rw (==_of_ne x msg off) (inl refl);
}

pub Moved-took :
    (k : Kernel) (t : Table) (from msg : ℕ) (xs : List ℕ)
    → is_idle (k.proc_table k.p_proc_ready) ≡ true
    → is_sending_to k.p_proc_ready (k.proc_table from) ≡ true
    → from ≢ k.p_proc_ready
    → Left k.proc_table t k.p_proc_ready from xs
    → Moved k (took (record k { proc_table = t }) from msg) msg
Moved-took k t from msg xs idle sends ne l = record {
  others = λ q off. elim (eq_cases q from) [
    | inl e ↦ rw (e, ==_refl from) (inr (inr sends, refl))
    | inr other ↦
        rw (==_of_ne q from other) (inl (Stays-links (k.proc_table q) (t q) _ _ (l.other q other)))
  ];
  caller =
      let off : k.p_proc_ready ≢ from = λ e. ne (sym e) in
      rw (==_of_ne k.p_proc_ready from off) (
        inl (
          ap (λ p. p.p_msg) (l.other k.p_proc_ready off)
          ∙ idle_msg (k.proc_table k.p_proc_ready) idle));
  memory = λ x off. rw (==_of_ne x msg off) (inl refl);
}

-- Every process waits as before, and every message is as before.
pub record Untouched (k k' : Kernel) : Type 0 where
  pub stays : (q : ℕ) → Stays (k.proc_table q) (k'.proc_table q)
  pub same_mem : k'.mem ≡ k.mem

pub Untouched-tick : (k : Kernel) → Untouched k (tick k)
Untouched-tick k = record {
  stays = λ q. elim (eq_cases q k.p_proc_ready) [
    | inl e ↦
        rw (e, ==_refl k.p_proc_ready)
          (Stays-time (k.proc_table k.p_proc_ready) (ticked (k.proc_table k.p_proc_ready)) _ refl)
    | inr off ↦ rw (==_of_ne q k.p_proc_ready off) (Stays-refl (k.proc_table q))
  ];
  same_mem = refl;
}

pub Untouched-switch :
    (k : Kernel) (t' : Table) (r : ℕ)
    → Scheduled (tick k).proc_table t' r
    → Untouched k (record (tick k) { proc_table = t'; p_proc_ready = r })
Untouched-switch k t' r sch = record {
  stays = λ q.
      Stays-trans (k.proc_table q) ((tick k).proc_table q) (t' q) ((Untouched-tick k).stays q)
        (Stays-time ((tick k).proc_table q) (t' q) _ (Scheduled-same sch q));
  same_mem = refl;
}
