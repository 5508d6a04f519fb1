-- ===== src/Calls/Meanwhile.antt =====
-- What the other processes may do while a request waits for the process that serves it.
use canalotus.Common.{
  ℕ, ◌<◌, ◌≡◌, refl, sym, ap, ◌∙◌, ◌≢◌, inl, inr, true, if◌then◌else◌, Bool-cases, eq_cases,
  ==_refl, ==_of_ne, List, arith,
}
use mathlib.Core.Path.{subst}
use canalotus.State.{Message, Process, Table, Kernel, Run, nr_procs, is_idle}
use canalotus.Ipc.Valid.{is_receiving}
use canalotus.Ipc.Interrupt.{awaits_interrupt}
use canalotus.Ipc.Interrupt.Laws.{rouse, remember, inform_int_lem}
use canalotus.System.{IsRunning, Ends, Returns}
use canalotus.System.Effect.{Stays, Stays-refl, Moved, Untouched}
use canalotus.System.Call.{CallStops, syscall_sendrec-Returns}
use canalotus.System.Steps.{
  Step, writes, calls, ticks, interrupts, TickOutcome, clock_handler-Returns, Step-IsRunning,
}
use canalotus.Calls.Request.{Asks}

-- The message `content` of `c` waits for `d` at `a`, and no process has its own message there.
pub record Pending (k : Kernel) (c d msg a : ℕ) (content : Message) : Type 0 where
  pub asked : Asks k c d msg a content
  pub server : d < nr_procs
  pub apart : (q : ℕ) → q < nr_procs → (k.proc_table q).p_msg ≢ a

-- A request has just been sent.
pub Pending-begins :
    (t : Table) (k : Kernel) (c d msg a : ℕ) (content : Message)
    → d < nr_procs
    → 0 < a
    → a ≢ msg
    → ((q : ℕ) → q < nr_procs → q ≢ d → (t q).p_msg ≢ a)
    → Asks k c d msg a content
    → ((q : ℕ) → q ≢ c → q ≢ d → (k.proc_table q).p_msg ≡ (t q).p_msg)
    → Pending k c d msg a content
Pending-begins t k c d msg a content hd some_a apart_msg apart asked messages = record {
  asked = asked;
  server = hd;
  apart = λ q h. elim (eq_cases q c) [
    | inl r ↦ rw (r, asked.address) (λ z. apart_msg (sym z))
    | inr far ↦ elim (eq_cases q d) [
      | inl r ↦ rw r (λ z. absurd (ground (arith, z, asked.ready, some_a)))
      | inr off ↦ (λ z. apart q h off (sym (messages q far off) ∙ z))
    ]
  ];
}

-- A step that leaves the message at `a` to its owner.
abbrev pub Spares : (a : ℕ) {k k' : Kernel} → Step k k' → Type 0
Spares a {k} (writes m) = m a ≡ k.mem a
Spares a (calls function peer msg some_msg small e) = a ≢ msg
Spares a (ticks e) = Unit
Spares a (interrupts p h e) = Unit

-- Steps in which process `d` does not run, and that leave the message at `a` to it.
pub data Meanwhile (d a : ℕ) (k : Kernel) : Kernel → Type 0 where
  at_once : Meanwhile d a k k
  later :
      {k' k'' : Kernel}
      → Meanwhile d a k k'
      → k'.p_proc_ready ≢ d
      → (s : Step k' k'') → Spares a s
      → Meanwhile d a k k''

Stays-receiving : (p p' : Process) → Stays p p' → is_receiving p ≡ true → is_receiving p' ≡ true
Stays-receiving p p' s h = rw (s.flags, s.message, s.from, s.to) h

Stays-idle : (p p' : Process) → Stays p p' → is_idle p ≡ true → is_idle p' ≡ true
Stays-idle p p' s h = rw (s.flags, s.message, s.from, s.to) h

Pending-frame :
    (k k' : Kernel) (c d msg a : ℕ) (content : Message)
    → Pending k c d msg a content
    → Stays (k.proc_table c) (k'.proc_table c)
    → Stays (k.proc_table d) (k'.proc_table d)
    → k'.mem a ≡ k.mem a
    → ((q : ℕ) → q < nr_procs → (k'.proc_table q).p_msg ≢ a)
    → Pending k' c d msg a content
Pending-frame k k' c d msg a content p s t m apart = record {
  asked = record {
    waits = Stays-receiving (k.proc_table c) (k'.proc_table c) s p.asked.waits;
    from = s.from ∙ p.asked.from;
    address = s.message ∙ p.asked.address;
    ready = Stays-idle (k.proc_table d) (k'.proc_table d) t p.asked.ready;
    asks = m ∙ p.asked.asks;
  };
  server = p.server;
  apart = apart;
}

Pending-Untouched :
    (k k' : Kernel) (c d msg a : ℕ) (content : Message)
    → Untouched k k'
    → Pending k c d msg a content
    → Pending k' c d msg a content
Pending-Untouched k k' c d msg a content u p =
    Pending-frame k k' c d msg a content p (u.stays c) (u.stays d) (ap (λ m. m a) u.same_mem)
      (λ q h e. p.apart q h (sym (u.stays q).message ∙ e))

module _ (k k' : Kernel) (c d msg a : ℕ) (content : Message) (x : ℕ) (hc : c < nr_procs)
    (p : Pending k c d msg a content) (idle : is_idle (k.proc_table k.p_proc_ready) ≡ true)
    (away : k.p_proc_ready ≢ d) (m : Moved k k' x) (some_a : 0 < a) (apart : a ≢ x) where
  -- The caller does not wait for the process that runs, and neither does `d`.
  caller-Stays : Stays (k.proc_table c) (k'.proc_table c)
  caller-Stays =
      let off : c ≢ k.p_proc_ready = λ e. absurd (ground (arith, e, p.asked.waits, idle)) in
      elim (m.others c off) [
        | inl s ↦ s
        | inr (w, _) ↦ absurd (ground (arith, w, p.asked.waits, p.asked.from, away, p.server))
      ]

  server-Stays : Stays (k.proc_table d) (k'.proc_table d)
  server-Stays = elim (m.others d (λ e. away (sym e))) [
    | inl s ↦ s
    | inr (w, _) ↦ absurd (ground (arith, w, p.asked.ready))
  ]

  Pending-Moved : Pending k' c d msg a content
  Pending-Moved =
      Pending-frame k k' c d msg a content p caller-Stays server-Stays
        (elim (m.memory a apart) [ inl e ↦ e | inr (q, h, e) ↦ absurd (p.apart q h e) ])
        (λ q h e. elim (eq_cases q k.p_proc_ready) [
          | inl r ↦ elim m.caller [
            | inl z ↦ absurd (ground (arith, r, z, e, some_a))
            | inr y ↦ absurd (ground (arith, r, y, e, apart))
          ]
          | inr off ↦ elim (m.others q off) [
            | inl s ↦ p.apart q h (sym s.message ∙ e)
            | inr (_, z) ↦ absurd (ground (arith, z, e, some_a))
          ]
        ])

Pending-rouse :
    (k : Kernel) (c d msg a : ℕ) (content : Message) (p : ℕ)
    → Pending k c d msg a content
    → p < nr_procs
    → awaits_interrupt (k.proc_table p) ≡ true
    → 0 < a
    → Pending (rouse k p) c d msg a content
Pending-rouse k c d msg a content p pen h waits some_a =
    let not_caller : c ≢ p = λ e. absurd (ground (arith, e, waits, pen.asked.from, pen.server)) in
    let not_server : d ≢ p = λ e. absurd (ground (arith, e, waits, pen.asked.ready)) in
    let elsewhere : a ≢ (k.proc_table p).p_msg = λ e. pen.apart p h (sym e) in
    Pending-frame k (rouse k p) c d msg a content pen
      (rw (==_of_ne c p not_caller) (Stays-refl (k.proc_table c)))
      (rw (==_of_ne d p not_server) (Stays-refl (k.proc_table d)))
      (rw (==_of_ne a (k.proc_table p).p_msg elsewhere) refl)
      (λ q b e. elim (eq_cases q p) [
        | inl r ↦ absurd (ground (arith, r, e, some_a))
        | inr off ↦ pen.apart q b (ground (arith, e, off))
      ])

Stays-noted : (p : Process) → Stays p (record p { has_int_msg = 1 })
Stays-noted p = record { flags = refl; message = refl; from = refl; to = refl }

Untouched-remember : (k : Kernel) (p : ℕ) → Untouched k (remember k p)
Untouched-remember k p = record {
  stays = λ q. elim (eq_cases q p) [
    | inl e ↦ rw (e, ==_refl p) (Stays-noted (k.proc_table p))
    | inr off ↦ rw (==_of_ne q p off) (Stays-refl (k.proc_table q))
  ];
  same_mem = refl;
}

abbrev PendingAfter : (c d msg a : ℕ) (content : Message) → Run (Unit {0}) → Type 0
PendingAfter c d msg a content = Ends (λ _. Unit) (λ _ k'. Pending k' c d msg a content)

Pending-informed :
    (k : Kernel) (c d msg a : ℕ) (content : Message) (p : ℕ)
    → Pending k c d msg a content
    → p < nr_procs
    → 0 < a
    → Pending
        (if awaits_interrupt (k.proc_table p) then rouse k p else remember k p)
        c
        d
        msg
        a
        content
Pending-informed k c d msg a content p pen h some_a =
    elim (Bool-cases (awaits_interrupt (k.proc_table p))) [
      | inl e ↦ rw e (Pending-rouse k c d msg a content p pen h e some_a)
      | inr e ↦
          rw e (Pending-Untouched k (remember k p) c d msg a content (Untouched-remember k p) pen)
    ]

-- One step of the others.
Step-Pending :
    {k k' : Kernel} (qs : ℕ → List ℕ) (c d msg a : ℕ) (content : Message)
    → IsRunning k qs
    → c < nr_procs
    → Pending k c d msg a content
    → k.p_proc_ready ≢ d
    → 0 < a
    → (s : Step k k') → Spares a s
    → Pending k' c d msg a content
Step-Pending {k} qs c d msg a content run hc p away some_a (writes m) same =
    Pending-frame k (record k { mem = m }) c d msg a content p (Stays-refl (k.proc_table c))
      (Stays-refl (k.proc_table d)) same p.apart
Step-Pending {k} {k'} qs c d msg a content run hc p away some_a
      (calls function peer x some_x small e) apart =
    let (back, moved) =
      subst (Ends (CallStops k function peer) (Returns k x)) e
        (syscall_sendrec-Returns k qs function peer x run some_x small) in
    Pending-Moved k k' c d msg a content x hc p run.idle away moved some_a apart
Step-Pending {k} {k'} qs c d msg a content run hc p away some_a (ticks e) same =
    let (back, u) = subst (TickOutcome k qs) e (clock_handler-Returns k qs run) in
    Pending-Untouched k k' c d msg a content u p
Step-Pending {k} {k'} qs c d msg a content run hc p away some_a (interrupts q h e) same =
    subst (PendingAfter c d msg a content) (sym (inform_int_lem k qs q run.valid h).0 ∙ e)
      (Pending-informed k c d msg a content q p h some_a)

-- Whatever the others do meanwhile, the request waits, and the kernel keeps its invariant.
pub Meanwhile-Pending :
    {k : Kernel} (qs : ℕ → List ℕ) (c d msg a : ℕ) (content : Message)
    → IsRunning k qs
    → c < nr_procs
    → Pending k c d msg a content
    → 0 < a
    → {k' : Kernel} → Meanwhile d a k k'
    → ((qs' : ℕ → List ℕ) × IsRunning k' qs') × Pending k' c d msg a content
Meanwhile-Pending qs c d msg a content run hc p some_a at_once = ((qs, run), p)
Meanwhile-Pending qs c d msg a content run hc p some_a (later m away s spares) =
    let ((qs1, run1), p1) = Meanwhile-Pending qs c d msg a content run hc p some_a m in
    (Step-IsRunning qs1 run1 s, Step-Pending qs1 c d msg a content run1 hc p1 away some_a s spares)
