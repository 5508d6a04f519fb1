-- ===== src/Ipc/Receive/Accept.antt =====
-- `msg_receive` where a sender is waiting: from a given process, or the first in the queue.
use canalotus.Common.{
  ℕ, suc, ◌^◌, ◌≤◌, ◌<◌, ◌≡◌, refl, sym, ◌∙◌, ◌≢◌, ◌⊎◌, inl, inr, true, false, ◌==◌, eq_cases,
  ==_refl, ==_of_ne, lt→ltb, update, ℤ, pos, eq_ℤ, Option, none, some, List, [], ◌∷◌, length, has,
  without, arith,
}
use mathlib.Core.Path.{subst}
use canalotus.State.{
  Table, Kernel, ok, ◌>>=◌, ◌>>◌, nr_procs, sending, no_proc, any, is_idle, is_sending_to, is_null,
}
use canalotus.Ipc.{ldt_seg_linear, index_ldt_rw, va2la, unblock}
use canalotus.Ipc.Walk.{is_sending}
use canalotus.Ipc.Valid.{IsValid, Chain, queue-length}
use canalotus.Ipc.Receive.{
  find_prev, found_states, find_sending, find_sender, take_message, accept, has_pending,
  msg_receive,
}
use canalotus.Ipc.Receive.Search.{find_prev-ok}
use canalotus.Ipc.Receive.Leave.{prev_in, dequeued, dequeue-ok, Left, dequeued-Left}
use canalotus.Ipc.Receive.Leaving.{freed, Left-IsValid}
use canalotus.Ipc.Send.HandOver.{va2la-ok, unblock-ok}
use canalotus.Ipc.Change.{seg_of_ldts}

-- the kernel after `cnt` took the message of `from`, which has left the queue
abbrev pub took : Kernel → (from msg : ℕ) → Kernel
took k from msg = record k {
  proc_table = update k.proc_table from (freed (k.proc_table from));
  mem = update k.mem msg (k.mem (k.proc_table from).p_msg);
}

take_message-ok :
    (k : Kernel) (cnt from msg : ℕ)
    → is_sending_to cnt (k.proc_table from) ≡ true
    → va2la cnt msg k ≡ ok msg k
    → va2la from (k.proc_table from).p_msg k ≡ ok (k.proc_table from).p_msg k
    → (msg == 0) ≡ false
    → take_message cnt from msg k ≡ ok tt (took k from msg)
unfolding take_message
take_message-ok k cnt from msg sends to source some_msg =
    let has_msg : ((k.proc_table from).p_msg == 0) ≡ false = ground arith in
    let flags : (k.proc_table from).p_flags ≡ sending = ground arith in
    let free : unblock from (took k from msg) ≡ ok tt (took k from msg) =
      unblock-ok from (took k from msg) (ground arith) in
    rw (some_msg, has_msg) (rw (to, ◌>>=◌, ◌>>◌) (rw (source, ◌>>=◌, ◌>>◌) (rw flags free)))

not_null :
    (t : Table) (from : ℕ) (q : Option ℕ) (xs : List ℕ)
    → Chain t q xs
    → has from xs ≡ true
    → is_null q ≡ false
not_null t from q [] c i = absurd (ground arith)
not_null t from q (x ∷ xs) c i = rw c.0

search-ok :
    (k : Kernel) (from : ℕ)
    → is_sending (k.proc_table from) ≡ true
    → (q : Option ℕ) (xs : List ℕ) → Chain k.proc_table q xs
    → has from xs ≡ true
    → length xs ≤ nr_procs
    → find_prev (suc nr_procs) from none q k ≡ ok (prev_in from xs) k
search-ok k from sends q [] c i le = absurd (ground arith)
search-ok k from sends q (x ∷ xs) c i le =
    rw c.0 (find_prev-ok k from sends (suc nr_procs) x xs (refl, c.1) i (omega arith))

-- the table after `from` left the queue `xs` of `cnt`
abbrev pub after_leaving : Table → (cnt from : ℕ) → List ℕ → Table
after_leaving t cnt from xs = dequeued t cnt from (prev_in from xs)

module _ (k : Kernel) (qs : ℕ → List ℕ) (cnt from msg : ℕ) (v : IsValid k.proc_table qs)
    (hc : cnt < nr_procs) (idle : is_idle (k.proc_table cnt) ≡ true)
    (member : has from (qs cnt) ≡ true) (some_msg : 0 < msg) (small : msg < 2 ^ 32) where
  sends : (from < nr_procs) × (is_sending_to cnt (k.proc_table from) ≡ true)
  sends = v.queued cnt from hc member

  apart : from ≢ cnt
  apart e = absurd (ground (arith, sends.1))

  abbrev k1 : Kernel
  k1 = record k { proc_table = after_leaving k.proc_table cnt from (qs cnt) }

  left : Left k.proc_table k1.proc_table cnt from (qs cnt)
  left =
      dequeued-Left k.proc_table cnt from (qs cnt) apart (v.chain cnt hc) (v.distinct cnt hc) member

  flat_after : (p : ℕ) → p < nr_procs → ldt_seg_linear (k1.proc_table p) index_ldt_rw ≡ 0
  flat_after p h = elim (eq_cases p from) [
    | inl e ↦ rw (e, left.self) (seg_of_ldts (k.proc_table from) _ refl ∙ v.flat from sends.0)
    | inr off ↦ rw (left.other p off) (seg_of_ldts (k.proc_table p) _ refl ∙ v.flat p h)
  ]

  same_msg : (k1.proc_table from).p_msg ≡ (k.proc_table from).p_msg
  same_msg = rw left.self

  accept-ok : accept cnt from (prev_in from (qs cnt)) msg k ≡ ok tt (took k1 from msg)
  unfolding accept
  accept-ok =
      let out = dequeue-ok k cnt from (qs cnt) apart (v.chain cnt hc) member in
      let still : is_sending_to cnt (k1.proc_table from) ≡ true = rw left.self sends.1 in
      let source =
        va2la-ok from (k1.proc_table from).p_msg k1 (flat_after from sends.0)
          (rw same_msg (v.small from sends.0)) in
      rw (out, ◌>>=◌, ◌>>◌)
        (take_message-ok k1 cnt from msg still (va2la-ok cnt msg k1 (flat_after cnt hc) small)
          source (ground arith))

  -- what a receive that found `from` returns and leaves
  pub accept_lem :
      (accept cnt from (prev_in from (qs cnt)) msg k ≡ ok tt (took k1 from msg))
      × IsValid (took k1 from msg).proc_table (update qs cnt (without from (qs cnt)))
  accept_lem = (accept-ok, Left-IsValid v hc apart member left)

  found : found_states cnt (k.proc_table cnt) (k.proc_table from) ≡ true
  found = ground (
    arith,
    sends,
    not_null k.proc_table from (k.proc_table cnt).q_sending (qs cnt) (v.chain cnt hc) member,
  )

  sender_parts :
      (((k.proc_table from).p_flags == sending) ≡ true)
      × (((k.proc_table from).p_msg == 0) ≡ false)
      × (eq_ℤ (k.proc_table from).p_recvfrom no_proc ≡ true)
  sender_parts = (ground (arith, sends), ground (arith, sends), ground (arith, sends))

  find_sending-ok : find_sending cnt from k ≡ ok (some (from, prev_in from (qs cnt))) k
  unfolding find_sending
  find_sending-ok =
      let flag : is_sending (k.proc_table from) ≡ true = ground (arith, sends) in
      let to : eq_ℤ (k.proc_table from).p_sendto (pos cnt) ≡ true = ground (arith, sends) in
      let some_first =
        not_null k.proc_table from (k.proc_table cnt).q_sending (qs cnt) (v.chain cnt hc) member in
      let search =
        search-ok k from flag (k.proc_table cnt).q_sending (qs cnt) (v.chain cnt hc) member
          (queue-length v cnt hc) in
      rw (flag, to, some_first)
        (rw (search, ◌>>=◌, ◌>>◌) (rw (idle, sender_parts.0, sender_parts.1, sender_parts.2)))

  find_sender-from : find_sender cnt (pos from) k ≡ ok (some (from, prev_in from (qs cnt))) k
  unfolding find_sender
  find_sender-from =
      let other : (from == 17) ≡ false = ground (arith, sends) in
      rw (other, lt→ltb from nr_procs sends.0) find_sending-ok

  find_sender-any :
      (ys : List ℕ)
      → qs cnt ≡ from ∷ ys
      → find_sender cnt any k ≡ ok (some (from, prev_in from (qs cnt))) k
  unfolding find_sender
  find_sender-any ys e =
      let first : (k.proc_table cnt).q_sending ≡ some from =
        (subst (λ xs. Chain k.proc_table (k.proc_table cnt).q_sending xs) e (v.chain cnt hc)).0 in
      rw (e, ==_refl from) (rw first (rw (first, idle, sends.1)))

-- What `src` asks for: a message of this sender, or the first that waits.
abbrev pub AsksFor : (qs : List ℕ) → ℤ → ℕ → Type 0
AsksFor xs src from = (src ≡ pos from) ⊎ ((src ≡ any) × ((ys : List ℕ) × (xs ≡ from ∷ ys)))

-- Under the invariant: a process that waits for nothing, with no pending interrupt that the
-- receive asks for, and with a sender in its queue that it names, or receiving from anybody with
-- that sender first in the queue, gets that sender's message copied to where it asked for it.
-- `msg_receive` returns 0, the sender is ready and out of the queue, the others keep their order,
-- and the invariant is kept. The message's address is not 0 and has 32 bits.
pub msg_receive_takes :
    (k : Kernel) (qs : ℕ → List ℕ) (cnt from msg : ℕ) (src : ℤ)
    → IsValid k.proc_table qs
    → cnt < nr_procs
    → is_idle (k.proc_table cnt) ≡ true
    → has from (qs cnt) ≡ true
    → AsksFor (qs cnt) src from
    → has_pending (k.proc_table cnt) src ≡ false
    → 0 < msg
    → msg < 2 ^ 32
    → let k1 = record k { proc_table = after_leaving k.proc_table cnt from (qs cnt) } in
      (msg_receive cnt src msg k ≡ ok 0 (took k1 from msg))
      × IsValid (took k1 from msg).proc_table (update qs cnt (without from (qs cnt)))
unfolding msg_receive
msg_receive_takes k qs cnt from msg src v hc idle member asks quiet some_msg small =
    let done = accept_lem k qs cnt from msg v hc idle member some_msg small in
    let ne = apart k qs cnt from msg v hc idle member some_msg small in
    let got : find_sender cnt src k ≡ ok (some (from, prev_in from (qs cnt))) k = elim asks [
      | inl e ↦ rw e (find_sender-from k qs cnt from msg v hc idle member some_msg small)
      | inr (e, (ys, q)) ↦
          rw e (find_sender-any k qs cnt from msg v hc idle member some_msg small ys q)
    ] in
    let self : eq_ℤ (pos cnt) src ≡ false = elim asks [
      | inl e ↦ rw e (==_of_ne cnt from (λ z. ne (sym z)))
      | inr (e, _) ↦ rw e (==_of_ne cnt 17 (λ z. absurd (omega arith)))
    ] in
    (rw (self, quiet) (rw (got, ◌>>=◌, ◌>>◌) (rw (done.0, ◌>>=◌, ◌>>◌))), done.1)
