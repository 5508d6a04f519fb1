-- ===== src/State.antt =====
-- The kernel's shared data (src/include/sys/proc.h, type.h, protect.h, const.h, global.h), and the
-- outcome of kernel code. A pointer to an entry of `proc_table` is its index, and `0` is `none`.
use canalotus.Common.{
  ℕ, ◌+◌, ◌-◌, ◌^◌, Bool, true, false, not, ◌&&◌, Option, none, some, ◌==◌, ltb, if◌then◌else◌,
  update, ℤ, pos, negsuc, eq_ℤ, bit_and,
}

-- A segment descriptor, its fields as numbers of 16, 16, 8, 8, 8 and 8 bits.
pub record Descriptor : Type 0 where
  pub limit_low : ℕ
  pub base_low : ℕ
  pub base_mid : ℕ
  pub attr1 : ℕ
  pub limit_high_attr2 : ℕ
  pub base_high : ℕ

-- `struct message`, its union seen through the largest member, `struct msg3`.
pub record Message : Type 0 where
  pub source : ℤ
  pub msg_type : ℤ
  pub m3i1 : ℤ
  pub m3i2 : ℤ
  pub m3i3 : ℤ
  pub m3i4 : ℤ
  pub m3l1 : ℕ
  pub m3l2 : ℕ
  pub m3p1 : ℕ
  pub m3p2 : ℕ

-- `struct process` without the registers, the name and the open files.
pub record Process : Type 0 where
  pub ldt_sel : ℕ
  pub ldts : ℕ → Descriptor
  pub ticks : ℤ
  pub priority : ℤ
  pub pid : ℕ
  pub p_flags : ℕ
  pub p_msg : ℕ
  pub p_recvfrom : ℤ
  pub p_sendto : ℤ
  pub has_int_msg : ℕ
  pub q_sending : Option ℕ
  pub next_sending : Option ℕ
  pub nr_tty : ℕ

abbrev pub nr_sysu_procs : ℕ
nr_sysu_procs = 4

abbrev pub nr_user_procs : ℕ
nr_user_procs = 3

-- the entries of `proc_table`
abbrev pub nr_procs : ℕ
nr_procs = nr_sysu_procs + nr_user_procs

abbrev pub any : ℤ
any = pos (nr_sysu_procs + nr_user_procs + 10)

abbrev pub no_proc : ℤ
no_proc = pos (nr_sysu_procs + nr_user_procs + 20)

-- -10
abbrev pub interrupt : ℤ
interrupt = negsuc 9

abbrev pub sending : ℕ
sending = 0x02

abbrev pub receiving : ℕ
receiving = 0x04

abbrev pub hard_int : ℤ
hard_int = pos 0

abbrev pub Table : Type 0
Table = ℕ → Process

-- The global variables. `mem` holds the message that stands at an address: messages are only
-- copied whole, and two of them do not overlap.
pub record Kernel : Type 0 where
  pub proc_table : Table
  pub p_proc_ready : ℕ
  pub ticks : ℤ
  pub k_reenter : ℕ
  pub mem : ℕ → Message

-- Why kernel code does not go on: `assertion_failure` and a `panic` spin or trap, an entry outside
-- `proc_table` is read, or a loop runs on for ever.
pub data Stop : Type 0 where
  assert_failed panicked out_of_table looping : Stop

pub data Run {ℓ} (A : Type ℓ) : Type ℓ where
  ok : A → Kernel → Run A
  stopped : Stop → Run A

abbrev pub M : Type 0 → Type 0
M A = Kernel → Run A

abbrev pub pure : {A : Type 0} → A → M A
pure a k = ok a k

abbrev pub stop : {A : Type 0} → Stop → M A
stop why k = stopped why

infixl 5 ◌>>=◌ ◌>>◌
abbrev pub ◌>>=◌ : {A B : Type 0} → M A → (A → M B) → M B
◌>>=◌ m f k = elim (m k) [ ok a k' ↦ f a k' | stopped why ↦ stopped why ]

abbrev pub ◌>>◌ : {A B : Type 0} → M A → M B → M B
m >> n = m >>= λ _. n

abbrev pub assert : Bool → M (Unit {0})
assert b k = if b then ok tt k else stopped assert_failed

-- Reading and writing entries of `proc_table`.
abbrev pub proc : ℕ → M Process
proc p k = ok (k.proc_table p) k

abbrev pub set_proc : ℕ → (Process → Process) → M (Unit {0})
set_proc p f k = ok tt (record k { proc_table = update k.proc_table p (f (k.proc_table p)) })

-- `proc_table + n`, about to be read: a number outside the table is a stop.
abbrev pub entry : ℤ → M ℕ
entry (pos n) = if ltb n nr_procs then pure n else stop out_of_table
entry (negsuc n) = stop out_of_table

abbrev pub has_flag : ℕ → ℕ → Bool
has_flag flags f = not (bit_and flags f == 0)

-- `flags &= ~f` on 32 bits
abbrev pub clear_flag : ℕ → ℕ → ℕ
clear_flag flags f = bit_and flags (2 ^ 32 - 1 - f)

-- the four assertions that a process waits for nothing
abbrev pub is_idle : Process → Bool
is_idle p =
    (p.p_flags == 0) && (p.p_msg == 0) && eq_ℤ p.p_recvfrom no_proc && eq_ℤ p.p_sendto no_proc

-- the four assertions that a process waits to send to `dst`
abbrev pub is_sending_to : ℕ → Process → Bool
is_sending_to dst p =
    (p.p_flags == sending)
    && not (p.p_msg == 0)
    && eq_ℤ p.p_recvfrom no_proc
    && eq_ℤ p.p_sendto (pos dst)

abbrev pub is_null : Option ℕ → Bool
is_null none = true
is_null (some p) = false

-- equality of two pointers into `proc_table`
abbrev pub points_at : Option ℕ → ℕ → Bool
points_at none p = false
points_at (some q) p = q == p

-- Reading and writing the globals.
abbrev pub globals : M Kernel
globals k = ok k k

abbrev pub set_globals : (Kernel → Kernel) → M (Unit {0})
set_globals f k = ok tt (f k)
