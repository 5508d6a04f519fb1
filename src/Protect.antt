-- ===== src/Protect.antt =====
-- Segment descriptors and gates (src/kernel/protect.c): the functions that split addresses into the
-- fields the processor wants, and `seg2phys`, which puts one together again.
pub mod Fields
pub mod Gates
pub mod Tables
use canalotus.Common.{
  ℕ, zero, suc, ◌+◌, ◌-◌, ◌*◌, ◌/◌, ◌%◌, ◌^◌, bit_and, bit_or, update, List, [], ◌∷◌,
}
use canalotus.State.{Descriptor, nr_procs}

-- `struct gate`
pub record Gate : Type 0 where
  pub offset_low : ℕ
  pub selector : ℕ
  pub dcount : ℕ
  pub attr : ℕ
  pub offset_high : ℕ

-- What `init_descriptor` writes, from a base and a limit of 32 bits and attributes of 16.
unfoldable pub init_descriptor : (base limit attribute : ℕ) → Descriptor
init_descriptor base limit attribute = record {
  limit_low = bit_and limit 0xFFFF;
  base_low = bit_and base 0xFFFF;
  base_mid = bit_and (base / 2 ^ 16) 0xFF;
  attr1 = bit_and attribute 0xFF;
  limit_high_attr2 = bit_or (bit_and (limit / 2 ^ 16) 0x0F) (bit_and (attribute / 2 ^ 8) 0xF0);
  base_high = bit_and (base / 2 ^ 24) 0xFF;
}

-- `init_descriptor(&gdt[i], …)`
unfoldable pub set_descriptor : (gdt : ℕ → Descriptor) (i base limit attribute : ℕ) → ℕ → Descriptor
unfolding init_descriptor
set_descriptor gdt i base limit attribute = update gdt i (init_descriptor base limit attribute)

unfoldable pub seg2phys : (ℕ → Descriptor) → ℕ → ℕ
seg2phys gdt seg =
    let d = gdt (seg / 2 ^ 3) in
    bit_or (bit_or (d.base_high * 2 ^ 24) (d.base_mid * 2 ^ 16)) d.base_low

abbrev pub selector_kernel_cs : ℕ
selector_kernel_cs = 0x08

-- What `init_idt_desc` writes for a handler's address.
unfoldable pub init_idt_desc : (desc_type handler privilege : ℕ) → Gate
init_idt_desc desc_type handler privilege = record {
  offset_low = bit_and handler 0xFFFF;
  selector = selector_kernel_cs;
  dcount = 0;
  attr = bit_or desc_type (privilege * 2 ^ 5) % 2 ^ 8;
  offset_high = bit_and (handler / 2 ^ 16) 0xFFFF;
}

abbrev pub da_386_igate : ℕ
da_386_igate = 0x8E

abbrev pub privilege_krnl : ℕ
privilege_krnl = 0

abbrev pub privilege_user : ℕ
privilege_user = 3

-- The addresses of the handlers, which the assembly code defines: of an exception, by its vector,
-- of a hardware interrupt, by its line, and of the system calls.
pub record Handlers : Type 0 where
  pub exception : ℕ → ℕ
  pub hwint : ℕ → ℕ
  pub syscall : ℕ

-- The calls of `init_idt_desc` for exceptions, in their order: vector and privilege.
abbrev pub exceptions : List (ℕ × ℕ)
exceptions =
    (0x0, privilege_krnl)
    ∷ (0x1, privilege_krnl)
    ∷ (0x2, privilege_krnl)
    ∷ (0x3, privilege_user)
    ∷ (0x4, privilege_user)
    ∷ (0x5, privilege_krnl)
    ∷ (0x6, privilege_krnl)
    ∷ (0x7, privilege_krnl)
    ∷ (0x8, privilege_krnl)
    ∷ (0x9, privilege_krnl)
    ∷ (0xA, privilege_krnl)
    ∷ (0xB, privilege_krnl)
    ∷ (0xC, privilege_krnl)
    ∷ (0xD, privilege_krnl)
    ∷ (0xE, privilege_krnl)
    ∷ (0x10, privilege_krnl)
    ∷ []

abbrev pub int_vector_irq0 : ℕ
int_vector_irq0 = 0x20

abbrev pub int_vector_syscall : ℕ
int_vector_syscall = 0x30

abbrev pub Idt : Type 0
Idt = ℕ → Gate

unfoldable pub set_exceptions : Handlers → List (ℕ × ℕ) → Idt → Idt
set_exceptions h [] idt = idt
set_exceptions h ((vector, privilege) ∷ calls) idt =
    set_exceptions h calls
      (update idt vector (init_idt_desc da_386_igate (h.exception vector) privilege))

-- The calls for the hardware interrupts from line `i` on.
unfoldable pub set_hwints : Handlers → (left i : ℕ) → Idt → Idt
set_hwints h zero i idt = idt
set_hwints h (suc left) i idt =
    set_hwints h left (i + 1)
      (update idt (int_vector_irq0 + i) (init_idt_desc da_386_igate (h.hwint i) privilege_krnl))

-- The gates that `init_prot` sets up.
unfoldable pub init_gates : Handlers → Idt → Idt
unfolding set_exceptions set_hwints
init_gates h idt =
    let idt = set_hwints h 16 0 (set_exceptions h exceptions idt) in
    update idt int_vector_syscall (init_idt_desc da_386_igate h.syscall privilege_user)

abbrev pub selector_kernel_ds : ℕ
selector_kernel_ds = 0x10

abbrev pub index_tss : ℕ
index_tss = 4

abbrev pub index_ldt_first : ℕ
index_ldt_first = 5

-- `sizeof(struct tss)`: 25 fields of 32 bits, and two of 16
abbrev pub sizeof_tss : ℕ
sizeof_tss = 104

-- `LDT_SIZE * sizeof(struct descriptor)`
abbrev pub sizeof_ldt : ℕ
sizeof_ldt = 2 * 8

abbrev pub da_386_tss : ℕ
da_386_tss = 0x89

abbrev pub da_ldt : ℕ
da_ldt = 0x82

unfoldable pub vir2phys : (seg_base vir : ℕ) → ℕ
vir2phys seg_base vir = (seg_base + vir) % 2 ^ 32

-- The loop over the processes, from entry `i` on; `ldts i` is the address of that entry's table.
unfoldable pub set_ldts :
    (ldts : ℕ → ℕ) → (left i selector_ldt : ℕ) → (ℕ → Descriptor) → ℕ → Descriptor
unfolding set_descriptor seg2phys vir2phys
set_ldts ldts zero i selector_ldt gdt = gdt
set_ldts ldts (suc left) i selector_ldt gdt = set_ldts ldts left (i + 1) (selector_ldt + 2 ^ 3) (
    set_descriptor gdt (selector_ldt / 2 ^ 3) (vir2phys (seg2phys gdt selector_kernel_ds) (ldts i))
      (sizeof_ldt - 1) da_ldt)

-- The descriptors that `init_prot` sets up: the task state segment's and the processes'.
unfoldable pub init_descriptors : (tss : ℕ) → (ldts : ℕ → ℕ) → (ℕ → Descriptor) → ℕ → Descriptor
unfolding set_ldts
init_descriptors tss ldts gdt = set_ldts ldts nr_procs 0 (index_ldt_first * 2 ^ 3) (
    set_descriptor gdt index_tss (vir2phys (seg2phys gdt selector_kernel_ds) tss) (sizeof_tss - 1)
      da_386_tss)
