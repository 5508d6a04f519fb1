-- ===== src/Protect/Fields.antt =====
-- The fields of descriptors and gates (src/kernel/protect.c): what `init_descriptor` and
-- `init_idt_desc` take apart is put together again.
use canalotus.Common.{
  ℕ, ◌+◌, ◌*◌, ◌/◌, ◌%◌, ◌^◌, ◌<◌, ◌≡◌, refl, sym, ◌∙◌, ap, ◌≢◌, ◌⊎◌, inl, inr, ◌==◌, if◌then◌else◌,
  eq_cases, ==_refl, ==_of_ne, bit_and, bit_or, arith,
}
use mathlib.Core.Path.{subst}
use canalotus.State.{Descriptor}
use canalotus.Common.{bit_or-shl, bit_or-low, and_0xFFFF, and_0xFF, and_0x0F, and_0xF0}
use canalotus.Protect.{Gate, init_descriptor, set_descriptor, seg2phys, init_idt_desc, da_386_igate}

-- The base address that a descriptor holds, as `seg2phys` reads it.
join_base :
    (high mid l : ℕ)
    → mid < 2 ^ 8
    → l < 2 ^ 16
    → bit_or (bit_or (high * 2 ^ 24) (mid * 2 ^ 16)) l ≡ high * 2 ^ 24 + mid * 2 ^ 16 + l
join_base high mid l hm hl =
    let upper : bit_or (high * 2 ^ 24) (mid * 2 ^ 16) ≡ high * 2 ^ 24 + mid * 2 ^ 16 =
      bit_or-shl 24 high (high * 2 ^ 24) (mid * 2 ^ 16) (omega arith) (omega arith) in
    rw upper (
      bit_or-shl 16 (high * 2 ^ 8 + mid) (high * 2 ^ 24 + mid * 2 ^ 16) l (omega arith)
        (omega arith))

-- What a descriptor tells of the segment.
abbrev pub base_of : Descriptor → ℕ
base_of d = d.base_high * 2 ^ 24 + d.base_mid * 2 ^ 16 + d.base_low

abbrev pub limit_of : Descriptor → ℕ
limit_of d = d.limit_high_attr2 % 2 ^ 4 * 2 ^ 16 + d.limit_low

-- the twelve bits that are attributes
abbrev pub attribute_of : Descriptor → ℕ
attribute_of d = d.limit_high_attr2 / 2 ^ 4 * 2 ^ 12 + d.attr1

join_limit :
    (limit attribute : ℕ)
    → bit_or (bit_and (limit / 2 ^ 16) 0x0F) (bit_and (attribute / 2 ^ 8) 0xF0)
      ≡ limit / 2 ^ 16 % 0x10 + attribute / 2 ^ 8 / 0x10 % 0x10 * 0x10
join_limit limit attribute =
    rw (and_0x0F (limit / 2 ^ 16), and_0xF0 (attribute / 2 ^ 8))
      (bit_or-low 4 (attribute / 2 ^ 8 / 0x10 % 0x10) (attribute / 2 ^ 8 / 0x10 % 0x10 * 0x10)
        (limit / 2 ^ 16 % 0x10) (omega arith) (omega arith))

-- The fields have the widths of `struct descriptor`.
pub record HasWidths (d : Descriptor) : Type 0 where
  pub limit_low : d.limit_low < 2 ^ 16
  pub base_low : d.base_low < 2 ^ 16
  pub base_mid : d.base_mid < 2 ^ 8
  pub attr1 : d.attr1 < 2 ^ 8
  pub limit_high_attr2 : d.limit_high_attr2 < 2 ^ 8
  pub base_high : d.base_high < 2 ^ 8

-- Whatever the base and the attributes of 32 and 16 bits and the limit are, every field of the
-- descriptor fits its width; put together again, the fields give the whole base, the limit's low 20
-- bits, and the attributes but bits 8 to 11.
pub init_descriptor_lem :
    (base limit attribute : ℕ)
    → base < 2 ^ 32
    → attribute < 2 ^ 16
    → let d = init_descriptor base limit attribute in
      HasWidths d
      × (base_of d ≡ base)
      × (limit_of d ≡ limit % 2 ^ 20)
      × (attribute_of d ≡ attribute / 2 ^ 12 * 2 ^ 12 + attribute % 2 ^ 8)
unfolding init_descriptor
init_descriptor_lem base limit attribute hb ha =
    let a = and_0xFFFF limit in
    let b = and_0xFFFF base in
    let c = and_0xFF (base / 2 ^ 16) in
    let d = and_0xFF attribute in
    let e = join_limit limit attribute in
    let f = and_0xFF (base / 2 ^ 24) in
    (
      record {
        limit_low = omega arith;
        base_low = omega arith;
        base_mid = omega arith;
        attr1 = omega arith;
        limit_high_attr2 = omega arith;
        base_high = omega arith;
      },
      omega arith,
      omega arith,
      omega arith,
    )

pub seg2phys-base_of :
    (gdt : ℕ → Descriptor) (seg : ℕ)
    → HasWidths (gdt (seg / 2 ^ 3))
    → seg2phys gdt seg ≡ base_of (gdt (seg / 2 ^ 3))
unfolding seg2phys
seg2phys-base_of gdt seg w =
    let d = gdt (seg / 2 ^ 3) in join_base d.base_high d.base_mid d.base_low w.base_mid w.base_low

pub seg2phys_written :
    (gdt : ℕ → Descriptor) (i base limit attribute seg : ℕ)
    → base < 2 ^ 32
    → attribute < 2 ^ 16
    → seg / 2 ^ 3 ≡ i
    → seg2phys (set_descriptor gdt i base limit attribute) seg ≡ base
unfolding set_descriptor
seg2phys_written gdt i base limit attribute seg hb ha e =
    let (w, b, l, a) = init_descriptor_lem base limit attribute hb ha in
    let at : set_descriptor gdt i base limit attribute (seg / 2 ^ 3)
        ≡ init_descriptor base limit attribute =
      rw (e, ==_refl i) refl in
    seg2phys-base_of (set_descriptor gdt i base limit attribute) seg (subst HasWidths (sym at) w)
    ∙ ap base_of at
    ∙ b

pub seg2phys_same :
    (gdt : ℕ → Descriptor) (i base limit attribute seg : ℕ)
    → seg / 2 ^ 3 ≢ i
    → seg2phys (set_descriptor gdt i base limit attribute) seg ≡ seg2phys gdt seg
unfolding set_descriptor seg2phys
seg2phys_same gdt i base limit attribute seg n = rw (==_of_ne (seg / 2 ^ 3) i n) refl

-- `seg2phys` of a selector of the descriptor that was just written gives the base back, whatever
-- the selector's requested level and table bit are; of a selector of another it is as before.
pub seg2phys-set_descriptor :
    (gdt : ℕ → Descriptor) (i base limit attribute seg : ℕ)
    → base < 2 ^ 32
    → attribute < 2 ^ 16
    → seg2phys (set_descriptor gdt i base limit attribute) seg
      ≡ (if seg / 2 ^ 3 == i then base else seg2phys gdt seg)
seg2phys-set_descriptor gdt i base limit attribute seg hb ha = elim (eq_cases (seg / 2 ^ 3) i) [
  | inl e ↦ rw (e, ==_refl i) (seg2phys_written gdt i base limit attribute seg hb ha e)
  | inr n ↦ rw (==_of_ne (seg / 2 ^ 3) i n) (seg2phys_same gdt i base limit attribute seg n)
]

-- The gate of a handler's address: present, for interrupts, in the kernel's code segment.
pub record OpensAt (handler privilege : ℕ) (g : Gate) : Type 0 where
  pub offset : g.offset_low + g.offset_high * 2 ^ 16 ≡ handler
  pub low_width : g.offset_low < 2 ^ 16
  pub high_width : g.offset_high < 2 ^ 16
  pub segment : g.selector ≡ 0x08
  pub attribute : g.attr ≡ 0x8E + 0x20 * privilege

pub init_idt_desc-OpensAt :
    (handler privilege : ℕ)
    → handler < 2 ^ 32
    → (privilege ≡ 0) ⊎ (privilege ≡ 3)
    → OpensAt handler privilege (init_idt_desc da_386_igate handler privilege)
unfolding init_idt_desc
init_idt_desc-OpensAt handler privilege h p =
    let a = and_0xFFFF handler in
    let b = and_0xFFFF (handler / 2 ^ 16) in
    record {
      offset = omega arith;
      low_width = omega arith;
      high_width = omega arith;
      segment = refl;
      attribute = elim p [ inl e ↦ rw e refl | inr e ↦ rw e refl ];
    }
