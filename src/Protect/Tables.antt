-- ===== src/Protect/Tables.antt =====
-- The descriptors that `init_prot` (src/kernel/protect.c) sets up.
use canalotus.Common.{
  ℕ, zero, suc, ◌+◌, ◌-◌, ◌*◌, ◌/◌, ◌%◌, ◌^◌, ◌≤◌, ◌<◌, ◌≡◌, refl, ◌∙◌, ap, arith,
}
use canalotus.State.{Descriptor, nr_procs}
use canalotus.Protect.{
  set_ldts, init_descriptors, set_descriptor, seg2phys, vir2phys, da_ldt, sizeof_ldt, sizeof_tss,
  da_386_tss, index_tss, selector_kernel_ds,
}
use canalotus.Protect.Fields.{seg2phys_written, seg2phys_same}

-- The loop over the processes.
module _ (ldts : ℕ → ℕ) where
  -- a descriptor of another index is not touched
  set_ldts_same :
      (left i sel : ℕ) (gdt : ℕ → Descriptor) (seg : ℕ)
      → seg / 2 ^ 3 < sel / 2 ^ 3
      → seg2phys (set_ldts ldts left i sel gdt) seg ≡ seg2phys gdt seg
  unfolding set_ldts
  set_ldts_same zero i sel gdt seg l = refl
  set_ldts_same (suc left) i sel gdt seg l =
      set_ldts_same left (i + 1) (sel + 2 ^ 3) _ seg (omega arith)
      ∙ seg2phys_same gdt (sel / 2 ^ 3) (vir2phys (seg2phys gdt selector_kernel_ds) (ldts i))
          (sizeof_ldt - 1) da_ldt seg (omega arith)

  set_ldts_at :
      (left i sel : ℕ) (gdt : ℕ → Descriptor) (n p seg : ℕ)
      → 0x18 ≤ sel
      → n < left
      → p ≡ i + n
      → seg ≡ sel + n * 8
      → seg2phys (set_ldts ldts left i sel gdt) seg
        ≡ (seg2phys gdt selector_kernel_ds + ldts p) % 2 ^ 32
  unfolding set_ldts vir2phys
  set_ldts_at zero i sel gdt n p seg h l e f = absurd (omega arith)
  set_ldts_at (suc left) i sel gdt zero p seg h l e f =
      let here : i ≡ p = omega arith in
      set_ldts_same left (i + 1) (sel + 2 ^ 3) _ seg (omega arith)
      ∙ seg2phys_written gdt (sel / 2 ^ 3) (vir2phys (seg2phys gdt selector_kernel_ds) (ldts i))
          (sizeof_ldt - 1) da_ldt seg (omega arith) (omega arith) (omega arith)
      ∙ (rw here refl)
  set_ldts_at (suc left) i sel gdt (suc n) p seg h l e f =
      let base = vir2phys (seg2phys gdt selector_kernel_ds) (ldts i) in
      let kept : seg2phys (set_descriptor gdt (sel / 2 ^ 3) base (sizeof_ldt - 1) da_ldt)
            selector_kernel_ds
          ≡ seg2phys gdt selector_kernel_ds =
        seg2phys_same gdt (sel / 2 ^ 3) base (sizeof_ldt - 1) da_ldt selector_kernel_ds
          (omega arith) in
      set_ldts_at left (i + 1) (sel + 2 ^ 3) _ n p seg (omega arith) (omega arith) (omega arith)
        (omega arith)
      ∙ ap (λ b. (b + ldts p) % 2 ^ 32) kept

-- In the table that `init_prot` leaves, the kernel's data segment starts where it did; the selector
-- 0x20 names the task state segment, and 0x28 + 8 `p` the local table of process `p`, each at its
-- address in that segment, as 32 bits.
pub init_descriptors_lem :
    (tss : ℕ) (ldts : ℕ → ℕ) (gdt : ℕ → Descriptor)
    → let gdt' = init_descriptors tss ldts gdt in
      (seg2phys gdt' selector_kernel_ds ≡ seg2phys gdt selector_kernel_ds)
      × (seg2phys gdt' 0x20 ≡ (seg2phys gdt selector_kernel_ds + tss) % 2 ^ 32)
      × ((p : ℕ)
          → p < nr_procs
          → seg2phys gdt' (0x28 + p * 8) ≡ (seg2phys gdt selector_kernel_ds + ldts p) % 2 ^ 32)
unfolding init_descriptors vir2phys
init_descriptors_lem tss ldts gdt =
    let base = vir2phys (seg2phys gdt selector_kernel_ds) tss in
    let kept =
      seg2phys_same gdt index_tss base (sizeof_tss - 1) da_386_tss selector_kernel_ds
        (omega arith) in
    let g : ℕ → Descriptor = set_descriptor gdt index_tss base (sizeof_tss - 1) da_386_tss in
    (
      set_ldts_same ldts nr_procs 0 0x28 g selector_kernel_ds (omega arith) ∙ kept,
      set_ldts_same ldts nr_procs 0 0x28 g 0x20 (omega arith)
          ∙ seg2phys_written gdt index_tss base (sizeof_tss - 1) da_386_tss 0x20 (omega arith)
              (omega arith) (omega arith),
      λ p h.
          set_ldts_at ldts nr_procs 0 0x28 g p p (0x28 + p * 8) (omega arith) h (omega arith) refl
          ∙ ap (λ b. (b + ldts p) % 2 ^ 32) kept,
    )
