-- ===== src/Irq/Lines.antt =====
-- Which lines are open after the start, and that the controller and the interrupt table agree.
use canalotus.Common.{
  Bool, true, false, all_below, all_below_lem, bit_and, sym, ◌^◌, ℕ, zero, suc, ◌+◌, ◌-◌, ◌%◌, ◌≤◌,
  ◌<◌, ◌≡◌, refl, ap, ◌∙◌, ◌⊎◌, inl, inr, not, ◌||◌, ◌==◌, ltb, if◌then◌else◌, Bool-cases, eq_cases,
  ==_refl, ==_of_ne, Option, none, some, List, [], ◌∷◌, arith,
}
use mathlib.Core.Option
use mathlib.Core.Option.{some-injective}
use mathlib.Core.Path.{subst}
use canalotus.Protect.{Handlers, Idt, init_gates}
use canalotus.Protect.Fields.{OpensAt}
use canalotus.Protect.Gates.{handler_of, level, Reaches, init_gates_lem}
use canalotus.Irq.{
  Irqs, Handler, spurious_irq, clock_handler, keyboard_handler, hd_handler, all_spurious, nr_irq,
  init_8259a, init_clock, enable_keyboard, enable_disk, put_irq_handler, enable_irq, disable_irq,
  last_byte, mask_port, line_bit, int_m_ctlmask, int_s_ctlmask,
}

all_spurious_at :
    (left i : ℕ) (t : ℕ → Handler) (j : ℕ)
    → (j < i) ⊎ (i + left ≤ j)
    → all_spurious left i t j ≡ t j
unfolding all_spurious
all_spurious_at zero i t j h = refl
all_spurious_at (suc left) i t j h =
    all_spurious_at left (i + 1) _ j (omega (arith, h))
    ∙ rw (==_of_ne j i (λ e. absurd (omega (arith, h, e)))) refl

all_spurious_in :
    (left i : ℕ) (t : ℕ → Handler) (j : ℕ)
    → i ≤ j
    → j < i + left
    → all_spurious left i t j ≡ spurious_irq
unfolding all_spurious
all_spurious_in zero i t j a b = absurd (omega arith)
all_spurious_in (suc left) i t j a b = elim (eq_cases j i) [
  | inl e ↦ all_spurious_at left (i + 1) _ j (inl (omega (arith, e))) ∙ rw (e, ==_refl i) refl
  | inr e ↦ all_spurious_in left (i + 1) _ j (omega (arith, e)) (omega arith)
]

-- What the kernel does with the lines at its start, and when the disk driver starts.
abbrev pub started : Irqs → Irqs
started s = enable_disk (enable_keyboard (init_clock (init_8259a s)))

-- the handler that a line is to have
abbrev pub own_handler : ℕ → Handler
own_handler irq =
    if irq == 0
    then clock_handler
    else if irq == 1
    then keyboard_handler
    else if irq == 14
    then hd_handler
    else spurious_irq

-- a line whose bit stands in the mask register of its controller
abbrev pub is_masked : (irq : ℕ) → List (ℕ × ℕ) → Bool
is_masked irq ws = not (bit_and (last_byte (mask_port irq) ws) (line_bit irq) == 0)

abbrev pub stays_masked : ℕ → Bool
stays_masked irq = not ((irq == 0) || (irq == 1) || (irq == 2) || (irq == 14))

same_bit : (a b : Bool) → (if a then b else not b) ≡ true → b ≡ a
same_bit true b e = e
same_bit false b e = ground (arith, e)

open_lines :
    (s : Irqs)
    → all_below nr_irq (λ irq.
      if stays_masked irq
      then is_masked irq (started s).ports
      else not (is_masked irq (started s).ports))
      ≡ true
unfolding init_8259a init_clock enable_keyboard enable_disk put_irq_handler enable_irq disable_irq
open_lines s = refl

-- After the start of the kernel and of the disk driver, whatever was before: by the bytes that were
-- last written to the mask registers exactly the lines of the clock, the keyboard, the disk and the
-- second controller are open, and in the table each of the first three has its own handler and every
-- other line the one that reports it.
pub started_lem :
    (s : Irqs) (irq : ℕ)
    → irq < nr_irq
    → ((started s).irq_table irq ≡ own_handler irq)
      × (is_masked irq (started s).ports ≡ stays_masked irq)
unfolding init_8259a init_clock enable_keyboard enable_disk put_irq_handler enable_irq disable_irq
started_lem s irq h =
    let blank = all_spurious_in nr_irq 0 s.irq_table irq (omega arith) h in
    (
      ground (arith, blank),
      same_bit (stays_masked irq) (is_masked irq (started s).ports) (
          all_below_lem nr_irq
            (λ irq.
              if stays_masked irq
              then is_masked irq (started s).ports
              else not (is_masked irq (started s).ports))
            irq h (open_lines s)),
    )

-- The first byte that went to a port, which for a mask register is the vector of the first line.
abbrev pub first_byte : ℕ → List (ℕ × ℕ) → Option ℕ
first_byte port [] = none
first_byte port (w ∷ ws) = elim (first_byte port ws) [
  | some x ↦ some x
  | none ↦ if w.0 == port then some w.1 else none
]

-- The vector that a controller raises for a line.
abbrev pub vector_of : ℕ → List (ℕ × ℕ) → Option ℕ
vector_of irq ws = Option.map (λ base. base + irq % 8) (first_byte (mask_port irq) ws)

entry_of :
    (h : Handlers) (v irq : ℕ) → v ≡ 0x20 + irq → irq < nr_irq → handler_of h v ≡ some (h.hwint irq)
entry_of h v irq e below =
    let back : v - 0x20 ≡ irq = omega (arith, e) in
    let found : handler_of h v ≡ some (h.hwint (v - 0x20)) = ground (arith, e, below) in
    found ∙ ap (λ n. some (h.hwint n)) back

-- The gate of a line's vector.
opens :
    (h : Handlers) (idt : Idt) (irq v : ℕ)
    → irq < nr_irq
    → h.hwint irq < 2 ^ 32
    → v ≡ 0x20 + irq
    → OpensAt (h.hwint irq) 0 (init_gates h idt v)
opens h idt irq v below small e =
    let entry = entry_of h v irq e below in
    let low : level v ≡ 0 = ground (arith, e, below) in
    subst (λ o. Reaches o 0 (idt v) (init_gates h idt v)) entry
      (subst (λ l. Reaches (handler_of h v) l (idt v) (init_gates h idt v)) low
        (init_gates_lem h idt v
          (λ a is. rw (sym (some-injective (h.hwint irq) a (sym entry ∙ is))) small)))

bases :
    (s : Irqs)
    → s.ports ≡ []
    → (first_byte int_m_ctlmask (init_8259a s).ports ≡ some 0x20)
      × (first_byte int_s_ctlmask (init_8259a s).ports ≡ some 0x28)
unfolding init_8259a
bases s none_before = (rw none_before refl, rw none_before refl)

vector_from :
    (irq port base : ℕ) (ws : List (ℕ × ℕ))
    → mask_port irq ≡ port
    → first_byte port ws ≡ some base
    → vector_of irq ws ≡ some (base + irq % 8)
vector_from irq port base ws at e =
    ap (λ p. Option.map (λ base. base + irq % 8) (first_byte p ws)) at
    ∙ ap (Option.map (λ base. base + irq % 8)) e

-- With the bytes that `init_8259A` writes first, each of the sixteen lines raises a vector whose gate,
-- as `init_prot` fills it in, is an interrupt gate of ring 0 to that line's own entry point, of an
-- address of 32 bits.
pub init_8259a-init_gates :
    (h : Handlers) (idt : Idt) (s : Irqs) (irq : ℕ)
    → s.ports ≡ []
    → irq < nr_irq
    → h.hwint irq < 2 ^ 32
    → (v : ℕ) × (vector_of irq (init_8259a s).ports ≡ some v)
      × OpensAt (h.hwint irq) 0 (init_gates h idt v)
init_8259a-init_gates h idt s irq none_before below small = elim (Bool-cases (ltb irq 8)) [
  | inl e ↦ (
    0x20 + irq % 8,
    vector_from irq int_m_ctlmask 0x20 (init_8259a s).ports (rw e refl) (bases s none_before).0,
    opens h idt irq (0x20 + irq % 8) below small (ground (arith, e)),
  )
  | inr e ↦ (
    0x28 + irq % 8,
    vector_from irq int_s_ctlmask 0x28 (init_8259a s).ports (rw e refl) (bases s none_before).1,
    opens h idt irq (0x28 + irq % 8) below small (ground (arith, e, below)),
  )
]
