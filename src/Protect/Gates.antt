-- ===== src/Protect/Gates.antt =====
-- The interrupt table that `init_prot` (src/kernel/protect.c) sets up, entry by entry.
use canalotus.Common.{
  ℕ, zero, suc, ◌+◌, ◌-◌, ◌^◌, ◌≤◌, ◌<◌, ◌≡◌, refl, sym, ◌∙◌, ◌⊎◌, inl, inr, Bool, true, false, not,
  ◌&&◌, ◌||◌, ◌==◌, ltb, leb, if◌then◌else◌, Bool-cases, Option-cases, eq_cases, ==_refl, ==_of_ne,
  update, Option, none, some, List, [], ◌∷◌, arith,
}
use mathlib.Core.Path.{subst}
use canalotus.Protect.{
  Gate, Handlers, Idt, exceptions, set_exceptions, set_hwints, init_gates, init_idt_desc,
  da_386_igate,
}
use canalotus.Protect.Fields.{OpensAt, init_idt_desc-OpensAt}

-- The privilege of the last call for a vector.
abbrev last_call : List (ℕ × ℕ) → ℕ → Option ℕ
last_call [] v = none
last_call ((vector, privilege) ∷ calls) v =
    let later = last_call calls v in
    elim later [ some p ↦ some p | none ↦ if v == vector then some privilege else none ]

set_exceptions-last :
    (h : Handlers) (calls : List (ℕ × ℕ)) (idt : Idt) (v : ℕ)
    → set_exceptions h calls idt v ≡ elim (last_call calls v) [
      | some p ↦ init_idt_desc da_386_igate (h.exception v) p
      | none ↦ idt v
    ]
unfolding set_exceptions
set_exceptions-last h [] idt v = refl
set_exceptions-last h ((w, p) ∷ calls) idt v =
    let rest =
      set_exceptions-last h calls (update idt w (init_idt_desc da_386_igate (h.exception w) p)) v in
    elim (Option-cases (last_call calls v)) [
      | inl e ↦ elim (eq_cases v w) [
        | inl same ↦ rest ∙ (rw (e, sym same, ==_refl v) refl)
        | inr other ↦ rest ∙ (rw (e, ==_of_ne v w other) refl)
      ]
      | inr (q, e) ↦ rest ∙ (rw e refl)
    ]

-- Every vector of the processor's exceptions but 15, which it reserves.
abbrev pub is_exception : ℕ → Bool
is_exception v = ltb v 0x11 && not (v == 0xF)

-- Processes may raise breakpoints, overflows and system calls themselves.
abbrev pub level : ℕ → ℕ
level v = if (v == 3) || (v == 4) || (v == 0x30) then 3 else 0

exceptions_last :
    (v : ℕ) → last_call exceptions v ≡ (if is_exception v then some (level v) else none)
exceptions_last v = ground arith

set_hwints_same :
    (h : Handlers) (left i : ℕ) (idt : Idt) (v : ℕ)
    → (v < 0x20 + i) ⊎ (0x20 + (i + left) ≤ v)
    → set_hwints h left i idt v ≡ idt v
unfolding set_hwints
set_hwints_same h zero i idt v o = refl
set_hwints_same h (suc left) i idt v o =
    let ne : (v == 0x20 + i) ≡ false = ground arith in
    set_hwints_same h left (i + 1) _ v (omega arith) ∙ (rw ne refl)

-- The lines from `i` on get their handlers; the other entries are as before.
set_hwints_at :
    (h : Handlers) (left i : ℕ) (idt : Idt) (v n : ℕ)
    → n < left
    → v ≡ 0x20 + (i + n)
    → set_hwints h left i idt v ≡ init_idt_desc da_386_igate (h.hwint (v - 0x20)) 0
unfolding set_hwints
set_hwints_at h zero i idt v n l e = absurd (omega arith)
set_hwints_at h (suc left) i idt v zero l e =
    let here : v ≡ 0x20 + i = omega arith in
    let line : v - 0x20 ≡ i = omega arith in
    set_hwints_same h left (i + 1) _ v (inl (omega arith))
    ∙ (rw (line, here, ==_refl (0x20 + i)) refl)
set_hwints_at h (suc left) i idt v (suc n) l e =
    set_hwints_at h left (i + 1) _ v n (omega arith) (omega arith)

-- The handler that an interrupt vector is to reach.
abbrev pub handler_of : Handlers → ℕ → Option ℕ
handler_of h v =
    if is_exception v
    then some (h.exception v)
    else (if leb 0x20 v && ltb v 0x30
        then some (h.hwint (v - 0x20))
        else (if v == 0x30 then some h.syscall else none))

init_gates_last :
    (h : Handlers) (idt : Idt) (v : ℕ)
    → init_gates h idt v ≡ (
        if v == 0x30
        then init_idt_desc da_386_igate h.syscall 3
        else set_hwints h 16 0 (set_exceptions h exceptions idt) v)
unfolding init_gates
init_gates_last h idt v = refl

-- The gate of a vector that has a handler, the entry as it was for the other vectors.
abbrev gate_or : Option ℕ → (privilege : ℕ) → Gate → Gate
gate_or (some a) privilege g = init_idt_desc da_386_igate a privilege
gate_or none privilege g = g

syscall_gate :
    (h : Handlers) (idt : Idt) (v : ℕ)
    → v ≡ 0x30
    → init_gates h idt v ≡ gate_or (handler_of h v) (level v) (idt v)
syscall_gate h idt v e =
    let reached : handler_of h v ≡ some h.syscall = ground arith in
    let three : level v ≡ 3 = ground arith in
    let this : (v == 0x30) ≡ true = ground arith in
    init_gates_last h idt v ∙ (rw (reached, three, this) refl)

hwint_gate :
    (h : Handlers) (idt : Idt) (v : ℕ)
    → 0x20 ≤ v
    → v < 0x30
    → init_gates h idt v ≡ gate_or (handler_of h v) (level v) (idt v)
hwint_gate h idt v lo hi =
    let reached : handler_of h v ≡ some (h.hwint (v - 0x20)) = ground arith in
    let zero_ : level v ≡ 0 = ground arith in
    let other : (v == 0x30) ≡ false = ground arith in
    init_gates_last h idt v
    ∙ (rw (reached, zero_, other)
        (set_hwints_at h 16 0 (set_exceptions h exceptions idt) v (v - 0x20) (omega arith)
          (omega arith)))

exception_gate :
    (h : Handlers) (idt : Idt) (v : ℕ)
    → (v < 0x20) ⊎ (0x30 < v)
    → init_gates h idt v ≡ gate_or (handler_of h v) (level v) (idt v)
exception_gate h idt v o =
    let before = set_hwints_same h 16 0 (set_exceptions h exceptions idt) v (omega arith) in
    let other : (v == 0x30) ≡ false = ground arith in
    let first = set_exceptions-last h exceptions idt v in
    let last = exceptions_last v in
    elim (Bool-cases (is_exception v)) [
      | inl e ↦
          let reached : handler_of h v ≡ some (h.exception v) = ground arith in
          init_gates_last h idt v
          ∙ (rw (reached, other) (before ∙ first ∙ (rw (last, e, other) refl)))
      | inr e ↦
          let missed : handler_of h v ≡ none = ground arith in
          init_gates_last h idt v ∙ (rw (missed, other) (before ∙ first ∙ (rw (last, e) refl)))
    ]

gates :
    (h : Handlers) (idt : Idt) (v : ℕ)
    → init_gates h idt v ≡ gate_or (handler_of h v) (level v) (idt v)
gates h idt v =
    let place : (v ≡ 0x30) ⊎ (((0x20 ≤ v) × (v < 0x30)) ⊎ ((v < 0x20) ⊎ (0x30 < v))) =
      ground arith in
    elim place [
      | inl e ↦ syscall_gate h idt v e
      | inr (inl (lo, hi)) ↦ hwint_gate h idt v lo hi
      | inr (inr o) ↦ exception_gate h idt v o
    ]

-- What the entry of a vector is to be, by the handler's address, the privilege and the old entry.
abbrev pub Reaches : Option ℕ → (privilege : ℕ) → (old g : Gate) → Type 0
Reaches (some a) privilege old g = OpensAt a privilege g
Reaches none privilege old g = g ≡ old

-- For every interrupt vector, with a handler's address of 32 bits: if the kernel has a handler for
-- it, `init_prot` leaves an interrupt gate to that address, which only the vectors 3, 4 and 0x30 let
-- a process in ring 3 raise itself; if not, the vector's entry is as it was.
pub init_gates_lem :
    (h : Handlers) (idt : Idt) (v : ℕ)
    → ((a : ℕ) → handler_of h v ≡ some a → a < 2 ^ 32)
    → Reaches (handler_of h v) (level v) (idt v) (init_gates h idt v)
init_gates_lem h idt v small =
    let levels : (level v ≡ 0) ⊎ (level v ≡ 3) = ground arith in
    let is = gates h idt v in
    elim (Option-cases (handler_of h v)) [
      | inl e ↦ rw e (is ∙ (rw e refl))
      | inr (a, e) ↦ rw e (
          subst (OpensAt a (level v)) (sym (is ∙ (rw e refl)))
            (init_idt_desc-OpensAt a (level v) (small a e) levels))
    ]
