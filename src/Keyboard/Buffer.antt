-- ===== src/Keyboard/Buffer.antt =====
-- The keyboard's ring buffer is a queue of at most 32 scan codes.
use canalotus.Common.{
  ℕ, ◌-◌, ◌<◌, ◌≡◌, refl, ◌∙◌, inl, inr, ltb, if◌then◌else◌, Bool-cases, ltb→lt, Option, none, some,
  List, [], ◌∷◌, ◌++◌, length, arith,
}
use mathlib.Core.Path.{subst}
use canalotus.Common.{
  advance, contents, IsRing, contents-length, put-IsRing, contents-put_one, contents-take_one,
  take_one-IsRing,
}
use canalotus.Keyboard.{
  Keyboard, keyboard_handler, get_byte_from_kbdbuf, init_keyboard, set_leds, take_byte,
}
use canalotus.Keyboard.Keys.{kbd_in_bytes}

abbrev pub IsBuffer : Keyboard → Type 0
IsBuffer s = IsRing kbd_in_bytes s.p_head s.p_tail s.count

abbrev pub queue : Keyboard → List ℕ
queue s = contents kbd_in_bytes s.buf s.p_tail s.count

-- The scan codes a read will see: those in the buffer, then those still to come.
abbrev pub pending : Keyboard → List ℕ
pending s = queue s ++ s.incoming

-- The buffer stays well formed, and is a queue bounded by 32: the handler appends the scan code when
-- fewer than 32 wait, and drops it otherwise.
pub keyboard_handler_lem :
    (x : ℕ) (s : Keyboard)
    → IsBuffer s
    → IsBuffer (keyboard_handler x s)
      × (queue (keyboard_handler x s)
          ≡ (if ltb (length (queue s)) kbd_in_bytes then queue s ++ x ∷ [] else queue s))
unfolding keyboard_handler
keyboard_handler_lem x s r =
    let len = contents-length kbd_in_bytes s.buf s.p_tail s.count in
    elim (Bool-cases (ltb s.count kbd_in_bytes)) [
      | inl e ↦
          let h : s.count < kbd_in_bytes = ltb→lt s.count kbd_in_bytes e in
          rw (len, e)
            (
              put-IsRing kbd_in_bytes s.p_head s.p_tail s.count r h,
              contents-put_one kbd_in_bytes s.buf s.p_head s.p_tail s.count x r h,
            )
      | inr e ↦ rw (len, e) (r, refl)
    ]

pub init_keyboard-IsBuffer :
    (s : Keyboard) → IsBuffer (init_keyboard s) × (queue (init_keyboard s) ≡ [])
unfolding init_keyboard set_leds
init_keyboard-IsBuffer s = (
  record {
    head_below = omega arith;
    tail_below = omega arith;
    count_le = omega arith;
    distance = inl refl;
  },
  refl,
)

-- What a read of a byte does to the bytes to come.
abbrev pub Taken : List ℕ → Option (ℕ × Keyboard) → Type 0
Taken [] r = r ≡ none
Taken (x ∷ later) r = (s : Keyboard) × (r ≡ some (x, s)) × IsBuffer s × (pending s ≡ later)

take_byte-Taken : (s : Keyboard) → IsBuffer s → 0 < s.count → Taken (pending s) (take_byte s)
take_byte-Taken s r h = rw (contents-take_one kbd_in_bytes s.buf s.p_tail s.count h) (
  record s { p_tail = advance kbd_in_bytes s.p_tail; count = s.count - 1 },
  refl,
  take_one-IsRing kbd_in_bytes s.p_head s.p_tail s.count h r,
  refl,
)

handler-incoming : (x : ℕ) (s : Keyboard) → (keyboard_handler x s).incoming ≡ s.incoming
unfolding keyboard_handler
handler-incoming x s = ground arith

handler-count : (x : ℕ) (s : Keyboard) → s.count ≡ 0 → 0 < (keyboard_handler x s).count
unfolding keyboard_handler
handler-count x s h = ground arith

queue_of_empty : (s : Keyboard) → s.count ≡ 0 → queue s ≡ []
queue_of_empty s h = rw h refl

get_arriving :
    (s : Keyboard)
    → IsBuffer s
    → (l : List ℕ) → s.count ≡ 0
    → s.incoming ≡ l
    → Taken (pending s) (elim l [
      | [] ↦ none
      | x ∷ later ↦ take_byte (keyboard_handler x (record s { incoming = later }))
    ])
get_arriving s r [] h e = rw (h, e) refl
get_arriving s r (x ∷ later) h e =
    let s1 : Keyboard = record s { incoming = later } in
    let s2 = keyboard_handler x s1 in
    let step = keyboard_handler_lem x s1 r in
    let here : queue s2 ≡ x ∷ [] = step.1 ∙ rw (queue_of_empty s1 h) refl in
    let all : pending s2 ≡ x ∷ later = rw (here, handler-incoming x s1) refl in
    rw (queue_of_empty s h, e)
      (subst (λ l. Taken l (take_byte s2)) all (take_byte-Taken s2 step.0 (handler-count x s1 h)))

-- The bytes come in the order in which the interrupts brought them, whether they wait in the buffer
-- or are still to come: a read gives the first of them and leaves the others and a well formed
-- buffer, and where there is none it waits for ever.
pub get_byte_lem : (s : Keyboard) → IsBuffer s → Taken (pending s) (get_byte_from_kbdbuf s)
unfolding get_byte_from_kbdbuf
get_byte_lem s r = elim (Bool-cases (ltb 0 s.count)) [
  | inl e ↦ rw e (take_byte-Taken s r (ltb→lt 0 s.count e))
  | inr e ↦ rw e (get_arriving s r s.incoming (ground (arith, e)) refl)
]
