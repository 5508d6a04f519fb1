-- ===== src/Keyboard/Controller.antt =====
-- The polling of the keyboard's controller (src/kernel/keyboard.c, `kbd_wait`, `kbd_ack` and
-- `set_leds`). What a port gives is a function of how many reads came before.
use canalotus.Common.{
  ℕ, zero, suc, ◌+◌, ◌*◌, ◌<◌, ◌≡◌, refl, Bool, true, false, inl, inr, Option, none, some,
  Option-cases, List, ◌∷◌, ◌==◌, if◌then◌else◌, bit_and, bit_or,
}
use canalotus.Keyboard.{Keyboard, bit}

pub record Controller : Type 0 where
  pub status : ℕ → ℕ
  pub data_port : ℕ → ℕ

-- How often the ports were read, and what was written, the newest first.
pub record Talk : Type 0 where
  pub reads : ℕ
  pub written : List ℕ

-- Reads of a port until one that `done` accepts, on fuel; the number of reads then.
unfoldable pub poll : (done : ℕ → Bool) → (fuel reads : ℕ) → Option ℕ
poll done zero reads = none
poll done (suc fuel) reads =
    let rest = poll done fuel (reads + 1) in if done reads then some (reads + 1) else rest

-- the bit of the input buffer is clear
abbrev pub is_free : Controller → ℕ → Bool
is_free c n = bit_and (c.status n) 0x02 == 0

-- KBD_ACK
abbrev pub is_ack : Controller → ℕ → Bool
is_ack c n = c.data_port n == 0xFA

abbrev polled : (ℕ → Bool) → (fuel : ℕ) → Talk → Option Talk
polled done fuel t = elim (poll done fuel t.reads) [
  | some n ↦ some (record t { reads = n })
  | none ↦ none
]

abbrev pub kbd_wait : Controller → (fuel : ℕ) → Talk → Option Talk
kbd_wait c fuel t = polled (is_free c) fuel t

abbrev pub kbd_ack : Controller → (fuel : ℕ) → Talk → Option Talk
kbd_ack c fuel t = polled (is_ack c) fuel t

-- One byte to KBD_DATA, with the waits around it.
abbrev pub send_byte : Controller → (fuel byte : ℕ) → Talk → Option Talk
send_byte c fuel byte t = elim (kbd_wait c fuel t) [
  | some u ↦ kbd_ack c fuel (record u { written = byte ∷ u.written })
  | none ↦ none
]

-- `set_leds`, LED_CODE and then the byte of `leds`
unfoldable pub set_leds_polled : Controller → (fuel : ℕ) → Keyboard → Talk → Option Talk
unfolding poll
set_leds_polled c fuel s t = elim (send_byte c fuel 0xED t) [
  | some u ↦
      send_byte c fuel (bit_or (bit_or (bit s.caps_on * 4) (bit s.num_on * 2)) (bit s.scroll_on)) u
  | none ↦ none
]

-- Within `bound` reads one is accepted, whenever they begin.
abbrev pub Accepts : (ℕ → Bool) → (bound : ℕ) → Type 0
Accepts done bound = (n : ℕ) → (j : ℕ) × (j < bound) × (done (n + j) ≡ true)

pub record Replies (c : Controller) (bound : ℕ) : Type 0 where
  pub frees : Accepts (is_free c) bound
  pub acks : Accepts (is_ack c) bound

polls_on :
    (done : ℕ → Bool) (fuel reads : ℕ) → ((n : ℕ) → done n ≡ false) → poll done fuel reads ≡ none
unfolding poll
polls_on done zero reads never = refl
polls_on done (suc fuel) reads never = rw (never reads, polls_on done fuel (reads + 1) never) refl

unacknowledged :
    (c : Controller) (fuel byte : ℕ) (t : Talk)
    → ((n : ℕ) → is_ack c n ≡ false)
    → send_byte c fuel byte t ≡ none
unacknowledged c fuel byte t never = elim (Option-cases (kbd_wait c fuel t)) [
  | inl e ↦ rw (send_byte, e) refl
  | inr (u, e) ↦ rw (send_byte, e, kbd_ack, polled, polls_on (is_ack c) fuel u.reads never) refl
]

-- A controller that never acknowledges a byte keeps `set_leds` for ever.
pub set_leds-never :
    (c : Controller) (fuel : ℕ) (s : Keyboard) (t : Talk)
    → ((n : ℕ) → is_ack c n ≡ false)
    → set_leds_polled c fuel s t ≡ none
unfolding set_leds_polled
set_leds-never c fuel s t never = rw (set_leds_polled, unacknowledged c fuel 0xED t never) refl
