-- ===== src/Tty/Buffer.antt =====
-- A terminal's buffer is a queue of at most 256 keys, and what leaves it goes to the screen.
use canalotus.Common.{
  ℕ, ◌-◌, ◌%◌, ◌^◌, ◌<◌, ◌≡◌, refl, ◌≢◌, inl, inr, ◌==◌, ltb, if◌then◌else◌, Bool-cases, ==_refl,
  ==_of_ne, ==→eq, ltb→lt, Option, some, List, [], ◌∷◌, ◌++◌, length, arith,
}
use canalotus.Common.{
  advance, contents, IsRing, contents-length, contents-put_one, contents-take_one, take_one-IsRing,
  put-IsRing,
}
use canalotus.Console.Bounds.{IsValid, Printed, out_char_lem}
use canalotus.Tty.{Tty, Terminals, tty_in_bytes, put_key, set_tty, tty_do_write}

abbrev pub IsBuffer : Tty → Type 0
IsBuffer t = IsRing tty_in_bytes t.p_inbuf_head t.p_inbuf_tail t.inbuf_count

abbrev pub keys : Tty → List ℕ
keys t = contents tty_in_bytes t.in_buf t.p_inbuf_tail t.inbuf_count

-- A terminal's buffer stays well formed, and is a queue bounded by 256: `put_key` appends the key's
-- 16 bits when fewer than 256 keys wait, and drops the key otherwise.
pub put_key_lem :
    (key : ℕ) (t : Tty)
    → IsBuffer t
    → IsBuffer (put_key key t)
      × (keys (put_key key t)
          ≡ (if ltb (length (keys t)) tty_in_bytes then keys t ++ key % 2 ^ 16 ∷ [] else keys t))
unfolding put_key
put_key_lem key t r =
    let len = contents-length tty_in_bytes t.in_buf t.p_inbuf_tail t.inbuf_count in
    elim (Bool-cases (ltb t.inbuf_count tty_in_bytes)) [
      | inl e ↦
          let h : t.inbuf_count < tty_in_bytes = ltb→lt t.inbuf_count tty_in_bytes e in
          rw (len, e)
            (
              put-IsRing tty_in_bytes t.p_inbuf_head t.p_inbuf_tail t.inbuf_count r h,
              contents-put_one tty_in_bytes t.in_buf t.p_inbuf_head t.p_inbuf_tail t.inbuf_count
                  (key % 2 ^ 16) r h,
            )
      | inr e ↦ rw (len, e) (r, refl)
    ]

-- What `tty_do_write` does for terminal `n` with the keys that wait.
abbrev pub Written : ℕ → List ℕ → Terminals → Option Terminals → Type 0
Written n [] s r = r ≡ some s
Written n (key ∷ later) s r =
    (s' : Terminals) × (r ≡ some s')
    × IsBuffer (s'.tty_table n)
    × (keys (s'.tty_table n) ≡ later)
    × Printed n (key % 256) s.display s'.display
    × ((m : ℕ) → m ≢ n → s'.tty_table m ≡ s.tty_table m)
    × (s'.keyboard ≡ s.keyboard)

-- With a well formed buffer and a valid console, `tty_do_write` ends: it prints the low byte of the
-- oldest key on the terminal's console and removes that key, leaves the other keys in their order,
-- the other terminals and the keyboard; with no key it changes nothing.
pub tty_do_write_lem :
    (n : ℕ) (s : Terminals)
    → IsBuffer (s.tty_table n)
    → IsValid n (s.display.console_table n)
    → Written n (keys (s.tty_table n)) s (tty_do_write n s)
unfolding tty_do_write
tty_do_write_lem n s r v =
    let t = s.tty_table n in
    elim (Bool-cases (t.inbuf_count == 0)) [
      | inl e ↦ rw (e, ==→eq t.inbuf_count 0 e) refl
      | inr e ↦
          let h : 0 < t.inbuf_count = ground (arith, e) in
          let (d, eq, w) = out_char_lem n (t.in_buf t.p_inbuf_tail % 256) s.display v in
          rw (e, eq, contents-take_one tty_in_bytes t.in_buf t.p_inbuf_tail t.inbuf_count h)
            (
              record (set_tty n
                  (λ t. record t {
                    p_inbuf_tail = advance tty_in_bytes t.p_inbuf_tail;
                    inbuf_count = t.inbuf_count - 1;
                  })
                  s) { display = d },
              refl,
              rw (==_refl n)
                  (take_one-IsRing tty_in_bytes t.p_inbuf_head t.p_inbuf_tail t.inbuf_count h r),
              rw (==_refl n) refl,
              w,
              λ m q. rw (==_of_ne m n q) refl,
              refl,
            )
    ]
