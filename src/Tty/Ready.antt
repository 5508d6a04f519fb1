-- ===== src/Tty/Ready.antt =====
-- The terminals stay well formed through everything that `sys_tty` does with them.
use canalotus.Common.{
  ℕ, ◌-◌, ◌<◌, ◌≡◌, refl, inl, inr, Bool, true, false, not, ◌&&◌, ◌||◌, ◌==◌, leb, if◌then◌else◌,
  Bool-cases, eq_cases, ==_refl, ==_of_ne, Option, some, List, [], ◌∷◌, bit_and,
}
use canalotus.Console.{Display, Direction, up, down, nr_consoles, scroll_screen, select_console}
use canalotus.Console.Bounds
use canalotus.Console.Bounds.{
  scrolled-IsValid, scroll_screen-table, flush-table, init_screen-IsValid,
}
use canalotus.Keyboard.{has_bits}
use canalotus.Keyboard.Keys.{
  flag_ext, flag_lshift, flag_rshift, flag_lalt, flag_ralt, mask_raw, up_key, down_key, f1, f12,
  enter, backspace,
}
use canalotus.Tty.{Terminals, put_key, set_tty, set_display, in_process, tty_do_write}
use canalotus.Tty.Buffer.{IsBuffer, keys, Written, put_key_lem, tty_do_write_lem}

-- Every terminal of the table has a well formed buffer and a valid console.
pub record AreReady (s : Terminals) : Type 0 where
  pub buffers : (m : ℕ) → m < nr_consoles → IsBuffer (s.tty_table m)
  pub consoles : (m : ℕ) → m < nr_consoles → Bounds.IsValid m (s.display.console_table m)

put_key-AreReady :
    (n key : ℕ) (s : Terminals)
    → n < nr_consoles
    → AreReady s
    → AreReady (set_tty n (put_key key) s)
put_key-AreReady n key s h r = record {
  buffers = λ m a. elim (eq_cases m n) [
    | inl e ↦ rw (e, ==_refl n) (put_key_lem key (s.tty_table n) (r.buffers n h)).0
    | inr e ↦ rw (==_of_ne m n e) (r.buffers m a)
  ];
  consoles = r.consoles;
}

scroll_screen-AreReady :
    (n : ℕ) (d : Direction) (s : Terminals)
    → n < nr_consoles
    → AreReady s
    → AreReady (set_display (scroll_screen n d) s)
scroll_screen-AreReady n d s h r = record {
  buffers = r.buffers;
  consoles = λ m a. rw (scroll_screen-table n d s.display) (elim (eq_cases m n) [
    | inl e ↦ rw (e, ==_refl n) (scrolled-IsValid n d (s.display.console_table n) (r.consoles n h))
    | inr e ↦ rw (==_of_ne m n e) (r.consoles m a)
  ]);
}

select_console-table : (n : ℕ) (s : Display) → (select_console n s).console_table ≡ s.console_table
unfolding select_console
select_console-table n s = elim (Bool-cases (leb nr_consoles n)) [
  | inl e ↦ rw e refl
  | inr e ↦ rw e (flush-table n (record s { nr_current_console = n }))
]

pub select_console-AreReady :
    (n : ℕ) (s : Terminals) → AreReady s → AreReady (set_display (select_console n) s)
select_console-AreReady n s r = record {
  buffers = r.buffers;
  consoles = λ m a. rw (select_console-table n s.display) (r.consoles m a);
}

either-AreReady :
    (b : Bool) (x y : Terminals) → AreReady x → AreReady y → AreReady (if b then x else y)
either-AreReady true x y p q = p
either-AreReady false x y p q = q

-- Whatever key a terminal of the table gets, the buffers of all terminals stay well formed and
-- their consoles valid.
pub in_process-AreReady :
    (n key : ℕ) (s : Terminals) → n < nr_consoles → AreReady s → AreReady (in_process n key s)
unfolding in_process
in_process-AreReady n key s h r =
    let raw = bit_and key mask_raw in
    let shift = has_bits key flag_lshift || has_bits key flag_rshift in
    let alt = has_bits key flag_lalt || has_bits key flag_ralt in
    let select = select_console-AreReady (raw - f1) s r in
    let on_up = either-AreReady shift _ _ (scroll_screen-AreReady n up s h r) r in
    let on_down = either-AreReady shift _ _ (scroll_screen-AreReady n down s h r) r in
    let on_f = either-AreReady alt _ _ select r in
    let on_enter = put_key-AreReady n 10 s h r in
    let on_backspace = put_key-AreReady n 8 s h r in
    either-AreReady (not (has_bits key flag_ext)) _ _ (put_key-AreReady n key s h r) (
      either-AreReady (raw == up_key) _ _ on_up (
        either-AreReady (raw == down_key) _ _ on_down (
          either-AreReady (leb f1 raw && leb raw f12) _ _ on_f (
            either-AreReady (raw == enter) _ _ on_enter
              (either-AreReady (raw == backspace) _ _ on_backspace r)))))

Written-AreReady :
    (n : ℕ) (ks : List ℕ) (s : Terminals) (o : Option Terminals)
    → AreReady s
    → Written n ks s o
    → (t : Terminals) × (o ≡ some t) × AreReady t
Written-AreReady n [] s o r w = (s, w, r)
Written-AreReady n (k ∷ ks) s o r (t, e, b, later, p, others, kbd) = (
  t,
  e,
  record {
    buffers =
        λ m a. elim (eq_cases m n) [ inl q ↦ rw q b | inr q ↦ rw (others m q) (r.buffers m a) ];
    consoles = λ m a. elim (eq_cases m n) [
      | inl q ↦ rw q p.valid
      | inr q ↦ rw (p.kept.others m q) (r.consoles m a)
    ];
  },
)

-- For a terminal of the table, `tty_do_write` ends and leaves the buffers of all terminals well
-- formed and their consoles valid.
pub tty_do_write-AreReady :
    (n : ℕ) (s : Terminals)
    → n < nr_consoles
    → AreReady s
    → (t : Terminals) × (tty_do_write n s ≡ some t) × AreReady t
tty_do_write-AreReady n s h r =
    Written-AreReady n (keys (s.tty_table n)) s (tty_do_write n s) r
      (tty_do_write_lem n s (r.buffers n h) (r.consoles n h))
