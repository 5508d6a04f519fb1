-- ===== src/Tty/Start.antt =====
-- What `sys_tty` sets up before its loop.
use canalotus.Common.{
  ℕ, suc, ◌/◌, ◌<◌, ◌≡◌, refl, ◌≢◌, inl, inr, eq_cases, ==_refl, ==_of_ne, [], arith,
}
use canalotus.Console.{Display, nr_consoles, set_cursor, init_screen}
use canalotus.Console.Bounds
use canalotus.Console.Bounds.{init_screen-IsValid}
use canalotus.Keyboard.{init_keyboard}
use canalotus.Keyboard.Buffer
use canalotus.Keyboard.Buffer.{queue, init_keyboard-IsBuffer}
use canalotus.Tty.{Terminals, init_tty, start_terminals}
use canalotus.Tty.Buffer.{IsBuffer}
use canalotus.Tty.Ready.{AreReady, select_console-AreReady}

init_screen-other :
    (n m : ℕ) (s : Display) → m ≢ n → (init_screen n s).console_table m ≡ s.console_table m
unfolding init_screen set_cursor
init_screen-other n m s h = rw (==_of_ne m n h) refl

-- The terminals below `k` are ready.
record ReadyBelow (k : ℕ) (s : Terminals) : Type 0 where
  buffers : (m : ℕ) → m < k → IsBuffer (s.tty_table m)
  consoles : (m : ℕ) → m < k → Bounds.IsValid m (s.display.console_table m)

init_tty-ReadyBelow :
    (n : ℕ) (s : Terminals)
    → n < nr_consoles
    → (n ≡ 0 → s.display.disp_pos / 2 < 5461)
    → ReadyBelow n s
    → ReadyBelow (suc n) (init_tty n s)
unfolding init_tty
init_tty-ReadyBelow n s h h0 r = record {
  buffers = λ m a. elim (eq_cases m n) [
    | inl e ↦
        rw (e, ==_refl n)
          (record {
            head_below = omega arith;
            tail_below = omega arith;
            count_le = omega arith;
            distance = inl refl;
          })
    | inr e ↦ rw (==_of_ne m n e) (r.buffers m (omega (arith, a, e)))
  ];
  consoles = λ m a. elim (eq_cases m n) [
    | inl e ↦ rw e (init_screen-IsValid n s.display h h0)
    | inr e ↦ rw (init_screen-other n m s.display e) (r.consoles m (omega (arith, a, e)))
  ];
}

-- Where the kernel's own output stopped inside the first third of video memory, `sys_tty` enters its
-- loop with well formed buffers and valid consoles for all terminals, and with an empty, well formed
-- buffer of scan codes.
pub start_terminals-AreReady :
    (s : Terminals)
    → s.display.disp_pos / 2 < 5461
    → AreReady (start_terminals s)
      × Buffer.IsBuffer (start_terminals s).keyboard
      × (queue (start_terminals s).keyboard ≡ [])
unfolding start_terminals
start_terminals-AreReady s h =
    let s0 : Terminals = record s { keyboard = init_keyboard s.keyboard } in
    let s1 = init_tty 0 s0 in
    let s2 = init_tty 1 s1 in
    let r0 : ReadyBelow 0 s0 = record {
      buffers = λ m a. absurd (omega (arith, a));
      consoles = λ m a. absurd (omega (arith, a));
    } in
    let r1 = init_tty-ReadyBelow 0 s0 (omega arith) (λ _. h) r0 in
    let r2 = init_tty-ReadyBelow 1 s1 (omega arith) (λ e. absurd (omega (arith, e))) r1 in
    let r3 = init_tty-ReadyBelow 2 s2 (omega arith) (λ e. absurd (omega (arith, e))) r2 in
    let ready : AreReady (init_tty 2 s2) = record {
      buffers = r3.buffers;
      consoles = r3.consoles;
    } in
    let quiet = init_keyboard-IsBuffer s.keyboard in
    (select_console-AreReady 0 (init_tty 2 s2) ready, quiet.0, quiet.1)
