-- ===== src/Console/Bounds.antt =====
-- Each console keeps to its part of video memory, and shows its cursor.
use canalotus.Common.{
  ℕ, zero, suc, ◌+◌, ◌-◌, ◌*◌, ◌/◌, ◌%◌, ◌≤◌, ◌<◌, ◌≡◌, refl, ◌∙◌, ap, ◌≢◌, ◌⊎◌, inl, inr, true,
  leb, Bool-cases, ==_refl, ==_of_ne, update, some, arith,
}
use mathlib.Core.Option
use canalotus.Console.{
  Console, Display, u32, screen_width, screen_size, nr_consoles, set_cursor, set_video_start_addr,
  flush, set_console, Direction, up, down, scrolled, scroll_screen, advanced, drawn,
  scroll_to_cursor, out_char, init_screen,
}

-- The state of console `n`: its part of video memory, the cursor inside it, and a screen that
-- begins at a line of it and reaches less than a line beyond it.
pub record IsValid (n : ℕ) (c : Console) : Type 0 where
  pub in_table : n < nr_consoles
  pub original : c.original_addr ≡ n * 5461
  pub limit : c.vmem_limit ≡ 5461
  pub cursor_from : c.original_addr ≤ c.cursor
  pub cursor_below : c.cursor < c.original_addr + 5461
  pub start_from : c.original_addr ≤ c.current_start_addr
  pub lines : (c.current_start_addr - c.original_addr) % screen_width ≡ 0
  pub start_below : c.current_start_addr + screen_size < c.original_addr + 5461 + screen_width

-- Scrolling up or down keeps a console valid: the screen stays at a line of the console's part of
-- video memory and reaches less than a line beyond it, and the cursor stays inside it.
pub scrolled-IsValid :
    (n : ℕ) (d : Direction) (c : Console) → IsValid n c → IsValid n (scrolled d c)
unfolding scrolled
scrolled-IsValid n up c v = ground arith
scrolled-IsValid n down c v = ground arith

pub advanced-IsValid : (n ch : ℕ) (c : Console) → IsValid n c → IsValid n (advanced ch c)
unfolding advanced
advanced-IsValid n ch c v = ground arith

-- What a change of console `n` leaves as it was.
pub record Keeps (n : ℕ) (s t : Display) : Type 0 where
  pub others : (m : ℕ) → m ≢ n → t.console_table m ≡ s.console_table m
  pub current : t.nr_current_console ≡ s.nr_current_console

pub flush-table : (n : ℕ) (s : Display) → (flush n s).console_table ≡ s.console_table
unfolding flush set_cursor set_video_start_addr
flush-table n s = ground arith

flush-current : (n : ℕ) (s : Display) → (flush n s).nr_current_console ≡ s.nr_current_console
unfolding flush set_cursor set_video_start_addr
flush-current n s = ground arith

flush-vmem : (n : ℕ) (s : Display) → (flush n s).vmem ≡ s.vmem
unfolding flush set_cursor set_video_start_addr
flush-vmem n s = ground arith

pub scroll_screen-table :
    (n : ℕ) (d : Direction) (s : Display)
    → (scroll_screen n d s).console_table
      ≡ update s.console_table n (scrolled d (s.console_table n))
unfolding scroll_screen
scroll_screen-table n d s = flush-table n (set_console n (scrolled d) s)

-- What the loop of `out_char` reaches.
pub record Shown (n : ℕ) (s t : Display) : Type 0 where
  pub valid : IsValid n (t.console_table n)
  pub visible : (t.console_table n).cursor < (t.console_table n).current_start_addr + screen_size
  pub same_cursor : (t.console_table n).cursor ≡ (s.console_table n).cursor
  pub kept : Keeps n s t
  pub same_vmem : t.vmem ≡ s.vmem

scrolled_on :
    (n : ℕ) (s : Display)
    → IsValid n (s.console_table n)
    → IsValid n ((scroll_screen n down s).console_table n)
scrolled_on n s v =
    rw (scroll_screen-table n down s, ==_refl n) (scrolled-IsValid n down (s.console_table n) v)

scrolled_fuel :
    (fuel n : ℕ) (s : Display)
    → IsValid n (s.console_table n)
    → leb (u32 ((s.console_table n).current_start_addr + screen_size)) (s.console_table n).cursor
      ≡ true
    → n * 5461 + 5461 ≤ (s.console_table n).current_start_addr + suc fuel
    → n * 5461 + 5461 ≤ ((scroll_screen n down s).console_table n).current_start_addr + fuel
unfolding scrolled
scrolled_fuel fuel n s v e h =
    rw (scroll_screen-table n down s, ==_refl n)
      (ground (arith, v.original, v.limit, v.cursor_below, v.start_below, v.in_table))

scrolled-cursor : (d : Direction) (c : Console) → (scrolled d c).cursor ≡ c.cursor
unfolding scrolled
scrolled-cursor up c = ground arith
scrolled-cursor down c = ground arith

Shown-after_scroll :
    (n : ℕ) (s t : Display)
    → IsValid n (s.console_table n)
    → Shown n (scroll_screen n down s) t
    → Shown n s t
unfolding scroll_screen
Shown-after_scroll n s t v w = record {
  valid = w.valid;
  visible = w.visible;
  same_cursor =
      w.same_cursor
      ∙ rw (scroll_screen-table n down s, ==_refl n) (scrolled-cursor down (s.console_table n));
  kept = record {
    others = λ m h. w.kept.others m h ∙ rw (scroll_screen-table n down s, ==_of_ne m n h) refl;
    current = w.kept.current ∙ flush-current n (set_console n (scrolled down) s);
  };
  same_vmem = w.same_vmem ∙ flush-vmem n (set_console n (scrolled down) s);
}

scroll_to_cursor-Shown :
    (fuel n : ℕ) (s : Display)
    → IsValid n (s.console_table n)
    → n * 5461 + 5461 ≤ (s.console_table n).current_start_addr + fuel
    → (t : Display) × (scroll_to_cursor fuel n s ≡ some t) × Shown n s t
unfolding scroll_to_cursor
scroll_to_cursor-Shown zero n s v h =
    absurd (omega (arith, v.original, v.cursor_below, v.start_below))
scroll_to_cursor-Shown (suc fuel) n s v h =
    elim (Bool-cases (
      leb (u32 ((s.console_table n).current_start_addr + screen_size))
        (s.console_table n).cursor)) [
          | inl e ↦
              rw (scroll_to_cursor, e)
                (let (t, e', w) =
                    scroll_to_cursor-Shown fuel n (scroll_screen n down s) (scrolled_on n s v)
                      (scrolled_fuel fuel n s v e h) in
                  (t, e', Shown-after_scroll n s t v w))
          | inr e ↦
              rw (scroll_to_cursor, e)
                (
                  s,
                  refl,
                  record {
                    valid = v;
                    visible = ground (arith, v.original, v.cursor_below, v.start_below, v.in_table);
                    same_cursor = refl;
                    kept = record { others = λ m h'. refl; current = refl };
                    same_vmem = refl;
                  },
                )
        ]

drawn-outside :
    (n ch : ℕ) (c : Console) (vmem : ℕ → ℕ) (a : ℕ)
    → IsValid n c
    → (a < 2 * c.original_addr) ⊎ (2 * (c.original_addr + 5461) ≤ a)
    → drawn ch c vmem a ≡ vmem a
unfolding drawn
drawn-outside n ch c vmem a v (inl h) = ground (arith, v.cursor_from)
drawn-outside n ch c vmem a v (inr h) = ground (arith, v.cursor_below)

-- What `out_char` does to console `n`.
pub record Printed (n ch : ℕ) (s t : Display) : Type 0 where
  pub valid : IsValid n (t.console_table n)
  pub visible : (t.console_table n).cursor < (t.console_table n).current_start_addr + screen_size
  pub cursor : (t.console_table n).cursor ≡ (advanced ch (s.console_table n)).cursor
  pub kept : Keeps n s t
  pub text : t.vmem ≡ drawn ch (s.console_table n) s.vmem
  pub outside :
      (a : ℕ)
      → (a < 2 * (s.console_table n).original_addr)
        ⊎ (2 * ((s.console_table n).original_addr + 5461) ≤ a)
      → t.vmem a ≡ s.vmem a

-- On console `n`, valid before, `out_char` ends: its loop scrolls often enough. The console is valid
-- again, the cursor is the one that `advanced` gives and is on the visible screen, the other
-- consoles and the choice of the current one are as before, and video memory holds what `drawn`
-- gives, which is what it held outside the console's part.
pub out_char_lem :
    (n ch : ℕ) (s : Display)
    → IsValid n (s.console_table n)
    → (t : Display) × (out_char n ch s ≡ some t) × Printed n ch s t
unfolding out_char
out_char_lem n ch s v =
    let con = s.console_table n in
    let s1 : Display = record (set_console n (advanced ch) s) { vmem = drawn ch con s.vmem } in
    let at_n : s1.console_table n ≡ advanced ch con = rw (==_refl n) refl in
    let v1 : IsValid n (s1.console_table n) = rw at_n (advanced-IsValid n ch con v) in
    let (t, e, w) =
      scroll_to_cursor-Shown (suc con.vmem_limit) n s1 v1
        (omega (arith, v1.start_from, v1.original, v.limit)) in
    (
      flush n t,
      ap (Option.map (flush n)) e,
      record {
        valid = rw (flush-table n t) w.valid;
        visible = rw (flush-table n t) w.visible;
        cursor = rw (flush-table n t) (w.same_cursor ∙ ap (λ c. c.cursor) at_n);
        kept = record {
          others = λ m h. rw (flush-table n t) (w.kept.others m h ∙ rw (==_of_ne m n h) refl);
          current = flush-current n t ∙ w.kept.current;
        };
        text = flush-vmem n t ∙ w.same_vmem;
        outside = λ a h. rw (flush-vmem n t, w.same_vmem) (drawn-outside n ch con s.vmem a v h);
      },
    )

-- For a terminal of the table whose kernel output, if it is the first, stopped inside its part of
-- video memory, `init_screen` makes its console valid.
pub init_screen-IsValid :
    (n : ℕ) (s : Display)
    → n < nr_consoles
    → (n ≡ 0 → s.disp_pos / 2 < 5461)
    → IsValid n ((init_screen n s).console_table n)
unfolding init_screen set_cursor
init_screen-IsValid n s h h0 = rw (==_refl n) (ground (arith, h, h0))
