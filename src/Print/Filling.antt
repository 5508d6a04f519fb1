-- ===== src/Print/Filling.antt =====
-- The screen of a panic: `syscall_printx` on a text that is to halt the processor.
use canalotus.Common.{
  Bool, leb, ◌||◌, ℕ, zero, suc, ◌+◌, ◌-◌, ◌*◌, ◌%◌, ◌≤◌, ◌<◌, ◌≡◌, refl, sym, ◌∙◌, ◌≢◌, ◌⊎◌, inl,
  inr, true, false, ltb, ◌==◌, Bool-cases, eq_cases, update, ltb→lt, ==_refl, some, arith,
}
use canalotus.State.{Kernel}
use canalotus.Console.{Display, vmem_size}
use canalotus.Print.{
  Bytes, vmem_base, red, blank_color, at_line_start, skip_line, fill_screen, is_fatal, text_of,
  syscall_printx, overwrites, kernel_begin,
}

-- the first address that the screen of a panic leaves alone
abbrev pub screen_limit : ℕ
screen_limit = kernel_begin

-- Memory below `v0` and above the screen is as it was, and the bytes at odd addresses from `v0` up to `v`
-- hold colours.
pub record Filled (v0 v : ℕ) (m m' : Bytes) : Type 0 where
  pub from : v0 ≤ v
  pub even : v % 2 ≡ 0
  pub below : v ≤ screen_limit
  pub outside : (x : ℕ) → (x < v0) ⊎ (screen_limit ≤ x) → m' x ≡ m x
  pub colours : (x : ℕ) → v0 ≤ x → x < v → x % 2 ≡ 1 → (m' x ≡ red) ⊎ (m' x ≡ blank_color)

-- two bytes more
Filled-more :
    (v0 v ch colour : ℕ) (m m' : Bytes)
    → Filled v0 v m m'
    → v + 2 ≤ screen_limit
    → (colour ≡ red) ⊎ (colour ≡ blank_color)
    → Filled v0 (v + 2) m (update (update m' v ch) (v + 1) colour)
Filled-more v0 v ch colour m m' f h c = record {
  from = omega (arith, f.from);
  even = omega (arith, f.even);
  below = h;
  outside = λ x o. ground (arith, f.outside x o, f.from, h, o);
  colours = λ x a b odd. elim (eq_cases x (v + 1)) [
    | inl e ↦ rw (e, ==_refl (v + 1)) c
    | inr e ↦ ground (arith, f.colours x a, f.even, e, odd, b)
  ];
}

Filled-blank :
    (v0 v : ℕ) (m m' : Bytes)
    → Filled v0 v m m'
    → v + 2 ≤ screen_limit
    → Filled v0 (v + 2) m (update m' (v + 1) blank_color)
Filled-blank v0 v m m' f h = record {
  from = omega (arith, f.from);
  even = omega (arith, f.even);
  below = h;
  outside = λ x o. ground (arith, f.outside x o, f.from, h, o);
  colours = λ x a b odd. elim (eq_cases x (v + 1)) [
    | inl e ↦ rw (e, ==_refl (v + 1)) (inr refl)
    | inr e ↦ ground (arith, f.colours x a, f.even, e, odd, b)
  ];
}

line_start : (v : ℕ) → at_line_start v ≡ (v % 1280 == 1024)
line_start v = elim (Bool-cases (ltb v vmem_base)) [
  | inl e ↦ rw e (ground (arith, ltb→lt v vmem_base e))
  | inr e ↦ rw e (ground (arith, e))
]

-- the bytes up to the next line
abbrev gap : ℕ → ℕ
gap v = (2304 - v % 1280) % 1280

both_false : (a b : Bool) → (a || b) ≡ false → (a ≡ false) × (b ≡ false)
both_false true b e = absurd (ground (arith, e))
both_false false b e = (refl, e)

skip_line-ok :
    (fuel v0 v : ℕ) (m m' : Bytes)
    → Filled v0 v m m'
    → gap v < 2 * fuel
    → (v' : ℕ) × (m'' : Bytes) × (skip_line fuel v m' ≡ some (v', m''))
      × Filled v0 v' m m''
      × (v ≤ v')
unfolding skip_line
skip_line-ok zero v0 v m m' f h = absurd (omega arith)
skip_line-ok (suc fuel) v0 v m m' f h = elim (Bool-cases (at_line_start v || leb kernel_begin v)) [
  | inl e ↦ (v, m', rw e refl, f, omega arith)
  | inr e ↦
      let (line, low) = both_false (at_line_start v) (leb kernel_begin v) e in
      let off : (v % 1280 == 1024) ≡ false = sym (line_start v) ∙ line in
      let before : v < kernel_begin = ground (arith, low) in
      let far : v % 1280 ≢ 1024 = λ z. absurd (ground (arith, z, off)) in
      let (v', m'', run, f', le) =
        skip_line-ok fuel v0 (v + 2) m (update m' (v + 1) blank_color)
          (Filled-blank v0 v m m' f (omega (arith, f.even, before)))
          (omega (arith, f.even, far, h)) in
      (v', m'', rw e run, f', omega arith)
]

-- What memory is when the loop comes to the kernel.
abbrev Screen : ℕ → Bytes → Bytes → Type 0
Screen v0 m m' = (v : ℕ) × (kernel_begin ≤ v) × Filled v0 v m m'

fill_screen-ok :
    (fuel p v0 v q : ℕ) (m m' : Bytes)
    → Filled v0 v m m'
    → kernel_begin ≤ v + 2 * fuel
    → (m'' : Bytes) × (fill_screen (suc fuel) p v q m' ≡ overwrites m'') × Screen v0 m m''
unfolding fill_screen
fill_screen-ok zero p v0 v q m m' f h =
    let inside : ltb v (vmem_base + vmem_size) ≡ true = ground (arith, f.below) in
    let there : leb kernel_begin v ≡ true = ground (arith, h) in
    (m', rw inside (rw there refl), (v, omega (arith, h), f))
fill_screen-ok (suc fuel) p v0 v q m m' f h =
    let inside : ltb v (vmem_base + vmem_size) ≡ true = ground (arith, f.below) in
    elim (Bool-cases (leb kernel_begin v)) [
      | inl e ↦ (m', rw inside (rw e refl), (v, ground (arith, e), f))
      | inr e ↦
          let before : v < kernel_begin = ground (arith, e) in
          let more =
            Filled-more v0 v (m' q) red m m' f (omega (arith, before, f.even)) (inl refl) in
          let m1 : Bytes = update (update m' v (m' q)) (v + 1) red in
          elim (Bool-cases (m1 (q + 1) == 0)) [
            | inr some_ ↦
                let (m'', run, s) =
                  fill_screen-ok fuel p v0 (v + 2) (q + 1) m m1 more (omega arith) in
                (m'', rw inside (rw e (rw some_ run)), s)
            | inl end ↦
                let (v', m2, skip, f', le) = skip_line-ok 1280 v0 (v + 2) m m1 more (omega arith) in
                let (m'', run, s) = fill_screen-ok fuel p v0 v' (p + 1) m m2 f' (omega arith) in
                (m'', rw inside (rw e (rw end (rw skip run))), s)
          ]
    ]

-- the rounds of the outer loop
abbrev pub screen_rounds : ℕ
screen_rounds = 0x14200

-- A text whose first character is the mark of a panic, or the mark of a failed assertion while a
-- system process runs, does not come to halt the processor: the loops that fill the screen start at
-- the address 0x8000, which is the size of video memory and not its base, and come to the kernel's own
-- code, 0x30400, whatever the text and the memory are. Then every byte at an odd address between the
-- two holds a colour, and what is below or above is as it was.
pub syscall_printx_overwrites :
    (fuel : ℕ) (s p_proc err p : ℕ) (k : Kernel) (m m' : Bytes) (d : Display)
    → text_of s p_proc err k m ≡ some (p, m')
    → is_fatal k (m' p) ≡ true
    → screen_rounds ≤ fuel
    → (m'' : Bytes) × (syscall_printx (suc fuel) s p_proc err k m d ≡ overwrites m'')
      × ((x : ℕ) → (x < vmem_size) ⊎ (screen_limit ≤ x) → m'' x ≡ m' x)
      × ((x : ℕ)
          → vmem_size ≤ x
          → x < kernel_begin
          → x % 2 ≡ 1
          → (m'' x ≡ red) ⊎ (m'' x ≡ blank_color))
unfolding syscall_printx
syscall_printx_overwrites fuel s p_proc err p k m m' d at fatal enough =
    let start : Filled vmem_size vmem_size m' m' = record {
      from = omega arith;
      even = omega arith;
      below = omega arith;
      outside = λ x o. refl;
      colours = λ x a b odd. absurd (omega (arith, a, b));
    } in
    let (m'', run, (v, end, f)) =
      fill_screen-ok fuel p vmem_size vmem_size (p + 1) m' m' start (omega arith) in
    (
      m'',
      rw (at, syscall_printx) (rw fatal run),
      f.outside,
      λ x a b odd. f.colours x a (omega arith) odd,
    )
