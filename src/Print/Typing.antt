-- ===== src/Print/Typing.antt =====
-- `syscall_printx` on a text that does not halt the processor: what is then on the console.
use mathlib.Core.Path.{subst}
use canalotus.Common.{
  ℕ, zero, suc, ◌+◌, ◌*◌, ◌≤◌, ◌<◌, ◌≡◌, refl, ap, ◌∙◌, ◌≢◌, ◌⊎◌, inl, inr, Bool, false, ◌||◌, ◌==◌,
  Bool-cases, Option-cases, if◌then◌else◌, ==_of_ne, update, Option, none, some, List, [], ◌∷◌,
  length, arith,
}
use canalotus.State.{Kernel}
use canalotus.Console.{Display, Console, out_char, advanced, drawn, default_char_color}
use canalotus.Console.Bounds
use canalotus.Console.Bounds.{Keeps, out_char_lem}
use canalotus.Print.{
  Bytes, mag_ch_panic, mag_ch_assert, print_loop, is_fatal, text_of, syscall_printx, returned,
}

-- A text stands at an address, with its final 0.
abbrev pub Holds : Bytes → ℕ → List ℕ → Type 0
Holds m p [] = m p ≡ 0
Holds m p (c ∷ cs) = (m p ≡ c) × (c ≢ 0) × Holds m (p + 1) cs

abbrev is_mark : ℕ → Bool
is_mark c = (c == mag_ch_panic) || (c == mag_ch_assert)

-- the text without the two marks
abbrev pub visible : List ℕ → List ℕ
visible [] = []
visible (c ∷ cs) = let rest = visible cs in if is_mark c then rest else c ∷ rest

-- neither a new line nor a backspace
abbrev pub IsPlain : List ℕ → Type 0
IsPlain [] = Unit
IsPlain (c ∷ cs) = (c ≢ 10) × (c ≢ 8) × IsPlain cs

-- The characters of a text in video memory, from a position on.
abbrev pub Shows : (ℕ → ℕ) → ℕ → List ℕ → Type 0
Shows vmem at [] = Unit
Shows vmem at (c ∷ cs) = (vmem (2 * at) ≡ c) × Shows vmem (at + 1) cs

-- The characters of a text typed on console `n`, one after another.
abbrev pub typed : ℕ → List ℕ → Display → Option Display
typed n [] s = some s
typed n (c ∷ cs) s = elim (out_char n c s) [ none ↦ none | some t ↦ typed n cs t ]

-- What typing on console `n` leaves.
pub record Typed (n : ℕ) (s t : Display) : Type 0 where
  pub valid : Bounds.IsValid n (t.console_table n)
  pub kept : Keeps n s t
  pub outside : (a : ℕ) → (a < 2 * (n * 5461)) ⊎ (2 * (n * 5461 + 5461) ≤ a) → t.vmem a ≡ s.vmem a

-- With room for it, a plain text is on the screen from the cursor on, and the cursor behind it.
abbrev pub IsShown : ℕ → List ℕ → Display → Display → Type 0
IsShown n text s t =
    IsPlain text
    → (s.console_table n).cursor + length text < n * 5461 + 5461
    → Shows t.vmem (s.console_table n).cursor text
      × ((t.console_table n).cursor ≡ (s.console_table n).cursor + length text)
      × ((a : ℕ) → a < 2 * (s.console_table n).cursor → t.vmem a ≡ s.vmem a)

next_cursor :
    (n ch : ℕ) (c : Console)
    → Bounds.IsValid n c
    → ch ≢ 10
    → ch ≢ 8
    → c.cursor + 1 < n * 5461 + 5461
    → (advanced ch c).cursor ≡ c.cursor + 1
unfolding advanced
next_cursor n ch c v a b room = ground (arith, v.original, v.limit, v.in_table)

drawn_there :
    (n ch : ℕ) (c : Console) (vmem : ℕ → ℕ)
    → Bounds.IsValid n c
    → ch ≢ 10
    → ch ≢ 8
    → c.cursor + 1 < n * 5461 + 5461
    → drawn ch c vmem ≡ update (update vmem (c.cursor * 2) ch) (c.cursor * 2 + 1) default_char_color
unfolding drawn
drawn_there n ch c vmem v a b room = ground (arith, v.original, v.limit, v.in_table)

module _ (n c : ℕ) (cs : List ℕ) (s t1 t : Display) (v : Bounds.IsValid n (s.console_table n))
    (p : Bounds.Printed n c s t1) (shown : IsShown n cs t1 t) where
  -- one character in front of what is shown
  IsShown-cons : IsShown n (c ∷ cs) s t
  IsShown-cons plain room =
      let at : ℕ = (s.console_table n).cursor in
      let cur : (t1.console_table n).cursor ≡ at + 1 =
        p.cursor ∙ next_cursor n c (s.console_table n) v plain.0 plain.1 (omega (arith, room)) in
      let drawn_ : t1.vmem ≡ update (update s.vmem (at * 2) c) (at * 2 + 1) default_char_color =
        p.text
        ∙ drawn_there n c (s.console_table n) s.vmem v plain.0 plain.1 (omega (arith, room)) in
      let (later, moved, frame) = shown plain.2 (omega (arith, cur, room)) in
      (
        (
          frame (2 * at) (omega (arith, cur)) ∙ ap (λ f. f (2 * at)) drawn_ ∙ ground arith,
          subst (λ x. Shows t.vmem x cs) cur later,
        ),
        omega (arith, moved, cur),
        λ a h. frame a (omega (arith, cur, h)) ∙ ap (λ f. f a) drawn_ ∙ ground (arith, h),
      )

typed-Typed :
    (n : ℕ) (text : List ℕ) (s : Display)
    → Bounds.IsValid n (s.console_table n)
    → (t : Display) × (typed n text s ≡ some t) × Typed n s t × IsShown n text s t
typed-Typed n [] s v = (
  s,
  refl,
  record {
    valid = v;
    kept = record { others = λ m h. refl; current = refl };
    outside = λ a h. refl;
  },
  λ plain room. (tt, omega arith, λ a h. refl),
)
typed-Typed n (c ∷ cs) s v =
    let (t1, e, p) = out_char_lem n c s v in
    let (t, e', ty, shown) = typed-Typed n cs t1 p.valid in
    (
      t,
      rw (e, typed) e',
      record {
        valid = ty.valid;
        kept = record {
          others = λ m h. ty.kept.others m h ∙ p.kept.others m h;
          current = ty.kept.current ∙ p.kept.current;
        };
        outside = λ a h. ty.outside a h ∙ p.outside a (rw v.original h);
      },
      IsShown-cons n c cs s t1 t v p shown,
    )

print_loop-typed :
    (fuel : ℕ) (m : Bytes) (p n : ℕ) (text : List ℕ) (s : Display)
    → Holds m p text
    → length text < fuel
    → print_loop fuel m p n s ≡ typed n (visible text) s
unfolding print_loop
print_loop-typed zero m p n text s h l = absurd (omega (arith, l))
print_loop-typed (suc fuel) m p n [] s h l = rw h refl
print_loop-typed (suc fuel) m p n (c ∷ cs) s h l =
    let ih = λ (t : Display). print_loop-typed fuel m (p + 1) n cs t h.2 (omega (arith, l)) in
    rw (h.0, ==_of_ne c 0 h.1)
      (elim (Bool-cases (is_mark c)) [
        | inl e ↦ rw e (ih s)
        | inr e ↦ rw e (elim (Option-cases (out_char n c s)) [
          | inl stuck ↦ rw (stuck, typed) refl
          | inr (t, done) ↦ rw (done, typed) (ih t)
        ])
      ])

-- A text that does not halt the processor, with its final 0 in memory, is typed on the console of the
-- calling process: the loop ends, and `printx` returns with the characters typed one after another
-- but for the two marks. That console, valid before, is valid again; the other consoles, the choice
-- of the current one, and video memory outside the console's part are as before. A plain text with
-- room for it stands in video memory from the old cursor on, the new cursor is behind it, and
-- nothing before the old cursor has changed.
pub syscall_printx_types :
    (fuel : ℕ) (s p_proc err p : ℕ) (text : List ℕ) (k : Kernel) (m m' : Bytes) (d : Display)
    → text_of s p_proc err k m ≡ some (p, m')
    → is_fatal k (m' p) ≡ false
    → Holds m' p text
    → length text < fuel
    → let n = (k.proc_table p_proc).nr_tty in
      Bounds.IsValid n (d.console_table n)
      → (d' : Display) × (syscall_printx fuel s p_proc err k m d ≡ returned d')
        × (typed n (visible text) d ≡ some d')
        × Typed n d d'
        × IsShown n (visible text) d d'
unfolding syscall_printx
syscall_printx_types fuel s p_proc err p text k m m' d at fine holds enough v =
    let n = (k.proc_table p_proc).nr_tty in
    let (d', e, ty, shown) = typed-Typed n (visible text) d v in
    let run = print_loop-typed fuel m' p n text d holds enough ∙ e in
    (d', rw (at, syscall_printx) (rw fine (rw run refl)), e, ty, shown)
