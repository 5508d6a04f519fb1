-- ===== src/Print/Panic.antt =====
-- `panic`, and `printf` of a text that begins with a mark: they come to write over the kernel.
use mathlib.Core.Option
use canalotus.Common.{
  ℕ, suc, ◌+◌, ◌-◌, ◌%◌, ◌^◌, ◌≤◌, ◌<◌, ◌≡◌, refl, ap, ◌∙◌, ◌⊎◌, inl, true, false, ◌==◌, ==_refl,
  lt→ltb, update, some, Bool-cases, inr, ltb, List, [], ◌∷◌, ◌++◌, length, length-append, arith,
}
use canalotus.State.{Kernel, nr_sysu_procs}
use canalotus.Ipc.{ldt_seg_linear, index_ldt_rw}
use canalotus.Ipc.Send.HandOver.{va2la-ok}
use canalotus.Console.{Display}
use canalotus.Format.{vsprintf, format, field, convert, padding}
use canalotus.Print.{
  Bytes, mag_ch_panic, mag_ch_assert, is_fatal, text_of, put_text, overwrites, buf_size,
  syscall_printx, printf, panic, codes,
}
use canalotus.Print.Filling.{screen_rounds, syscall_printx_overwrites}

put_text-below : (cs : List ℕ) (a x : ℕ) (m : Bytes) → x < a → put_text cs a m x ≡ m x
unfolding put_text
put_text-below [] a x m h = ground (arith, h)
put_text-below (c ∷ cs) a x m h =
    put_text-below cs (a + 1) x (update m a c) (omega (arith, h)) ∙ ground (arith, h)

put_text-first : (c : ℕ) (cs : List ℕ) (a : ℕ) (m : Bytes) → put_text (c ∷ cs) a m a ≡ c
unfolding put_text
put_text-first c cs a m =
    put_text-below cs (a + 1) a (update m a c) (omega arith) ∙ rw (==_refl a) refl

-- A conversion of one character at the front of a format.
vsprintf-char :
    (string_at : ℕ → List ℕ) (w : ℕ) (fmt args : List ℕ)
    → 0 < w
    → w < 256
    → vsprintf string_at (b'%' ∷ b'c' ∷ fmt) (w ∷ args)
      ≡ Option.map (λ out. w ∷ out) (vsprintf string_at fmt args)
unfolding vsprintf format field convert padding
vsprintf-char string_at w fmt args some_ small =
    let same : w % 256 ≡ w = omega (arith, small) in
    let some_char : (w == 0) ≡ false = ground (arith, some_) in rw same (rw some_char refl)

module _ (fuel : ℕ) (buf err c : ℕ) (cs : List ℕ) (k : Kernel) (m : Bytes) (d : Display)
    (flat : ldt_seg_linear (k.proc_table k.p_proc_ready) index_ldt_rw ≡ 0) (small : buf < 2 ^ 32)
    (fatal : is_fatal k c ≡ true) where
  -- The text that is read begins with a mark.
  marked :
      (p : ℕ) × (m' : Bytes) × (text_of buf k.p_proc_ready err k (put_text (c ∷ cs) buf m)
        ≡ some (p, m'))
      × (is_fatal k (m' p) ≡ true)
  unfolding text_of
  marked =
      let there : is_fatal k (put_text (c ∷ cs) buf m buf) ≡ true =
        rw (put_text-first c cs buf m) fatal in
      elim (Bool-cases (k.k_reenter == 0)) [
        | inl e ↦ (
          buf,
          put_text (c ∷ cs) buf m,
          rw (e, text_of) (rw (va2la-ok k.p_proc_ready buf k flat small) refl),
          there,
        )
        | inr e ↦
            let inside : ltb 0 k.k_reenter ≡ true = ground (arith, e) in
            (buf, put_text (c ∷ cs) buf m, rw (e, text_of) (rw inside refl), there)
      ]

  marked_overwrites :
      screen_rounds ≤ fuel
      → (m' : Bytes) × (syscall_printx
            (suc fuel)
            buf
            k.p_proc_ready
            err
            k
            (put_text (c ∷ cs) buf m)
            d
          ≡ overwrites m')
  marked_overwrites enough =
      let (p, m1, at, begins) = marked in
      let (m', run, _, _) =
        syscall_printx_overwrites fuel buf k.p_proc_ready err p k (put_text (c ∷ cs) buf m) m1 d at
          begins enough in
      (m', run)

-- Of a format that begins with a character's conversion, and a mark as its first argument, `printf`
-- prints a text that comes to write over the kernel: the mark of a panic always does, that of a failed
-- assertion while a system process runs. The format and its arguments
-- are such that `vsprintf` ends with a text that fits, the running process's data segment starts at 0, and the buffer's
-- address has 32 bits.
pub printf_overwrites :
    (fuel : ℕ) (buf err w : ℕ) (string_at : ℕ → List ℕ) (fmt args out : List ℕ) (k : Kernel)
    (m : Bytes) (d : Display)
    → vsprintf string_at fmt args ≡ some out
    → length out < 255
    → (w ≡ mag_ch_panic) ⊎ ((w ≡ mag_ch_assert) × (k.p_proc_ready < nr_sysu_procs))
    → ldt_seg_linear (k.proc_table k.p_proc_ready) index_ldt_rw ≡ 0
    → buf < 2 ^ 32
    → screen_rounds ≤ fuel
    → (m' : Bytes) × (printf (suc fuel) buf err string_at (b'%' ∷ b'c' ∷ fmt) (w ∷ args) k m d
        ≡ some (overwrites m'))
unfolding printf
printf_overwrites fuel buf err w string_at fmt args out k m d ends fits mark flat small enough =
    let some_ : (0 < w) × (w < 256) = (omega (arith, mark), omega (arith, mark)) in
    let fatal : is_fatal k w ≡ true = ground (arith, mark) in
    let text =
      vsprintf-char string_at w fmt args some_.0 some_.1 ∙ ap (Option.map (λ o. w ∷ o)) ends in
    let (m', run) = marked_overwrites fuel buf err w out k m d flat small fatal enough in
    let room : ltb (length (w ∷ out)) buf_size ≡ true = ground (arith, fits) in
    (m', rw (text, printf) (rw room (ap some run)))

string_out :
    (string_at : ℕ → List ℕ) (text : ℕ)
    → length (string_at text) < 1024
    → vsprintf string_at (codes " panic!! %s") (text ∷ [])
      ≡ some (codes " panic!! " ++ string_at text ++ [])
unfolding vsprintf
string_out string_at text short =
    let none_left : 0 - length (string_at text) ≡ 0 = omega arith in
    rw (lt→ltb (length (string_at text)) 1024 short) (rw none_left refl)

-- `panic` with any format and arguments that `vsprintf` makes at most 245 characters of, which fit
-- into the buffer of its `printf`, does not come to halt the processor: its screen comes to write over
-- the kernel. The running process's data segment starts at 0, and the buffer's address has 32 bits.
pub panic_overwrites :
    (fuel : ℕ) (buf text err : ℕ) (string_at : ℕ → List ℕ) (fmt args out : List ℕ) (k : Kernel)
    (m : Bytes) (d : Display)
    → vsprintf string_at fmt args ≡ some out
    → length out < 246
    → ldt_seg_linear (k.proc_table k.p_proc_ready) index_ldt_rw ≡ 0
    → buf < 2 ^ 32
    → screen_rounds ≤ fuel
    → (m' : Bytes) × (panic (suc fuel) buf text err string_at fmt args k m d ≡ some (overwrites m'))
unfolding panic
panic_overwrites fuel buf text err string_at fmt args out k m d ends short flat small enough =
    let put = update string_at text out in
    let at : put text ≡ out = rw (==_refl text) refl in
    let (m', run) =
      printf_overwrites fuel buf err mag_ch_panic put (codes " panic!! %s") (text ∷ [])
        (codes " panic!! " ++ put text ++ []) k m d
        (string_out put text (rw at (omega (arith, short))))
        (rw (length-append (put text) [], at) (omega (arith, short))) (inl refl) flat small
        enough in
    let room : ltb (length out) buf_size ≡ true = ground (arith, short) in
    (m', rw (ends, panic) (rw room run))
