-- ===== src/Examples/Screens.antt =====
-- The theorems on `printx` and on panics, applied.
use canalotus.Common.{
  ℕ, suc, ◌%◌, ◌≤◌, ◌<◌, ◌≡◌, refl, ◌⊎◌, ◌==◌, if◌then◌else◌, some, List, [], ◌∷◌, arith,
}
use canalotus.State.{Kernel}
use canalotus.Ipc.{ldt_seg_linear, va2la}
use canalotus.Console.{Display, vmem_size}
use canalotus.Format.{vsprintf}
use canalotus.Print.{
  Bytes, kernel_begin, red, blank_color, mag_ch_panic, text_of, syscall_printx, returned,
  overwrites, panic, codes,
}
use canalotus.Print.Filling.{screen_limit, screen_rounds, syscall_printx_overwrites}
use canalotus.Print.Typing.{visible, typed, Typed, IsShown, syscall_printx_types}
use canalotus.Print.Panic.{panic_overwrites}
use canalotus.Examples.{idle_table, kernel_of}
use canalotus.Examples.Devices.{screen, screen-IsValid}

abbrev kernel : Kernel
kernel = kernel_of idle_table

-- "Hi" at the address 300, and the mark of a panic at 400.
abbrev texts : Bytes
texts a = if a == 300 then 72 else if a == 301 then 105 else if a == 400 then mag_ch_panic else 0

found : (s : ℕ) → s < 1000 → text_of s 0 500 kernel texts ≡ some (s, texts)
unfolding text_of va2la ldt_seg_linear
found s small = ground (arith, small)

syscall_printx_overwrites_example :
    (m : Bytes) × (syscall_printx (suc screen_rounds) 400 0 500 kernel texts screen ≡ overwrites m)
    × ((x : ℕ) → (x < vmem_size) ⊎ (screen_limit ≤ x) → m x ≡ texts x)
    × ((x : ℕ) → vmem_size ≤ x → x < kernel_begin → x % 2 ≡ 1 → (m x ≡ red) ⊎ (m x ≡ blank_color))
syscall_printx_overwrites_example =
    syscall_printx_overwrites screen_rounds 400 0 500 400 kernel texts texts screen
      (found 400 (omega arith)) refl (omega arith)

syscall_printx_types_example :
    (d : Display) × (syscall_printx 10 300 0 500 kernel texts screen ≡ returned d)
    × (typed 0 (visible (72 ∷ 105 ∷ [])) screen ≡ some d)
    × Typed 0 screen d
    × IsShown 0 (visible (72 ∷ 105 ∷ [])) screen d
syscall_printx_types_example =
    syscall_printx_types 10 300 0 500 300 (72 ∷ 105 ∷ []) kernel texts texts screen
      (found 300 (omega arith)) refl (refl, omega arith, (refl, omega arith, refl)) (omega arith)
      screen-IsValid

abbrev no_texts : ℕ → List ℕ
no_texts _ = []

panic_overwrites_example :
    (m : Bytes) × (panic
        (suc screen_rounds)
        600
        700
        500
        no_texts
        (codes "stop")
        []
        kernel
        texts
        screen
      ≡ some (overwrites m))
unfolding vsprintf ldt_seg_linear
panic_overwrites_example =
    panic_overwrites screen_rounds 600 700 500 no_texts (codes "stop") [] (codes "stop") kernel
      texts screen refl (omega arith) refl (omega arith) (omega arith)
