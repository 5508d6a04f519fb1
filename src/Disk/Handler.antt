-- ===== src/Disk/Handler.antt =====
-- The drive's interrupt (src/kernel/hd.c, `hd_handler`), which the kernel tells the driver of.
use canalotus.Common.{ℕ, ◌≡◌, refl}
use canalotus.State.{Kernel, ok, M, ◌>>=◌, ◌>>◌, pure}
use canalotus.Ipc.Interrupt.{inform_int}

abbrev pub sysproc_hd : ℕ
sysproc_hd = 2

-- `hd_handler`, with the byte that it reads at REG_STATUS; the result is `hd_status`.
unfoldable pub hd_handler : (status : ℕ) → M ℕ
hd_handler status = do inform_int sysproc_hd; pure status

pub handled :
    (k k' : Kernel) (status : ℕ)
    → inform_int sysproc_hd k ≡ ok tt k'
    → hd_handler status k ≡ ok status k'
unfolding hd_handler
handled k k' status e = rw (◌>>◌, ◌>>=◌, e) refl
