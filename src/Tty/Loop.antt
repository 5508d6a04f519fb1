-- ===== src/Tty/Loop.antt =====
-- The endless loop of `sys_tty`.
use canalotus.Common.{◌≡◌, ◌⊎◌, Option, none, some}
use canalotus.Keyboard.{keyboard_read}
use canalotus.Tty.{Terminals}
use canalotus.Tty.Ready.{AreReady}

-- The code comes back with all terminals ready, or it has come, with all terminals ready, to a read of
-- the keyboard that waits for the bytes that belong to a key and never come.
abbrev pub StaysReady : Option Terminals → Type 0
StaysReady o =
    ((t : Terminals) × (o ≡ some t) × AreReady t)
    ⊎ ((o ≡ none) × ((u : Terminals) × AreReady u × (keyboard_read u.keyboard ≡ none)))
