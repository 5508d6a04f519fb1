-- ===== src/Examples/Texts.antt =====
-- The theorems on formatting, applied.
use canalotus.Common.{length, ◌≤◌, ◌⊎◌, ℕ, ◌≡◌, negsuc, some, List, [], ◌∷◌, arith}
use canalotus.Format.{vsprintf}
use canalotus.Format.Digits.{read, read_int, vsprintf_decimal}
use canalotus.Itoa.{itoa}
use canalotus.Itoa.Digits.{NoLeadingZero, itoa_lem}

abbrev no_strings : ℕ → List ℕ
no_strings _ = []

-- The word of -42.
vsprintf_decimal_example :
    (out : List ℕ) × (vsprintf no_strings (b'%' ∷ b'd' ∷ []) (0xFFFFFFD6 ∷ []) ≡ some out)
    × (read_int out ≡ negsuc 41)
vsprintf_decimal_example = vsprintf_decimal no_strings 0xFFFFFFD6 (omega arith) (omega arith)

abbrev video_memory : ℕ
video_memory = 0xB8000

itoa_lem_example :
    (ds : List ℕ) × (itoa video_memory ≡ b'0' ∷ b'x' ∷ ds)
    × (read 16 0 ds ≡ video_memory)
    × (length ds ≤ 8)
    × (((video_memory ≡ 0) × (ds ≡ b'0' ∷ [])) ⊎ NoLeadingZero ds)
itoa_lem_example = itoa_lem video_memory (omega arith)
