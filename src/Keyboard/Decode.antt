-- ===== src/Keyboard/Decode.antt =====
-- The keys that `keyboard_read` gives: raw codes of nine bits, with the modifiers as flags.
use canalotus.Common.{
  ℕ, zero, suc, ◌+◌, ◌*◌, ◌<◌, ◌≡◌, refl, ap, Bool, true, false, not, ◌&&◌, ◌==◌, ltb,
  if◌then◌else◌, all_below, all_below_lem, ==→eq, ltb→lt, Option, none, some, List, [], ◌∷◌, length,
  get_or, bit_and, arith,
}
use canalotus.Keyboard.{
  Keyboard, press, pad_key, is_pad, flag, has_bits, with_flags, column_of, decode,
}
use canalotus.Keyboard.Keys.{
  mask_raw, flag_pad, flag_ralt, flag_lalt, flag_rctrl, flag_lctrl, flag_rshift, flag_lshift,
  flag_break, map_cols,
}
use canalotus.Keyboard.Keymap.{keymap}

-- A test of every list of `n` truth values.
abbrev all_lists : ℕ → (List Bool → Bool) → Bool
all_lists zero p = p []
all_lists (suc n) p = all_lists n (λ l. p (true ∷ l)) && all_lists n (λ l. p (false ∷ l))

all_lists_lem :
    (n : ℕ) (p : List Bool → Bool) (l : List Bool)
    → length l ≡ n
    → all_lists n p ≡ true
    → p l ≡ true
all_lists_lem zero p [] h e = e
all_lists_lem zero p (b ∷ l) h e = absurd (omega (arith, h))
all_lists_lem (suc n) p [] h e = absurd (omega (arith, h))
all_lists_lem (suc n) p (true ∷ l) h e =
    all_lists_lem n (λ l. p (true ∷ l)) l (omega (arith, h)) (ground (arith, e))
all_lists_lem (suc n) p (false ∷ l) h e =
    all_lists_lem n (λ l. p (false ∷ l)) l (omega (arith, h)) (ground (arith, e))

abbrev all_flags : List ℕ
all_flags =
    flag_pad ∷ flag_ralt ∷ flag_lalt ∷ flag_rctrl ∷ flag_lctrl ∷ flag_rshift ∷ flag_lshift ∷ []

-- `with_flags` on the truth values of `all_flags`.
abbrev flagged : List Bool → List ℕ → ℕ → ℕ
flagged [] fs key = key
flagged (b ∷ l) [] key = key
flagged (b ∷ l) (f ∷ fs) key = flag b f (flagged l fs key)

abbrev same : Bool → Bool → Bool
same true b = b
same false b = not b

same→eq : (a b : Bool) → same a b ≡ true → a ≡ b
same→eq a b h = ground (arith, h)

abbrev same_flags : List Bool → List ℕ → ℕ → Bool
same_flags [] fs key = true
same_flags (b ∷ l) [] key = true
same_flags (b ∷ l) (f ∷ fs) key = let rest = same_flags l fs key in same (has_bits key f) b && rest

unfoldable is_kept : List Bool → ℕ → Bool
is_kept l key =
    let k = flagged l all_flags key in (bit_and k mask_raw == key) && same_flags l all_flags k

unfoldable kept_below : List Bool → Bool
unfolding is_kept
kept_below l = all_below 512 (is_kept l)

unfoldable all_kept : Bool
unfolding kept_below
all_kept = all_lists 7 kept_below

all_kept_lem : all_kept ≡ true
unfolding all_kept kept_below is_kept
all_kept_lem = refl

-- What a key `k` tells: its raw code, the modifiers held, and whether it is on the number pad.
pub record IsKey (s : Keyboard) (pad : Bool) (raw k : ℕ) : Type 0 where
  pub raw_code : bit_and k mask_raw ≡ raw
  pub from_pad : has_bits k flag_pad ≡ pad
  pub lshift_held : has_bits k flag_lshift ≡ s.left_shift
  pub rshift_held : has_bits k flag_rshift ≡ s.right_shift
  pub lctrl_held : has_bits k flag_lctrl ≡ s.left_ctrl
  pub rctrl_held : has_bits k flag_rctrl ≡ s.right_ctrl
  pub lalt_held : has_bits k flag_lalt ≡ s.left_alt
  pub ralt_held : has_bits k flag_ralt ≡ s.right_alt

is_kept_below : (l : List Bool) (key : ℕ) → length l ≡ 7 → key < 512 → is_kept l key ≡ true
unfolding all_kept kept_below
is_kept_below l key e h =
    all_below_lem 512 (is_kept l) key h (all_lists_lem 7 kept_below l e all_kept_lem)

and_split : (a b : Bool) → (a && b) ≡ true → (a ≡ true) × (b ≡ true)
and_split true b h = (refl, h)
and_split false b h = (h, absurd (ground (arith, h)))

-- The flags that `same_flags` compares.
unfoldable Compared : List Bool → List ℕ → ℕ → Type 0
Compared [] fs k = Unit
Compared (b ∷ l) [] k = Unit
Compared (b ∷ l) (f ∷ fs) k = (has_bits k f ≡ b) × Compared l fs k

same_flags-Compared :
    (l : List Bool) (fs : List ℕ) (k : ℕ) → same_flags l fs k ≡ true → Compared l fs k
unfolding Compared
same_flags-Compared [] fs k h = tt
same_flags-Compared (b ∷ l) [] k h = tt
same_flags-Compared (b ∷ l) (f ∷ fs) k h =
    let (x, y) = and_split (same (has_bits k f) b) (same_flags l fs k) h in
    (same→eq (has_bits k f) b x, same_flags-Compared l fs k y)

with_flags-IsKey :
    (s : Keyboard) (pad : Bool) (key : ℕ) → key < 512 → IsKey s pad key (with_flags s pad key)
unfolding is_kept with_flags Compared
with_flags-IsKey s pad key h =
    let held : List Bool =
      pad ∷ s.right_alt ∷ s.left_alt ∷ s.right_ctrl ∷ s.left_ctrl ∷ s.right_shift ∷ s.left_shift
      ∷ [] in
    let k = with_flags s pad key in
    let (r, e) =
      and_split (bit_and k mask_raw == key) (same_flags held all_flags k)
        (is_kept_below held key refl h) in
    let (p, (ra, (la, (rc, (lc, (rs, (ls, last))))))) = same_flags-Compared held all_flags k e in
    record {
      raw_code = ==→eq (bit_and k mask_raw) key r;
      from_pad = p;
      lshift_held = ls;
      rshift_held = rs;
      lctrl_held = lc;
      rctrl_held = rc;
      lalt_held = la;
      ralt_held = ra;
    }

unfoldable pad_key_test : Bool → ℕ → Bool
unfolding pad_key
pad_key_test b key = ltb (pad_key b key) 512

pad_key_below : (b : Bool) (key : ℕ) → key < 512 → pad_key b key < 512
unfolding pad_key_test pad_key
pad_key_below true key h =
    ltb→lt (pad_key true key) 512 (all_below_lem 512 (pad_key_test true) key h refl)
pad_key_below false key h =
    ltb→lt (pad_key false key) 512 (all_below_lem 512 (pad_key_test false) key h refl)

abbrev all_small : List ℕ → Bool
all_small [] = true
all_small (x ∷ xs) = ltb x 512 && all_small xs

get_or_below : (xs : List ℕ) (i : ℕ) → all_small xs ≡ true → get_or xs i 0 < 512
get_or_below [] i e = omega arith
get_or_below (x ∷ xs) zero e = ltb→lt x 512 (ground (arith, e))
get_or_below (x ∷ xs) (suc i) e = get_or_below xs i (ground (arith, e))

keymap_below : (i : ℕ) → get_or keymap i 0 < 512
keymap_below i = get_or_below keymap i refl

if_not : (b : Bool) (x y : Option ℕ) → (if not b then x else y) ≡ (if b then y else x)
if_not true x y = refl
if_not false x y = refl

-- The key map's entry for a scan code.
abbrev pub key_of : ℕ → Keyboard → ℕ
unfolding column_of
key_of code s = let row = bit_and code 0x7F * map_cols in get_or keymap (row + column_of row s) 0

-- The scan code of a key that goes down gives exactly one key: masked by `MASK_RAW` it is the code
-- that the key map and the number pad's rules say, so no flag hides a part of it, and its flags are
-- the modifiers held after the scan code. A key that goes up gives none.
pub decode_lem :
    (code : ℕ) (s : Keyboard)
    → (s' : Keyboard) × (k : ℕ) × (decode code s
        ≡ some (if has_bits code flag_break then none else some k, s'))
      × IsKey s' (is_pad (key_of code s)) (pad_key s'.num_on (key_of code s)) k
unfolding decode
decode_lem code s =
    let row = bit_and code 0x7F * map_cols in
    let col = column_of row s in
    let key = get_or keymap (row + col) 0 in
    let s' = press key (not (has_bits code flag_break)) (record s { column = col }) in
    (
      s',
      with_flags s' (is_pad key) (pad_key s'.num_on key),
      ap (λ o. some (o, s'))
          (if_not (has_bits code flag_break)
            (some (with_flags s' (is_pad key) (pad_key s'.num_on key))) none),
      with_flags-IsKey s' (is_pad key) (pad_key s'.num_on key)
          (pad_key_below s'.num_on key (keymap_below (row + col))),
    )
