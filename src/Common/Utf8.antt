-- ===== src/Common/Utf8.antt =====
-- `str::from_utf8` and `OsStr::to_str`: which byte strings are UTF-8.
use mathlib.Core.Path.{◌≡◌, refl}
use mathlib.Core.Bool.{Bool, true, false, ◌&&◌, ◌||◌}
use mathlib.Core.List.{[], ◌∷◌}
use mesabox.Common.Tests.{ltb, leb, ◌==◌, if◌then◌else◌}
use Prim.Native.Nat.{ℕ}
use mesabox.Common.Bytes.{Bytes}

abbrev within : ℕ → ℕ → ℕ → Bool
within lo hi b = leb lo b && leb b hi

-- The second byte after a given first byte of a sequence of three or of four bytes.
second_of_three : ℕ → ℕ → Bool
second_of_three a b =
    (a == 0xe0 && within 0xa0 0xbf b)
    || (within 0xe1 0xec a && within 0x80 0xbf b)
    || (a == 0xed && within 0x80 0x9f b)
    || (within 0xee 0xef a && within 0x80 0xbf b)

second_of_four : ℕ → ℕ → Bool
second_of_four a b =
    (a == 0xf0 && within 0x90 0xbf b)
    || (within 0xf1 0xf3 a && within 0x80 0xbf b)
    || (a == 0xf4 && within 0x80 0x8f b)

-- How many bytes follow the first one, and `rest` is what a valid sequence leaves.
unfoldable pub is_utf8 : Bytes → Bool
unfolding second_of_three second_of_four
is_utf8 [] = true
is_utf8 (a ∷ []) = ltb a 0x80
is_utf8 (a ∷ b ∷ []) = (ltb a 0x80 && ltb b 0x80) || (within 0xc2 0xdf a && within 0x80 0xbf b)
is_utf8 (a ∷ b ∷ c ∷ []) =
    let one = is_utf8 (b ∷ c ∷ []) in
    let two = ltb c 0x80 in
    if ltb a 0x80
    then one
    else if within 0xc2 0xdf a && within 0x80 0xbf b
    then two
    else second_of_three a b && within 0x80 0xbf c
is_utf8 (a ∷ b ∷ c ∷ d ∷ rest) =
    let one = is_utf8 (b ∷ c ∷ d ∷ rest) in
    let two = is_utf8 (c ∷ d ∷ rest) in
    let three = is_utf8 (d ∷ rest) in
    let four = is_utf8 rest in
    if ltb a 0x80
    then one
    else if within 0xc2 0xdf a && within 0x80 0xbf b
    then two
    else if second_of_three a b && within 0x80 0xbf c
    then three
    else if second_of_four a b && within 0x80 0xbf c && within 0x80 0xbf d
    then four
    else false

euro_sign : is_utf8 (0xe2 ∷ 0x82 ∷ 0xac ∷ b'!' ∷ []) ≡ true
unfolding is_utf8
euro_sign = refl

surrogate : is_utf8 (0xed ∷ 0xa0 ∷ 0x80 ∷ []) ≡ false
unfolding is_utf8
surrogate = refl
