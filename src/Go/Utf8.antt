-- ===== src/Go/Utf8.antt =====
-- `unicode/utf8.DecodeRuneInString`.
pub mod Laws
use plumbline.Base.{Str, ℕ, ◌+◌, ◌-◌, ◌*◌, Bool, ◌&&◌, [], ◌∷◌, ltb, leb, ◌==◌, if◌then◌else◌}

abbrev pub rune_error : ℕ
rune_error = 0xfffd

abbrev within : ℕ → ℕ → ℕ → Bool
within lo hi c = leb lo c && leb c hi

-- The second byte that may follow a first byte of three or four.
second_ok : ℕ → ℕ → Bool
second_ok a b =
    if a == 0xe0
    then within 0xa0 0xbf b
    else if a == 0xed
    then within 0x80 0x9f b
    else if a == 0xf0
    then within 0x90 0xbf b
    else if a == 0xf4
    then within 0x80 0x8f b
    else within 0x80 0xbf b

decode_two : ℕ → Str → ℕ × ℕ
decode_two a (b ∷ s) =
    if within 0x80 0xbf b then ((a - 0xc0) * 64 + (b - 0x80), 2) else (rune_error, 1)
decode_two a [] = (rune_error, 1)

decode_three : ℕ → Str → ℕ × ℕ
unfolding second_ok
decode_three a (b ∷ c ∷ s) =
    if second_ok a b && within 0x80 0xbf c
    then ((a - 0xe0) * 4096 + (b - 0x80) * 64 + (c - 0x80), 3)
    else (rune_error, 1)
decode_three a _ = (rune_error, 1)

decode_four : ℕ → Str → ℕ × ℕ
unfolding second_ok
decode_four a (b ∷ c ∷ d ∷ s) =
    if second_ok a b && (within 0x80 0xbf c && within 0x80 0xbf d)
    then ((a - 0xf0) * 262144 + (b - 0x80) * 4096 + (c - 0x80) * 64 + (d - 0x80), 4)
    else (rune_error, 1)
decode_four a _ = (rune_error, 1)

-- The rune at the front of a text and the number of its bytes: 0 of the empty text, and 1 of a byte
-- that starts no valid sequence.
unfoldable pub decode_rune : Str → ℕ × ℕ
unfolding decode_two decode_three decode_four
decode_rune [] = (rune_error, 0)
decode_rune (a ∷ s) =
    if ltb a 0x80
    then (a, 1)
    else if within 0xc2 0xdf a
    then decode_two a s
    else if within 0xe0 0xef a
    then decode_three a s
    else if within 0xf0 0xf4 a
    then decode_four a s
    else (rune_error, 1)
