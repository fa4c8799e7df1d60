-- ===== src/Sanitize.antt =====
-- internal/sanitize/sanitize.go: untrusted text made safe for a terminal.
pub mod Laws
mod Tests
use plumbline.Go.Hex.{hex_digit}
use plumbline.Go.Utf8.{decode_rune, rune_error}
use plumbline.Base.{
  Str, codes, ℕ, zero, suc, ◌+◌, ◌-◌, ◌/◌, ◌%◌, Bool, ◌&&◌, ◌||◌, [], ◌∷◌, ◌++◌, ltb, leb, ◌==◌,
  if◌then◌else◌, length, take,
}

abbrev max_excerpt : ℕ
max_excerpt = 512

abbrev max_text : ℕ
max_text = 4096

abbrev pub truncation_marker : Str
truncation_marker = codes "... [truncated]"

pub escape_byte : ℕ → Str
unfolding hex_digit
escape_byte c = b'\\' ∷ b'x' ∷ hex_digit (c / 16) ∷ hex_digit (c % 16) ∷ []

abbrev within : ℕ → ℕ → ℕ → Bool
within lo hi c = leb lo c && leb c hi

-- What is written for the rune at the front of a text that begins with the byte `c`.
pub piece_of : ℕ → Str → ℕ × ℕ → Str
unfolding escape_byte
piece_of c s (r, size) =
    if r == rune_error && size == 1
    then escape_byte c
    else if r == b'\t'
    then b'\t' ∷ []
    else if ltb r 0x20 || (r == 0x7f || within 0x80 0x9f r)
    then escape_byte r
    else take size s

-- The loop of `clean`: `skip` bytes of the current rune are still to be passed over, and `out` is the
-- output so far.
pub clean_loop : ℕ → ℕ → Str → Str → Str
unfolding piece_of decode_rune
clean_loop max skip out [] = out
clean_loop max (suc k) out (c ∷ cs) = clean_loop max k out cs
clean_loop max zero out (c ∷ cs) =
    let rune = decode_rune (c ∷ cs) in
    let piece = piece_of c (c ∷ cs) rune in
    let rest = clean_loop max (rune.1 - 1) (out ++ piece) cs in
    if ltb max (length out + length piece) then out ++ truncation_marker else rest

unfoldable pub clean : Str → ℕ → Str
unfolding clean_loop
clean s max = clean_loop max 0 [] s

-- `Text` and `Excerpt`
pub text : Str → Str
text s = clean s max_text

pub excerpt : Str → Str
excerpt s = clean s max_excerpt
