-- ===== src/Sanitize/Tests.antt =====
-- Runs of internal/sanitize/sanitize.go.
use plumbline.Go.Utf8.{decode_rune}
use plumbline.Go.Hex.{hex_digit}
use plumbline.Sanitize.{clean, piece_of, clean_loop, escape_byte}
use plumbline.Sanitize.Laws.{Safe, clean-Safe}
use plumbline.Base.{Str, codes, ◌≡◌, refl, [], ◌∷◌, ◌++◌}

-- An escape sequence that would colour the terminal, a tab, and an accented letter.
abbrev coloured : Str
coloured = 27 ∷ b'[' ∷ b'm' ∷ 9 ∷ 0xc3 ∷ 0xa9 ∷ []

clean-coloured : clean coloured 64 ≡ codes "\\x1b[m" ++ 9 ∷ 0xc3 ∷ 0xa9 ∷ []
unfolding clean clean_loop piece_of escape_byte hex_digit decode_rune
clean-coloured = refl

clean-Safe_example : Safe (clean coloured 64)
clean-Safe_example = clean-Safe coloured 64 (refl, (refl, (refl, (refl, (refl, (refl, tt))))))
