-- ===== src/Go/Hex.antt =====
-- `encoding/hex.EncodeToString`.
use plumbline.Base.{
  Str, ℕ, ◌+◌, ◌-◌, ◌*◌, ◌/◌, ◌%◌, ◌≡◌, [], ◌∷◌, arith, ltb, if◌then◌else◌, length,
}

unfoldable pub hex_digit : ℕ → ℕ
hex_digit n = if ltb n 10 then b'0' + n else b'a' + (n - 10)

unfoldable pub encode : Str → Str
unfolding hex_digit
encode [] = []
encode (c ∷ cs) = hex_digit (c / 16) ∷ hex_digit (c % 16) ∷ encode cs

pub length-encode : (s : Str) → length (encode s) ≡ 2 * length s
unfolding encode
length-encode [] = omega arith
length-encode (c ∷ cs) = omega (arith, length-encode cs)
