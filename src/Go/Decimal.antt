-- ===== src/Go/Decimal.antt =====
-- `%d` of a number that is not negative.
use plumbline.Base.{Str, codes, ℕ, zero, suc, ◌+◌, ◌/◌, ◌%◌, ◌≡◌, refl, [], ◌∷◌, ltb, if◌then◌else◌}

-- The digits of `n` before `rest`, on fuel; `n + 1` units are enough.
digits_onto : ℕ → ℕ → Str → Str
digits_onto zero n rest = rest
digits_onto (suc fuel) n rest =
    let longer = digits_onto fuel (n / 10) ((b'0' + n % 10) ∷ rest) in
    if ltb n 10 then (b'0' + n) ∷ rest else longer

unfoldable pub decimal : ℕ → Str
unfolding digits_onto
decimal n = digits_onto (suc n) n []

decimal_example : decimal 2034 ≡ codes "2034"
unfolding decimal
decimal_example = refl
