-- ===== src/Go/Utf8/Laws.antt =====
-- What `DecodeRuneInString` answers, by the bytes that it takes.
use plumbline.Go.Utf8.{rune_error, second_ok, decode_two, decode_three, decode_four, decode_rune}
use plumbline.Base.{Str, ℕ, ◌≡◌, refl, ◌⊎◌, inl, true, [], ◌∷◌, arith, leb, take, All}

-- No byte is ASCII.
abbrev pub NonAscii : Str → Type 0
NonAscii = All (λ b. leb 0x80 b ≡ true)

-- A byte that is refused, or bytes none of which is ASCII.
abbrev Multi : Str → ℕ × ℕ → Type 0
Multi s d = (d ≡ (rune_error, 1)) ⊎ NonAscii (take d.1 s)

decode_two-Multi : (a : ℕ) (s : Str) → leb 0x80 a ≡ true → Multi (a ∷ s) (decode_two a s)
unfolding decode_two
decode_two-Multi a [] h = ground arith
decode_two-Multi a (b ∷ s) h = ground arith

second_ok-leb : (a b : ℕ) → second_ok a b ≡ true → leb 0x80 b ≡ true
unfolding second_ok
second_ok-leb a b h = ground arith

decode_three-Multi : (a : ℕ) (s : Str) → leb 0x80 a ≡ true → Multi (a ∷ s) (decode_three a s)
unfolding decode_three
decode_three-Multi a [] h = inl refl
decode_three-Multi a (b ∷ []) h = inl refl
decode_three-Multi a (b ∷ c ∷ s) h = ground (arith, second_ok-leb a b)

decode_four-Multi : (a : ℕ) (s : Str) → leb 0x80 a ≡ true → Multi (a ∷ s) (decode_four a s)
unfolding decode_four
decode_four-Multi a [] h = inl refl
decode_four-Multi a (b ∷ []) h = inl refl
decode_four-Multi a (b ∷ c ∷ []) h = inl refl
decode_four-Multi a (b ∷ c ∷ d ∷ s) h = ground (arith, second_ok-leb a b)

pub decode_rune-cases :
    (a : ℕ) (s : Str)
    → (decode_rune (a ∷ s) ≡ (a, 1))
      ⊎ (decode_rune (a ∷ s) ≡ (rune_error, 1))
      ⊎ NonAscii (take (decode_rune (a ∷ s)).1 (a ∷ s))
unfolding decode_rune
decode_rune-cases a s =
    ground (arith, decode_two-Multi a s, decode_three-Multi a s, decode_four-Multi a s)
