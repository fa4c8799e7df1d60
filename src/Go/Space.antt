-- ===== src/Go/Space.antt =====
-- `strings.TrimSpace`: white space is what `unicode.IsSpace` says of the UTF-8 text.
use mathlib.Core.List.{reverse}
use plumbline.Base.{
  Str, codes, ℕ, zero, suc, ◌≡◌, refl, Bool, ◌&&◌, ◌||◌, List, [], ◌∷◌, ◌++◌, leb, ◌==◌,
  if◌then◌else◌,
}

abbrev within : ℕ → ℕ → ℕ → Bool
within lo hi c = leb lo c && leb c hi

-- '\t', '\n', '\v', '\f', '\r' and ' '.
unfoldable is_ascii_space : ℕ → Bool
is_ascii_space c = within 9 13 c || c == 32

-- U+0085 and U+00A0.
is_space2 : ℕ → ℕ → Bool
is_space2 a b = a == 0xc2 && (b == 0x85 || b == 0xa0)

-- U+1680, U+2000 to U+200A, U+2028, U+2029, U+202F, U+205F and U+3000.
is_space3 : ℕ → ℕ → ℕ → Bool
is_space3 a b c =
    (a == 0xe1 && b == 0x9a && c == 0x80)
    || (a == 0xe2 && b == 0x80 && (within 0x80 0x8a c || c == 0xa8 || c == 0xa9 || c == 0xaf))
    || (a == 0xe2 && b == 0x81 && c == 0x9f)
    || (a == 0xe3 && b == 0x80 && c == 0x80)

-- How many bytes the white space at the front of the text takes; 0 if there is none.
unfoldable space_size : Str → ℕ
unfolding is_ascii_space is_space2 is_space3
space_size [] = 0
space_size (a ∷ []) = if is_ascii_space a then 1 else 0
space_size (a ∷ b ∷ []) = if is_ascii_space a then 1 else if is_space2 a b then 2 else 0
space_size (a ∷ b ∷ c ∷ rest) =
    if is_ascii_space a then 1 else if is_space2 a b then 2 else if is_space3 a b c then 3 else 0

-- The same for a reversed text, whose characters have their bytes the other way round.
reversed_space_size : Str → ℕ
unfolding is_ascii_space is_space2 is_space3
reversed_space_size [] = 0
reversed_space_size (a ∷ []) = if is_ascii_space a then 1 else 0
reversed_space_size (b ∷ a ∷ []) = if is_ascii_space b then 1 else if is_space2 a b then 2 else 0
reversed_space_size (c ∷ b ∷ a ∷ rest) =
    if is_ascii_space c then 1 else if is_space2 b c then 2 else if is_space3 a b c then 3 else 0

-- Drops what `size` finds at the front, again and again; `skip` bytes are still to go.
strip : (Str → ℕ) → ℕ → Str → Str
strip size skip [] = []
strip size (suc k) (c ∷ cs) = strip size k cs
strip size zero (c ∷ cs) = elim (size (c ∷ cs)) [ zero ↦ c ∷ cs | suc k ↦ strip size k cs ]

unfoldable pub trim_space : Str → Str
unfolding strip space_size reversed_space_size
trim_space s = reverse (strip reversed_space_size 0 (reverse (strip space_size 0 s)))

trim_example : trim_space (codes " \ta b\n") ≡ codes "a b"
unfolding trim_space
trim_example = refl

-- The word that was read so far, if it has a byte, before the words that follow.
flush : Str → List Str → List Str
flush [] rest = rest
flush (c ∷ cs) rest = (c ∷ cs) ∷ rest

-- `skip` bytes of white space are still to go; `word` is what was read since.
fields_from : ℕ → Str → Str → List Str
unfolding space_size flush
fields_from (suc k) word [] = []
fields_from (suc k) word (c ∷ cs) = fields_from k word cs
fields_from zero word [] = flush word []
fields_from zero word (c ∷ cs) = elim (space_size (c ∷ cs)) [
  | zero ↦ fields_from zero (word ++ c ∷ []) cs
  | suc k ↦ flush word (fields_from k [] cs)
]

-- `strings.Fields`
unfoldable pub fields : Str → List Str
unfolding fields_from
fields s = fields_from 0 [] s

fields_example : fields (codes "  a\t bc\n") ≡ codes "a" ∷ codes "bc" ∷ []
unfolding fields
fields_example = refl
