-- ===== src/Go/Strings.antt =====
-- What the program uses of the package `strings` besides `TrimSpace`, with ASCII separators and cut sets.
use plumbline.Base.Text.{has_prefix}
use mathlib.Core.List.{reverse}
use plumbline.Base.{
  Str, codes, is_empty, ℕ, ◌≡◌, refl, Bool, true, false, ◌&&◌, Option, none, some, List, [], ◌∷◌,
  ◌++◌, ◌==◌, if◌then◌else◌,
}

-- `TrimRight`; the test says which bytes are in the cut set.
unfoldable pub trim_right : (ℕ → Bool) → Str → Str
trim_right p [] = []
trim_right p (c ∷ cs) = let rest = trim_right p cs in if p c && is_empty rest then [] else c ∷ rest

unfoldable pub cons_first : ℕ → List Str → List Str
cons_first c [] = (c ∷ []) ∷ []
cons_first c (l ∷ ls) = (c ∷ l) ∷ ls

-- `Split` at a single byte: one text more than there are separators.
unfoldable pub split : ℕ → Str → List Str
unfolding cons_first
split sep [] = [] ∷ []
split sep (c ∷ cs) = let rest = split sep cs in if c == sep then [] ∷ rest else cons_first c rest

cons_left : ℕ → Option (Str × Str) → Option (Str × Str)
cons_left c none = none
cons_left c (some (a, b)) = some (c ∷ a, b)

-- `Cut` at a single byte.
unfoldable pub cut : ℕ → Str → Option (Str × Str)
unfolding cons_left
cut sep [] = none
cut sep (c ∷ cs) = let rest = cut sep cs in if c == sep then some ([], cs) else cons_left c rest

-- `HasSuffix`
unfoldable pub has_suffix : Str → Str → Bool
unfolding has_prefix
has_suffix s suffix = has_prefix (reverse s) (reverse suffix)

-- `s[:len(s)-1]` of a text that is not empty.
unfoldable pub drop_last : Str → Str
drop_last [] = []
drop_last (c ∷ []) = []
drop_last (c ∷ d ∷ cs) = c ∷ drop_last (d ∷ cs)

-- `Join`
unfoldable pub join : Str → List Str → Str
join sep [] = []
join sep (s ∷ []) = s
join sep (s ∷ t ∷ ts) = s ++ (sep ++ join sep (t ∷ ts))

split_example : split b'/' (codes "/a//b") ≡ [] ∷ codes "a" ∷ [] ∷ codes "b" ∷ []
unfolding split
split_example = refl

-- `TrimLeft`
unfoldable pub trim_left : (ℕ → Bool) → Str → Str
trim_left p [] = []
trim_left p (c ∷ cs) = elim (p c) [ true ↦ trim_left p cs | false ↦ c ∷ cs ]
