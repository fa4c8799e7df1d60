-- ===== src/Remediate/Sysctl.antt =====
-- `Merge` of internal/remediate/sysctl.go: settings written into the text of a drop-in file.
pub mod Keys
pub mod Lines
mod Texts
pub mod Laws
use plumbline.Go.Strings.{trim_left, trim_right, split, cut, join}
use plumbline.Base.Text.{has_prefix}
use plumbline.Base.Maps.{Map, lookup, keys}
use plumbline.Base.Sorting.{sort_strings}
use plumbline.Base.{
  Str, codes, is_empty, str_eq, ℕ, Bool, true, false, ◌||◌, none, some, List, [], ◌∷◌, ◌++◌, ◌==◌,
  if◌then◌else◌,
}

abbrev is_blank : ℕ → Bool
is_blank c = c == b' ' || c == b'\t'

-- `strings.TrimPrefix(l, "-")`
drop_dash : Str → Str
drop_dash [] = []
drop_dash (c ∷ cs) = if c == b'-' then cs else c ∷ cs

-- `keyOf`
pub key_of : Str → Str
unfolding drop_dash
key_of line =
    let l = drop_dash (trim_left is_blank line) in
    if is_empty l || (has_prefix l (codes "#") || has_prefix l (codes ";"))
    then []
    else elim (cut b'=' l) [ none ↦ [] | some (before, after) ↦ trim_right is_blank before ]

-- A trailing empty piece is dropped.
drop_empty_end : List Str → List Str
drop_empty_end [] = []
drop_empty_end (l ∷ []) = if is_empty l then [] else l ∷ []
drop_empty_end (l ∷ m ∷ ls) = l ∷ drop_empty_end (m ∷ ls)

-- `splitLines`
pub split_lines : Str → List Str
unfolding drop_empty_end
split_lines s = if is_empty s then [] else drop_empty_end (split b'\n' s)

-- `key+" = "+value`
abbrev pub setting : Str → Str → Str
setting key value = key ++ (codes " = " ++ value)

-- The inner loop of `Merge`: one key.
pub set_key : Str → Str → Bool → List Str → List Str
set_key key value written [] = if written then [] else setting key value ∷ []
set_key key value written (l ∷ ls) = elim (str_eq (key_of l) key) [
  | false ↦ l ∷ set_key key value written ls
  | true ↦ elim written [
    | true ↦ set_key key value true ls
    | false ↦ setting key value ∷ set_key key value true ls
  ]
]

-- `pairs[key]`
abbrev pub value_of : Map Str → Str → Str
value_of pairs key = elim (lookup key pairs) [ none ↦ [] | some v ↦ v ]

-- The outer loop.
pub set_keys : Map Str → List Str → List Str → List Str
unfolding set_key
set_keys pairs [] lines = lines
set_keys pairs (key ∷ rest) lines =
    set_keys pairs rest (set_key key (value_of pairs key) false lines)

pub join_lines : List Str → Str
unfolding join
join_lines [] = []
join_lines (l ∷ ls) = join (codes "\n") (l ∷ ls) ++ codes "\n"

-- `Merge`
unfoldable pub merge : Str → Map Str → Str
unfolding set_keys set_key split_lines drop_empty_end join_lines key_of drop_dash
merge existing pairs =
    join_lines (set_keys pairs (sort_strings (keys pairs)) (split_lines existing))
