-- ===== src/Go/Path.antt =====
-- The package `path` of Go: slash-separated paths, resolved by their text alone.
use mathlib.Core.List.{reverse}
use plumbline.Go.Strings.{split, join}
use plumbline.Base.{
  Str, codes, is_empty, str_eq, ◌≡◌, refl, Bool, false, ◌&&◌, ◌||◌, List, [], ◌∷◌, ◌++◌, ◌==◌,
  if◌then◌else◌,
}

-- `IsAbs`
unfoldable pub is_abs : Str → Bool
is_abs [] = false
is_abs (c ∷ cs) = c == b'/'

-- The element `..` on the elements before it.
pop_element : Bool → Str → List Str → List Str
pop_element rooted e [] = if rooted then [] else e ∷ []
pop_element rooted e (top ∷ rest) = if str_eq top (codes "..") then e ∷ top ∷ rest else rest

-- One element of a path, on the elements before it, the last one first.
clean_element : Bool → Str → List Str → List Str
unfolding pop_element
clean_element rooted e stack =
    if is_empty e || str_eq e (codes ".")
    then stack
    else if str_eq e (codes "..")
    then pop_element rooted e stack
    else e ∷ stack

clean_elements : Bool → List Str → List Str → List Str
unfolding clean_element
clean_elements rooted [] stack = reverse stack
clean_elements rooted (e ∷ es) stack = clean_elements rooted es (clean_element rooted e stack)

-- `Clean`
unfoldable pub clean : Str → Str
unfolding clean_elements is_abs split join
clean p =
    let body = join (codes "/") (clean_elements (is_abs p) (split b'/' p) []) in
    if is_abs p then b'/' ∷ body else if is_empty body then codes "." else body

-- `Join` of two elements.
unfoldable pub join_two : Str → Str → Str
unfolding clean
join_two a b =
    if is_empty a && is_empty b
    then []
    else if is_empty a
    then clean b
    else if is_empty b
    then clean a
    else clean (a ++ (b'/' ∷ b))

strip_slashes : Str → Str
strip_slashes [] = []
strip_slashes (c ∷ cs) = if c == b'/' then strip_slashes cs else c ∷ cs

up_to_slash : Str → Str
up_to_slash [] = []
up_to_slash (c ∷ cs) = let rest = up_to_slash cs in if c == b'/' then [] else c ∷ rest

from_slash : Str → Str
from_slash [] = []
from_slash (c ∷ cs) = if c == b'/' then c ∷ cs else from_slash cs

-- `Base`
unfoldable pub base : Str → Str
unfolding strip_slashes up_to_slash
base p =
    if is_empty p
    then codes "."
    else let name = reverse (up_to_slash (strip_slashes (reverse p))) in
      if is_empty name then codes "/" else name

-- `Dir`: what stands before the last slash, cleaned.
unfoldable pub dir : Str → Str
unfolding from_slash clean
dir p = clean (reverse (from_slash (reverse p)))

clean_example :
    (clean (codes "/a/./b/../c//d") ≡ codes "/a/c/d") × (clean (codes "a/../../b") ≡ codes "../b")
unfolding clean str_eq
clean_example = (refl, refl)

base_example :
    (base (codes "/etc/a.conf") ≡ codes "a.conf") × (dir (codes "/etc/a.conf") ≡ codes "/etc")
unfolding base dir str_eq
base_example = (refl, refl)
