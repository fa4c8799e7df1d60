-- ===== src/Collect/Registry/Cycle/Marks.antt =====
-- The marks of `findCycle` of internal/collect/collect.go, and how many collectors bear none.
use plumbline.Base.Maps.{Map, lookup, insert, lookup-insert, contains}
use plumbline.Collect.Registry.Cycle.{Mark, unvisited, mark_of}
use plumbline.Base.{
  Str, str_eq, str_eq_iff, ℕ, suc, ◌≤◌, ◌<◌, ◌≡◌, sym, ap, ◌≢◌, inl, inr, true, List, [], ◌∷◌,
  arith, if◌then◌else◌, Bool-cases, length,
}

pub mark_of-insert :
    (k j : Str) (n : Mark) (m : Map Mark)
    → mark_of (insert k n m) j ≡ (if str_eq k j then n else mark_of m j)
unfolding mark_of
mark_of-insert k j n m = ground (arith, lookup-insert k j n m)

-- How many collectors have not been visited.
pub unvisited_in : Map Mark → List Str → ℕ
unvisited_in m [] = 0
unvisited_in m (x ∷ xs) = elim (mark_of m x) [
  | unvisited ↦ suc (unvisited_in m xs)
  | _ ↦ unvisited_in m xs
]

pub unvisited_in-insert :
    (k : Str) (n : Mark) (m : Map Mark) (l : List Str)
    → n ≢ unvisited
    → unvisited_in (insert k n m) l ≤ unvisited_in m l
unfolding unvisited_in
unvisited_in-insert k n m [] h = omega arith
unvisited_in-insert k n m (x ∷ xs) h =
    ground (arith, unvisited_in-insert k n m xs h, mark_of-insert k x n m)

pub unvisited_in-visited :
    (k : Str) (n : Mark) (m : Map Mark) (l : List Str)
    → n ≢ unvisited
    → mark_of m k ≡ unvisited
    → contains l k ≡ true
    → unvisited_in (insert k n m) l < unvisited_in m l
unfolding unvisited_in contains
unvisited_in-visited k n m [] h u c = absurd (ground arith)
unvisited_in-visited k n m (x ∷ xs) h u c = elim (Bool-cases (str_eq x k)) [
  | inl e ↦ ground (
    arith,
    unvisited_in-insert k n m xs h,
    mark_of-insert k x n m,
    ap (mark_of m) ((str_eq_iff x k).0 e),
    (str_eq_iff k x).1 (sym ((str_eq_iff x k).0 e)),
  )
  | inr e ↦ ground (arith, unvisited_in-visited k n m xs h u, mark_of-insert k x n m)
]

pub unvisited_in-start : (l : List Str) → unvisited_in [] l ≤ length l
unfolding unvisited_in mark_of lookup
unvisited_in-start [] = omega arith
unvisited_in-start (x ∷ xs) = omega (arith, unvisited_in-start xs)
