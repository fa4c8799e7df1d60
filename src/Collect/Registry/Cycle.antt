-- ===== src/Collect/Registry/Cycle.antt =====
-- `Register` and `findCycle` of internal/collect/collect.go. The depth of the search is bounded by fuel,
-- of which the number of the collectors is enough.
mod Marks
pub mod Paths
mod States
mod Dependencies
mod Closing
pub mod Laws
pub mod Built
use plumbline.Base.Maps.{Map, lookup, insert, remove, contains}
use plumbline.Collect.Registry.{Node, Registry, known, ids, dedupe, deps}
use plumbline.Base.{
  Str, is_empty, str_eq, ℕ, zero, suc, true, false, none, some, List, [], ◌∷◌, ◌++◌, if◌then◌else◌,
  length,
}

-- `unvisited`, `open` and `closed`
pub data Mark : Type 0 where
  unvisited on_path closed : Mark

-- The variables of `findCycle`.
pub record Walk : Type 0 where
  pub marks : Map Mark
  pub path : List Str

unfoldable pub mark_of : Map Mark → Str → Mark
mark_of m id = elim (lookup id m) [ none ↦ unvisited | some k ↦ k ]

pub data Search : Type 0 where
  cyclic : List Str → Search
  clear : Walk → Search
  too_deep : Search

-- `path[i:]`, from the first occurrence.
pub from_first : Str → List Str → List Str
from_first d [] = []
from_first d (s ∷ path) = let rest = from_first d path in if str_eq s d then s ∷ path else rest

pub and_then : (Walk → Search) → Search → Search
and_then f (cyclic c) = cyclic c
and_then f (clear w) = f w
and_then f too_deep = too_deep

pub enter : Str → Walk → Walk
enter id w = record { marks = insert id on_path w.marks; path = w.path ++ id ∷ [] }

pub drop_end : List Str → List Str
drop_end [] = []
drop_end (s ∷ []) = []
drop_end (s ∷ t ∷ l) = s ∷ drop_end (t ∷ l)

pub leave : Str → Walk → Walk
leave id w = record { marks = insert id closed w.marks; path = drop_end w.path }

-- The loop of `visit` over the dependencies; `go` visits one of them.
pub visit_deps : Registry → (Str → Walk → Search) → List Str → Walk → Search
visit_deps r go [] w = clear w
visit_deps r go (d ∷ ds) w = elim (known r d) [
  | false ↦ visit_deps r go ds w
  | true ↦ elim (mark_of w.marks d) [
    | on_path ↦ cyclic (from_first d w.path ++ d ∷ [])
    | unvisited ↦ and_then (visit_deps r go ds) (go d w)
    | closed ↦ visit_deps r go ds w
  ]
]

-- `visit`
pub visit : Registry → ℕ → Str → Walk → Search
visit r zero id w = too_deep
visit r (suc fuel) id w =
    and_then (λ v. clear (leave id v))
      (visit_deps r (visit r fuel) (dedupe (deps r id)) (enter id w))

-- The loop of `findCycle`.
pub visit_all : Registry → ℕ → List Str → Walk → Search
visit_all r fuel [] w = clear w
visit_all r fuel (id ∷ rest) w = elim (mark_of w.marks id) [
  | unvisited ↦ and_then (visit_all r fuel rest) (visit r fuel id w)
  | on_path ↦ visit_all r fuel rest w
  | closed ↦ visit_all r fuel rest w
]

-- `findCycle`
unfoldable pub find_cycle : Registry → Search
unfolding visit_all ids visit visit_deps from_first and_then known mark_of enter leave drop_end
    dedupe deps
find_cycle r = visit_all r (length (ids r)) (ids r) (record { marks = []; path = [] })

-- The panics of `Register`.
pub data Panic : Type 0 where
  empty_id : Panic
  duplicate_id : Str → Panic
  self_dependency : Str → Panic
  dependency_cycle : List Str → Panic

-- What `Register` leaves behind: the registry, and the panic if there is one.
pub data Registration : Type 0 where
  registered : Registry → Registration
  panicked : Panic → Registry → Registration
  unfinished : Registration

-- The last check of `Register`, which takes the collector out again if there is a cycle.
check_cycle : Str → Registry → Search → Registration
check_cycle id r (cyclic c) = panicked (dependency_cycle c) (remove id r)
check_cycle id r (clear w) = registered r
check_cycle id r too_deep = unfinished

-- `Register`
unfoldable pub register : Node → Registry → Registration
unfolding find_cycle check_cycle known contains
register c r =
    if is_empty c.id
    then panicked empty_id r
    else if known r c.id
    then panicked (duplicate_id c.id) r
    else if contains c.depends_on c.id
    then panicked (self_dependency c.id) r
    else check_cycle c.id (insert c.id c r) (find_cycle (insert c.id c r))
