-- ===== src/Unit.antt =====
-- internal/collect/unit/unit.go and internal/fact/unit.go: systemd units, assembled from a unit file and
-- its drop-ins.
pub mod Folds
pub mod Parse
pub mod Read
pub mod Assemble
mod Tests
use plumbline.Base.{
  select, Str, is_empty, str_eq, ℕ, Bool, true, false, not, ◌||◌, Option, none, some, List, [], ◌∷◌,
  ◌++◌, ◌==◌, if◌then◌else◌, length,
}

-- `fact.UnitState`
pub data UnitState : Type 0 where
  present absent masked denied not_regular truncated error : UnitState

unfoldable pub is_present : UnitState → Bool
is_present present = true
is_present _ = false

-- `fact.UnitFragmentKind`
pub data FragmentKind : Type 0 where
  unit_file drop_in drop_in_dir : FragmentKind

pub record Fragment : Type 0 where
  pub path : Str
  pub kind : FragmentKind
  pub state : UnitState
  pub resolved : Str
  pub digest : Str
  pub message : Str
  pub shadowed : Bool
  pub shadowed_by : Str

-- A fragment of which nothing but the path and the kind is known.
abbrev pub blank_fragment : Str → FragmentKind → Fragment
blank_fragment path kind = record {
  path = path;
  kind = kind;
  state = error;
  resolved = [];
  digest = [];
  message = [];
  shadowed = false;
  shadowed_by = [];
}

-- `fact.IncompleteFragments`
unfoldable pub incomplete_fragments : List Fragment → List Fragment
unfolding select is_present
incomplete_fragments = select (λ f. not (f.shadowed || is_present f.state))

pub record Request : Type 0 where
  pub name : Str
  pub section : Str
  pub directives : List Str

pub record Directive : Type 0 where
  pub name : Str
  pub value : Str
  pub origin : Str
  pub line : ℕ

pub record SystemdUnit : Type 0 where
  pub name : Str
  pub state : UnitState
  pub path : Str
  pub digest : Str
  pub message : Str
  pub fragments : List Fragment
  pub directives : List Directive

-- `Judgeable`
unfoldable pub judgeable : SystemdUnit → Bool
unfolding is_present
judgeable u = is_present u.state

-- `Incomplete` and `Complete`
unfoldable pub incomplete : SystemdUnit → List Fragment
unfolding incomplete_fragments
incomplete u = incomplete_fragments u.fragments

unfoldable pub complete : SystemdUnit → Bool
unfolding incomplete
complete u = length (incomplete u) == 0

-- One round of the loop of `List`.
list_step : Str → Directive → List Directive → List Directive
list_step name d out =
    if not (str_eq d.name name) then out else if is_empty d.value then [] else out ++ d ∷ []

list_from : Str → List Directive → List Directive → List Directive
unfolding list_step
list_from name [] out = out
list_from name (d ∷ ds) out = list_from name ds (list_step name d out)

-- `List`: an empty assignment clears what stands before it.
unfoldable pub list : SystemdUnit → Str → List Directive
unfolding list_from
list u name = list_from name u.directives []

-- One round of the loop of `Last`.
last_step : Str → Directive → Option Directive → Option Directive
last_step name d found =
    if not (str_eq d.name name) then found else if is_empty d.value then none else some d

last_from : Str → List Directive → Option Directive → Option Directive
unfolding last_step
last_from name [] found = found
last_from name (d ∷ ds) found = last_from name ds (last_step name d found)

-- `Last`: the final assignment wins, and an empty one restores the default.
unfoldable pub last : SystemdUnit → Str → Option Directive
unfolding last_from
last u name = last_from name u.directives none
