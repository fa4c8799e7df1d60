-- ===== src/Unit/Assemble.antt =====
-- `Assemble`, `findUnit` and `applyDropIns` of internal/collect/unit/unit.go.
pub mod Laws
pub mod Complete
pub mod Shadow
pub mod Layered
pub mod Order
use plumbline.Unit.{
  UnitState, present, absent, truncated, is_present, FragmentKind, unit_file, drop_in, drop_in_dir,
  Fragment, blank_fragment, Request, SystemdUnit,
}
use plumbline.Unit.Parse.{parse}
use plumbline.Unit.Read.{state_for, read_fragment}
use plumbline.Host.{not_exist, HostError, Answer, answer, refuse, FileInfo, DirResult, System}
use plumbline.Go.Path.{join_two, base}
use plumbline.Go.Strings.{has_suffix}
use plumbline.Base.Maps.{Map, lookup, insert}
use plumbline.Base.Sorting.{sort_by}
use plumbline.Base.{
  any, Str, codes, str_ltb, ℕ, Bool, true, false, not, ◌&&◌, ◌||◌, Option, none, some, List, [],
  ◌∷◌, ◌++◌, ◌==◌, if◌then◌else◌,
}

abbrev admin_dir : Str
admin_dir = codes "/etc/systemd/system"

abbrev runtime_dir : Str
runtime_dir = codes "/run/systemd/system"

abbrev vendor_dir : Str
vendor_dir = codes "/usr/lib/systemd/system"

abbrev legacy_vendor_dir : Str
legacy_vendor_dir = codes "/lib/systemd/system"

-- `Roots`, highest precedence first.
abbrev pub roots : List Str
roots = admin_dir ∷ runtime_dir ∷ vendor_dir ∷ legacy_vendor_dir ∷ []

abbrev pub max_drop_ins : ℕ
max_drop_ins = 1024

pub is_not_exist : HostError → Bool
is_not_exist e = elim e.class [ not_exist ↦ true | _ ↦ false ]

noted : Str → FragmentKind → UnitState → Str → Fragment
noted path kind state message = record (blank_fragment path kind) {
  state = state;
  message = message;
}

-- What `findUnit` returns: the path of the unit file, if there is one, and the places that refused.
pub record Found : Type 0 where
  pub path : Option Str
  pub refused : List Fragment

unexamined : Str → HostError → Fragment
unfolding noted
unexamined p e = noted p unit_file (state_for e) (
    codes
      "this location could not be examined, and a unit file here would replace the one that was read")

find_in : System → Str → List Str → List Fragment → Found
unfolding unexamined is_not_exist
find_in s name [] refused = record { path = none; refused = refused }
find_in s name (root ∷ rest) refused = elim (s.stat (join_two root name)) [
  | answer fi ↦ record { path = some (join_two root name); refused = refused }
  | refuse e ↦
      find_in s name rest
        (if is_not_exist e then refused else refused ++ unexamined (join_two root name) e ∷ [])
]

-- `findUnit`
unfoldable pub find_unit : System → Str → Found
unfolding find_in
find_unit s name = find_in s name roots []

pub record Candidate : Type 0 where
  pub name : Str
  pub path : Str

-- The variables of the first loop of `applyDropIns`.
pub record Layers : Type 0 where
  pub fragments : List Fragment
  pub winners : List Candidate
  pub seen_name : Map Str
  pub seen_dir : List (ℕ × ℕ)

shadowed_by : Str → Str → Fragment
shadowed_by path won = record (blank_fragment path drop_in) {
  state = present;
  shadowed = true;
  shadowed_by = won;
  message =
      codes
        "systemd ignores this file: a higher-precedence directory holds a drop-in of the same name";
}

-- A name that no directory of higher precedence holds.
admit : FileInfo → Layers → Layers
admit e l = record l {
  seen_name = insert (base e.path) e.path l.seen_name;
  winners = l.winners ++ record { name = base e.path; path = e.path } ∷ [];
}

-- One entry of a drop-in directory.
pub add_entry : FileInfo → Layers → Layers
unfolding shadowed_by admit
add_entry e l =
    if not (has_suffix (base e.path) (codes ".conf")) || e.is_dir
    then l
    else elim (lookup (base e.path) l.seen_name) [
      | some won ↦ record l { fragments = l.fragments ++ shadowed_by e.path won ∷ [] }
      | none ↦ admit e l
    ]

add_entries : List FileInfo → Layers → Layers
unfolding add_entry
add_entries [] l = l
add_entries (e ∷ es) l = add_entries es (add_entry e l)

note : Fragment → Layers → Layers
note f l = record l { fragments = l.fragments ++ f ∷ [] }

note_truncated : Str → Bool → Layers → Layers
unfolding note noted
note_truncated dir false l = l
note_truncated dir true l =
    note
      (noted dir drop_in_dir truncated (
        codes
          "the drop-in directory listing hit the entry cap, so nothing may be concluded from what is missing from it"))
      l

-- The listing of one drop-in directory.
add_listing : Str → Answer DirResult → Layers → Layers
unfolding note noted note_truncated add_entries
add_listing dir (refuse e) l =
    note
      (noted dir drop_in_dir (state_for e) (
        codes
          "the drop-in directory could not be listed, so a drop-in in it may be unaccounted for"))
      l
add_listing dir (answer res) l = add_entries res.entries (note_truncated dir res.truncated l)

pub same_inode : ℕ × ℕ → ℕ × ℕ → Bool
same_inode (a, b) (c, d) = a == c && b == d

-- A drop-in directory that is there; one that was listed under another name is skipped.
add_dir : System → Str → FileInfo → Layers → Layers
unfolding add_listing same_inode any
add_dir s dir fi l =
    if not fi.is_dir
    then l
    else if fi.ino == 0
    then add_listing dir (s.read_dir dir max_drop_ins) l
    else if any (same_inode (fi.dev, fi.ino)) l.seen_dir
    then l
    else add_listing dir (s.read_dir dir max_drop_ins)
        (record l { seen_dir = (fi.dev, fi.ino) ∷ l.seen_dir })

-- One search directory.
add_root : System → Str → Str → Layers → Layers
unfolding add_dir note noted is_not_exist
add_root s name root l =
    let dir = join_two root (name ++ codes ".d") in
    elim (s.stat dir) [
      | answer fi ↦ add_dir s dir fi l
      | refuse e ↦
          if is_not_exist e
          then l
          else note
              (noted dir drop_in_dir (state_for e) (
                codes
                  "the drop-in directory could not be examined, so a drop-in in it may be unaccounted for"))
              l
    ]

add_roots : System → Str → List Str → Layers → Layers
unfolding add_root
add_roots s name [] l = l
add_roots s name (root ∷ rest) l = add_roots s name rest (add_root s name root l)

candidate_less : Candidate → Candidate → Bool
candidate_less a b = str_ltb a.name b.name

-- One round of the second loop: a drop-in that was read is applied.
apply_winner : System → Request → Candidate → SystemdUnit → SystemdUnit
apply_winner s req w u =
    let (f, bytes) = read_fragment s w.path drop_in in
    let noted_unit = record u { fragments = u.fragments ++ f ∷ [] } in
    if is_present f.state
    then record noted_unit { directives = u.directives ++ parse bytes w.path req }
    else noted_unit

apply_winners : System → Request → List Candidate → SystemdUnit → SystemdUnit
unfolding apply_winner
apply_winners s req [] u = u
apply_winners s req (w ∷ ws) u = apply_winners s req ws (apply_winner s req w u)

-- The drop-ins that are not shadowed, in the order in which they apply.
pub collect_layers : System → Str → List Fragment → Layers
unfolding add_roots
collect_layers s name fragments =
    add_roots s name roots
      (record { fragments = fragments; winners = []; seen_name = []; seen_dir = [] })

-- `applyDropIns`
apply_drop_ins : System → Request → SystemdUnit → SystemdUnit
unfolding collect_layers apply_winners
apply_drop_ins s req u =
    let l = collect_layers s req.name u.fragments in
    apply_winners s req (sort_by candidate_less l.winners) (record u { fragments = l.fragments })

-- The unit as its own file leaves it.
base_unit : Request → List Fragment → Str → Fragment × Str → SystemdUnit
base_unit req refused path (f, bytes) = record {
  name = req.name;
  state = f.state;
  path = path;
  digest = f.digest;
  message = f.message;
  fragments = refused ++ f ∷ [];
  directives = if is_present f.state then parse bytes path req else [];
}

-- The unit whose file was found.
load_unit : System → Request → List Fragment → Str → SystemdUnit
unfolding apply_drop_ins base_unit
load_unit s req refused path =
    let u = base_unit req refused path (read_fragment s path unit_file) in
    if is_present u.state then apply_drop_ins s req u else u

absent_unit : Request → List Fragment → SystemdUnit
absent_unit req refused = record {
  name = req.name;
  state = absent;
  path = join_two vendor_dir req.name;
  digest = [];
  message = codes "no " ++ (req.name ++ codes " in any systemd unit directory");
  fragments = refused;
  directives = [];
}

-- `Assemble`
unfoldable pub assemble : System → Request → SystemdUnit
unfolding load_unit absent_unit candidate_less
assemble s req = elim (find_unit s req.name).path [
  | none ↦ absent_unit req (find_unit s req.name).refused
  | some path ↦ load_unit s req (find_unit s req.name).refused path
]
