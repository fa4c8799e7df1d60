-- ===== src/Unit/Assemble/Complete.antt =====
-- What a complete unit says about the places in which internal/collect/unit/unit.go looked.
use plumbline.Unit.{
  Request, drop_in, Fragment, SystemdUnit, incomplete_fragments, incomplete, complete, is_present,
  unit_file,
}
use plumbline.Unit.Assemble.{
  max_drop_ins, roots, is_not_exist, noted, unexamined, find_in, find_unit, Candidate, Layers,
  apply_winner, base_unit, apply_winners, apply_drop_ins, collect_layers, candidate_less, load_unit,
  absent_unit, assemble, add_entry, add_entries, note, note_truncated, add_listing, add_dir,
  add_root, add_roots, shadowed_by,
}
use plumbline.Unit.Read.{state_for, read_fragment}
use plumbline.Host.{Answer-cases, HostError, Answer, answer, refuse, System, FileInfo, DirResult}
use plumbline.Go.Path.{join_two, base}
use plumbline.Base.Maps.{lookup}
use plumbline.Base.Sorting.{sort_by}
use plumbline.Base.{
  select, Str, codes, ℕ, ◌+◌, ◌≤◌, ◌≡◌, inl, inr, Bool, true, false, Option, none, some, List, [],
  ◌∷◌, ◌++◌, arith, Bool-cases, Option-cases, length,
}

-- The number of the fragments that were not read.
unread : List Fragment → ℕ
unfolding incomplete_fragments
unread fs = length (incomplete_fragments fs)

unread-append : (fs gs : List Fragment) → unread (fs ++ gs) ≡ unread fs + unread gs
unfolding unread incomplete_fragments select
unread-append [] gs = omega arith
unread-append (f ∷ fs) gs = ground (arith, unread-append fs gs)

unread-append_le : (fs gs : List Fragment) → unread fs ≤ unread (fs ++ gs)
unread-append_le fs gs = omega (arith, unread-append fs gs)

add_entry-unread :
    (e : FileInfo) (l : Layers) → unread l.fragments ≤ unread (add_entry e l).fragments
unfolding add_entry
add_entry-unread e l = elim (Option-cases (lookup (base e.path) l.seen_name)) [
  | inl h ↦ ground arith
  | inr (won, h) ↦ ground (arith, unread-append_le l.fragments (shadowed_by e.path won ∷ []))
]

add_entries-unread :
    (es : List FileInfo) (l : Layers) → unread l.fragments ≤ unread (add_entries es l).fragments
unfolding add_entries
add_entries-unread [] l = omega arith
add_entries-unread (e ∷ es) l =
    omega (arith, add_entry-unread e l, add_entries-unread es (add_entry e l))

note-unread : (f : Fragment) (l : Layers) → unread l.fragments ≤ unread (note f l).fragments
unfolding note
note-unread f l = unread-append_le l.fragments (f ∷ [])

note_truncated-unread :
    (dir : Str) (b : Bool) (l : Layers)
    → unread l.fragments ≤ unread (note_truncated dir b l).fragments
unfolding note_truncated
note_truncated-unread dir true l = note-unread _ l
note_truncated-unread dir false l = omega arith

add_listing-unread :
    (dir : Str) (a : Answer DirResult) (l : Layers)
    → unread l.fragments ≤ unread (add_listing dir a l).fragments
unfolding add_listing
add_listing-unread dir (refuse e) l = note-unread _ l
add_listing-unread dir (answer res) l = omega (
  arith,
  note_truncated-unread dir res.truncated l,
  add_entries-unread res.entries (note_truncated dir res.truncated l),
)

add_dir-unread :
    (s : System) (dir : Str) (fi : FileInfo) (l : Layers)
    → unread l.fragments ≤ unread (add_dir s dir fi l).fragments
unfolding add_dir
add_dir-unread s dir fi l = ground (
  arith,
  add_listing-unread dir (s.read_dir dir max_drop_ins) l,
  add_listing-unread dir (s.read_dir dir max_drop_ins)
      (record l { seen_dir = (fi.dev, fi.ino) ∷ l.seen_dir }),
)

add_root-unread :
    (s : System) (name root : Str) (l : Layers)
    → unread l.fragments ≤ unread (add_root s name root l).fragments
unfolding add_root
add_root-unread s name root l = elim (Answer-cases (s.stat (join_two root (name ++ codes ".d")))) [
  | inl (fi, e) ↦ rw (e, add_root) (add_dir-unread s (join_two root (name ++ codes ".d")) fi l)
  | inr (err, e) ↦ elim (Bool-cases (is_not_exist err)) [
    | inl b ↦ rw (e, b, add_root) (omega arith)
    | inr b ↦ rw (e, b, add_root) (note-unread _ l)
  ]
]

add_roots-unread :
    (s : System) (name : Str) (rs : List Str) (l : Layers)
    → unread l.fragments ≤ unread (add_roots s name rs l).fragments
unfolding add_roots
add_roots-unread s name [] l = omega arith
add_roots-unread s name (root ∷ rest) l =
    omega
      (arith, add_root-unread s name root l, add_roots-unread s name rest (add_root s name root l))

apply_winner-unread :
    (s : System) (req : Request) (w : Candidate) (u : SystemdUnit)
    → unread u.fragments ≤ unread (apply_winner s req w u).fragments
unfolding apply_winner
apply_winner-unread s req w u =
    ground (arith, unread-append_le u.fragments ((read_fragment s w.path drop_in).0 ∷ []))

apply_winners-unread :
    (s : System) (req : Request) (ws : List Candidate) (u : SystemdUnit)
    → unread u.fragments ≤ unread (apply_winners s req ws u).fragments
unfolding apply_winners
apply_winners-unread s req [] u = omega arith
apply_winners-unread s req (w ∷ ws) u =
    omega
      (arith, apply_winner-unread s req w u, apply_winners-unread s req ws (apply_winner s req w u))

apply_drop_ins-unread :
    (s : System) (req : Request) (u : SystemdUnit)
    → unread u.fragments ≤ unread (apply_drop_ins s req u).fragments
unfolding apply_drop_ins collect_layers
apply_drop_ins-unread s req u =
    let l0 : Layers = record {
      fragments = u.fragments;
      winners = [];
      seen_name = [];
      seen_dir = [];
    } in
    let l = collect_layers s req.name u.fragments in
    omega (
      arith,
      add_roots-unread s req.name roots l0,
      apply_winners-unread s req (sort_by candidate_less l.winners)
          (record u { fragments = l.fragments }),
    )

load_unit-unread :
    (s : System) (req : Request) (refused : List Fragment) (path : Str)
    → unread refused ≤ unread (load_unit s req refused path).fragments
unfolding load_unit base_unit
load_unit-unread s req refused path =
    let r = read_fragment s path unit_file in
    let u = base_unit req refused path r in
    ground (arith, unread-append_le refused (r.0 ∷ []), apply_drop_ins-unread s req u)

assemble-unread :
    (s : System) (req : Request)
    → unread (find_unit s req.name).refused ≤ unread (assemble s req).fragments
unfolding assemble absent_unit
assemble-unread s req = elim (Option-cases (find_unit s req.name).path) [
  | inl e ↦ rw (e, assemble) (omega arith)
  | inr (path, e) ↦ rw (e, assemble) (load_unit-unread s req (find_unit s req.name).refused path)
]

-- The search for a unit file in places of falling precedence, each of which answered: nothing is there
-- before the place that is found.
pub data Searched (s : System) (name : Str) : List Str → Option Str → Type 0 where
  nowhere : Searched s name [] none
  here :
      {root : Str} {rest : List Str} {fi : FileInfo}
      → s.stat (join_two root name) ≡ answer fi
      → Searched s name (root ∷ rest) (some (join_two root name))
  further :
      {root : Str} {rest : List Str} {found : Option Str} {e : HostError}
      → s.stat (join_two root name) ≡ refuse e
      → is_not_exist e ≡ true
      → Searched s name rest found
      → Searched s name (root ∷ rest) found

-- A place that could not be examined is not read.
state_for-is_not_exist : (e : HostError) → is_present (state_for e) ≡ false
unfolding state_for is_present
state_for-is_not_exist e = ground arith

unexamined-unread : (p : Str) (e : HostError) → unread (unexamined p e ∷ []) ≡ 1
unfolding unread incomplete_fragments select unexamined noted
unexamined-unread p e = ground (arith, state_for-is_not_exist e)

find_in-unread :
    (s : System) (name : Str) (rs : List Str) (refused : List Fragment)
    → unread refused ≤ unread (find_in s name rs refused).refused
unfolding find_in
find_in-unread s name [] refused = omega arith
find_in-unread s name (root ∷ rest) refused = elim (Answer-cases (s.stat (join_two root name))) [
  | inl (fi, e) ↦ rw (e, find_in) (omega arith)
  | inr (err, e) ↦ elim (Bool-cases (is_not_exist err)) [
    | inl b ↦ rw (e, b, find_in) (find_in-unread s name rest refused)
    | inr b ↦
        rw (e, b, find_in)
          (omega (
            arith,
            unread-append_le refused (unexamined (join_two root name) err ∷ []),
            find_in-unread s name rest (refused ++ unexamined (join_two root name) err ∷ []),
          ))
  ]
]

find_in-Searched :
    (s : System) (name : Str) (rs : List Str) (refused : List Fragment)
    → unread (find_in s name rs refused).refused ≡ 0
    → Searched s name rs (find_in s name rs refused).path
unfolding find_in
find_in-Searched s name [] refused h = nowhere
find_in-Searched s name (root ∷ rest) refused h =
    elim (Answer-cases (s.stat (join_two root name))) [
      | inl (fi, e) ↦ rw (e, find_in) (here e)
      | inr (err, e) ↦ elim (Bool-cases (is_not_exist err)) [
        | inl b ↦
            rw (e, b, find_in) (further e b (find_in-Searched s name rest refused (ground arith)))
        | inr b ↦ absurd (
            ground (
              arith,
              unexamined-unread (join_two root name) err,
              unread-append refused (unexamined (join_two root name) err ∷ []),
              find_in-unread s name rest (refused ++ unexamined (join_two root name) err ∷ []),
            ))
      ]
    ]

-- In a complete unit nothing was refused on the way to the unit file: where it was not found, or in every
-- place that would have replaced the one that was found, the host answered that nothing is there.
pub assemble-Searched :
    (s : System) (req : Request)
    → complete (assemble s req) ≡ true
    → Searched s req.name roots (find_unit s req.name).path
unfolding complete incomplete find_unit unread
assemble-Searched s req h =
    find_in-Searched s req.name roots [] (ground (arith, assemble-unread s req))
