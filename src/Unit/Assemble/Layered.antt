-- ===== src/Unit/Assemble/Layered.antt =====
-- The loops of `applyDropIns` of internal/collect/unit/unit.go over the directories and their entries.
use plumbline.Unit.Assemble.Shadow.{
  first_named, listed, read_once, listing, Winning, same-Winning, add_entry-Winning,
}
use plumbline.Unit.{Fragment}
use plumbline.Unit.Assemble.{
  Layers, max_drop_ins, roots, is_not_exist, collect_layers, admit, add_entry, add_entries, note,
  note_truncated, add_listing, add_dir, add_root, add_roots, same_inode,
}
use plumbline.Host.{Answer-cases, Answer, answer, refuse, System, FileInfo, DirResult}
use plumbline.Go.Path.{join_two}
use plumbline.Base.Maps.{lookup, keys}
use mathlib.Core.Path.{subst}
use mathlib.Core.List.{append_assoc, append-nil}
use plumbline.Base.{
  any, Str, codes, ℕ, ◌≡◌, refl, sym, ap, ◌∙◌, inl, inr, Bool, true, false, List, [], ◌∷◌, ◌++◌,
  arith, ◌==◌, Bool-cases,
}

add_entry-seen_dir : (e : FileInfo) (l : Layers) → (add_entry e l).seen_dir ≡ l.seen_dir
unfolding add_entry admit
add_entry-seen_dir e l = ground arith

-- The layers after `es`, with the directories read.
record After (es : List FileInfo) (seen : List (ℕ × ℕ)) (l : Layers) : Type 0 where
  winning : Winning es l
  dirs : l.seen_dir ≡ seen

add_entries-After :
    (new es : List FileInfo) (seen : List (ℕ × ℕ)) (l : Layers)
    → After es seen l
    → After (es ++ new) seen (add_entries new l)
unfolding add_entries
add_entries-After [] es seen l h = rw (append-nil es) h
add_entries-After (e ∷ new) es seen l h = rw (sym (append_assoc es (e ∷ []) new)) (
    add_entries-After new (es ++ e ∷ []) seen (add_entry e l) (record {
      winning = add_entry-Winning es e l h.winning;
      dirs = add_entry-seen_dir e l ∙ h.dirs;
    }))

note-After :
    (f : Fragment) (es : List FileInfo) (seen : List (ℕ × ℕ)) (l : Layers)
    → After es seen l
    → After es seen (note f l)
unfolding note
note-After f es seen l h = record {
  winning = same-Winning es l _ refl refl h.winning;
  dirs = h.dirs;
}

note_truncated-After :
    (dir : Str) (b : Bool) (es : List FileInfo) (seen : List (ℕ × ℕ)) (l : Layers)
    → After es seen l
    → After es seen (note_truncated dir b l)
unfolding note_truncated
note_truncated-After dir true es seen l h = note-After _ es seen l h
note_truncated-After dir false es seen l h = h

add_listing-After :
    (dir : Str) (a : Answer DirResult) (es : List FileInfo) (seen : List (ℕ × ℕ)) (l : Layers)
    → After es seen l
    → After (es ++ listed a) seen (add_listing dir a l)
unfolding add_listing listed
add_listing-After dir (refuse e) es seen l h = rw (append-nil es) (note-After _ es seen l h)
add_listing-After dir (answer res) es seen l h =
    add_entries-After res.entries es seen (note_truncated dir res.truncated l)
      (note_truncated-After dir res.truncated es seen l h)

add_dir-After :
    (s : System) (dir : Str) (fi : FileInfo) (es : List FileInfo) (seen : List (ℕ × ℕ)) (l : Layers)
    → After es seen l
    → After
        (es ++ (read_once s dir seen (answer fi)).0)
        (read_once s dir seen (answer fi)).1
        (add_dir s dir fi l)
unfolding add_dir read_once
add_dir-After s dir fi es seen l h = elim (Bool-cases fi.is_dir) [
  | inr d ↦ rw (d, append-nil es) h
  | inl d ↦ elim (Bool-cases (fi.ino == 0)) [
    | inl z ↦ rw (d, z) (add_listing-After dir (s.read_dir dir max_drop_ins) es seen l h)
    | inr z ↦ elim (Bool-cases (any (same_inode (fi.dev, fi.ino)) seen)) [
      | inl m ↦ rw (d, z, ap (any (same_inode (fi.dev, fi.ino))) h.dirs ∙ m, m, append-nil es) h
      | inr m ↦
          rw (d, z, ap (any (same_inode (fi.dev, fi.ino))) h.dirs ∙ m, m)
            (add_listing-After dir (s.read_dir dir max_drop_ins) es ((fi.dev, fi.ino) ∷ seen)
              (record l { seen_dir = (fi.dev, fi.ino) ∷ l.seen_dir })
              (record {
                winning = same-Winning es l _ refl refl h.winning;
                dirs = ap (λ ds. (fi.dev, fi.ino) ∷ ds) h.dirs;
              }))
    ]
  ]
]

add_root-After :
    (s : System) (name root : Str) (es : List FileInfo) (seen : List (ℕ × ℕ)) (l : Layers)
    → After es seen l
    → (let dir = join_two root (name ++ codes ".d") in
        After
          (es ++ (read_once s dir seen (s.stat dir)).0)
          (read_once s dir seen (s.stat dir)).1
          (add_root s name root l))
unfolding add_root
add_root-After s name root es seen l h =
    elim (Answer-cases (s.stat (join_two root (name ++ codes ".d")))) [
      | inl (fi, e) ↦
          rw (e, add_root) (add_dir-After s (join_two root (name ++ codes ".d")) fi es seen l h)
      | inr (err, e) ↦ elim (Bool-cases (is_not_exist err)) [
        | inl b ↦ rw (e, b, add_root) (unfold read_once in rw (append-nil es) h)
        | inr b ↦
            rw (e, b, add_root) (unfold read_once in rw (append-nil es) (note-After _ es seen l h))
      ]
    ]

add_roots-After :
    (s : System) (name : Str) (rs : List Str) (es : List FileInfo) (seen : List (ℕ × ℕ))
    (l : Layers)
    → After es seen l
    → Winning (es ++ listing s name seen rs) (add_roots s name rs l)
unfolding add_roots listing
add_roots-After s name [] es seen l h = rw (append-nil es) h.winning
add_roots-After s name (root ∷ rest) es seen l h =
    let dir = join_two root (name ++ codes ".d") in
    let once = read_once s dir seen (s.stat dir) in
    subst (λ m. Winning m (add_roots s name rest (add_root s name root l)))
      (append_assoc es once.0 (listing s name once.1 rest))
      (add_roots-After s name rest (es ++ once.0) once.1 (add_root s name root l)
        (add_root-After s name root es seen l h))

-- The layers of a unit, whatever fragments were noted before.
pub collect_layers-Winning :
    (s : System) (name : Str) (fs : List Fragment)
    → Winning (listing s name [] roots) (collect_layers s name fs)
unfolding collect_layers lookup keys first_named
collect_layers-Winning s name fs =
    add_roots-After s name roots [] []
      (record { fragments = fs; winners = []; seen_name = []; seen_dir = [] })
      (record {
        winning = record { entries = refl; distinct = tt; first = λ b. refl; holders = tt };
        dirs = refl;
      })
