-- ===== src/Walker/Mounts/Table.antt =====
-- What the mount table of internal/collect/walker/mounts.go says of a path, as the walk reads it and
-- as the fact of internal/fact/mounts.go reads it.
use plumbline.Base.{
  Str, str_eq, str_eq_iff, ◌≡◌, refl, sym, ap, inl, inr, Option, none, some, List, [], ◌∷◌, map,
  arith, if◌then◌else◌, Option-cases, if_holds,
}
use plumbline.Base.Maps.{
  Map, lookup, insert, keys, contains, Distinct, contains-keys, lookup-insert, insert-Distinct,
  insert_fresh, keys-append,
}
use plumbline.Fact.Mounts.{Mount, at, at_from}
use plumbline.Go.Path.{clean}
use plumbline.Go.Strings.{split}
use mathlib.Core.Path.{subst}
use plumbline.Host.{Answer, answer, refuse, ReadResult, System}
use plumbline.Walker.Mounts.{
  MountEntry, MountTable, empty_table, fstype_at, as_fact, mount_of, entry_at,
  parse_mount_info_line, add_mount, add_mounts, table_of, table_from, read_mount_table,
  mount_info_path, max_mount_info,
}

-- The entry of the last line that mounts at a point.
abbrev pub mounted_by : Str → Option (Str × MountEntry) → Option MountEntry → Option MountEntry
mounted_by want none later = later
mounted_by want (some (point, e)) (some f) = some f
mounted_by want (some (point, e)) none = if str_eq point want then some e else none

abbrev pub last_mount : Str → List Str → Option MountEntry
last_mount want [] = none
last_mount want (line ∷ lines) =
    mounted_by want (parse_mount_info_line line) (last_mount want lines)

abbrev or_else : Option MountEntry → Option MountEntry → Option MountEntry
or_else none b = b
or_else (some a) b = some a

or_else-mounted_by :
    (want : Str) (o : Option (Str × MountEntry)) (later b : Option MountEntry)
    → or_else (mounted_by want o later) b ≡ or_else later (or_else (mounted_by want o none) b)
or_else-mounted_by want none none b = refl
or_else-mounted_by want none (some f) b = refl
or_else-mounted_by want (some (point, e)) none b = refl
or_else-mounted_by want (some (point, e)) (some f) b = refl

lookup-add_mount :
    (want : Str) (o : Option (Str × MountEntry)) (t : MountTable)
    → lookup want (add_mount o t).by_point
      ≡ or_else (mounted_by want o none) (lookup want t.by_point)
unfolding add_mount
lookup-add_mount want none t = refl
lookup-add_mount want (some (point, e)) t = ground (arith, lookup-insert point want e t.by_point)

without_else : (o : Option MountEntry) → or_else o none ≡ o
without_else none = refl
without_else (some e) = refl

lookup-add_mounts :
    (want : Str) (lines : List Str) (t : MountTable)
    → lookup want (add_mounts lines t).by_point
      ≡ or_else (last_mount want lines) (lookup want t.by_point)
unfolding add_mounts
lookup-add_mounts want [] t = refl
lookup-add_mounts want (line ∷ lines) t = cc (
  lookup-add_mounts want lines (add_mount (parse_mount_info_line line) t),
  lookup-add_mount want (parse_mount_info_line line) t,
  or_else-mounted_by want (parse_mount_info_line line) (last_mount want lines)
      (lookup want t.by_point),
)

-- The order of the table is the order in which its points were first met.
abbrev InOrder : MountTable → Type 0
InOrder t = (t.order ≡ keys t.by_point) × Distinct (keys t.by_point)

insert_known :
    (k : Str) (v w : MountEntry) (m : Map MountEntry)
    → lookup k m ≡ some w
    → keys (insert k v m) ≡ keys m
unfolding lookup insert keys
insert_known k v w [] h = ground arith
insert_known k v w ((j, x) ∷ m) h = ground (arith, insert_known k v w m)

add_mount-InOrder :
    (o : Option (Str × MountEntry)) (t : MountTable) → InOrder t → InOrder (add_mount o t)
unfolding add_mount
add_mount-InOrder none t h = h
add_mount-InOrder (some (point, e)) t h = elim (Option-cases (lookup point t.by_point)) [
  | inl p ↦ (
    ground (arith, p, h.0, insert_fresh point e t.by_point p, keys-append t.by_point point e),
    insert-Distinct point e t.by_point h.1,
  )
  | inr (w, p) ↦ (
    ground (arith, p, h.0, insert_known point e w t.by_point p),
    insert-Distinct point e t.by_point h.1,
  )
]

add_mounts-InOrder : (lines : List Str) (t : MountTable) → InOrder t → InOrder (add_mounts lines t)
unfolding add_mounts
add_mounts-InOrder [] t h = h
add_mounts-InOrder (line ∷ lines) t h =
    add_mounts-InOrder lines (add_mount (parse_mount_info_line line) t)
      (add_mount-InOrder (parse_mount_info_line line) t h)

module _ (f : Str → Mount) (named : (k : Str) → (f k).point ≡ k) where
  at_from-map :
      (want : Str) (ks : List Str) (found : Option Mount)
      → Distinct ks
      → at_from want (map f ks) found ≡ (if contains ks want then some (f want) else found)
  unfolding at_from contains
  at_from-map want [] found d = refl
  at_from-map want (k ∷ ks) found d = ground (
    arith,
    named k,
    str_eq_iff k want,
    ap f {x = k} {y = want},
    ap (contains ks) {x = k} {y = want},
    at_from-map want ks (if str_eq k want then some (f k) else found) d.1,
  )

-- What a read of mountinfo says of a path: the entry of the last line that mounts at it, or nothing
-- where there was no whole table.
abbrev pub mounted_at : Answer ReadResult → Str → Option MountEntry
mounted_at (refuse e) want = none
mounted_at (answer res) want =
    if res.truncated then none else last_mount want (split b'\n' res.bytes)

abbrev pub mount_at : Str → Option MountEntry → Option Mount
mount_at point none = none
mount_at point (some e) =
    some
      (record { point = point; fstype = e.fstype; options = e.options; super_opts = e.super_opts })

abbrev pub type_of : Option MountEntry → Option Str
type_of none = none
type_of (some e) = some e.fstype

table_from-InOrder : (a : Answer ReadResult) → InOrder (table_from a)
unfolding table_from table_of keys
table_from-InOrder (refuse e) = (refl, tt)
table_from-InOrder (answer res) =
    if_holds InOrder res.truncated (refl, tt)
      (add_mounts-InOrder (split b'\n' res.bytes) empty_table (refl, tt))

lookup-table_from :
    (a : Answer ReadResult) (want : Str) → lookup want (table_from a).by_point ≡ mounted_at a want
unfolding table_from table_of lookup
lookup-table_from (refuse e) want = refl
lookup-table_from (answer res) want = ground (
  arith,
  lookup-add_mounts want (split b'\n' res.bytes) empty_table,
  without_else (last_mount want (split b'\n' res.bytes)),
)

module _ (s : System) where
  -- The walk and the checks that read the fact see one mount at a path: what the last line of
  -- mountinfo for that point says, and nothing where the table was refused or came back truncated.
  pub at-read_mount_table :
      (path : Str)
      → (fstype_at (read_mount_table s) path
          ≡ type_of (mounted_at (s.read_file mount_info_path max_mount_info) (clean path)))
        × (at (as_fact (read_mount_table s)) path
            ≡ mount_at
                (clean path)
                (mounted_at (s.read_file mount_info_path max_mount_info) (clean path)))
  unfolding fstype_at at as_fact mount_of entry_at read_mount_table
  at-read_mount_table path =
      let t = read_mount_table s in
      let found = lookup-table_from (s.read_file mount_info_path max_mount_info) (clean path) in
      let listed = contains-keys (clean path) t.by_point in
      let order = table_from-InOrder (s.read_file mount_info_path max_mount_info) in
      let scan =
        at_from-map (mount_of t) (λ k. refl) (clean path) t.order none
          (subst Distinct (sym order.0) order.1) in
      (ground (arith, found), ground (arith, found, listed, order.0, scan))
