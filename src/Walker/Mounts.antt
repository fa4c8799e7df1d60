-- ===== src/Walker/Mounts.antt =====
-- internal/collect/walker/mounts.go: the kernel's mount table and the filesystem types to keep out of.
pub mod Escapes
pub mod Table
use plumbline.Base.{
  any, Str, codes, is_empty, str_eq, ℕ, zero, suc, ◌+◌, ◌-◌, ◌*◌, Bool, true, false, ◌&&◌, Option,
  none, some, List, [], ◌∷◌, ◌++◌, map, ltb, leb, ◌==◌, if◌then◌else◌, length,
}
use plumbline.Base.Text.{has_prefix}
use plumbline.Base.Maps.{Map, lookup, insert}
use plumbline.Fact.Mounts.{Mount, Mounts}
use plumbline.Go.Path.{clean}
use plumbline.Go.Space.{trim_space, fields}
use plumbline.Go.Strings.{split, has_suffix, drop_last}
use plumbline.Host.{Answer, answer, refuse, ReadResult, System}

abbrev pub mount_info_path : Str
mount_info_path = codes "/proc/self/mountinfo"

abbrev pub max_mount_info : ℕ
max_mount_info = 4194304

-- `skipFSTypes`
abbrev pub skip_fs_types : List Str
skip_fs_types = map codes (
    "proc" ∷ "sysfs" ∷ "devtmpfs" ∷ "devpts" ∷ "cgroup*" ∷ "tracefs" ∷ "debugfs" ∷ "fuse*" ∷ "nfs*"
    ∷ "cifs" ∷ "smb*" ∷ "autofs" ∷ "rpc_pipefs" ∷ "binfmt_misc" ∷ "securityfs" ∷ "pstore" ∷ "bpf"
    ∷ "configfs" ∷ "mqueue" ∷ "hugetlbfs" ∷ [])

-- One round of the loop of `SkippedFSType`.
unfoldable pub fits : Str → Str → Bool
unfolding has_suffix has_prefix drop_last
fits fstype pat =
    if has_suffix pat (codes "*") then has_prefix fstype (drop_last pat) else str_eq fstype pat

-- `SkippedFSType`
unfoldable pub skipped_fs_type : Str → Bool
unfolding fits
skipped_fs_type fstype = any (fits fstype) skip_fs_types

-- `mountEntry`
pub record MountEntry : Type 0 where
  pub fstype : Str
  pub options : List Str
  pub super_opts : List Str

-- `mountTable`
pub record MountTable : Type 0 where
  pub by_point : Map MountEntry
  pub order : List Str
  pub known : Bool

abbrev pub empty_table : MountTable
empty_table = record { by_point = []; order = []; known = false }

-- `fstypeAt`
unfoldable pub fstype_at : MountTable → Str → Option Str
fstype_at t dir = elim (lookup (clean dir) t.by_point) [ none ↦ none | some e ↦ some e.fstype ]

-- The entry at a point of the table; Go's map gives the zero value where there is none.
unfoldable pub entry_at : MountTable → Str → MountEntry
entry_at t point = elim (lookup point t.by_point) [
  | some e ↦ e
  | none ↦ record { fstype = []; options = []; super_opts = [] }
]

unfoldable pub mount_of : MountTable → Str → Mount
mount_of t point = record {
  point = point;
  fstype = (entry_at t point).fstype;
  options = (entry_at t point).options;
  super_opts = (entry_at t point).super_opts;
}

-- `asFact`
unfoldable pub as_fact : MountTable → Mounts
as_fact t = record { entries = map (mount_of t) t.order; known = t.known }

-- A digit of base 8.
unfoldable pub octal_digit : ℕ → Bool
octal_digit c = leb b'0' c && leb c b'7'

-- `strconv.ParseUint(…, 8, 8)` of three bytes.
unfoldable pub parse_octal : ℕ → ℕ → ℕ → Option ℕ
unfolding octal_digit
parse_octal a b c =
    let n = (a - b'0') * 64 + (b - b'0') * 8 + (c - b'0') in
    if octal_digit a && octal_digit b && octal_digit c && ltb n 256 then some n else none

-- The byte that the three digits at the front stand for.
unfoldable pub escape_at : Str → Option ℕ
unfolding parse_octal
escape_at (x ∷ y ∷ z ∷ cs) = parse_octal x y z
escape_at (x ∷ y ∷ []) = none
escape_at (x ∷ []) = none
escape_at [] = none

-- The loop of `unescapeMountField`: `skip` bytes of an escape are still to be passed over.
unfoldable pub unescape_from : ℕ → Str → Str
unfolding escape_at
unescape_from (suc k) [] = []
unescape_from (suc k) (c ∷ cs) = unescape_from k cs
unescape_from zero [] = []
unescape_from zero (c ∷ cs) = elim (c == b'\\') [
  | false ↦ c ∷ unescape_from zero cs
  | true ↦ elim (escape_at cs) [
    | none ↦ c ∷ unescape_from zero cs
    | some n ↦ n ∷ unescape_from 3 cs
  ]
]

-- `unescapeMountField`
unfoldable pub unescape_mount_field : Str → Str
unfolding unescape_from
unescape_mount_field s = if any (λ c. c == b'\\') s then unescape_from 0 s else s

-- The loop of `splitOptions`.
keep_options : List Str → List Str
unfolding trim_space
keep_options [] = []
keep_options (p ∷ ps) =
    let rest = keep_options ps in if is_empty (trim_space p) then rest else trim_space p ∷ rest

-- `splitOptions`; Go's nil is the empty list.
unfoldable pub split_options : Str → List Str
unfolding keep_options split
split_options s = if is_empty s then [] else keep_options (split b',' s)

-- What stands behind the first field "-".
after_dash : List Str → Option (List Str)
after_dash [] = none
after_dash (f ∷ fs) = let rest = after_dash fs in if str_eq f (codes "-") then some fs else rest

-- The superblock options, where the line has them.
super_options : List Str → List Str
unfolding split_options
super_options [] = []
super_options (f ∷ fs) = split_options f

-- The type and the superblock options, behind the separator.
with_type : Str → Str → Option (List Str) → Option (Str × MountEntry)
unfolding unescape_mount_field clean split_options super_options
with_type point options (some (fstype ∷ source ∷ more)) = some (
  clean (unescape_mount_field point),
  record { fstype = fstype; options = split_options options; super_opts = super_options more },
)
with_type point options (some (fstype ∷ [])) = none
with_type point options (some []) = none
with_type point options none = none

-- The fields of a line: the mount point is at index 4, its options at 5, the separator behind.
mount_fields : List Str → Option (Str × MountEntry)
unfolding with_type after_dash
mount_fields (id ∷ parent ∷ device ∷ root ∷ point ∷ options ∷ rest) =
    if ltb (length rest) 4 then none else with_type point options (after_dash rest)
mount_fields _ = none

-- `parseMountInfoLine`
unfoldable pub parse_mount_info_line : Str → Option (Str × MountEntry)
unfolding mount_fields fields
parse_mount_info_line line = mount_fields (fields line)

-- One round of the loop of `readMountTable`.
unfoldable pub add_mount : Option (Str × MountEntry) → MountTable → MountTable
add_mount none t = t
add_mount (some (point, e)) t = record t {
  order = elim (lookup point t.by_point) [ none ↦ t.order ++ point ∷ [] | some old ↦ t.order ];
  by_point = insert point e t.by_point;
}

unfoldable pub add_mounts : List Str → MountTable → MountTable
add_mounts [] t = t
add_mounts (line ∷ lines) t = add_mounts lines (add_mount (parse_mount_info_line line) t)

unfoldable pub table_of : ReadResult → MountTable
table_of res =
    if res.truncated
    then empty_table
    else record (add_mounts (split b'\n' res.bytes) empty_table) { known = true }

table_from : Answer ReadResult → MountTable
unfolding table_of
table_from (refuse e) = empty_table
table_from (answer res) = table_of res

-- `readMountTable`
unfoldable pub read_mount_table : System → MountTable
unfolding table_from
read_mount_table s = table_from (s.read_file mount_info_path max_mount_info)
