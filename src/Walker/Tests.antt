-- ===== src/Walker/Tests.antt =====
-- A walk of a small filesystem.
use plumbline.Base.{
  any, Str, codes, str_eq, str_ltb, ℕ, ◌≡◌, refl, sym, ap, ◌∙◌, ◌⊎◌, inl, inr, Bool, true, false,
  not, ◌||◌, none, some, List, [], ◌∷◌, map, arith, ◌==◌, if◌then◌else◌, length, Both,
}
use Prim.Native.String.{String}
use mathlib.Core.List.{Memᴰ}
use mathlib.Core.Path.{subst}
use plumbline.Base.Maps.{lookup, insert}
use plumbline.Go.Space.{fields, trim_space}
use plumbline.Go.Strings.{split}
use plumbline.Fact.Fs.{FsRow}
use plumbline.Fact.Mounts.{at}
use plumbline.Go.Path.{clean}
use plumbline.Host.{not_exist, HostError, FileInfo, DirResult, Answer, answer, refuse, System}
use plumbline.Walker.Mounts.{
  table_of, add_mounts, add_mount, parse_mount_info_line, split_options, fstype_at, as_fact,
  read_mount_table, unescape_mount_field, mount_info_path, max_mount_info, skipped_fs_type,
}
use plumbline.Walker.Mounts.Escapes.{escape_field, unescape_mount_field-escape_field}
use plumbline.Walker.Mounts.Table.{at-read_mount_table, mounted_at, mount_at, type_of}
use plumbline.Walker.Questions.{
  Interest, validate_interest, validate_tally, offer_interest, offer_tally, fold, folded, hits_cap,
  keys_cap, row_of, matches, key_of, default_row, bucket_at, bump, new_tally_state,
}
use plumbline.Walker.State.{
  DevIno, Config, Clock, roots_of, identified, dev_ino, outside_scope, offer, inodes_cap, depth_cap,
  budget_of, over_budget, over_budget_sampled, decline_boundary, truncate_all, stop_with,
  same_inode,
}
use plumbline.Walker.Scan.{Inside}
use plumbline.Walker.Traverse.{
  walk_root, walk_found, descend, walk_stack, round, enter, visited_before, push_children,
  count_listing, scan_entries, child,
}
use plumbline.Base.Sorting.{sort_by, insert_sorted}
use plumbline.Walker.Run.{
  Result, Walked, walked, refused, out_of_fuel, config_error, first_invalid, walk, ended,
  walk_roots, start, fresh_state, finish, finish_recording, finish_folding, new_recording,
  new_folding,
}
use plumbline.Walker.Reach.{crosses, Listed, top, sub, Found}
use plumbline.Walker.Report.{IsReport, walk-IsReport}
use plumbline.Walker.Covered.{Apart}
use plumbline.Fact.{Set}
use plumbline.Walker.Collector.{Questions, register, WalkFact, collect, wrote}
use plumbline.Walker.Collector.Produced.{
  Built, empty, with_interest, AllPresent, collect-AllPresent,
}
use plumbline.Walker.Asks.{walk-same}
use plumbline.Walker.Complete.{CompleteOf, CompleteTally, walk-Complete}

abbrev inode : String → Bool → ℕ → ℕ → FileInfo
inode path is_dir dev ino = record {
  path = codes path;
  mode = 493;
  uid = 7;
  gid = 0;
  size = 0;
  mod_time = 0;
  is_dir = is_dir;
  is_regular = not is_dir;
  is_symlink = false;
  dev = dev;
  ino = ino;
}

abbrev root_dir : FileInfo
root_dir = inode "/" true 1 2

abbrev var_dir : FileInfo
var_dir = inode "/var" true 1 3

abbrev other_disk : FileInfo
other_disk = inode "/data" true 9 2

abbrev root_entries : List FileInfo
root_entries = var_dir ∷ other_disk ∷ inode "/boot.cfg" false 1 4 ∷ []

abbrev var_entries : List FileInfo
var_entries = inode "/var/log" false 1 5 ∷ []

abbrev mount_text : Str
mount_text =
    codes
      "36 35 98:0 / /data rw,noatime shared:1 - ext3 /dev/root rw\n40 36 0:3 / /srv/my\\040share rw - nfs4 host:/x rw\n"

abbrev listing : Str → List FileInfo → Answer DirResult
listing path entries = answer (record { path = path; entries = entries; truncated = false })

abbrev gone : HostError
gone = record { class = not_exist; text = [] }

abbrev host : System
host = record {
  stat = λ p. if str_eq p (codes "/") then answer root_dir else refuse gone;
  read_file = λ p n. answer (record {
    path = p;
    bytes = mount_text;
    size = length mount_text;
    truncated = false;
    sha256 = [];
  });
  read_opaque = λ p n. refuse gone;
  read_dir = λ p n.
      if str_eq p (codes "/")
      then listing p root_entries
      else if str_eq p (codes "/var")
      then listing p var_entries
      else refuse gone;
  read_link = λ p. refuse gone;
}

abbrev config : Config
config = record {
  interests =
      record {
        name = codes "regular";
        matches = some (λ fi. fi.is_regular);
        row = none;
        max_hits = 10;
      }
      ∷ [];
  tallies = record { name = codes "owner_uid"; key = some (λ fi. some fi.uid); max_keys = 0 } ∷ [];
  roots = [];
  cross_fs = false;
  max_depth = 0;
  max_inodes = 100;
  budget = 0;
  max_dir_entries = 0;
}

abbrev clock : Clock
clock = record { now = λ n. n; cancelled = λ n. false }

config-fits : config_error config ≡ none
unfolding config_error first_invalid validate_interest validate_tally any
config-fits = refl

walk-IsReport_example : (r : Result) × (walk config clock host ≡ walked r) × IsReport config host r
walk-IsReport_example = walk-IsReport config clock host config-fits

unescape_mount_field-escape_field_example :
    unescape_mount_field (escape_field (λ c. c == 32 || c == b'\\') (codes "/srv/my share"))
    ≡ codes "/srv/my share"
unescape_mount_field-escape_field_example =
    unescape_mount_field-escape_field (λ c. c == 32 || c == b'\\') refl (codes "/srv/my share")
      (omega arith)

at-read_mount_table_example :
    (fstype_at (read_mount_table host) (codes "/srv/my share")
      ≡ type_of (
          mounted_at
            (host.read_file mount_info_path max_mount_info)
            (clean (codes "/srv/my share"))))
    × (at (as_fact (read_mount_table host)) (codes "/srv/my share")
        ≡ mount_at (clean (codes "/srv/my share")) (
            mounted_at
              (host.read_file mount_info_path max_mount_info)
              (clean (codes "/srv/my share"))))
at-read_mount_table_example = at-read_mount_table host (codes "/srv/my share")

-- A share is found at its path, and is one to keep out of.
share_type : fstype_at (read_mount_table host) (codes "/srv/my share") ≡ some (codes "nfs4")
unfolding fstype_at read_mount_table table_of add_mounts add_mount parse_mount_info_line fields
    unescape_mount_field split_options split clean lookup insert any str_eq trim_space
share_type = refl

abbrev Scope : FileInfo → Type 0
Scope = Inside (crosses config host) (read_mount_table host) 1

abbrev shown : Answer DirResult → List FileInfo
shown (answer l) = l.entries
shown (refuse e) = []

abbrev stated : Answer FileInfo → FileInfo
stated (answer fi) = fi
stated (refuse e) = root_dir

-- The other disk is out of scope, and a file is no directory.
below_root : (d : FileInfo) → Memᴰ d root_entries → Scope d → d ≡ var_dir
unfolding outside_scope
below_root d (Memᴰ.head p) i = p
below_root d (Memᴰ.tail (Memᴰ.head p)) i = let j = subst Scope p i in absurd (ground (arith, j.1))
below_root d (Memᴰ.tail (Memᴰ.tail (Memᴰ.head p))) i =
    let j = subst Scope p i in absurd (ground (arith, j.0))
below_root d (Memᴰ.tail (Memᴰ.tail (Memᴰ.tail m))) i = elim m [ ]

below_var : (d : FileInfo) → Memᴰ d var_entries → Scope d → d ≡ var_dir
below_var d (Memᴰ.head p) i = let j = subst Scope p i in absurd (ground (arith, j.0))
below_var d (Memᴰ.tail m) i = elim m [ ]

-- The directories of the host that are to be listed.
dirs_of : (d : FileInfo) → Listed config host root_dir d → (d ≡ root_dir) ⊎ (d ≡ var_dir)
unfolding str_eq
dirs_of d (top e i) = inl e
dirs_of d (sub {d = above} {l = l} h e m i) =
    let seen : (x : FileInfo) → above ≡ x → shown (host.read_dir x.path 0) ≡ l.entries =
      λ x k. ap (λ (y : FileInfo). shown (host.read_dir y.path 0)) (sym k) ∙ ap shown e in
    elim (dirs_of above h) [
      | inl k ↦ inr (below_root d (subst (Memᴰ d) (sym (seen root_dir k)) m) i)
      | inr k ↦ inr (below_var d (subst (Memᴰ d) (sym (seen var_dir k)) m) i)
    ]

host-Apart : Apart config clock host root_dir
unfolding dev_ino
host-Apart a b h k i e =
    let ino : a.ino ≡ b.ino = ap (λ (x : DevIno). x.ino) e in
    let at_path = λ (x y : FileInfo) (p : x ≡ y). ap (λ (z : FileInfo). z.path) p in
    let at_ino = λ (x y : FileInfo) (p : x ≡ y). ap (λ (z : FileInfo). z.ino) p in
    elim (dirs_of a h) [
      | inl p ↦ elim (dirs_of b k) [
        | inl q ↦ at_path a root_dir p ∙ sym (at_path b root_dir q)
        | inr q ↦ absurd (omega (arith, at_ino a root_dir p, at_ino b var_dir q, ino))
      ]
      | inr p ↦ elim (dirs_of b k) [
        | inl q ↦ absurd (omega (arith, at_ino a var_dir p, at_ino b root_dir q, ino))
        | inr q ↦ at_path a var_dir p ∙ sym (at_path b var_dir q)
      ]
    ]

one_root : roots_of config ≡ codes "/" ∷ []
unfolding roots_of
one_root = refl

root_there : host.stat (codes "/") ≡ answer root_dir
unfolding str_eq
root_there = refl

walk-Complete_example :
    (r : Result) × (walk config clock host ≡ walked r)
    × Both (CompleteOf (Found config host root_dir)) config.interests r.facts
    × Both (CompleteTally (Found config host root_dir)) config.tallies r.tally_facts
walk-Complete_example =
    walk-Complete config clock host (codes "/") root_dir config-fits one_root root_there refl
      host-Apart

abbrev rows_of : Walked → List Str
rows_of (walked r) = elim r.facts [ [] ↦ [] | m ∷ ms ↦ map (λ (row : FsRow). row.path) m.rows ]
rows_of (refused e) = []
rows_of out_of_fuel = []

-- The walk finds the two regular files.
run_rows : rows_of (walk config clock host) ≡ codes "/boot.cfg" ∷ codes "/var/log" ∷ []
unfolding config_error first_invalid ended walk_roots start fresh_state walk finish finish_recording
    finish_folding new_recording new_folding roots_of offer inodes_cap depth_cap budget_of
    over_budget over_budget_sampled decline_boundary outside_scope truncate_all stop_with identified
    dev_ino same_inode walk_root walk_found descend walk_stack round enter visited_before
    push_children count_listing scan_entries child validate_interest validate_tally offer_interest
    offer_tally fold folded hits_cap keys_cap row_of matches key_of default_row bucket_at bump
    new_tally_state fstype_at read_mount_table table_of add_mounts add_mount parse_mount_info_line
    skipped_fs_type any str_eq str_ltb lookup insert split fields clean sort_by insert_sorted
run_rows = refl

abbrev regular : Interest
regular = record {
  name = codes "regular";
  matches = some (λ fi. fi.is_regular);
  row = none;
  max_hits = 10;
}

abbrev questions : Questions
questions = record { interests = regular ∷ []; tallies = []; sealed = false }

questions-Built : Built questions
unfolding register validate_interest any
questions-Built = with_interest regular (empty refl) refl

abbrev no_facts : Set WalkFact
no_facts = record { facts = []; errors = [] }

collect-AllPresent_example :
    (out : Set WalkFact) × (collect config clock host questions no_facts ≡ wrote out)
    × AllPresent questions out
collect-AllPresent_example = collect-AllPresent config clock host questions no_facts questions-Built

-- The same host, with a share in place of the other disk.
abbrev changed : System
changed = record host {
  read_dir = λ p n. if str_eq p (codes "/data") then listing p var_entries else host.read_dir p n;
}

same_stats : (root : Str) → Memᴰ root (roots_of config) → changed.stat root ≡ host.stat root
same_stats root m = refl

found_root :
    (root : Str) (r : FileInfo)
    → Memᴰ root (roots_of config)
    → host.stat root ≡ answer r
    → r ≡ root_dir
unfolding roots_of str_eq
found_root root r (Memᴰ.head p) e = ap stated (sym e ∙ ap (λ q. host.stat q) p)
found_root root r (Memᴰ.tail m) e = elim m [ ]

same_lists :
    (root : Str) (r d : FileInfo)
    → Memᴰ root (roots_of config)
    → host.stat root ≡ answer r
    → Listed config host r d
    → changed.read_dir d.path 0 ≡ host.read_dir d.path 0
unfolding str_eq
same_lists root r d m e h =
    elim (dirs_of d (subst (λ x. Listed config host x d) (found_root root r m e) h)) [
      | inl p ↦
          subst (λ (x : FileInfo). changed.read_dir x.path 0 ≡ host.read_dir x.path 0) (sym p) refl
      | inr p ↦
          subst (λ (x : FileInfo). changed.read_dir x.path 0 ≡ host.read_dir x.path 0) (sym p) refl
    ]

walk-same_example : walk config clock changed ≡ walk config clock host
walk-same_example = walk-same config clock host changed refl same_stats same_lists
