-- ===== src/Fact/Fs.antt =====
-- internal/fact/fs.go and internal/fact/fstally.go: the facts that the filesystem walk produces.
use plumbline.Base.{
  Str, codes, ℕ, ◌+◌, Bool, true, false, not, ◌&&◌, List, [], ◌∷◌, ◌++◌, ◌==◌, if◌then◌else◌,
}
use plumbline.Base.Maps.{contains}
use plumbline.Base.Sorting.{sort_by, sort_strings}
use plumbline.Go.Strings.{join}

-- `TruncationReason`
abbrev pub trunc_depth : Str
trunc_depth = codes "depth_limit"

abbrev pub trunc_inodes : Str
trunc_inodes = codes "inode_limit"

abbrev pub trunc_deadline : Str
trunc_deadline = codes "wall_clock"

abbrev pub trunc_dir_listing : Str
trunc_dir_listing = codes "dir_listing"

abbrev pub trunc_unreadable : Str
trunc_unreadable = codes "unreadable_dir"

abbrev pub trunc_mounts_unknown : Str
trunc_mounts_unknown = codes "mounts_unknown"

abbrev pub trunc_max_hits : Str
trunc_max_hits = codes "max_hits"

abbrev pub trunc_max_keys : Str
trunc_max_keys = codes "max_keys"

-- `FSFactID`
unfoldable pub fs_fact_id : Str → Str
fs_fact_id interest = codes "fs." ++ interest

-- `FSTallyFactID`
unfoldable pub fs_tally_fact_id : Str → Str
fs_tally_fact_id tally = codes "fs.tally." ++ tally

pub record FsRow : Type 0 where
  pub path : Str
  pub mode : ℕ
  pub uid : ℕ
  pub gid : ℕ
  pub size : ℕ
  pub is_dir : Bool
  pub is_regular : Bool
  pub is_symlink : Bool

-- `Truncated` and `TruncationReasons`, which both facts have, with the same `MarkTruncated`.
pub record Marks : Type 0 where
  pub truncated : Bool
  pub reasons : List Str

abbrev pub unmarked : Marks
unmarked = record { truncated = false; reasons = [] }

-- `MarkTruncated`
unfoldable pub mark_truncated : Str → Marks → Marks
unfolding contains sort_by
mark_truncated reason m = record {
  truncated = true;
  reasons =
      if contains m.reasons reason then m.reasons else sort_strings (m.reasons ++ reason ∷ []);
}

-- `TruncationSummary`
unfoldable pub truncation_summary : Marks → Str
unfolding join
truncation_summary m =
    if not m.truncated
    then []
    else elim m.reasons [ [] ↦ codes "unspecified" | r ∷ rs ↦ join (codes ", ") (r ∷ rs) ]

pub record FsMatches : Type 0 where
  pub interest : Str
  pub roots : List Str
  pub rows : List FsRow
  pub marks : Marks
  pub overflow : ℕ
  pub inodes_visited : ℕ

-- `FSMatches.Complete`
unfoldable pub complete : FsMatches → Bool
complete m = not m.marks.truncated && m.overflow == 0

pub record FsBucket : Type 0 where
  pub key : ℕ
  pub count : ℕ
  pub example : FsRow

pub record FsTally : Type 0 where
  pub tally : Str
  pub roots : List Str
  pub buckets : List FsBucket
  pub marks : Marks
  pub keys_dropped : ℕ
  pub inodes_tallied : ℕ
  pub inodes_visited : ℕ

-- `FSTally.Complete`
unfoldable pub tally_complete : FsTally → Bool
tally_complete t = not t.marks.truncated && t.keys_dropped == 0

-- `FSTally.Keys`
unfoldable pub bucket_keys : List FsBucket → List ℕ
bucket_keys [] = []
bucket_keys (b ∷ bs) = b.key ∷ bucket_keys bs

-- `FSTally.Total`
unfoldable pub total : List FsBucket → ℕ
total [] = 0
total (b ∷ bs) = b.count + total bs
