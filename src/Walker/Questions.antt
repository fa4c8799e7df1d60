-- ===== src/Walker/Questions.antt =====
-- The two kinds of question of internal/collect/walker: interests of walker.go, which record inodes, and
-- tallies of tally.go, which count them by a key.

pub mod Rows
pub mod Sorted
pub mod Counts
pub mod Balances
use plumbline.Base.{
  any, Str, is_empty, ℕ, ◌+◌, Bool, true, false, not, ◌||◌, Option, none, some, List, [], ◌∷◌, ◌++◌,
  ltb, leb, ◌==◌, if◌then◌else◌, is_some, length,
}
use plumbline.Base.Sorting.{sort_by}
use plumbline.Fact.Fs.{
  FsRow, FsMatches, FsBucket, FsTally, mark_truncated, trunc_max_hits, trunc_max_keys,
}
use plumbline.Host.{FileInfo}

abbrev pub default_max_hits : ℕ
default_max_hits = 20000

abbrev pub default_max_keys : ℕ
default_max_keys = 16384

-- A function that may be nil is an `Option`; a cap of zero or less is zero.
pub record Interest : Type 0 where
  pub name : Str
  pub matches : Option (FileInfo → Bool)
  pub row : Option (FileInfo → FsRow)
  pub max_hits : ℕ

pub record Tally : Type 0 where
  pub name : Str
  pub key : Option (FileInfo → Option ℕ)
  pub max_keys : ℕ

-- `DefaultRow`
unfoldable pub default_row : FileInfo → FsRow
default_row fi = record {
  path = fi.path;
  mode = fi.mode;
  uid = fi.uid;
  gid = fi.gid;
  size = fi.size;
  is_dir = fi.is_dir;
  is_regular = fi.is_regular;
  is_symlink = fi.is_symlink;
}

-- What `validate` of a question complains of.
pub data Invalid : Type 0 where
  empty_name separator_in_name no_function : Invalid

-- `strings.ContainsAny(name, "./ \t")`
unfoldable pub has_separator : Str → Bool
has_separator = any (λ c. c == b'.' || c == b'/' || c == b' ' || c == 9)

validate_name : Str → Bool → Option Invalid
unfolding has_separator
validate_name name has_function =
    if is_empty name
    then some empty_name
    else if has_separator name
    then some separator_in_name
    else if not has_function
    then some no_function
    else none

-- `Interest.validate`
unfoldable pub validate_interest : Interest → Option Invalid
unfolding validate_name
validate_interest i = validate_name i.name (is_some i.matches)

-- `Tally.validate`
unfoldable pub validate_tally : Tally → Option Invalid
unfolding validate_name
validate_tally t = validate_name t.name (is_some t.key)

-- `Interest.maxHits`
unfoldable pub hits_cap : Interest → ℕ
hits_cap i = if i.max_hits == 0 then default_max_hits else i.max_hits

-- `Tally.maxKeys`
unfoldable pub keys_cap : Tally → ℕ
keys_cap t = if t.max_keys == 0 then default_max_keys else t.max_keys

-- `Interest.row`
unfoldable pub row_of : Interest → FileInfo → FsRow
row_of i fi = elim i.row [ none ↦ default_row fi | some f ↦ f fi ]

-- `i.Match(fi)`; no interest without a function passes `validate`.
unfoldable pub matches : Interest → FileInfo → Bool
matches i fi = elim i.matches [ none ↦ false | some f ↦ f fi ]

-- `t.Key(fi)`
unfoldable pub key_of : Tally → FileInfo → Option ℕ
key_of t fi = elim t.key [ none ↦ none | some f ↦ f fi ]

-- An interest with its entries of `out` and `hits`, which the walk keeps in slices of one order.
pub record Recording : Type 0 where
  pub interest : Interest
  pub fact : FsMatches
  pub hits : ℕ

-- One round of the first loop of `offer`.
unfoldable pub offer_interest : FileInfo → Recording → Recording
offer_interest fi q =
    if not (matches q.interest fi)
    then q
    else if leb (hits_cap q.interest) q.hits
    then record q {
      fact = record (q.fact) {
        overflow = q.fact.overflow + 1;
        marks = mark_truncated trunc_max_hits q.fact.marks;
      };
    }
    else record q {
      fact = record (q.fact) { rows = q.fact.rows ++ row_of q.interest fi ∷ [] };
      hits = q.hits + 1;
    }

-- `tallyState`; the map of the buckets is a list with one bucket for each key.
pub record TallyState : Type 0 where
  pub buckets : List FsBucket
  pub tallied : ℕ
  pub dropped : ℕ
  pub max : ℕ

-- `newTallyState`
unfoldable pub new_tally_state : Tally → TallyState
new_tally_state t = record { buckets = []; tallied = 0; dropped = 0; max = keys_cap t }

-- `ts.buckets[key]`
unfoldable pub bucket_at : ℕ → List FsBucket → Option FsBucket
bucket_at k [] = none
bucket_at k (b ∷ bs) = if b.key == k then some b else bucket_at k bs

-- `b.count++` for the bucket of the key.
unfoldable pub bump : ℕ → List FsBucket → List FsBucket
bump k [] = []
bump k (b ∷ bs) = if b.key == k then record b { count = b.count + 1 } ∷ bs else b ∷ bump k bs

-- `fold`: the state after it, and whether the key was discarded.
unfoldable pub fold : ℕ → FileInfo → TallyState → TallyState × Bool
fold key fi ts = elim (bucket_at key ts.buckets) [
  | some b ↦ (record ts { tallied = ts.tallied + 1; buckets = bump key ts.buckets }, false)
  | none ↦
      if leb ts.max (length ts.buckets)
      then (record ts { tallied = ts.tallied + 1; dropped = ts.dropped + 1 }, true)
      else (
        record ts {
          tallied = ts.tallied + 1;
          buckets = ts.buckets ++ record { key = key; count = 1; example = default_row fi } ∷ [];
        },
        false,
      )
]

-- A tally with its entries of `tallyOut` and `tallies`.
pub record Folding : Type 0 where
  pub tally : Tally
  pub fact : FsTally
  pub state : TallyState

-- The mark of a tally that discarded a key.
unfoldable pub folded : Folding → TallyState × Bool → Folding
folded f (ts, dropped) = record f {
  state = ts;
  fact = record (f.fact) {
    marks = if dropped then mark_truncated trunc_max_keys f.fact.marks else f.fact.marks;
  };
}

-- One round of the second loop of `offer`.
unfoldable pub offer_tally : FileInfo → Folding → Folding
offer_tally fi f = elim (key_of f.tally fi) [ none ↦ f | some key ↦ folded f (fold key fi f.state) ]

-- `tallyState.asFact`
unfoldable pub as_fact : TallyState → FsTally → FsTally
as_fact ts out = record out {
  buckets = sort_by (λ a b. ltb a.key b.key) ts.buckets;
  inodes_tallied = ts.tallied;
  keys_dropped = ts.dropped;
}
