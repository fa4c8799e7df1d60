-- ===== src/Walker/Run.antt =====
-- `Walk` of internal/collect/walker/walker.go: one traversal of all roots, and the facts that it makes.
use plumbline.Base.{
  Str, str_ltb, ℕ, ◌+◌, true, false, not, ◌&&◌, Option, none, some, List, [], ◌∷◌, map, ◌==◌,
  if◌then◌else◌, length,
}
use plumbline.Base.Sorting.{sort_by}
use plumbline.Fact.Fs.{FsMatches, FsTally, unmarked, trunc_mounts_unknown}
use plumbline.Fact.Mounts.{Mounts}
use plumbline.Host.{System}
use plumbline.Walker.Mounts.{MountTable, read_mount_table}
use plumbline.Walker.Mounts
use plumbline.Walker.Questions.{
  Interest, Tally, Invalid, validate_interest, validate_tally, Recording, Folding, new_tally_state,
  as_fact,
}
use plumbline.Walker.State.{Config, roots_of, budget_of, Clock, WalkState, truncate_all}
use plumbline.Walker.Traverse.{walk_root}

-- `Result`
pub record Result : Type 0 where
  pub facts : List FsMatches
  pub tally_facts : List FsTally
  pub mounts : Mounts
  pub inodes_visited : ℕ
  pub dirs_visited : ℕ
  pub cycles_broken : ℕ
  pub boundaries_declined : ℕ

-- The errors of `Walk`.
pub data WalkError : Type 0 where
  no_questions : WalkError
  invalid : Invalid → WalkError

-- What `Walk` returns; `out_of_fuel` is of the model.
pub data Walked : Type 0 where
  walked : Result → Walked
  refused : WalkError → Walked
  out_of_fuel : Walked

-- The first complaint about a question of a list.
unfoldable pub first_invalid : {A : Type 0} → (A → Option Invalid) → List A → Option Invalid
first_invalid check [] = none
first_invalid check (a ∷ l) = elim (check a) [ some e ↦ some e | none ↦ first_invalid check l ]

-- The checks in front of the walk.
unfoldable pub config_error : Config → Option WalkError
config_error c =
    if length c.interests == 0 && length c.tallies == 0
    then some no_questions
    else elim (first_invalid validate_interest c.interests) [
      | some e ↦ some (invalid e)
      | none ↦ elim (first_invalid validate_tally c.tallies) [
        | some e ↦ some (invalid e)
        | none ↦ none
      ]
    ]

unfoldable pub new_recording : List Str → Interest → Recording
new_recording roots i = record {
  interest = i;
  fact = record {
    interest = i.name;
    roots = roots;
    rows = [];
    marks = unmarked;
    overflow = 0;
    inodes_visited = 0;
  };
  hits = 0;
}

unfoldable pub new_folding : List Str → Tally → Folding
new_folding roots t = record {
  tally = t;
  fact = record {
    tally = t.name;
    roots = roots;
    buckets = [];
    marks = unmarked;
    keys_dropped = 0;
    inodes_tallied = 0;
    inodes_visited = 0;
  };
  state = new_tally_state t;
}

module _ (cfg : Config) (clock : Clock) (s : System) where
  unfoldable pub fresh_state : MountTable → WalkState
  fresh_state mounts = record {
    cross_fs = cfg.cross_fs;
    mounts = mounts;
    deadline = clock.now 0 + budget_of cfg;
    recordings = map (new_recording (roots_of cfg)) cfg.interests;
    foldings = map (new_folding (roots_of cfg)) cfg.tallies;
    visited = [];
    inodes_visited = 0;
    dirs_visited = 0;
    cycles_broken = 0;
    boundaries_declined = 0;
    stop = false;
    asked = 1;
  }

  -- The state before the first root: without a mount table the walk stays on one device.
  unfoldable pub start : WalkState
  start =
      let st = fresh_state (read_mount_table s) in
      if not st.mounts.known && cfg.cross_fs
      then truncate_all trunc_mounts_unknown (record st { cross_fs = false })
      else st

  -- The loop over the roots.
  unfoldable pub walk_roots : List Str → WalkState → Option WalkState
  walk_roots [] st = some st
  walk_roots (root ∷ roots) st = elim (walk_root cfg clock s root st) [
    | none ↦ none
    | some st' ↦ elim st'.stop [ true ↦ some st' | false ↦ walk_roots roots st' ]
  ]

unfoldable pub finish_recording : ℕ → Recording → FsMatches
finish_recording inodes q = record (q.fact) {
  rows = sort_by (λ a b. str_ltb a.path b.path) q.fact.rows;
  inodes_visited = inodes;
}

unfoldable pub finish_folding : ℕ → Folding → FsTally
finish_folding inodes f = record (as_fact f.state f.fact) { inodes_visited = inodes }

-- `finish`
unfoldable pub finish : WalkState → Result
finish st = record {
  facts = map (finish_recording st.inodes_visited) st.recordings;
  tally_facts = map (finish_folding st.inodes_visited) st.foldings;
  mounts = plumbline.Walker.Mounts.as_fact st.mounts;
  inodes_visited = st.inodes_visited;
  dirs_visited = st.dirs_visited;
  cycles_broken = st.cycles_broken;
  boundaries_declined = st.boundaries_declined;
}

module _ (cfg : Config) (clock : Clock) (s : System) where
  unfoldable pub ended : Option WalkState → Walked
  ended none = out_of_fuel
  ended (some st) = walked (finish st)

  -- `Walk`
  unfoldable pub walk : Walked
  walk = elim (config_error cfg) [
    | some e ↦ refused e
    | none ↦ ended (walk_roots cfg clock s (roots_of cfg) (start cfg clock s))
  ]
