-- ===== src/Walker/State.antt =====
-- The state of one traversal of internal/collect/walker/walker.go, what each step of it does, and the
-- small monad of the steps.
use plumbline.Base.{
  Str, codes, ℕ, ◌+◌, ◌%◌, Bool, true, false, not, ◌&&◌, ◌||◌, none, some, List, [], ◌∷◌, map, ltb,
  leb, ◌==◌, if◌then◌else◌,
}
use plumbline.Fact.Fs.{mark_truncated, trunc_inodes, trunc_deadline}
use plumbline.Host.{FileInfo}
use plumbline.Walker.Mounts.{MountTable, fstype_at, skipped_fs_type}
use plumbline.Walker.Questions.{Interest, Tally, Recording, Folding, offer_interest, offer_tally}

-- A number that is zero or less is zero, and means the default.
pub record Config : Type 0 where
  pub interests : List Interest
  pub tallies : List Tally
  pub roots : List Str
  pub cross_fs : Bool
  pub max_depth : ℕ
  pub max_inodes : ℕ
  pub budget : ℕ
  pub max_dir_entries : ℕ

-- What the clock and the context say when they are asked for the n-th time, in nanoseconds.
pub record Clock : Type 0 where
  pub now : ℕ → ℕ
  pub cancelled : ℕ → Bool

-- `Config.roots`
unfoldable pub roots_of : Config → List Str
roots_of c = elim c.roots [ [] ↦ codes "/" ∷ [] | r ∷ rs ↦ r ∷ rs ]

-- `Config.maxDepth`
unfoldable pub depth_cap : Config → ℕ
depth_cap c = if c.max_depth == 0 then 64 else c.max_depth

-- `Config.maxInodes`
unfoldable pub inodes_cap : Config → ℕ
inodes_cap c = if c.max_inodes == 0 then 3000000 else c.max_inodes

-- `Config.budget`: four minutes.
unfoldable pub budget_of : Config → ℕ
budget_of c = if c.budget == 0 then 240000000000 else c.budget

-- `devIno`
pub record DevIno : Type 0 where
  pub dev : ℕ
  pub ino : ℕ

unfoldable pub same_inode : DevIno → DevIno → Bool
same_inode a b = a.dev == b.dev && a.ino == b.ino

-- `identified`
unfoldable pub identified : FileInfo → Bool
identified fi = not (fi.dev == 0) || not (fi.ino == 0)

unfoldable pub dev_ino : FileInfo → DevIno
dev_ino fi = record { dev = fi.dev; ino = fi.ino }

-- `walkState`, with the counters of its result; `asked` says how often the clock was asked.
pub record WalkState : Type 0 where
  pub cross_fs : Bool
  pub mounts : MountTable
  pub deadline : ℕ
  pub recordings : List Recording
  pub foldings : List Folding
  pub visited : List DevIno
  pub inodes_visited : ℕ
  pub dirs_visited : ℕ
  pub cycles_broken : ℕ
  pub boundaries_declined : ℕ
  pub stop : Bool
  pub asked : ℕ

-- A step goes on with a value, or the traversal of the root ends.
pub data Flow (A : Type 0) : Type 0 where
  go : A → WalkState → Flow A
  halt : WalkState → Flow A

abbrev pub M : Type 0 → Type 0
M A = WalkState → Flow A

abbrev pub pure : {A : Type 0} → A → M A
pure a st = go a st

abbrev pub then_on : {A B : Type 0} → Flow A → (A → M B) → Flow B
then_on (go a st) f = f a st
then_on (halt st) f = halt st

infixl 5 ◌>>=◌ ◌>>◌
abbrev pub ◌>>=◌ : {A B : Type 0} → M A → (A → M B) → M B
◌>>=◌ m f st = then_on (m st) f

abbrev pub ◌>>◌ : {B : Type 0} → M (Unit {0}) → M B → M B
m >> k = m >>= λ _. k

abbrev pub modify : (WalkState → WalkState) → M (Unit {0})
modify f st = go tt (f st)

unfoldable pub mark_recording : Str → Recording → Recording
mark_recording reason q = record q {
  fact = record (q.fact) { marks = mark_truncated reason q.fact.marks };
}

unfoldable pub mark_folding : Str → Folding → Folding
mark_folding reason f = record f {
  fact = record (f.fact) { marks = mark_truncated reason f.fact.marks };
}

-- `truncateAll`
unfoldable pub truncate_all : Str → WalkState → WalkState
truncate_all reason st = record st {
  recordings = map (mark_recording reason) st.recordings;
  foldings = map (mark_folding reason) st.foldings;
}

-- `truncateAll` before the traversal stops.
unfoldable pub stop_with : Str → WalkState → WalkState
stop_with reason st = record (truncate_all reason st) { stop = true }

module _ (cfg : Config) where
  -- `offer`; false is the end of the traversal of the root.
  unfoldable pub offer : FileInfo → M (Unit {0})
  offer fi st =
      if leb (inodes_cap cfg) st.inodes_visited
      then halt (stop_with trunc_inodes st)
      else go tt (record st {
        inodes_visited = st.inodes_visited + 1;
        recordings = map (offer_interest fi) st.recordings;
        foldings = map (offer_tally fi) st.foldings;
      })

module _ (clock : Clock) where
  -- `overBudget`; true is the end of the traversal of the root.
  unfoldable pub over_budget : M (Unit {0})
  over_budget st =
      let next : WalkState = record st { asked = st.asked + 1 } in
      if st.stop
      then halt st
      else if clock.cancelled st.asked
      then halt (stop_with trunc_deadline next)
      else if not (ltb (clock.now st.asked) st.deadline)
      then halt (stop_with trunc_deadline next)
      else go tt next

  -- `overBudgetSampled`
  unfoldable pub over_budget_sampled : M (Unit {0})
  over_budget_sampled st =
      if st.stop
      then halt st
      else if not (st.inodes_visited % 4096 == 0)
      then go tt st
      else over_budget st

-- `declineBoundary`, without the counter.
unfoldable pub outside_scope : Bool → MountTable → ℕ → FileInfo → Bool
outside_scope cross_fs mounts root_dev fi =
    (not cross_fs && not (fi.dev == 0) && not (root_dev == 0) && not (fi.dev == root_dev))
    || elim (fstype_at mounts fi.path) [ none ↦ false | some fstype ↦ skipped_fs_type fstype ]

-- `declineBoundary`
unfoldable pub decline_boundary : ℕ → FileInfo → M Bool
decline_boundary root_dev fi st =
    if outside_scope st.cross_fs st.mounts root_dev fi
    then go true (record st { boundaries_declined = st.boundaries_declined + 1 })
    else go false st
