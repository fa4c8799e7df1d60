-- ===== src/Walker/Traverse.antt =====
-- `walkRoot` of internal/collect/walker/walker.go: the traversal of one root with a stack of directories.
use plumbline.Base.{
  any, Str, str_ltb, ℕ, zero, suc, ◌+◌, Bool, true, false, not, ◌&&◌, Option, none, some, List, [],
  ◌∷◌, ◌++◌, ltb, if◌then◌else◌,
}
use plumbline.Base.Sorting.{sort_by}
use plumbline.Fact.Fs.{trunc_unreadable, trunc_dir_listing, trunc_depth}
use plumbline.Host.{FileInfo, DirResult, Answer, answer, refuse, System}
use plumbline.Walker.State.{
  Config, depth_cap, inodes_cap, Clock, same_inode, identified, dev_ino, WalkState, Flow, go, halt,
  M, pure, then_on, ◌>>=◌, ◌>>◌, modify, truncate_all, offer, over_budget, over_budget_sampled,
  decline_boundary,
}

pub record Frame : Type 0 where
  pub info : FileInfo
  pub depth : ℕ

-- What can be descended into.
abbrev pub is_directory : FileInfo → Bool
is_directory fi = fi.is_dir && not fi.is_symlink

-- `st.visited[id]`
unfoldable pub visited_before : FileInfo → WalkState → Bool
visited_before fi st = identified fi && any (same_inode (dev_ino fi)) st.visited

-- The entry into a directory: whether it was visited before.
unfoldable pub enter : FileInfo → M Bool
enter fi st =
    if visited_before fi st
    then go true (record st { cycles_broken = st.cycles_broken + 1 })
    else if identified fi
    then go false (record st { visited = dev_ino fi ∷ st.visited })
    else go false st

unfoldable pub count_listing : Bool → WalkState → WalkState
count_listing truncated st =
    let listed : WalkState = record st { dirs_visited = st.dirs_visited + 1 } in
    if truncated then truncate_all trunc_dir_listing listed else listed

-- The entries of a listing in the order of their paths.
abbrev pub sorted_entries : List FileInfo → List FileInfo
sorted_entries = sort_by (λ a b. str_ltb a.path b.path)

-- What follows a round.
abbrev pub resume :
    (List Frame → WalkState → Option WalkState) → Flow (List Frame) → Option WalkState
resume k (go stack st) = k stack st
resume k (halt st) = some st

module _ (cfg : Config) (root_dev : ℕ) where
  -- The frame of an entry at a depth, if the walk is to descend into it.
  unfoldable pub child : ℕ → FileInfo → M (List Frame)
  child depth e st =
      if not (is_directory e)
      then go [] st
      else if ltb (depth_cap cfg) depth
      then go [] (truncate_all trunc_depth st)
      else then_on (decline_boundary root_dev e st)
          λ declined. pure (if declined then [] else record { info = e; depth = depth } ∷ [])

  module _ (clock : Clock) where
    -- The loop over the entries of a directory, whose children are at a depth.
    unfoldable pub scan_entries : ℕ → List FileInfo → M (List Frame)
    scan_entries depth [] = pure []
    scan_entries depth (e ∷ es) = do
      over_budget_sampled clock
      offer cfg e
      here ← child depth e
      later ← scan_entries depth es
      pure (here ++ later)

    -- What is done with the answer to `ReadDir`; the first frame of the stack is its top.
    unfoldable pub push_children : ℕ → List Frame → Answer DirResult → M (List Frame)
    push_children depth stack (refuse e) = do modify (truncate_all trunc_unreadable); pure stack
    push_children depth stack (answer l) = do
      modify (count_listing l.truncated)
      children ← scan_entries depth (sorted_entries l.entries)
      pure (children ++ stack)

    module _ (s : System) where
      -- One round of the loop: `f` is the top of the stack.
      unfoldable pub round : Frame → List Frame → M (List Frame)
      round f stack = do
        over_budget clock
        seen ← enter f.info
        if seen
            then pure stack
            else push_children (f.depth + 1) stack (s.read_dir f.info.path cfg.max_dir_entries)

      -- The loop, on fuel for the rounds; `none` is a lack of fuel.
      unfoldable pub walk_stack : ℕ → List Frame → WalkState → Option WalkState
      walk_stack n [] st = some st
      walk_stack zero (f ∷ stack) st = none
      walk_stack (suc n) (f ∷ stack) st = resume (walk_stack n) (round f stack st)

module _ (cfg : Config) (clock : Clock) (s : System) where
  -- What follows the offer of the root.
  unfoldable pub descend : FileInfo → Flow (Unit {0}) → Option WalkState
  descend fi (halt st) = some st
  descend fi (go a st) =
      walk_stack cfg fi.dev clock s (inodes_cap cfg) (record { info = fi; depth = 0 } ∷ []) st

  unfoldable pub walk_found : FileInfo → WalkState → Option WalkState
  walk_found fi st =
      if is_directory fi
      then descend fi (offer cfg fi st)
      else elim (offer cfg fi st) [ halt st' ↦ some st' | go a st' ↦ some st' ]

  -- `walkRoot`
  unfoldable pub walk_root : Str → WalkState → Option WalkState
  walk_root root st = elim (s.stat root) [
    | refuse e ↦ some (truncate_all trunc_unreadable st)
    | answer fi ↦ walk_found fi st
  ]
