-- ===== src/Walker/Reach.antt =====
-- What a walk of internal/collect/walker/walker.go is to see of a filesystem: a description that knows
-- no stack, no budget and no order.
use plumbline.Base.{Str, ◌≡◌, Bool, true, ◌&&◌}
use mathlib.Core.List.{Memᴰ}
use plumbline.Host.{FileInfo, DirResult, answer, System}
use plumbline.Walker.Mounts.{read_mount_table}
use plumbline.Walker.State.{Config, roots_of}
use plumbline.Walker.Traverse.{is_directory}
use plumbline.Walker.Scan.{Inside}

-- Whether the walk may leave the device of its root.
abbrev pub crosses : Config → System → Bool
crosses cfg s = cfg.cross_fs && (read_mount_table s).known

module _ (cfg : Config) (s : System) (root : FileInfo) where
  -- The directories whose entries the walk is to see: the root, and the directories inside it that a
  -- listing shows.
  pub data Listed : FileInfo → Type 0 where
    top : {d : FileInfo} → d ≡ root → is_directory d ≡ true → Listed d
    sub :
        {d e : FileInfo} {l : DirResult}
        → Listed d
        → s.read_dir d.path cfg.max_dir_entries ≡ answer l
        → Memᴰ e l.entries
        → Inside (crosses cfg s) (read_mount_table s) root.dev e
        → Listed e

  -- The inodes that the walk is to see.
  pub data Found : FileInfo → Type 0 where
    itself : {fi : FileInfo} → fi ≡ root → Found fi
    entry :
        {d fi : FileInfo} {l : DirResult}
        → Listed d
        → s.read_dir d.path cfg.max_dir_entries ≡ answer l
        → Memᴰ fi l.entries
        → Found fi

module _ (cfg : Config) (s : System) where
  -- Found from one of the roots.
  pub data Reached (fi : FileInfo) : Type 0 where
    from :
        {root : Str} {r : FileInfo}
        → Memᴰ root (roots_of cfg)
        → s.stat root ≡ answer r
        → Found cfg s r fi
        → Reached fi
