-- ===== src/Walker/Asks.antt =====
-- A walk of internal/collect/walker/walker.go asks the host for nothing that is out of its scope.
use plumbline.Base.{
  Str, ℕ, zero, suc, ◌≡◌, refl, ap, ◌∙◌, inl, inr, Bool, true, false, Option, List, [], ◌∷◌, ◌++◌,
  arith, Bool-cases, Option-cases, All, All-append_one,
}
use mathlib.Core.List.{Memᴰ}
use plumbline.Host.{Answer-cases, FileInfo, answer, System}
use plumbline.Walker.Mounts.{read_mount_table, mount_info_path, max_mount_info}
use plumbline.Walker.State.{Config, inodes_cap, roots_of, Clock, WalkState, Flow}
use plumbline.Walker.Traverse.{
  Frame, is_directory, round, resume, walk_stack, descend, walk_found, walk_root,
}
use plumbline.Walker.Run.{config_error, start, fresh_state, walk_roots, ended, walk}
use plumbline.Walker.Steps.{Ensures, on_go, on_halt}
use plumbline.Walker.Scan.{Halted, Going, offer-Going}
use plumbline.Walker.Rounds.{round-Rounded}
use plumbline.Walker.Reach.{crosses, Listed, top}
use plumbline.Walker.Sound.{Between, Open, settle, rounded-Open, entries-from}
use plumbline.Walker.Whole.{between-Going, going-Between, walk_root-Between}
use plumbline.Walker.Start.{start-Going}

module _ {P : List Frame → WalkState → Type 0} {Q : WalkState → Type 0} where
  resume_same :
      (j k : List Frame → WalkState → Option WalkState) {m : Flow (List Frame)}
      → Ensures P Q m
      → ((stack : List Frame) (st : WalkState) → P stack st → j stack st ≡ k stack st)
      → resume j m ≡ resume k m
  resume_same j k (on_go p) h = h _ _ p
  resume_same j k (on_halt q) h = refl

-- Everything is allowed to be offered.
abbrev Free : FileInfo → Type 0
Free fi = Unit

module _ (cfg : Config) (clock : Clock) (s t : System) where
  round_same :
      (root_dev : ℕ) (f : Frame) (stack : List Frame) (st : WalkState)
      → t.read_dir f.info.path cfg.max_dir_entries ≡ s.read_dir f.info.path cfg.max_dir_entries
      → round cfg root_dev clock t f stack st ≡ round cfg root_dev clock s f stack st
  unfolding round
  round_same root_dev f stack st e = rw e refl

  module _ (root : FileInfo)
      (alike : (d : FileInfo)
        → Listed cfg s root d
        → t.read_dir d.path cfg.max_dir_entries ≡ s.read_dir d.path cfg.max_dir_entries) where
    walk_stack_same :
        (n : ℕ) (stack : List Frame) (st : WalkState)
        → Open cfg clock s Free root (λ fi f. tt) stack st
        → walk_stack cfg root.dev clock t n stack st ≡ walk_stack cfg root.dev clock s n stack st
    unfolding walk_stack
    walk_stack_same zero [] st o = refl
    walk_stack_same (suc n) [] st o = refl
    walk_stack_same zero (f ∷ stack) st o = refl
    walk_stack_same (suc n) (f ∷ stack) st o =
        ap (resume (walk_stack cfg root.dev clock t n))
          (round_same root.dev f stack st (alike f.info o.frames.0))
        ∙ resume_same (walk_stack cfg root.dev clock t n) (walk_stack cfg root.dev clock s n)
            (round-Rounded cfg (crosses cfg s) (read_mount_table s) Free root.dev clock s o.offers
              o.cut f stack st o.from
              (entries-from cfg clock s Free root (λ fi f. tt) f.info o.frames.0) o.state)
            (λ pushed st1 p. walk_stack_same n pushed st1 (
              rounded-Open cfg clock s Free root (λ fi f. tt) o.offers o.cut f stack st pushed st1
                o.from o.frames.0 o.frames.1 p))

    descend_same :
        (offers : List FileInfo) (cut : Bool) (before : WalkState) {m : Flow (Unit {0})}
        → All Free offers
        → is_directory root ≡ true
        → Ensures
            (λ (a : Unit {0}). Going cfg (crosses cfg s) (read_mount_table s) offers cut before)
            (Halted cfg Free)
            m
        → descend cfg clock t root m ≡ descend cfg clock s root m
    unfolding descend
    descend_same offers cut before r d (on_halt h) = refl
    descend_same offers cut before r d (on_go g) = walk_stack_same (inodes_cap cfg) _ _ (record {
      offers = offers;
      cut = cut;
      from = r;
      frames = (top refl d, tt);
      state = settle cfg clock s Free root (λ fi f. tt) g;
    })

    walk_found_same :
        (st : WalkState)
        → Between cfg clock s Free st
        → st.stop ≡ false
        → walk_found cfg clock t root st ≡ walk_found cfg clock s root st
    unfolding walk_found
    walk_found_same st b n = elim (Bool-cases (is_directory root)) [
      | inl d ↦
          rw (d, walk_found)
            (descend_same (b.offers ++ root ∷ []) b.cut st
              (All-append_one Free b.offers root b.from tt) d
              (offer-Going cfg (crosses cfg s) (read_mount_table s) Free b.offers b.cut b.from st
                root st (between-Going cfg clock s Free st b n)))
      | inr d ↦ rw (d, walk_found) refl
    ]

  module _ (stats : (root : Str) → Memᴰ root (roots_of cfg) → t.stat root ≡ s.stat root)
      (lists : (root : Str) (r d : FileInfo)
        → Memᴰ root (roots_of cfg)
        → s.stat root ≡ answer r
        → Listed cfg s r d
        → t.read_dir d.path cfg.max_dir_entries ≡ s.read_dir d.path cfg.max_dir_entries) where
    walk_root_same :
        (root : Str) (st : WalkState)
        → Memᴰ root (roots_of cfg)
        → Between cfg clock s Free st
        → st.stop ≡ false
        → walk_root cfg clock t root st ≡ walk_root cfg clock s root st
    unfolding walk_root
    walk_root_same root st m b n = elim (Answer-cases (s.stat root)) [
      | inl (fi, h) ↦
          rw (stats root m, h, walk_root) (walk_found_same fi (λ d. lists root fi d m h) st b n)
      | inr (x, h) ↦ rw (stats root m, h, walk_root) refl
    ]

    walk_roots_same :
        (roots : List Str) (st : WalkState)
        → ((root : Str) → Memᴰ root roots → Memᴰ root (roots_of cfg))
        → Between cfg clock s Free st
        → st.stop ≡ false
        → walk_roots cfg clock t roots st ≡ walk_roots cfg clock s roots st
    unfolding walk_roots
    walk_roots_same [] st m b n = refl
    walk_roots_same (root ∷ roots) st m b n =
        let e = walk_root_same root st (m root (Memᴰ.head refl)) b n in
        elim (Option-cases (walk_root cfg clock s root st)) [
          | inl h ↦ ground (arith, e, h)
          | inr (st1, h) ↦ elim (Bool-cases st1.stop) [
            | inl k ↦ ground (arith, e, h, k)
            | inr k ↦
                let b1 = walk_root-Between cfg clock s Free root st st1 (λ r fi w x. tt) b n h in
                ground (arith, e, h, k, walk_roots_same roots st1 (λ r w. m r (Memᴰ.tail w)) b1 k)
          ]
        ]

start_same :
    (cfg : Config) (clock : Clock) (s t : System)
    → t.read_file mount_info_path max_mount_info ≡ s.read_file mount_info_path max_mount_info
    → start cfg clock t ≡ start cfg clock s
unfolding start fresh_state read_mount_table
start_same cfg clock s t e = rw e refl

-- Two hosts that agree on the mount table, on the roots, and on the listings of the directories that
-- are to be listed, are walked with one result, whatever they say of every other path. So a path
-- behind a symbolic link, on another device or of a skipped filesystem type has no part in it.
pub walk-same :
    (cfg : Config) (clock : Clock) (s t : System)
    → t.read_file mount_info_path max_mount_info ≡ s.read_file mount_info_path max_mount_info
    → ((root : Str) → Memᴰ root (roots_of cfg) → t.stat root ≡ s.stat root)
    → ((root : Str) (r d : FileInfo)
        → Memᴰ root (roots_of cfg)
        → s.stat root ≡ answer r
        → Listed cfg s r d
        → t.read_dir d.path cfg.max_dir_entries ≡ s.read_dir d.path cfg.max_dir_entries)
    → walk cfg clock t ≡ walk cfg clock s
unfolding walk ended
walk-same cfg clock s t table stats lists =
    let (cut, g, v) = start-Going cfg clock s in
    let b = going-Between cfg clock s Free [] cut (start cfg clock s) (start cfg clock s) tt g in
    let e =
      walk_roots_same cfg clock s t stats lists (roots_of cfg) (start cfg clock s) (λ r m. m) b
        g.going in
    let begin = start_same cfg clock s t table in
    elim (Option-cases (config_error cfg)) [
      | inr (x, h) ↦ rw (h, walk) refl
      | inl h ↦ rw (h, begin, walk) (ap (ended cfg clock s) e)
    ]
