-- ===== src/Walker/Ends.antt =====
-- `Walk` of internal/collect/walker/walker.go ends, whatever the filesystem looks like.
use plumbline.Base.{
  Str, ℕ, zero, suc, ◌+◌, ◌%◌, ◌≤◌, ◌<◌, ◌≡◌, refl, inl, inr, not, Option, none, some, List, [],
  ◌∷◌, arith, ltb, leb, ◌==◌, Bool-cases, if_holds, length, length-append,
}
use plumbline.Host.{Answer-cases, FileInfo, DirResult, Answer, answer, refuse, System}
use plumbline.Walker.State.{
  Config, roots_of, inodes_cap, depth_cap, Clock, WalkState, M, Flow, go, halt, truncate_all, offer,
  over_budget, over_budget_sampled, decline_boundary, outside_scope, identified,
}
use plumbline.Walker.Traverse.{
  Frame, enter, visited_before, sorted_entries, is_directory, count_listing, child, scan_entries,
  push_children, round, walk_stack, resume, descend, walk_found, walk_root,
}
use plumbline.Walker.Run.{Result, walked, config_error, finish, walk_roots, start, ended, walk}
use plumbline.Walker.Steps.{Ensures, on_go, on_halt, Ensures-then_on, Ensures-imp}

module _ {P : List Frame → WalkState → Type 0} {Q : WalkState → Type 0} where
  resume-ends :
      (k : List Frame → WalkState → Option WalkState) {m : Flow (List Frame)}
      → Ensures P Q m
      → ((stack : List Frame) (st : WalkState)
          → P stack st
          → (st' : WalkState) × (k stack st ≡ some st'))
      → (st' : WalkState) × (resume k m ≡ some st')
  resume-ends k (on_go p) h = h _ _ p
  resume-ends k (on_halt q) h = (_, refl)

-- Nothing is said of a walk that has halted: the traversal of the root has ended.
abbrev Any : WalkState → Type 0
Any st = Unit

module _ (cfg : Config) where
  -- Each frame that is pushed is for an inode that was offered, within the budget of inodes.
  abbrev Paid : ℕ → List Frame → WalkState → Type 0
  Paid n pushed st = (n + length pushed ≤ st.inodes_visited) × (st.inodes_visited ≤ inodes_cap cfg)

  abbrev Settled : ℕ → ℕ → List Frame → WalkState → Type 0
  Settled n left pushed st =
      (length pushed + n ≤ left + st.inodes_visited) × (st.inodes_visited ≤ inodes_cap cfg)

  abbrev At : {A : Type 0} → ℕ → A → WalkState → Type 0
  At n a st = (st.inodes_visited ≡ n)

  offer-Ensures :
      (fi : FileInfo) (st : WalkState)
      → Ensures
          (λ a st'. At (st.inodes_visited + 1) a st' × (st.inodes_visited < inodes_cap cfg))
          Any
          (offer cfg fi st)
  unfolding offer
  offer-Ensures fi st = elim (Bool-cases (leb (inodes_cap cfg) st.inodes_visited)) [
    | inl e ↦ rw e (on_halt tt)
    | inr e ↦ rw e (on_go (refl, ground arith))
  ]

  decline_boundary-Ensures :
      (root_dev : ℕ) (e : FileInfo) (st : WalkState)
      → Ensures (At st.inodes_visited) Any (decline_boundary root_dev e st)
  unfolding decline_boundary
  decline_boundary-Ensures root_dev e st =
      if_holds (Ensures (At st.inodes_visited) Any) (outside_scope st.cross_fs st.mounts root_dev e)
        (on_go refl) (on_go refl)

  child-Ensures :
      (root_dev depth : ℕ) (e : FileInfo) (st : WalkState)
      → Ensures
          (λ cs st'. At st.inodes_visited cs st' × (length cs ≤ 1))
          Any
          (child cfg root_dev depth e st)
  unfolding child truncate_all
  child-Ensures root_dev depth e st =
      if_holds (Ensures _ Any) (not (is_directory e)) (on_go (refl, omega arith)) (
        if_holds (Ensures _ Any) (ltb (depth_cap cfg) depth) (on_go (refl, omega arith)) (
          Ensures-then_on (decline_boundary-Ensures root_dev e st) λ declined st' h.
            on_go (
              h,
              if_holds (λ (l : List Frame). length l ≤ 1) declined (omega arith) (omega arith),
            )))

  enter-Ensures :
      (fi : FileInfo) (st : WalkState) → Ensures (At st.inodes_visited) Any (enter fi st)
  unfolding enter
  enter-Ensures fi st =
      if_holds (Ensures (At st.inodes_visited) Any) (visited_before fi st) (on_go refl)
        (if_holds (Ensures (At st.inodes_visited) Any) (identified fi) (on_go refl) (on_go refl))

  module _ (clock : Clock) where
    over_budget-Ensures :
        (st : WalkState) → Ensures (At {A = Unit {0}} st.inodes_visited) Any (over_budget clock st)
    unfolding over_budget
    over_budget-Ensures st = if_holds (Ensures (At st.inodes_visited) Any) st.stop (on_halt tt) (
        if_holds (Ensures (At st.inodes_visited) Any) (clock.cancelled st.asked) (on_halt tt) (
          if_holds (Ensures (At st.inodes_visited) Any) (not (ltb (clock.now st.asked) st.deadline))
            (on_halt tt) (on_go refl)))

    over_budget_sampled-Ensures :
        (st : WalkState)
        → Ensures (At {A = Unit {0}} st.inodes_visited) Any (over_budget_sampled clock st)
    unfolding over_budget_sampled
    over_budget_sampled-Ensures st =
        if_holds (Ensures (At st.inodes_visited) Any) st.stop (on_halt tt) (
          if_holds (Ensures (At st.inodes_visited) Any) (not (st.inodes_visited % 4096 == 0))
            (on_go refl) (over_budget-Ensures st))

    module _ (root_dev : ℕ) where
      scan_entries-Ensures :
          (depth : ℕ) (es : List FileInfo) (st : WalkState)
          → st.inodes_visited ≤ inodes_cap cfg
          → Ensures (Paid st.inodes_visited) Any (scan_entries cfg root_dev clock depth es st)
      unfolding scan_entries
      scan_entries-Ensures depth [] st h = on_go (omega arith, h)
      scan_entries-Ensures depth (e ∷ es) st h =
          Ensures-then_on (over_budget_sampled-Ensures st) λ a st1 h1.
            Ensures-then_on (offer-Ensures e st1) λ b st2 h2.
              Ensures-then_on (child-Ensures root_dev depth e st2) λ here st3 h3.
                Ensures-then_on (scan_entries-Ensures depth es st3 (ground arith))
                  λ later st4 h4. on_go (ground (arith, length-append here later), h4.1)

      push_children-Ensures :
          (depth : ℕ) (stack : List Frame) (a : Answer DirResult) (st : WalkState)
          → st.inodes_visited ≤ inodes_cap cfg
          → Ensures
              (Settled st.inodes_visited (length stack))
              Any
              (push_children cfg root_dev clock depth stack a st)
      unfolding push_children truncate_all count_listing
      push_children-Ensures depth stack (refuse e) st h = on_go (omega arith, h)
      push_children-Ensures depth stack (answer l) st h =
          let same : (count_listing l.truncated st).inodes_visited ≡ st.inodes_visited =
            ground arith in
          Ensures-then_on
            (scan_entries-Ensures depth (sorted_entries l.entries) (count_listing l.truncated st)
              (ground arith))
            λ children st' k. on_go (ground (arith, length-append children stack), k.1)

      module _ (s : System) where
        round-Ensures :
            (f : Frame) (stack : List Frame) (st : WalkState)
            → st.inodes_visited ≤ inodes_cap cfg
            → Ensures
                (Settled st.inodes_visited (length stack))
                Any
                (round cfg root_dev clock s f stack st)
        unfolding round
        round-Ensures f stack st h = Ensures-then_on (over_budget-Ensures st) λ a st1 h1.
            Ensures-then_on (enter-Ensures f.info st1) λ seen st2 h2.
              if_holds
                (λ (m : M (List Frame)).
                  Ensures (Settled st.inodes_visited (length stack)) Any (m st2))
                seen (on_go (ground arith))
                (Ensures-imp
                  (push_children-Ensures (f.depth + 1) stack
                    (s.read_dir f.info.path cfg.max_dir_entries) st2 (ground arith))
                  (λ pushed st3 k. (omega (arith, k.0, h1, h2), k.1)) (λ st3 k. k))

        -- A round pops one frame, and what it pushes it pays for with inodes: that many rounds are
        -- enough.
        walk_stack-ends :
            (n : ℕ) (stack : List Frame) (st : WalkState)
            → st.inodes_visited ≤ inodes_cap cfg
            → length stack + inodes_cap cfg ≤ n + st.inodes_visited
            → (st' : WalkState) × (walk_stack cfg root_dev clock s n stack st ≡ some st')
        unfolding walk_stack
        walk_stack-ends zero [] st h k = (st, refl)
        walk_stack-ends (suc n) [] st h k = (st, refl)
        walk_stack-ends zero (f ∷ stack) st h k = absurd (omega arith)
        walk_stack-ends (suc n) (f ∷ stack) st h k =
            resume-ends (walk_stack cfg root_dev clock s n) (round-Ensures f stack st h)
              λ stack' st' p. walk_stack-ends n stack' st' p.1 (omega (arith, p.0, k))

module _ (cfg : Config) (clock : Clock) (s : System) where
  descend-ends :
      (fi : FileInfo) {m : Flow (Unit {0})}
      → Ensures (λ a st. (0 < st.inodes_visited) × (st.inodes_visited ≤ inodes_cap cfg)) Any m
      → (st' : WalkState) × (descend cfg clock s fi m ≡ some st')
  unfolding descend
  descend-ends fi (on_halt q) = (_, refl)
  descend-ends fi (on_go p) =
      walk_stack-ends cfg clock fi.dev s (inodes_cap cfg) _ _ p.1 (omega (arith, p.0))

  offered :
      (m : Flow (Unit {0}))
      → (st' : WalkState) × (elim m [ halt st' ↦ some st' | go a st' ↦ some st' ] ≡ some st')
  offered (go a st') = (st', refl)
  offered (halt st') = (st', refl)

  walk_found-ends :
      (fi : FileInfo) (st : WalkState)
      → (st' : WalkState) × (walk_found cfg clock s fi st ≡ some st')
  unfolding walk_found
  walk_found-ends fi st =
      if_holds (λ (o : Option WalkState). (st' : WalkState) × (o ≡ some st')) (is_directory fi)
        (descend-ends fi (
          Ensures-imp (offer-Ensures cfg fi st)
            (λ a st' h. (omega (arith, h.0), omega (arith, h.0, h.1))) (λ st' h. h)))
        (offered (offer cfg fi st))

  walk_root-ends :
      (root : Str) (st : WalkState) → (st' : WalkState) × (walk_root cfg clock s root st ≡ some st')
  unfolding walk_root
  walk_root-ends root st = elim (Answer-cases (s.stat root)) [
    | inl (fi, e) ↦ rw (e, walk_root) (walk_found-ends fi st)
    | inr (x, e) ↦ rw (e, walk_root) (_, refl)
  ]

  walk_roots-ends :
      (roots : List Str) (st : WalkState)
      → (st' : WalkState) × (walk_roots cfg clock s roots st ≡ some st')
  unfolding walk_roots
  walk_roots-ends [] st = (st, refl)
  walk_roots-ends (root ∷ roots) st =
      let (st1, e) = walk_root-ends root st in
      elim (Bool-cases st1.stop) [
        | inl h ↦ (st1, ground (arith, e, h))
        | inr h ↦ let (st2, f) = walk_roots-ends roots st1 in (st2, ground (arith, e, h, f))
      ]

  -- Where the questions are valid, the walk returns a result: for every host, with cycles and without,
  -- and for every clock.
  pub walk-ends : config_error cfg ≡ none → (r : Result) × (walk cfg clock s ≡ walked r)
  unfolding walk ended
  walk-ends h =
      let (st, e) = walk_roots-ends (roots_of cfg) (start cfg clock s) in
      (finish st, ground (arith, h, e))
