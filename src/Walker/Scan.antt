-- ===== src/Walker/Scan.antt =====
-- What the loop over the entries of a directory does to the books of a walk of
-- internal/collect/walker/walker.go, and which of the entries it descends into.
use plumbline.Base.{
  Str, ℕ, ◌+◌, ◌%◌, ◌≡◌, refl, Bool, true, false, not, List, [], ◌∷◌, ◌++◌, map, arith, ltb, leb,
  ◌==◌, if_holds, if_cases, All,
}
use plumbline.Fact.Fs.{trunc_deadline, trunc_inodes}
use plumbline.Host.{FileInfo}
use plumbline.Walker.Mounts.{MountTable}
use plumbline.Walker.State.{
  Config, inodes_cap, Clock, WalkState, stop_with, offer, over_budget, over_budget_sampled,
  outside_scope,
}
use plumbline.Walker.Traverse.{Frame, is_directory}
use plumbline.Walker.Steps.{Ensures, on_go, on_halt}
use plumbline.Walker.Books.{Kept, truncate_all-Kept, offered_to-Kept}

abbrev pub infos : List Frame → List FileInfo
infos = map (λ f. f.info)

module _ (cross : Bool) (mounts : MountTable) (root_dev : ℕ) where
  -- A directory below the root that is neither on another device nor of a skipped type.
  abbrev pub Inside : FileInfo → Type 0
  Inside fi = (is_directory fi ≡ true) × (outside_scope cross mounts root_dev fi ≡ false)

module _ (cfg : Config) (R : FileInfo → Type 0) where
  -- The walk was stopped by one of its limits: every fact is marked.
  pub record Halted (st : WalkState) : Type 0 where
    pub offers : List FileInfo
    pub from : All R offers
    pub books : Kept cfg offers true st
    pub stopped : st.stop ≡ true

module _ (cfg : Config) (cross : Bool) (mounts : MountTable) where
  -- The walk goes on, with these books; the visited directories are not touched.
  pub record Going (offers : List FileInfo) (cut : Bool) (before st : WalkState) : Type 0 where
    pub books : Kept cfg offers cut st
    pub going : st.stop ≡ false
    pub crosses : st.cross_fs ≡ cross
    pub table : st.mounts ≡ mounts
    pub visited : st.visited ≡ before.visited

module _ (cfg : Config) (cross : Bool) (mounts : MountTable) (R : FileInfo → Type 0)
    (offers : List FileInfo) (cut : Bool) (from : All R offers) (before : WalkState) where
  stop_with-Halted :
      (reason : Str) (st : WalkState) → Kept cfg offers cut st → Halted cfg R (stop_with reason st)
  unfolding stop_with
  stop_with-Halted reason st b = record {
    offers = offers;
    from = from;
    books = truncate_all-Kept cfg offers cut reason st b;
    stopped = refl;
  }

  pub over_budget-Going :
      (clock : Clock) (st : WalkState)
      → Going cfg cross mounts offers cut before st
      → Ensures
          (λ (a : Unit {0}). Going cfg cross mounts offers cut before)
          (Halted cfg R)
          (over_budget clock st)
  unfolding over_budget
  over_budget-Going clock st g =
      let next : WalkState = record st { asked = st.asked + 1 } in
      let goes : Going cfg cross mounts offers cut before next = record {
        books = g.books;
        going = g.going;
        crosses = g.crosses;
        table = g.table;
        visited = g.visited;
      } in
      if_cases (Ensures _ (Halted cfg R)) st.stop (λ e. absurd (ground (arith, e, g.going)))
        λ e.
          if_holds (Ensures _ (Halted cfg R)) (clock.cancelled st.asked)
            (on_halt (stop_with-Halted trunc_deadline next g.books))
            (if_holds (Ensures _ (Halted cfg R)) (not (ltb (clock.now st.asked) st.deadline))
              (on_halt (stop_with-Halted trunc_deadline next g.books)) (on_go goes))

  pub over_budget_sampled-Going :
      (clock : Clock) (st : WalkState)
      → Going cfg cross mounts offers cut before st
      → Ensures
          (λ (a : Unit {0}). Going cfg cross mounts offers cut before)
          (Halted cfg R)
          (over_budget_sampled clock st)
  unfolding over_budget_sampled
  over_budget_sampled-Going clock st g =
      if_cases (Ensures _ (Halted cfg R)) st.stop (λ e. absurd (ground (arith, e, g.going)))
        λ e.
          if_holds (Ensures _ (Halted cfg R)) (not (st.inodes_visited % 4096 == 0)) (on_go g)
            (over_budget-Going clock st g)

  pub offer-Going :
      (fi : FileInfo) (st : WalkState)
      → Going cfg cross mounts offers cut before st
      → Ensures
          (λ (a : Unit {0}). Going cfg cross mounts (offers ++ fi ∷ []) cut before)
          (Halted cfg R)
          (offer cfg fi st)
  unfolding offer
  offer-Going fi st g =
      if_cases (Ensures _ (Halted cfg R)) (leb (inodes_cap cfg) st.inodes_visited)
        (λ e. on_halt (stop_with-Halted trunc_inodes st g.books))
        λ e. on_go (record {
          books = offered_to-Kept cfg offers cut fi st g.books e;
          going = g.going;
          crosses = g.crosses;
          table = g.table;
          visited = g.visited;
        })
