-- ===== src/Walker/Rounds.antt =====
-- One round of the loop of `walkRoot` of internal/collect/walker/walker.go: the entry into a directory,
-- and the push of its children.
use plumbline.Base.{
  str_ltb, ℕ, ◌+◌, ◌≡◌, refl, ◌∙◌, Bool, true, false, ◌||◌, List, ◌∷◌, ◌++◌, arith, if◌then◌else◌,
  if_cases, All,
}
use mathlib.Core.Path.{subst}
use plumbline.Base.Sorting.{sort_by-All}
use plumbline.Fact.Fs.{trunc_unreadable, trunc_dir_listing}
use plumbline.Host.{FileInfo, DirResult, Answer, answer, refuse, System}
use plumbline.Walker.Mounts.{MountTable}
use plumbline.Walker.State.{Config, Clock, identified, dev_ino, WalkState, pure, truncate_all}
use plumbline.Walker.Traverse.{
  Frame, visited_before, enter, count_listing, sorted_entries, push_children, round,
}
use plumbline.Walker.Steps.{Ensures, on_go, Ensures-then_on, Ensures-imp}
use plumbline.Walker.Books.{Kept, truncate_all-Kept}
use plumbline.Walker.Scan.{Halted, Going, over_budget-Going}
use plumbline.Walker.Entries.{Scanned, scan_entries-Scanned}

module _ (cfg : Config) (cross : Bool) (mounts : MountTable) where
  -- The entry into a directory changes the set of visited directories only.
  pub record Entered (offers : List FileInfo) (cut : Bool) (fi : FileInfo) (before : WalkState)
      (seen : Bool) (st : WalkState) : Type 0 where
    pub state : Going cfg cross mounts offers cut st st
    pub known : seen ≡ true → (visited_before fi before ≡ true) × (st.visited ≡ before.visited)
    pub fresh :
        seen ≡ false
        → st.visited ≡ (if identified fi then dev_ino fi ∷ before.visited else before.visited)

  settled :
      {offers : List FileInfo} {cut : Bool} {before st : WalkState}
      → Going cfg cross mounts offers cut before st
      → Going cfg cross mounts offers cut st st
  settled g = record {
    books = g.books;
    going = g.going;
    crosses = g.crosses;
    table = g.table;
    visited = refl;
  }

  pub enter-Entered :
      {Q : WalkState → Type 0} (offers : List FileInfo) (cut : Bool) (fi : FileInfo)
      (st : WalkState)
      → Going cfg cross mounts offers cut st st
      → Ensures (Entered offers cut fi st) Q (enter fi st)
  unfolding enter
  enter-Entered {Q} offers cut fi st g =
      if_cases (Ensures _ Q) (visited_before fi st)
        (λ h. on_go (record {
          state = record {
            books = g.books;
            going = g.going;
            crosses = g.crosses;
            table = g.table;
            visited = refl;
          };
          known = λ k. (h, refl);
          fresh = λ k. absurd (ground (arith, k));
        }))
        λ h.
          if_cases (Ensures _ Q) (identified fi)
            (λ i. on_go (record {
              state = record {
                books = g.books;
                going = g.going;
                crosses = g.crosses;
                table = g.table;
                visited = refl;
              };
              known = λ k. absurd (ground (arith, k));
              fresh = λ k. ground (arith, i);
            }))
            λ i. on_go (record {
              state = g;
              known = λ k. absurd (ground (arith, k));
              fresh = λ k. ground (arith, i);
            })

  module _ (root_dev : ℕ) where
    -- What the answer to `ReadDir` leads to.
    pub data Pushed (offers : List FileInfo) (cut : Bool) (before : WalkState) (stack : List Frame)
        (a : Answer DirResult) (pushed : List Frame) (st : WalkState) : Type 0 where
      unread :
          pushed ≡ stack
          → Going cfg cross mounts offers true before st
          → Pushed offers cut before stack a pushed st
      read :
          (l : DirResult)
          → a ≡ answer l
          → (children : List Frame) → pushed ≡ children ++ stack
          → (cut_now : Bool) → (cut_now ≡ false → (cut ≡ false) × (l.truncated ≡ false))
          → Scanned cfg cross mounts root_dev offers cut_now before
              (sorted_entries l.entries)
              children
              st
          → Pushed offers cut before stack a pushed st

module _ (cfg : Config) (cross : Bool) (mounts : MountTable) (R : FileInfo → Type 0) (root_dev : ℕ)
    (clock : Clock) where
  count_listing-Going :
      (offers : List FileInfo) (cut truncated : Bool) (before st : WalkState)
      → Going cfg cross mounts offers cut before st
      → Going cfg cross mounts offers (cut || truncated) before (count_listing truncated st)
  unfolding count_listing truncate_all
  count_listing-Going offers cut true before st g = record {
    books =
        subst (λ c. Kept cfg offers c (truncate_all trunc_dir_listing st)) (ground arith)
          (truncate_all-Kept cfg offers cut trunc_dir_listing st g.books);
    going = g.going;
    crosses = g.crosses;
    table = g.table;
    visited = g.visited;
  }
  count_listing-Going offers cut false before st g = record {
    books = subst (λ c. Kept cfg offers c st) (ground arith) g.books;
    going = g.going;
    crosses = g.crosses;
    table = g.table;
    visited = g.visited;
  }

  pub push_children-Pushed :
      (offers : List FileInfo) (cut : Bool) (depth : ℕ) (stack : List Frame) (a : Answer DirResult)
      (st : WalkState)
      → All R offers
      → ((l : DirResult) → a ≡ answer l → All R l.entries)
      → Going cfg cross mounts offers cut st st
      → Ensures
          (Pushed cfg cross mounts root_dev offers cut st stack a)
          (Halted cfg R)
          (push_children cfg root_dev clock depth stack a st)
  unfolding push_children truncate_all
  push_children-Pushed offers cut depth stack (refuse e) st r rs g = on_go (
      unread refl (record {
        books = truncate_all-Kept cfg offers cut trunc_unreadable st g.books;
        going = g.going;
        crosses = g.crosses;
        table = g.table;
        visited = g.visited;
      }))
  push_children-Pushed offers cut depth stack (answer l) st r rs g =
      let entries =
        sort_by-All (λ (a : FileInfo) b. str_ltb a.path b.path) R l.entries (rs l refl) in
      Ensures-then_on
        (scan_entries-Scanned cfg cross mounts R root_dev clock st depth offers (cut || l.truncated)
          (sorted_entries l.entries) (count_listing l.truncated st) r entries
          (count_listing-Going offers cut l.truncated st st g))
        λ children st' c.
          on_go (read l refl children refl (cut || l.truncated) (λ h. ground (arith, h)) c)

  module _ (s : System) where
    -- A round either skips a directory that was visited before, or lists one.
    pub data Rounded (offers : List FileInfo) (cut : Bool) (f : Frame) (stack : List Frame)
        (st : WalkState) (pushed : List Frame) (st' : WalkState) : Type 0 where
      skipped :
          visited_before f.info st ≡ true
          → pushed ≡ stack
          → st'.visited ≡ st.visited
          → Going cfg cross mounts offers cut st' st'
          → Rounded offers cut f stack st pushed st'
      listed :
          (entered : WalkState)
          → entered.visited
            ≡ (if identified f.info then dev_ino f.info ∷ st.visited else st.visited)
          → Pushed cfg cross mounts root_dev offers cut entered stack
              (s.read_dir f.info.path cfg.max_dir_entries)
              pushed
              st'
          → Rounded offers cut f stack st pushed st'

    round_after :
        (offers : List FileInfo) (cut : Bool) (f : Frame) (stack : List Frame) (st st1 : WalkState)
        (seen : Bool) (st2 : WalkState)
        → All R offers
        → ((l : DirResult)
            → s.read_dir f.info.path cfg.max_dir_entries ≡ answer l
            → All R l.entries)
        → st1.visited ≡ st.visited
        → Entered cfg cross mounts offers cut f.info st1 seen st2
        → Ensures (Rounded offers cut f stack st) (Halted cfg R) (
            (if seen
                then pure stack
                else push_children cfg root_dev clock
                    (f.depth + 1)
                    stack
                    (s.read_dir f.info.path cfg.max_dir_entries))
              st2)
    unfolding visited_before
    round_after offers cut f stack st st1 true st2 r rs v e =
        let (was, same) = e.known refl in
        on_go (skipped (ground (arith, was, v)) refl (same ∙ v) e.state)
    round_after offers cut f stack st st1 false st2 r rs v e =
        Ensures-imp
          (push_children-Pushed offers cut (f.depth + 1) stack
            (s.read_dir f.info.path cfg.max_dir_entries) st2 r rs e.state)
          (λ pushed st3 p. listed st2 (ground (arith, e.fresh refl, v)) p) (λ st3 h. h)

    pub round-Rounded :
        (offers : List FileInfo) (cut : Bool) (f : Frame) (stack : List Frame) (st : WalkState)
        → All R offers
        → ((l : DirResult)
            → s.read_dir f.info.path cfg.max_dir_entries ≡ answer l
            → All R l.entries)
        → Going cfg cross mounts offers cut st st
        → Ensures
            (Rounded offers cut f stack st)
            (Halted cfg R)
            (round cfg root_dev clock s f stack st)
    unfolding round
    round-Rounded offers cut f stack st r rs g =
        Ensures-then_on (over_budget-Going cfg cross mounts R offers cut r st clock st g)
          λ a st1 g1.
            Ensures-then_on
              (enter-Entered cfg cross mounts offers cut f.info st1 (settled cfg cross mounts g1))
              λ seen st2 e. round_after offers cut f stack st st1 seen st2 r rs g1.visited e
