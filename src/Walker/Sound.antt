-- ===== src/Walker/Sound.antt =====
-- A walk of internal/collect/walker/walker.go sees nothing but what it is to see, and stays within its
-- bounds.
use plumbline.Base.{
  str_ltb, ℕ, zero, suc, ◌≡◌, refl, sym, Bool, true, false, Option, some, List, [], ◌∷◌, ◌++◌,
  arith, All, All-append,
}
use mathlib.Core.List.{Memᴰ}
use mathlib.Core.Path.{subst}
use mathlib.Core.Option.{some-injective}
use plumbline.Base.Sorting.{All-imp, sort_by-All}
use plumbline.Host.{FileInfo, DirResult, answer, System}
use plumbline.Walker.Mounts.{read_mount_table}
use plumbline.Walker.State.{Config, Clock, WalkState, Flow}
use plumbline.Walker.Traverse.{Frame, sorted_entries, resume, walk_stack}
use plumbline.Walker.Steps.{Ensures, on_go, on_halt}
use plumbline.Walker.Books.{Kept}
use plumbline.Walker.Scan.{Inside, Halted, Going}
use plumbline.Walker.Rounds.{Pushed, unread, read, Rounded, skipped, listed, round-Rounded}
use plumbline.Walker.Reach.{crosses, Listed, sub, Found, entry}

pub All_of {ℓ κ} : {A : Type ℓ} (P : A → Type κ) (l : List A) → ((a : A) → Memᴰ a l → P a) → All P l
All_of P [] h = tt
All_of P (x ∷ xs) h = (h x (Memᴰ.head refl), All_of P xs (λ a m. h a (Memᴰ.tail m)))

pub All-at {ℓ κ} : {A : Type ℓ} (P : A → Type κ) (l : List A) (a : A) → All P l → Memᴰ a l → P a
All-at P [] a h m = elim m [ ]
All-at P (x ∷ xs) a h (Memᴰ.head e) = subst P (sym e) h.0
All-at P (x ∷ xs) a h (Memᴰ.tail m) = All-at P xs a h.1 m

module _ {P : List Frame → WalkState → Type 0} {Q T : WalkState → Type 0} where
  pub resumed :
      {k : List Frame → WalkState → Option WalkState} {m : Flow (List Frame)} {st' : WalkState}
      → Ensures P Q m
      → ((stack : List Frame) (st : WalkState) → P stack st → k stack st ≡ some st' → T st')
      → ((st : WalkState) → Q st → T st)
      → resume k m ≡ some st'
      → T st'
  resumed (on_go p) h l e = h _ _ p e
  resumed (on_halt q) h l e = subst T (some-injective _ _ e) (l _ q)

module _ (cfg : Config) (clock : Clock) (s : System) (R : FileInfo → Type 0) where
  -- Between two roots: the walk has offered what it is to see, and goes on or has been stopped.
  pub record Between (st : WalkState) : Type 0 where
    pub offers : List FileInfo
    pub cut : Bool
    pub from : All R offers
    pub books : Kept cfg offers cut st
    pub stopped : st.stop ≡ true → cut ≡ true
    pub crosses : st.stop ≡ false → st.cross_fs ≡ crosses cfg s
    pub table : st.stop ≡ false → st.mounts ≡ read_mount_table s

  module _ (root : FileInfo) (within : (fi : FileInfo) → Found cfg s root fi → R fi) where
    -- The loop of one root: every frame is a directory to be listed.
    pub record Open (stack : List Frame) (st : WalkState) : Type 0 where
      pub offers : List FileInfo
      pub cut : Bool
      pub from : All R offers
      pub frames : All (λ f. Listed cfg s root f.info) stack
      pub state : Going cfg (crosses cfg s) (read_mount_table s) offers cut st st

    pub entries-from :
        (d : FileInfo)
        → Listed cfg s root d
        → (l : DirResult) → s.read_dir d.path cfg.max_dir_entries ≡ answer l
        → All R l.entries
    entries-from d i l e = All_of R l.entries (λ fi m. within fi (entry i e m))

    pub children-Listed :
        (d : FileInfo)
        → Listed cfg s root d
        → (l : DirResult) → s.read_dir d.path cfg.max_dir_entries ≡ answer l
        → All
            (λ e. Inside (crosses cfg s) (read_mount_table s) root.dev e → Listed cfg s root e)
            (sorted_entries l.entries)
    children-Listed d i l e =
        sort_by-All (λ (a : FileInfo) b. str_ltb a.path b.path) _ l.entries
          (All_of _ l.entries (λ fi m k. sub i e m k))

    pub settle :
        {offers : List FileInfo} {cut : Bool} {before st : WalkState}
        → Going cfg (crosses cfg s) (read_mount_table s) offers cut before st
        → Going cfg (crosses cfg s) (read_mount_table s) offers cut st st
    settle g = record {
      books = g.books;
      going = g.going;
      crosses = g.crosses;
      table = g.table;
      visited = refl;
    }

    pub pushed-Open :
        (offers : List FileInfo) (cut : Bool) (d : FileInfo) (before : WalkState)
        (stack pushed : List Frame) (st : WalkState)
        → All R offers
        → Listed cfg s root d
        → All (λ (f : Frame). Listed cfg s root f.info) stack
        → Pushed cfg
            (crosses cfg s)
            (read_mount_table s)
            root.dev
            offers
            cut
            before
            stack
            (s.read_dir d.path cfg.max_dir_entries)
            pushed
            st
        → Open pushed st
    pushed-Open offers cut d before stack pushed st r i fs (unread p g) = record {
      offers = offers;
      cut = true;
      from = r;
      frames = subst (All _) (sym p) fs;
      state = settle g;
    }
    pushed-Open offers cut d before stack pushed st r i fs (read l e children p cut_now w c) =
        record {
          offers = offers ++ sorted_entries l.entries;
          cut = c.cut_now;
          from = All-append R offers (sorted_entries l.entries) r (
              sort_by-All (λ (a : FileInfo) b. str_ltb a.path b.path) R l.entries
                (entries-from d i l e));
          frames = subst (All _) (sym p) (
              All-append _ children stack
                (All-imp _ _ children
                  (λ f k.
                    All-at _ (sorted_entries l.entries) f.info (children-Listed d i l e) k.0 k.1)
                  c.sound)
                fs);
          state = settle c.state;
        }

    pub rounded-Open :
        (offers : List FileInfo) (cut : Bool) (f : Frame) (stack : List Frame) (st : WalkState)
        (pushed : List Frame) (st' : WalkState)
        → All R offers
        → Listed cfg s root f.info
        → All (λ (f : Frame). Listed cfg s root f.info) stack
        → Rounded cfg
            (crosses cfg s)
            (read_mount_table s)
            R
            root.dev
            clock
            s
            offers
            cut
            f
            stack
            st
            pushed
            st'
        → Open pushed st'
    rounded-Open offers cut f stack st pushed st' r i fs (skipped v p w g) = record {
      offers = offers;
      cut = cut;
      from = r;
      frames = subst (All _) (sym p) fs;
      state = g;
    }
    rounded-Open offers cut f stack st pushed st' r i fs (listed entered v p) =
        pushed-Open offers cut f.info entered stack pushed st' r i fs p

    pub ended-Between : (st : WalkState) → Halted cfg R st → Between st
    ended-Between st h = record {
      offers = h.offers;
      cut = true;
      from = h.from;
      books = h.books;
      stopped = λ e. refl;
      crosses = λ e. absurd (ground (arith, e, h.stopped));
      table = λ e. absurd (ground (arith, e, h.stopped));
    }

    loop_state : (stack : List Frame) (st : WalkState) → Open stack st → Between st
    loop_state stack st o = record {
      offers = o.offers;
      cut = o.cut;
      from = o.from;
      books = o.state.books;
      stopped = λ e. absurd (ground (arith, e, o.state.going));
      crosses = λ e. o.state.crosses;
      table = λ e. o.state.table;
    }

    pub walk_stack-Between :
        (n : ℕ) (stack : List Frame) (st st' : WalkState)
        → Open stack st
        → walk_stack cfg root.dev clock s n stack st ≡ some st'
        → Between st'
    unfolding walk_stack
    walk_stack-Between zero [] st st' o e =
        subst Between (some-injective _ _ e) (loop_state [] st o)
    walk_stack-Between (suc n) [] st st' o e =
        subst Between (some-injective _ _ e) (loop_state [] st o)
    walk_stack-Between zero (f ∷ stack) st st' o e = absurd (ground (arith, e))
    walk_stack-Between (suc n) (f ∷ stack) st st' o e =
        resumed
          (round-Rounded cfg (crosses cfg s) (read_mount_table s) R root.dev clock s o.offers o.cut
            f stack st o.from (entries-from f.info o.frames.0) o.state)
          (λ pushed st1 p.
            walk_stack-Between n pushed st1 st'
              (rounded-Open o.offers o.cut f stack st pushed st1 o.from o.frames.0 o.frames.1 p))
          ended-Between e
