-- ===== src/Walker/Entries.antt =====
-- The loop over the entries of a directory in `walkRoot` of internal/collect/walker/walker.go: which
-- of them are pushed.
use plumbline.Base.{
  ℕ, ◌≡◌, refl, sym, ◌∙◌, Bool, true, false, not, List, [], ◌∷◌, ◌++◌, arith, ltb, if◌then◌else◌,
  if_holds, if_cases, All, All-append_one, All-append,
}
use mathlib.Core.List.{Memᴰ, append_assoc, append-nil}
use mathlib.Core.Path.{subst}
use plumbline.Base.Sorting.{All-imp}
use plumbline.Fact.Fs.{trunc_depth}
use plumbline.Host.{FileInfo}
use plumbline.Walker.Mounts.{MountTable}
use plumbline.Walker.State.{
  Config, depth_cap, Clock, WalkState, truncate_all, outside_scope, decline_boundary,
}
use plumbline.Walker.Traverse.{Frame, is_directory, child, scan_entries}
use plumbline.Walker.Steps.{Ensures, on_go, Ensures-then_on}
use plumbline.Walker.Books.{truncate_all-Kept}
use plumbline.Walker.Scan.{infos, Inside, Halted, Going, over_budget_sampled-Going, offer-Going}

pub infos-left :
    (x : FileInfo) (here later : List Frame) → Memᴰ x (infos here) → Memᴰ x (infos (here ++ later))
infos-left x [] later m = elim m [ ]
infos-left x (f ∷ here) later (Memᴰ.head e) = Memᴰ.head e
infos-left x (f ∷ here) later (Memᴰ.tail m) = Memᴰ.tail (infos-left x here later m)

pub infos-right :
    (x : FileInfo) (here later : List Frame) → Memᴰ x (infos later) → Memᴰ x (infos (here ++ later))
infos-right x [] later m = m
infos-right x (f ∷ here) later m = Memᴰ.tail (infos-right x here later m)

module _ (cfg : Config) (cross : Bool) (mounts : MountTable) (root_dev : ℕ) where
  -- What is pushed for one entry.
  record Chosen (offers : List FileInfo) (cut : Bool) (before : WalkState) (e : FileInfo)
      (here : List Frame) (st : WalkState) : Type 0 where
    cut_now : Bool
    state : Going cfg cross mounts offers cut_now before st
    sound : All (λ c. (c.info ≡ e) × Inside cross mounts root_dev c.info) here
    whole : cut_now ≡ false → (cut ≡ false) × (Inside cross mounts root_dev e → Memᴰ e (infos here))

  -- What is pushed for the entries of a directory: only entries that are inside, and all of them
  -- unless the walk is cut short.
  pub record Scanned (offers : List FileInfo) (cut : Bool) (before : WalkState) (es : List FileInfo)
      (children : List Frame) (st : WalkState) : Type 0 where
    pub cut_now : Bool
    pub state : Going cfg cross mounts (offers ++ es) cut_now before st
    pub sound : All (λ c. Memᴰ c.info es × Inside cross mounts root_dev c.info) children
    pub whole :
        cut_now ≡ false
        → (cut ≡ false) × All (λ e. Inside cross mounts root_dev e → Memᴰ e (infos children)) es

module _ (cfg : Config) (cross : Bool) (mounts : MountTable) (R : FileInfo → Type 0)
    (root_dev : ℕ) where
  decline_boundary-Going :
      (offers : List FileInfo) (cut : Bool) (before : WalkState) (e : FileInfo) (st : WalkState)
      → Going cfg cross mounts offers cut before st
      → Ensures
          (λ declined st'.
            Going cfg cross mounts offers cut before st'
            × (outside_scope cross mounts root_dev e ≡ declined))
          (Halted cfg R)
          (decline_boundary root_dev e st)
  unfolding decline_boundary
  decline_boundary-Going offers cut before e st g =
      let same : outside_scope st.cross_fs st.mounts root_dev e
          ≡ outside_scope cross mounts root_dev e =
        cc (g.crosses, g.table) in
      if_cases (Ensures _ (Halted cfg R)) (outside_scope st.cross_fs st.mounts root_dev e)
        (λ h. on_go (
          record {
            books = g.books;
            going = g.going;
            crosses = g.crosses;
            table = g.table;
            visited = g.visited;
          },
          sym same ∙ h,
        ))
        λ h. on_go (g, sym same ∙ h)

  pushed-Chosen :
      (offers : List FileInfo) (cut : Bool) (before : WalkState) (depth : ℕ) (e : FileInfo)
      (declined : Bool) (st : WalkState)
      → Going cfg cross mounts offers cut before st
      → outside_scope cross mounts root_dev e ≡ declined
      → is_directory e ≡ true
      → Chosen cfg cross mounts root_dev offers cut before e
          (if declined then [] else record { info = e; depth = depth } ∷ [])
          st
  pushed-Chosen offers cut before depth e true st g h d = record {
    cut_now = cut;
    state = g;
    sound = tt;
    whole = λ c. (c, λ i. absurd (ground (arith, h, i.1)));
  }
  pushed-Chosen offers cut before depth e false st g h d = record {
    cut_now = cut;
    state = g;
    sound = ((refl, (d, h)), tt);
    whole = λ c. (c, λ i. Memᴰ.head refl);
  }

  child-Chosen :
      (offers : List FileInfo) (cut : Bool) (before : WalkState) (depth : ℕ) (e : FileInfo)
      (st : WalkState)
      → Going cfg cross mounts offers cut before st
      → Ensures
          (Chosen cfg cross mounts root_dev offers cut before e)
          (Halted cfg R)
          (child cfg root_dev depth e st)
  unfolding child truncate_all
  child-Chosen offers cut before depth e st g =
      if_cases (Ensures _ (Halted cfg R)) (not (is_directory e))
        (λ h. on_go (record {
          cut_now = cut;
          state = g;
          sound = tt;
          whole = λ c. (c, λ i. absurd (ground (arith, h, i)));
        }))
        λ h.
          if_holds (Ensures _ (Halted cfg R)) (ltb (depth_cap cfg) depth)
            (on_go (record {
              cut_now = true;
              state = record {
                books = truncate_all-Kept cfg offers cut trunc_depth st g.books;
                going = g.going;
                crosses = g.crosses;
                table = g.table;
                visited = g.visited;
              };
              sound = tt;
              whole = λ c. absurd (ground (arith, c));
            }))
            (Ensures-then_on (decline_boundary-Going offers cut before e st g) λ declined st' p.
              on_go
                (pushed-Chosen offers cut before depth e declined st' p.0 p.1 (ground (arith, h))))

  module _ (clock : Clock) (before : WalkState) (depth : ℕ) where
    joined-Scanned :
        (offers : List FileInfo) (cut : Bool) (e : FileInfo) (es : List FileInfo)
        (here later : List Frame) (mid st : WalkState)
        → (c : Chosen cfg cross mounts root_dev (offers ++ e ∷ []) cut before e here mid)
        → Scanned cfg cross mounts root_dev (offers ++ e ∷ []) c.cut_now before es later st
        → Scanned cfg cross mounts root_dev offers cut before (e ∷ es) (here ++ later) st
    joined-Scanned offers cut e es here later mid st c d = record {
      cut_now = d.cut_now;
      state =
          subst (λ l. Going cfg cross mounts l d.cut_now before st)
            (append_assoc offers (e ∷ []) es) d.state;
      sound =
          All-append _ here later (All-imp _ _ here (λ f p. (Memᴰ.head p.0, p.1)) c.sound)
            (All-imp _ _ later (λ f p. (Memᴰ.tail p.0, p.1)) d.sound);
      whole = λ n.
          let w = d.whole n in
          let v = c.whole w.0 in
          (
            v.0,
            (
              (λ i. infos-left e here later (v.1 i)),
              All-imp _ _ es (λ x k i. infos-right x here later (k i)) w.1,
            ),
          );
    }

    pub scan_entries-Scanned :
        (offers : List FileInfo) (cut : Bool) (es : List FileInfo) (st : WalkState)
        → All R offers
        → All R es
        → Going cfg cross mounts offers cut before st
        → Ensures
            (Scanned cfg cross mounts root_dev offers cut before es)
            (Halted cfg R)
            (scan_entries cfg root_dev clock depth es st)
    unfolding scan_entries
    scan_entries-Scanned offers cut [] st r rs g = on_go (record {
      cut_now = cut;
      state = subst (λ l. Going cfg cross mounts l cut before st) (sym (append-nil offers)) g;
      sound = tt;
      whole = λ c. (c, tt);
    })
    scan_entries-Scanned offers cut (e ∷ es) st r rs g =
        let next : All R (offers ++ e ∷ []) = All-append_one R offers e r rs.0 in
        Ensures-then_on
          (over_budget_sampled-Going cfg cross mounts R offers cut r before clock st g)
          λ a st1 g1.
            Ensures-then_on (offer-Going cfg cross mounts R offers cut r before e st1 g1)
              λ b st2 g2.
                Ensures-then_on (child-Chosen (offers ++ e ∷ []) cut before depth e st2 g2)
                  λ here st3 c.
                    Ensures-then_on
                      (scan_entries-Scanned (offers ++ e ∷ []) c.cut_now es st3 next rs.1 c.state)
                      λ later st4 d. on_go (joined-Scanned offers cut e es here later st3 st4 c d)
