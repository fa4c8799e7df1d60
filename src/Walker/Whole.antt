-- ===== src/Walker/Whole.antt =====
-- A whole walk of internal/collect/walker/walker.go: from the state before the first root to the facts.
use plumbline.Base.{
  Str, ◌≡◌, refl, sym, ◌∙◌, inl, inr, Bool, true, false, Option, some, List, [], ◌∷◌, ◌++◌, arith,
  if_cases, All, All-append_one,
}
use mathlib.Core.Path.{subst}
use mathlib.Core.Option.{some-injective}
use plumbline.Fact.Fs.{trunc_unreadable}
use plumbline.Host.{Answer-cases, FileInfo, answer, System}
use plumbline.Walker.Mounts.{read_mount_table}
use plumbline.Walker.State.{Config, inodes_cap, Clock, WalkState, Flow, go, halt, truncate_all}
use plumbline.Walker.Traverse.{is_directory, descend, walk_found, walk_root}
use plumbline.Walker.Steps.{Ensures, on_go, on_halt}
use plumbline.Walker.Books.{truncate_all-Kept}
use plumbline.Walker.Scan.{Halted, Going, offer-Going}
use plumbline.Walker.Reach.{crosses, top, Found, itself}
use plumbline.Walker.Sound.{Between, walk_stack-Between, settle, ended-Between}

module _ (cfg : Config) (clock : Clock) (s : System) (R : FileInfo → Type 0) where
  pub between-Going :
      (st : WalkState)
      → (b : Between cfg clock s R st) → st.stop ≡ false
      → Going cfg (crosses cfg s) (read_mount_table s) b.offers b.cut st st
  between-Going st b e = record {
    books = b.books;
    going = e;
    crosses = b.crosses e;
    table = b.table e;
    visited = refl;
  }

  pub going-Between :
      (offers : List FileInfo) (cut : Bool) (before st : WalkState)
      → All R offers
      → Going cfg (crosses cfg s) (read_mount_table s) offers cut before st
      → Between cfg clock s R st
  going-Between offers cut before st r g = record {
    offers = offers;
    cut = cut;
    from = r;
    books = g.books;
    stopped = λ e. absurd (ground (arith, e, g.going));
    crosses = λ e. g.crosses;
    table = λ e. g.table;
  }

  module _ (root : FileInfo) (within : (fi : FileInfo) → Found cfg s root fi → R fi) where
    descend-Between :
        (offers : List FileInfo) (cut : Bool) (before : WalkState) {m : Flow (Unit {0})}
        (st' : WalkState)
        → All R offers
        → is_directory root ≡ true
        → Ensures
            (λ (a : Unit {0}). Going cfg (crosses cfg s) (read_mount_table s) offers cut before)
            (Halted cfg R)
            m
        → descend cfg clock s root m ≡ some st'
        → Between cfg clock s R st'
    unfolding descend
    descend-Between offers cut before st' r d (on_halt h) e =
        subst (Between cfg clock s R) (some-injective _ _ e)
          (ended-Between cfg clock s R root within _ h)
    descend-Between offers cut before st' r d (on_go g) e =
        walk_stack-Between cfg clock s R root within (inodes_cap cfg) _ _ st'
          (record {
            offers = offers;
            cut = cut;
            from = r;
            frames = (top refl d, tt);
            state = settle cfg clock s R root within g;
          })
          e

    offered-Between :
        (offers : List FileInfo) (cut : Bool) (before : WalkState) {m : Flow (Unit {0})}
        (st' : WalkState)
        → All R offers
        → Ensures
            (λ (a : Unit {0}). Going cfg (crosses cfg s) (read_mount_table s) offers cut before)
            (Halted cfg R)
            m
        → elim m [ halt st1 ↦ some st1 | go a st1 ↦ some st1 ] ≡ some st'
        → Between cfg clock s R st'
    offered-Between offers cut before st' r (on_halt h) e =
        subst (Between cfg clock s R) (some-injective _ _ e)
          (ended-Between cfg clock s R root within _ h)
    offered-Between offers cut before st' r (on_go g) e =
        subst (Between cfg clock s R) (some-injective _ _ e) (going-Between offers cut before _ r g)

    walk_found-Between :
        (st st' : WalkState)
        → Between cfg clock s R st
        → st.stop ≡ false
        → walk_found cfg clock s root st ≡ some st'
        → Between cfg clock s R st'
    unfolding walk_found
    walk_found-Between st st' b n =
        let r : All R (b.offers ++ root ∷ []) =
          All-append_one R b.offers root b.from (within root (itself refl)) in
        let o =
          offer-Going cfg (crosses cfg s) (read_mount_table s) R b.offers b.cut b.from st root st
            (between-Going st b n) in
        if_cases (λ (w : Option WalkState). w ≡ some st' → Between cfg clock s R st')
          (is_directory root) (λ d. descend-Between (b.offers ++ root ∷ []) b.cut st st' r d o)
          λ d. offered-Between (b.offers ++ root ∷ []) b.cut st st' r o

  pub walk_root-Between :
      (root : Str) (st st' : WalkState)
      → ((r fi : FileInfo) → s.stat root ≡ answer r → Found cfg s r fi → R fi)
      → Between cfg clock s R st
      → st.stop ≡ false
      → walk_root cfg clock s root st ≡ some st'
      → Between cfg clock s R st'
  unfolding walk_root truncate_all
  walk_root-Between root st st' within b n e = elim (Answer-cases (s.stat root)) [
    | inl (fi, h) ↦
        walk_found-Between fi (λ x. within fi x h) st st' b n (sym (rw (h, walk_root) refl) ∙ e)
    | inr (x, h) ↦
        let marked : Between cfg clock s R (truncate_all trunc_unreadable st) = record {
          offers = b.offers;
          cut = true;
          from = b.from;
          books = truncate_all-Kept cfg b.offers b.cut trunc_unreadable st b.books;
          stopped = λ k. refl;
          crosses = b.crosses;
          table = b.table;
        } in
        subst (Between cfg clock s R) (some-injective _ _ (sym (rw (h, walk_root) refl) ∙ e)) marked
  ]
