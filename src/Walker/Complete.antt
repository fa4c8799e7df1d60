-- ===== src/Walker/Complete.antt =====
-- What a check may conclude from a fact of internal/collect/walker/walker.go that is `Complete`
-- (docs/adr/0014-walk-scope-is-not-truncation.md): nothing that is in scope was left out.
use plumbline.Base.{
  select, tally, Str, str_ltb, ℕ, zero, suc, ◌≤◌, ◌<◌, ◌≡◌, refl, sym, ap, ◌∙◌, ◌≢◌, inl, inr, Bool,
  true, false, none, some, List, [], ◌∷◌, map, arith, Bool-cases, Option-cases, if_holds, if_cases,
  length, All, Both,
}
use mathlib.Core.List.{Memᴰ}
use mathlib.Core.Path.{subst}
use mathlib.Core.Option.{some-injective}
use plumbline.Fact.Fs.{FsRow, FsMatches, FsTally, complete, tally_complete}
use plumbline.Host.{FileInfo, answer, System}
use plumbline.Walker.Mounts.{read_mount_table}
use plumbline.Walker.Questions.{
  Interest, Tally, matches, row_of, hits_cap, key_of, bucket_at, as_fact, Recording, Folding,
}
use plumbline.Walker.Questions.Rows.{Account, matching, take_all}
use plumbline.Walker.Questions.Counts.{counted_for, count_no_first}
use plumbline.Walker.Questions.Balances.{Balance}
use plumbline.Walker.Questions.Sorted.{bucket_at-sorted_buckets}
use plumbline.Walker.State.{Config, inodes_cap, roots_of, Clock, WalkState, Flow}
use plumbline.Walker.Traverse.{Frame, is_directory, walk_stack, descend, walk_found, walk_root}
use plumbline.Walker.Run.{
  Result, walked, config_error, start, walk_roots, finish_recording, finish_folding, finish, ended,
  walk,
}
use plumbline.Walker.Steps.{Ensures, on_go, on_halt}
use plumbline.Walker.Ends.{walk-ends}
use plumbline.Walker.Books.{Kept}
use plumbline.Walker.Scan.{Halted, Going, offer-Going}
use plumbline.Walker.Rounds.{round-Rounded}
use plumbline.Walker.Reach.{crosses, top, Found}
use plumbline.Walker.Sound.{resumed, settle}
use plumbline.Walker.Start.{start-Going}
use plumbline.Walker.Report.{pair_facts, pair_tallies}
use plumbline.Walker.Members.{Memᴰ-sort_by}
use plumbline.Walker.Covered.{Apart, Within, nothing_asked, Closed}
use plumbline.Walker.Closed.{rounded-Closed, closed-Found}

Memᴰ-select :
    {A : Type 0} (p : A → Bool) (a : A) (l : List A) → Memᴰ a l → p a ≡ true → Memᴰ a (select p l)
unfolding select
Memᴰ-select p a [] m h = elim m [ ]
Memᴰ-select p a (x ∷ xs) (Memᴰ.head e) h =
    if_cases (λ l. Memᴰ a l) (p x) (λ k. Memᴰ.head e) λ k. absurd (ground (arith, k, h, ap p e))
Memᴰ-select p a (x ∷ xs) (Memᴰ.tail m) h =
    if_holds (λ l. Memᴰ a l) (p x) (Memᴰ.tail (Memᴰ-select p a xs m h)) (Memᴰ-select p a xs m h)

Memᴰ-map : {A B : Type 0} (f : A → B) (a : A) (l : List A) → Memᴰ a l → Memᴰ (f a) (map f l)
Memᴰ-map f a [] m = elim m [ ]
Memᴰ-map f a (x ∷ xs) (Memᴰ.head e) = Memᴰ.head (ap f e)
Memᴰ-map f a (x ∷ xs) (Memᴰ.tail m) = Memᴰ.tail (Memᴰ-map f a xs m)

counts : {A : Type 0} (p : A → Bool) (a : A) (l : List A) → Memᴰ a l → p a ≡ true → 0 < tally p l
unfolding tally
counts p a [] m h = elim m [ ]
counts p a (x ∷ xs) (Memᴰ.head e) h = ground (arith, h, ap p e)
counts p a (x ∷ xs) (Memᴰ.tail m) h = ground (arith, counts p a xs m h)

module _ (Due : FileInfo → Type 0) where
  -- A complete fact of an interest has a row for every inode that is due and matches.
  abbrev pub CompleteOf : Interest → FsMatches → Type 0
  CompleteOf i m =
      complete m ≡ true → (fi : FileInfo) → Due fi → matches i fi ≡ true → Memᴰ (row_of i fi) m.rows

  -- A complete fact of a tally has a bucket for every key of an inode that is due.
  abbrev pub CompleteTally : Tally → FsTally → Type 0
  CompleteTally t m =
      tally_complete m ≡ true
      → (fi : FileInfo) (k : ℕ) → Due fi
      → key_of t fi ≡ some k
      → bucket_at k m.buckets ≢ none

  module _ (offers : List FileInfo) (cut : Bool)
      (all : cut ≡ false → (fi : FileInfo) → Due fi → Memᴰ fi offers) where
    finish_recording-CompleteOf :
        (n : ℕ) (q : Recording)
        → Account offers cut q
        → CompleteOf q.interest (finish_recording n q)
    unfolding finish_recording complete
    finish_recording-CompleteOf n q a c fi d m =
        let l = matching q.interest offers in
        let short : length l ≤ hits_cap q.interest = ground (arith, a.overflow, c) in
        let rows : q.fact.rows ≡ map (row_of q.interest) l =
          a.rows ∙ ap (map (row_of q.interest)) (take_all (hits_cap q.interest) l short) in
        let here =
          Memᴰ-select (matches q.interest) fi offers (all (ground (arith, a.truncated, c)) fi d)
            m in
        Memᴰ-sort_by (λ (a : FsRow) b. str_ltb a.path b.path) (row_of q.interest fi) q.fact.rows
          (subst (Memᴰ (row_of q.interest fi)) (sym rows) (Memᴰ-map (row_of q.interest) fi l here))

    finish_folding-CompleteTally :
        (n : ℕ) (f : Folding) → Balance offers cut f → CompleteTally f.tally (finish_folding n f)
    unfolding finish_folding tally_complete as_fact
    finish_folding-CompleteTally n f a c fi k d e none_there =
        let p = counted_for f.tally k in
        let here =
          counts p fi offers (all (ground (arith, a.truncated, c)) fi d) (ground (arith, e)) in
        ground (
          arith,
          here,
          c,
          a.exact k,
          none_there,
          bucket_at-sorted_buckets k f.state.buckets a.single,
          count_no_first p offers,
        )

module _ (cfg : Config) (clock : Clock) (s : System) (root : FileInfo)
    (apart : Apart cfg clock s root) where
  -- What was offered, and that it is everything if no mark was set.
  record Covers (st : WalkState) : Type 0 where
    offers : List FileInfo
    cut : Bool
    books : Kept cfg offers cut st
    all : cut ≡ false → (fi : FileInfo) → Found cfg s root fi → Memᴰ fi offers

  stopped_walk : (st : WalkState) → Halted cfg (Within cfg clock s root) st → Covers st
  stopped_walk st h = record {
    offers = h.offers;
    cut = true;
    books = h.books;
    all = λ n. absurd (ground (arith, n));
  }

  finished_walk : (st : WalkState) → Closed cfg clock s root [] st → Covers st
  finished_walk st c = record {
    offers = c.loop.offers;
    cut = c.loop.cut;
    books = c.loop.state.books;
    all = λ n. closed-Found cfg clock s root st c n;
  }

  walk_stack-Covers :
      (n : ℕ) (stack : List Frame) (st st' : WalkState)
      → Closed cfg clock s root stack st
      → walk_stack cfg root.dev clock s n stack st ≡ some st'
      → Covers st'
  unfolding walk_stack
  walk_stack-Covers zero [] st st' c e = subst Covers (some-injective _ _ e) (finished_walk st c)
  walk_stack-Covers (suc n) [] st st' c e = subst Covers (some-injective _ _ e) (finished_walk st c)
  walk_stack-Covers zero (f ∷ stack) st st' c e = absurd (ground (arith, e))
  walk_stack-Covers (suc n) (f ∷ stack) st st' c e =
      resumed
        (round-Rounded cfg (crosses cfg s) (read_mount_table s) (Within cfg clock s root) root.dev
          clock s c.loop.offers c.loop.cut f stack st c.loop.from
          (λ l h. nothing_asked cfg clock s root l.entries) c.loop.state)
        (λ pushed st1 p.
          walk_stack-Covers n pushed st1 st'
            (rounded-Closed cfg clock s root apart f stack st pushed st1 c p))
        stopped_walk e

  descend-Covers :
      (cut : Bool) (before : WalkState) {m : Flow (Unit {0})} (st' : WalkState)
      → is_directory root ≡ true
      → before.visited ≡ []
      → Ensures
          (λ (a : Unit {0}). Going cfg (crosses cfg s) (read_mount_table s) (root ∷ []) cut before)
          (Halted cfg (Within cfg clock s root))
          m
      → descend cfg clock s root m ≡ some st'
      → Covers st'
  unfolding descend
  descend-Covers cut before st' d v (on_halt h) e =
      subst Covers (some-injective _ _ e) (stopped_walk _ h)
  descend-Covers cut before st' d v (on_go {st = st} g) e =
      walk_stack-Covers (inodes_cap cfg) _ st st'
        (record {
          entered = [];
          loop = record {
            offers = root ∷ [];
            cut = cut;
            from = (tt, tt);
            frames = (top refl d, tt);
            state = settle cfg clock s (Within cfg clock s root) root (λ fi f. tt) g;
          };
          listed = tt;
          ids = subst (All _) (sym (g.visited ∙ v)) tt;
          done = λ n. tt;
          top = λ n. (Memᴰ.head refl, inl (Memᴰ.head refl));
        })
        e

  walk_root-Covers :
      (path : Str) (st : WalkState)
      → s.stat path ≡ answer root
      → is_directory root ≡ true
      → walk_root cfg clock s path (start cfg clock s) ≡ some st
      → Covers st
  unfolding walk_root walk_found
  walk_root-Covers path st h d e =
      let (cut, g, v) = start-Going cfg clock s in
      let o =
        offer-Going cfg (crosses cfg s) (read_mount_table s) (Within cfg clock s root) [] cut tt
          (start cfg clock s) root (start cfg clock s) g in
      descend-Covers cut (start cfg clock s) st d v o
        (sym (rw (h, d, walk_root, walk_found) refl) ∙ e)

  finish-Complete :
      (st : WalkState)
      → Covers st
      → Both (CompleteOf (Found cfg s root)) cfg.interests (finish st).facts
        × Both (CompleteTally (Found cfg s root)) cfg.tallies (finish st).tally_facts
  unfolding finish
  finish-Complete st c = (
    pair_facts cfg.interests (CompleteOf (Found cfg s root)) (Account c.offers c.cut)
        (finish_recording st.inodes_visited) st.recordings c.books.interests
        (finish_recording-CompleteOf (Found cfg s root) c.offers c.cut c.all st.inodes_visited)
        c.books.accounts,
    pair_tallies cfg.tallies (CompleteTally (Found cfg s root)) (Balance c.offers c.cut)
        (finish_folding st.inodes_visited) st.foldings c.books.tallies
        (finish_folding-CompleteTally (Found cfg s root) c.offers c.cut c.all st.inodes_visited)
        c.books.balances,
  )

-- A walk from one root that is a directory, on a filesystem where no directory in scope is one inode
-- under two paths: a fact that is complete has every inode below the root that its interest matches,
-- and a tally that is complete has a bucket for the key of every inode below the root. What is below
-- the root is reached without a symbolic link, another device or a skipped filesystem type.
pub walk-Complete :
    (cfg : Config) (clock : Clock) (s : System) (path : Str) (root : FileInfo)
    → config_error cfg ≡ none
    → roots_of cfg ≡ path ∷ []
    → s.stat path ≡ answer root
    → is_directory root ≡ true
    → Apart cfg clock s root
    → (r : Result) × (walk cfg clock s ≡ walked r)
      × Both (CompleteOf (Found cfg s root)) cfg.interests r.facts
      × Both (CompleteTally (Found cfg s root)) cfg.tallies r.tally_facts
unfolding walk ended walk_roots
walk-Complete cfg clock s path root h one there d apart =
    let (r, f) = walk-ends cfg clock s h in
    elim (Option-cases (walk_root cfg clock s path (start cfg clock s))) [
      | inl e ↦ absurd (ground (arith, h, one, e, f))
      | inr (st, e) ↦
          let (facts, tallies) =
            finish-Complete cfg clock s root apart st
              (walk_root-Covers cfg clock s root apart path st there d e) in
          (finish st, ground (arith, h, one, e, Bool-cases st.stop), facts, tallies)
    ]
