-- ===== src/Walker/Report.antt =====
-- What the facts of a walk of internal/collect/walker/walker.go say, and that they say no more than the
-- walk has seen.
use plumbline.Base.{
  select, tally, str_ltb, ℕ, zero, suc, ◌+◌, ◌≤◌, ◌<◌, ◌≡◌, refl, sym, ◌⊎◌, inl, inr, Bool, true,
  none, List, [], ◌∷◌, map, arith, Option-cases, if_cases, length, take, length-map, All, Both,
  Both-map,
}
use mathlib.Core.Path.{subst}
use plumbline.Base.Sorting.{sort_by-All, length-sort_by}
use plumbline.Fact.Fs.{FsRow, FsMatches, FsTally, total}
use plumbline.Host.{FileInfo, System}
use plumbline.Walker.Questions.{
  Interest, Tally, matches, row_of, hits_cap, keys_cap, bucket_at, as_fact, Recording, Folding,
}
use plumbline.Walker.Questions.Rows.{length-take, Account, matching}
use plumbline.Walker.Questions.Counts.{has_key, counted_for, reported}
use plumbline.Walker.Questions.Balances.{Balance}
use plumbline.Walker.Questions.Sorted.{
  Rising, sorted_buckets-Rising, bucket_at-sorted_buckets, total-sorted_buckets,
  length-sorted_buckets,
}
use plumbline.Walker.State.{Config, inodes_cap, roots_of, Clock, WalkState}
use plumbline.Walker.Run.{
  Result, walked, config_error, start, walk_roots, finish_recording, finish_folding, finish, ended,
  walk,
}
use plumbline.Walker.Ends.{walk-ends}
use plumbline.Walker.Reach.{Reached}
use plumbline.Walker.Sound.{Between}
use plumbline.Walker.Start.{walk_roots-start}

-- The rows of an interest are those of seen inodes that it matches, at most as many as its cap.
module _ (Seen : FileInfo → Type 0) where
  abbrev pub RowOf : Interest → FsRow → Type 0
  RowOf i row = (fi : FileInfo) × Seen fi × (matches i fi ≡ true) × (row ≡ row_of i fi)

  abbrev pub MatchesOf : Interest → FsMatches → Type 0
  MatchesOf i m =
      (m.interest ≡ i.name)
      × All (RowOf i) m.rows
      × (length m.rows ≤ hits_cap i)
      × (0 < m.overflow → (length m.rows ≡ hits_cap i) × (m.marks.truncated ≡ true))

-- The buckets of a tally count all inodes of a list that have a key, but those that it reports as
-- dropped.
module _ (offers : List FileInfo) where
  abbrev pub TallyOf : Tally → FsTally → Type 0
  TallyOf t m =
      (m.tally ≡ t.name)
      × Rising m.buckets
      × (length m.buckets ≤ keys_cap t)
      × (m.inodes_tallied ≡ tally (has_key t) offers)
      × (total m.buckets + m.keys_dropped ≡ m.inodes_tallied)
      × (0 < m.keys_dropped → m.marks.truncated ≡ true)
      × ((k : ℕ)
          → (bucket_at k m.buckets ≡ reported t k offers)
            ⊎ ((bucket_at k m.buckets ≡ none) × (tally (counted_for t k) offers ≤ m.keys_dropped)))

-- The matches that are kept.
taken-RowOf :
    (Seen : FileInfo → Type 0) (i : Interest) (n : ℕ) (offers : List FileInfo)
    → All Seen offers
    → All (RowOf Seen i) (map (row_of i) (take n (matching i offers)))
unfolding select
taken-RowOf Seen i zero offers h = tt
taken-RowOf Seen i (suc n) [] h = tt
taken-RowOf Seen i (suc n) (fi ∷ offers) h =
    if_cases (λ (l : List FileInfo). All (RowOf Seen i) (map (row_of i) (take (suc n) l)))
      (matches i fi) (λ m. ((fi, h.0, m, refl), taken-RowOf Seen i n offers h.1))
      λ m. taken-RowOf Seen i (suc n) offers h.1

finish_recording-MatchesOf :
    (Seen : FileInfo → Type 0) (offers : List FileInfo) (cut : Bool) (n : ℕ) (q : Recording)
    → All Seen offers
    → Account offers cut q
    → MatchesOf Seen q.interest (finish_recording n q)
unfolding finish_recording
finish_recording-MatchesOf Seen offers cut n q h a =
    let size = length-sort_by (λ (a : FsRow) b. str_ltb a.path b.path) q.fact.rows in
    let mapped =
      length-map (row_of q.interest) (take (hits_cap q.interest) (matching q.interest offers)) in
    let short = length-take (hits_cap q.interest) (matching q.interest offers) in
    (
      a.named,
      sort_by-All (λ (a : FsRow) b. str_ltb a.path b.path) (RowOf Seen q.interest) q.fact.rows
          (subst (All (RowOf Seen q.interest)) (sym a.rows)
            (taken-RowOf Seen q.interest (hits_cap q.interest) offers h)),
      ground (arith, size, mapped, short, a.rows),
      λ k. (
        ground (arith, size, mapped, short, a.rows, a.overflow, k),
        ground (arith, a.truncated, a.overflow, k),
      ),
    )

finish_folding-TallyOf :
    (offers : List FileInfo) (cut : Bool) (n : ℕ) (f : Folding)
    → Balance offers cut f
    → TallyOf offers f.tally (finish_folding n f)
unfolding finish_folding as_fact
finish_folding-TallyOf offers cut n f a = (
  a.named,
  sorted_buckets-Rising f.state.buckets a.single,
  ground (arith, a.size, a.max, length-sorted_buckets f.state.buckets),
  a.tallied,
  ground (arith, a.sum, total-sorted_buckets f.state.buckets),
  λ k. ground (arith, a.truncated, k),
  λ k. ground (arith, a.exact k, bucket_at-sorted_buckets k f.state.buckets a.single),
)

pub pair_facts :
    (is : List Interest) (R : Interest → FsMatches → Type 0) (P : Recording → Type 0)
    (f : Recording → FsMatches) (qs : List Recording)
    → map (λ (q : Recording). q.interest) qs ≡ is
    → ((q : Recording) → P q → R q.interest (f q))
    → All P qs
    → Both R is (map f qs)
pair_facts is R P f qs e h k =
    subst (λ l. Both R l (map f qs)) e (Both-map P R (λ (q : Recording). q.interest) f h qs k)

pub pair_tallies :
    (ts : List Tally) (R : Tally → FsTally → Type 0) (P : Folding → Type 0) (f : Folding → FsTally)
    (qs : List Folding)
    → map (λ (q : Folding). q.tally) qs ≡ ts
    → ((q : Folding) → P q → R q.tally (f q))
    → All P qs
    → Both R ts (map f qs)
pair_tallies ts R P f qs e h k =
    subst (λ l. Both R l (map f qs)) e (Both-map P R (λ (q : Folding). q.tally) f h qs k)

-- What a result says, all of it about inodes that the walk is to see.
abbrev pub IsReport : Config → System → Result → Type 0
IsReport cfg s r =
    (offers : List FileInfo) × All (Reached cfg s) offers
    × (r.inodes_visited ≡ length offers)
    × (length offers ≤ inodes_cap cfg)
    × Both (MatchesOf (Reached cfg s)) cfg.interests r.facts
    × Both (TallyOf offers) cfg.tallies r.tally_facts

module _ (cfg : Config) (clock : Clock) (s : System) where
  finish-IsReport :
      (st : WalkState) → Between cfg clock s (Reached cfg s) st → IsReport cfg s (finish st)
  unfolding finish
  finish-IsReport st b = (
    b.offers,
    b.from,
    b.books.offered,
    ground (arith, b.books.offered, b.books.bounded),
    pair_facts cfg.interests (MatchesOf (Reached cfg s)) (Account b.offers b.cut)
        (finish_recording st.inodes_visited) st.recordings b.books.interests
        (λ q a.
          finish_recording-MatchesOf (Reached cfg s) b.offers b.cut st.inodes_visited q b.from a)
        b.books.accounts,
    pair_tallies cfg.tallies (TallyOf b.offers) (Balance b.offers b.cut)
        (finish_folding st.inodes_visited) st.foldings b.books.tallies
        (λ f a. finish_folding-TallyOf b.offers b.cut st.inodes_visited f a) b.books.balances,
  )

  -- Where the questions are valid, the walk returns a result, whatever its limits cut off. Its list of
  -- offered inodes is within the budget, and all of them are reached from the roots without a
  -- symbolic link, another device or a skipped filesystem type. Each interest has its fact, whose rows
  -- are those of reached inodes that it matches, no more than its cap. Each tally has its fact, whose
  -- buckets, in the order of their keys, and dropped inodes together count the offered inodes that
  -- have a key.
  pub walk-IsReport :
      config_error cfg ≡ none → (r : Result) × (walk cfg clock s ≡ walked r) × IsReport cfg s r
  unfolding walk ended
  walk-IsReport h =
      elim (Option-cases (walk_roots cfg clock s (roots_of cfg) (start cfg clock s))) [
        | inl e ↦ let (r, f) = walk-ends cfg clock s h in absurd (ground (arith, h, e, f))
        | inr (st, e) ↦ (
          finish st,
          ground (arith, h, e),
          finish-IsReport st (walk_roots-start cfg clock s st e),
        )
      ]
