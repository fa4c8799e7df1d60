-- ===== src/Walker/Questions/Balances.antt =====
-- The books of a tally of internal/collect/walker/tally.go after a list of offers.
use plumbline.Base.{
  tally, ℕ, ◌+◌, ◌≤◌, ◌<◌, ◌≡◌, refl, sym, ◌⊎◌, inl, inr, Bool, true, false, ◌||◌, none, some, List,
  [], ◌∷◌, ◌++◌, arith, ltb, leb, Bool-cases, Option-cases, length, length-append,
}
use mathlib.Core.Path.{subst}
use plumbline.Fact.Fs.{FsBucket, total, mark_truncated, trunc_max_keys}
use plumbline.Host.{FileInfo}
use plumbline.Walker.Questions.{
  key_of, keys_cap, default_row, bucket_at, bump, fold, Folding, folded, offer_tally,
}
use plumbline.Walker.Questions.Counts.{
  tally-append, first_for-append, count_no_first, no_first_for, bucket_at-bump, bucket_at-append,
  total-bump, total-append, length-bump, bump-Single, Single-append, has_key, counted_for, reported,
  Single,
}

-- After the offers: every inode that has a key is counted or dropped; each key has its bucket by the
-- whole list, or it has none, and no more inodes than were dropped.
pub record Balance (offers : List FileInfo) (cut : Bool) (f : Folding) : Type 0 where
  pub named : f.fact.tally ≡ f.tally.name
  pub max : f.state.max ≡ keys_cap f.tally
  pub tallied : f.state.tallied ≡ tally (has_key f.tally) offers
  pub sum : total f.state.buckets + f.state.dropped ≡ f.state.tallied
  pub size : length f.state.buckets ≤ f.state.max
  pub tight : 0 < f.state.dropped → f.state.max ≤ length f.state.buckets
  pub single : Single f.state.buckets
  pub exact :
      (k : ℕ)
      → (bucket_at k f.state.buckets ≡ reported f.tally k offers)
        ⊎ ((bucket_at k f.state.buckets ≡ none)
            × (tally (counted_for f.tally k) offers ≤ f.state.dropped))
  pub truncated : f.fact.marks.truncated ≡ (cut || ltb 0 f.state.dropped)

module _ (fi : FileInfo) (f : Folding) (k : ℕ) where
  abbrev bumped : Folding
  bumped = record f {
    state = record (f.state) { tallied = f.state.tallied + 1; buckets = bump k f.state.buckets };
  }

  abbrev refused : Folding
  refused = record f {
    state = record (f.state) { tallied = f.state.tallied + 1; dropped = f.state.dropped + 1 };
    fact = record (f.fact) { marks = mark_truncated trunc_max_keys f.fact.marks };
  }

  abbrev admitted : Folding
  admitted = record f {
    state = record (f.state) {
      tallied = f.state.tallied + 1;
      buckets = f.state.buckets ++ record { key = k; count = 1; example = default_row fi } ∷ [];
    };
  }

  skips : key_of f.tally fi ≡ none → offer_tally fi f ≡ f
  unfolding offer_tally
  skips h = rw (h, offer_tally) refl

  bumps :
      (b : FsBucket)
      → key_of f.tally fi ≡ some k
      → bucket_at k f.state.buckets ≡ some b
      → offer_tally fi f ≡ bumped
  unfolding offer_tally folded fold
  bumps b h e = rw (h, e, offer_tally, fold) refl

  refuses :
      key_of f.tally fi ≡ some k
      → bucket_at k f.state.buckets ≡ none
      → leb f.state.max (length f.state.buckets) ≡ true
      → offer_tally fi f ≡ refused
  unfolding offer_tally folded fold
  refuses h e l = rw (h, e, l, offer_tally, fold) refl

  admits :
      key_of f.tally fi ≡ some k
      → bucket_at k f.state.buckets ≡ none
      → leb f.state.max (length f.state.buckets) ≡ false
      → offer_tally fi f ≡ admitted
  unfolding offer_tally folded fold
  admits h e l = rw (h, e, l, offer_tally, fold) refl

module _ (offers : List FileInfo) (cut : Bool) (fi : FileInfo) (f : Folding)
    (a : Balance offers cut f) where
  abbrev after : List FileInfo
  after = offers ++ fi ∷ []

  skip-Balance : key_of f.tally fi ≡ none → Balance after cut f
  skip-Balance h = record {
    named = a.named;
    max = a.max;
    tallied = ground (arith, a.tallied, h, tally-append (has_key f.tally) offers fi);
    sum = a.sum;
    size = a.size;
    tight = a.tight;
    single = a.single;
    exact = λ k. ground (
      arith,
      h,
      a.exact k,
      tally-append (counted_for f.tally k) offers fi,
      first_for-append (counted_for f.tally k) offers fi,
    );
    truncated = a.truncated;
  }

  module _ (k : ℕ) (h : key_of f.tally fi ≡ some k) where
    bump-Balance :
        (b : FsBucket) → bucket_at k f.state.buckets ≡ some b → Balance after cut (bumped fi f k)
    bump-Balance b e = record {
      named = a.named;
      max = a.max;
      tallied = ground (arith, a.tallied, h, tally-append (has_key f.tally) offers fi);
      sum = ground (arith, a.sum, total-bump k b f.state.buckets e);
      size = ground (arith, a.size, length-bump k f.state.buckets);
      tight = λ p. ground (arith, a.tight p, length-bump k f.state.buckets);
      single = bump-Single k f.state.buckets a.single;
      exact = λ j. ground (
        arith,
        h,
        e,
        a.exact j,
        bucket_at-bump k j f.state.buckets,
        tally-append (counted_for f.tally j) offers fi,
        first_for-append (counted_for f.tally j) offers fi,
      );
      truncated = a.truncated;
    }

    refuse-Balance :
        bucket_at k f.state.buckets ≡ none
        → leb f.state.max (length f.state.buckets) ≡ true
        → Balance after cut (refused fi f k)
    unfolding mark_truncated
    refuse-Balance e l = record {
      named = a.named;
      max = a.max;
      tallied = ground (arith, a.tallied, h, tally-append (has_key f.tally) offers fi);
      sum = ground (arith, a.sum);
      size = a.size;
      tight = λ p. ground (arith, l);
      single = a.single;
      exact = λ j. ground (
        arith,
        h,
        e,
        a.exact j,
        tally-append (counted_for f.tally j) offers fi,
        first_for-append (counted_for f.tally j) offers fi,
        count_no_first (counted_for f.tally j) offers,
      );
      truncated = ground arith;
    }

    admit-Balance :
        bucket_at k f.state.buckets ≡ none
        → leb f.state.max (length f.state.buckets) ≡ false
        → Balance after cut (admitted fi f k)
    admit-Balance e l =
        let new : FsBucket = record { key = k; count = 1; example = default_row fi } in
        record {
          named = a.named;
          max = a.max;
          tallied = ground (arith, a.tallied, h, tally-append (has_key f.tally) offers fi);
          sum = ground (arith, a.sum, total-append f.state.buckets new);
          size = ground (arith, l, length-append f.state.buckets (new ∷ []));
          tight = λ p. ground (arith, l, a.tight p);
          single = Single-append f.state.buckets new a.single e;
          exact = λ j. ground (
            arith,
            h,
            e,
            l,
            a.exact j,
            a.tight,
            bucket_at-append j f.state.buckets new,
            tally-append (counted_for f.tally j) offers fi,
            first_for-append (counted_for f.tally j) offers fi,
            count_no_first (counted_for f.tally j) offers,
            no_first_for (counted_for f.tally j) offers,
          );
          truncated = a.truncated;
        }

  pub offer_tally-Balance : Balance after cut (offer_tally fi f)
  offer_tally-Balance = elim (Option-cases (key_of f.tally fi)) [
    | inl h ↦ subst (Balance after cut) (sym (skips fi f 0 h)) (skip-Balance h)
    | inr (k, h) ↦ elim (Option-cases (bucket_at k f.state.buckets)) [
      | inr (b, e) ↦ subst (Balance after cut) (sym (bumps fi f k b h e)) (bump-Balance k h b e)
      | inl e ↦ elim (Bool-cases (leb f.state.max (length f.state.buckets))) [
        | inl l ↦ subst (Balance after cut) (sym (refuses fi f k h e l)) (refuse-Balance k h e l)
        | inr l ↦ subst (Balance after cut) (sym (admits fi f k h e l)) (admit-Balance k h e l)
      ]
    ]
  ]
