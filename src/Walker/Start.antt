-- ===== src/Walker/Start.antt =====
-- The state before the first root of a walk of internal/collect/walker/walker.go, and behind the last.
use plumbline.Base.{
  select, tally, Str, ◌≡◌, refl, ap, ◌∙◌, inl, inr, Bool, true, false, not, ◌&&◌, some, List, [],
  ◌∷◌, map, arith, Bool-cases, Option-cases, if_cases, All,
}
use mathlib.Core.List.{Memᴰ}
use mathlib.Core.Path.{subst}
use mathlib.Core.Option.{some-injective}
use plumbline.Fact.Fs.{total, trunc_mounts_unknown}
use plumbline.Host.{FileInfo, System}
use plumbline.Walker.Mounts.{read_mount_table}
use plumbline.Walker.Questions.{
  Interest, Tally, hits_cap, bucket_at, Recording, Folding, new_tally_state,
}
use plumbline.Walker.Questions.Rows.{take_nil, Account}
use plumbline.Walker.Questions.Balances.{Balance}
use plumbline.Walker.State.{Config, roots_of, Clock, WalkState, truncate_all}
use plumbline.Walker.Traverse.{walk_root}
use plumbline.Walker.Run.{new_recording, new_folding, fresh_state, start, walk_roots}
use plumbline.Walker.Books.{Kept, truncate_all-Kept, map-map}
use plumbline.Walker.Scan.{Going}
use plumbline.Walker.Reach.{crosses, Reached, from}
use plumbline.Walker.Sound.{Between}
use plumbline.Walker.Whole.{going-Between, walk_root-Between}

map_id {ℓ} : {A : Type ℓ} (l : List A) → map (λ a. a) l ≡ l
map_id [] = refl
map_id (x ∷ xs) = ap (◌∷◌ x) (map_id xs)

module _ (cfg : Config) (clock : Clock) (s : System) where
  walk_roots-Between :
      (roots : List Str) (st st' : WalkState)
      → ((root : Str) → Memᴰ root roots → Memᴰ root (roots_of cfg))
      → Between cfg clock s (Reached cfg s) st
      → st.stop ≡ false
      → walk_roots cfg clock s roots st ≡ some st'
      → Between cfg clock s (Reached cfg s) st'
  unfolding walk_roots
  walk_roots-Between [] st st' m b n e =
      subst (Between cfg clock s (Reached cfg s)) (some-injective _ _ e) b
  walk_roots-Between (root ∷ roots) st st' m b n e =
      elim (Option-cases (walk_root cfg clock s root st)) [
        | inl h ↦ absurd (ground (arith, h, e))
        | inr (st1, h) ↦
            let b1 =
              walk_root-Between cfg clock s (Reached cfg s) root st st1
                (λ r fi k x. from (m root (Memᴰ.head refl)) k x) b n h in
            elim (Bool-cases st1.stop) [
              | inl k ↦ subst (Between cfg clock s (Reached cfg s)) (ground (arith, h, k, e)) b1
              | inr k ↦
                  walk_roots-Between roots st1 st' (λ r x. m r (Memᴰ.tail x)) b1 k
                    (ground (arith, h, k, e))
            ]
      ]

  All-fresh :
      {A B : Type 0} (P : B → Type 0) (f : A → B)
      → ((a : A) → P (f a))
      → (l : List A) → All P (map f l)
  All-fresh P f h [] = tt
  All-fresh P f h (x ∷ xs) = (h x, All-fresh P f h xs)

  fresh-Account : (roots : List Str) (i : Interest) → Account [] false (new_recording roots i)
  unfolding new_recording select
  fresh-Account roots i =
      let none_taken = take_nil {A = FileInfo} (hits_cap i) in
      record {
        named = refl;
        rows = ground (arith, none_taken);
        hits = ground (arith, none_taken);
        overflow = ground arith;
        truncated = ground arith;
      }

  fresh-Balance : (roots : List Str) (t : Tally) → Balance [] false (new_folding roots t)
  unfolding new_folding new_tally_state tally total bucket_at
  fresh-Balance roots t = record {
    named = refl;
    max = refl;
    tallied = refl;
    sum = ground arith;
    size = ground arith;
    tight = λ h. absurd (ground (arith, h));
    single = tt;
    exact = λ k. inl refl;
    truncated = refl;
  }

  abbrev fresh : Bool → WalkState
  fresh b = record (fresh_state cfg clock s (read_mount_table s)) { cross_fs = b }

  fresh-Kept : (b : Bool) → Kept cfg [] false (fresh b)
  unfolding fresh_state
  fresh-Kept b = record {
    accounts =
        All-fresh (Account [] false) (new_recording (roots_of cfg)) (fresh-Account (roots_of cfg))
          cfg.interests;
    balances =
        All-fresh (Balance [] false) (new_folding (roots_of cfg)) (fresh-Balance (roots_of cfg))
          cfg.tallies;
    offered = refl;
    bounded = ground arith;
    interests =
        map-map (λ (q : Recording). q.interest) (new_recording (roots_of cfg)) (λ i. i)
          (λ i. unfold new_recording in refl) cfg.interests
        ∙ map_id cfg.interests;
    tallies =
        map-map (λ (f : Folding). f.tally) (new_folding (roots_of cfg)) (λ t. t)
          (λ t. unfold new_folding in refl) cfg.tallies
        ∙ map_id cfg.tallies;
  }

  pub start-Going :
      (cut : Bool) × Going cfg
        (crosses cfg s)
        (read_mount_table s)
        []
        cut
        (start cfg clock s)
        (start cfg clock s)
      × ((start cfg clock s).visited ≡ [])
  unfolding start fresh_state truncate_all
  start-Going =
      if_cases
        (λ (st : WalkState).
          (cut : Bool) × Going cfg (crosses cfg s) (read_mount_table s) [] cut st st
          × (st.visited ≡ []))
        (not (read_mount_table s).known && cfg.cross_fs)
        (λ h. (
          true,
          record {
            books =
                truncate_all-Kept cfg [] false trunc_mounts_unknown (fresh false)
                  (fresh-Kept false);
            going = refl;
            crosses = ground (arith, h);
            table = refl;
            visited = refl;
          },
          refl,
        ))
        λ h. (
          false,
          record {
            books = fresh-Kept cfg.cross_fs;
            going = refl;
            crosses = ground (arith, h);
            table = refl;
            visited = refl;
          },
          refl,
        )

  -- The state behind the last root.
  pub walk_roots-start :
      (st : WalkState)
      → walk_roots cfg clock s (roots_of cfg) (start cfg clock s) ≡ some st
      → Between cfg clock s (Reached cfg s) st
  walk_roots-start st e =
      let (cut, g, v) = start-Going in
      walk_roots-Between (roots_of cfg) (start cfg clock s) st (λ root m. m)
        (going-Between cfg clock s (Reached cfg s) [] cut (start cfg clock s) (start cfg clock s) tt
          g)
        g.going e
