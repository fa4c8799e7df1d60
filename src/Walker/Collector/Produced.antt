-- ===== src/Walker/Collector/Produced.antt =====
-- The collector of internal/collect/walker writes every fact that it names.
use plumbline.Base.{
  Str, str_ltb, str_eq_refl, ◌≡◌, refl, sym, ◌≢◌, inl, inr, true, false, ◌&&◌, Option, none, List,
  [], ◌∷◌, ◌++◌, map, arith, ◌==◌, Bool-cases, length, All, All-append_one, All-append, Both,
}
use mathlib.Core.Path.{subst}
use plumbline.Base.Maps.{lookup, lookup-insert, lookup-remove}
use plumbline.Base.Sorting.{sort_by-All}
use plumbline.Fact.{Set, put}
use plumbline.Fact.Fs.{fs_fact_id, fs_tally_fact_id}
use plumbline.Host.{FileInfo, System}
use plumbline.Fact.Mounts.{Mounts}
use plumbline.Walker.Mounts
use plumbline.Walker.Mounts.{read_mount_table}
use plumbline.Walker.Questions.{Interest, Tally, Invalid, validate_interest, validate_tally}
use plumbline.Walker.State.{Config, Clock}
use plumbline.Walker.Run.{Result, first_invalid, config_error}
use plumbline.Walker.Report.{walk-IsReport, MatchesOf, TallyOf}
use plumbline.Walker.Collector.{
  Questions, no_questions, registered, register, register_tally, interests_of, tallies_of, produces,
  WalkFact, matches_fact, tally_fact, mounts_fact, fact_of, put_all, written, asking, wrote,
  write_result, collect,
}

-- The registries that `Register` and `RegisterTally` build.
pub data Built : Questions → Type 0 where
  empty : {q : Questions} → q ≡ no_questions → Built q
  with_interest : {q r : Questions} (i : Interest) → Built q → register i q ≡ registered r → Built r
  with_tally : {q r : Questions} (t : Tally) → Built q → register_tally t q ≡ registered r → Built r

-- The fact is there, and no error stands against it.
abbrev pub Present : Str → Set WalkFact → Type 0
Present id fs = (lookup id fs.facts ≢ none) × (lookup id fs.errors ≡ none)

put-Present_self : (v : WalkFact) (fs : Set WalkFact) → Present (fact_of v).id (put (fact_of v) fs)
unfolding put
put-Present_self v fs =
    let id = (fact_of v).id in
    (
      λ e. ground (arith, e, lookup-insert id id (fact_of v) fs.facts, str_eq_refl id),
      ground (arith, lookup-remove id id fs.errors, str_eq_refl id),
    )

put-Present :
    (id : Str) (v : WalkFact) (fs : Set WalkFact) → Present id fs → Present id (put (fact_of v) fs)
unfolding put
put-Present id v fs (p, q) = (
  λ e. p (ground (arith, e, lookup-insert (fact_of v).id id (fact_of v) fs.facts)),
  ground (arith, q, lookup-remove (fact_of v).id id fs.errors),
)

put_all-Present :
    (id : Str) (vs : List WalkFact) (fs : Set WalkFact) → Present id fs → Present id (put_all vs fs)
unfolding put_all
put_all-Present id [] fs p = p
put_all-Present id (v ∷ vs) fs p =
    put_all-Present id vs (put (fact_of v) fs) (put-Present id v fs p)

put_all-All :
    (vs : List WalkFact) (fs : Set WalkFact) → All (λ v. Present (fact_of v).id (put_all vs fs)) vs
unfolding put_all
put_all-All [] fs = tt
put_all-All (v ∷ vs) fs = (
  put_all-Present (fact_of v).id vs (put (fact_of v) fs) (put-Present_self v fs),
  put_all-All vs (put (fact_of v) fs),
)

abbrev Valid : Questions → Type 0
Valid q =
    All (λ (i : Interest). validate_interest i ≡ none) q.interests
    × All (λ (t : Tally). validate_tally t ≡ none) q.tallies

registered_from :
    (i : Interest) (q r : Questions)
    → register i q ≡ registered r
    → (validate_interest i ≡ none) × (r ≡ record q { interests = q.interests ++ i ∷ [] })
unfolding register
registered_from i q r e = ground (arith, e)

tally_from :
    (t : Tally) (q r : Questions)
    → register_tally t q ≡ registered r
    → (validate_tally t ≡ none) × (r ≡ record q { tallies = q.tallies ++ t ∷ [] })
unfolding register_tally
tally_from t q r e = ground (arith, e)

Built-Valid : (q : Questions) → Built q → Valid q
Built-Valid q (empty e) = subst Valid (sym e) (tt, tt)
Built-Valid r (with_interest {q = q} i b e) =
    let (v, f) = registered_from i q r e in
    let h = Built-Valid q b in subst Valid (sym f) (All-append_one _ q.interests i h.0 v, h.1)
Built-Valid r (with_tally {q = q} t b e) =
    let (v, f) = tally_from t q r e in
    let h = Built-Valid q b in subst Valid (sym f) (h.0, All-append_one _ q.tallies t h.1 v)

no_invalid :
    {A : Type 0} (check : A → Option Invalid) (l : List A)
    → All (λ a. check a ≡ none) l
    → first_invalid check l ≡ none
unfolding first_invalid
no_invalid check [] h = refl
no_invalid check (x ∷ xs) h = ground (arith, h.0, no_invalid check xs h.1)

asking-fits :
    (cfg : Config) (q : Questions)
    → Built q
    → (length (interests_of q) == 0 && length (tallies_of q) == 0) ≡ false
    → config_error (asking cfg q) ≡ none
unfolding config_error asking interests_of tallies_of
asking-fits cfg q b h =
    let v = Built-Valid q b in
    let is =
      no_invalid validate_interest (interests_of q)
        (sort_by-All (λ (a : Interest) c. str_ltb a.name c.name) _ q.interests v.0) in
    let ts =
      no_invalid validate_tally (tallies_of q)
        (sort_by-All (λ (a : Tally) c. str_ltb a.name c.name) _ q.tallies v.1) in
    ground (arith, is, ts, h)

All-first : {A : Type 0} (P : A → Type 0) (l m : List A) → All P (l ++ m) → All P l
All-first P [] m h = tt
All-first P (x ∷ xs) m h = (h.0, All-first P xs m h.1)

All-rest : {A : Type 0} (P : A → Type 0) (l m : List A) → All P (l ++ m) → All P m
All-rest P [] m h = h
All-rest P (x ∷ xs) m h = All-rest P xs m h.1

-- What holds of the image of every partner holds of every name.
through :
    {A B C D : Type 0} (R : A → B → Type 0) (P : C → Type 0) (Q : D → Type 0) (f : B → C)
    (g : A → D)
    → ((a : A) (b : B) → R a b → P (f b) → Q (g a))
    → (l : List A) (m : List B) → Both R l m
    → All P (map f m)
    → All Q (map g l)
through R P Q f g k [] [] h p = tt
through R P Q f g k [] (y ∷ ys) h p = absurd h
through R P Q f g k (x ∷ xs) [] h p = absurd h
through R P Q f g k (x ∷ xs) (y ∷ ys) h p = (k x y h.0 p.0, through R P Q f g k xs ys h.1 p.1)

abbrev pub AllPresent : Questions → Set WalkFact → Type 0
AllPresent q fs = All (λ id. Present id fs) (produces q)

module _ (cfg : Config) (clock : Clock) (s : System) (q : Questions) (fs : Set WalkFact) where
  written-AllPresent :
      (r : Result) (Seen : FileInfo → Type 0) (offers : List FileInfo)
      → Both (MatchesOf Seen) (interests_of q) r.facts
      → Both (TallyOf offers) (tallies_of q) r.tally_facts
      → AllPresent q (put_all (written r) fs)
  unfolding produces written fact_of
  written-AllPresent r Seen offers is ts =
      let there = put_all-All (written r) fs in
      let after = put_all (written r) fs in
      let P : WalkFact → Type 0 = λ v. Present (fact_of v).id after in
      let rest =
        All-rest P (map matches_fact r.facts)
          (map tally_fact r.tally_facts ++ mounts_fact r.mounts ∷ []) there in
      All-append _ (map (λ (i : Interest). fs_fact_id i.name) (interests_of q)) _
        (through (MatchesOf Seen) P (λ id. Present id after) matches_fact
          (λ (i : Interest). fs_fact_id i.name)
          (λ i m h p. subst (λ n. Present (fs_fact_id n) after) h.0 p) (interests_of q) r.facts is
          (All-first P (map matches_fact r.facts) _ there))
        (All-append _ (map (λ (t : Tally). fs_tally_fact_id t.name) (tallies_of q)) _
          (through (TallyOf offers) P (λ id. Present id after) tally_fact
            (λ (t : Tally). fs_tally_fact_id t.name)
            (λ t m h p. subst (λ n. Present (fs_tally_fact_id n) after) h.0 p) (tallies_of q)
            r.tally_facts ts (All-first P (map tally_fact r.tally_facts) _ rest))
          (All-rest P (map tally_fact r.tally_facts) (mounts_fact r.mounts ∷ []) rest))

empty_of : {A : Type 0} (l : List A) → (length l == 0) ≡ true → l ≡ []
empty_of [] h = refl
empty_of (x ∷ xs) h = absurd (ground (arith, h))

mounts-AllPresent :
    (q : Questions) (fs : Set WalkFact) (m : Mounts)
    → (length (interests_of q) == 0 && length (tallies_of q) == 0) ≡ true
    → AllPresent q (put (fact_of (mounts_fact m)) fs)
unfolding produces
mounts-AllPresent q fs m h =
    let is = empty_of (interests_of q) (ground (arith, h)) in
    let ts = empty_of (tallies_of q) (ground (arith, h)) in
    rw (is, ts) (unfold fact_of in put-Present_self (mounts_fact m) fs, tt)

-- On a registry that Register and RegisterTally built, Collect returns without an error for every
-- host and clock and every set of facts, and every fact that Produces names is in the set then, with
-- no error against it.
pub collect-AllPresent :
    (cfg : Config) (clock : Clock) (s : System) (q : Questions) (fs : Set WalkFact)
    → Built q
    → (out : Set WalkFact) × (collect cfg clock s q fs ≡ wrote out) × AllPresent q out
unfolding collect write_result asking
collect-AllPresent cfg clock s q fs b =
    elim (Bool-cases (length (interests_of q) == 0 && length (tallies_of q) == 0)) [
      | inl e ↦
          let m = plumbline.Walker.Mounts.as_fact (read_mount_table s) in
          (put (fact_of (mounts_fact m)) fs, ground (arith, e), mounts-AllPresent q fs m e)
      | inr e ↦
          let (r, w, (o, a, n, k, is, ts)) =
            walk-IsReport (asking cfg q) clock s (asking-fits cfg q b e) in
          (
            put_all (written r) fs,
            ground (arith, e, w),
            written-AllPresent cfg clock s q fs r _ o is ts,
          )
    ]
