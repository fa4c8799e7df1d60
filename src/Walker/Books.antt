-- ===== src/Walker/Books.antt =====
-- What all questions of a walk of internal/collect/walker/walker.go have recorded and counted, against
-- the list of the inodes that were offered to them.
use plumbline.Base.{
  Str, ℕ, ◌+◌, ◌≤◌, ◌≡◌, refl, ◌∙◌, Bool, true, false, List, [], ◌∷◌, ◌++◌, map, arith, leb, length,
  length-append, All,
}
use plumbline.Fact.Fs.{mark_truncated}
use plumbline.Host.{FileInfo}
use plumbline.Walker.Questions.{Recording, Folding, offer_interest, offer_tally, folded, fold}
use plumbline.Walker.Questions.Rows.{Account, offer_interest-Account}
use plumbline.Walker.Questions.Balances.{Balance, offer_tally-Balance}
use plumbline.Walker.State.{
  Config, inodes_cap, WalkState, mark_recording, mark_folding, truncate_all,
}

All-map {ℓ κ μ ν} :
    {A : Type ℓ} {B : Type κ} (P : A → Type μ) (Q : B → Type ν) (f : A → B)
    → ((a : A) → P a → Q (f a))
    → (l : List A) → All P l
    → All Q (map f l)
All-map P Q f h [] k = tt
All-map P Q f h (x ∷ xs) k = (h x k.0, All-map P Q f h xs k.1)

pub map-map {ℓ κ μ} :
    {A : Type ℓ} {B : Type κ} {C : Type μ} (g : B → C) (f : A → B) (h : A → C)
    → ((a : A) → g (f a) ≡ h a)
    → (l : List A) → map g (map f l) ≡ map h l
map-map g f h e [] = refl
map-map g f h e (x ∷ xs) = ground (arith, e x, map-map g f h e xs)

mark_recording-Account :
    (offers : List FileInfo) (cut : Bool) (reason : Str) (q : Recording)
    → Account offers cut q
    → Account offers true (mark_recording reason q)
unfolding mark_recording mark_truncated
mark_recording-Account offers cut reason q a = record {
  named = a.named;
  rows = a.rows;
  hits = a.hits;
  overflow = a.overflow;
  truncated = refl;
}

mark_folding-Balance :
    (offers : List FileInfo) (cut : Bool) (reason : Str) (f : Folding)
    → Balance offers cut f
    → Balance offers true (mark_folding reason f)
unfolding mark_folding mark_truncated
mark_folding-Balance offers cut reason f a = record {
  named = a.named;
  max = a.max;
  tallied = a.tallied;
  sum = a.sum;
  size = a.size;
  tight = a.tight;
  single = a.single;
  exact = a.exact;
  truncated = refl;
}

interest_same : (fi : FileInfo) (q : Recording) → (offer_interest fi q).interest ≡ q.interest
unfolding offer_interest
interest_same fi q = ground arith

tally_same : (fi : FileInfo) (f : Folding) → (offer_tally fi f).tally ≡ f.tally
unfolding offer_tally folded fold
tally_same fi f = ground arith

module _ (cfg : Config) where
  -- The books of all questions; `cut` says that the walk itself was cut short.
  pub record Books (offers : List FileInfo) (cut : Bool) (recordings : List Recording)
      (foldings : List Folding) (inodes : ℕ) : Type 0 where
    pub accounts : All (Account offers cut) recordings
    pub balances : All (Balance offers cut) foldings
    pub offered : inodes ≡ length offers
    pub bounded : inodes ≤ inodes_cap cfg
    pub interests : map (λ (q : Recording). q.interest) recordings ≡ cfg.interests
    pub tallies : map (λ (f : Folding). f.tally) foldings ≡ cfg.tallies

module _ (cfg : Config) where
  -- The books of a state.
  abbrev pub Kept : List FileInfo → Bool → WalkState → Type 0
  Kept offers cut st = Books cfg offers cut st.recordings st.foldings st.inodes_visited

  pub truncate_all-Kept :
      (offers : List FileInfo) (cut : Bool) (reason : Str) (st : WalkState)
      → Kept offers cut st
      → Kept offers true (truncate_all reason st)
  unfolding truncate_all
  truncate_all-Kept offers cut reason st b = record {
    accounts =
        All-map (Account offers cut) (Account offers true) (mark_recording reason)
          (mark_recording-Account offers cut reason) st.recordings b.accounts;
    balances =
        All-map (Balance offers cut) (Balance offers true) (mark_folding reason)
          (mark_folding-Balance offers cut reason) st.foldings b.balances;
    offered = b.offered;
    bounded = b.bounded;
    interests =
        map-map (λ (q : Recording). q.interest) (mark_recording reason)
          (λ (q : Recording). q.interest) (λ q. unfold mark_recording in refl) st.recordings
        ∙ b.interests;
    tallies =
        map-map (λ (f : Folding). f.tally) (mark_folding reason) (λ (f : Folding). f.tally)
          (λ f. unfold mark_folding in refl) st.foldings
        ∙ b.tallies;
  }

  abbrev pub offered_to : FileInfo → WalkState → WalkState
  offered_to fi st = record st {
    inodes_visited = st.inodes_visited + 1;
    recordings = map (offer_interest fi) st.recordings;
    foldings = map (offer_tally fi) st.foldings;
  }

  pub offered_to-Kept :
      (offers : List FileInfo) (cut : Bool) (fi : FileInfo) (st : WalkState)
      → Kept offers cut st
      → leb (inodes_cap cfg) st.inodes_visited ≡ false
      → Kept (offers ++ fi ∷ []) cut (offered_to fi st)
  offered_to-Kept offers cut fi st b h = record {
    accounts =
        All-map (Account offers cut) (Account (offers ++ fi ∷ []) cut) (offer_interest fi)
          (λ q. offer_interest-Account offers cut fi q) st.recordings b.accounts;
    balances =
        All-map (Balance offers cut) (Balance (offers ++ fi ∷ []) cut) (offer_tally fi)
          (λ f. offer_tally-Balance offers cut fi f) st.foldings b.balances;
    offered = ground (arith, b.offered, length-append offers (fi ∷ []));
    bounded = ground (arith, h);
    interests =
        map-map (λ (q : Recording). q.interest) (offer_interest fi) (λ (q : Recording). q.interest)
          (interest_same fi) st.recordings
        ∙ b.interests;
    tallies =
        map-map (λ (f : Folding). f.tally) (offer_tally fi) (λ (f : Folding). f.tally)
          (tally_same fi) st.foldings
        ∙ b.tallies;
  }
