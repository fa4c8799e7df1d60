-- ===== src/Walker/Questions/Rows.antt =====
-- What an interest of internal/collect/walker/walker.go has recorded after a list of offers.
use plumbline.Base.{
  select, ℕ, zero, suc, ◌+◌, ◌-◌, ◌≤◌, ◌≡◌, refl, sym, ap, inl, inr, Bool, true, false, ◌||◌, List,
  [], ◌∷◌, ◌++◌, map, arith, ltb, leb, if◌then◌else◌, Bool-cases, length, take, length-append,
}
use mathlib.Core.List.{append-nil}
use mathlib.Core.Path.{subst}
use plumbline.Fact.Fs.{mark_truncated, trunc_max_hits}
use plumbline.Host.{FileInfo}
use plumbline.Walker.Questions.{Interest, matches, hits_cap, row_of, Recording, offer_interest}

module _ {ℓ} {A : Type ℓ} where
  select-append : (p : A → Bool) (l m : List A) → select p (l ++ m) ≡ select p l ++ select p m
  unfolding select
  select-append p [] m = refl
  select-append p (x ∷ xs) m = ground (arith, select-append p xs m)

  pub take_nil : (n : ℕ) → take {A = A} n [] ≡ []
  take_nil zero = refl
  take_nil (suc n) = refl

  take-append_one :
      (n : ℕ) (l : List A) (x : A)
      → take n (l ++ x ∷ []) ≡ (if leb n (length l) then take n l else l ++ x ∷ [])
  take-append_one zero [] x = refl
  take-append_one zero (y ∷ ys) x = ground arith
  take-append_one (suc n) [] x = ground (arith, take_nil n)
  take-append_one (suc n) (y ∷ ys) x = ground (arith, take-append_one n ys x)

  pub take_all : (n : ℕ) (l : List A) → length l ≤ n → take n l ≡ l
  take_all zero [] h = refl
  take_all zero (y ∷ ys) h = absurd (omega arith)
  take_all (suc n) [] h = refl
  take_all (suc n) (y ∷ ys) h = ap (◌∷◌ y) (take_all n ys (omega arith))

map-append {ℓ κ} :
    {A : Type ℓ} {B : Type κ} (f : A → B) (l m : List A) → map f (l ++ m) ≡ map f l ++ map f m
map-append f [] m = refl
map-append f (x ∷ xs) m = ap (◌∷◌ (f x)) (map-append f xs m)

abbrev pub matching : Interest → List FileInfo → List FileInfo
matching i = select (matches i)

-- After the offers the interest has the first matches, up to its cap, and the number of the others;
-- its fact is truncated if the whole walk is, or if there are others.
pub record Account (offers : List FileInfo) (cut : Bool) (q : Recording) : Type 0 where
  pub rows :
      q.fact.rows
      ≡ map (row_of q.interest) (take (hits_cap q.interest) (matching q.interest offers))
  pub hits : q.hits ≡ length (take (hits_cap q.interest) (matching q.interest offers))
  pub overflow : q.fact.overflow ≡ length (matching q.interest offers) - hits_cap q.interest
  pub named : q.fact.interest ≡ q.interest.name
  pub truncated :
      q.fact.marks.truncated
      ≡ (cut || ltb 0 (length (matching q.interest offers) - hits_cap q.interest))

pub length-take :
    {A : Type 0} (n : ℕ) (l : List A)
    → length (take n l) ≡ (if leb n (length l) then n else length l)
length-take zero [] = refl
length-take zero (y ∷ ys) = ground arith
length-take (suc n) [] = ground arith
length-take (suc n) (y ∷ ys) = ground (arith, length-take n ys)

module _ (fi : FileInfo) (q : Recording) where
  unmatched : matches q.interest fi ≡ false → offer_interest fi q ≡ q
  unfolding offer_interest
  unmatched m = rw (m, offer_interest) refl

  abbrev overflowed : Recording
  overflowed = record q {
    fact = record (q.fact) {
      overflow = q.fact.overflow + 1;
      marks = mark_truncated trunc_max_hits q.fact.marks;
    };
  }

  abbrev recorded : Recording
  recorded = record q {
    fact = record (q.fact) { rows = q.fact.rows ++ row_of q.interest fi ∷ [] };
    hits = q.hits + 1;
  }

  full :
      matches q.interest fi ≡ true
      → leb (hits_cap q.interest) q.hits ≡ true
      → offer_interest fi q ≡ overflowed
  unfolding offer_interest
  full m h = rw (m, h, offer_interest) refl

  room :
      matches q.interest fi ≡ true
      → leb (hits_cap q.interest) q.hits ≡ false
      → offer_interest fi q ≡ recorded
  unfolding offer_interest
  room m h = rw (m, h, offer_interest) refl

module _ (offers : List FileInfo) (cut : Bool) (fi : FileInfo) (q : Recording) where
  more :
      matches q.interest fi ≡ true
      → matching q.interest (offers ++ fi ∷ []) ≡ matching q.interest offers ++ fi ∷ []
  unfolding select
  more h = ground (arith, select-append (matches q.interest) offers (fi ∷ []), h)

  no_more :
      matches q.interest fi ≡ false
      → matching q.interest (offers ++ fi ∷ []) ≡ matching q.interest offers
  unfolding select
  no_more h = ground (
    arith,
    h,
    select-append (matches q.interest) offers (fi ∷ []),
    append-nil (matching q.interest offers),
  )

  full-Account :
      Account offers cut q
      → matches q.interest fi ≡ true
      → leb (hits_cap q.interest) q.hits ≡ true
      → Account (offers ++ fi ∷ []) cut (overflowed fi q)
  unfolding mark_truncated
  full-Account a m h =
      let l = matching q.interest offers in
      let longer = more m in
      let size = length-append l (fi ∷ []) in
      let taken = take-append_one (hits_cap q.interest) l fi in
      let hits = length-take (hits_cap q.interest) l in
      record {
        named = a.named;
        rows = ground (arith, a.rows, a.hits, h, longer, taken, hits);
        hits = ground (arith, a.hits, h, longer, taken, hits);
        overflow = ground (arith, a.overflow, a.hits, h, longer, size, hits);
        truncated = ground (arith, a.hits, h, longer, size, hits);
      }

  room-Account :
      Account offers cut q
      → matches q.interest fi ≡ true
      → leb (hits_cap q.interest) q.hits ≡ false
      → Account (offers ++ fi ∷ []) cut (recorded fi q)
  room-Account a m h =
      let l = matching q.interest offers in
      let longer = more m in
      let size = length-append l (fi ∷ []) in
      let taken = take-append_one (hits_cap q.interest) l fi in
      let hits = length-take (hits_cap q.interest) l in
      let all = take_all (hits_cap q.interest) l in
      let mapped = map-append (row_of q.interest) l (fi ∷ []) in
      record {
        named = a.named;
        rows = ground (arith, a.rows, a.hits, h, longer, taken, hits, all, mapped);
        hits = ground (arith, a.hits, h, longer, taken, hits, size);
        overflow = ground (arith, a.overflow, a.hits, h, longer, size, hits);
        truncated = ground (arith, a.truncated, a.hits, h, longer, size, hits);
      }

  pub offer_interest-Account :
      Account offers cut q → Account (offers ++ fi ∷ []) cut (offer_interest fi q)
  offer_interest-Account a = elim (Bool-cases (matches q.interest fi)) [
    | inl m ↦ elim (Bool-cases (leb (hits_cap q.interest) q.hits)) [
      | inl h ↦ subst (Account (offers ++ fi ∷ []) cut) (sym (full fi q m h)) (full-Account a m h)
      | inr h ↦ subst (Account (offers ++ fi ∷ []) cut) (sym (room fi q m h)) (room-Account a m h)
    ]
    | inr m ↦ subst (Account (offers ++ fi ∷ []) cut) (sym (unmatched fi q m)) (record {
      named = a.named;
      rows = ground (arith, a.rows, no_more m);
      hits = ground (arith, a.hits, no_more m);
      overflow = ground (arith, a.overflow, no_more m);
      truncated = ground (arith, a.truncated, no_more m);
    })
  ]
