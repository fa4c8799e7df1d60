-- ===== src/Walker/Questions/Counts.antt =====
-- What a tally of internal/collect/walker/tally.go has counted after a list of offers.
use plumbline.Base.{
  tally, ℕ, ◌+◌, ◌≡◌, refl, Bool, false, Option, none, some, List, [], ◌∷◌, ◌++◌, arith, ◌==◌,
  if◌then◌else◌, is_some, length,
}
use plumbline.Fact.Fs.{FsBucket, total}
use plumbline.Host.{FileInfo}
use plumbline.Walker.Questions.{Tally, key_of, default_row, bucket_at, bump}

-- Whether the tally counts an inode, and whether it counts it for a key.
abbrev pub has_key : Tally → FileInfo → Bool
has_key t fi = is_some (key_of t fi)

abbrev pub is_key : ℕ → Option ℕ → Bool
is_key k none = false
is_key k (some j) = j == k

abbrev pub counted_for : Tally → ℕ → FileInfo → Bool
counted_for t k fi = is_key k (key_of t fi)

abbrev pub first_for : (FileInfo → Bool) → List FileInfo → Option FileInfo
first_for p [] = none
first_for p (fi ∷ l) = if p fi then some fi else first_for p l

abbrev pub bucket_of : ℕ → ℕ → Option FileInfo → Option FsBucket
bucket_of k n none = none
bucket_of k n (some fi) = some (record { key = k; count = n; example = default_row fi })

-- The bucket of a key by the whole list of offers: how many there are for the key, and the first.
abbrev pub reported : Tally → ℕ → List FileInfo → Option FsBucket
reported t k offers =
    bucket_of k (tally (counted_for t k) offers) (first_for (counted_for t k) offers)

pub tally-append {ℓ} :
    {A : Type ℓ} (p : A → Bool) (l : List A) (x : A)
    → tally p (l ++ x ∷ []) ≡ (if p x then tally p l + 1 else tally p l)
unfolding tally
tally-append p [] x = ground arith
tally-append p (y ∷ ys) x = ground (arith, tally-append p ys x)

pub first_for-append :
    (p : FileInfo → Bool) (l : List FileInfo) (x : FileInfo)
    → first_for p (l ++ x ∷ [])
      ≡ elim (first_for p l) [ some y ↦ some y | none ↦ if p x then some x else none ]
first_for-append p [] x = refl
first_for-append p (y ∷ ys) x = ground (arith, first_for-append p ys x)

-- There is a first one exactly if there is one.
pub count_no_first :
    (p : FileInfo → Bool) (l : List FileInfo) → first_for p l ≡ none → tally p l ≡ 0
unfolding tally
count_no_first p [] h = refl
count_no_first p (y ∷ ys) h = ground (arith, count_no_first p ys)

pub no_first_for : (p : FileInfo → Bool) (l : List FileInfo) → tally p l ≡ 0 → first_for p l ≡ none
unfolding tally
no_first_for p [] h = refl
no_first_for p (y ∷ ys) h = ground (arith, no_first_for p ys)

pub bucket_at-bump :
    (k j : ℕ) (bs : List FsBucket)
    → bucket_at j (bump k bs) ≡ elim (bucket_at j bs) [
      | none ↦ none
      | some b ↦ some (record b { count = if k == j then b.count + 1 else b.count })
    ]
unfolding bucket_at bump
bucket_at-bump k j [] = refl
bucket_at-bump k j (b ∷ bs) = ground (arith, bucket_at-bump k j bs)

pub bucket_at-append :
    (k : ℕ) (bs : List FsBucket) (b : FsBucket)
    → bucket_at k (bs ++ b ∷ [])
      ≡ elim (bucket_at k bs) [ some c ↦ some c | none ↦ if b.key == k then some b else none ]
unfolding bucket_at
bucket_at-append k [] b = refl
bucket_at-append k (c ∷ bs) b = ground (arith, bucket_at-append k bs b)

pub total-bump :
    (k : ℕ) (b : FsBucket) (bs : List FsBucket)
    → bucket_at k bs ≡ some b
    → total (bump k bs) ≡ total bs + 1
unfolding bucket_at bump total
total-bump k b [] h = ground arith
total-bump k b (c ∷ bs) h = ground (arith, total-bump k b bs)

pub total-append : (bs : List FsBucket) (b : FsBucket) → total (bs ++ b ∷ []) ≡ total bs + b.count
unfolding total
total-append [] b = ground arith
total-append (c ∷ bs) b = ground (arith, total-append bs b)

pub length-bump : (k : ℕ) (bs : List FsBucket) → length (bump k bs) ≡ length bs
unfolding bump
length-bump k [] = refl
length-bump k (b ∷ bs) = ground (arith, length-bump k bs)

-- No key has two buckets.
abbrev pub Single : List FsBucket → Type 0
Single [] = Unit
Single (b ∷ bs) = (bucket_at b.key bs ≡ none) × Single bs

pub bump-Single : (k : ℕ) (bs : List FsBucket) → Single bs → Single (bump k bs)
unfolding bump
bump-Single k [] h = tt
bump-Single k (b ∷ bs) h = ground (arith, bump-Single k bs h.1, bucket_at-bump k b.key bs)

pub Single-append :
    (bs : List FsBucket) (b : FsBucket)
    → Single bs
    → bucket_at b.key bs ≡ none
    → Single (bs ++ b ∷ [])
unfolding bucket_at
Single-append [] b h k = (refl, tt)
Single-append (c ∷ bs) b h k = ground (arith, Single-append bs b, bucket_at-append c.key bs b)
