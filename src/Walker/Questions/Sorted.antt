-- ===== src/Walker/Questions/Sorted.antt =====
-- `asFact` of internal/collect/walker/tally.go: the buckets in the order of their keys.
use plumbline.Base.{
  ℕ, ◌+◌, ◌<◌, ◌≡◌, refl, ◌∙◌, inl, inr, Bool, none, some, List, [], ◌∷◌, arith, ltb, ◌==◌,
  if◌then◌else◌, Bool-cases, length, All,
}
use plumbline.Base.Sorting.{sort_by, insert_sorted, insert_sorted-All, All-imp}
use plumbline.Fact.Fs.{FsBucket, total}
use plumbline.Walker.Questions.{bucket_at}
use plumbline.Walker.Questions.Counts.{Single}

abbrev pub key_less : FsBucket → FsBucket → Bool
key_less a b = ltb a.key b.key

abbrev pub sorted_buckets : List FsBucket → List FsBucket
sorted_buckets = sort_by key_less

bucket_at-insert_sorted :
    (k : ℕ) (b : FsBucket) (bs : List FsBucket)
    → bucket_at b.key bs ≡ none
    → bucket_at k (insert_sorted key_less b bs) ≡ (if b.key == k then some b else bucket_at k bs)
unfolding bucket_at insert_sorted
bucket_at-insert_sorted k b [] h = refl
bucket_at-insert_sorted k b (c ∷ bs) h = ground (arith, bucket_at-insert_sorted k b bs)

total-insert_sorted :
    (b : FsBucket) (bs : List FsBucket) → total (insert_sorted key_less b bs) ≡ b.count + total bs
unfolding total insert_sorted
total-insert_sorted b [] = refl
total-insert_sorted b (c ∷ bs) = ground (arith, total-insert_sorted b bs)

length-insert_sorted :
    (b : FsBucket) (bs : List FsBucket) → length (insert_sorted key_less b bs) ≡ length bs + 1
unfolding insert_sorted
length-insert_sorted b [] = ground arith
length-insert_sorted b (c ∷ bs) = ground (arith, length-insert_sorted b bs)

-- Sorting moves the buckets only.
pub bucket_at-sorted_buckets :
    (k : ℕ) (bs : List FsBucket) → Single bs → bucket_at k (sorted_buckets bs) ≡ bucket_at k bs
unfolding bucket_at sort_by
bucket_at-sorted_buckets k [] h = refl
bucket_at-sorted_buckets k (b ∷ bs) h = ground (
  arith,
  h.0,
  bucket_at-insert_sorted k b (sorted_buckets bs),
  bucket_at-sorted_buckets k bs h.1,
  bucket_at-sorted_buckets b.key bs h.1,
)

pub total-sorted_buckets : (bs : List FsBucket) → total (sorted_buckets bs) ≡ total bs
unfolding total sort_by
total-sorted_buckets [] = refl
total-sorted_buckets (b ∷ bs) =
    ground (arith, total-insert_sorted b (sorted_buckets bs), total-sorted_buckets bs)

pub length-sorted_buckets : (bs : List FsBucket) → length (sorted_buckets bs) ≡ length bs
unfolding sort_by
length-sorted_buckets [] = refl
length-sorted_buckets (b ∷ bs) =
    ground (arith, length-insert_sorted b (sorted_buckets bs), length-sorted_buckets bs)

-- The keys rise.
abbrev pub Rising : List FsBucket → Type 0
Rising [] = Unit
Rising (b ∷ bs) = All (λ c. b.key < c.key) bs × Rising bs

insert_sorted-Rising :
    (b : FsBucket) (bs : List FsBucket)
    → bucket_at b.key bs ≡ none
    → Rising bs
    → Rising (insert_sorted key_less b bs)
unfolding insert_sorted bucket_at
insert_sorted-Rising b [] h k = (tt, tt)
insert_sorted-Rising b (c ∷ bs) h k = elim (Bool-cases (key_less c b)) [
  | inl e ↦
      rw (e, insert_sorted)
        (
          insert_sorted-All key_less (λ (d : FsBucket). c.key < d.key) b bs (ground arith) k.0,
          insert_sorted-Rising b bs (ground arith) k.1,
        )
  | inr e ↦
      rw (e, insert_sorted)
        (
          (
            ground arith,
            All-imp (λ (d : FsBucket). c.key < d.key) (λ d. b.key < d.key) bs (λ d m. ground arith)
                k.0,
          ),
          k,
        )
]

pub sorted_buckets-Rising : (bs : List FsBucket) → Single bs → Rising (sorted_buckets bs)
unfolding sort_by
sorted_buckets-Rising [] h = tt
sorted_buckets-Rising (b ∷ bs) h =
    insert_sorted-Rising b (sorted_buckets bs) (bucket_at-sorted_buckets b.key bs h.1 ∙ h.0)
      (sorted_buckets-Rising bs h.1)
