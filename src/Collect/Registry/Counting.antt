-- ===== src/Collect/Registry/Counting.antt =====
-- What the first loops of `Order` of internal/collect/collect.go count.
use plumbline.Base.Distinct.{
  contains-sort_strings, sort_strings-Distinct, contains-select, select-Distinct,
}
use plumbline.Base.Maps.{contains-keys}
use plumbline.Collect.Registry.{
  known, deps, dedupe, dedupe_from, Registry, ids, known_deps, Counts, count, listed, zero_all,
  count_dep, count_deps, count_all, counts,
}
use plumbline.Base.Maps.{Map, lookup, insert, lookup-insert, keys, contains, Distinct}
use mathlib.Core.List.{append_assoc, append-nil}
use plumbline.Base.{
  select, Str, str_eq, str_eq_iff, str_eq_refl, ℕ, ◌+◌, ◌≡◌, refl, sym, ap, ◌∙◌, inl, inr, true,
  not, ◌&&◌, List, [], ◌∷◌, ◌++◌, arith, if◌then◌else◌, Bool-cases, length,
}

pub count-insert :
    (k j : Str) (n : ℕ) (m : Map ℕ) → count (insert k n m) j ≡ (if str_eq k j then n else count m j)
unfolding count
count-insert k j n m = ground (arith, lookup-insert k j n m)

listed-insert :
    (k j : Str) (l : List Str) (m : Map (List Str))
    → listed (insert k l m) j ≡ (if str_eq k j then l else listed m j)
unfolding listed
listed-insert k j l m = ground (arith, lookup-insert k j l m)

count-count_deps :
    (id : Str) (ds : List Str) (c : Counts) (x : Str)
    → count (count_deps id ds c).indegree x
      ≡ count c.indegree x + (if str_eq id x then length ds else 0)
unfolding count_deps count_dep
count-count_deps id [] c x = ground arith
count-count_deps id (d ∷ ds) c x = ground (
  arith,
  count-count_deps id ds (count_dep id d c) x,
  count-insert id x (count c.indegree id + 1) c.indegree,
  str_eq_iff id x,
)

listed-count_deps :
    (id : Str) (ds : List Str) (c : Counts) (x : Str)
    → Distinct ds
    → listed (count_deps id ds c).dependents x
      ≡ (if contains ds x then listed c.dependents x ++ id ∷ [] else listed c.dependents x)
unfolding count_deps count_dep contains
listed-count_deps id [] c x h = refl
listed-count_deps id (d ∷ ds) c x h = ground (
  arith,
  listed-count_deps id ds (count_dep id d c) x h.1,
  listed-insert d x (listed c.dependents d ++ id ∷ []) c.dependents,
  str_eq_iff d x,
)

count-zero_all : (l : List Str) (m : Map ℕ) (x : Str) → count m x ≡ 0 → count (zero_all l m) x ≡ 0
unfolding zero_all
count-zero_all [] m x h = h
count-zero_all (i ∷ l) m x h =
    count-zero_all l (insert i 0 m) x (ground (arith, count-insert i x 0 m))

contains-dedupe_from :
    (seen l : List Str) (k : Str)
    → contains (dedupe_from seen l) k ≡ (not (contains seen k) && contains l k)
unfolding dedupe_from contains
contains-dedupe_from seen [] k = ground arith
contains-dedupe_from seen (s ∷ rest) k = elim (Bool-cases (contains seen s)) [
  | inl e ↦
      rw (e, dedupe_from)
        (ground (
          arith,
          contains-dedupe_from seen rest k,
          str_eq_iff s k,
          ap (contains seen) {x = s} {y = k},
        ))
  | inr e ↦
      rw (e, dedupe_from) (ground (arith, contains-dedupe_from (s ∷ seen) rest k, str_eq_iff s k))
]

dedupe_from-Distinct : (seen l : List Str) → Distinct (dedupe_from seen l)
unfolding dedupe_from contains
dedupe_from-Distinct seen [] = tt
dedupe_from-Distinct seen (s ∷ rest) = elim (Bool-cases (contains seen s)) [
  | inl e ↦ rw (e, dedupe_from) (dedupe_from-Distinct seen rest)
  | inr e ↦
      rw (e, dedupe_from)
        (
          ground (arith, contains-dedupe_from (s ∷ seen) rest s, str_eq_refl s),
          dedupe_from-Distinct (s ∷ seen) rest,
        )
]

-- The dependencies that order a collector are those that it names and that are registered, once each.
contains-known_deps :
    (r : Registry) (id d : Str)
    → contains (known_deps r id) d ≡ (contains (deps r id) d && known r d)
unfolding known_deps dedupe contains
contains-known_deps r id d = ground (
  arith,
  contains-select (known r) (dedupe (deps r id)) d,
  contains-sort_strings (dedupe_from [] (deps r id)) d,
  contains-dedupe_from [] (deps r id) d,
)

pub known_deps-Distinct : (r : Registry) (id : Str) → Distinct (known_deps r id)
unfolding known_deps dedupe
known_deps-Distinct r id =
    select-Distinct (known r) (dedupe (deps r id))
      (sort_strings-Distinct (dedupe_from [] (deps r id)) (dedupe_from-Distinct [] (deps r id)))

pub contains-ids : (r : Registry) (x : Str) → contains (ids r) x ≡ known r x
unfolding ids known
contains-ids r x = contains-sort_strings (keys r) x ∙ contains-keys x r

pub ids-Distinct : (r : Registry) → Distinct (keys r) → Distinct (ids r)
unfolding ids
ids-Distinct r h = sort_strings-Distinct (keys r) h

module _ (r : Registry) where
  count-count_all :
      (l : List Str) (c : Counts) (x : Str)
      → Distinct l
      → count (count_all r l c).indegree x
        ≡ count c.indegree x + (if contains l x then length (known_deps r x) else 0)
  unfolding count_all contains
  count-count_all [] c x h = omega arith
  count-count_all (i ∷ l) c x h = elim (Bool-cases (str_eq i x)) [
    | inl e ↦ ground (
      arith,
      count-count_all l (count_deps i (known_deps r i) c) x h.1,
      count-count_deps i (known_deps r i) c x,
      ap (known_deps r) ((str_eq_iff i x).0 e),
      ap (contains l) ((str_eq_iff i x).0 e),
      h.0,
    )
    | inr e ↦ ground (
      arith,
      count-count_all l (count_deps i (known_deps r i) c) x h.1,
      count-count_deps i (known_deps r i) c x,
    )
  ]

  listed-count_all :
      (l : List Str) (c : Counts) (x : Str)
      → listed (count_all r l c).dependents x
        ≡ listed c.dependents x ++ select (λ y. contains (known_deps r y) x) l
  unfolding count_all select
  listed-count_all [] c x = sym (append-nil (listed c.dependents x))
  listed-count_all (i ∷ l) c x = elim (Bool-cases (contains (known_deps r i) x)) [
    | inl e ↦
        listed-count_all l (count_deps i (known_deps r i) c) x
        ∙ ap (λ a. a ++ select (λ y. contains (known_deps r y) x) l)
            (listed-count_deps i (known_deps r i) c x (known_deps-Distinct r i))
        ∙ rw e (
            append_assoc (listed c.dependents x) (i ∷ [])
              (select (λ y. contains (known_deps r y) x) l))
    | inr e ↦
        listed-count_all l (count_deps i (known_deps r i) c) x
        ∙ ap (λ a. a ++ select (λ y. contains (known_deps r y) x) l)
            (listed-count_deps i (known_deps r i) c x (known_deps-Distinct r i))
        ∙ rw e refl
  ]

  -- Each collector is counted once for each of its dependencies.
  pub count-counts :
      (x : Str)
      → Distinct (keys r)
      → known r x ≡ true
      → count (counts r).indegree x ≡ length (known_deps r x)
  unfolding counts count lookup
  count-counts x d h = ground (
    arith,
    count-count_all (ids r) (record { indegree = zero_all (ids r) []; dependents = [] }) x
        (ids-Distinct r d),
    count-zero_all (ids r) [] x refl,
    contains-ids r x,
  )

  -- Each collector has as its dependents those that it is a dependency of, in order.
  pub listed-counts :
      (x : Str) → listed (counts r).dependents x ≡ select (λ y. contains (known_deps r y) x) (ids r)
  unfolding counts listed select lookup
  listed-counts x =
      listed-count_all (ids r) (record { indegree = zero_all (ids r) []; dependents = [] }) x
