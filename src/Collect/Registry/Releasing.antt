-- ===== src/Collect/Registry/Releasing.antt =====
-- What one round of `Order` of internal/collect/collect.go does with the dependents of a collector.
use plumbline.Base.Maps.{contains, Distinct, contains-append, Distinct-append}
use plumbline.Collect.Registry.{count, Plan, release, release_all}
use plumbline.Collect.Registry.Counting.{count-insert}
use plumbline.Base.{
  Str, str_eq, str_eq_iff, str_eq_refl, ◌-◌, ◌≡◌, refl, ap, inl, inr, true, false, ◌&&◌, ◌||◌, List,
  [], ◌∷◌, arith, ◌==◌, if◌then◌else◌, Bool-cases,
}

pub out-release_all : (ds : List Str) (p : Plan) → (release_all ds p).out ≡ p.out
unfolding release_all release
out-release_all [] p = refl
out-release_all (d ∷ ds) p = out-release_all ds (release d p)

count-release :
    (d : Str) (p : Plan) (x : Str)
    → count (release d p).indegree x
      ≡ (if str_eq d x then count p.indegree x - 1 else count p.indegree x)
unfolding release
count-release d p x =
    ground (arith, count-insert d x (count p.indegree d - 1) p.indegree, str_eq_iff d x)

pub count-release_all :
    (ds : List Str) (p : Plan) (x : Str)
    → Distinct ds
    → count (release_all ds p).indegree x
      ≡ (if contains ds x then count p.indegree x - 1 else count p.indegree x)
unfolding release_all contains
count-release_all [] p x h = refl
count-release_all (d ∷ ds) p x h =
    ground
      (arith, count-release_all ds (release d p) x h.1, count-release d p x, str_eq_iff d x, h.0)

ready-release :
    (d : Str) (p : Plan) (x : Str)
    → contains (release d p).ready x
      ≡ (contains p.ready x || (str_eq d x && count p.indegree x == 1))
unfolding release
ready-release d p x =
    ground
      (arith, contains-append p.ready d x, str_eq_iff d x, ap (count p.indegree) {x = d} {y = x})

pub ready-release_all :
    (ds : List Str) (p : Plan) (x : Str)
    → Distinct ds
    → contains (release_all ds p).ready x
      ≡ (contains p.ready x || (contains ds x && count p.indegree x == 1))
unfolding release_all contains
ready-release_all [] p x h = ground arith
ready-release_all (d ∷ ds) p x h = ground (
  arith,
  ready-release_all ds (release d p) x h.1,
  ready-release d p x,
  count-release d p x,
  str_eq_iff d x,
  h.0,
)

-- What is released is not there yet.
abbrev pub Unreleased : List Str → Plan → Type 0
Unreleased ds p =
    (x : Str) → contains ds x ≡ true → count p.indegree x ≡ 1 → contains p.ready x ≡ false

release-Distinct :
    (d : Str) (p : Plan)
    → Distinct p.ready
    → (count p.indegree d ≡ 1 → contains p.ready d ≡ false)
    → Distinct (release d p).ready
unfolding release
release-Distinct d p h f = elim (Bool-cases (count p.indegree d == 1)) [
  | inl e ↦ rw e (Distinct-append p.ready d h (f (ground arith)))
  | inr e ↦ rw e h
]

pub release_all-Distinct :
    (ds : List Str) (p : Plan)
    → Distinct ds
    → Distinct p.ready
    → Unreleased ds p
    → Distinct (release_all ds p).ready
unfolding release_all contains
release_all-Distinct [] p h k f = k
release_all-Distinct (d ∷ ds) p h k f =
    release_all-Distinct ds (release d p) h.1
      (release-Distinct d p k (f d (ground (arith, str_eq_refl d))))
      (λ x m e. ground (arith, f x, ready-release d p x, count-release d p x, str_eq_iff d x, h.0))
