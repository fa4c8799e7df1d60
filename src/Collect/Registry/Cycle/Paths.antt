-- ===== src/Collect/Registry/Cycle/Paths.antt =====
-- The paths that `findCycle` of internal/collect/collect.go walks, and the cycle that it cuts out of one.
use plumbline.Base.Maps.{contains}
use plumbline.Collect.Registry.{Registry, known_deps}
use plumbline.Collect.Registry.Cycle.{from_first, drop_end}
use plumbline.Base.{
  Str, str_eq, str_eq_iff, ◌≡◌, refl, sym, ap, inl, inr, true, List, [], ◌∷◌, ◌++◌, arith,
  Bool-cases,
}

-- Each collector depends on the next.
abbrev pub Chain : Registry → List Str → Type 0
Chain r [] = Unit
Chain r (x ∷ []) = Unit
Chain r (x ∷ y ∷ l) = (contains (known_deps r x) y ≡ true) × Chain r (y ∷ l)

-- The last collector of a path depends on one more.
abbrev pub Leads : Registry → List Str → Str → Type 0
Leads r [] d = Unit
Leads r (x ∷ []) d = contains (known_deps r x) d ≡ true
Leads r (x ∷ y ∷ l) d = Leads r (y ∷ l) d

pub Chain-append :
    (r : Registry) (l : List Str) (d : Str) → Chain r l → Leads r l d → Chain r (l ++ d ∷ [])
Chain-append r [] d c h = tt
Chain-append r (x ∷ []) d c h = (h, tt)
Chain-append r (x ∷ y ∷ l) d c h = (c.0, Chain-append r (y ∷ l) d c.1 h)

pub Leads-append :
    (r : Registry) (l : List Str) (x d : Str)
    → contains (known_deps r x) d ≡ true
    → Leads r (l ++ x ∷ []) d
Leads-append r [] x d h = h
Leads-append r (y ∷ []) x d h = h
Leads-append r (y ∷ z ∷ l) x d h = Leads-append r (z ∷ l) x d h

pub drop_end-append : (l : List Str) (x : Str) → drop_end (l ++ x ∷ []) ≡ l
unfolding drop_end
drop_end-append [] x = refl
drop_end-append (y ∷ []) x = refl
drop_end-append (y ∷ z ∷ l) x = ap (λ m. y ∷ m) (drop_end-append (z ∷ l) x)

-- A path that starts and ends with the same collector, each of which depends on the next.
abbrev pub IsCycle : Registry → List Str → Type 0
IsCycle r c = (d : Str) × (l : List Str) × (c ≡ d ∷ (l ++ d ∷ [])) × Chain r c

tail-Chain : (r : Registry) (s : Str) (path : List Str) → Chain r (s ∷ path) → Chain r path
tail-Chain r s [] c = tt
tail-Chain r s (y ∷ l) c = c.1

tail-Leads :
    (r : Registry) (s d : Str) (path : List Str)
    → contains path d ≡ true
    → Leads r (s ∷ path) d
    → Leads r path d
unfolding contains
tail-Leads r s d [] m h = tt
tail-Leads r s d (y ∷ l) m h = h

pub from_first-IsCycle :
    (r : Registry) (d : Str) (path : List Str)
    → contains path d ≡ true
    → Chain r path
    → Leads r path d
    → IsCycle r (from_first d path ++ d ∷ [])
unfolding from_first contains
from_first-IsCycle r d [] m c h = absurd (ground arith)
from_first-IsCycle r d (s ∷ path) m c h = elim (Bool-cases (str_eq s d)) [
  | inl e ↦
      rw (e, from_first)
        (
          s,
          path,
          ap (λ z. s ∷ (path ++ z ∷ [])) (sym ((str_eq_iff s d).0 e)),
          Chain-append r (s ∷ path) d c h,
        )
  | inr e ↦
      let k : contains path d ≡ true = ground arith in
      rw (e, from_first)
        (from_first-IsCycle r d path k (tail-Chain r s path c) (tail-Leads r s d path k h))
]
