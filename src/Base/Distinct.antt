-- ===== src/Base/Distinct.antt =====
-- Lists of texts without duplicates, and what sorting and filtering do to them.
use Prim.Native.Nat.{ℕ, suc, ◌+◌}
use mathlib.Core.Path.{◌≡◌, refl, ap, sym}
use mathlib.Core.Bool.{Bool, true, false, not, ◌&&◌}
use mathlib.Core.List.{List, [], ◌∷◌, ◌++◌}
use mathlib.Core.Logic.{inl, inr}
use native.Mathlib.Omega.{arith}
use plumbline.Base.Bools.{if◌then◌else◌, Bool-cases}
use plumbline.Base.Lists.{select, tally, length}
use plumbline.Base.Maps.{contains, Distinct, contains-append}
use plumbline.Base.Sorting.{sort_by, insert_sorted, sort_strings}
use plumbline.Base.Text.{Str, str_eq, str_eq_iff, str_ltb}

contains-insert_sorted :
    (x : Str) (l : List Str) (k : Str)
    → contains (insert_sorted str_ltb x l) k ≡ (if str_eq x k then true else contains l k)
unfolding insert_sorted contains
contains-insert_sorted x [] k = refl
contains-insert_sorted x (y ∷ ys) k = ground (arith, contains-insert_sorted x ys k)

pub contains-sort_strings : (l : List Str) (k : Str) → contains (sort_strings l) k ≡ contains l k
unfolding sort_by contains
contains-sort_strings [] k = refl
contains-sort_strings (x ∷ xs) k =
    ground (arith, contains-insert_sorted x (sort_strings xs) k, contains-sort_strings xs k)

insert_sorted-Distinct :
    (x : Str) (l : List Str)
    → Distinct l
    → contains l x ≡ false
    → Distinct (insert_sorted str_ltb x l)
unfolding insert_sorted contains
insert_sorted-Distinct x [] d h = (refl, tt)
insert_sorted-Distinct x (y ∷ ys) d h = elim (Bool-cases (str_ltb y x)) [
  | inl e ↦ rw e (
    ground (arith, contains-insert_sorted x ys y, str_eq_iff x y, str_eq_iff y x),
    insert_sorted-Distinct x ys d.1 (ground arith),
  )
  | inr e ↦ rw e (h, d)
]

pub sort_strings-Distinct : (l : List Str) → Distinct l → Distinct (sort_strings l)
unfolding sort_by
sort_strings-Distinct [] d = tt
sort_strings-Distinct (x ∷ xs) d =
    insert_sorted-Distinct x (sort_strings xs) (sort_strings-Distinct xs d.1)
      (ground (arith, contains-sort_strings xs x, d.0))

pub contains-select :
    (p : Str → Bool) (l : List Str) (k : Str) → contains (select p l) k ≡ (contains l k && p k)
unfolding select contains
contains-select p [] k = refl
contains-select p (x ∷ xs) k = elim (Bool-cases (str_eq x k)) [
  | inl e ↦ ground (arith, ap p ((str_eq_iff x k).0 e), contains-select p xs k)
  | inr e ↦ ground (arith, contains-select p xs k)
]

pub select-Distinct : (p : Str → Bool) (l : List Str) → Distinct l → Distinct (select p l)
unfolding select
select-Distinct p [] d = tt
select-Distinct p (x ∷ xs) d = elim (Bool-cases (p x)) [
  | inl e ↦ rw e (ground (arith, contains-select p xs x, d.0), select-Distinct p xs d.1)
  | inr e ↦ rw e (select-Distinct p xs d.1)
]

-- How many of the elements are not in a list yet.
unfoldable pub outside : List Str → List Str → ℕ
unfolding tally contains
outside out = tally (λ k. not (contains out k))

outside-absent :
    (out : List Str) (k : Str) (l : List Str)
    → contains l k ≡ false
    → outside (out ++ k ∷ []) l ≡ outside out l
unfolding outside tally contains
outside-absent out k [] h = refl
outside-absent out k (x ∷ xs) h =
    ground (arith, outside-absent out k xs, contains-append out k x, str_eq_iff k x, str_eq_iff x k)

-- One more element of the list lowers the number by one.
pub outside-append :
    (out : List Str) (k : Str) (l : List Str)
    → Distinct l
    → contains out k ≡ false
    → outside out l ≡ outside (out ++ k ∷ []) l + (if contains l k then 1 else 0)
unfolding outside tally contains
outside-append out k [] d h = refl
outside-append out k (x ∷ xs) d h = elim (Bool-cases (str_eq x k)) [
  | inl e ↦ ground (
    arith,
    ap (contains out) ((str_eq_iff x k).0 e),
    ap (contains xs) ((str_eq_iff x k).0 e),
    d.0,
    contains-append out k x,
    (str_eq_iff k x).1 (sym ((str_eq_iff x k).0 e)),
    outside-absent out k xs,
  )
  | inr e ↦ ground (
    arith,
    outside-append out k xs d.1 h,
    contains-append out k x,
    str_eq_iff k x,
    str_eq_iff x k,
  )
]

pub outside_nil : (l : List Str) → outside [] l ≡ length l
unfolding outside tally contains
outside_nil [] = refl
outside_nil (x ∷ xs) = ap suc (outside_nil xs)
