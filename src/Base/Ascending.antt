-- ===== src/Base/Ascending.antt =====
-- Sorting by a text that no two elements share.
use mathlib.Core.Path.{◌≡◌}
use mathlib.Core.Bool.{true, false}
use mathlib.Core.List.{List, [], ◌∷◌, map}
use mathlib.Core.Logic.{inl, inr}
use native.Mathlib.Omega.{arith}
use plumbline.Base.Bools.{Bool-cases}
use plumbline.Base.Lists.{All}
use plumbline.Base.Maps.{contains, Distinct}
use plumbline.Base.Sorting.{sort_by, insert_sorted, insert_sorted-All, sort_by-All, All-imp}
use plumbline.Base.Text.{Str, str_eq, str_eq_iff, str_ltb, str_ltb-total, str_ltb_trans}

module _ {ℓ} {A : Type ℓ} (key : A → Str) where
  -- Every key is less than all later ones.
  abbrev pub Ascending : List A → Type ℓ
  Ascending [] = Unit
  Ascending (x ∷ xs) = All (λ y. str_ltb (key x) (key y) ≡ true) xs × Ascending xs

module _ {ℓ} {A : Type ℓ} (key : A → Str) where
  -- No other element has the key of this one.
  abbrev Apart : A → List A → Type 0
  Apart x = All (λ y. str_eq (key y) (key x) ≡ false)

  contains-Apart : (x : A) (l : List A) → contains (map key l) (key x) ≡ false → Apart x l
  unfolding contains
  contains-Apart x [] h = tt
  contains-Apart x (y ∷ ys) h = elim (Bool-cases (str_eq (key y) (key x))) [
    | inl e ↦ absurd (ground arith)
    | inr e ↦ (e, contains-Apart x ys (ground arith))
  ]

  insert_sorted-Ascending :
      (x : A) (l : List A)
      → Apart x l
      → Ascending key l
      → Ascending key (insert_sorted (λ a b. str_ltb (key a) (key b)) x l)
  unfolding insert_sorted
  insert_sorted-Ascending x [] d h = (tt, tt)
  insert_sorted-Ascending x (y ∷ ys) d h = elim (Bool-cases (str_ltb (key y) (key x))) [
    | inl e ↦ rw e (
      insert_sorted-All (λ a b. str_ltb (key a) (key b)) (λ z. str_ltb (key y) (key z) ≡ true) x ys
          e h.0,
      insert_sorted-Ascending x ys d.1 h.1,
    )
    | inr e ↦ elim (Bool-cases (str_ltb (key x) (key y))) [
      | inl f ↦ rw e ((f, All-imp _ _ ys (λ z k. str_ltb_trans (key x) (key y) (key z) f k) h.0), h)
      | inr f ↦
          absurd (ground (arith, str_ltb-total (key x) (key y) f e, str_eq_iff (key y) (key x)))
    ]
  ]

  -- Sorted by a key that no two elements share, the keys rise.
  pub sort_by-Ascending :
      (l : List A)
      → Distinct (map key l)
      → Ascending key (sort_by (λ a b. str_ltb (key a) (key b)) l)
  unfolding sort_by
  sort_by-Ascending [] d = tt
  sort_by-Ascending (x ∷ xs) d =
      insert_sorted-Ascending x (sort_by (λ a b. str_ltb (key a) (key b)) xs)
        (sort_by-All (λ a b. str_ltb (key a) (key b)) _ xs (contains-Apart x xs d.0))
        (sort_by-Ascending xs d.1)
