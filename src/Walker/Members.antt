-- ===== src/Walker/Members.antt =====
-- What is in a list, in a sorted one, and in two.
use plumbline.Base.{◌≡◌, Bool, List, [], ◌∷◌, ◌++◌, if_holds}
use mathlib.Core.List.{Memᴰ}
use plumbline.Base.Sorting.{sort_by, insert_sorted}

module _ {A : Type 0} (less : A → A → Bool) where
  inserted : (a x : A) (l : List A) → a ≡ x → Memᴰ a (insert_sorted less x l)
  unfolding insert_sorted
  inserted a x [] e = Memᴰ.head e
  inserted a x (y ∷ ys) e =
      if_holds (λ l. Memᴰ a l) (less y x) (Memᴰ.tail (inserted a x ys e)) (Memᴰ.head e)

  kept_by : (a x : A) (l : List A) → Memᴰ a l → Memᴰ a (insert_sorted less x l)
  unfolding insert_sorted
  kept_by a x [] m = Memᴰ.tail m
  kept_by a x (y ∷ ys) (Memᴰ.head e) =
      if_holds (λ l. Memᴰ a l) (less y x) (Memᴰ.head e) (Memᴰ.tail (Memᴰ.head e))
  kept_by a x (y ∷ ys) (Memᴰ.tail m) =
      if_holds (λ l. Memᴰ a l) (less y x) (Memᴰ.tail (kept_by a x ys m)) (Memᴰ.tail (Memᴰ.tail m))

  -- Sorting drops nothing.
  pub Memᴰ-sort_by : (a : A) (l : List A) → Memᴰ a l → Memᴰ a (sort_by less l)
  unfolding sort_by
  Memᴰ-sort_by a [] m = m
  Memᴰ-sort_by a (x ∷ xs) (Memᴰ.head e) = inserted a x (sort_by less xs) e
  Memᴰ-sort_by a (x ∷ xs) (Memᴰ.tail m) = kept_by a x (sort_by less xs) (Memᴰ-sort_by a xs m)

pub left_of : {A : Type 0} (a : A) (l m : List A) → Memᴰ a l → Memᴰ a (l ++ m)
left_of a [] m h = elim h [ ]
left_of a (x ∷ l) m (Memᴰ.head e) = Memᴰ.head e
left_of a (x ∷ l) m (Memᴰ.tail h) = Memᴰ.tail (left_of a l m h)

pub right_of : {A : Type 0} (a : A) (l m : List A) → Memᴰ a m → Memᴰ a (l ++ m)
right_of a [] m h = h
right_of a (x ∷ l) m h = Memᴰ.tail (right_of a l m h)
