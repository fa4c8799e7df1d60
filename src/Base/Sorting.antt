-- ===== src/Base/Sorting.antt =====
-- `sort.Strings` and `sort.SliceStable`: a stable sort by a Boolean test "less", as insertion.
use Prim.Native.Nat.{suc}
use mathlib.Core.Path.{ap, ap₂, ◌∙◌, ◌≡◌, refl}
use mathlib.Core.Logic.{inl, inr, ∥∥₁_elim}
use mathlib.Core.Bool.{Bool, true, false, ◌||◌}
use mathlib.Core.List.{List, [], ◌∷◌, map, Perm, Permᴰ}
use mathlib.Core.List.Perm
use native.Mathlib.Omega.{arith}
use plumbline.Base.Bools.{if◌then◌else◌, Bool-cases}
use plumbline.Base.Lists.{All, any, length}
use plumbline.Base.Text.{Str, str_ltb, str_ltb_irrefl, str_ltb_trans, str_ltb-total}

module _ {ℓ} {A : Type ℓ} (less : A → A → Bool) where
  -- `x` goes in front of the first element that is not less than it.
  unfoldable pub insert_sorted : A → List A → List A
  insert_sorted x [] = x ∷ []
  insert_sorted x (y ∷ ys) = if less y x then y ∷ insert_sorted x ys else x ∷ y ∷ ys

  unfoldable pub sort_by : List A → List A
  unfolding insert_sorted
  sort_by [] = []
  sort_by (x ∷ xs) = insert_sorted x (sort_by xs)

  -- No later element is less than an earlier one.
  abbrev pub IsSorted : List A → Type ℓ
  IsSorted [] = Unit
  IsSorted (x ∷ xs) = All (λ y. less y x ≡ false) xs × IsSorted xs

module _ {ℓ} {A : Type ℓ} (less : A → A → Bool) where
  insert_sorted-perm : (x : A) (l : List A) → Perm (insert_sorted less x l) (x ∷ l)
  unfolding insert_sorted
  insert_sorted-perm x [] = Perm.refl _
  insert_sorted-perm x (y ∷ ys) = elim (Bool-cases (less y x)) [
    | inl p ↦ rw p (Perm.trans (Perm.cons y (insert_sorted-perm x ys)) (Perm.swap x y ys))
    | inr p ↦ rw p (Perm.refl _)
  ]

  -- Sorting loses and invents nothing.
  sort_by-perm : (l : List A) → Perm (sort_by less l) l
  unfolding sort_by
  sort_by-perm [] = Perm.refl _
  sort_by-perm (x ∷ xs) =
      Perm.trans (insert_sorted-perm x (sort_by less xs)) (Perm.cons x (sort_by-perm xs))

  pub insert_sorted-All {κ} :
      (P : A → Type κ) (x : A) (l : List A) → P x → All P l → All P (insert_sorted less x l)
  unfolding insert_sorted
  insert_sorted-All P x [] p h = (p, tt)
  insert_sorted-All P x (y ∷ ys) p h = elim (Bool-cases (less y x)) [
    | inl e ↦ rw e (h.0, insert_sorted-All P x ys p h.1)
    | inr e ↦ rw e (p, h)
  ]

  -- What holds of all elements holds of all elements of the sorted list.
  pub sort_by-All {κ} : (P : A → Type κ) (l : List A) → All P l → All P (sort_by less l)
  unfolding sort_by
  sort_by-All P [] h = tt
  sort_by-All P (x ∷ xs) h = insert_sorted-All P x (sort_by less xs) h.0 (sort_by-All P xs h.1)

module _ {ℓ} {A : Type ℓ} (less : A → A → Bool) (p : A → Bool) where
  any-insert_sorted : (x : A) (l : List A) → any p (insert_sorted less x l) ≡ (p x || any p l)
  unfolding insert_sorted any
  any-insert_sorted x [] = refl
  any-insert_sorted x (y ∷ ys) = ground (arith, any-insert_sorted x ys)

  -- A test that some element passes does not depend on the order.
  pub any-sort_by : (l : List A) → any p (sort_by less l) ≡ any p l
  unfolding sort_by any
  any-sort_by [] = refl
  any-sort_by (x ∷ xs) = ground (arith, any-insert_sorted x (sort_by less xs), any-sort_by xs)

pub All-imp {ℓ κ μ} :
    {A : Type ℓ} (P : A → Type κ) (Q : A → Type μ) (l : List A)
    → ((a : A) → P a → Q a)
    → All P l
    → All Q l
All-imp P Q [] f h = tt
All-imp P Q (x ∷ xs) f h = (f x h.0, All-imp P Q xs f h.1)

-- What a comparison must satisfy for `sort` to sort by it.
pub record WeakOrder {ℓ} {A : Type ℓ} (less : A → A → Bool) : Type ℓ where
  pub asymm : (a b : A) → less a b ≡ true → less b a ≡ false
  pub not_trans : (a b c : A) → less b a ≡ false → less c b ≡ false → less c a ≡ false

module _ {ℓ} {A : Type ℓ} {less : A → A → Bool} (w : WeakOrder less) where
  insert_sorted-IsSorted :
      (x : A) (l : List A) → IsSorted less l → IsSorted less (insert_sorted less x l)
  unfolding insert_sorted
  insert_sorted-IsSorted x [] h = (tt, tt)
  insert_sorted-IsSorted x (y ∷ ys) h = elim (Bool-cases (less y x)) [
    | inl e ↦
        rw e (insert_sorted-All less _ x ys (w.asymm y x e) h.0, insert_sorted-IsSorted x ys h.1)
    | inr e ↦ rw e ((e, All-imp _ _ ys (λ a k. w.not_trans x y a e k) h.0), h)
  ]

  -- The result is in order.
  pub sort_by-IsSorted : (l : List A) → IsSorted less (sort_by less l)
  unfolding sort_by
  sort_by-IsSorted [] = tt
  sort_by-IsSorted (x ∷ xs) = insert_sorted-IsSorted x (sort_by less xs) (sort_by-IsSorted xs)

Strs-set : IsSet (List Str)
Strs-set = hlevel

abbrev pub sort_strings : List Str → List Str
sort_strings = sort_by str_ltb

pub str_ltb-asymm : (a b : Str) → str_ltb a b ≡ true → str_ltb b a ≡ false
str_ltb-asymm a b h = elim (Bool-cases (str_ltb b a)) [
  | inl k ↦ ground (arith, str_ltb_trans a b a h k, str_ltb_irrefl a)
  | inr k ↦ k
]

pub str_ltb-not_trans :
    (a b c : Str) → str_ltb b a ≡ false → str_ltb c b ≡ false → str_ltb c a ≡ false
str_ltb-not_trans a b c h k = elim (Bool-cases (str_ltb c a)) [
  | inl p ↦ elim (Bool-cases (str_ltb b c)) [
    | inl q ↦ ground (arith, str_ltb_trans b c a q p)
    | inr q ↦ ground (arith, str_ltb-total b c q k)
  ]
  | inr p ↦ p
]

pub str_ltb-WeakOrder : WeakOrder str_ltb
str_ltb-WeakOrder = record { asymm = str_ltb-asymm; not_trans = str_ltb-not_trans }

insert_sorted_comm :
    (x y : Str) (l : List Str)
    → insert_sorted str_ltb x (insert_sorted str_ltb y l)
      ≡ insert_sorted str_ltb y (insert_sorted str_ltb x l)
unfolding insert_sorted
insert_sorted_comm x y [] = ground (arith, str_ltb-asymm x y, str_ltb-total x y)
insert_sorted_comm x y (z ∷ zs) = ground (
  arith,
  str_ltb-asymm x y,
  str_ltb-asymm y x,
  str_ltb-total x y,
  str_ltb_trans z x y,
  str_ltb_trans z y x,
  insert_sorted_comm x y zs,
)

sort_strings-Permᴰ : {l r : List Str} → Permᴰ l r → sort_strings l ≡ sort_strings r
unfolding sort_by
sort_strings-Permᴰ Permᴰ.nil = refl
sort_strings-Permᴰ (Permᴰ.cons e p) = ap₂ (insert_sorted str_ltb) e (sort_strings-Permᴰ p)
sort_strings-Permᴰ (Permᴰ.swap {a = a} {b = b} {l = l} e f) =
    cc (insert_sorted_comm a b (sort_strings l))
sort_strings-Permᴰ (Permᴰ.trans p q) = sort_strings-Permᴰ p ∙ sort_strings-Permᴰ q

-- The sorted list does not depend on the order of the input: what a Go map's random iteration
-- order yields is sorted to the same list every time.
sort_strings-perm : {l r : List Str} → Perm l r → sort_strings l ≡ sort_strings r
sort_strings-perm p = ∥∥₁_elim p (Strs-set _ _) sort_strings-Permᴰ

length-insert_sorted {ℓ} :
    {A : Type ℓ} (less : A → A → Bool) (x : A) (l : List A)
    → length (insert_sorted less x l) ≡ suc (length l)
unfolding insert_sorted
length-insert_sorted less x [] = refl
length-insert_sorted less x (y ∷ ys) = ground (arith, length-insert_sorted less x ys)

-- Sorting keeps the length.
pub length-sort_by {ℓ} :
    {A : Type ℓ} (less : A → A → Bool) (l : List A) → length (sort_by less l) ≡ length l
unfolding sort_by
length-sort_by less [] = refl
length-sort_by less (x ∷ xs) =
    length-insert_sorted less x (sort_by less xs) ∙ ap suc (length-sort_by less xs)

module _ {ℓ κ} {A : Type ℓ} {B : Type κ} (key : A → B) (less : B → B → Bool) where
  insert_sorted-map :
      (x : A) (l : List A)
      → map key (insert_sorted (λ a b. less (key a) (key b)) x l)
        ≡ insert_sorted less (key x) (map key l)
  unfolding insert_sorted
  insert_sorted-map x [] = refl
  insert_sorted-map x (y ∷ ys) = elim (Bool-cases (less (key y) (key x))) [
    | inl e ↦ rw e (ap (λ l. key y ∷ l) (insert_sorted-map x ys))
    | inr e ↦ rw e refl
  ]

  -- Sorting by a key sorts the keys.
  pub sort_by-map :
      (l : List A) → map key (sort_by (λ a b. less (key a) (key b)) l) ≡ sort_by less (map key l)
  unfolding sort_by
  sort_by-map [] = refl
  sort_by-map (x ∷ xs) =
      insert_sorted-map x (sort_by (λ a b. less (key a) (key b)) xs)
      ∙ ap (insert_sorted less (key x)) (sort_by-map xs)
