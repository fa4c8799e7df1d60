-- ===== src/Base/Lists.antt =====
-- Lists measured by native numbers, filters by a Boolean test, and predicates on all elements.
use Prim.Native.Nat.{ℕ, zero, suc, ◌+◌}
use mathlib.Core.Path.{◌≡◌, refl, ap}
use mathlib.Core.Bool.{Bool, false, ◌||◌}
use mathlib.Core.List.{List, [], ◌∷◌, ◌++◌, map}
use native.Mathlib.Omega.{arith}
use mathlib.Core.Logic.{inl, inr}
use plumbline.Base.Bools.{if◌then◌else◌, Bool-cases}

module _ {ℓ} {A : Type ℓ} where
  abbrev pub length : List A → ℕ
  length [] = 0
  length (x ∷ xs) = suc (length xs)

  abbrev pub take : ℕ → List A → List A
  take zero xs = []
  take (suc n) [] = []
  take (suc n) (x ∷ xs) = x ∷ take n xs

  abbrev pub drop : ℕ → List A → List A
  drop zero xs = xs
  drop (suc n) [] = []
  drop (suc n) (x ∷ xs) = drop n xs

  pub length-append : (xs ys : List A) → length (xs ++ ys) ≡ length xs + length ys
  length-append [] ys = omega arith
  length-append (x ∷ xs) ys = omega (arith, length-append xs ys)

  -- The elements that pass a Boolean test, in order.
  unfoldable pub select : (A → Bool) → List A → List A
  select p [] = []
  select p (x ∷ xs) = if p x then x ∷ select p xs else select p xs

  -- How many elements pass a Boolean test.
  unfoldable pub tally : (A → Bool) → List A → ℕ
  tally p [] = 0
  tally p (x ∷ xs) = if p x then suc (tally p xs) else tally p xs

  unfoldable pub any : (A → Bool) → List A → Bool
  any p [] = false
  any p (x ∷ xs) = p x || any p xs

pub length-map {ℓ κ} :
    {A : Type ℓ} {B : Type κ} (f : A → B) (xs : List A) → length (map f xs) ≡ length xs
length-map f [] = refl
length-map f (x ∷ xs) = ap suc (length-map f xs)

abbrev pub All {ℓ κ} : {A : Type ℓ} → (A → Type κ) → List A → Type κ
All P [] = Unit
All P (x ∷ xs) = P x × All P xs

pub All-append_one {ℓ} :
    {A : Type 0} (P : A → Type ℓ) (l : List A) (a : A) → All P l → P a → All P (l ++ a ∷ [])
All-append_one P [] a h p = (p, tt)
All-append_one P (x ∷ xs) a h p = (h.0, All-append_one P xs a h.1 p)

pub All-append {ℓ κ} :
    {A : Type ℓ} (P : A → Type κ) (l m : List A) → All P l → All P m → All P (l ++ m)
All-append P [] m h k = k
All-append P (x ∷ xs) m h k = (h.0, All-append P xs m h.1 k)

-- Elements that an earlier filter may as well drop, because a later one drops their images.
pub select-map {ℓ κ} :
    {A : Type ℓ} {B : Type κ} (p : A → Bool) (g : A → B) (q : B → Bool)
    → ((x : A) → p x ≡ false → q (g x) ≡ false)
    → (l : List A) → select q (map g l) ≡ select q (map g (select p l))
unfolding select
select-map p g q h [] = refl
select-map p g q h (x ∷ xs) = elim (Bool-cases (p x)) [
  | inl e ↦ rw e (ap (λ r. if q (g x) then g x ∷ r else r) (select-map p g q h xs))
  | inr e ↦ rw (e, h x e) (select-map p g q h xs)
]

pub any-append {ℓ} :
    {A : Type ℓ} (p : A → Bool) (l m : List A) → any p (l ++ m) ≡ (any p l || any p m)
unfolding any
any-append p [] m = refl
any-append p (x ∷ xs) m = ground (arith, any-append p xs m)

-- Two lists of one length, related place by place.
abbrev pub Both {ℓ κ} : {A : Type ℓ} {B : Type κ} → (A → B → Type 0) → List A → List B → Type 0
Both R [] [] = Unit
Both R [] (y ∷ ys) = ⊥
Both R (x ∷ xs) [] = ⊥
Both R (x ∷ xs) (y ∷ ys) = R x y × Both R xs ys

pub Both-map {ℓ κ μ ν} :
    {A : Type ℓ} {B : Type κ} {C : Type μ} (P : C → Type ν) (R : A → B → Type 0) (f : C → A)
    (g : C → B)
    → ((c : C) → P c → R (f c) (g c))
    → (l : List C) → All P l
    → Both R (map f l) (map g l)
Both-map P R f g h [] k = tt
Both-map P R f g h (x ∷ xs) k = (h x k.0, Both-map P R f g h xs k.1)
