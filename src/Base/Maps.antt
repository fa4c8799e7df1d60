-- ===== src/Base/Maps.antt =====
-- Go maps with string keys as association lists. A key is stored once; the order of the entries
-- stands for Go's unspecified iteration order, and no result of the program depends on it.
use mathlib.Core.Path.{◌≡◌, refl, ap}
use mathlib.Core.Bool.{Bool, true, false}
use mathlib.Core.Option.{Option, none, some}
use mathlib.Core.List.{List, [], ◌∷◌, ◌++◌}
use native.Mathlib.Omega.{arith}
use plumbline.Base.Bools.{if◌then◌else◌, is_some}
use plumbline.Base.Text.{Str, str_eq, str_eq_iff, str_eq_refl}

abbrev pub Map {ℓ} : Type ℓ → Type ℓ
Map V = List (Str × V)

-- `slices.Contains(ids, want)` and the loops that spell it out.
unfoldable pub contains : List Str → Str → Bool
contains [] k = false
contains (j ∷ js) k = if str_eq j k then true else contains js k

-- No string twice.
abbrev pub Distinct : List Str → Type 0
Distinct [] = Unit
Distinct (k ∷ ks) = (contains ks k ≡ false) × Distinct ks

module _ {ℓ} {V : Type ℓ} where
  -- `v, ok := m[k]`
  unfoldable pub lookup : Str → Map V → Option V
  lookup k [] = none
  lookup k ((j, v) ∷ m) = if str_eq j k then some v else lookup k m

  -- `m[k] = v`
  unfoldable pub insert : Str → V → Map V → Map V
  insert k v [] = (k, v) ∷ []
  insert k v ((j, w) ∷ m) = if str_eq j k then (j, v) ∷ m else (j, w) ∷ insert k v m

  -- `delete(m, k)`
  unfoldable pub remove : Str → Map V → Map V
  remove k [] = []
  remove k ((j, w) ∷ m) = if str_eq j k then remove k m else (j, w) ∷ remove k m

  -- `for k := range m`
  unfoldable pub keys : Map V → List Str
  keys [] = []
  keys ((j, w) ∷ m) = j ∷ keys m

  unfoldable pub values : Map V → List V
  values [] = []
  values ((j, w) ∷ m) = w ∷ values m

  pub lookup-insert :
      (k j : Str) (v : V) (m : Map V)
      → lookup j (insert k v m) ≡ (if str_eq k j then some v else lookup j m)
  unfolding lookup insert
  lookup-insert k j v [] = refl
  lookup-insert k j v ((i, w) ∷ m) =
      ground (arith, str_eq_iff k j, str_eq_iff i k, str_eq_iff i j, lookup-insert k j v m)

  pub lookup-remove :
      (k j : Str) (m : Map V) → lookup j (remove k m) ≡ (if str_eq k j then none else lookup j m)
  unfolding lookup remove
  lookup-remove k j [] = ground arith
  lookup-remove k j ((i, w) ∷ m) =
      ground (arith, str_eq_iff k j, str_eq_iff i k, str_eq_iff i j, lookup-remove k j m)

  pub contains-keys : (k : Str) (m : Map V) → contains (keys m) k ≡ is_some (lookup k m)
  unfolding lookup keys contains
  contains-keys k [] = refl
  contains-keys k ((i, w) ∷ m) = ground (arith, contains-keys k m)

module _ {ℓ} {V : Type ℓ} where
  contains-keys-insert :
      (k j : Str) (v : V) (m : Map V)
      → contains (keys (insert k v m)) j ≡ (if str_eq k j then true else contains (keys m) j)
  contains-keys-insert k j v m =
      ground (arith, contains-keys j (insert k v m), contains-keys j m, lookup-insert k j v m)

  contains-keys-remove :
      (k j : Str) (m : Map V)
      → contains (keys (remove k m)) j ≡ (if str_eq k j then false else contains (keys m) j)
  contains-keys-remove k j m =
      ground (arith, contains-keys j (remove k m), contains-keys j m, lookup-remove k j m)

  -- Writing and deleting keep each key stored once.
  pub insert-Distinct :
      (k : Str) (v : V) (m : Map V) → Distinct (keys m) → Distinct (keys (insert k v m))
  unfolding insert keys
  insert-Distinct k v [] h = (unfold contains in refl, tt)
  insert-Distinct k v ((i, w) ∷ m) h = ground (
    arith,
    str_eq_iff k i,
    str_eq_iff i k,
    contains-keys-insert k i v m,
    insert-Distinct k v m h.1,
  )

  pub remove-Distinct : (k : Str) (m : Map V) → Distinct (keys m) → Distinct (keys (remove k m))
  unfolding remove keys
  remove-Distinct k [] h = tt
  remove-Distinct k ((i, w) ∷ m) h =
      ground (arith, contains-keys-remove k i m, remove-Distinct k m h.1)

  -- A key is read back exactly if it is listed.
  pub lookup-insert_self : (k : Str) (v : V) (m : Map V) → lookup k (insert k v m) ≡ some v
  lookup-insert_self k v m = simp (lookup-insert, str_eq_refl)

pub contains-append :
    (ks : List Str) (k j : Str)
    → contains (ks ++ k ∷ []) j ≡ (if str_eq k j then true else contains ks j)
unfolding contains
contains-append [] k j = refl
contains-append (i ∷ is) k j = ground (arith, contains-append is k j)

pub Distinct-append :
    (ks : List Str) (k : Str) → Distinct ks → contains ks k ≡ false → Distinct (ks ++ k ∷ [])
unfolding contains
Distinct-append [] k d h = (refl, tt)
Distinct-append (j ∷ js) k d h =
    ground (arith, contains-append js k j, str_eq_iff j k, str_eq_iff k j, Distinct-append js k d.1)

module _ {V : Type 0} where
  -- A new key goes to the end.
  pub insert_fresh :
      (k : Str) (v : V) (m : Map V) → lookup k m ≡ none → insert k v m ≡ m ++ (k, v) ∷ []
  unfolding insert lookup
  insert_fresh k v [] h = refl
  insert_fresh k v ((j, w) ∷ m) h = ground (arith, insert_fresh k v m)

  pub keys-append : (m : Map V) (k : Str) (v : V) → keys (m ++ (k, v) ∷ []) ≡ keys m ++ k ∷ []
  unfolding keys
  keys-append [] k v = refl
  keys-append ((j, w) ∷ m) k v = ap (◌∷◌ j) (keys-append m k v)
