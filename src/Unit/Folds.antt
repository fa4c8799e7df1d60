-- ===== src/Unit/Folds.antt =====
-- The two folds of internal/collect/unit/unit.go over the assignments of one directive.
use plumbline.Unit.{Directive, SystemdUnit, list, list_from, list_step, last, last_from, last_step}
use plumbline.Base.{Str, ◌≡◌, refl, sym, ap, ◌∙◌, Option, none, some, List, [], ◌∷◌, ◌++◌, arith}

-- The final element of a list.
unfoldable pub last_of {ℓ} : {A : Type ℓ} → List A → Option A
last_of [] = none
last_of (x ∷ []) = some x
last_of (x ∷ y ∷ ys) = last_of (y ∷ ys)

last_of-append {ℓ} : {A : Type ℓ} (xs : List A) (x : A) → last_of (xs ++ x ∷ []) ≡ some x
unfolding last_of
last_of-append [] x = refl
last_of-append (y ∷ []) x = refl
last_of-append (y ∷ z ∷ zs) x = last_of-append (z ∷ zs) x

last_of-list_step :
    (name : Str) (d : Directive) (out : List Directive)
    → last_of (list_step name d out) ≡ last_step name d (last_of out)
unfolding list_step last_step last_of
last_of-list_step name d out = ground (arith, last_of-append out d)

last_of-list_from :
    (name : Str) (ds : List Directive) (out : List Directive)
    → last_of (list_from name ds out) ≡ last_from name ds (last_of out)
unfolding list_from last_from
last_of-list_from name [] out = refl
last_of-list_from name (d ∷ ds) out =
    last_of-list_from name ds (list_step name d out)
    ∙ ap (last_from name ds) (last_of-list_step name d out)

-- The scalar reading of a directive is the final entry of its list reading: there is no value exactly
-- if an empty assignment cleared the list last.
pub last-list : (u : SystemdUnit) (name : Str) → last u name ≡ last_of (list u name)
unfolding last list last_of
last-list u name = sym (last_of-list_from name u.directives [])
