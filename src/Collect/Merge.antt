-- ===== src/Collect/Merge.antt =====
-- What `mergeInto` of internal/collect/runner.go leaves in the set of the run.
use plumbline.Collect.{get_fact, put_got, merge_facts, merge_errors, merge_into}
use plumbline.Fact.{Fact, Error, Set, Got, present, failed, missing, put, put_error, ids, errors}
use plumbline.Fact.Invariant.{IsConsistent, put-IsConsistent, put_error-IsConsistent}
use plumbline.Base.{
  any, Str, str_eq, str_ltb, str_eq_iff, str_eq_refl, ◌≡◌, refl, sym, ◌∙◌, inl, inr, ◌&&◌, Option,
  none, some, List, [], ◌∷◌, arith, if◌then◌else◌, Option-cases, is_some, All,
}
use plumbline.Base.Maps.{
  Map, lookup, lookup-insert, lookup-remove, keys, values, contains, contains-keys, Distinct,
}
use plumbline.Base.Sorting.{sort_by-All, any-sort_by, All-imp}

contains-any : (ks : List Str) (k : Str) → contains ks k ≡ any (λ j. str_eq j k) ks
unfolding contains any
contains-any [] k = refl
contains-any (j ∷ js) k = ground (arith, contains-any js k)

module _ {V : Type 0} where
  -- A set at one name: its fact and its error.
  abbrev fact_at : Set V → Str → Option (Fact V)
  fact_at s id = lookup id s.facts

  abbrev error_at : Set V → Str → Option Error
  error_at s id = lookup id s.errors

  ids-any : (s : Set V) (id : Str) → any (λ j. str_eq j id) (ids s) ≡ is_some (fact_at s id)
  unfolding ids
  ids-any s id =
      any-sort_by str_ltb (λ j. str_eq j id) (keys s.facts)
      ∙ sym (contains-any (keys s.facts) id)
      ∙ contains-keys id s.facts

  put_got-at :
      (src dst : Set V) (j id : Str)
      → IsConsistent src
      → (fact_at (put_got (get_fact src j) dst) id
          ≡ (if str_eq j id && is_some (fact_at src id) then fact_at src id else fact_at dst id))
        × (error_at (put_got (get_fact src j) dst) id
            ≡ (if str_eq j id && is_some (fact_at src id) then none else error_at dst id))
  unfolding put_got get_fact put
  put_got-at src dst j id c = elim (Option-cases (fact_at src j)) [
    | inl e ↦ ground (arith, str_eq_iff j id)
    | inr (f, e) ↦ ground (
      arith,
      lookup-insert f.id id f dst.facts,
      lookup-remove f.id id dst.errors,
      c.exclusive j,
      c.fact_names j f e,
      str_eq_iff j id,
    )
  ]

  put_got-IsConsistent :
      (g : Got (Fact V)) (s : Set V) → IsConsistent s → IsConsistent (put_got g s)
  unfolding put_got
  put_got-IsConsistent (present f) s c = put-IsConsistent f s c
  put_got-IsConsistent (failed e) s c = c
  put_got-IsConsistent missing s c = c

  merge_facts-at :
      (src : Set V) (rest : List Str) (dst : Set V) (id : Str)
      → IsConsistent src
      → (fact_at (merge_facts src rest dst) id ≡ (
          if any (λ j. str_eq j id) rest && is_some (fact_at src id)
          then fact_at src id
          else fact_at dst id))
        × (error_at (merge_facts src rest dst) id ≡ (
            if any (λ j. str_eq j id) rest && is_some (fact_at src id)
            then none
            else error_at dst id))
  unfolding merge_facts any
  merge_facts-at src [] dst id c = (refl, refl)
  merge_facts-at src (j ∷ rest) dst id c = ground (
    arith,
    put_got-at src dst j id c,
    merge_facts-at src rest (put_got (get_fact src j) dst) id c,
  )

  -- What a list of errors does to the name `id`, if those about `id` are the error `x`.
  merge_errors-at :
      (es : List Error) (s : Set V) (id : Str) (x : Option Error)
      → All (λ e. e.fact ≡ id → some e ≡ x) es
      → (error_at (merge_errors es s) id
          ≡ (if any (λ e. str_eq e.fact id) es then x else error_at s id))
        × (fact_at (merge_errors es s) id
            ≡ (if any (λ e. str_eq e.fact id) es then none else fact_at s id))
  unfolding merge_errors any put_error
  merge_errors-at [] s id x h = (refl, refl)
  merge_errors-at (e ∷ es) s id x h = ground (
    arith,
    lookup-insert e.fact id e s.errors,
    lookup-remove e.fact id s.facts,
    str_eq_iff e.fact id,
    h.0,
    merge_errors-at es (put_error e s) id x h.1,
  )

-- The errors of a map that stores each under its own name.
module _ (id : Str) where
  errors-at :
      (m : Map Error)
      → Distinct (keys m)
      → ((k : Str) (e : Error) → lookup k m ≡ some e → e.fact ≡ k)
      → (any (λ e. str_eq e.fact id) (values m) ≡ is_some (lookup id m))
        × All (λ e. e.fact ≡ id → some e ≡ lookup id m) (values m)
  unfolding values any keys lookup
  errors-at [] d names = (refl, tt)
  errors-at ((k, e) ∷ m) d names =
      let own = names k e (ground (arith, str_eq_refl k)) in
      let rest =
        errors-at m d.1 (λ j f h. names j f (ground (arith, str_eq_iff k j, contains-keys j m))) in
      (
        ground (arith, own, rest.0),
        (
          (λ q. ground (arith, str_eq_iff k id)),
          All-imp _ _ (values m) (λ f h q. ground (arith, h q, str_eq_iff k id, contains-keys id m))
              rest.1,
        ),
      )

module _ {V : Type 0} where
  errors_of :
      (s : Set V) (id : Str)
      → IsConsistent s
      → (any (λ e. str_eq e.fact id) (errors s) ≡ is_some (error_at s id))
        × All (λ e. e.fact ≡ id → some e ≡ error_at s id) (errors s)
  unfolding errors
  errors_of s id c =
      let (here, same) = errors-at id s.errors c.errors_distinct c.error_names in
      (
        any-sort_by (λ (a b : Error). str_ltb a.fact b.fact) (λ e. str_eq e.fact id)
              (values s.errors)
            ∙ here,
        sort_by-All (λ a b. str_ltb a.fact b.fact) _ (values s.errors) same,
      )

  -- After the merge of a consistent set, each name has what the merged set says of it, an error
  -- before a fact; a name of which it says nothing is as it was.
  pub merge_into-at :
      (dst src : Set V) (id : Str)
      → IsConsistent src
      → (lookup id (merge_into dst src).errors ≡ (
          if is_some (lookup id src.errors)
          then lookup id src.errors
          else if is_some (lookup id src.facts)
          then none
          else lookup id dst.errors))
        × (lookup id (merge_into dst src).facts ≡ (
            if is_some (lookup id src.errors)
            then none
            else if is_some (lookup id src.facts)
            then lookup id src.facts
            else lookup id dst.facts))
  unfolding merge_into
  merge_into-at dst src id c =
      let (here, same) = errors_of src id c in
      ground (
        arith,
        here,
        ids-any src id,
        merge_facts-at src (ids src) dst id c,
        merge_errors-at (errors src) (merge_facts src (ids src) dst) id (error_at src id) same,
      )

  merge_facts-IsConsistent :
      (src : Set V) (rest : List Str) (dst : Set V)
      → IsConsistent dst
      → IsConsistent (merge_facts src rest dst)
  unfolding merge_facts
  merge_facts-IsConsistent src [] dst d = d
  merge_facts-IsConsistent src (j ∷ rest) dst d =
      merge_facts-IsConsistent src rest (put_got (get_fact src j) dst)
        (put_got-IsConsistent (get_fact src j) dst d)

  merge_errors-IsConsistent :
      (es : List Error) (s : Set V) → IsConsistent s → IsConsistent (merge_errors es s)
  unfolding merge_errors
  merge_errors-IsConsistent [] s c = c
  merge_errors-IsConsistent (e ∷ es) s c =
      merge_errors-IsConsistent es (put_error e s) (put_error-IsConsistent e s c)

  -- The merge of any set into a consistent one is consistent.
  pub merge_into-IsConsistent :
      (dst src : Set V) → IsConsistent dst → IsConsistent (merge_into dst src)
  unfolding merge_into
  merge_into-IsConsistent dst src d =
      merge_errors-IsConsistent (errors src) (merge_facts src (ids src) dst)
        (merge_facts-IsConsistent src (ids src) dst d)
