-- ===== src/Collect/Runner/Gaps.antt =====
-- What a concurrent run of internal/collect/runner.go leaves behind: a consistent set, in which every
-- collector that did not deliver is accounted for.
use plumbline.Collect.{merge_into, merge_facts, merge_errors, put_got, get_fact, file_errors}
use plumbline.Collect.Merge.{merge_into-IsConsistent}
use plumbline.Collect.Runner.{
  failed, Write, merge, file, put_classified, apply_write, Run, halt, exit, write,
}
use plumbline.Fact.{
  Fact, Error, ErrorKind, Set, Got, present, failed, missing, put, put_error, ids, errors,
}
use plumbline.Fact.Invariant.{IsConsistent, put_error-IsConsistent}
use plumbline.Base.Maps.{lookup, lookup-insert, lookup-remove, contains}
use plumbline.Base.{
  any, Str, str_eq, ◌≡◌, refl, ap, Bool, true, false, ◌||◌, List, [], ◌∷◌, ◌++◌, arith, is_some,
  any-append,
}

module _ {V : Type 0} where
  file_errors-IsConsistent :
      (kind : ErrorKind) (message : Str) (names : List Str) (s : Set V)
      → IsConsistent s
      → IsConsistent (file_errors kind message names s)
  unfolding file_errors
  file_errors-IsConsistent kind message [] s c = c
  file_errors-IsConsistent kind message (id ∷ rest) s c =
      file_errors-IsConsistent kind message rest _ (put_error-IsConsistent _ s c)

  apply_write-IsConsistent :
      (w : Write V) (s : Set V) → IsConsistent s → IsConsistent (apply_write w s)
  unfolding apply_write
  apply_write-IsConsistent (merge private) s c = merge_into-IsConsistent s private c
  apply_write-IsConsistent (file kind message names) s c =
      file_errors-IsConsistent kind message names s c
  apply_write-IsConsistent (put_classified e) s c = put_error-IsConsistent e s c

  -- Whatever the collectors do and in whatever order they write, a run that starts from a consistent
  -- set ends with one.
  Run-IsConsistent :
      {qs : List (List (Write V))} {s t : Set V} → Run qs s t → IsConsistent s → IsConsistent t
  Run-IsConsistent halt c = c
  Run-IsConsistent (exit front back e r) c = Run-IsConsistent r c
  Run-IsConsistent (write front back w q e r) c =
      Run-IsConsistent r (apply_write-IsConsistent w _ c)

  -- The set says something of the name: a fact or an error.
  pub is_known : Set V → Str → Bool
  is_known s id = is_some (lookup id s.facts) || is_some (lookup id s.errors)

  put-is_known :
      (f : Fact V) (s : Set V) (id : Str) → is_known s id ≡ true → is_known (put f s) id ≡ true
  unfolding is_known put
  put-is_known f s id h =
      ground (arith, lookup-insert f.id id f s.facts, lookup-remove f.id id s.errors)

  put_error-is_known :
      (e : Error) (s : Set V) (id : Str)
      → is_known (put_error e s) id ≡ (str_eq e.fact id || is_known s id)
  unfolding is_known put_error
  put_error-is_known e s id =
      ground (arith, lookup-insert e.fact id e s.errors, lookup-remove e.fact id s.facts)

  put_got-is_known :
      (g : Got (Fact V)) (s : Set V) (id : Str)
      → is_known s id ≡ true
      → is_known (put_got g s) id ≡ true
  unfolding put_got
  put_got-is_known (present f) s id h = put-is_known f s id h
  put_got-is_known (failed e) s id h = h
  put_got-is_known missing s id h = h

  merge_facts-is_known :
      (src : Set V) (names : List Str) (s : Set V) (id : Str)
      → is_known s id ≡ true
      → is_known (merge_facts src names s) id ≡ true
  unfolding merge_facts
  merge_facts-is_known src [] s id h = h
  merge_facts-is_known src (j ∷ rest) s id h =
      merge_facts-is_known src rest _ id (put_got-is_known (get_fact src j) s id h)

  merge_errors-is_known :
      (es : List Error) (s : Set V) (id : Str)
      → is_known s id ≡ true
      → is_known (merge_errors es s) id ≡ true
  unfolding merge_errors
  merge_errors-is_known [] s id h = h
  merge_errors-is_known (e ∷ es) s id h =
      merge_errors-is_known es _ id (ground (arith, put_error-is_known e s id))

  file_errors-is_known :
      (kind : ErrorKind) (message : Str) (names : List Str) (s : Set V) (id : Str)
      → is_known (file_errors kind message names s) id ≡ (contains names id || is_known s id)
  unfolding file_errors contains
  file_errors-is_known kind message [] s id = refl
  file_errors-is_known kind message (j ∷ rest) s id =
      let e : Error = record { fact = j; kind = kind; message = message; path = [] } in
      ground (
        arith,
        file_errors-is_known kind message rest (put_error e s) id,
        put_error-is_known e s id,
      )

  -- The write files an error for the name.
  unfoldable pub files : Str → Write V → Bool
  files id (merge private) = false
  files id (file kind message names) = contains names id
  files id (put_classified e) = str_eq e.fact id

  apply_write-is_known :
      (w : Write V) (s : Set V) (id : Str)
      → (files id w || is_known s id) ≡ true
      → is_known (apply_write w s) id ≡ true
  unfolding apply_write files merge_into
  apply_write-is_known (merge private) s id h =
      merge_errors-is_known (errors private) _ id
        (merge_facts-is_known private (ids private) s id h)
  apply_write-is_known (file kind message names) s id h =
      ground (arith, file_errors-is_known kind message names s id)
  apply_write-is_known (put_classified e) s id h = ground (arith, put_error-is_known e s id)

  -- Some queue has a write that files an error for the name.
  unfoldable pub pending : Str → List (List (Write V)) → Bool
  pending id = any (any (files id))

  pending-write :
      (id : Str) (front back : List (List (Write V))) (w : Write V) (q : List (Write V))
      → pending id (front ++ (w ∷ q) ∷ back) ≡ (files id w || pending id (front ++ q ∷ back))
  unfolding pending any
  pending-write id front back w q = ground (
    arith,
    any-append (any (files id)) front ((w ∷ q) ∷ back),
    any-append (any (files id)) front (q ∷ back),
  )

  pending-exit :
      (id : Str) (front back : List (List (Write V)))
      → pending id (front ++ [] ∷ back) ≡ pending id (front ++ back)
  unfolding pending any
  pending-exit id front back =
      ground (
        arith,
        any-append (any (files id)) front ([] ∷ back),
        any-append (any (files id)) front back,
      )

  pub Run-is_known :
      (id : Str) {qs : List (List (Write V))} {s t : Set V}
      → Run qs s t
      → (pending id qs || is_known s id) ≡ true
      → is_known t id ≡ true
  Run-is_known id halt h = unfold pending any in h
  Run-is_known id {qs} {s} (exit front back e r) h =
      Run-is_known id r (ground (arith, ap (pending id) e, pending-exit id front back))
  Run-is_known id {qs} {s} (write front back w q e r) h = Run-is_known id r (
      ground
        (arith, ap (pending id) e, pending-write id front back w q, apply_write-is_known w s id))
