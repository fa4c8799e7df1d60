-- ===== src/Fact/Invariant.antt =====
-- A fact of internal/fact/fact.go is present or in error, never both.
use plumbline.Fact.{Fact, Error, Set, new_set, put, put_error, present, failed, get}
use plumbline.Base.{
  Str, str_eq, str_eq_iff, ◌≡◌, refl, true, Option, none, some, arith, if◌then◌else◌, is_some,
}
use plumbline.Base.Maps.{
  lookup, lookup-insert, lookup-remove, insert-Distinct, remove-Distinct, keys, Distinct,
}

-- A set as the program builds it: an entry is stored under its own name, once, and no name has both
-- a fact and an error.
pub record IsConsistent {V : Type 0} (s : Set V) : Type 0 where
  pub exclusive : (id : Str) → is_some (lookup id s.errors) ≡ true → lookup id s.facts ≡ none
  pub fact_names : (id : Str) (f : Fact V) → lookup id s.facts ≡ some f → f.id ≡ id
  pub error_names : (id : Str) (e : Error) → lookup id s.errors ≡ some e → e.fact ≡ id
  pub facts_distinct : Distinct (keys s.facts)
  pub errors_distinct : Distinct (keys s.errors)

module _ {V : Type 0} where
  pub new_set-IsConsistent : IsConsistent (new_set {V = V})
  unfolding new_set lookup keys
  new_set-IsConsistent = record {
    exclusive = λ id h. refl;
    fact_names = λ id f h. ground arith;
    error_names = λ id e h. ground arith;
    facts_distinct = tt;
    errors_distinct = tt;
  }

  -- Recording a fact keeps a consistent set consistent.
  pub put-IsConsistent : (f : Fact V) (s : Set V) → IsConsistent s → IsConsistent (put f s)
  unfolding put
  put-IsConsistent f s c = record {
    exclusive = λ id h.
        ground
          (arith, lookup-insert f.id id f s.facts, lookup-remove f.id id s.errors, c.exclusive id);
    fact_names = λ id g h.
        ground (arith, lookup-insert f.id id f s.facts, c.fact_names id g, str_eq_iff f.id id);
    error_names = λ id e h. ground (arith, lookup-remove f.id id s.errors, c.error_names id e);
    facts_distinct = insert-Distinct f.id f s.facts c.facts_distinct;
    errors_distinct = remove-Distinct f.id s.errors c.errors_distinct;
  }

  -- Recording an error keeps a consistent set consistent.
  pub put_error-IsConsistent :
      (e : Error) (s : Set V) → IsConsistent s → IsConsistent (put_error e s)
  unfolding put_error
  put_error-IsConsistent e s c = record {
    exclusive = λ id h. ground (
      arith,
      lookup-insert e.fact id e s.errors,
      lookup-remove e.fact id s.facts,
      c.exclusive id,
    );
    fact_names = λ id g h. ground (arith, lookup-remove e.fact id s.facts, c.fact_names id g);
    error_names = λ id d h.
        ground
          (arith, lookup-insert e.fact id e s.errors, c.error_names id d, str_eq_iff e.fact id);
    facts_distinct = remove-Distinct e.fact s.facts c.facts_distinct;
    errors_distinct = insert-Distinct e.fact e s.errors c.errors_distinct;
  }

module _ {V A : Type 0} (typed : V → Option A) (mismatch : Str → Str) where
  -- `Get` after `Put` of a fact with a value of the type that is asked for: the fact for its own
  -- name, whatever was there, and what `Get` returned before for every other name.
  get-put :
      (f : Fact V) (s : Set V) (id : Str) (a : A)
      → typed f.value ≡ some a
      → get typed mismatch (put f s) id
        ≡ (if str_eq f.id id then present a else get typed mismatch s id)
  unfolding get put
  get-put f s id a h =
      ground (arith, lookup-insert f.id id f s.facts, lookup-remove f.id id s.errors)

  -- `Get` after `PutError`: the error for its own name, whatever was there, and what `Get` returned
  -- before for every other name.
  get-put_error :
      (e : Error) (s : Set V) (id : Str)
      → get typed mismatch (put_error e s) id
        ≡ (if str_eq e.fact id then failed e else get typed mismatch s id)
  unfolding get put_error
  get-put_error e s id =
      ground (arith, lookup-insert e.fact id e s.errors, lookup-remove e.fact id s.facts)
