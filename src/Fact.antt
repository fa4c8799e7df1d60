-- ===== src/Fact.antt =====
-- internal/fact/fact.go: the facts and the fact errors of one collection run. The type of the decoded
-- values is a parameter; a fact that this build cannot interpret says so in `opaque`.
pub mod Invariant
pub mod Fs
pub mod Mounts
mod Tests
use plumbline.Base.{Str, str_ltb, ℕ, Option, none, some, List, []}
use plumbline.Base.Maps.{Map, lookup, insert, remove, keys, values}
use plumbline.Base.Sorting.{sort_by, sort_strings}

pub record Fact (V : Type 0) : Type 0 where
  pub id : Str
  pub version : ℕ
  pub value : V
  -- `OpaqueFact()` of a fact that is an `Opaque`.
  pub opaque : Option ℕ

pub data ErrorKind : Type 0 where
  not_collected permission timeout parse truncated unsupported internal : ErrorKind

pub record Error : Type 0 where
  pub fact : Str
  pub kind : ErrorKind
  pub message : Str
  pub path : Str

pub record Set (V : Type 0) : Type 0 where
  pub facts : Map (Fact V)
  pub errors : Map Error

-- The three answers of `Get`.
pub data Got (A : Type 0) : Type 0 where
  present : A → Got A
  failed : Error → Got A
  missing : Got A

module _ {V : Type 0} where
  pub new_set : Set V
  new_set = record { facts = []; errors = [] }

  -- `Put`
  unfoldable pub put : Fact V → Set V → Set V
  put f s = record { facts = insert f.id f s.facts; errors = remove f.id s.errors }

  -- `PutError`
  unfoldable pub put_error : Error → Set V → Set V
  put_error e s = record { facts = remove e.fact s.facts; errors = insert e.fact e s.errors }

  -- `Err`
  unfoldable pub err : Set V → Str → Option Error
  err s id = lookup id s.errors

  -- `Errors`, sorted by fact.
  unfoldable pub errors : Set V → List Error
  unfolding values sort_by
  errors s = sort_by (λ a b. str_ltb a.fact b.fact) (values s.errors)

  -- `Opaque`: the version of a fact that is present and cannot be interpreted.
  unfoldable pub opaque : Set V → Str → Option ℕ
  opaque s id = elim (lookup id s.facts) [ none ↦ none | some f ↦ f.opaque ]

  -- `IDs`, sorted.
  unfoldable pub ids : Set V → List Str
  unfolding keys sort_by
  ids s = sort_strings (keys s.facts)

module _ {V A : Type 0} (typed : V → Option A) (mismatch : Str → Str) where
  -- The type assertion of `Get`; `mismatch` is the text that names the two types.
  assert_type : Str → Fact V → Got A
  assert_type id f = elim (typed f.value) [
    | some a ↦ present a
    | none ↦ failed (record { fact = id; kind = internal; message = mismatch id; path = [] })
  ]

  -- `Get[T]`
  unfoldable pub get : Set V → Str → Got A
  unfolding assert_type
  get s id = elim (lookup id s.errors) [
    | some e ↦ failed e
    | none ↦ elim (lookup id s.facts) [ none ↦ missing | some f ↦ assert_type id f ]
  ]
