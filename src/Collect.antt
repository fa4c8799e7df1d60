-- ===== src/Collect.antt =====
-- internal/collect: what the runner does with what a collector observed. The schedule of the
-- goroutines is not modelled here; each definition is one critical section of the run.
pub mod Merge
pub mod Registry
pub mod Runner
mod Tests
use plumbline.Fact.{
  Fact, Error, ErrorKind, internal, Set, Got, present, failed, missing, put, put_error, ids, errors,
}
use plumbline.Base.{Str, codes, ℕ, Bool, true, false, none, some, List, [], ◌∷◌, ◌++◌, ◌==◌}
use plumbline.Base.Maps.{lookup}

-- `collect.Capability`; a value outside the constants is `other`.
pub data Capability : Type 0 where
  cap_none cap_root : Capability
  cap_other : ℕ → Capability

-- A capability that is not recognised is never satisfied.
unfoldable pub satisfied_by : Capability → ℕ → Bool
satisfied_by cap_none euid = true
satisfied_by cap_root euid = euid == 0
satisfied_by (cap_other n) euid = false

-- The facts that a failure of a collector is filed against.
unfoldable pub blame : Str → List Str → List Str
blame collector [] = collector ∷ []
blame collector (id ∷ produces) = id ∷ produces

module _ {V : Type 0} where
  -- `fact.Get[fact.Fact]`: the type assertion always holds.
  unfoldable pub get_fact : Set V → Str → Got (Fact V)
  get_fact s id = elim (lookup id s.errors) [
    | some e ↦ failed e
    | none ↦ elim (lookup id s.facts) [ none ↦ missing | some f ↦ present f ]
  ]

  put_got : Got (Fact V) → Set V → Set V
  put_got (present f) dst = put f dst
  put_got (failed e) dst = dst
  put_got missing dst = dst

  -- The loop of `mergeInto` over the facts.
  merge_facts : Set V → List Str → Set V → Set V
  unfolding get_fact put_got
  merge_facts src [] dst = dst
  merge_facts src (id ∷ rest) dst = merge_facts src rest (put_got (get_fact src id) dst)

  -- The loop of `mergeInto` over the errors.
  merge_errors : List Error → Set V → Set V
  merge_errors [] dst = dst
  merge_errors (e ∷ es) dst = merge_errors es (put_error e dst)

  -- `mergeInto`: facts before errors.
  pub merge_into : Set V → Set V → Set V
  merge_into dst src = merge_errors (errors src) (merge_facts src (ids src) dst)

  -- One error filed against several facts.
  file_errors : ErrorKind → Str → List Str → Set V → Set V
  file_errors kind message [] fs = fs
  file_errors kind message (id ∷ rest) fs =
      file_errors kind message rest
        (put_error (record { fact = id; kind = kind; message = message; path = [] }) fs)

  -- The closure `record` of `Run`.
  pub record_failure : Str → List Str → ErrorKind → Str → Set V → Set V
  record_failure collector produces kind message fs =
      file_errors kind message (blame collector produces) fs

-- What a collector returned: nothing, a classified error, or another error and its text.
pub data Returned : Type 0 where
  returned_nil : Returned
  classified : Error → Returned
  unclassified : Str → Returned

unclassified_message : Str → Str → Str
unclassified_message collector text =
    codes "collector " ++ (collector ++ (codes " returned an unclassified error: " ++ text))

module _ {V : Type 0} where
  -- `recordCollectorError`, for an error that is not nil.
  pub record_collector_error : Str → List Str → Returned → Set V → Set V
  record_collector_error collector produces returned_nil fs = fs
  record_collector_error collector produces (classified e) fs = put_error e fs
  record_collector_error collector produces (unclassified text) fs =
      file_errors internal (unclassified_message collector text) (blame collector produces) fs

  -- The default case of `runOne`: the private set is merged, and then the error is recorded.
  pub finish_collector : Str → List Str → Returned → Set V → Set V → Set V
  finish_collector collector produces r private fs =
      record_collector_error collector produces r (merge_into fs private)
