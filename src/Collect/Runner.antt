-- ===== src/Collect/Runner.antt =====
-- `Run` and `runOne` of internal/collect/runner.go: what each collector writes to the shared set, and
-- the runs in which the collectors write concurrently. A write holds the mutex, so it is one step.
-- The scheduler, the clocks and the collectors decide how a collector ends: that is a value of `Ending`.
pub mod Gaps
pub mod Ends
mod Tests
use plumbline.Collect.{
  Capability, cap_none, cap_root, cap_other, satisfied_by, blame, merge_into, file_errors, Returned,
  returned_nil, classified, unclassified, unclassified_message,
}
use plumbline.Fact.{Error, ErrorKind, internal, permission, timeout, Set, put_error}
use plumbline.Go.Decimal.{decimal}
use plumbline.Base.{Str, codes, ℕ, ◌≡◌, not, List, [], ◌∷◌, ◌++◌, ltb, if◌then◌else◌, length}

pub data Status : Type 0 where
  ok failed skipped timed_out : Status

-- What the writes of a collector depend on.
pub record Collector : Type 0 where
  pub id : Str
  pub produces : List Str
  pub requires : Capability

-- `Capability.String`
capability_name : Capability → Str
capability_name cap_none = codes "none"
capability_name cap_root = codes "root"
capability_name (cap_other n) = codes "capability(" ++ (decimal n ++ codes ")")

-- How a collector that may run ends. The texts of the errors of the contexts are parameters.
pub data Ending (V : Type 0) : Type 0 where
  -- The scan ended while the collector waited for a dependency, for the slot, or to start.
  cancelled_before : Str → Str → Ending V
  panicked : Str → Ending V
  -- The budget or the scan ended under the collector, which returned or was abandoned.
  out_of_time : Str → Ending V
  finished : Returned → Set V → Ending V

-- One critical section of a collector.
pub data Write (V : Type 0) : Type 0 where
  merge : Set V → Write V
  file : ErrorKind → Str → List Str → Write V
  put_classified : Error → Write V

unregistered_message : Str → Str → Str
unregistered_message id deps =
    codes "collector "
    ++ (id
        ++ (codes " depends on unregistered collector(s) " ++ (deps ++ codes "; it was not run")))

permission_message : Collector → ℕ → Str
unfolding capability_name
permission_message c euid =
    codes "collector "
    ++ (c.id
        ++ (codes " requires "
            ++ (capability_name c.requires
                ++ (codes " and the scan is running as euid "
                    ++ (decimal euid ++ codes "; it was not run")))))

-- `cancelledMsg`
cancelled_message : Str → Str → Str → Str
cancelled_message id waiting_for error =
    codes "collector "
    ++ (id
        ++ (codes " did not run: the scan ended while "
            ++ (waiting_for ++ (codes " (" ++ (error ++ codes ")")))))

returned_status : Returned → Status
returned_status returned_nil = ok
returned_status _ = failed

module _ {V : Type 0} where
  returned_writes : Collector → Returned → List (Write V)
  returned_writes c returned_nil = []
  returned_writes c (classified e) = put_classified e ∷ []
  returned_writes c (unclassified text) =
      file internal (unclassified_message c.id text) (blame c.id c.produces) ∷ []

  -- The end of the function of the goroutine, past the guards.
  ending_writes : Collector → Ending V → List (Write V)
  unfolding returned_writes
  ending_writes c (cancelled_before waiting_for error) =
      file timeout (cancelled_message c.id waiting_for error) (blame c.id c.produces) ∷ []
  ending_writes c (panicked value) =
      file internal (codes "collector " ++ (c.id ++ (codes " panicked: " ++ value)))
        (blame c.id c.produces)
      ∷ []
  ending_writes c (out_of_time message) = file timeout message (blame c.id c.produces) ∷ []
  ending_writes c (finished r private) = merge private ∷ returned_writes c r

  ending_status : Ending V → Status
  unfolding returned_status
  ending_status (cancelled_before waiting_for error) = timed_out
  ending_status (panicked value) = failed
  ending_status (out_of_time message) = timed_out
  ending_status (finished r private) = returned_status r

  -- The function of the goroutine of one collector: its status and its writes, in order. `missing` is
  -- what `MissingDependencies` says of the collector, and `show` prints it.
  pub run_collector :
      (List Str → Str) → ℕ → List Str → Collector → Ending V → Status × List (Write V)
  unfolding ending_writes ending_status
  run_collector show euid missing c e =
      if ltb 0 (length missing)
      then (
        skipped,
        file internal (unregistered_message c.id (show missing)) (blame c.id c.produces) ∷ [],
      )
      else if not (satisfied_by c.requires euid)
      then (skipped, file permission (permission_message c euid) (blame c.id c.produces) ∷ [])
      else (ending_status e, ending_writes c e)

  pub apply_write : Write V → Set V → Set V
  apply_write (merge private) s = merge_into s private
  apply_write (file kind message ids) s = file_errors kind message ids s
  apply_write (put_classified e) s = put_error e s

  -- The runs of goroutines with queues of writes still to come, from one shared set to another: any
  -- goroutine may write next, and a run is over when all queues are empty.
  pub data Run : List (List (Write V)) → Set V → Set V → Type 0 where
    halt : {s : Set V} → Run [] s s
    exit :
        {qs : List (List (Write V))} {s t : Set V} (front back : List (List (Write V)))
        → qs ≡ front ++ [] ∷ back
        → Run (front ++ back) s t
        → Run qs s t
    write :
        {qs : List (List (Write V))} {s t : Set V} (front back : List (List (Write V)))
        (w : Write V) (q : List (Write V))
        → qs ≡ front ++ (w ∷ q) ∷ back
        → Run (front ++ q ∷ back) (apply_write w s) t
        → Run qs s t
