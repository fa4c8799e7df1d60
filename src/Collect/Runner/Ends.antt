-- ===== src/Collect/Runner/Ends.antt =====
-- The ends of one collector in internal/collect/runner.go, and what a run makes of them.
use plumbline.Collect.{
  Returned, finish_collector, record_collector_error, record_failure, satisfied_by, blame,
  returned_nil, classified, unclassified,
}
use plumbline.Collect.Runner.{
  ok, Collector, Ending, finished, cancelled_before, panicked, out_of_time, Write, merge, file,
  run_collector, ending_writes, ending_status, returned_writes, returned_status, apply_write, Run,
}
use plumbline.Collect.Runner.Gaps.{is_known, files, pending, Run-is_known}
use plumbline.Fact.{ErrorKind, Set}
use plumbline.Base.Maps.{contains}
use plumbline.Base.{
  any, Str, ℕ, ◌≡◌, refl, ◌≢◌, inl, inr, Bool, true, false, List, [], ◌∷◌, ◌++◌, arith, ltb,
  Bool-cases, length, any-append,
}

module _ {V : Type 0} where
  -- The collector returned an error that names its own fact.
  abbrev pub is_classified : Ending V → Bool
  is_classified (finished (classified e) private) = true
  is_classified _ = false

  ending_writes-files :
      (c : Collector) (e : Ending V) (id : Str)
      → is_classified e ≡ false
      → ending_status e ≢ ok
      → contains (blame c.id c.produces) id ≡ true
      → any (files id) (ending_writes c e) ≡ true
  unfolding ending_writes ending_status returned_writes returned_status any files
  ending_writes-files c (cancelled_before w x) id k n h = ground arith
  ending_writes-files c (panicked v) id k n h = ground arith
  ending_writes-files c (out_of_time m) id k n h = ground arith
  ending_writes-files c (finished returned_nil p) id k n h = absurd (n refl)
  ending_writes-files c (finished (classified e) p) id k n h = absurd (ground arith)
  ending_writes-files c (finished (unclassified t) p) id k n h = ground arith

  run_collector-files :
      (show : List Str → Str) (euid : ℕ) (missing : List Str) (c : Collector) (e : Ending V)
      (id : Str)
      → is_classified e ≡ false
      → (run_collector show euid missing c e).0 ≢ ok
      → contains (blame c.id c.produces) id ≡ true
      → any (files id) (run_collector show euid missing c e).1 ≡ true
  unfolding run_collector any files
  run_collector-files show euid missing c e id k n h = elim (Bool-cases (ltb 0 (length missing))) [
    | inl m ↦ rw (m, h) refl
    | inr m ↦ elim (Bool-cases (satisfied_by c.requires euid)) [
      | inl p ↦ rw (m, p) (ending_writes-files c e id k (λ q. n (rw (m, p) q)) h)
      | inr p ↦ rw (m, p, h) refl
    ]
  ]

  -- A collector whose status is not OK leaves no gap, unless it returned an error that names a fact of
  -- its own choice: at the end of the run, in whatever order the collectors wrote, each fact that it
  -- was to produce is in the set or has an error.
  pub Run-blame :
      (show : List Str → Str) (euid : ℕ) (missing : List Str) (c : Collector) (e : Ending V)
      (id : Str) (front back : List (List (Write V))) {s t : Set V}
      → is_classified e ≡ false
      → (run_collector show euid missing c e).0 ≢ ok
      → contains (blame c.id c.produces) id ≡ true
      → Run (front ++ (run_collector show euid missing c e).1 ∷ back) s t
      → is_known t id ≡ true
  unfolding pending any
  Run-blame show euid missing c e id front back {s} k n h r = Run-is_known id r (
      ground (
        arith,
        any-append (any (files id)) front ((run_collector show euid missing c e).1 ∷ back),
        run_collector-files show euid missing c e id k n h,
      ))

  ending-ok :
      (c : Collector) (e : Ending V)
      → ending_status e ≡ ok
      → (private : Set V) × (e ≡ finished returned_nil private)
        × (ending_writes c e ≡ merge private ∷ [])
  unfolding ending_writes ending_status returned_writes returned_status
  ending-ok c (cancelled_before w x) h = absurd (ground arith)
  ending-ok c (panicked v) h = absurd (ground arith)
  ending-ok c (out_of_time m) h = absurd (ground arith)
  ending-ok c (finished returned_nil p) h = (p, refl, refl)
  ending-ok c (finished (classified e) p) h = absurd (ground arith)
  ending-ok c (finished (unclassified t) p) h = absurd (ground arith)

  -- A collector is reported OK only if no dependency was missing, its capability was held, and it
  -- returned no error; then its one write merges the set that it filled.
  pub run_collector-ok :
      (show : List Str → Str) (euid : ℕ) (missing : List Str) (c : Collector) (e : Ending V)
      → (run_collector show euid missing c e).0 ≡ ok
      → (missing ≡ [])
        × (satisfied_by c.requires euid ≡ true)
        × ((private : Set V) × (e ≡ finished returned_nil private)
            × ((run_collector show euid missing c e).1 ≡ merge private ∷ []))
  unfolding run_collector
  run_collector-ok show euid (m ∷ ms) c e h = absurd (ground arith)
  run_collector-ok show euid [] c e h = elim (Bool-cases (satisfied_by c.requires euid)) [
    | inl p ↦
        let (private, same, writes) = ending-ok c e (ground (arith, p, h)) in
        (refl, p, (private, same, rw p writes))
    | inr p ↦ absurd (ground (arith, p, h))
  ]

  -- A queue of writes that no other collector interrupts.
  apply_all : List (Write V) → Set V → Set V
  apply_all [] s = s
  apply_all (w ∷ ws) s = apply_all ws (apply_write w s)

  -- Without interruption a collector that finishes does what `runOne` does in one piece.
  apply_all-finish_collector :
      (c : Collector) (r : Returned) (private s : Set V)
      → apply_all (ending_writes c (finished r private)) s
        ≡ finish_collector c.id c.produces r private s
  unfolding apply_all apply_write ending_writes returned_writes finish_collector
      record_collector_error
  apply_all-finish_collector c returned_nil private s = refl
  apply_all-finish_collector c (classified e) private s = refl
  apply_all-finish_collector c (unclassified t) private s = refl

  -- A failure of the run is filed as the closure `record` files it.
  apply_write-record_failure :
      (c : Collector) (kind : ErrorKind) (message : Str) (s : Set V)
      → apply_write (file kind message (blame c.id c.produces)) s
        ≡ record_failure c.id c.produces kind message s
  unfolding apply_write record_failure
  apply_write-record_failure c kind message s = refl
