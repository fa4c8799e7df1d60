-- ===== src/Collect/Runner/Tests.antt =====
-- Runs of two collectors of internal/collect/runner.go.
use plumbline.Collect.{cap_root, blame, satisfied_by, returned_nil}
use plumbline.Collect.Runner.{
  ok, Collector, Ending, finished, Write, merge, file, permission_message, run_collector,
  ending_status, returned_status, apply_write, Run, halt, exit, write,
}
use plumbline.Collect.Runner.Gaps.{is_known}
use plumbline.Collect.Runner.Ends.{Run-blame, run_collector-ok}
use plumbline.Fact.{permission, Set, new_set, put}
use plumbline.Base.Maps.{contains}
use plumbline.Base.{Str, codes, str_eq, ℕ, ◌≡◌, refl, ◌≢◌, true, none, List, [], ◌∷◌, arith}

abbrev no_names : List Str
no_names = []

abbrev shared : Set ℕ
shared = put (record { id = codes "os.kernel"; version = 1; value = 6; opaque = none }) new_set

-- A collector that needs root, in a scan that has not got it, beside one that delivers.
abbrev shadow : Collector
shadow = record { id = codes "auth"; produces = codes "auth.shadow" ∷ []; requires = cap_root }

abbrev quiet : Ending ℕ
quiet = finished returned_nil new_set

abbrev show : List Str → Str
show deps = []

abbrev other : List (Write ℕ)
other = merge shared ∷ []

abbrev refusal : Write ℕ
refusal = file permission (permission_message shadow 1000) (blame shadow.id shadow.produces)

abbrev final : Set ℕ
final = apply_write (merge shared) (apply_write refusal new_set)

two_collectors : Run ((run_collector show 1000 [] shadow quiet).1 ∷ other ∷ []) new_set final
unfolding run_collector satisfied_by
two_collectors =
    write [] (other ∷ []) refusal [] refl
      (exit [] (other ∷ []) refl (write [] [] (merge shared) [] refl (exit [] [] refl halt)))

skipped_shadow : (run_collector show 1000 [] shadow quiet).0 ≢ ok
unfolding run_collector satisfied_by
skipped_shadow h = ground arith

Run-blame_example : is_known final (codes "auth.shadow") ≡ true
unfolding contains blame str_eq
Run-blame_example =
    Run-blame show 1000 [] shadow quiet (codes "auth.shadow") [] (other ∷ []) {s = new_set}
      {t = final} refl skipped_shadow refl two_collectors

delivered : (run_collector show 0 [] shadow quiet).0 ≡ ok
unfolding run_collector satisfied_by ending_status returned_status
delivered = refl

run_collector-ok_example :
    (no_names ≡ [])
    × (satisfied_by shadow.requires 0 ≡ true)
    × ((private : Set ℕ) × (quiet ≡ finished returned_nil private)
        × ((run_collector show 0 [] shadow quiet).1 ≡ merge private ∷ []))
run_collector-ok_example = run_collector-ok show 0 [] shadow quiet delivered
