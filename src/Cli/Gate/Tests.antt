-- ===== src/Cli/Gate/Tests.antt =====
-- Runs of the gates of internal/cli/eval.go.
use plumbline.Cli.Exit.{exit_privileges, exit_code}
use plumbline.Cli.Gate.{
  Gates, gate_on, gate_outcome, explain, any_failure_at_or_above, lacks_privilege, rank_of,
}
use plumbline.Cli.Gate.Laws.{
  AllMet, gate_on-none_iff, Heard, FailingGate, gate_on_ladder, any_failure-apply,
}
use plumbline.Fact.{Error, permission}
use plumbline.Finding.{pass, fail, high, critical, result_eq, Finding}
use plumbline.Finding.Samples.{sample}
use plumbline.Go.Float.Milli.{milli}
use plumbline.Score.{Score, no_counts}
use plumbline.Suppress.{Set, apply}
use plumbline.Base.{Str, codes, str_eq, ◌≡◌, refl, ◌↔◌, inl, true, false, none, some, List, [], ◌∷◌}

abbrev score : Score milli
score = record {
  catalog_version = 34;
  counts = no_counts;
  coverage = some 100000;
  posture = some 57100;
}

abbrev gates : Gates milli
gates = record {
  threshold = 50000;
  threshold_set = true;
  min_coverage = 0;
  min_coverage_set = false;
  strict_privileges = true;
  fail_on_critical = 0;
  fail_on_high = 2;
}

abbrev findings : List Finding
findings =
    sample (codes "SSHD-0001") [] fail high ∷ sample (codes "SSHD-0002") [] pass critical ∷ []

abbrev denied : Error
denied = record {
  fact = codes "os.kernel";
  kind = permission;
  message = codes "permission denied";
  path = [];
}

gate_on-none_iff_example :
    (gate_on milli score findings [] 5 gates ≡ none) ↔ AllMet milli score findings [] 5 gates
gate_on-none_iff_example = gate_on-none_iff milli score findings [] 5 gates

-- A denied collector under --strict-privileges is heard over the failing finding.
abbrev denied_message : Str
denied_message =
    codes "insufficient privileges for one or more collectors, and --strict-privileges was set"

gate_on-denied :
    gate_on milli score findings (denied ∷ []) 4 gates ≡ some (exit_privileges, denied_message)
unfolding gate_on gate_outcome lacks_privilege exit_code explain
gate_on-denied = refl

gate_on_ladder_example : Heard milli score findings (denied ∷ []) 4 gates exit_privileges
gate_on_ladder_example =
    gate_on_ladder milli score findings (denied ∷ []) 4 gates exit_privileges denied_message
      gate_on-denied

failing_high : any_failure_at_or_above findings 4 ≡ true
unfolding any_failure_at_or_above rank_of result_eq str_eq
failing_high = refl

abbrev no_risks : Set
no_risks = record { by_fingerprint = []; order = [] }

still_failing : any_failure_at_or_above (apply (some no_risks) findings 100).findings 4 ≡ true
unfolding apply
still_failing = failing_high

any_failure-apply_example : FailingGate milli findings 4 gates
any_failure-apply_example =
    any_failure-apply milli (some no_risks) findings 100 4 gates (inl still_failing)
