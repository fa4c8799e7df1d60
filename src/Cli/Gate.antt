-- ===== src/Cli/Gate.antt =====
-- internal/cli/eval.go and internal/cli/pipeline.go: the gates. A float64 is a value of the interface
-- of the score.
mod Laws
mod Tests
use plumbline.Cli.Exit.{Outcome, exit_code, exit_ok}
use plumbline.Fact.{Error, ErrorKind, permission}
use plumbline.Finding.{
  fail, result_eq, Severity, critical, high, severity_name, severity_eq, Finding,
}
use plumbline.Go.Decimal.{decimal}
use plumbline.Go.Float.{Float64}
use plumbline.Go.Space.{trim_space}
use plumbline.Score.{Score}
use plumbline.Base.{
  tally, any, Str, codes, str_eq, ℕ, Bool, true, false, not, ◌&&◌, ◌||◌, Option, none, some, List,
  [], ◌∷◌, ◌++◌, ltb, leb, ◌==◌, if◌then◌else◌, is_some, length,
}
use plumbline.Base.Text.{to_lower}

abbrev severity_rank : List (Str × ℕ)
severity_rank =
    (codes "none", 0)
    ∷ (codes "info", 1)
    ∷ (codes "low", 2)
    ∷ (codes "medium", 3)
    ∷ (codes "high", 4)
    ∷ (codes "critical", 5)
    ∷ []

rank_in : List (Str × ℕ) → Str → Option ℕ
rank_in [] s = none
rank_in ((k, n) ∷ m) s = if str_eq k s then some n else rank_in m s

rank_or_zero : Option ℕ → ℕ
rank_or_zero none = 0
rank_or_zero (some n) = n

unfoldable pub rank_of : Severity → ℕ
unfolding rank_in rank_or_zero to_lower severity_name
rank_of sev = rank_or_zero (rank_in severity_rank (to_lower (severity_name sev)))

-- A level that is not known is an error, never a default.
unfoldable parse_fail_on : Str → Option ℕ
unfolding rank_in to_lower trim_space
parse_fail_on level = rank_in severity_rank (to_lower (trim_space level))

unfoldable pub any_failure_at_or_above : List Finding → ℕ → Bool
unfolding any
any_failure_at_or_above fs threshold =
    if threshold == 0
    then false
    else any (λ f. result_eq f.result fail && leb threshold (rank_of f.severity)) fs

unfoldable pub count_severity : List Finding → Severity → ℕ
unfolding tally
count_severity fs want =
    tally
      (λ f. result_eq f.result fail && (not (is_some f.suppression) && severity_eq f.severity want))
      fs

abbrev is_permission : ErrorKind → Bool
is_permission permission = true
is_permission _ = false

unfoldable pub lacks_privilege : List Error → Bool
unfolding any
lacks_privilege = any (λ e. is_permission e.kind)

module _ (F : Float64) where
  pub record Gates : Type 0 where
    pub threshold : F.Carrier
    pub threshold_set : Bool
    pub min_coverage : F.Carrier
    pub min_coverage_set : Bool
    pub strict_privileges : Bool
    pub fail_on_critical : ℕ
    pub fail_on_high : ℕ

  -- `n > 0 && countSeverity(findings, want) >= n`
  count_gate : ℕ → List Finding → Severity → Bool
  count_gate n fs want = ltb 0 n && leb n (count_severity fs want)

  abbrev gate_text : Str → ℕ → ℕ → Str
  gate_text flag n present =
      flag ++ (decimal n ++ (codes " (" ++ (decimal present ++ codes " present)")))

  -- `o.CountGate`, which names the count gates that fired.
  count_gate_text : List Finding → Gates → Str
  count_gate_text fs gt =
      let c = count_gate gt.fail_on_critical fs critical in
      let h = count_gate gt.fail_on_high fs high in
      (if c
        then gate_text (codes "--fail-on-critical ") gt.fail_on_critical
            (count_severity fs critical)
        else [])
      ++ ((if c && h then codes " and " else [])
          ++ (if h
              then gate_text (codes "--fail-on-high ") gt.fail_on_high (count_severity fs high)
              else []))

  pub coverage_gap : Gates → Option F.Carrier → Bool
  coverage_gap gt none = gt.min_coverage_set
  coverage_gap gt (some c) = gt.min_coverage_set && F.less c gt.min_coverage

  pub posture_gap : Gates → Option F.Carrier → Bool
  posture_gap gt none = false
  posture_gap gt (some p) = gt.threshold_set && F.less p gt.threshold

  -- The outcome that `gateOn` resolves.
  gate_outcome : Score F → List Finding → List Error → ℕ → Gates → Outcome
  gate_outcome sc fs errs fail_on gt = record {
    interrupted = false;
    internal = false;
    timed_out = false;
    usage = false;
    privileges = gt.strict_privileges && lacks_privilege errs;
    degraded = ltb 0 (length errs) || coverage_gap gt sc.coverage;
    failing =
        any_failure_at_or_above fs fail_on
        || (count_gate gt.fail_on_critical fs critical || count_gate gt.fail_on_high fs high);
    count_gate = count_gate_text fs gt;
    below_threshold = posture_gap gt sc.posture;
  }

  pub explain : Outcome → Str
  explain o =
      if o.privileges
      then codes
          "insufficient privileges for one or more collectors, and --strict-privileges was set"
      else if o.degraded
      then codes "completed degraded: a collector failed, or coverage is below --min-coverage"
      else if o.failing && ltb 0 (length o.count_gate)
      then codes "findings at or above " ++ o.count_gate
      else if o.failing
      then codes "findings at or above --fail-on"
      else if o.below_threshold
      then codes "posture is below --threshold"
      else []

  -- `gateOn`: no error, or the exit code and its message.
  pub gate_on : Score F → List Finding → List Error → ℕ → Gates → Option (ℕ × Str)
  gate_on sc fs errs fail_on gt =
      let o = gate_outcome sc fs errs fail_on gt in
      if exit_code o == exit_ok then none else some (exit_code o, explain o)
