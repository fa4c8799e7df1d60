-- ===== src/Cli/Exit.antt =====
-- internal/cli/exit.go: the exit codes and their ladder.
use plumbline.Base.{Str, ℕ, Bool, if◌then◌else◌}

pub record Outcome : Type 0 where
  pub interrupted : Bool
  pub internal : Bool
  pub timed_out : Bool
  pub usage : Bool
  pub privileges : Bool
  pub degraded : Bool
  pub failing : Bool
  pub count_gate : Str
  pub below_threshold : Bool

abbrev pub exit_ok : ℕ
exit_ok = 0

abbrev exit_usage : ℕ
exit_usage = 1

abbrev pub exit_findings : ℕ
exit_findings = 2

abbrev pub exit_threshold : ℕ
exit_threshold = 3

abbrev pub exit_degraded : ℕ
exit_degraded = 4

abbrev pub exit_privileges : ℕ
exit_privileges = 10

abbrev exit_timeout : ℕ
exit_timeout = 11

abbrev exit_internal : ℕ
exit_internal = 70

abbrev exit_interrupted : ℕ
exit_interrupted = 130

unfoldable pub exit_code : Outcome → ℕ
exit_code o =
    if o.interrupted
    then exit_interrupted
    else if o.internal
    then exit_internal
    else if o.timed_out
    then exit_timeout
    else if o.usage
    then exit_usage
    else if o.privileges
    then exit_privileges
    else if o.degraded
    then exit_degraded
    else if o.failing
    then exit_findings
    else if o.below_threshold
    then exit_threshold
    else exit_ok
