-- ===== src/Finding.antt =====
-- internal/finding/finding.go: the output contract. Go's string types with a closed set of constants
-- are data types; `Result` has the zero value "" as `unset`, and a severity or a reason outside the
-- constants is `other`.
pub mod Fingerprint
pub mod Samples
mod Tests
use plumbline.Base.{Str, codes, str_eq, ℕ, Bool, true, false, ◌||◌, Option, List, []}

pub data Result : Type 0 where
  pass fail not_applicable skipped unknown unset : Result

Result-discrete : Discrete Result
Result-discrete = hlevel

unfoldable pub result_eq : Result → Result → Bool
result_eq pass pass = true
result_eq fail fail = true
result_eq not_applicable not_applicable = true
result_eq skipped skipped = true
result_eq unknown unknown = true
result_eq unset unset = true
result_eq _ _ = false

-- Whether a result takes part in the posture calculation.
unfoldable pub scores : Result → Bool
unfolding result_eq
scores r = result_eq r pass || result_eq r fail

pub data Severity : Type 0 where
  critical high medium low info : Severity
  other : Str → Severity

unfoldable pub severity_name : Severity → Str
severity_name critical = codes "CRITICAL"
severity_name high = codes "HIGH"
severity_name medium = codes "MEDIUM"
severity_name low = codes "LOW"
severity_name info = codes "INFO"
severity_name (other s) = s

-- `sev == want`: the Go type is a string.
unfoldable pub severity_eq : Severity → Severity → Bool
unfolding severity_name str_eq
severity_eq a b = str_eq (severity_name a) (severity_name b)

-- The Go method returns a float64; each weight is a small whole number.
unfoldable pub weight : Severity → ℕ
weight critical = 4
weight high = 3
weight medium = 2
weight low = 1
weight info = 0
weight (other s) = 0

-- `sev == ""`.
unfoldable pub severity_unset : Severity → Bool
severity_unset (other []) = true
severity_unset _ = false

pub data UnknownReason : Type 0 where
  no_reason : UnknownReason
  fact_missing permission parse truncated : UnknownReason
  fact_version ambiguous_state internal : UnknownReason

pub record Evidence : Type 0 where
  pub source : Str
  pub line : ℕ
  pub excerpt : Str
  pub sha256 : Str

pub record Remediation : Type 0 where
  pub summary : Str
  pub effort : Str
  pub steps : List Str
  pub commands : List Str
  pub caution : Str

pub record ControlRef : Type 0 where
  pub framework : Str
  pub control : Str

pub record Reference : Type 0 where
  pub title : Str
  pub url : Str

pub record Suppression : Type 0 where
  pub justification : Str
  pub expires_at : Str
  pub original_result : Result

pub record Finding : Type 0 where
  pub check_id : Str
  pub check_module : Str
  pub title : Str
  pub result : Result
  pub unknown_reason : UnknownReason
  pub severity : Severity
  pub base_severity : Severity
  pub detail : Str
  pub evidence : List Evidence
  pub remediation : Option Remediation
  pub mappings : List ControlRef
  pub references : List Reference
  pub fingerprint : Str
  pub subject : Str
  pub skipped_by : Str
  pub suppression : Option Suppression
