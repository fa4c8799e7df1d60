-- ===== src/Catalog.antt =====
-- internal/catalog/catalog.go: the set of checks and how each is evaluated. A check's `Eval` is a
-- function from the facts to an outcome or a panic.
pub mod Evaluate
pub mod Holds
pub mod Build
mod Tests
use plumbline.Fact.{
  Error, ErrorKind, permission, parse, truncated, not_collected, internal, Set, err, ids, opaque,
}
use plumbline.Finding.{
  Result, fail, unknown, unset, result_eq, Severity, severity_unset, UnknownReason, no_reason,
  fact_missing, fact_version, ambiguous_state, Evidence, Remediation, ControlRef, Reference,
  Finding,
}
use plumbline.Finding.Fingerprint.{fingerprint}
use plumbline.Go.Decimal.{decimal}
use plumbline.Sanitize
use plumbline.Base.{
  Str, codes, is_empty, ℕ, Bool, true, false, not, Option, none, some, List, [], ◌∷◌, ◌++◌, map,
  ◌==◌, if◌then◌else◌, is_some, length,
}
use plumbline.Base.Text.{has_prefix}
use plumbline.Base.Maps.{Map, lookup, insert, contains}
use plumbline.Base.Sorting.{sort_by, sort_strings}

pub record Outcome : Type 0 where
  pub result : Result
  pub unknown_reason : UnknownReason
  pub subject : Str
  pub detail : Str
  pub severity : Severity
  pub evidence : List Evidence

-- A call of Go code: it returns, or it panics with a value that prints as the text.
pub data Ran (A : Type 0) : Type 0 where
  returned : A → Ran A
  panicked : Str → Ran A

pub record Deprecation : Type 0 where
  pub since_catalog : ℕ
  pub reason : Str
  pub replaced_by : List Str

pub record Check (V : Type 0) : Type 0 where
  pub id : Str
  pub check_module : Str
  pub title : Str
  pub description : Str
  pub base_severity : Severity
  pub tags : List Str
  pub requires : List Str
  -- `none` is a nil function.
  pub eval : Option (Set V → Ran Outcome)
  pub remediation : Option Remediation
  pub mappings : List ControlRef
  pub references : List Reference
  pub since_catalog : ℕ
  pub deprecated : Option Deprecation

pub record Catalog (V : Type 0) : Type 0 where
  pub checks : Map (Check V)
  pub order : List Str

-- Why `New` refuses a check.
pub data BuildError : Type 0 where
  no_id : BuildError
  no_module no_title no_severity no_eval no_requires : Str → BuildError
  wrong_prefix duplicate : Str → BuildError

pub data Built (V : Type 0) : Type 0 where
  built : Catalog V → Built V
  refused : BuildError → Built V

-- `finding.NewEvidence`
new_evidence : Str → ℕ → Str → Str → Evidence
new_evidence source line excerpt sha256 = record {
  source = Sanitize.text source;
  line = line;
  excerpt = Sanitize.excerpt excerpt;
  sha256 = sha256;
}

sanitize_evidence : List Evidence → List Evidence
unfolding new_evidence
sanitize_evidence = map (λ e. new_evidence e.source e.line e.excerpt e.sha256)

unfoldable reason_for : ErrorKind → UnknownReason
reason_for permission = UnknownReason.permission
reason_for parse = UnknownReason.parse
reason_for truncated = UnknownReason.truncated
reason_for not_collected = fact_missing
reason_for internal = UnknownReason.internal
reason_for _ = ambiguous_state

abbrev no_evidence : List Evidence
no_evidence = []

unknown_because : UnknownReason → Str → List Evidence → Finding → Finding
unknown_because reason detail evidence f = record f {
  result = unknown;
  unknown_reason = reason;
  detail = detail;
  evidence = evidence;
}

error_finding : Str → Error → Finding → Finding
error_finding id e =
    unknown_because (reason_for e.kind)
      (Sanitize.text (codes "required fact " ++ (id ++ (codes " unavailable: " ++ e.message))))
      (if is_empty e.path
        then no_evidence
        else sanitize_evidence (new_evidence e.path 0 e.message [] ∷ []))

missing_finding : Str → Finding → Finding
missing_finding id =
    unknown_because fact_missing (codes "required fact " ++ (id ++ codes " was not collected"))
      no_evidence

opaque_finding : Str → ℕ → Finding → Finding
opaque_finding id version =
    unknown_because fact_version
      (codes "required fact "
        ++ (id
            ++ (codes " is present in this bundle at version "
                ++ (decimal version
                    ++ codes
                        ", which this build of the catalog does not understand. Nothing may be concluded from it: the bundle was written by a different version of Plumbline, and re-evaluating it needs a build that knows this fact's shape."))))
      (sanitize_evidence (
        new_evidence id 0
          (codes "fact version " ++ (decimal version ++ codes " is not decodable by this build")) []
        ∷ []))

-- What `recover` makes of a panic.
recovered : Str → Finding → Finding
recovered value f = record f {
  result = unknown;
  unknown_reason = UnknownReason.internal;
  detail = codes "check panicked: " ++ value;
  remediation = none;
}

module _ {V : Type 0} where
  -- `validate`
  unfoldable pub validate : Check V → Option BuildError
  unfolding has_prefix severity_unset
  validate ck =
      if is_empty ck.id
      then some no_id
      else if is_empty ck.check_module
      then some (no_module ck.id)
      else if not (has_prefix ck.id (ck.check_module ++ codes "-"))
      then some (wrong_prefix ck.id)
      else if is_empty ck.title
      then some (no_title ck.id)
      else if severity_unset ck.base_severity
      then some (no_severity ck.id)
      else if not (is_some ck.eval)
      then some (no_eval ck.id)
      else if length ck.requires == 0
      then some (no_requires ck.id)
      else none

  -- The loop of `New`.
  pub build_all : List (Check V) → Catalog V → Built V
  unfolding validate
  build_all [] c = built c
  build_all (ck ∷ cks) c = elim (validate ck) [
    | some e ↦ refused e
    | none ↦ elim (is_some (lookup ck.id c.checks)) [
      | true ↦ refused (duplicate ck.id)
      | false ↦
          build_all cks
            (record { checks = insert ck.id ck c.checks; order = c.order ++ ck.id ∷ [] })
    ]
  ]

  sort_order : Built V → Built V
  unfolding sort_by
  sort_order (refused e) = refused e
  sort_order (built c) = built (record c { order = sort_strings c.order })

  -- `New`
  pub new_catalog : List (Check V) → Built V
  new_catalog cks = sort_order (build_all cks (record { checks = []; order = [] }))

  -- The finding before anything is known: identity, and the fingerprint of a host-wide check.
  pub blank_finding : Check V → Finding
  blank_finding ck = record {
    check_id = ck.id;
    check_module = ck.check_module;
    title = ck.title;
    result = unset;
    unknown_reason = no_reason;
    severity = ck.base_severity;
    base_severity = ck.base_severity;
    detail = [];
    evidence = [];
    remediation = none;
    mappings = ck.mappings;
    references = ck.references;
    fingerprint = fingerprint ck.id [];
    subject = [];
    skipped_by = [];
    suppression = none;
  }

  -- One required fact: the finding that it stops the check with, if it is not usable.
  gate_fact : Set V → Str → Finding → Option Finding
  gate_fact facts id f = elim (err facts id) [
    | some e ↦ some (error_finding id e f)
    | none ↦
        if not (contains (ids facts) id)
        then some (missing_finding id f)
        else elim (opaque facts id) [
          | some version ↦ some (opaque_finding id version f)
          | none ↦ none
        ]
  ]

  -- The loop over `Requires`: the first fact that is not usable decides.
  gate_facts : Set V → List Str → Finding → Option Finding
  gate_facts facts [] f = none
  gate_facts facts (id ∷ rest) f = elim (gate_fact facts id f) [
    | some g ↦ some g
    | none ↦ gate_facts facts rest f
  ]

  pub call : Option (Set V → Ran Outcome) → Set V → Ran Outcome
  call none facts =
      panicked (codes "runtime error: invalid memory address or nil pointer dereference")
  call (some eval) facts = eval facts

  fill_in : Check V → Ran Outcome → Finding → Finding
  fill_in ck (panicked value) f = recovered value f
  fill_in ck (returned oc) f = record f {
    result = oc.result;
    unknown_reason = oc.unknown_reason;
    detail = Sanitize.text oc.detail;
    evidence = sanitize_evidence oc.evidence;
    subject = Sanitize.text oc.subject;
    fingerprint = fingerprint ck.id (Sanitize.text oc.subject);
    severity = if severity_unset oc.severity then f.severity else oc.severity;
    remediation = if result_eq oc.result fail then ck.remediation else none;
  }

  -- `EvaluateOne`
  pub evaluate_one : Check V → Set V → Finding
  unfolding blank_finding
  evaluate_one ck facts = elim (gate_facts facts ck.requires (blank_finding ck)) [
    | some f ↦ f
    | none ↦ fill_in ck (call ck.eval facts) (blank_finding ck)
  ]

  zero_check : Check V
  zero_check = record {
    id = [];
    check_module = [];
    title = [];
    description = [];
    base_severity = Severity.other [];
    tags = [];
    requires = [];
    eval = none;
    remediation = none;
    mappings = [];
    references = [];
    since_catalog = 0;
    deprecated = none;
  }

  check_or_zero : Option (Check V) → Check V
  check_or_zero none = zero_check
  check_or_zero (some ck) = ck

  -- `EvaluateWith`: the findings, and those that an observer was told of, in order.
  pub evaluate_order : Catalog V → Set V → Bool → List Str → List Finding × List Finding
  unfolding check_or_zero
  evaluate_order c facts observed [] = ([], [])
  evaluate_order c facts observed (id ∷ rest) =
      let f = evaluate_one (check_or_zero (lookup id c.checks)) facts in
      let (fs, told) = evaluate_order c facts observed rest in
      (f ∷ fs, if observed then f ∷ told else told)

  pub evaluate_with : Catalog V → Set V → Bool → List Finding × List Finding
  evaluate_with c facts observed = evaluate_order c facts observed c.order

  -- `Evaluate`
  pub evaluate : Catalog V → Set V → List Finding
  evaluate c facts = (evaluate_with c facts false).0
