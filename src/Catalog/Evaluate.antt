-- ===== src/Catalog/Evaluate.antt =====
-- The guarantees of `EvaluateOne` of internal/catalog/catalog.go.
use plumbline.Catalog.{
  Outcome, Ran, returned, panicked, Check, blank_finding, unknown_because, error_finding,
  missing_finding, opaque_finding, gate_fact, gate_facts, recovered, call, fill_in, evaluate_one,
}
use plumbline.Fact.{Set, err, ids, opaque}
use plumbline.Finding.{fail, unknown, result_eq, Finding}
use plumbline.Finding.Fingerprint.{fingerprint}
use plumbline.Base.{
  Str, ◌≡◌, refl, ◌≢◌, ◌⊎◌, inl, inr, true, none, some, List, [], ◌∷◌, arith, if◌then◌else◌,
  Option-cases, All,
}
use plumbline.Base.Maps.{contains}

-- A gate that stops the check leaves an UNKNOWN about the same check.
record Stopped (f g : Finding) : Type 0 where
  result : g.result ≡ unknown
  check_module : g.check_module ≡ f.check_module
  title : g.title ≡ f.title
  base_severity : g.base_severity ≡ f.base_severity
  check_id : g.check_id ≡ f.check_id
  fingerprint : g.fingerprint ≡ f.fingerprint
  subject : g.subject ≡ f.subject
  remediation : g.remediation ≡ f.remediation

Ran-cases : {A : Type 0} (r : Ran A) → ((a : A) × (r ≡ returned a)) ⊎ ((v : Str) × (r ≡ panicked v))
Ran-cases (returned a) = inl (a, refl)
Ran-cases (panicked v) = inr (v, refl)

module _ {V : Type 0} where
  -- A fact that a check may read: no error, present, and of a shape that this build knows.
  abbrev pub Usable : Set V → Str → Type 0
  Usable facts id =
      (err facts id ≡ none) × (contains (ids facts) id ≡ true) × (opaque facts id ≡ none)

  gate_fact-Stopped :
      (facts : Set V) (id : Str) (f : Finding) {g : Finding}
      → gate_fact facts id f ≡ some g
      → Stopped f g
  unfolding gate_fact error_finding missing_finding opaque_finding unknown_because
  gate_fact-Stopped facts id f h = ground arith

  gate_fact-Usable :
      (facts : Set V) (id : Str) (f : Finding) → gate_fact facts id f ≡ none → Usable facts id
  unfolding gate_fact error_finding missing_finding opaque_finding unknown_because
  gate_fact-Usable facts id f h = ground arith

  gate_facts-Stopped :
      (facts : Set V) (rest : List Str) (f : Finding) {g : Finding}
      → gate_facts facts rest f ≡ some g
      → Stopped f g
  unfolding gate_facts
  gate_facts-Stopped facts [] f h = absurd (ground arith)
  gate_facts-Stopped facts (id ∷ rest) f {g} h = elim (Option-cases (gate_fact facts id f)) [
    | inl e ↦ gate_facts-Stopped facts rest f {g = g} (ground arith)
    | inr (x, e) ↦ gate_fact-Stopped facts id f {g = g} (ground arith)
  ]

  gate_facts-Usable :
      (facts : Set V) (rest : List Str) (f : Finding)
      → gate_facts facts rest f ≡ none
      → All (Usable facts) rest
  unfolding gate_facts
  gate_facts-Usable facts [] f h = tt
  gate_facts-Usable facts (id ∷ rest) f h = elim (Option-cases (gate_fact facts id f)) [
    | inl e ↦ (gate_fact-Usable facts id f e, gate_facts-Usable facts rest f (ground arith))
    | inr (x, e) ↦ absurd (ground arith)
  ]

  -- What a check that the gate lets through returned.
  ran-Usable :
      (ck : Check V) (facts : Set V)
      → gate_facts facts ck.requires (blank_finding ck) ≡ none
      → (evaluate_one ck facts).result ≢ unknown
      → (oc : Outcome) × (call ck.eval facts ≡ returned oc)
        × (oc.result ≡ (evaluate_one ck facts).result)
  unfolding evaluate_one fill_in recovered
  ran-Usable ck facts e h = elim (Ran-cases (call ck.eval facts)) [
    | inl (oc, r) ↦ (oc, r, ground arith)
    | inr (v, r) ↦ absurd (h (ground arith))
  ]

  -- A verdict is never made of a fact that could not be read: a result other than UNKNOWN means that
  -- every required fact was collected without error in a shape that this build knows, and that the
  -- check returned that result.
  pub evaluate_one-Usable :
      (ck : Check V) (facts : Set V)
      → (evaluate_one ck facts).result ≢ unknown
      → All (Usable facts) ck.requires
        × ((oc : Outcome) × (call ck.eval facts ≡ returned oc)
            × (oc.result ≡ (evaluate_one ck facts).result))
  unfolding evaluate_one fill_in recovered
  evaluate_one-Usable ck facts h =
      elim (Option-cases (gate_facts facts ck.requires (blank_finding ck))) [
        | inr (g, e) ↦ absurd (
            h (
              rw (e, evaluate_one)
                ((gate_facts-Stopped facts ck.requires (blank_finding ck) {g = g} e).result)))
        | inl e ↦
            (gate_facts-Usable facts ck.requires (blank_finding ck) e, ran-Usable ck facts e h)
      ]

  -- A finding that is about a check.
  pub record Identified (ck : Check V) (f : Finding) : Type 0 where
    pub check_id : f.check_id ≡ ck.id
    pub check_module : f.check_module ≡ ck.check_module
    pub title : f.title ≡ ck.title
    pub base_severity : f.base_severity ≡ ck.base_severity
    pub fingerprinted : f.fingerprint ≡ fingerprint ck.id f.subject
    pub remediated : f.remediation ≡ (if result_eq f.result fail then ck.remediation else none)

  Stopped-Identified : (ck : Check V) {g : Finding} → Stopped (blank_finding ck) g → Identified ck g
  unfolding blank_finding result_eq
  Stopped-Identified ck {g} s = ground arith

  fill_in-Identified :
      (ck : Check V) (r : Ran Outcome) → Identified ck (fill_in ck r (blank_finding ck))
  unfolding fill_in recovered blank_finding result_eq
  fill_in-Identified ck (returned oc) = ground arith
  fill_in-Identified ck (panicked v) = ground arith

  -- On every path out of `EvaluateOne`, a panic included, the finding has the identity of the check
  -- and the fingerprint of the subject that it reports, and only a FAIL proposes a remediation.
  pub evaluate_one-Identified :
      (ck : Check V) (facts : Set V) → Identified ck (evaluate_one ck facts)
  unfolding evaluate_one
  evaluate_one-Identified ck facts =
      elim (Option-cases (gate_facts facts ck.requires (blank_finding ck))) [
        | inr (g, e) ↦
            rw (e, evaluate_one)
              (Stopped-Identified ck
                (gate_facts-Stopped facts ck.requires (blank_finding ck) {g = g} e))
        | inl e ↦ rw (e, evaluate_one) (fill_in-Identified ck (call ck.eval facts))
      ]
