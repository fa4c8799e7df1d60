-- ===== src/Cli/Gate/Laws.antt =====
-- When the gates of internal/cli/eval.go are met, which of them is heard, and what suppression does.
use plumbline.Cli.Exit.{exit_code, exit_findings, exit_degraded, exit_privileges, exit_threshold}
use plumbline.Cli.Gate.{
  rank_of, any_failure_at_or_above, count_severity, lacks_privilege, Gates, count_gate,
  coverage_gap, posture_gap, gate_outcome, gate_on,
}
use plumbline.Fact.{Error}
use plumbline.Finding.{fail, result_eq, severity_eq, Severity, critical, high, Finding}
use mathlib.Core.Path.{subst}
use plumbline.Go.Float.{Float64}
use plumbline.Score.{Score}
use plumbline.Suppress.{Time, Set, Decision, keep, lapsed, accept, rewrite, apply}
use plumbline.Suppress.Apply.{verdict, apply-findings}
use plumbline.Base.{
  tally, any, Str, ℕ, ◌≤◌, ◌<◌, ◌≡◌, refl, ap, ◌≢◌, ◌↔◌, ◌⊎◌, inl, inr, Bool, true, false, not,
  ◌&&◌, ◌||◌, Option, none, some, List, [], ◌∷◌, map, arith, ltb, leb, Bool-cases, is_some, length,
}

module _ (F : Float64) where
  -- No gate trips: no privilege gap that counts, no fact error, coverage defined and high enough if a
  -- minimum is set, no failure at the level or by count, and posture high enough where it is defined.
  pub record AllMet (sc : Score F) (fs : List Finding) (errs : List Error) (fail_on : ℕ)
      (gt : Gates F) : Type 0 where
    pub privileged : gt.strict_privileges ≡ true → lacks_privilege errs ≡ false
    pub collected : errs ≡ []
    pub covered : coverage_gap F gt sc.coverage ≡ false
    pub no_failure : any_failure_at_or_above fs fail_on ≡ false
    pub few_critical : 0 < gt.fail_on_critical → count_severity fs critical < gt.fail_on_critical
    pub few_high : 0 < gt.fail_on_high → count_severity fs high < gt.fail_on_high
    pub postured : posture_gap F gt sc.posture ≡ false

  -- `gateOn` returns no error exactly if every gate is met: the privileges where they are strict, no
  -- fact in error, the coverage, no failure at the level, the two counts, and the posture.
  pub gate_on-none_iff :
      (sc : Score F) (fs : List Finding) (errs : List Error) (fail_on : ℕ) (gt : Gates F)
      → (gate_on F sc fs errs fail_on gt ≡ none) ↔ AllMet sc fs errs fail_on gt
  unfolding gate_on gate_outcome exit_code count_gate
  gate_on-none_iff sc fs errs fail_on gt = (λ h. ground arith, λ m. ground arith)

  -- The gates, from the loudest to the quietest.
  pub record DeniedGate (errs : List Error) (gt : Gates F) : Type 0 where
    pub strict : gt.strict_privileges ≡ true
    pub denied : lacks_privilege errs ≡ true

  abbrev pub DegradedGate : Score F → List Error → Gates F → Type 0
  DegradedGate sc errs gt = (errs ≢ []) ⊎ (coverage_gap F gt sc.coverage ≡ true)

  -- A count gate that is on, and is reached.
  abbrev pub Reaches : ℕ → List Finding → Severity → Type 0
  Reaches n fs severity = (0 < n) × (n ≤ count_severity fs severity)

  abbrev pub FailingGate : List Finding → ℕ → Gates F → Type 0
  FailingGate fs fail_on gt =
      (any_failure_at_or_above fs fail_on ≡ true)
      ⊎ (Reaches gt.fail_on_critical fs critical ⊎ Reaches gt.fail_on_high fs high)

  -- What an exit code says: the gate that it names tripped, and no louder gate did.
  pub data Heard (sc : Score F) (fs : List Finding) (errs : List Error) (fail_on : ℕ) (gt : Gates F)
      : ℕ → Type 0 where
    denied : DeniedGate errs gt → Heard sc fs errs fail_on gt exit_privileges
    degraded :
        ¬ DeniedGate errs gt → DegradedGate sc errs gt → Heard sc fs errs fail_on gt exit_degraded
    failing :
        ¬ DeniedGate errs gt
        → ¬ DegradedGate sc errs gt
        → FailingGate fs fail_on gt
        → Heard sc fs errs fail_on gt exit_findings
    below :
        ¬ DeniedGate errs gt
        → ¬ DegradedGate sc errs gt
        → ¬ FailingGate fs fail_on gt
        → posture_gap F gt sc.posture ≡ true
        → Heard sc fs errs fail_on gt exit_threshold

  DeniedGate-iff :
      (errs : List Error) (gt : Gates F)
      → (gt.strict_privileges && lacks_privilege errs ≡ true) ↔ DeniedGate errs gt
  DeniedGate-iff errs gt = (
    λ h. record { strict = ground arith; denied = ground arith },
    λ d. ground (arith, d.strict, d.denied),
  )

  DegradedGate-iff :
      (sc : Score F) (errs : List Error) (gt : Gates F)
      → (ltb 0 (length errs) || coverage_gap F gt sc.coverage ≡ true) ↔ DegradedGate sc errs gt
  DegradedGate-iff sc [] gt = (λ h. inr (ground arith), λ d. ground arith)
  DegradedGate-iff sc (e ∷ errs) gt = (λ h. inl (λ k. ground arith), λ d. ground arith)

  Reaches-iff :
      (n : ℕ) (fs : List Finding) (severity : Severity)
      → (count_gate F n fs severity ≡ true) ↔ Reaches n fs severity
  unfolding count_gate
  Reaches-iff n fs severity = ground arith

  FailingGate-iff :
      (fs : List Finding) (fail_on : ℕ) (gt : Gates F)
      → (any_failure_at_or_above fs fail_on
            || (count_gate F gt.fail_on_critical fs critical
                || count_gate F gt.fail_on_high fs high)
          ≡ true)
        ↔ FailingGate fs fail_on gt
  FailingGate-iff fs fail_on gt =
      ground
        (arith, Reaches-iff gt.fail_on_critical fs critical, Reaches-iff gt.fail_on_high fs high)

  -- A gate that does not trip leaves its test false.
  unmet : {b : Bool} {P : Type 0} → (b ≡ true) ↔ P → b ≡ false → ¬ P
  unmet i h p = ground (arith, i.1 p)

  -- Where `gateOn` returns an exit code, it is that of the loudest gate that trips: 10, a denied fact
  -- where privileges are strict; 4, a fact in error or a gap in coverage; 2, a failure at the level, or
  -- a number of critical or high ones that reaches its count gate; 3, a posture below the threshold.
  -- The gate of the code did trip, and none of those named before it did.
  pub gate_on_ladder :
      (sc : Score F) (fs : List Finding) (errs : List Error) (fail_on : ℕ) (gt : Gates F) (code : ℕ)
      (message : Str)
      → gate_on F sc fs errs fail_on gt ≡ some (code, message)
      → Heard sc fs errs fail_on gt code
  unfolding gate_on gate_outcome exit_code count_gate
  gate_on_ladder sc fs errs fail_on gt code message h =
      let o = gate_outcome F sc fs errs fail_on gt in
      let said = λ (c : ℕ) (e : c ≡ code) (k : Heard sc fs errs fail_on gt c).
        subst (Heard sc fs errs fail_on gt) e k in
      let not_denied = unmet (DeniedGate-iff errs gt) in
      let not_degraded = unmet (DegradedGate-iff sc errs gt) in
      let not_failing = unmet (FailingGate-iff fs fail_on gt) in
      elim (Bool-cases o.privileges) [
        | inl p ↦ said exit_privileges (ground arith) (denied ((DeniedGate-iff errs gt).0 p))
        | inr p ↦ elim (Bool-cases o.degraded) [
          | inl d ↦
              said exit_degraded (ground arith)
                (degraded (not_denied p) ((DegradedGate-iff sc errs gt).0 d))
          | inr d ↦ elim (Bool-cases o.failing) [
            | inl f ↦
                said exit_findings (ground arith)
                  (failing (not_denied p) (not_degraded d) ((FailingGate-iff fs fail_on gt).0 f))
            | inr f ↦ elim (Bool-cases o.below_threshold) [
              | inl b ↦
                  said exit_threshold (ground arith)
                    (below (not_denied p) (not_degraded d) (not_failing f) b)
              | inr b ↦ absurd (ground arith)
            ]
          ]
        ]
      ]

any_mono :
    {A : Type 0} (p q : A → Bool) (l : List A)
    → ((a : A) → p a ≡ true → q a ≡ true)
    → any p l ≡ true
    → any q l ≡ true
unfolding any
any_mono p q [] h k = k
any_mono p q (x ∷ xs) h k = ground (arith, h x, any_mono p q xs h)

any-map :
    {A : Type 0} (p : A → Bool) (g : A → A) (l : List A) → any p (map g l) ≡ any (λ a. p (g a)) l
unfolding any
any-map p g [] = refl
any-map p g (x ∷ xs) = rw (any-map p g xs)

tally_mono :
    {A : Type 0} (p q : A → Bool) (l : List A)
    → ((a : A) → p a ≡ true → q a ≡ true)
    → tally p l ≤ tally q l
unfolding tally
tally_mono p q [] h = omega arith
tally_mono p q (x ∷ xs) h = ground (arith, h x, tally_mono p q xs h)

tally-map :
    {A : Type 0} (p : A → Bool) (g : A → A) (l : List A)
    → tally p (map g l) ≡ tally (λ a. p (g a)) l
unfolding tally
tally-map p g [] = refl
tally-map p g (x ∷ xs) = rw (tally-map p g xs)

rewrite_fail :
    (d : Decision) (f : Finding)
    → result_eq (rewrite d f).result fail ≡ true
    → (result_eq f.result fail ≡ true) × (rewrite d f ≡ f)
unfolding rewrite result_eq
rewrite_fail keep f h = (h, refl)
rewrite_fail (lapsed r) f h = (h, refl)
rewrite_fail (accept r) f h = absurd (ground arith)

-- A test that only a FAIL passes is passed by no finding that suppression changed.
rewrite-test :
    (q : Finding → Bool) (d : Decision) (f : Finding)
    → (result_eq (rewrite d f).result fail && q (rewrite d f)) ≡ true
    → (result_eq f.result fail && q f) ≡ true
rewrite-test q d f h = let k = rewrite_fail d f (ground arith) in ground (arith, k.0, ap q k.1)

any_failure_at_or_above-apply :
    (s : Option Set) (fs : List Finding) (at : Time) (threshold : ℕ)
    → any_failure_at_or_above (apply s fs at).findings threshold ≡ true
    → any_failure_at_or_above fs threshold ≡ true
unfolding any_failure_at_or_above
any_failure_at_or_above-apply s fs at threshold h =
    let q = λ (f : Finding). leb threshold (rank_of f.severity) in
    let p = λ (f : Finding). result_eq f.result fail && q f in
    let g = λ (f : Finding). rewrite (verdict s at f) f in
    let step =
      any_mono (λ (f : Finding). p (g f)) p fs (λ f k. rewrite-test q (verdict s at f) f k) in
    ground (arith, step, apply-findings s fs at, any-map p g fs)

count_severity-apply :
    (s : Option Set) (fs : List Finding) (at : Time) (severity : Severity)
    → count_severity (apply s fs at).findings severity ≤ count_severity fs severity
unfolding count_severity
count_severity-apply s fs at severity =
    let q = λ (f : Finding). not (is_some f.suppression) && severity_eq f.severity severity in
    let p = λ (f : Finding). result_eq f.result fail && q f in
    let g = λ (f : Finding). rewrite (verdict s at f) f in
    let step =
      tally_mono (λ (f : Finding). p (g f)) p fs (λ f k. rewrite-test q (verdict s at f) f k) in
    ground (arith, step, apply-findings s fs at, tally-map p g fs)

-- Accepting risks trips no gate on failures: if after suppression the level gate or one of the two
-- count gates trips, one of them did before. The gates on coverage and on posture are not spoken of.
pub any_failure-apply :
    (F : Float64) (s : Option Set) (fs : List Finding) (at : Time) (fail_on : ℕ) (gt : Gates F)
    → FailingGate F (apply s fs at).findings fail_on gt
    → FailingGate F fs fail_on gt
any_failure-apply F s fs at fail_on gt (inl h) =
    inl (any_failure_at_or_above-apply s fs at fail_on h)
any_failure-apply F s fs at fail_on gt (inr (inl (on, h))) =
    inr (inl (on, omega (arith, count_severity-apply s fs at critical)))
any_failure-apply F s fs at fail_on gt (inr (inr (on, h))) =
    inr (inr (on, omega (arith, count_severity-apply s fs at high)))
