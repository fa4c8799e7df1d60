-- ===== src/Profile/Scope.antt =====
-- What `applyProfile` of internal/cli/profile.go does to the findings and to their score.
use plumbline.Finding.{skipped, Finding, Severity, result_eq}
use plumbline.Go.Float.{Float64}
use plumbline.Score.{compute, not_empty}
use plumbline.Score.Scope.{in_scope, compute-in_scope}
use plumbline.Profile.{
  Profile, PathMatch, includes, severity_for, override, scope_finding, apply_profile,
}
use plumbline.Base.{
  select, Str, ℕ, ◌≡◌, refl, sym, ap, ◌∙◌, inl, inr, true, false, Option, none, some, List, [], ◌∷◌,
  arith, Bool-cases, select-map,
}

-- The severity that an override leaves.
abbrev pub overridden : Option Severity → Severity → Severity
overridden none s = s
overridden (some t) s = t

module _ (path_match : PathMatch) (quote : Str → Str) where
  -- What is done to one finding: outside the profile it is SKIPPED and names the profile, and says
  -- nothing of a verdict; inside, its severity alone may change.
  pub record Scoped (p : Profile) (f g : Finding) : Type 0 where
    pub check_id : g.check_id ≡ f.check_id
    pub fingerprint : g.fingerprint ≡ f.fingerprint
    pub base_severity : g.base_severity ≡ f.base_severity
    pub outside :
        includes path_match p f.check_id ≡ false
        → (g.result ≡ skipped) × (g.skipped_by ≡ p.id) × (g.evidence ≡ []) × (g.remediation ≡ none)
    pub inside :
        includes path_match p f.check_id ≡ true
        → (g.result ≡ f.result)
          × (g.skipped_by ≡ f.skipped_by)
          × (g.evidence ≡ f.evidence)
          × (g.remediation ≡ f.remediation)
          × (g.severity ≡ overridden (severity_for p f.check_id) f.severity)

  pub AllScoped : Profile → List Finding → List Finding → Type 0
  AllScoped p [] [] = Unit
  AllScoped p (f ∷ fs) (g ∷ gs) = Scoped p f g × AllScoped p fs gs
  AllScoped p _ _ = ⊥

  override-Scoped :
      (p : Profile) (f : Finding)
      → includes path_match p f.check_id ≡ true
      → (o : Option Severity) → o ≡ severity_for p f.check_id
      → Scoped p f (override path_match quote o f)
  unfolding override
  override-Scoped p f h none e = record {
    check_id = refl;
    fingerprint = refl;
    base_severity = refl;
    outside = λ k. absurd (ground arith);
    inside = λ k. (refl, refl, refl, refl, ground arith);
  }
  override-Scoped p f h (some s) e = record {
    check_id = refl;
    fingerprint = refl;
    base_severity = refl;
    outside = λ k. absurd (ground arith);
    inside = λ k. (refl, refl, refl, refl, ground arith);
  }

  scope_finding-Scoped :
      (p : Profile) (f : Finding) → Scoped p f (scope_finding path_match quote p f)
  unfolding scope_finding
  scope_finding-Scoped p f = elim (Bool-cases (includes path_match p f.check_id)) [
    | inl e ↦ rw (e, scope_finding) (override-Scoped p f e (severity_for p f.check_id) refl)
    | inr e ↦
        rw (e, scope_finding)
          (record {
            check_id = refl;
            fingerprint = refl;
            base_severity = refl;
            outside = λ k. (refl, refl, refl, refl);
            inside = λ k. absurd (ground arith);
          })
  ]

  -- A profile keeps every finding in its place: each finding of the result is the finding at the same
  -- place with its identity. Where the profile does not include its check it is SKIPPED in the name of
  -- the profile, without evidence or remediation; otherwise it keeps its result, evidence and
  -- remediation and has the severity that the profile sets for the check, or else its own.
  pub apply_profile-AllScoped :
      (p : Profile) (fs : List Finding)
      → AllScoped p fs (apply_profile path_match quote (some p) fs)
  unfolding apply_profile AllScoped
  apply_profile-AllScoped p [] = tt
  apply_profile-AllScoped p (f ∷ fs) = (scope_finding-Scoped p f, apply_profile-AllScoped p fs)

  scope_finding-out :
      (p : Profile) (f : Finding)
      → not_empty p.id ≡ true
      → includes path_match p f.check_id ≡ false
      → in_scope (scope_finding path_match quote p f) ≡ false
  unfolding scope_finding result_eq
  scope_finding-out p f h e = rw (e, scope_finding) (rw h refl)

  select-apply_profile :
      (p : Profile) (fs : List Finding)
      → not_empty p.id ≡ true
      → select in_scope (apply_profile path_match quote (some p) fs)
        ≡ select in_scope (
            apply_profile path_match quote
              (some p)
              (select (λ f. includes path_match p f.check_id) fs))
  unfolding apply_profile
  select-apply_profile p fs h =
      select-map (λ f. includes path_match p f.check_id) (scope_finding path_match quote p) in_scope
        (λ f. scope_finding-out p f h) fs

  -- The score of a scoped run is that of the checks that the profile includes, evaluated alone, for
  -- a profile with an ID: what the profile leaves out counts neither for the host nor against it.
  pub apply_profile-score :
      (F : Float64) (p : Profile) (fs : List Finding) (version : ℕ)
      → not_empty p.id ≡ true
      → let scoped = compute F (apply_profile path_match quote (some p) fs) version in
        let alone =
          compute F
            (apply_profile path_match quote
              (some p)
              (select (λ f. includes path_match p f.check_id) fs))
            version in
        (scoped.posture ≡ alone.posture) × (scoped.coverage ≡ alone.coverage)
  apply_profile-score F p fs version h =
      let s = select-apply_profile p fs h in
      let all = compute-in_scope F (apply_profile path_match quote (some p) fs) version in
      let alone =
        compute-in_scope F
          (apply_profile path_match quote (some p)
            (select (λ f. includes path_match p f.check_id) fs))
          version in
      (
        all.0 ∙ ap (λ l. (compute F l version).posture) s ∙ sym alone.0,
        all.1 ∙ ap (λ l. (compute F l version).coverage) s ∙ sym alone.1,
      )
