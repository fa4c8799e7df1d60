-- ===== src/Score/Laws.antt =====
-- What `Compute` counts, against a description that looks at each figure alone.
use plumbline.Finding.{
  Result, pass, fail, not_applicable, skipped, unknown, weight, Finding, result_eq, scores,
}
use plumbline.Go.Float.{Float64, Float64Laws}
use plumbline.Score.{
  Counts, no_counts, not_empty, Tally, tally_finding, tally_all, start, figures, compute, percent,
}
use plumbline.Base.{
  select, tally, ℕ, ◌+◌, ◌*◌, ◌^◌, ◌≤◌, ◌≡◌, refl, inl, inr, Bool, true, false, ◌&&◌, none, some,
  List, [], ◌∷◌, arith, ltb, if◌then◌else◌, Bool-cases, length,
}

-- The findings with one result.
abbrev pub has : Result → Finding → Bool
has r f = result_eq f.result r

-- The skipped findings that a profile put out of scope.
abbrev pub out_of_scope : Finding → Bool
out_of_scope f = result_eq f.result skipped && not_empty f.skipped_by

-- Each count is the number of findings that it is named after.
abbrev pub Tallies : Counts → Counts → List Finding → Type 0
Tallies c d fs =
    (c.pass ≡ d.pass + tally (has pass) fs)
    × (c.fail ≡ d.fail + tally (has fail) fs)
    × (c.not_applicable ≡ d.not_applicable + tally (has not_applicable) fs)
    × (c.skipped ≡ d.skipped + tally (has skipped) fs)
    × (c.unknown ≡ d.unknown + tally (has unknown) fs)
    × (c.total ≡ d.total + length fs)
    × (c.out_of_profile ≡ d.out_of_profile + tally out_of_scope fs)

-- The weights that count, summed exactly.
pub passing_weight : List Finding → ℕ
passing_weight [] = 0
passing_weight (f ∷ fs) = (if has pass f then weight f.severity else 0) + passing_weight fs

pub scored_weight : List Finding → ℕ
scored_weight [] = 0
scored_weight (f ∷ fs) = (if scores f.result then weight f.severity else 0) + scored_weight fs

pub passing-le-scored : (fs : List Finding) → passing_weight fs ≤ scored_weight fs
unfolding passing_weight scored_weight scores result_eq
passing-le-scored [] = omega arith
passing-le-scored (f ∷ fs) = ground (arith, passing-le-scored fs)

weight-le_four : (f : Finding) → weight f.severity ≤ 4
unfolding weight
weight-le_four f = ground arith

pub scored_weight-le : (fs : List Finding) → scored_weight fs ≤ 4 * length fs
unfolding scored_weight
scored_weight-le [] = omega arith
scored_weight-le (f ∷ fs) = ground (arith, weight-le_four f, scored_weight-le fs)

pub no_fail_weights :
    (fs : List Finding) → tally (has fail) fs ≡ 0 → passing_weight fs ≡ scored_weight fs
unfolding tally passing_weight scored_weight scores result_eq
no_fail_weights [] h = refl
no_fail_weights (f ∷ fs) h = ground (arith, no_fail_weights fs)

module _ (F : Float64) where
  tally_finding-Tallies :
      (f : Finding) (t : Tally F) → Tallies (tally_finding F f t).counts t.counts (f ∷ [])
  unfolding tally_finding tally result_eq
  tally_finding-Tallies f t = ground arith

  tally_all-Tallies :
      (fs : List Finding) (t : Tally F) → Tallies (tally_all F fs t).counts t.counts fs
  unfolding tally_all tally
  tally_all-Tallies [] t = ground arith
  tally_all-Tallies (f ∷ fs) t =
      ground (arith, tally_finding-Tallies f t, tally_all-Tallies fs (tally_finding F f t))

  -- The counts of a score are the numbers of findings by result; the total counts all of them.
  pub compute-Tallies :
      (fs : List Finding) (version : ℕ) → Tallies (compute F fs version).counts no_counts fs
  unfolding compute
  compute-Tallies fs version = tally_all-Tallies fs (start F)

  -- The weights of a tally that has seen exact sums are exact sums.
  abbrev Exact : Tally F → ℕ → ℕ → Type 0
  Exact t p e = (t.pass_weight ≡ F.of_ℕ p) × (t.evaluated_weight ≡ F.of_ℕ e)

  module _ (laws : Float64Laws F) where
    tally_finding-Exact :
        (f : Finding) (t : Tally F) (p e : ℕ)
        → Exact t p e
        → p ≤ e
        → e + 4 ≤ 2 ^ 53
        → Exact (tally_finding F f t) (p + passing_weight (f ∷ [])) (e + scored_weight (f ∷ []))
    unfolding tally_finding passing_weight scored_weight scores result_eq
    tally_finding-Exact f t p e h le room = ground (
      arith,
      weight-le_four f,
      laws.add_exact p (weight f.severity),
      laws.add_exact e (weight f.severity),
    )

    tally_all-Exact :
        (fs : List Finding) (t : Tally F) (p e : ℕ)
        → Exact t p e
        → p ≤ e
        → e + 4 * length fs ≤ 2 ^ 53
        → Exact (tally_all F fs t) (p + passing_weight fs) (e + scored_weight fs)
    unfolding tally_all passing_weight scored_weight
    tally_all-Exact [] t p e h le room = ground arith
    tally_all-Exact (f ∷ fs) t p e h le room =
        let p' = p + passing_weight (f ∷ []) in
        let e' = e + scored_weight (f ∷ []) in
        ground (
          arith,
          tally_finding-Exact f t p e h le,
          passing-le-scored (f ∷ []),
          weight-le_four f,
          scored_weight-le (f ∷ []),
          tally_all-Exact fs (tally_finding F f t) p' e',
        )

    -- Posture is a hundred times the share of the weight of PASS in the weight of PASS and FAIL,
    -- and is undefined exactly when that weight is zero; for a list of at most 2 ^ 51 findings.
    pub compute-posture :
        (fs : List Finding) (version : ℕ)
        → 4 * length fs ≤ 2 ^ 53
        → (compute F fs version).posture ≡ (
            if ltb 0 (scored_weight fs)
            then some (percent F (F.of_ℕ (passing_weight fs)) (F.of_ℕ (scored_weight fs)))
            else none)
    unfolding compute start figures
    compute-posture fs version room =
        let t = tally_all F fs (start F) in
        ground (
          arith,
          tally_all-Exact fs (start F) 0 0 (refl, refl),
          scored_weight-le fs,
          laws.less_exact 0 (scored_weight fs),
        )

  SameWeights : Tally F → Tally F → Type 0
  SameWeights t u = (t.pass_weight ≡ u.pass_weight) × (t.evaluated_weight ≡ u.evaluated_weight)

  tally_finding-SameWeights :
      (f : Finding) (t u : Tally F)
      → SameWeights t u
      → (scores f.result ≡ true → SameWeights (tally_finding F f t) (tally_finding F f u))
        × (scores f.result ≡ false → SameWeights (tally_finding F f t) u)
  unfolding tally_finding scores result_eq SameWeights
  tally_finding-SameWeights f t u h = ground arith

  tally_all-SameWeights :
      (fs : List Finding) (t u : Tally F)
      → SameWeights t u
      → SameWeights (tally_all F fs t) (tally_all F (select (λ f. scores f.result) fs) u)
  unfolding tally_all select
  tally_all-SameWeights [] t u h = h
  tally_all-SameWeights (f ∷ fs) t u h = elim (Bool-cases (scores f.result)) [
    | inl e ↦ rw e (
        tally_all-SameWeights fs (tally_finding F f t) (tally_finding F f u)
          ((tally_finding-SameWeights f t u h).0 e))
    | inr e ↦
        rw e (
          tally_all-SameWeights fs (tally_finding F f t) u
            ((tally_finding-SameWeights f t u h).1 e))
  ]

  -- Findings that reached no verdict leave posture alone: it is the posture of the PASS and FAIL
  -- findings by themselves, whatever was skipped, unknown or not applicable.
  posture-select :
      (fs : List Finding) (version : ℕ)
      → (compute F fs version).posture
        ≡ (compute F (select (λ f. scores f.result) fs) version).posture
  unfolding compute start figures SameWeights
  posture-select fs version =
      let (p, e) = tally_all-SameWeights fs (start F) (start F) (refl, refl) in rw (p, e)
