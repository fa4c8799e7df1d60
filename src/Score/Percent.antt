-- ===== src/Score/Percent.antt =====
-- The figures of internal/score/score.go lie between 0 and 100, and what the applicable set is.
use plumbline.Finding.{Finding, pass, fail, not_applicable, result_eq}
use plumbline.Go.Float.{Float64, Float64Laws}
use plumbline.Score.{evaluated, applicable, compute, percent, figures}
use plumbline.Score.Laws.{
  has, out_of_scope, passing_weight, scored_weight, passing-le-scored, scored_weight-le,
  no_fail_weights, compute-Tallies, compute-posture,
}
use plumbline.Base.{
  tally, ℕ, ◌+◌, ◌*◌, ◌^◌, ◌≤◌, ◌<◌, ◌≡◌, refl, ap, ◌∙◌, false, Option, none, some, List, [], ◌∷◌,
  arith, ltb, if◌then◌else◌, length,
}

tallies_applicable :
    (fs : List Finding)
    → tally (has pass) fs
        + tally (has fail) fs
        + tally (has not_applicable) fs
        + tally out_of_scope fs
      ≤ length fs
unfolding tally result_eq
tallies_applicable [] = omega arith
tallies_applicable (f ∷ fs) = ground (arith, tallies_applicable fs)

module _ (F : Float64) where
  -- What is applicable is the total less the NOT_APPLICABLE findings and those out of the profile,
  -- never below zero, and every finding with a verdict is applicable.
  compute-applicable :
      (fs : List Finding) (version : ℕ)
      → (applicable (compute F fs version).counts
            + tally (has not_applicable) fs
            + tally out_of_scope fs
          ≡ length fs)
        × (evaluated (compute F fs version).counts ≤ applicable (compute F fs version).counts)
  unfolding applicable evaluated
  compute-applicable fs version =
      ground (arith, compute-Tallies F fs version, tallies_applicable fs)

  module _ (laws : Float64Laws F) where
    -- No more than a hundred.
    abbrev pub AtMostHundred : Option F.Carrier → Type 0
    AtMostHundred none = Unit
    AtMostHundred (some x) = F.less (F.of_ℕ 100) x ≡ false

    div-le_one :
        (a b : ℕ)
        → a ≤ b
        → 0 < b
        → b ≤ 2 ^ 53
        → F.less (F.of_ℕ 1) (F.div (F.of_ℕ a) (F.of_ℕ b)) ≡ false
    div-le_one a b h pos k =
        let ordered : F.less (F.of_ℕ b) (F.of_ℕ a) ≡ false = ground (arith, laws.less_exact b a) in
        ground (arith, laws.div_self b pos k, laws.div_mono (F.of_ℕ a) (F.of_ℕ b) b pos k ordered)

    mul-le_hundred :
        (x : F.Carrier)
        → F.less (F.of_ℕ 1) x ≡ false
        → F.less (F.of_ℕ 100) (F.mul x (F.of_ℕ 100)) ≡ false
    mul-le_hundred x h =
        ground
          (arith, laws.one_mul 100 (omega arith), laws.mul_mono x (F.of_ℕ 1) 100 (omega arith) h)

    percent-AtMostHundred :
        (a b : ℕ)
        → a ≤ b
        → b ≤ 2 ^ 53
        → AtMostHundred (if ltb 0 b then some (percent F (F.of_ℕ a) (F.of_ℕ b)) else none)
    unfolding percent
    percent-AtMostHundred a b h k =
        ground (arith, div-le_one a b h, mul-le_hundred (F.div (F.of_ℕ a) (F.of_ℕ b)))

    compute-coverage :
        (fs : List Finding) (version : ℕ)
        → (compute F fs version).coverage ≡ (
            if ltb 0 (applicable (compute F fs version).counts)
            then some (
                percent F
                  (F.of_ℕ (evaluated (compute F fs version).counts))
                  (F.of_ℕ (applicable (compute F fs version).counts)))
            else none)
    unfolding compute figures
    compute-coverage fs version = refl

    -- Coverage and posture, where they are defined, are at most a hundred, for a list of
    -- at most 2 ^ 51 findings.
    pub compute-AtMostHundred :
        (fs : List Finding) (version : ℕ)
        → 4 * length fs ≤ 2 ^ 53
        → AtMostHundred (compute F fs version).coverage
          × AtMostHundred (compute F fs version).posture
    compute-AtMostHundred fs version room =
        let c = (compute F fs version).counts in
        (
          rw (compute-coverage fs version) (
              percent-AtMostHundred (evaluated c) (applicable c) (compute-applicable fs version).1
                (omega (arith, (compute-applicable fs version).0))),
          rw (compute-posture F laws fs version room) (
              percent-AtMostHundred (passing_weight fs) (scored_weight fs) (passing-le-scored fs)
                (omega (arith, scored_weight-le fs))),
        )

    percent_whole : (a : ℕ) → 0 < a → a ≤ 2 ^ 53 → percent F (F.of_ℕ a) (F.of_ℕ a) ≡ F.of_ℕ 100
    unfolding percent
    percent_whole a h k =
        ap (λ x. F.mul x (F.of_ℕ 100)) (laws.div_self a h k) ∙ laws.one_mul 100 (omega arith)

    -- Without a FAIL, posture is a hundred, or undefined where no PASS carries weight, for a list
    -- of at most 2 ^ 51 findings.
    posture_perfect :
        (fs : List Finding) (version : ℕ)
        → 4 * length fs ≤ 2 ^ 53
        → tally (has fail) fs ≡ 0
        → (compute F fs version).posture
          ≡ (if ltb 0 (passing_weight fs) then some (F.of_ℕ 100) else none)
    posture_perfect fs version room h = ground (
      arith,
      compute-posture F laws fs version room,
      no_fail_weights fs h,
      scored_weight-le fs,
      percent_whole (scored_weight fs),
    )

    -- Coverage is a hundred if every finding that is in scope and applicable reached a verdict and
    -- there is one, for a list of at most 2 ^ 51 findings.
    coverage_complete :
        (fs : List Finding) (version : ℕ)
        → 4 * length fs ≤ 2 ^ 53
        → evaluated (compute F fs version).counts ≡ applicable (compute F fs version).counts
        → 0 < evaluated (compute F fs version).counts
        → (compute F fs version).coverage ≡ some (F.of_ℕ 100)
    coverage_complete fs version room e pos =
        let c = (compute F fs version).counts in
        ground (
          arith,
          compute-coverage fs version,
          (compute-applicable fs version).0,
          percent_whole (applicable c),
        )
