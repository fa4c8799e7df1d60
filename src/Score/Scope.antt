-- ===== src/Score/Scope.antt =====
-- Findings out of the profile, in the figures of internal/score/score.go.
use plumbline.Finding.{Finding, result_eq}
use plumbline.Go.Float.{Float64}
use plumbline.Score.{
  Counts, Tally, tally_finding, tally_all, start, figures, compute, applicable, evaluated,
}
use plumbline.Score.Laws.{out_of_scope}
use plumbline.Base.{
  select, ℕ, ◌+◌, ◌≡◌, refl, inl, inr, Bool, true, false, not, List, [], ◌∷◌, arith, Bool-cases,
}

-- The findings that a profile did not put out of scope.
abbrev pub in_scope : Finding → Bool
in_scope f = not (out_of_scope f)

applicable-eq :
    (c d : Counts)
    → c.not_applicable ≡ d.not_applicable
    → c.total + d.out_of_profile ≡ d.total + c.out_of_profile
    → applicable c ≡ applicable d
unfolding applicable
applicable-eq c d h k = omega arith

evaluated-eq : (c d : Counts) → c.pass ≡ d.pass → c.fail ≡ d.fail → evaluated c ≡ evaluated d
unfolding evaluated
evaluated-eq c d h k = omega arith

module _ (F : Float64) where
  -- Tallies that differ in findings out of the profile alone.
  SameFigures : Tally F → Tally F → Type 0
  SameFigures t u =
      (t.pass_weight ≡ u.pass_weight)
      × (t.evaluated_weight ≡ u.evaluated_weight)
      × (t.counts.pass ≡ u.counts.pass)
      × (t.counts.fail ≡ u.counts.fail)
      × (t.counts.not_applicable ≡ u.counts.not_applicable)
      × (t.counts.total + u.counts.out_of_profile ≡ u.counts.total + t.counts.out_of_profile)

  tally_finding-SameFigures :
      (f : Finding) (t u : Tally F)
      → SameFigures t u
      → (in_scope f ≡ true → SameFigures (tally_finding F f t) (tally_finding F f u))
        × (in_scope f ≡ false → SameFigures (tally_finding F f t) u)
  unfolding tally_finding result_eq SameFigures
  tally_finding-SameFigures f t u h = ground arith

  tally_all-SameFigures :
      (fs : List Finding) (t u : Tally F)
      → SameFigures t u
      → SameFigures (tally_all F fs t) (tally_all F (select in_scope fs) u)
  unfolding tally_all select
  tally_all-SameFigures [] t u h = h
  tally_all-SameFigures (f ∷ fs) t u h = elim (Bool-cases (in_scope f)) [
    | inl e ↦ rw e (
        tally_all-SameFigures fs (tally_finding F f t) (tally_finding F f u)
          ((tally_finding-SameFigures f t u h).0 e))
    | inr e ↦
        rw e (
          tally_all-SameFigures fs (tally_finding F f t) u
            ((tally_finding-SameFigures f t u h).1 e))
  ]

  figures-SameFigures :
      (version : ℕ) (t u : Tally F)
      → SameFigures t u
      → ((figures F version t).posture ≡ (figures F version u).posture)
        × ((figures F version t).coverage ≡ (figures F version u).coverage)
  unfolding figures SameFigures
  figures-SameFigures version t u h =
      ground
        (arith, applicable-eq t.counts u.counts h.4 h.5, evaluated-eq t.counts u.counts h.2 h.3)

  -- Findings that a profile skipped change neither posture nor coverage.
  pub compute-in_scope :
      (fs : List Finding) (version : ℕ)
      → ((compute F fs version).posture ≡ (compute F (select in_scope fs) version).posture)
        × ((compute F fs version).coverage ≡ (compute F (select in_scope fs) version).coverage)
  unfolding compute start SameFigures
  compute-in_scope fs version =
      figures-SameFigures version (tally_all F fs (start F))
        (tally_all F (select in_scope fs) (start F))
        (tally_all-SameFigures fs (start F) (start F) (refl, refl, refl, refl, refl, refl))
