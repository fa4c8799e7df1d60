-- ===== src/Score.antt =====
-- internal/score/score.go: posture and coverage of a list of findings. The two figures are float64
-- values of an interface; a figure that is undefined is `none`.
pub mod Laws
pub mod Percent
pub mod Scope
mod Tests
use plumbline.Finding.{Result, pass, fail, not_applicable, skipped, unknown, unset, weight, Finding}
use plumbline.Go.Float.{Float64}
use plumbline.Base.{
  Str, ℕ, ◌+◌, ◌-◌, Bool, true, false, Option, none, some, List, [], ◌∷◌, ltb, ◌==◌, if◌then◌else◌,
}

pub record Counts : Type 0 where
  pub pass : ℕ
  pub fail : ℕ
  pub not_applicable : ℕ
  pub skipped : ℕ
  pub unknown : ℕ
  pub total : ℕ
  pub out_of_profile : ℕ

abbrev pub no_counts : Counts
no_counts = record {
  pass = 0;
  fail = 0;
  not_applicable = 0;
  skipped = 0;
  unknown = 0;
  total = 0;
  out_of_profile = 0;
}

unfoldable pub evaluated : Counts → ℕ
evaluated c = c.pass + c.fail

unfoldable pub applicable : Counts → ℕ
applicable c = c.total - c.not_applicable - c.out_of_profile

-- `f.SkippedBy != ""`
abbrev pub not_empty : Str → Bool
not_empty [] = false
not_empty (c ∷ cs) = true

module _ (F : Float64) where
  -- The variables of the loop of `Compute`.
  pub record Tally : Type 0 where
    pub counts : Counts
    pub pass_weight : F.Carrier
    pub evaluated_weight : F.Carrier

  -- One round of the loop, after `s.counts.Total++`: the switch on the result.
  tally_result : Result → Finding → Tally → Tally
  tally_result pass f t = record {
    counts = record t.counts { pass = t.counts.pass + 1 };
    pass_weight = F.add t.pass_weight (F.of_ℕ (weight f.severity));
    evaluated_weight = F.add t.evaluated_weight (F.of_ℕ (weight f.severity));
  }
  tally_result fail f t = record t {
    counts = record t.counts { fail = t.counts.fail + 1 };
    evaluated_weight = F.add t.evaluated_weight (F.of_ℕ (weight f.severity));
  }
  tally_result not_applicable f t = record t {
    counts = record t.counts { not_applicable = t.counts.not_applicable + 1 };
  }
  tally_result skipped f t = record t {
    counts = record t.counts {
      skipped = t.counts.skipped + 1;
      out_of_profile = t.counts.out_of_profile + (if not_empty f.skipped_by then 1 else 0);
    };
  }
  tally_result unknown f t = record t {
    counts = record t.counts { unknown = t.counts.unknown + 1 };
  }
  tally_result unset f t = t

  tally_finding : Finding → Tally → Tally
  unfolding tally_result
  tally_finding f t =
      tally_result f.result f (record t { counts = record t.counts { total = t.counts.total + 1 } })

  tally_all : List Finding → Tally → Tally
  unfolding tally_finding
  tally_all [] t = t
  tally_all (f ∷ fs) t = tally_all fs (tally_finding f t)

  -- `a / b * 100`
  unfoldable pub percent : F.Carrier → F.Carrier → F.Carrier
  percent a b = F.mul (F.div a b) (F.of_ℕ 100)

  pub record Score : Type 0 where
    pub catalog_version : ℕ
    pub counts : Counts
    pub coverage : Option F.Carrier
    pub posture : Option F.Carrier

  start : Tally
  start = record { counts = no_counts; pass_weight = F.of_ℕ 0; evaluated_weight = F.of_ℕ 0 }

  -- The figures of a finished tally.
  figures : ℕ → Tally → Score
  unfolding percent evaluated applicable
  figures version t = record {
    catalog_version = version;
    counts = t.counts;
    coverage =
        if ltb 0 (applicable t.counts)
        then some (percent (F.of_ℕ (evaluated t.counts)) (F.of_ℕ (applicable t.counts)))
        else none;
    posture =
        if F.less (F.of_ℕ 0) t.evaluated_weight
        then some (percent t.pass_weight t.evaluated_weight)
        else none;
  }

  unfoldable pub compute : List Finding → ℕ → Score
  unfolding tally_all start figures
  compute findings version = figures version (tally_all findings start)

  unfoldable comparable : Score → Score → Bool
  comparable a b = a.catalog_version == b.catalog_version
