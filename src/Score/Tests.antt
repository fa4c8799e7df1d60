-- ===== src/Score/Tests.antt =====
-- Runs of internal/score/score.go, over numbers of thousandths in place of float64.
use plumbline.Finding.{pass, fail, skipped, unknown, critical, high, Finding, weight}
use plumbline.Score.{compute, percent}
use plumbline.Score.Laws.{passing_weight, scored_weight, compute-posture}
use plumbline.Go.Float.Milli.{milli, milli_laws}
use plumbline.Finding.Samples.{sample}
use plumbline.Base.{codes, ◌*◌, ◌≡◌, refl, none, some, List, [], ◌∷◌, arith, ltb, if◌then◌else◌}

abbrev mixed : List Finding
mixed =
    sample (codes "SSHD-0001") [] pass critical
    ∷ sample (codes "SSHD-0002") [] fail high
    ∷ sample (codes "SSHD-0003") [] unknown critical
    ∷ record (sample (codes "SSHD-0004") [] skipped critical) { skipped_by = codes "server" }
    ∷ []

-- Four sevenths of the weight passed, and two of the three applicable checks were evaluated.
mixed_figures :
    ((compute milli mixed 34).posture ≡ some 57100)
    × ((compute milli mixed 34).coverage ≡ some 66600)
unfolding compute weight
mixed_figures = (refl, refl)

compute-posture_example : (compute milli mixed 34).posture ≡ (
    if ltb 0 (scored_weight mixed)
    then some (percent milli (1000 * passing_weight mixed) (1000 * scored_weight mixed))
    else none)
compute-posture_example = compute-posture milli milli_laws mixed 34 (omega arith)

abbrev clean : List Finding
clean = sample (codes "SSHD-0001") [] pass critical ∷ []
